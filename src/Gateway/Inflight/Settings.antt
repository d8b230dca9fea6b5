-- ===== src/Gateway/Inflight/Settings.antt =====
-- No step changes the cap of the client slots.
use ordofi.Base.{
  ℕ, ◌-◌, List, [], ◌∷◌, or_else, ◌≡◌, refl, ◌∙◌, if_elim, ltb, ◌==◌, Option-cases, inl, inr,
}
use ordofi.Base.Text.{Text}
use ordofi.Base.Assoc.{get}
use ordofi.Gateway.Inflight.{
  InflightCap, Acquired, World, Event, request, timer, finish, inflight, acquire, splice,
  keep_queue, expire_in, expire, free_slot, release_to, release, granted, find_slot, passed,
  finish_slot, step,
}

max-keep_queue : (key : Text) (q : List ℕ) (c : InflightCap) → (keep_queue key q c).max ≡ c.max
unfolding keep_queue
max-keep_queue key [] c = refl
max-keep_queue key (x ∷ xs) c = refl

max-free_slot : (key : Text) (c : InflightCap) → (free_slot key c).max ≡ c.max
unfolding free_slot
max-free_slot key c =
    if_elim (λ (r : InflightCap). r.max ≡ c.max) (or_else (get key c.counts) 1 - 1 == 0) (λ _. refl)
      (λ _. refl)

max-expire : (key : Text) (id : ℕ) (c : InflightCap) → (expire key id c).max ≡ c.max
unfolding expire
max-expire key id c = elim (Option-cases (get key c.waiters)) [
  | inl e ↦ rw (e, expire_in) refl
  | inr (q, e) ↦ rw (e, expire_in) (max-keep_queue key (splice id q) c)
]

max-acquire :
    (key : Text) (id : ℕ) (c : InflightCap) (slots : List (ℕ × Text))
    → (granted key id (acquire key id c) slots).cap.max ≡ c.max
unfolding acquire granted
max-acquire key id c slots =
    if_elim Same (c.max == 0) (λ _. refl)
      λ _. if_elim Same (ltb (inflight c key) c.max) (λ _. refl) (λ _. refl)
  where
    Same : InflightCap × Acquired → Type 0
    Same r = (granted key id r slots).cap.max ≡ c.max

max-release :
    (key : Text) (c : InflightCap) (rest : List (ℕ × Text))
    → (passed key (release key c) rest).cap.max ≡ c.max
unfolding release passed
max-release key c rest = elim (Option-cases (get key c.waiters)) [
  | inl e ↦ rw (e, release_to) (max-free_slot key c)
  | inr ([], e) ↦
      rw (e, release_to) (max-free_slot key (keep_queue key [] c) ∙ max-keep_queue key [] c)
  | inr (next ∷ q, e) ↦ rw (e, release_to) (max-keep_queue key q c)
]

pub max-step : (w : World) (e : Event) → (step w e).cap.max ≡ w.cap.max
unfolding step
max-step w (request key id) = max-acquire key id w.cap w.slots
max-step w (timer key id) = max-expire key id w.cap
max-step w (finish id) = elim (Option-cases (find_slot id w.slots)) [
  | inl e ↦ rw (e, finish_slot) refl
  | inr ((key, rest), e) ↦ rw (e, finish_slot) (max-release key w.cap rest)
]
