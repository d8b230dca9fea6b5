-- ===== src/Gateway/Race/Settled.antt =====
-- A race that has an answer keeps it.
use ordofi.Base.{
  ℕ, List, [], ◌∷◌, Bool, false, not, ◌&&◌, Option, none, some, is_some, ◌≡◌, ◌≢◌, refl, if_elim,
}
use ordofi.Gateway.Race.{
  Answer, value, failure, Race, Event, timer, primary_settles, hedge_settles, on_timer, on_primary,
  on_hedge, reject_primary, step, run,
}

module _ {ℓ} {T : Type ℓ} where
  abbrev Settled : Answer T → Bool → Race T → Type ℓ
  Settled a started r = (r.settled ≡ some a) × (r.hedge_started ≡ started)

  -- A branch under `settled` of a race that is.
  not_reached : (r : Race T) (a : Answer T) → r.settled ≡ some a → is_some r.settled ≢ false
  not_reached r a s f = let x = rw s at f in cc

  step-Settled :
      (r : Race T) (e : Event T) (a : Answer T) (started : Bool)
      → Settled a started r
      → Settled a started (step r e)
  unfolding step on_primary on_hedge reject_primary
  step-Settled r (timer may_hedge) a b h =
      if_elim (Settled a b) r.timer_set
        (λ _.
          unfold on_timer in
          if_elim (Settled a b) (is_some r.settled) (λ _. h) (λ f. absurd (not_reached r a h.0 f)))
        (λ _. h)
  step-Settled r (primary_settles x) a b h =
      if_elim (Settled a b) (is_some r.primary) (λ _. h) (λ _. primary x)
    where
      primary : (x : Answer T) → Settled a b (on_primary x r)
      primary (value v) =
          if_elim (Settled a b) (is_some r.settled) (λ _. h) (λ f. absurd (not_reached r a h.0 f))
      primary (failure e) =
          if_elim (Settled a b) (is_some r.settled) (λ _. h) (λ f. absurd (not_reached r a h.0 f))
  step-Settled r (hedge_settles x) a b h =
      if_elim (Settled a b) (r.hedge_started && not r.hedge_done) (λ _. hedge x) (λ _. h)
    where
      rejected : (o : Option ℕ) (r' : Race T) → Settled a b r' → Settled a b (reject_primary o r')
      rejected none r' h' = h'
      rejected (some e) r' h' =
          if_elim (Settled a b) (is_some r'.settled) (λ _. h')
            (λ f. absurd (not_reached r' a h'.0 f))

      hedge : (x : Answer T) → Settled a b (on_hedge x r)
      hedge (value v) =
          if_elim (Settled a b) (is_some r.settled) (λ _. h) (λ f. absurd (not_reached r a h.0 f))
      hedge (failure e) = rejected r.primary_error _ h

  -- Once the race has an answer it keeps it, whatever happens later, and it fires no hedge any more.
  pub run-settled :
      (r : Race T) (es : List (Event T)) (a : Answer T)
      → r.settled ≡ some a
      → ((run r es).settled ≡ some a) × ((run r es).hedge_started ≡ r.hedge_started)
  unfolding run
  run-settled r es a s = all r es (s, refl)
    where
      all :
          (r' : Race T) (es : List (Event T))
          → Settled a r.hedge_started r'
          → Settled a r.hedge_started (run r' es)
      all r' [] h = h
      all r' (e ∷ es) h = all (step r' e) es (step-Settled r' e a r.hedge_started h)
