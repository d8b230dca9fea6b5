-- ===== src/Gateway/Inflight/Release.antt =====
-- Whom a released slot goes to.
use mathlib.Core.List.{map, append-nil, append_assoc}
use ordofi.Base.{
  ℕ, zero, suc, List, [], ◌∷◌, ◌++◌, Option, some, or_else, ltb, ◌==◌, ◌≡◌, ◌≤◌, ◌<◌, refl, sym, ap,
  ◌∙◌, arith, length, Option-cases, inl, inr, false,
}
use ordofi.Base.Text.{Text, text_eq_refl}
use ordofi.Base.Assoc.{get, get-put, get-remove}
use ordofi.Gateway.Inflight.{InflightCap, inflight, queue, acquire, keep_queue, release_to, release}

-- A released slot passes to the first of the queue, which keeps its order.
release_first :
    (c : InflightCap) (key : Text) (next : ℕ) (rest : List ℕ)
    → get key c.waiters ≡ some (next ∷ rest)
    → ((release key c).1 ≡ some next)
      × (inflight (release key c).0 key ≡ inflight c key)
      × (queue (release key c).0 key ≡ rest)
unfolding release
release_first c key next rest e =
    rw (e, release_to) (refl, inflight-keep_queue rest, queue-keep_queue rest)
  where
    inflight-keep_queue : (q : List ℕ) → inflight (keep_queue key q c) key ≡ inflight c key
    inflight-keep_queue [] = unfold inflight keep_queue in refl
    inflight-keep_queue (x ∷ xs) = unfold inflight keep_queue in refl

    queue-keep_queue : (q : List ℕ) → queue (keep_queue key q c) key ≡ q
    queue-keep_queue [] =
        unfold queue keep_queue in rw (get-remove key key c.waiters, text_eq_refl key) refl
    queue-keep_queue (x ∷ xs) =
        unfold queue keep_queue in rw (get-put key key (x ∷ xs) c.waiters, text_eq_refl key) refl

-- What becomes of the queue and the count where a client has to wait.
acquire_waits :
    (c : InflightCap) (key : Text) (id : ℕ)
    → 0 < c.max
    → c.max ≤ inflight c key
    → let d = (acquire key id c).0 in
      (d.max ≡ c.max) × (inflight d key ≡ inflight c key) × (queue d key ≡ queue c key ++ id ∷ [])
unfolding acquire
acquire_waits c key id h k =
    let some_max : (c.max == 0) ≡ false = ground arith in
    let full : ltb (inflight c key) c.max ≡ false = ground arith in
    rw (some_max, full)
      (
        refl,
        unfold inflight in refl,
        unfold queue in
            rw (get-put key key (queue c key ++ id ∷ []) c.waiters, text_eq_refl key) refl,
      )

-- Clients that come for the key one after the other.
unfoldable pub line_up : Text → List ℕ → InflightCap → InflightCap
unfolding acquire
line_up key [] c = c
line_up key (id ∷ ids) c = line_up key ids (acquire key id c).0

-- Whom the next `n` releases of the key pass the slot to.
unfoldable pub served : Text → ℕ → InflightCap → List (Option ℕ)
unfolding release
served key zero c = []
served key (suc n) c = (release key c).1 ∷ served key n (release key c).0

queue-line_up :
    (ids : List ℕ) (c : InflightCap) (key : Text)
    → 0 < c.max
    → c.max ≤ inflight c key
    → queue (line_up key ids c) key ≡ queue c key ++ ids
unfolding line_up
queue-line_up [] c key h k = sym (append-nil (queue c key))
queue-line_up (id ∷ ids) c key h k =
    let (m, n, q) = acquire_waits c key id h k in
    queue-line_up ids (acquire key id c).0 key (rw m h) (rw (m, n) k)
    ∙ ap (λ x. x ++ ids) q
    ∙ append_assoc (queue c key) (id ∷ []) ids

get-queue :
    (c : InflightCap) (key : Text) (x : ℕ) (xs : List ℕ)
    → queue c key ≡ x ∷ xs
    → get key c.waiters ≡ some (x ∷ xs)
unfolding queue
get-queue c key x xs h = elim (Option-cases (get key c.waiters)) [
  | inl e ↦ absurd (ground (arith, e, h))
  | inr (q, e) ↦ e ∙ ap some (ap (λ o. or_else o []) (sym e) ∙ h)
]

served-queue :
    (ids : List ℕ) (c : InflightCap) (key : Text)
    → queue c key ≡ ids
    → served key (length ids) c ≡ map some ids
unfolding served
served-queue [] c key h = refl
served-queue (id ∷ ids) c key h =
    let (next, _, rest) = release_first c key id ids (get-queue c key id ids h) in
    rw (next, served-queue ids (release key c).0 key rest) refl

-- Clients who come for a key whose slots are all taken, nobody waiting, are served in the order in
-- which they came: each release passes the slot to the one who has waited longest, and none of them
-- is passed over.
pub served-line_up :
    (c : InflightCap) (key : Text) (ids : List ℕ)
    → 0 < c.max
    → c.max ≤ inflight c key
    → queue c key ≡ []
    → served key (length ids) (line_up key ids c) ≡ map some ids
served-line_up c key ids h k e =
    served-queue ids (line_up key ids c) key (queue-line_up ids c key h k ∙ ap (λ q. q ++ ids) e)
