-- ===== src/Gateway/Inflight/Bounds.antt =====
-- The cap is never exceeded, and a client waits only while its slots are all in use.
use ordofi.Base.{
  ℕ, ◌+◌, ◌-◌, ◌≤◌, ◌<◌, List, [], ◌∷◌, ◌++◌, false, none, some, or_else, ◌≡◌, ◌≢◌, refl, sym, ap,
  ◌∙◌, arith, if_elim, ltb→lt, ltb, ◌==◌, if◌then◌else◌, Bool-cases, Option-cases, inl, inr, ◌⊎◌,
}
use ordofi.Base.Text.{Text, text_eq, text_eq_iff}
use ordofi.Base.Assoc.{get, put, remove, get-put, get-remove}
use ordofi.Gateway.Inflight.{
  InflightCap, Acquired, World, Event, request, timer, finish, inflight, queue, acquire, splice,
  keep_queue, expire_in, expire, free_slot, release_to, release, granted, find_slot, passed,
  finish_slot, step, run, idle, held,
}
use ordofi.Gateway.Inflight.Settings.{max-step}

-- The books of one key: its count is the number of its slots, at most the cap; a queue is not empty,
-- and where there is one every slot is taken.
pub record IsBalanced (c : InflightCap) (slots : List (ℕ × Text)) (key : Text) : Type 0 where
  pub counted : inflight c key ≡ held key slots
  pub capped : inflight c key ≤ c.max
  pub queued : (queue c key ≡ []) ⊎ (inflight c key ≡ c.max)
  pub waits : get key c.waiters ≢ some []

abbrev IsFair : World → Type 0
IsFair w = (key : Text) → IsBalanced w.cap w.slots key

module _ (c : InflightCap) (slots : List (ℕ × Text)) (key j : Text) (b : IsBalanced c slots j) where
  -- One more slot of `key`, below the cap.
  take-IsBalanced :
      (id : ℕ)
      → inflight c key < c.max
      → IsBalanced
          (record c { counts = put key (inflight c key + 1) c.counts })
          ((id, key) ∷ slots)
          j
  unfolding inflight queue held
  take-IsBalanced id h = record {
    counted = ground (arith, get-put key j (inflight c key + 1) c.counts, text_eq_iff key j);
    capped = ground (arith, get-put key j (inflight c key + 1) c.counts, text_eq_iff key j);
    queued = ground (arith, get-put key j (inflight c key + 1) c.counts, text_eq_iff key j);
    waits = b.waits;
  }

  -- A queue that is not empty, at the cap.
  enqueue-IsBalanced :
      (q : List ℕ)
      → inflight c key ≡ c.max
      → q ≢ []
      → IsBalanced (record c { waiters = put key q c.waiters }) slots j
  unfolding inflight queue
  enqueue-IsBalanced q h ne = record {
    counted = b.counted;
    capped = b.capped;
    queued = ground (arith, get-put key j q c.waiters, text_eq_iff key j);
    waits = λ e. absurd (ground (arith, get-put key j q c.waiters, b.waits));
  }

  dequeue-IsBalanced : IsBalanced (record c { waiters = remove key c.waiters }) slots j
  unfolding inflight queue
  dequeue-IsBalanced = record {
    counted = b.counted;
    capped = b.capped;
    queued = ground (arith, get-remove key j c.waiters, text_eq_iff key j);
    waits = λ e. absurd (ground (arith, get-remove key j c.waiters, b.waits));
  }

  -- One slot of `key` less, where nobody waits on it.
  free-IsBalanced :
      (rest : List (ℕ × Text))
      → held j slots ≡ (if text_eq key j then held j rest + 1 else held j rest)
      → get key c.waiters ≡ none
      → IsBalanced (free_slot key c) rest j
  unfolding inflight queue free_slot
  free-IsBalanced rest lost idle = elim (Bool-cases ((or_else (get key c.counts) 1 - 1) == 0)) [
    | inl e ↦ rw e (record {
      counted = ground (arith, get-remove key j c.counts, text_eq_iff key j, b.counted);
      capped = ground (arith, get-remove key j c.counts, text_eq_iff key j, b.capped);
      queued = ground (arith, get-remove key j c.counts, text_eq_iff key j, b.queued);
      waits = b.waits;
    })
    | inr e ↦ rw e (record {
      counted =
          ground
            (arith, get-put key j (or_else (get key c.counts) 1 - 1) c.counts, text_eq_iff key j);
      capped =
          ground
            (arith, get-put key j (or_else (get key c.counts) 1 - 1) c.counts, text_eq_iff key j);
      queued =
          ground
            (arith, get-put key j (or_else (get key c.counts) 1 - 1) c.counts, text_eq_iff key j);
      waits = b.waits;
    })
  ]

  -- Books look at the slots through their number only.
  recount-IsBalanced :
      (slots' : List (ℕ × Text)) → held j slots' ≡ held j slots → IsBalanced c slots' j
  recount-IsBalanced slots' e = record {
    counted = b.counted ∙ sym e;
    capped = b.capped;
    queued = b.queued;
    waits = b.waits;
  }

-- Where somebody waits on a key, all its slots are in use.
full_of_waiters :
    (c : InflightCap) (slots : List (ℕ × Text)) (key : Text) (q : List ℕ)
    → IsBalanced c slots key
    → get key c.waiters ≡ some q
    → inflight c key ≡ c.max
unfolding queue
full_of_waiters c slots key q b e = full b.queued
  where
    full : (queue c key ≡ []) ⊎ (inflight c key ≡ c.max) → inflight c key ≡ c.max
    full (inl empty) = absurd (b.waits (e ∙ ap some (ap (λ o. or_else o []) (sym e) ∙ empty)))
    full (inr f) = f

module _ (c : InflightCap) (slots : List (ℕ × Text)) (b : (k : Text) → IsBalanced c slots k) where
  keep_queue-IsBalanced :
      (key : Text) (q : List ℕ) (j : Text)
      → inflight c key ≡ c.max
      → IsBalanced (keep_queue key q c) slots j
  unfolding keep_queue
  keep_queue-IsBalanced key [] j f = dequeue-IsBalanced c slots key j (b j)
  keep_queue-IsBalanced key (x ∷ xs) j f =
      enqueue-IsBalanced c slots key j (b j) (x ∷ xs) f (λ e. cc)

  expire-IsBalanced : (key : Text) (id : ℕ) (j : Text) → IsBalanced (expire key id c) slots j
  unfolding expire
  expire-IsBalanced key id j = elim (Option-cases (get key c.waiters)) [
    | inl e ↦ rw (e, expire_in) (b j)
    | inr (q, e) ↦
        rw (e, expire_in)
          (keep_queue-IsBalanced key (splice id q) j (full_of_waiters c slots key q (b key) e))
  ]

  acquire-IsBalanced :
      (key : Text) (id : ℕ) (j : Text)
      → 0 < c.max
      → IsBalanced
          (granted key id (acquire key id c) slots).cap
          (granted key id (acquire key id c) slots).slots
          j
  unfolding acquire
  acquire-IsBalanced key id j pos =
      if_elim Fine (c.max == 0) (λ e. absurd (ground arith))
        λ _.
          if_elim Fine (ltb (inflight c key) c.max)
            (λ e.
              unfold granted in
              take-IsBalanced c slots key j (b j) id (ltb→lt (inflight c key) c.max e))
            (λ e.
              unfold granted in
              enqueue-IsBalanced c slots key j (b j) (queue c key ++ id ∷ []) (full e)
                (append_one-ne-nil (queue c key)))
    where
      Fine : InflightCap × Acquired → Type 0
      Fine r = IsBalanced (granted key id r slots).cap (granted key id r slots).slots j

      full : ltb (inflight c key) c.max ≡ false → inflight c key ≡ c.max
      full e = let at_most = (b key).capped in ground arith

      append_one-ne-nil : (q : List ℕ) → q ++ id ∷ [] ≢ []
      append_one-ne-nil [] e = cc
      append_one-ne-nil (x ∷ q) e = cc

  release-IsBalanced :
      (key : Text) (rest : List (ℕ × Text)) (j : Text)
      → ((k : Text) → held k slots ≡ (if text_eq key k then held k rest + 1 else held k rest))
      → IsBalanced (passed key (release key c) rest).cap (passed key (release key c) rest).slots j
  unfolding release
  release-IsBalanced key rest j lost = elim (Option-cases (get key c.waiters)) [
    | inl e ↦
        rw (e, release_to) (unfold passed in free-IsBalanced c slots key j (b j) rest (lost j) e)
    | inr ([], e) ↦ absurd ((b key).waits e)
    | inr (next ∷ q, e) ↦
        rw (e, release_to)
          (unfold passed in
            recount-IsBalanced (keep_queue key q c) slots j j
              (keep_queue-IsBalanced key q j (full_of_waiters c slots key (next ∷ q) (b key) e))
              ((next, key) ∷ rest) (unfold held in sym (lost j)))
  ]

find_slot-held :
    (id : ℕ) (slots : List (ℕ × Text)) (key : Text) (rest : List (ℕ × Text)) (j : Text)
    → find_slot id slots ≡ some (key, rest)
    → held j slots ≡ (if text_eq key j then held j rest + 1 else held j rest)
unfolding find_slot held
find_slot-held id [] key rest j e = cc
find_slot-held id ((i, k) ∷ slots) key rest j e = elim (Bool-cases (i == id)) [
  | inl q ↦
      let found : some (k, slots) ≡ some (key, rest) = rw (q, find_slot) at e in
      let same : ◌≡◌ {A = Text × List (ℕ × Text)} (k, slots) (key, rest) = cc in
      ap (λ (r : Text × List (ℕ × Text)). if text_eq r.0 j then held j r.1 + 1 else held j r.1) same
  | inr q ↦ elim (Option-cases (find_slot id slots)) [
    | inl f ↦ cc (rw (q, f, find_slot) at e)
    | inr ((key', rest'), f) ↦
        let found : some (key', (i, k) ∷ rest') ≡ some (key, rest) = rw (q, f, find_slot) at e in
        let same : ◌≡◌ {A = Text × List (ℕ × Text)} (key', (i, k) ∷ rest') (key, rest) = cc in
        behind key' rest' (find_slot-held id slots key' rest' j f)
        ∙ ap (λ (r : Text × List (ℕ × Text)). if text_eq r.0 j then held j r.1 + 1 else held j r.1)
            same
  ]
]
  where
    behind :
        (key' : Text) (rest' : List (ℕ × Text))
        → held j slots ≡ (if text_eq key' j then held j rest' + 1 else held j rest')
        → (if text_eq k j then held j slots + 1 else held j slots)
          ≡ (if text_eq key' j then held j ((i, k) ∷ rest') + 1 else held j ((i, k) ∷ rest'))
    behind key' rest' ih = ground arith

step-IsFair : (w : World) (e : Event) → 0 < w.cap.max → IsFair w → IsFair (step w e)
unfolding step
step-IsFair w (request key id) pos b j = acquire-IsBalanced w.cap w.slots b key id j pos
step-IsFair w (timer key id) pos b j = expire-IsBalanced w.cap w.slots b key id j
step-IsFair w (finish id) pos b j = elim (Option-cases (find_slot id w.slots)) [
  | inl e ↦ rw (e, finish_slot) (b j)
  | inr ((key, rest), e) ↦
      rw (e, finish_slot)
        (release-IsBalanced w.cap w.slots b key rest j
          (λ k. find_slot-held id w.slots key rest k e))
]

run-IsFair :
    (w : World) (es : List Event)
    → 0 < w.cap.max
    → IsFair w
    → IsFair (run w es) × ((run w es).cap.max ≡ w.cap.max)
unfolding run
run-IsFair w [] pos b = (b, refl)
run-IsFair w (e ∷ es) pos b =
    let same = max-step w e in
    let (fair, kept) = run-IsFair (step w e) es (rw same pos) (step-IsFair w e pos b) in
    (fair, kept ∙ same)

idle-IsFair : (max : ℕ) → IsFair (idle max)
unfolding idle held inflight queue get
idle-IsFair max key = record {
  counted = refl;
  capped = omega arith;
  queued = inl refl;
  waits = λ e. cc;
}

-- From an idle cap above 0, whatever requests, timers and finished requests come in whatever order:
-- what the cap counts for a client is the number of slots that the client holds, never above the cap;
-- and a client that waits holds all of its slots, so that no slot lies idle.
pub run-IsBalanced :
    (max : ℕ) (es : List Event) (key : Text)
    → 0 < max
    → (held key (run (idle max) es).slots ≤ max)
      × (inflight (run (idle max) es).cap key ≡ held key (run (idle max) es).slots)
      × ((queue (run (idle max) es).cap key ≡ []) ⊎ (held key (run (idle max) es).slots ≡ max))
run-IsBalanced max es key pos =
    let (fair, kept) = run-IsFair (idle max) es (unfold idle in pos) (idle-IsFair max) in
    let b = fair key in
    let same : (run (idle max) es).cap.max ≡ max = kept ∙ (unfold idle in refl) in
    (omega (arith, b.counted, b.capped), b.counted, ground (arith, b.queued, b.counted, same))
