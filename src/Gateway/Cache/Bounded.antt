-- ===== src/Gateway/Cache/Bounded.antt =====
-- The cache stays within its bound, and answers only what was stored and has not expired.
use ordofi.Base.{
  ℕ, ◌+◌, ◌≤◌, List, [], ◌∷◌, false, Option, none, some, is_some, length, leb, ◌==◌, if◌then◌else◌,
  ◌≡◌, ◌∙◌, refl, arith, Bool-cases, if_elim, inl, inr,
}
use ordofi.Base.Text.{Text, text_eq, text_eq_refl}
use ordofi.Base.Assoc.{TextMap, get, put, remove, get-put, length-put, length-remove}
use ordofi.Gateway.Cache.{
  Stored, MicroCache, Through, look, get_value, evict_oldest, set_value, on_lookup, through,
  load_settles, empty_cache, Event, asks, settles, step, run,
}

module _ {ℓ} {V : Type ℓ} (max : ℕ) where
  abbrev Fits : MicroCache V → Type 0
  Fits c = (c.max_entries ≡ max) × (length c.entries ≤ max)

  length-put_le :
      (k : Text) (e : Stored V) (m : TextMap (Stored V)) → length (put k e m) ≤ length m + 1
  length-put_le k e m = let h = length-put k e m in ground arith

  -- Room for one more entry, after the oldest went.
  length-put-evict_oldest :
      (k : Text) (e : Stored V) (m : TextMap (Stored V))
      → 1 ≤ max
      → length m ≤ max
      → length (put k e (evict_oldest m)) ≤ max
  unfolding evict_oldest remove put
  length-put-evict_oldest k e [] pos fits = omega (arith, length-put_le k e [])
  length-put-evict_oldest k e ((j, f) ∷ m) pos fits =
      rw (text_eq_refl j) (omega (arith, length-put_le k e (remove j m), length-remove j m, fits))

  set_value-Fits :
      (now : ℕ) (key : Text) (v : V) (ttl : ℕ) (c : MicroCache V)
      → 1 ≤ max
      → Fits c
      → Fits (set_value now key v ttl c)
  unfolding set_value
  set_value-Fits now key v ttl c pos fits =
      if_elim Fits (ttl == 0) (λ _. fits)
        λ _. (
          fits.0,
          if_elim
              (λ (m : TextMap (Stored V)).
                length (put key (record { value = v; expires_at = now + ttl }) m) ≤ max)
              (leb c.max_entries (length c.entries))
              (λ _. length-put-evict_oldest key _ c.entries pos fits.1)
              (λ room.
                let le =
                  length-put_le key (record { value = v; expires_at = now + ttl }) c.entries in
                below (length c.entries) (length (put key _ c.entries)) fits.0 room le),
        )
    where
      below : (n k : ℕ) → c.max_entries ≡ max → leb c.max_entries n ≡ false → k ≤ n + 1 → k ≤ max
      below n k e room le = ground arith

  look-Fits :
      (now : ℕ) (key : Text) (o : Option (Stored V)) (c : MicroCache V)
      → Fits c
      → Fits (look now key o c).0
  unfolding look
  look-Fits now key none c fits = fits
  look-Fits now key (some e) c fits =
      if_elim (λ (r : MicroCache V × Option V). Fits r.0) (leb e.expires_at now)
        (λ _. (fits.0, omega (arith, length-remove key c.entries, fits.1))) (λ _. fits)

  on_lookup-Fits : (key : Text) (r : MicroCache V × Option V) → Fits r.0 → Fits (on_lookup key r).0
  unfolding on_lookup
  on_lookup-Fits key (c, some v) fits = fits
  on_lookup-Fits key (c, none) fits =
      if_elim (λ (r : MicroCache V × Through V). Fits r.0) (is_some (get key c.pending)) (λ _. fits)
        (λ _. fits)

  step-Fits : (c : MicroCache V) (e : Event V) → 1 ≤ max → Fits c → Fits (step c e)
  unfolding step through get_value load_settles
  step-Fits c (asks now key) pos fits =
      on_lookup-Fits key _ (look-Fits now key (get key c.entries) c fits)
  step-Fits c (settles now key none ttl) pos fits = fits
  step-Fits c (settles now key (some v) ttl) pos fits = set_value-Fits now key v (ttl v) c pos fits

  -- A cache that may hold an entry never holds more than it may, whatever is asked and whatever loads
  -- settle.
  pub run_size : (es : List (Event V)) → 1 ≤ max → length (run (empty_cache max) es).entries ≤ max
  unfolding empty_cache run
  run_size es pos = (fit es (empty_cache max) (refl, omega arith)).1
    where
      fit : (es : List (Event V)) (c : MicroCache V) → Fits c → Fits (run c es)
      fit [] c fits = fits
      fit (e ∷ es) c fits = fit es (step c e) (step-Fits c e pos fits)

module _ {ℓ} {V : Type ℓ} where
  -- What is asked for under a key right after a value was stored there: the value until its time to live
  -- is over, then nothing; a value without a time to live changes nothing.
  pub get_value-set_value :
      (at now : ℕ) (key : Text) (v : V) (ttl : ℕ) (c : MicroCache V)
      → (get_value now key (set_value at key v ttl c)).1 ≡ (
          if ttl == 0 then (get_value now key c).1 else if leb (at + ttl) now then none else some v)
  unfolding get_value set_value look
  get_value-set_value at now key v ttl c = elim (Bool-cases (ttl == 0)) [
    | inl e ↦ rw e refl
    | inr e ↦ rw e (
        stored (if leb c.max_entries (length c.entries) then evict_oldest c.entries else c.entries))
  ]
    where
      new : Stored V
      new = record { value = v; expires_at = at + ttl }

      found :
          (o : Option (Stored V)) (d : MicroCache V)
          → o ≡ some new
          → (look now key o d).1 ≡ (if leb (at + ttl) now then none else some v)
      found none d e = absurd cc
      found (some n) d e =
          let same : n ≡ new = cc in
          rw same (
            if_elim
              (λ (r : MicroCache V × Option V). r.1 ≡ (if leb (at + ttl) now then none else some v))
              (leb (at + ttl) now) (λ q. rw q refl) (λ q. rw q refl))

      stored :
          (m : TextMap (Stored V))
          → (look now key (get key (put key new m)) (record c { entries = put key new m })).1
            ≡ (if leb (at + ttl) now then none else some v)
      stored m = found (get key (put key new m)) _ (get-put key key new m ∙ there)
        where
          there : (if text_eq key key then some new else get key m) ≡ some new
          there = rw (text_eq_refl key) refl
