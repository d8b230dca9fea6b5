-- ===== src/Gateway/Cache.antt =====
-- The class `MicroCache` of apps/gateway/src/fastpath.ts.
--
-- The clock is an argument. `pending` holds the keys with a load that has not settled.
pub mod Bounded
mod Tests
use ordofi.Base.{
  ℕ, ◌+◌, ◌*◌, List, [], ◌∷◌, Bool, true, false, Option, none, some, is_some, length, leb, ◌==◌,
  if◌then◌else◌,
}
use ordofi.Base.Text.{Text}
use ordofi.Base.Assoc.{TextMap, get, put, remove}

pub record Stored {ℓ} (V : Type ℓ) : Type ℓ where
  pub value : V
  pub expires_at : ℕ

pub record MicroCache {ℓ} (V : Type ℓ) : Type ℓ where
  pub max_entries : ℕ
  pub entries : TextMap (Stored V)
  pub pending : TextMap Bool

-- What a caller of `through` is given.
pub data Through {ℓ} (V : Type ℓ) : Type ℓ where
  hit : V → Through V
  joins : Through V
  loads : Through V

module _ {ℓ} {V : Type ℓ} where
  look : ℕ → Text → Option (Stored V) → MicroCache V → MicroCache V × Option V
  look now key none c = (c, none)
  look now key (some e) c =
      if leb e.expires_at now
      then (record c { entries = remove key c.entries }, none)
      else (c, some e.value)

  -- `get`
  unfoldable pub get_value : ℕ → Text → MicroCache V → MicroCache V × Option V
  unfolding look
  get_value now key c = look now key (get key c.entries) c

  -- `this.entries.delete(oldest)`, the oldest being the first inserted.
  evict_oldest : TextMap (Stored V) → TextMap (Stored V)
  evict_oldest [] = []
  evict_oldest ((k, e) ∷ m) = remove k ((k, e) ∷ m)

  -- `set`
  unfoldable pub set_value : ℕ → Text → V → ℕ → MicroCache V → MicroCache V
  unfolding evict_oldest
  set_value now key v ttl_ms c =
      if ttl_ms == 0
      then c
      else let kept =
          (if leb c.max_entries (length c.entries) then evict_oldest c.entries else c.entries) in
        record c { entries = put key (record { value = v; expires_at = now + ttl_ms }) kept }

  on_lookup : Text → MicroCache V × Option V → MicroCache V × Through V
  on_lookup key (c, some v) = (c, hit v)
  on_lookup key (c, none) =
      if is_some (get key c.pending)
      then (c, joins)
      else (record c { pending = put key true c.pending }, loads)

  -- `through`, up to the load.
  unfoldable pub through : ℕ → Text → MicroCache V → MicroCache V × Through V
  unfolding on_lookup get_value
  through now key c = on_lookup key (get_value now key c)

  -- The load settles: a value is stored for its time to live, a rejection is not.
  unfoldable pub load_settles : ℕ → Text → Option V → (V → ℕ) → MicroCache V → MicroCache V
  unfolding set_value
  load_settles now key none ttl c = record c { pending = remove key c.pending }
  load_settles now key (some v) ttl c =
      let d = set_value now key v (ttl v) c in record d { pending = remove key d.pending }

  unfoldable pub empty_cache : ℕ → MicroCache V
  empty_cache max = record { max_entries = max; entries = []; pending = [] }

-- What happens to a cache: a caller asks, or the load of a key settles.
pub data Event {ℓ} (V : Type ℓ) : Type ℓ where
  asks : ℕ → Text → Event V
  settles : ℕ → Text → Option V → (V → ℕ) → Event V

module _ {ℓ} {V : Type ℓ} where
  unfoldable pub step : MicroCache V → Event V → MicroCache V
  unfolding through load_settles
  step c (asks now key) = (through now key c).0
  step c (settles now key v ttl) = load_settles now key v ttl c

  unfoldable pub run : MicroCache V → List (Event V) → MicroCache V
  unfolding step
  run c [] = c
  run c (e ∷ es) = run (step c e) es
