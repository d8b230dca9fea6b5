-- ===== src/Base/Assoc.antt =====
-- JavaScript's `Map` as a list of its entries in insertion order: writing a key that is present
-- keeps its place, a new key goes to the end.
use Prim.Native.Nat.{◌+◌, ◌≤◌}
use mathlib.Core.Path.{◌≡◌, refl}
use mathlib.Core.Option.{Option, none, some}
use mathlib.Core.List.{List, [], ◌∷◌}
use native.Mathlib.Omega.{arith}
use ordofi.Base.Tests.{if◌then◌else◌, is_some}
use ordofi.Base.Lists.{length}
use ordofi.Base.Text.{Text, text_eq, text_eq_iff}

abbrev pub TextMap {ℓ} : Type ℓ → Type ℓ
TextMap V = List (Text × V)

module _ {ℓ} {V : Type ℓ} where
  -- `m.get(k)`
  unfoldable pub get : Text → TextMap V → Option V
  get k [] = none
  get k ((j, v) ∷ m) = if text_eq j k then some v else get k m

  -- `m.set(k, v)`
  unfoldable pub put : Text → V → TextMap V → TextMap V
  put k v [] = (k, v) ∷ []
  put k v ((j, w) ∷ m) = if text_eq j k then (j, v) ∷ m else (j, w) ∷ put k v m

  -- `m.delete(k)`
  unfoldable pub remove : Text → TextMap V → TextMap V
  remove k [] = []
  remove k ((j, w) ∷ m) = let rest = remove k m in if text_eq j k then rest else (j, w) ∷ rest

  pub get-put :
      (k j : Text) (v : V) (m : TextMap V)
      → get j (put k v m) ≡ (if text_eq k j then some v else get j m)
  unfolding get put
  get-put k j v [] = refl
  get-put k j v ((i, w) ∷ m) =
      ground (arith, text_eq_iff k j, text_eq_iff i k, text_eq_iff i j, get-put k j v m)

  pub get-remove :
      (k j : Text) (m : TextMap V) → get j (remove k m) ≡ (if text_eq k j then none else get j m)
  unfolding get remove
  get-remove k j [] = ground arith
  get-remove k j ((i, w) ∷ m) =
      ground (arith, text_eq_iff k j, text_eq_iff i k, text_eq_iff i j, get-remove k j m)

  pub length-put :
      (k : Text) (v : V) (m : TextMap V)
      → length (put k v m) ≡ (if is_some (get k m) then length m else length m + 1)
  unfolding get put
  length-put k v [] = omega arith
  length-put k v ((j, w) ∷ m) = ground (arith, length-put k v m)

  pub length-remove : (k : Text) (m : TextMap V) → length (remove k m) ≤ length m
  unfolding remove
  length-remove k [] = omega arith
  length-remove k ((j, w) ∷ m) = ground (arith, length-remove k m)

pub ruleset map_laws = (get-put, get-remove)
