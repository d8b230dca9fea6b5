-- ===== src/Base/Lists.antt =====
-- Lists measured by native numbers, predicates on all members, and Boolean filters.
use Prim.Native.Nat.{ℕ, zero, suc, ◌+◌, ◌≤◌}
use mathlib.Core.Path.{◌≡◌, refl, ap, sym, ◌∙◌}
use mathlib.Core.Bool.{Bool, true, false, not, ◌||◌}
use mathlib.Core.Logic.{inl, inr}
use mathlib.Core.Option.{Option, none, some}
use mathlib.Core.List.{
  List, [], ◌∷◌, ◌++◌, Perm, perm_middle, Mem, Mem-prop, mem-cons, mem-cons_self, mem-cons_of_mem,
  not-mem-nil,
}
use mathlib.Core.List.Perm
use mathlib.Core.Logic.Or
use native.Mathlib.Omega.{arith}
use ordofi.Base.Tests.{if◌then◌else◌, Bool-cases}

module _ {ℓ} {A : Type ℓ} where
  abbrev pub length : List A → ℕ
  length [] = 0
  length (x ∷ xs) = suc (length xs)

  abbrev pub get_elem? : List A → ℕ → Option A
  get_elem? [] i = none
  get_elem? (x ∷ xs) zero = some x
  get_elem? (x ∷ xs) (suc i) = get_elem? xs i

  abbrev pub take : ℕ → List A → List A
  take zero xs = []
  take (suc n) [] = []
  take (suc n) (x ∷ xs) = x ∷ take n xs

  abbrev pub drop : ℕ → List A → List A
  drop zero xs = xs
  drop (suc n) [] = []
  drop (suc n) (x ∷ xs) = drop n xs

  pub length-append : (xs ys : List A) → length (xs ++ ys) ≡ length xs + length ys
  length-append [] ys = omega arith
  length-append (x ∷ xs) ys = omega (arith, length-append xs ys)

-- A predicate on every member, computed by recursion.
abbrev pub All {ℓ κ} : {A : Type ℓ} → (A → Type κ) → List A → Type κ
All P [] = Unit
All P (x ∷ xs) = P x × All P xs

module _ {ℓ κ} {A : Type ℓ} (P : A → Type κ) where
  pub All-append : (xs ys : List A) → All P xs → All P ys → All P (xs ++ ys)
  All-append [] ys hx hy = hy
  All-append (x ∷ xs) ys hx hy = (hx.0, All-append xs ys hx.1 hy)

  -- What holds of all members holds of each one.
  pub All-mem : ((x : A) → IsProp (P x)) → (xs : List A) {a : A} → All P xs → Mem a xs → P a
  All-mem prop [] h m = absurd (not-mem-nil m)
  All-mem prop (x ∷ xs) {a} h m =
      Or.elim (prop a) (mem-cons.0 m) (λ e. rw e h.0) (All-mem prop xs h.1)

  pub All-append_left : (xs ys : List A) → All P (xs ++ ys) → All P xs
  All-append_left [] ys h = tt
  All-append_left (x ∷ xs) ys h = (h.0, All-append_left xs ys h.1)

  pub All-append_right : (xs ys : List A) → All P (xs ++ ys) → All P ys
  All-append_right [] ys h = h
  All-append_right (x ∷ xs) ys h = All-append_right xs ys h.1

module _ {ℓ κ ι} {A : Type ℓ} {P : A → Type κ} {Q : A → Type ι} where
  pub All-map : ((x : A) → P x → Q x) → (xs : List A) → All P xs → All Q xs
  All-map f [] h = tt
  All-map f (x ∷ xs) h = (f x h.0, All-map f xs h.1)

-- `Array.prototype.filter` with a Boolean test.
module _ {ℓ} {A : Type ℓ} (p : A → Bool) where
  unfoldable pub keep : List A → List A
  keep [] = []
  keep (x ∷ xs) = let rest = keep xs in if p x then x ∷ rest else rest

  -- What is kept passes the test.
  pub keep-All : (xs : List A) → All (λ x. p x ≡ true) (keep xs)
  unfolding keep
  keep-All [] = tt
  keep-All (x ∷ xs) = elim (Bool-cases (p x)) [
    | inl e ↦ rw e (e, keep-All xs)
    | inr e ↦ rw e (keep-All xs)
  ]

  pub keep-All_of {κ} : (P : A → Type κ) (xs : List A) → All P xs → All P (keep xs)
  unfolding keep
  keep-All_of P [] h = tt
  keep-All_of P (x ∷ xs) h = elim (Bool-cases (p x)) [
    | inl e ↦ rw e (h.0, keep-All_of P xs h.1)
    | inr e ↦ rw e (keep-All_of P xs h.1)
  ]

  -- Where nothing is kept, nothing passes the test.
  pub keep-nil : (xs : List A) → keep xs ≡ [] → All (λ x. p x ≡ false) xs
  unfolding keep
  keep-nil [] h = tt
  keep-nil (x ∷ xs) h = elim (Bool-cases (p x)) [
    | inl e ↦ absurd (no_head x (keep xs) (sym (rw e refl) ∙ h))
    | inr e ↦ (e, keep-nil xs (sym (rw e refl) ∙ h))
  ]
    where
      no_head : (y : A) (ys : List A) → ¬ (y ∷ ys ≡ [])
      no_head y ys e = cc

  pub keep-Mem : (xs : List A) {a : A} → Mem a (keep xs) → Mem a xs
  unfolding keep
  keep-Mem [] m = m
  keep-Mem (x ∷ xs) m = elim (Bool-cases (p x)) [
    | inl e ↦
        Or.elim Mem-prop (mem-cons.0 (rw e at m)) (λ q. rw q mem-cons_self)
          (λ n. mem-cons_of_mem x (keep-Mem xs n))
    | inr e ↦ mem-cons_of_mem x (keep-Mem xs (rw e at m))
  ]

  pub length-keep : (xs : List A) → length (keep xs) ≤ length xs
  unfolding keep
  length-keep [] = omega arith
  length-keep (x ∷ xs) = elim (Bool-cases (p x)) [
    | inl e ↦ rw e (omega (arith, length-keep xs))
    | inr e ↦ rw e (omega (arith, length-keep xs))
  ]

  pub keep-append : (xs ys : List A) → keep (xs ++ ys) ≡ keep xs ++ keep ys
  unfolding keep
  keep-append [] ys = refl
  keep-append (x ∷ xs) ys = elim (Bool-cases (p x)) [
    | inl e ↦ rw e (ap (λ l. x ∷ l) (keep-append xs ys))
    | inr e ↦ rw e (keep-append xs ys)
  ]

  unfoldable pub any : List A → Bool
  any [] = false
  any (x ∷ xs) = p x || any xs

-- The two halves of a filter are the whole, rearranged.
module _ {ℓ} {A : Type ℓ} (p : A → Bool) where
  pub keep-perm : (xs : List A) → Perm (keep p xs ++ keep (λ x. not (p x)) xs) xs
  unfolding keep
  keep-perm [] = Perm.refl []
  keep-perm (x ∷ xs) = elim (Bool-cases (p x)) [
    | inl e ↦ rw e (Perm.cons x (keep-perm xs))
    | inr e ↦ rw e (
        Perm.trans (perm_middle (keep p xs) (keep (λ y. not (p y)) xs))
          (Perm.cons x (keep-perm xs)))
  ]
