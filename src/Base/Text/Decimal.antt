-- ===== src/Base/Text/Decimal.antt =====
-- Decimal text of an integer, `n.toString()`, and its conversion back by `BigInt`.
use mathlib.Core.List.{reverse, reverse-reverse, reverse_aux}
use ordofi.Base.Tests.{ltb, ◌==◌, if◌then◌else◌, Bool-cases, Option-cases, ◌>>=◌, lt→ltb}
use ordofi.Base.Lists.{All, All-append}
use ordofi.Base.Int.{ℤ, pos, negsuc}
use Prim.Native.Nat.{ℕ, zero, suc, ◌+◌, ◌*◌, ◌/◌, ◌%◌, ◌≤◌, ◌<◌}
use mathlib.Core.Path.{◌≡◌, refl, ap, ◌∙◌}
use mathlib.Core.Logic.{◌≢◌, ◌⊎◌, inl, inr}
use mathlib.Core.Option.{some}
use mathlib.Core.List.{[], ◌∷◌, ◌++◌}
use native.Mathlib.Omega.{arith}
use mathlib.Core.Bool.{Bool, true, false, ◌&&◌}
use ordofi.Base.Text.{
  Text, is_space, trim_start, trim, digit_value, digits_from, digits_of, decimal, numeral, big_int,
}

show_from : ℕ → ℕ → Text
show_from zero n = []
show_from (suc f) n =
    let front = show_from f (n / 10) in (if ltb n 10 then [] else front) ++ (n % 10 + b'0') ∷ []

-- The digits of `n`; one round for each digit, of which there are at most n + 1.
unfoldable pub show : ℕ → Text
unfolding show_from
show n = show_from (suc n) n

-- `BigInt.prototype.toString`
unfoldable pub to_string : ℤ → Text
unfolding show
to_string (pos n) = show n
to_string (negsuc n) = b'-' ∷ show (suc n)

abbrev IsDigit : ℕ → Type 0
IsDigit c = (b'0' ≤ c) × (c ≤ b'9')

show_from-IsDigit : (f n : ℕ) → All IsDigit (show_from f n)
unfolding show_from
show_from-IsDigit zero n = tt
show_from-IsDigit (suc f) n = elim (Bool-cases (ltb n 10)) [
  | inl e ↦ rw e (omega arith, tt)
  | inr e ↦
      rw e (
        All-append IsDigit (show_from f (n / 10)) _ (show_from-IsDigit f (n / 10))
          (omega arith, tt))
]

digits_from-append :
    (acc : ℕ) (s t : Text)
    → digits_from 10 acc (s ++ t) ≡ (digits_from 10 acc s >>= λ v. digits_from 10 v t)
unfolding digits_from
digits_from-append acc [] t = refl
digits_from-append acc (c ∷ s) t = elim (Option-cases (digit_value c)) [
  | inl e ↦ rw (e, digits_from)
  | inr (d, e) ↦
      rw (e, digits_from)
        (elim (Bool-cases (ltb d 10)) [
          | inl q ↦ rw q (digits_from-append (acc * 10 + d) s t)
          | inr q ↦ rw q
        ])
]

digit_value_of_digit : (d : ℕ) → d < 10 → digit_value (d + b'0') ≡ some d
unfolding digit_value
digit_value_of_digit d h = ground arith

digits_from_one : (v d : ℕ) → d < 10 → digits_from 10 v ((d + b'0') ∷ []) ≡ some (v * 10 + d)
unfolding digits_from
digits_from_one v d h = rw (digit_value_of_digit d h, digits_from) (rw (lt→ltb d 10 h))

show_from_digits : (f n : ℕ) → n < f → digits_from 10 0 (show_from f n) ≡ some n
unfolding show_from
show_from_digits zero n h = absurd (omega arith)
show_from_digits (suc f) n h = elim (Bool-cases (ltb n 10)) [
  | inl e ↦
      let small : 0 * 10 + n % 10 ≡ n = ground arith in
      rw e (digits_from_one 0 (n % 10) (omega arith) ∙ ap some small)
  | inr e ↦
      rw
        (
          e,
          digits_from-append 0 (show_from f (n / 10)) ((n % 10 + b'0') ∷ []),
          show_from_digits f (n / 10) (ground arith),
        )
        (digits_from_one (n / 10) (n % 10) (omega arith) ∙ ap some (omega arith))
]

not_space : (c : ℕ) → IsDigit c → is_space c ≡ false
unfolding is_space
not_space c h = ground arith

trim_start_of_digits : (s : Text) → All IsDigit s → trim_start s ≡ s
unfolding trim_start
trim_start_of_digits [] h = refl
trim_start_of_digits (c ∷ s) h = rw (not_space c h.0)

All-reverse_aux : (xs ys : Text) → All IsDigit xs → All IsDigit ys → All IsDigit (reverse_aux xs ys)
All-reverse_aux [] ys _ k = k
All-reverse_aux (x ∷ xs) ys h k = All-reverse_aux xs (x ∷ ys) h.1 (h.0, k)

trim_of_digits : (s : Text) → All IsDigit s → trim s ≡ s
unfolding trim
trim_of_digits s h = rw (
  trim_start_of_digits s h,
  trim_start_of_digits (reverse s) (All-reverse_aux s [] h tt),
  reverse-reverse,
)

ne_of_digit : (c k : ℕ) → IsDigit c → (k < b'0') ⊎ (b'9' < k) → (c == k) ≡ false
ne_of_digit c k h e = ground arith

decimal_of_digits :
    (c : ℕ) (s : Text) (n : ℕ)
    → IsDigit c
    → digits_of 10 (c ∷ s) ≡ some n
    → decimal (c ∷ s) ≡ some (pos n)
unfolding decimal
decimal_of_digits c s n h e =
    rw (ne_of_digit c b'-' h (inl (omega arith)), ne_of_digit c b'+' h (inl (omega arith)), e)

and_false : (b : Bool) → (b && false) ≡ false
and_false true = refl
and_false false = refl

numeral_of_digits :
    (c : ℕ) (s : Text) (n : ℕ)
    → All IsDigit (c ∷ s)
    → digits_of 10 (c ∷ s) ≡ some n
    → numeral (c ∷ s) ≡ some (pos n)
unfolding numeral
numeral_of_digits c [] n h e = decimal_of_digits c [] n h.0 e
numeral_of_digits c (d ∷ s) n (h, (k, hs)) e =
    rw
      (
        ne_of_digit d b'x' k (inr (omega arith)),
        ne_of_digit d b'X' k (inr (omega arith)),
        ne_of_digit d b'o' k (inr (omega arith)),
        ne_of_digit d b'O' k (inr (omega arith)),
        ne_of_digit d b'b' k (inr (omega arith)),
        ne_of_digit d b'B' k (inr (omega arith)),
        and_false,
      )
      (decimal_of_digits c (d ∷ s) n h e)

big_int_of_digits :
    (s : Text) (n : ℕ)
    → All IsDigit s
    → s ≢ []
    → digits_from 10 0 s ≡ some n
    → big_int s ≡ some (pos n)
unfolding big_int
big_int_of_digits [] n h ne e = absurd (ne refl)
big_int_of_digits (c ∷ s) n h ne e =
    rw (trim_of_digits (c ∷ s) h) (numeral_of_digits c s n h (unfold digits_of in e))

show_from-ne-nil : (f n : ℕ) → show_from (suc f) n ≢ []
unfolding show_from
show_from-ne-nil f n e = elim (Bool-cases (ltb n 10)) [
  | inl q ↦ cc (rw q at e)
  | inr q ↦ append_one-ne-nil (show_from f (n / 10)) (n % 10 + b'0') (rw q at e)
]
  where
    append_one-ne-nil : (s : Text) (c : ℕ) → s ++ c ∷ [] ≢ []
    append_one-ne-nil [] c e = cc
    append_one-ne-nil (d ∷ s) c e = cc

-- The decimal text of a number converts back to it.
pub big_int-to_string : (n : ℕ) → big_int (to_string (pos n)) ≡ some (pos n)
unfolding to_string
big_int-to_string n =
    big_int_of_digits (show n) n (show_from-IsDigit (suc n) n) (show_from-ne-nil n n)
      (show_from_digits (suc n) n (omega arith))
