-- ===== src/Base/Text.antt =====
-- Strings as JavaScript has them, sequences of code units, with the methods the code calls on them
-- and the conversion `BigInt(text)`.
pub mod Decimal
use Prim.Native.Char.{code}
use Prim.Native.String.{String}
use ordofi.Base.Int.{ℤ, pos, negsuc}
use Prim.Native.Nat.{ℕ, zero, suc, ◌+◌, ◌-◌, ◌*◌}
use mathlib.Core.Path.{◌≡◌, refl, ap}
use mathlib.Core.Logic.{◌↔◌}
use mathlib.Core.Bool.{Bool, true, false, ◌&&◌, ◌||◌}
use mathlib.Core.Option
use mathlib.Core.Option.{Option, none, some}
use mathlib.Core.List.{List, [], ◌∷◌, ◌++◌, map, reverse}
use native.Mathlib.Omega.{arith}
use ordofi.Base.Lists.{length}
use ordofi.Base.Tests.{ltb, leb, ◌==◌, if◌then◌else◌}

abbrev pub Text : Type 0
Text = List ℕ

-- The code units of a literal.
abbrev pub codes : String → Text
codes String.[] = []
codes (String.◌∷◌ c s) = code c ∷ codes s

-- `===` on strings.
unfoldable pub text_eq : Text → Text → Bool
text_eq [] [] = true
text_eq (a ∷ s) (b ∷ t) = a == b && text_eq s t
text_eq _ _ = false

pub text_eq→eq : (s t : Text) → text_eq s t ≡ true → s ≡ t
unfolding text_eq
text_eq→eq [] [] h = refl
text_eq→eq [] (b ∷ t) h = ground arith
text_eq→eq (a ∷ s) [] h = ground arith
text_eq→eq (a ∷ s) (b ∷ t) h = ground (arith, text_eq→eq s t)

pub text_eq_refl : (s : Text) → text_eq s s ≡ true
unfolding text_eq
text_eq_refl [] = refl
text_eq_refl (a ∷ s) = ground (arith, text_eq_refl s)

pub text_eq_iff : (s t : Text) → (text_eq s t ≡ true) ↔ (s ≡ t)
text_eq_iff s t = (text_eq→eq s t, λ e. rw e (text_eq_refl t))

-- `<` on strings, by code units: the order of `sort()` without a comparator.
unfoldable pub text_ltb : Text → Text → Bool
text_ltb [] [] = false
text_ltb [] (b ∷ t) = true
text_ltb (a ∷ s) [] = false
text_ltb (a ∷ s) (b ∷ t) = ltb a b || (a == b && text_ltb s t)

pub text_ltb_irrefl : (s : Text) → text_ltb s s ≡ false
unfolding text_ltb
text_ltb_irrefl [] = refl
text_ltb_irrefl (a ∷ s) = ground (arith, text_ltb_irrefl s)

pub text_ltb_asymm : (s t : Text) → text_ltb s t ≡ true → text_ltb t s ≡ false
unfolding text_ltb
text_ltb_asymm [] [] h = refl
text_ltb_asymm [] (b ∷ t) h = refl
text_ltb_asymm (a ∷ s) [] h = cc
text_ltb_asymm (a ∷ s) (b ∷ t) h = ground (arith, text_ltb_asymm s t)

-- A separator ends a text of known length in one way.
pub split_at_length :
    (a a' b b' : Text) → length a ≡ length a' → a ++ b ≡ a' ++ b' → (a ≡ a') × (b ≡ b')
split_at_length [] [] b b' n e = (refl, e)
split_at_length [] (x ∷ a') b b' n e = absurd (omega arith)
split_at_length (x ∷ a) [] b b' n e = absurd (omega arith)
split_at_length (x ∷ a) (y ∷ a') b b' n e =
    let (p, q) = cons_eq x y (a ++ b) (a' ++ b') e in
    let (r, s) = split_at_length a a' b b' (omega arith) q in (cc, s)
  where
    cons_eq : (x y : ℕ) (s t : Text) → x ∷ s ≡ y ∷ t → (x ≡ y) × (s ≡ t)
    cons_eq x y s t h = (cc, cc)

-- `toLowerCase`, on the ASCII letters that hexadecimal text is made of.
unfoldable pub lower_unit : ℕ → ℕ
lower_unit c = if leb b'A' c && leb c b'Z' then c + 32 else c

unfoldable pub to_lower_case : Text → Text
unfolding lower_unit
to_lower_case s = map lower_unit s

pub length-to_lower_case : (s : Text) → length (to_lower_case s) ≡ length s
unfolding to_lower_case
length-to_lower_case [] = refl
length-to_lower_case (c ∷ s) = ap suc (length-to_lower_case s)

-- `startsWith("0x")`
unfoldable pub starts_with_0x : Text → Bool
starts_with_0x (a ∷ b ∷ s) = a == b'0' && b == b'x'
starts_with_0x _ = false

-- `s.startsWith(t)` and `s.includes(t)`.
unfoldable pub starts_with : Text → Text → Bool
starts_with s [] = true
starts_with [] (b ∷ t) = false
starts_with (a ∷ s) (b ∷ t) = a == b && starts_with s t

unfoldable pub includes : Text → Text → Bool
unfolding starts_with
includes [] t = starts_with [] t
includes (a ∷ s) t = starts_with (a ∷ s) t || includes s t

-- The white space and line terminators that `BigInt` trims.
is_space : ℕ → Bool
is_space c =
    (leb 9 c && leb c 13)
    || c == 32
    || c == 0xa0
    || c == 0x1680
    || (leb 0x2000 c && leb c 0x200a)
    || c == 0x2028
    || c == 0x2029
    || c == 0x202f
    || c == 0x205f
    || c == 0x3000
    || c == 0xfeff

trim_start : Text → Text
unfolding is_space
trim_start [] = []
trim_start (c ∷ s) = let rest = trim_start s in if is_space c then rest else c ∷ s

unfoldable pub trim : Text → Text
unfolding trim_start
trim s = reverse (trim_start (reverse (trim_start s)))

digit_value : ℕ → Option ℕ
digit_value c =
    if leb b'0' c && leb c b'9'
    then some (c - b'0')
    else if leb b'a' c && leb c b'z'
    then some (c - b'a' + 10)
    else if leb b'A' c && leb c b'Z'
    then some (c - b'A' + 10)
    else none

digits_from : ℕ → ℕ → Text → Option ℕ
digits_from base acc [] = some acc
digits_from base acc (c ∷ s) = elim (digit_value c) [
  | none ↦ none
  | some d ↦ if ltb d base then digits_from base (acc * base + d) s else none
]

-- One or more digits.
digits_of : ℕ → Text → Option ℕ
digits_of base [] = none
digits_of base (c ∷ s) = digits_from base 0 (c ∷ s)

negate : ℕ → ℤ
negate zero = pos zero
negate (suc n) = negsuc n

decimal : Text → Option ℤ
decimal [] = some (pos 0)
decimal (c ∷ s) =
    if c == b'-'
    then Option.map negate (digits_of 10 s)
    else if c == b'+'
    then Option.map pos (digits_of 10 s)
    else Option.map pos (digits_of 10 (c ∷ s))

-- The digits behind a prefix `0x`, `0o` or `0b`, without a sign; decimal digits otherwise.
numeral : Text → Option ℤ
numeral (a ∷ b ∷ s) =
    if a == b'0' && (b == b'x' || b == b'X')
    then Option.map pos (digits_of 16 s)
    else if a == b'0' && (b == b'o' || b == b'O')
    then Option.map pos (digits_of 8 s)
    else if a == b'0' && (b == b'b' || b == b'B')
    then Option.map pos (digits_of 2 s)
    else decimal (a ∷ b ∷ s)
numeral s = decimal s

-- `BigInt(text)`; `none` is the SyntaxError it throws.
unfoldable pub big_int : Text → Option ℤ
unfolding trim numeral decimal digits_of digits_from digit_value negate
big_int s = numeral (trim s)

big_int_tests :
    (big_int (codes " 42 ") ≡ some (pos 42))
    × (big_int (codes "-7") ≡ some (negsuc 6))
    × (big_int (codes "0xFf") ≡ some (pos 255))
    × (big_int (codes "") ≡ some (pos 0))
    × (big_int (codes "-0x1") ≡ none)
    × (big_int (codes "1.5") ≡ none)
unfolding big_int
big_int_tests = (refl, refl, refl, refl, refl, refl)
