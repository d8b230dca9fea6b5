-- ===== src/Core/Guard/Leaks.antt =====
-- Which transfers are a loss to the guard of packages/core/src/guard.ts.
use mathlib.Core.List.{Mem, mem-cons_self, mem-cons_of_mem}
use ordofi.Base.{
  List, [], ◌∷◌, ◌++◌, Bool, true, false, not, ◌&&◌, some, any, or_else, ◌>>=◌, ◌≡◌, refl, ap, ◌∙◌,
  ◌⊎◌, inl, inr, arith, All, Bool-cases, bind-some,
}
use ordofi.Base.Int.{ℤ, pos, ◌≤ℤ◌, ltb_ℤ, eqb_ℤ, eq_of_parts}
use ordofi.Base.Text.{Text, text_eq, text_eq_iff, to_lower_case}
use ordofi.Core.Delivery.{AllowedLeak, Leak, Log, blackholes}
use ordofi.Core.Calls.{same_addr, zero_address}
use ordofi.Core.Guard.{
  transfer_topic, address_in, is_allowed, amount_in_log, is_leak_between, leak_of_amount, of_log,
  transfer_leak, log_leak, log_leaks,
}

-- Nothing, or no more than an allowance for this token and this address.
abbrev pub IsAllowed : List AllowedLeak → Text → Text → ℤ → Type 0
IsAllowed allowed token to amount =
    (amount ≡ pos 0)
    ⊎ ((a : AllowedLeak) × Mem a allowed
        × (same_addr a.to to ≡ true)
        × (same_addr a.asset token ≡ true)
        × (amount ≤ℤ a.max))

-- A log is harmless if, where it is a transfer to a black hole other than the zero address that is
-- no mint, its amount can be read and is allowed.
abbrev pub IsHarmless : List AllowedLeak → Log → Type 0
IsHarmless allowed log =
    (topic from to : Text) (more : List Text)
    → log.topics ≡ topic ∷ from ∷ to ∷ more
    → to_lower_case topic ≡ transfer_topic
    → same_addr (address_in from) zero_address ≡ false
    → same_addr (address_in to) zero_address ≡ false
    → any (λ h. same_addr h (address_in to)) blackholes ≡ true
    → (amount : ℤ) × (amount_in_log log.log_data ≡ some amount)
      × IsAllowed allowed log.address (address_in to) amount

is_allowed-IsAllowed :
    (allowed : List AllowedLeak) (l : Leak)
    → is_allowed allowed l ≡ true
    → IsAllowed allowed l.asset l.to l.amount
unfolding is_allowed any
is_allowed-IsAllowed [] l h = absurd cc
is_allowed-IsAllowed (a ∷ allowed) l h = elim (Bool-cases (allows a)) [
  | inl e ↦ inr (a, mem-cons_self, ground (arith, e), ground (arith, e), ground (arith, e))
  | inr e ↦ elim (is_allowed-IsAllowed allowed l (rw e at h)) [
    | inl z ↦ inl z
    | inr (b, m, x, y, w) ↦ inr (b, mem-cons_of_mem a m, x, y, w)
  ]
]
  where
    allows : AllowedLeak → Bool
    allows a = same_addr a.to l.to && same_addr a.asset l.asset && not (ltb_ℤ a.max l.amount)

leak_of_amount-nil :
    (allowed : List AllowedLeak) (l : Leak)
    → leak_of_amount allowed l ≡ []
    → IsAllowed allowed l.asset l.to l.amount
unfolding leak_of_amount
leak_of_amount-nil allowed l h = elim (Bool-cases (eqb_ℤ l.amount (pos 0))) [
  | inl e ↦ inl (eq_of_parts l.amount (pos 0) (ground (arith, e)))
  | inr e ↦ elim (Bool-cases (is_allowed allowed l)) [
    | inl a ↦ is_allowed-IsAllowed allowed l a
    | inr a ↦ absurd (ground (arith, e, a, h))
  ]
]

some_eq {ℓ} : {A : Type ℓ} (a b : A) → some a ≡ some b → a ≡ b
some_eq a b h = ap (λ o. or_else o a) h

log_leak-IsHarmless :
    (allowed : List AllowedLeak) (log : Log)
    → log_leak allowed log ≡ some []
    → IsHarmless allowed log
unfolding log_leak transfer_leak is_leak_between
log_leak-IsHarmless allowed log h topic from to more at is_transfer no_mint no_burn hole =
    let (amount, read, g) = bind-some (amount_in_log log.log_data) _ [] found in
    (amount, read, leak_of_amount-nil allowed (of_log (address_in to) log amount) (some_eq _ _ g))
  where
    found :
        (amount_in_log log.log_data >>= λ amount.
        some (leak_of_amount allowed (of_log (address_in to) log amount)))
        ≡ some []
    found =
        let same : text_eq (to_lower_case topic) transfer_topic ≡ true =
          (text_eq_iff _ _).1 is_transfer in
        rw (at, same, no_burn, hole, no_mint) at h

pub append-nil_parts {ℓ} : {A : Type ℓ} (xs ys : List A) → xs ++ ys ≡ [] → (xs ≡ []) × (ys ≡ [])
append-nil_parts [] ys h = (refl, h)
append-nil_parts (x ∷ xs) ys h = absurd cc

pub log_leaks-AreHarmless :
    (allowed : List AllowedLeak) (logs : List Log)
    → log_leaks allowed logs ≡ some []
    → All (IsHarmless allowed) logs
unfolding log_leaks
log_leaks-AreHarmless allowed [] h = tt
log_leaks-AreHarmless allowed (log ∷ logs) h =
    let (here, a, h1) = bind-some (log_leak allowed log) _ [] h in
    let (later, b, h2) = bind-some (log_leaks allowed logs) _ [] h1 in
    let (x, y) = append-nil_parts here later (some_eq _ _ h2) in
    (
      log_leak-IsHarmless allowed log (a ∙ ap some x),
      log_leaks-AreHarmless allowed logs (b ∙ ap some y),
    )
