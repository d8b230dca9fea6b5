-- ===== src/Batch/Intake/Funded.antt =====
-- What the checks of an intake, apps/batcher/src/main.ts, make sure of.
use ordofi.Base.{
  ℕ, ◌+◌, ◌≤◌, ◌<◌, Bool, true, false, Option, none, some, ◌==◌, ◌≡◌, ◌≢◌, refl, ap, ◌∙◌, ◌⊎◌, inl,
  inr, arith, Bool-cases, Option-cases,
}
use ordofi.Base.Int.{ℤ, pos, negsuc, ltb_ℤ}
use ordofi.Base.Text.{Text, text_eq, text_eq_iff}
use ordofi.Batch.Types.{Order, as_token, zero_token}
use ordofi.Batch.Book.{OrderStatus}
use ordofi.Batch.Book.OrderStatus.{pending, awaiting_deposit}
use ordofi.Batch.Form.IntakeError.{call_failed}
use ordofi.Batch.Form.{IntakeError, Checked, ◌>>=◌, demand, required, ParsedOrder}
use ordofi.Batch.Form.Checked.{passed, refused}
use ordofi.Batch.Intake.{
  Lookups, fits, hashable, check_terms, check_escrow, escrow_status, can_pull, is_owner, signed_by,
  check_signature, is_deposited,
}

-- A chain that succeeds has a first step that succeeds.
pub bind-passed {ℓ κ} :
    {A : Type ℓ} {B : Type κ} (m : Checked A) (f : A → Checked B) (b : B)
    → (m >>= f) ≡ passed b
    → (a : A) × (m ≡ passed a) × (f a ≡ passed b)
bind-passed (passed a) f b h = (a, refl, h)
bind-passed (refused e) f b h = absurd cc

pub demand-passed : (t : Bool) (e : IntakeError) (u : Unit {0}) → demand t e ≡ passed u → t ≡ true
demand-passed true e u h = refl
demand-passed false e u h = absurd cc

pub required-passed {ℓ} :
    {A : Type ℓ} (o : Option A) (e : IntakeError) (a : A) → required o e ≡ passed a → o ≡ some a
required-passed none e a h = absurd cc
required-passed (some b) e a h = ap (λ r. elim r [ passed x ↦ some x | refused _ ↦ some b ]) h

-- The terms that an order has to have at the time `now`.
pub record HasTerms (now max_valid_s : ℕ) (o : Order) : Type 0 where
  pub positive : 0 < o.sell_amount
  pub two_tokens : as_token o.sell_token ≢ as_token o.buy_token
  pub sells_token : o.sell_token ≢ zero_token
  pub ahead : now + 1 < o.valid_to
  pub within : o.valid_to ≤ now + max_valid_s

pub fits_eq : (width : ℕ) (z : ℤ) (n : ℕ) → fits width z ≡ some n → z ≡ pos n
fits_eq width (pos m) n h = ground arith
fits_eq width (negsuc m) n h = absurd cc

-- The hashable form of an order has its fields.
record IsFormOf (p : ParsedOrder) (o : Order) : Type 0 where
  sell_token_eq : o.sell_token ≡ p.sell_token
  buy_token_eq : o.buy_token ≡ p.buy_token
  sell_amount_eq : p.sell_amount ≡ pos o.sell_amount
  valid_to_eq : p.valid_to ≡ pos o.valid_to

hashable-IsFormOf : (p : ParsedOrder) (o : Order) → hashable p ≡ passed o → IsFormOf p o
unfolding hashable
hashable-IsFormOf p o h = record {
  sell_token_eq = ground arith;
  buy_token_eq = ground arith;
  sell_amount_eq = fits_eq 256 p.sell_amount o.sell_amount (ground arith);
  valid_to_eq = fits_eq 32 p.valid_to o.valid_to (ground arith);
}

pub check_terms-HasTerms :
    (now max_valid_s : ℕ) (p : ParsedOrder) (o : Order) (u : Unit {0})
    → check_terms now max_valid_s p ≡ passed u
    → hashable p ≡ passed o
    → HasTerms now max_valid_s o
unfolding check_terms
check_terms-HasTerms now max_valid_s p o u t h =
    let f = hashable-IsFormOf p o h in
    let positive : ltb_ℤ (pos 0) p.sell_amount ≡ true = ground arith in
    let differ : text_eq (as_token p.sell_token) (as_token p.buy_token) ≡ false = ground arith in
    let token : text_eq p.sell_token zero_token ≡ false = ground arith in
    let ahead : ltb_ℤ (pos (now + 1)) p.valid_to ≡ true = ground arith in
    let within : ltb_ℤ (pos (now + max_valid_s)) p.valid_to ≡ false = ground arith in
    let sell = ap (λ z. ltb_ℤ (pos 0) z) f.sell_amount_eq in
    let soon = ap (λ z. ltb_ℤ (pos (now + 1)) z) f.valid_to_eq in
    let late = ap (λ z. ltb_ℤ (pos (now + max_valid_s)) z) f.valid_to_eq in
    let same = ap (λ x. text_eq x zero_token) f.sell_token_eq in
    let pair : text_eq (as_token o.sell_token) (as_token o.buy_token) ≡ false =
      rw (f.sell_token_eq, f.buy_token_eq) differ in
    record {
      positive = ground (arith, sell);
      two_tokens = λ e.
          absurd
            (ground (arith, text_eq_iff (as_token o.sell_token) (as_token o.buy_token), e, pair));
      sells_token = λ e. absurd (ground (arith, text_eq_iff o.sell_token zero_token, e, same));
      ahead = ground (arith, soon);
      within = ground (arith, late);
    }

-- How an order is paid for: by a deposit that is awaited, by one that is there in full, or by a pull
-- from an owner who signed, or has code, and who holds and allows the amount.
abbrev pub CanBePulled : Lookups → Order → Type 0
CanBePulled chain o =
    ((chain.signer ≡ some o.owner) ⊎ (chain.has_code ≡ some true))
    × (((b : ℕ) × (chain.balance ≡ some b) × (o.sell_amount ≤ b))
        × ((a : ℕ) × (chain.allowance ≡ some a) × (o.sell_amount ≤ a)))

abbrev pub IsFunded : Lookups → Order → Text → OrderStatus → Type 0
IsFunded chain o signature status =
    ((is_deposited signature ≡ true) × (status ≡ awaiting_deposit) × (chain.escrowed ≡ some 0))
    ⊎ (((is_deposited signature ≡ true)
          × (status ≡ pending)
          × (chain.escrowed ≡ some o.sell_amount))
        ⊎ ((is_deposited signature ≡ false) × (status ≡ pending) × CanBePulled chain o))

escrow_status-cases :
    (o : Order) (esc : ℕ) (status : OrderStatus)
    → escrow_status o esc ≡ passed status
    → ((status ≡ awaiting_deposit) × (esc ≡ 0)) ⊎ ((status ≡ pending) × (esc ≡ o.sell_amount))
unfolding escrow_status
escrow_status-cases o esc status h = elim (Bool-cases (esc == 0)) [
  | inl e ↦ inl (ground arith, ground arith)
  | inr e ↦ inr (ground arith, ground arith)
]

pub check_escrow-IsFunded :
    (chain : Lookups) (o : Order) (signature : Text) (status : OrderStatus)
    → is_deposited signature ≡ true
    → check_escrow chain o ≡ passed status
    → IsFunded chain o signature status
unfolding check_escrow
check_escrow-IsFunded chain o signature status d h =
    let (esc, e, r) =
      bind-passed (required chain.escrowed call_failed) (escrow_status o) status h in
    let found = required-passed chain.escrowed call_failed esc e in
    elim (escrow_status-cases o esc status r) [
      | inl (s, z) ↦ inl (d, s, found ∙ ap some z)
      | inr (s, z) ↦ inr (inl (d, s, found ∙ ap some z))
    ]

signed_by-cases :
    (chain : Lookups) (o : Order) (u : Unit {0})
    → signed_by chain o ≡ passed u
    → (chain.signer ≡ some o.owner) ⊎ (chain.has_code ≡ some true)
unfolding signed_by
signed_by-cases chain o u h = elim (Bool-cases (is_owner o.owner chain.signer)) [
  | inl e ↦ inl (by_signer chain.signer e)
  | inr e ↦ inr (ground arith)
]
  where
    by_signer : (who : Option Text) → is_owner o.owner who ≡ true → who ≡ some o.owner
    by_signer none e = absurd cc
    by_signer (some who) e = ap some ((text_eq_iff who o.owner).0 e)

can_pull-cases :
    (chain : Lookups) (o : Order) (u : Unit {0})
    → can_pull chain o ≡ passed u
    → ((b : ℕ) × (chain.balance ≡ some b) × (o.sell_amount ≤ b))
      × ((a : ℕ) × (chain.allowance ≡ some a) × (o.sell_amount ≤ a))
unfolding can_pull
can_pull-cases chain o u h = elim (Option-cases chain.allowance) [
  | inl a ↦ absurd (ground arith)
  | inr (a, x) ↦ elim (Option-cases chain.balance) [
    | inl b ↦ absurd (ground arith)
    | inr (b, y) ↦ ((b, y, ground arith), (a, x, ground arith))
  ]
]

pub check_signature-IsFunded :
    (chain : Lookups) (o : Order) (signature : Text) (status : OrderStatus)
    → is_deposited signature ≡ false
    → check_signature chain o signature ≡ passed status
    → IsFunded chain o signature status
unfolding check_signature
check_signature-IsFunded chain o signature status d h =
    let signed : signed_by chain o ≡ passed tt = ground arith in
    let pulled : can_pull chain o ≡ passed tt = ground arith in
    inr
      (inr (d, ground arith, (signed_by-cases chain o tt signed, can_pull-cases chain o tt pulled)))
