-- ===== src/Batch/Intake/Read.antt =====
-- How the order that is hashed follows from the posted body, `parseOrder` of apps/batcher/src/main.ts.
use mathlib.Core.Path.{subst}
use ordofi.Base.{
  [], ◌∷◌, Bool, true, false, some, ◌≡◌, refl, sym, ap, ◌⊎◌, inl, inr, arith, Bool-cases,
}
use ordofi.Base.Int.{ℤ, pos}
use ordofi.Base.Text.{Text, codes, to_lower_case, big_int}
use ordofi.Batch.Types.{Order, zero_token}
use ordofi.Batch.Form.{
  Field, RawOrder, ParsedOrder, is_hex_of, unset_address, addr, big, app_data_of, no_app_data,
  parse_order,
}
use ordofi.Batch.Form.Field.{undefined, null, other, text, number}
use ordofi.Batch.Form.IntakeError.{not_an_integer}
use ordofi.Batch.Form.Checked.{passed, refused}
use ordofi.Batch.Intake.{hashable}
use ordofi.Batch.Intake.Funded.{bind-passed, required-passed, fits_eq}

-- The field is an address of forty digits, in any case of letters.
abbrev IsAddress : Field → Text → Type 0
IsAddress (text t) a = (is_hex_of 40 t ≡ true) × (a ≡ to_lower_case t)
IsAddress _ a = ⊥

-- The field is missing, null or empty, and stands for the zero address.
abbrev IsUnset : Field → Text → Type 0
IsUnset undefined a = a ≡ zero_token
IsUnset null a = a ≡ zero_token
IsUnset (text []) a = a ≡ zero_token
IsUnset _ a = ⊥

-- The field is a number, or a text that `BigInt` reads as it.
abbrev IsNumber : Field → ℤ → Type 0
IsNumber (text t) z = big_int t ≡ some z
IsNumber (number n) z = n ≡ some z
IsNumber _ z = ⊥

-- The 32 bytes that the field holds, or zeros where it holds none.
abbrev IsAppData : Field → Text → Type 0
IsAppData (text t) d =
    ((is_hex_of 64 t ≡ true) × (d ≡ to_lower_case t))
    ⊎ ((is_hex_of 64 t ≡ false) × (d ≡ no_app_data))
IsAppData _ d = d ≡ no_app_data

app_data_of-IsAppData : (f : Field) → IsAppData f (app_data_of f)
unfolding app_data_of
app_data_of-IsAppData (text t) = elim (Bool-cases (is_hex_of 64 t)) [
  | inl e ↦ inl (e, rw e refl)
  | inr e ↦ inr (e, rw e refl)
]
app_data_of-IsAppData undefined = refl
app_data_of-IsAppData null = refl
app_data_of-IsAppData (number n) = refl
app_data_of-IsAppData other = refl

-- Each field of the order is read from the field of the body with its name.
pub record IsReadFrom (raw : RawOrder) (o : Order) : Type 0 where
  pub owner : IsAddress raw.owner o.owner
  pub receiver : IsAddress raw.receiver o.receiver ⊎ IsUnset raw.receiver o.receiver
  pub sell_token : IsAddress raw.sell_token o.sell_token
  pub buy_token : IsAddress raw.buy_token o.buy_token ⊎ IsUnset raw.buy_token o.buy_token
  pub sell_amount : IsNumber raw.sell_amount (pos o.sell_amount)
  pub min_buy_amount : IsNumber raw.min_buy_amount (pos o.min_buy_amount)
  pub valid_to : IsNumber raw.valid_to (pos o.valid_to)
  pub nonce : IsNumber raw.nonce (pos o.nonce)
  pub app_data : IsAppData raw.app_data o.app_data

passed_eq {ℓ} : {A : Type ℓ} (a b : A) → (passed a ≡ passed b) → a ≡ b
passed_eq a b h = ap (λ c. elim c [ passed x ↦ x | refused _ ↦ a ]) h

unset_address-required :
    (name : Text) (v : Field) (a : Text) → ¬ (unset_address false name v ≡ passed a)
unfolding unset_address
unset_address-required name v a h = cc

unset_address-IsUnset :
    (name : Text) (v : Field) (a : Text) → unset_address true name v ≡ passed a → IsUnset v a
unfolding unset_address
unset_address-IsUnset name undefined a h = sym (passed_eq zero_token a h)
unset_address-IsUnset name null a h = sym (passed_eq zero_token a h)
unset_address-IsUnset name (text []) a h = sym (passed_eq zero_token a h)
unset_address-IsUnset name (text (c ∷ s)) a h = absurd cc
unset_address-IsUnset name (number n) a h = absurd cc
unset_address-IsUnset name other a h = absurd cc

-- A field that is read as an address is one, or it is unset and passed on.
addr-cases :
    (optional : Bool) (name : Text) (v : Field) (a : Text)
    → addr optional name v ≡ passed a
    → IsAddress v a ⊎ (unset_address optional name v ≡ passed a)
unfolding addr
addr-cases optional name (text t) a h = elim (Bool-cases (is_hex_of 40 t)) [
  | inl e ↦ inl (e, sym (passed_eq (to_lower_case t) a (rw e at h)))
  | inr e ↦ inr (rw e at h)
]
addr-cases optional name undefined a h = inr h
addr-cases optional name null a h = inr h
addr-cases optional name (number n) a h = inr h
addr-cases optional name other a h = inr h

addr-IsAddress : (name : Text) (v : Field) (a : Text) → addr false name v ≡ passed a → IsAddress v a
addr-IsAddress name v a h = elim (addr-cases false name v a h) [
  | inl x ↦ x
  | inr e ↦ absurd (unset_address-required name v a e)
]

addr_optional :
    (name : Text) (v : Field) (a : Text) → addr true name v ≡ passed a → IsAddress v a ⊎ IsUnset v a
addr_optional name v a h = elim (addr-cases true name v a h) [
  | inl x ↦ inl x
  | inr e ↦ inr (unset_address-IsUnset name v a e)
]

big-IsNumber : (name : Text) (v : Field) (z : ℤ) → big name v ≡ passed z → IsNumber v z
unfolding big
big-IsNumber name (text t) z h = required-passed (big_int t) (not_an_integer name) z h
big-IsNumber name (number n) z h = required-passed n (not_an_integer name) z h
big-IsNumber name undefined z h = absurd cc
big-IsNumber name null z h = absurd cc
big-IsNumber name other z h = absurd cc

-- The same of the order before its amounts are known to fit.
record IsParsedFrom (raw : RawOrder) (p : ParsedOrder) : Type 0 where
  owner : IsAddress raw.owner p.owner
  receiver : IsAddress raw.receiver p.receiver ⊎ IsUnset raw.receiver p.receiver
  sell_token : IsAddress raw.sell_token p.sell_token
  buy_token : IsAddress raw.buy_token p.buy_token ⊎ IsUnset raw.buy_token p.buy_token
  sell_amount : IsNumber raw.sell_amount p.sell_amount
  min_buy_amount : IsNumber raw.min_buy_amount p.min_buy_amount
  valid_to : IsNumber raw.valid_to p.valid_to
  nonce : IsNumber raw.nonce p.nonce
  app_data : IsAppData raw.app_data p.app_data

parse_order-IsParsedFrom :
    (raw : RawOrder) (p : ParsedOrder) → parse_order raw ≡ passed p → IsParsedFrom raw p
unfolding parse_order
parse_order-IsParsedFrom raw p h0 =
    let (owner, a, h1) = bind-passed (addr false (codes "owner") raw.owner) _ p h0 in
    let (receiver, b, h2) = bind-passed (addr true (codes "receiver") raw.receiver) _ p h1 in
    let (sell_token, c, h3) = bind-passed (addr false (codes "sellToken") raw.sell_token) _ p h2 in
    let (buy_token, d, h4) = bind-passed (addr true (codes "buyToken") raw.buy_token) _ p h3 in
    let (sell, e, h5) = bind-passed (big (codes "sellAmount") raw.sell_amount) _ p h4 in
    let (buy, f, h6) = bind-passed (big (codes "minBuyAmount") raw.min_buy_amount) _ p h5 in
    let (valid, g, h7) = bind-passed (big (codes "validTo") raw.valid_to) _ p h6 in
    let (nonce, n, h8) = bind-passed (big (codes "nonce") raw.nonce) _ p h7 in
    subst (IsParsedFrom raw) (passed_eq _ p h8) (record {
      owner = addr-IsAddress (codes "owner") raw.owner owner a;
      receiver = addr_optional (codes "receiver") raw.receiver receiver b;
      sell_token = addr-IsAddress (codes "sellToken") raw.sell_token sell_token c;
      buy_token = addr_optional (codes "buyToken") raw.buy_token buy_token d;
      sell_amount = big-IsNumber (codes "sellAmount") raw.sell_amount sell e;
      min_buy_amount = big-IsNumber (codes "minBuyAmount") raw.min_buy_amount buy f;
      valid_to = big-IsNumber (codes "validTo") raw.valid_to valid g;
      nonce = big-IsNumber (codes "nonce") raw.nonce nonce n;
      app_data = app_data_of-IsAppData raw.app_data;
    })

-- An order that is parsed and can be hashed is read field by field from the body.
pub hashable-IsReadFrom :
    (raw : RawOrder) (p : ParsedOrder) (o : Order)
    → parse_order raw ≡ passed p
    → hashable p ≡ passed o
    → IsReadFrom raw o
unfolding hashable
hashable-IsReadFrom raw p o read h =
    let q = parse_order-IsParsedFrom raw p read in
    let owner : p.owner ≡ o.owner = ground arith in
    let receiver : p.receiver ≡ o.receiver = ground arith in
    let sell_token : p.sell_token ≡ o.sell_token = ground arith in
    let buy_token : p.buy_token ≡ o.buy_token = ground arith in
    let app_data : p.app_data ≡ o.app_data = ground arith in
    let sell = fits_eq 256 p.sell_amount o.sell_amount (ground arith) in
    let buy = fits_eq 256 p.min_buy_amount o.min_buy_amount (ground arith) in
    let valid = fits_eq 32 p.valid_to o.valid_to (ground arith) in
    let nonce = fits_eq 256 p.nonce o.nonce (ground arith) in
    record {
      owner = subst (IsAddress raw.owner) owner q.owner;
      receiver = subst (λ a. IsAddress raw.receiver a ⊎ IsUnset raw.receiver a) receiver q.receiver;
      sell_token = subst (IsAddress raw.sell_token) sell_token q.sell_token;
      buy_token =
          subst (λ a. IsAddress raw.buy_token a ⊎ IsUnset raw.buy_token a) buy_token q.buy_token;
      sell_amount = subst (IsNumber raw.sell_amount) sell q.sell_amount;
      min_buy_amount = subst (IsNumber raw.min_buy_amount) buy q.min_buy_amount;
      valid_to = subst (IsNumber raw.valid_to) valid q.valid_to;
      nonce = subst (IsNumber raw.nonce) nonce q.nonce;
      app_data = subst (IsAppData raw.app_data) app_data q.app_data;
    }
