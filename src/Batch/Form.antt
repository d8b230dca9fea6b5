-- ===== src/Batch/Form.antt =====
-- `parseOrder` of apps/batcher/src/main.ts: a posted order, as `JSON.parse` leaves it, field by field.
use ordofi.Base.{
  ℕ, zero, suc, [], ◌∷◌, Bool, true, false, ◌&&◌, ◌||◌, Option, none, some, leb, ◌==◌,
  if◌then◌else◌,
}
use ordofi.Base.Int.{ℤ}
use ordofi.Base.Text.{Text, codes, to_lower_case, big_int}
use ordofi.Batch.Types.{zero_token}

-- A value of the parsed body; a number with its integer value, if it has one.
pub data Field : Type 0 where
  undefined null other : Field
  text : Text → Field
  number : Option ℤ → Field

pub data IntakeError : Type 0 where
  order_required : IntakeError
  not_an_address not_numeric not_an_integer : Text → IntakeError
  not_positive same_tokens pays_ether in_the_past too_far_ahead cannot_be_hashed : IntakeError
  call_failed nonce_used escrow_differs signature_length not_the_owner : IntakeError
  balance_too_low allowance_too_low : IntakeError

-- What is checked either passes or throws the first error.
pub data Checked {ℓ} (A : Type ℓ) : Type ℓ where
  refused : IntakeError → Checked A
  passed : A → Checked A

abbrev pub required {ℓ} : {A : Type ℓ} → Option A → IntakeError → Checked A
required (some a) e = passed a
required none e = refused e

-- `if (!t) throw new Error(...)`
abbrev pub demand : Bool → IntakeError → Checked (Unit {0})
demand t e = if t then passed tt else refused e

infixl 5 ◌>>=◌ ◌>>◌
abbrev pub ◌>>=◌ {ℓ κ} : {A : Type ℓ} {B : Type κ} → Checked A → (A → Checked B) → Checked B
refused e >>= later = refused e
passed a >>= later = later a

abbrev pub ◌>>◌ {ℓ} : {A : Type ℓ} → Checked (Unit {0}) → Checked A → Checked A
first >> later = first >>= λ u. later

pub record RawOrder : Type 0 where
  pub owner : Field
  pub receiver : Field
  pub sell_token : Field
  pub buy_token : Field
  pub sell_amount : Field
  pub min_buy_amount : Field
  pub valid_to : Field
  pub nonce : Field
  pub app_data : Field

pub record ParsedOrder : Type 0 where
  pub owner : Text
  pub receiver : Text
  pub sell_token : Text
  pub buy_token : Text
  pub sell_amount : ℤ
  pub min_buy_amount : ℤ
  pub valid_to : ℤ
  pub nonce : ℤ
  pub app_data : Text

abbrev is_hex_unit : ℕ → Bool
is_hex_unit c =
    (leb b'0' c && leb c b'9') || (leb b'a' c && leb c b'f') || (leb b'A' c && leb c b'F')

are_hex : ℕ → Text → Bool
are_hex zero [] = true
are_hex (suc n) (c ∷ s) = is_hex_unit c && are_hex n s
are_hex _ _ = false

-- `/^0x[0-9a-fA-F]{n}$/`
unfoldable pub is_hex_of : ℕ → Text → Bool
unfolding are_hex
is_hex_of n (a ∷ b ∷ s) = a == b'0' && b == b'x' && are_hex n s
is_hex_of n _ = false

abbrev pub is_blank : Field → Bool
is_blank undefined = true
is_blank null = true
is_blank (text []) = true
is_blank _ = false

unfoldable pub unset_address : Bool → Text → Field → Checked Text
unset_address optional name v =
    if optional && is_blank v then passed zero_token else refused (not_an_address name)

-- `addr`
unfoldable pub addr : Bool → Text → Field → Checked Text
unfolding is_hex_of unset_address to_lower_case
addr optional name (text t) =
    if is_hex_of 40 t then passed (to_lower_case t) else unset_address optional name (text t)
addr optional name v = unset_address optional name v

-- `big`
unfoldable pub big : Text → Field → Checked ℤ
unfolding big_int
big name (text t) = required (big_int t) (not_an_integer name)
big name (number v) = required v (not_an_integer name)
big name _ = refused (not_numeric name)

abbrev pub no_app_data : Text
no_app_data = codes "0x0000000000000000000000000000000000000000000000000000000000000000"

unfoldable pub app_data_of : Field → Text
unfolding is_hex_of to_lower_case
app_data_of (text t) = if is_hex_of 64 t then to_lower_case t else no_app_data
app_data_of _ = no_app_data

-- `parseOrder`
unfoldable pub parse_order : RawOrder → Checked ParsedOrder
unfolding addr big app_data_of
parse_order raw = do
  owner ← addr false (codes "owner") raw.owner
  receiver ← addr true (codes "receiver") raw.receiver
  sell_token ← addr false (codes "sellToken") raw.sell_token
  buy_token ← addr true (codes "buyToken") raw.buy_token
  sell_amount ← big (codes "sellAmount") raw.sell_amount
  min_buy_amount ← big (codes "minBuyAmount") raw.min_buy_amount
  valid_to ← big (codes "validTo") raw.valid_to
  nonce ← big (codes "nonce") raw.nonce
  passed (record {
    owner = owner;
    receiver = receiver;
    sell_token = sell_token;
    buy_token = buy_token;
    sell_amount = sell_amount;
    min_buy_amount = min_buy_amount;
    valid_to = valid_to;
    nonce = nonce;
    app_data = app_data_of raw.app_data;
  })
