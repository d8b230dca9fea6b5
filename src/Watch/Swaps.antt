-- ===== src/Watch/Swaps.antt =====
-- The data of apps/watcher/src/detect.ts, and the loop of `analyzeBlock` that gathers pools and swaps.
--
-- The numbers of the block that every entry carries are left out.
use ordofi.Base.{
  ℕ, ◌+◌, ◌-◌, ◌*◌, List, [], ◌∷◌, ◌++◌, ◌&&◌, Option, none, some, or_else, leb, ◌==◌,
  if◌then◌else◌, length, drop, any, Bool,
}
use ordofi.Base.Int.{ℤ}
use ordofi.Base.Text.{Text, codes, text_eq, to_lower_case, starts_with_0x}
use ordofi.Base.Assoc.{TextMap}

pub record Log : Type 0 where
  pub address : Text
  pub topics : List Text
  pub log_data : Text

pub data Quantity : Type 0 where
  number : ℕ → Quantity
  hex : Text → Quantity

pub record Receipt : Type 0 where
  pub transaction_hash : Text
  pub transaction_index : Quantity
  pub from : Text
  pub to : Option Text
  pub gas_used : Text
  pub effective_gas_price : Option Text
  pub status : Quantity
  pub logs : List Log

pub data SwapKind : Type 0 where
  univ2 univ3 univ4 : SwapKind

pub record SwapObservation : Type 0 where
  pub tx_hash : Text
  pub tx_index : Option ℕ
  pub pool : Text
  pub kind : SwapKind

pub record ArbObservation : Type 0 where
  pub tx_hash : Text
  pub tx_index : Option ℕ
  pub sender : Text
  pub pools_touched : List Text
  pub net_flows : TextMap ℤ
  pub profit_token : Text
  pub profit_wei : ℤ
  pub profit_is_quote : Bool
  pub gas_paid_wei : ℤ

hex_digit : ℕ → Option ℕ
hex_digit c =
    if leb b'0' c && leb c b'9'
    then some (c - b'0')
    else if leb b'a' c && leb c b'f'
    then some (c - b'a' + 10)
    else if leb b'A' c && leb c b'F'
    then some (c - b'A' + 10)
    else none

-- The digits at the front, `none` where there is none: `parseInt` answers `NaN`.
parse_digits : Option ℕ → Text → Option ℕ
unfolding hex_digit
parse_digits acc [] = acc
parse_digits acc (c ∷ s) = elim (hex_digit c) [
  | none ↦ acc
  | some d ↦ parse_digits (some (or_else acc 0 * 16 + d)) s
]

-- `toNum`
unfoldable pub to_num : Quantity → Option ℕ
unfolding parse_digits starts_with_0x to_lower_case
to_num (number n) = some n
to_num (hex t) = parse_digits none (if starts_with_0x (to_lower_case t) then drop 2 t else t)

-- `topicToAddress`
unfoldable pub topic_to_address : Text → Text
unfolding to_lower_case
topic_to_address topic = to_lower_case (codes "0x" ++ drop 26 topic)

abbrev pub first_topic : List Text → Text
first_topic [] = []
first_topic (t ∷ ts) = t

-- `SWAP_TOPICS`
unfoldable pub swap_kind : Text → Option SwapKind
unfolding text_eq
swap_kind t =
    if text_eq t (codes "0xd78ad95fa46c994b6551d0da85fc275fe613ce37657fb8d5e3d130840159d822")
    then some univ2
    else if text_eq t (codes "0xc42079f94a6350d7e6235f29174924f928cc2ac818eb64fed8004e115fbcca67")
    then some univ3
    else if text_eq t (codes "0x40e9cecb9f5f1f1c5b9c97dec2917b7ee92e57ba5563708daca94dd84ad7112f")
    then some univ4
    else none

abbrev pub transfer_topic : Text
transfer_topic = codes "0xddf252ad1be2c89b69c2b068fc378daa952ba7f163c4a11628f55a4df523b3ef"

abbrev pub weth : Text
weth = codes "0x0bd7d308f8e1639fab988df18a8011f41eacad73"

-- A pool of the singleton is named by the id in the second topic.
unfoldable pub pool_of : SwapKind → Log → Text
unfolding to_lower_case
pool_of univ4 log = by_id log.topics
  where
    by_id : List Text → Text
    by_id (t ∷ id ∷ ts) = if length id == 66 then to_lower_case id else to_lower_case log.address
    by_id _ = to_lower_case log.address
pool_of kind log = to_lower_case log.address

-- `pools.add(pool)`
unfoldable pub add_text : Text → List Text → List Text
unfolding any text_eq
add_text t ts = if any (text_eq t) ts then ts else ts ++ t ∷ []

abbrev pub Found : Type 0
Found = List Text × List SwapObservation

unfoldable pub on_kind : Receipt → Log → Option SwapKind → Found → Found
unfolding add_text pool_of to_num
on_kind r log none found = found
on_kind r log (some kind) (pools, swaps) =
    let pool = pool_of kind log in
    (
      add_text pool pools,
      swaps
          ++ record {
            tx_hash = r.transaction_hash;
            tx_index = to_num r.transaction_index;
            pool = pool;
            kind = kind;
          }
            ∷ [],
    )

-- The loop over the logs that gathers pools and swaps.
unfoldable pub gather_swaps : Receipt → List Log → Found → Found
unfolding on_kind swap_kind to_lower_case
gather_swaps r [] found = found
gather_swaps r (log ∷ logs) found =
    gather_swaps r logs (on_kind r log (swap_kind (to_lower_case (first_topic log.topics))) found)
