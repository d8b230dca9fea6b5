-- ===== src/Batch/ServerTests.antt =====
-- The batcher at two concrete orders, and the theorems applied to it.
use mathlib.Core.List.{Nodup, Pairwise, Nodup-cons, mem-cons, not-mem-nil}
use mathlib.Core.Logic.Or
use mathlib.Core.HLevel.{⊥_prop}
use ordofi.Base.{
  ℕ, ◌+◌, ◌*◌, ◌-◌, ◌/◌, List, [], ◌∷◌, true, false, Option, none, some, if◌then◌else◌, ◌≡◌, ◌≢◌,
  refl, arith, map,
}
use ordofi.Base.Int.{pos}
use ordofi.Base.Text.{Text, codes, text_eq, text_eq_iff}
use ordofi.Base.Assoc.{get}
use ordofi.Base.Sums.{sum}
use ordofi.Batch.Types.{Order, Price, SimToken, Interaction, as_token, weth, zero_token}
use ordofi.Batch.Pairs.{PairBatch, all_orders}
use ordofi.Batch.Routing.{single, interactions_for}
use ordofi.Base.Text.{to_lower_case}
use ordofi.Batch.Pricing.{
  Clearing, discovery_clearing, divides, limit_failures, residual, prices, acceptable,
  next_clearing,
}
use ordofi.Batch.Solve.{BestRoute, SolveResult, solve}
use ordofi.Batch.Solve.SolveResult.{solved}
use ordofi.Batch.Book.{Pending, Book}
use ordofi.Batch.Book.OrderStatus.{pending}
use ordofi.Batch.Book.Balance.{AreLive, live_at, total}
use ordofi.Batch.Book.Fair.{IsFairBook, AreKept}
use ordofi.Batch.Settle.{Answers, settle_pair}
use ordofi.Batch.Settle.Sent.{sent_as}
use ordofi.Batch.Settle.Total.{settle_pair-total}
use ordofi.Batch.Windows.{Window, tick}
use ordofi.Batch.Windows.Kept.{tick-IsFairBook}
use ordofi.Batch.Book.OrderStatus.{awaiting_deposit}
use ordofi.Batch.Form.{RawOrder}
use ordofi.Batch.Form.Field.{undefined, null, text, number}
use ordofi.Batch.Form.Checked.{passed}
use ordofi.Batch.Intake.{Lookups, Accepted, enter, intake}
use ordofi.Batch.Intake.Funded.{HasTerms}
use ordofi.Batch.Intake.Read.{IsReadFrom}
use ordofi.Batch.Intake.Entered.{IsAnswered, intake-IsAnswered}
use ordofi.Batch.Solve.Sound.{ResultIsSound, solve-IsSound}

abbrev usdg : Text
usdg = codes "0x1111111111111111111111111111111111111111"

abbrev posted : Text → Text → Text → ℕ → ℕ → Order
posted owner s t n m = record {
  owner = owner;
  receiver = codes "0x";
  sell_token = s;
  buy_token = t;
  sell_amount = n;
  min_buy_amount = m;
  valid_to = 100;
  nonce = 1;
  app_data = codes "0x";
}

abbrev buys_usdg : Order
buys_usdg = posted (codes "0xa") weth usdg 100000 190000

abbrev sells_usdg : Order
sells_usdg = posted (codes "0xb") usdg weth 50000 20000

abbrev weth_usdg : PairBatch
weth_usdg = record { a = weth; b = usdg; sell_a = buys_usdg ∷ []; sell_b = sells_usdg ∷ [] }

-- A pool that gives two for one, under the two orders.
abbrev pool : ℕ → List Order → List Price → List Interaction → Option (List SimToken)
pool round os (p ∷ q ∷ []) (x ∷ []) = some (
    record { token = weth; delta = pos (100000 - x.amount_in); owed = 50000 * q.price / p.price }
    ∷ record {
      token = usdg;
      delta = pos (50000 + 2 * x.amount_in);
      owed = 100000 * p.price / q.price;
    }
    ∷ [])
pool round os ps xs = none

abbrev route : ℕ → Option BestRoute
route n = some (record { alloc = single []; out = n; single_out = n })

abbrev solution : SolveResult
solution = solve pool (route 200000) (route 25000) 10 30 weth_usdg

solve-IsSound_example : ResultIsSound pool (route 200000) (route 25000) 10 30 weth_usdg solution
solve-IsSound_example = solve-IsSound pool (route 200000) (route 25000) 10 30 weth_usdg

abbrev clearing_of : SolveResult → Option Clearing
clearing_of (solved s) = some s.clearing
clearing_of _ = none

solution-converges : clearing_of solution ≡ some (record { p_a = 199750; p_b = 100000 })
unfolding solve discovery_clearing sum divides limit_failures text_eq as_token to_lower_case
    residual prices interactions_for single acceptable next_clearing
solution-converges = refl

abbrev hash_of : Order → Text
hash_of o = o.owner

abbrev named : Text → Order
named h = if text_eq h (codes "0xa") then buys_usdg else sells_usdg

abbrev waiting : Order → Pending
waiting o = record {
  order = o;
  signature = codes "0x";
  deposited = true;
  received_at = 0;
  attempts = 2;
  status = pending;
}

abbrev book : Book
book = record {
  orders = (codes "0xa", waiting buys_usdg) ∷ (codes "0xb", waiting sells_usdg) ∷ [];
  in_flight = [];
  send_paused_until = 0;
  recent_batches = [];
  stats = record {
    received = 2;
    rejected = 0;
    filled = 0;
    expired = 0;
    batches = 0;
    batches_failed = 0;
    netted = 0;
    windows = 0;
  };
}

abbrev mined : Answers
mined = record {
  dry_error = none;
  sent = sent_as (codes "0xt");
  refused_at = 0;
  receipt = some (record { succeeded = true; gas_used = 21000 });
  mined_at = 7;
}

owners_apart : codes "0xa" ≢ codes "0xb"
unfolding text_eq
owners_apart e = let t : false ≡ true = (text_eq_iff (codes "0xa") (codes "0xb")).1 e in absurd cc

hashes-Nodup : Nodup (map hash_of (all_orders weth_usdg))
hashes-Nodup = Nodup-cons.1 (
  λ m. Or.elim ⊥_prop (mem-cons.0 m) owners_apart not-mem-nil,
  Nodup-cons.1 (not-mem-nil, Pairwise.nil),
)

book-AreLive : AreLive (map hash_of (all_orders weth_usdg)) book
unfolding AreLive get text_eq
book-AreLive h m =
    let prop : IsProp (live_at (get h book.orders) ≡ true) = hlevel in
    Or.elim prop (mem-cons.0 m) (λ e. rw e refl)
      (λ n. Or.elim prop (mem-cons.0 n) (λ e. rw e refl) (λ o. absurd (not-mem-nil o)))

settle_pair-total_example : total (settle_pair hash_of mined weth_usdg solution book) ≡ total book
settle_pair-total_example =
    settle_pair-total hash_of mined pool (route 200000) (route 25000) 10 30 weth_usdg book
      hashes-Nodup book-AreLive

book-IsFairBook : IsFairBook hash_of named book
unfolding IsFairBook AreKept text_eq
book-IsFairBook = (
  record { hash_eq = refl; named_eq = refl; fair = omega arith },
  (record { hash_eq = refl; named_eq = refl; fair = omega arith }, tt),
)

abbrev window : Window
window = record {
  start_s = 50;
  sends_at = 50000;
  ends_at = 51000;
  escrowed = λ h. none;
  routes_throw = λ pb. false;
  best_ab = λ pb. route 200000;
  best_ba = λ pb. route 25000;
  simulate = λ pb. pool;
  chain = λ pb. mined;
}

tick-IsFairBook_example : IsFairBook hash_of named (tick hash_of 10 30 window book)
tick-IsFairBook_example = tick-IsFairBook hash_of named 10 30 window book book-IsFairBook

abbrev owner_address : Text
owner_address = codes "0x2222222222222222222222222222222222222222"

-- An order with ether out, to be paid for by a deposit that is not there yet.
abbrev raw : RawOrder
raw = record {
  owner = text owner_address;
  receiver = undefined;
  sell_token = text usdg;
  buy_token = null;
  sell_amount = text (codes "5000");
  min_buy_amount = number (some (pos 2));
  valid_to = number (some (pos 100));
  nonce = text (codes "0x1");
  app_data = undefined;
}

abbrev parsed : Order
parsed = record {
  owner = owner_address;
  receiver = zero_token;
  sell_token = usdg;
  buy_token = zero_token;
  sell_amount = 5000;
  min_buy_amount = 2;
  valid_to = 100;
  nonce = 1;
  app_data = codes "0x0000000000000000000000000000000000000000000000000000000000000000";
}

abbrev lookups : Lookups
lookups = record {
  nonce_used_answer = some false;
  escrowed = some 0;
  signer = none;
  has_code = none;
  balance = none;
  allowance = none;
}

abbrev answer : Accepted
answer = record {
  hash = owner_address;
  status = awaiting_deposit;
  book = enter owner_address parsed [] 50000 awaiting_deposit book;
}

raw-accepted : intake hash_of lookups 50 50000 600 (some raw) [] book ≡ passed answer
unfolding intake
raw-accepted = refl

intake-IsAnswered_example :
    (sent : RawOrder) × (o : Order) × (some raw ≡ some sent)
    × IsReadFrom sent o
    × HasTerms 50 600 o
    × (answer.hash ≡ hash_of o)
    × IsAnswered hash_of lookups 50 50000 600 o [] book answer
intake-IsAnswered_example =
    intake-IsAnswered hash_of lookups 50 50000 600 (some raw) [] book answer raw-accepted
