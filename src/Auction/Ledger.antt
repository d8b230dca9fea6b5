-- ===== src/Auction/Ledger.antt =====
-- Rebate accounting, apps/auction/src/ledger.ts.
--
-- The shares are the thousandths that the code rounds `REBATE_SPLIT` to, and the clearing price is a
-- natural number, being above zero. `file` stands for the parsed lines of the ledger's file.
pub mod Replay
mod Tests
use ordofi.Base.{
  ℕ, ◌+◌, ◌-◌, ◌*◌, ◌/◌, List, [], ◌∷◌, ◌++◌, Bool, true, false, Option, none, some, or_else, ◌>>=◌,
  if◌then◌else◌,
}
use ordofi.Base.Int.{ℤ, pos, ◌+ℤ◌, ◌-ℤ◌}
use ordofi.Base.Text.{Text, to_lower_case, big_int}
use ordofi.Base.Text.Decimal.{to_string}
use ordofi.Base.Assoc.{TextMap, get, put}

pub record RebateSplit : Type 0 where
  pub user : ℕ
  pub app : ℕ

pub record LedgerEntry : Type 0 where
  pub opportunity_id : Text
  pub at : ℕ
  pub total_wei : Text
  pub user_wei : Text
  pub app_wei : Text
  pub protocol_wei : Text
  pub app_rebate_address : Option Text
  pub searcher : Text

pub record RebateLedger : Type 0 where
  pub owed : TextMap ℤ
  pub file : List LedgerEntry

pub record Shares : Type 0 where
  pub user : ℕ
  pub app : ℕ
  pub protocol : ℤ

-- `userWei`, `appWei` and `protocolWei`
unfoldable pub shares_of : RebateSplit → ℕ → Shares
unfolding ◌-ℤ◌
shares_of split total =
    let user_wei = total * split.user / 1000 in
    let app_wei = total * split.app / 1000 in
    record { user = user_wei; app = app_wei; protocol = pos total -ℤ pos user_wei -ℤ pos app_wei }

-- `credit`
unfoldable pub credit : Text → ℤ → TextMap ℤ → TextMap ℤ
unfolding ◌+ℤ◌
credit addr wei owed =
    let a = to_lower_case addr in put a (or_else (get a owed) (pos 0) +ℤ wei) owed

-- `if (appRebateAddress) this.credit(…)`
credit_app : Option Text → ℤ → TextMap ℤ → TextMap ℤ
unfolding credit
credit_app none wei owed = owed
credit_app (some []) wei owed = owed
credit_app (some (c ∷ addr)) wei owed = credit (c ∷ addr) wei owed

abbrev pub entry_of : Shares → ℕ → Text → Text → Option Text → ℕ → LedgerEntry
entry_of shares total opportunity_id searcher app_rebate_address now = record {
  opportunity_id = opportunity_id;
  at = now;
  total_wei = to_string (pos total);
  user_wei = to_string (pos shares.user);
  app_wei = to_string (pos shares.app);
  protocol_wei = to_string shares.protocol;
  app_rebate_address = app_rebate_address;
  searcher = searcher;
}

-- `record`
unfoldable pub record_result :
    RebateSplit → ℕ → Text → Text → Option Text → ℕ → RebateLedger → RebateLedger
unfolding credit_app shares_of
record_result split total opportunity_id searcher app_rebate_address now l =
    let shares = shares_of split total in
    record {
      owed = credit_app app_rebate_address (pos shares.app) l.owed;
      file = l.file ++ entry_of shares total opportunity_id searcher app_rebate_address now ∷ [];
    }

-- `if (e.appRebateAddress) this.credit(…, BigInt(…))`, `none` where `BigInt` throws.
credit_read : Option Text → Text → TextMap ℤ → Option (TextMap ℤ)
unfolding credit big_int
credit_read none wei owed = some owed
credit_read (some []) wei owed = some owed
credit_read (some (c ∷ addr)) wei owed = big_int wei >>= λ z. some (credit (c ∷ addr) z owed)

after_read : Option (TextMap ℤ) → TextMap ℤ → (TextMap ℤ → TextMap ℤ) → TextMap ℤ
after_read none owed rest = owed
after_read (some owed') owed rest = rest owed'

-- `replay`: the loop ends at a line that does not convert.
unfoldable pub replay : List LedgerEntry → TextMap ℤ → TextMap ℤ
unfolding credit_read after_read
replay [] owed = owed
replay (e ∷ es) owed = after_read (credit_read e.app_rebate_address e.app_wei owed) owed (replay es)

-- The constructor.
unfoldable pub open_ledger : List LedgerEntry → RebateLedger
open_ledger file = record { owed = replay file []; file = file }
