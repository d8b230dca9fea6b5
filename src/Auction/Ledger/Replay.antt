-- ===== src/Auction/Ledger/Replay.antt =====
-- The shares add up, and a restart finds the balances again.
use mathlib.Core.List.{append_assoc, append-nil}
use native.Mathlib.Nat.{mul-add, mul-le-mul_left}
use ordofi.Base.{
  ℕ, ◌+◌, ◌*◌, ◌/◌, ◌≤◌, List, [], ◌∷◌, ◌++◌, Option, none, some, ◌≡◌, refl, sym, ap, ◌∙◌, arith,
}
use ordofi.Base.Int.{ℤ, pos, ◌+ℤ◌, ◌-ℤ◌}
use ordofi.Base.Text.{Text}
use ordofi.Base.Text.Decimal.{big_int-to_string}
use ordofi.Base.Assoc.{TextMap}
use ordofi.Auction.Ledger.{
  RebateSplit, LedgerEntry, RebateLedger, Shares, shares_of, credit_app, credit_read, after_read,
  entry_of, record_result, replay, open_ledger,
}

-- Under shares that are no more than the whole, the three parts add up to the price, and no part is
-- above its share.
shares_of_total :
    (split : RebateSplit) (total : ℕ)
    → split.user + split.app ≤ 1000
    → let s = shares_of split total in
      (pos (s.user + s.app) +ℤ s.protocol ≡ pos total)
      × (1000 * s.user ≤ total * split.user)
      × (1000 * s.app ≤ total * split.app)
unfolding shares_of ◌+ℤ◌ ◌-ℤ◌
shares_of_total split total h =
    parts (total * split.user) (total * split.app)
      (omega (arith, mul-add total split.user split.app, mul-le-mul_left total h))
  where
    parts :
        (a b : ℕ)
        → a + b ≤ total * 1000
        → (pos (a / 1000 + b / 1000) +ℤ (pos total -ℤ pos (a / 1000) -ℤ pos (b / 1000)) ≡ pos total)
          × (1000 * (a / 1000) ≤ a)
          × (1000 * (b / 1000) ≤ b)
    parts a b le = (ground arith, omega arith, omega arith)

-- A line the ledger wrote is credited when it is read.
replay-entry_of :
    (addr : Option Text) (shares : Shares) (total : ℕ) (id searcher : Text) (now : ℕ)
    (es : List LedgerEntry) (owed : TextMap ℤ)
    → replay (entry_of shares total id searcher addr now ∷ es) owed
      ≡ replay es (credit_app addr (pos shares.app) owed)
unfolding replay credit_read credit_app after_read
replay-entry_of none shares total id searcher now es owed = refl
replay-entry_of (some []) shares total id searcher now es owed = refl
replay-entry_of (some (c ∷ addr)) shares total id searcher now es owed =
    rw (big_int-to_string shares.app) refl

-- One result to record.
pub record Settled : Type 0 where
  pub total : ℕ
  pub opportunity_id : Text
  pub searcher : Text
  pub app_rebate_address : Option Text
  pub now : ℕ

unfoldable pub record_all : RebateSplit → List Settled → RebateLedger → RebateLedger
record_all split [] l = l
record_all split (x ∷ xs) l =
    record_all split xs
      (record_result split x.total x.opportunity_id x.searcher x.app_rebate_address x.now l)

-- Reading the ledger's file again reads its balances.
Continues : RebateLedger → Type 0
Continues l = (es : List LedgerEntry) → replay (l.file ++ es) [] ≡ replay es l.owed

record_all-Continues :
    (split : RebateSplit) (xs : List Settled) (l : RebateLedger)
    → Continues l
    → Continues (record_all split xs l)
unfolding record_all record_result Continues
record_all-Continues split [] l c = c
record_all-Continues split (x ∷ xs) l c = record_all-Continues split xs _ λ es.
    let e =
      entry_of (shares_of split x.total) x.total x.opportunity_id x.searcher x.app_rebate_address
        x.now in
    ap (λ f. replay f []) (append_assoc l.file (e ∷ []) es)
    ∙ c (e ∷ es)
    ∙ replay-entry_of x.app_rebate_address (shares_of split x.total) x.total x.opportunity_id
        x.searcher x.now es l.owed

-- A ledger that started without a file and recorded any results has the balances that a restart reads
-- back from its file.
pub open_ledger-record_all :
    (split : RebateSplit) (xs : List Settled)
    → let l = record_all split xs (open_ledger []) in (open_ledger l.file).owed ≡ l.owed
unfolding open_ledger Continues replay
open_ledger-record_all split xs =
    let l = record_all split xs (open_ledger []) in
    ap (λ f. replay f []) (sym (append-nil l.file))
    ∙ record_all-Continues split xs (open_ledger []) fresh []
    ∙ replay_nil l.owed
  where
    fresh : Continues (open_ledger [])
    fresh es = refl

    replay_nil : (owed : TextMap ℤ) → replay [] owed ≡ owed
    replay_nil owed = refl
