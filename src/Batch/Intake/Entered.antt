-- ===== src/Batch/Intake/Entered.antt =====
-- Which orders enter the batcher's book, apps/batcher/src/main.ts.
use ordofi.Base.{
  ℕ, false, Option, none, some, ◌≡◌, refl, sym, ap, ◌∙◌, ◌⊎◌, inl, inr, arith, Bool-cases,
}
use ordofi.Base.Text.{Text}
use ordofi.Base.Assoc.{get}
use ordofi.Batch.Types.{Order}
use ordofi.Batch.Book.{Pending, Book}
use ordofi.Batch.Form.IntakeError.{order_required}
use ordofi.Batch.Form.{required, RawOrder, parse_order}
use ordofi.Batch.Form.Checked.{passed}
use ordofi.Batch.Intake.{
  Lookups, hashable, check_terms, check_escrow, check_signature, is_deposited, enter, Accepted,
  take_new, on_existing, intake,
}
use ordofi.Batch.Intake.Read.{IsReadFrom, hashable-IsReadFrom}
use ordofi.Batch.Intake.Funded.{
  bind-passed, required-passed, HasTerms, check_terms-HasTerms, IsFunded, check_escrow-IsFunded,
  check_signature-IsFunded,
}

module _ (order_hash : Order → Text) (chain : Lookups) (now now_ms max_valid_s : ℕ) where
  take_new-cases :
      (o : Order) (signature : Text) (st : Book) (r : Accepted)
      → take_new order_hash chain now now_ms max_valid_s o signature st ≡ passed r
      → (chain.nonce_used_answer ≡ some false)
        × IsFunded chain o signature r.status
        × (r.hash ≡ order_hash o)
        × (r.book ≡ enter (order_hash o) o signature now_ms r.status st)
  unfolding take_new
  take_new-cases o signature st r h = elim (Bool-cases (is_deposited signature)) [
    | inl d ↦
        let checked : check_escrow chain o ≡ passed r.status = ground arith in
        (
          ground arith,
          check_escrow-IsFunded chain o signature r.status d checked,
          ground arith,
          ground arith,
        )
    | inr d ↦
        let checked : check_signature chain o signature ≡ passed r.status = ground arith in
        (
          ground arith,
          check_signature-IsFunded chain o signature r.status d checked,
          ground arith,
          ground arith,
        )
  ]

  -- The order that a successful intake is about.
  intake-order :
      (body : Option RawOrder) (signature : Text) (st : Book) (r : Accepted)
      → intake order_hash chain now now_ms max_valid_s body signature st ≡ passed r
      → (raw : RawOrder) × (o : Order) × (body ≡ some raw)
        × IsReadFrom raw o
        × HasTerms now max_valid_s o
        × (on_existing order_hash chain now now_ms max_valid_s
              (get (order_hash o) st.orders)
              o
              signature
              st
            ≡ passed r)
  unfolding intake
  intake-order body signature st r h =
      let (raw, sent, h1) = bind-passed (required body order_required) _ r h in
      let (parsed, read, h2) = bind-passed (parse_order raw) _ r h1 in
      let (u, terms, h3) = bind-passed (check_terms now max_valid_s parsed) _ r h2 in
      let (o, form, h4) = bind-passed (hashable parsed) _ r h3 in
      (
        raw,
        o,
        required-passed body order_required raw sent,
        hashable-IsReadFrom raw parsed o read form,
        check_terms-HasTerms now max_valid_s parsed o u terms form,
        h4,
      )

  -- An order that is known already is answered by its status; another one is entered.
  abbrev pub IsAnswered : Order → Text → Book → Accepted → Type 0
  IsAnswered o signature st r =
      ((p : Pending) × (get r.hash st.orders ≡ some p) × (r.status ≡ p.status) × (r.book ≡ st))
      ⊎ ((get r.hash st.orders ≡ none)
          × (chain.nonce_used_answer ≡ some false)
          × IsFunded chain o signature r.status
          × (r.book ≡ enter r.hash o signature now_ms r.status st))

  on_existing-cases :
      (found : Option Pending) (o : Order) (signature : Text) (st : Book) (r : Accepted)
      → get (order_hash o) st.orders ≡ found
      → on_existing order_hash chain now now_ms max_valid_s found o signature st ≡ passed r
      → (r.hash ≡ order_hash o) × IsAnswered o signature st r
  unfolding on_existing
  on_existing-cases none o signature st r e h =
      let (nonce, funded, hash, book) = take_new-cases o signature st r h in
      (
        hash,
        inr (
          ap (λ k. get k st.orders) hash ∙ e,
          nonce,
          funded,
          book ∙ ap (λ k. enter k o signature now_ms r.status st) (sym hash),
        ),
      )
  on_existing-cases (some p) o signature st r e h =
      let hash : r.hash ≡ order_hash o = ground arith in
      (hash, inl (p, ap (λ k. get k st.orders) hash ∙ e, ground arith, ground arith))

  -- A body that is accepted holds an order, each of whose fields is read from the field of the body
  -- with its name: owner and sold token are addresses, receiver and bought token addresses or
  -- unset, the amounts, deadline and nonce numbers. The order has a positive amount, two different
  -- tokens, of which it does not sell ether, and a deadline ahead and near enough. The answer is
  -- its hash. If the hash is in the book, the answer is the status there and the book stays as it
  -- is; otherwise the nonce is unused, the order is funded as its status says, and it is entered.
  pub intake-IsAnswered :
      (body : Option RawOrder) (signature : Text) (st : Book) (r : Accepted)
      → intake order_hash chain now now_ms max_valid_s body signature st ≡ passed r
      → (raw : RawOrder) × (o : Order) × (body ≡ some raw)
        × IsReadFrom raw o
        × HasTerms now max_valid_s o
        × (r.hash ≡ order_hash o)
        × IsAnswered o signature st r
  intake-IsAnswered body signature st r h =
      let (raw, o, sent, read, terms, e) = intake-order body signature st r h in
      let (hash, answered) =
        on_existing-cases (get (order_hash o) st.orders) o signature st r refl e in
      (raw, o, sent, read, terms, hash, answered)
