-- ===== src/Watch/Detect/Flows.antt =====
-- What the net flows of a sender are, apps/watcher/src/detect.ts.
use ordofi.Base.{
  List, [], ◌∷◌, Bool, true, false, Option, none, some, or_else, any, if◌then◌else◌, ◌≡◌, refl, ap,
  ◌∙◌, Bool-cases, inl, inr,
}
use ordofi.Base.Int.{ℤ, pos, ◌+ℤ◌, ltb_ℤ}
use ordofi.Base.Text.{Text, text_eq, text_eq_iff, to_lower_case}
use ordofi.Base.Assoc.{TextMap, get, get-put}
use ordofi.Watch.Swaps.{Log, Receipt, topic_to_address, transfer_topic, weth}
use ordofi.Watch.Detect.{
  beneficiaries, add_flow, negated, amount_of, move_amount, transfer_flow, transfer_flows,
  sender_net,
}

-- A transfer that a log stands for.
pub record Transfer : Type 0 where
  pub token : Text
  pub from : Text
  pub to : Text
  pub amount : ℤ

abbrev transfer_with : Log → Text → Text → Option ℤ → Option Transfer
transfer_with log from to none = none
transfer_with log from to (some z) = some (record {
  token = to_lower_case log.address;
  from = topic_to_address from;
  to = topic_to_address to;
  amount = z;
})

abbrev transfer_at : Log → List Text → Option Transfer
transfer_at log (t ∷ from ∷ to ∷ ts) =
    if text_eq (to_lower_case t) transfer_topic
    then transfer_with log from to (amount_of log.log_data)
    else none
transfer_at log _ = none

-- The transfer of a log with the topic and two addresses, if its amount can be read.
abbrev pub transfer_of : Log → Option Transfer
transfer_of log = transfer_at log log.topics

-- What an account of one token is after a transfer, for those in `who`.
abbrev pub after_transfer : List Text → Text → ℤ → Option Transfer → ℤ
after_transfer who token z none = z
after_transfer who token z (some t) =
    if text_eq t.token token
    then (let received = if any (text_eq t.to) who then z +ℤ t.amount else z in
        if any (text_eq t.from) who then received +ℤ negated t.amount else received)
    else z

-- The same after all of these logs.
abbrev pub after_logs : List Text → Text → ℤ → List Log → ℤ
after_logs who token z [] = z
after_logs who token z (log ∷ logs) =
    after_logs who token (after_transfer who token z (transfer_of log)) logs

-- What the sender and the contract it called gained of a token: what they received less what they
-- paid, and of wrapped ether less the ether that was sent.
abbrev pub gained : Receipt → ℤ → Text → ℤ
gained r native_spent token =
    let z = after_logs (beneficiaries r) token (pos 0) r.logs in
    if text_eq weth token
    then (if ltb_ℤ (pos 0) native_spent then z +ℤ negated native_spent else z)
    else z

abbrev balance : Text → TextMap ℤ → ℤ
balance token m = or_else (get token m) (pos 0)

balance-add_flow :
    (t token : Text) (z : ℤ) (m : TextMap ℤ)
    → balance token (add_flow t z m)
      ≡ (if text_eq t token then balance token m +ℤ z else balance token m)
unfolding add_flow
balance-add_flow t token z m =
    ap (λ o. or_else o (pos 0)) (get-put t token (balance t m +ℤ z) m)
    ∙ by_test (text_eq t token) refl
  where
    by_test :
        (b : Bool)
        → text_eq t token ≡ b
        → or_else (if b then some (balance t m +ℤ z) else get token m) (pos 0)
          ≡ (if b then balance token m +ℤ z else balance token m)
    by_test true e = ap (λ k. balance k m +ℤ z) ((text_eq_iff t token).0 e)
    by_test false e = refl

twice :
    (b : Bool) (x y z : ℤ)
    → y ≡ (if b then x +ℤ z else x)
    → (if b then y +ℤ negated z else y) ≡ (if b then (x +ℤ z) +ℤ negated z else x)
twice true x y z e = ap (λ v. v +ℤ negated z) e
twice false x y z e = e

unchanged : (b : Bool) (x : ℤ) → x ≡ (if b then x else x)
unchanged true x = refl
unchanged false x = refl

module _ (who : List Text) (token t from to : Text) (z : ℤ) (m : TextMap ℤ) where
  balance-move_amount :
      balance token (move_amount who t from to (some z) m)
      ≡ after_transfer who token
          (balance token m)
          (some (record { token = t; from = from; to = to; amount = z }))
  unfolding move_amount
  balance-move_amount = by_tests (any (text_eq to) who) (any (text_eq from) who)
    where
      first : TextMap ℤ → TextMap ℤ
      first n = add_flow t z n

      by_tests :
          (a b : Bool)
          → let n = if a then add_flow t z m else m in
            balance token (if b then add_flow t (negated z) n else n) ≡ (
              if text_eq t token
              then (let received = if a then balance token m +ℤ z else balance token m in
                  if b then received +ℤ negated z else received)
              else balance token m)
      by_tests true true =
          balance-add_flow t token (negated z) (add_flow t z m)
          ∙ twice (text_eq t token) (balance token m) (balance token (add_flow t z m)) z
              (balance-add_flow t token z m)
      by_tests true false = balance-add_flow t token z m
      by_tests false true = balance-add_flow t token (negated z) m
      by_tests false false = unchanged (text_eq t token) (balance token m)

balance-transfer_flow :
    (who : List Text) (token : Text) (log : Log) (m : TextMap ℤ)
    → balance token (transfer_flow who log m)
      ≡ after_transfer who token (balance token m) (transfer_of log)
unfolding transfer_flow
balance-transfer_flow who token log m = on_topics log.topics
  where
    moved :
        (from to : Text) (z : Option ℤ)
        → balance token (
            move_amount who
              (to_lower_case log.address)
              (topic_to_address from)
              (topic_to_address to)
              z
              m)
          ≡ after_transfer who token (balance token m) (transfer_with log from to z)
    moved from to none = unfold move_amount in refl
    moved from to (some z) =
        balance-move_amount who token (to_lower_case log.address) (topic_to_address from)
          (topic_to_address to) z m

    on_topics :
        (ts : List Text)
        → balance token (transfer_flow who (record log { topics = ts }) m)
          ≡ after_transfer who token (balance token m) (transfer_at log ts)
    on_topics [] = refl
    on_topics (a ∷ []) = refl
    on_topics (a ∷ b ∷ []) = refl
    on_topics (a ∷ from ∷ to ∷ ts) = elim (Bool-cases (text_eq (to_lower_case a) transfer_topic)) [
      | inl e ↦ rw e (moved from to (amount_of log.log_data))
      | inr e ↦ rw e refl
    ]

balance-transfer_flows :
    (who : List Text) (token : Text) (logs : List Log) (m : TextMap ℤ)
    → balance token (transfer_flows who logs m) ≡ after_logs who token (balance token m) logs
unfolding transfer_flows
balance-transfer_flows who token [] m = refl
balance-transfer_flows who token (log ∷ logs) m =
    balance-transfer_flows who token logs (transfer_flow who log m)
    ∙ ap (λ z. after_logs who token z logs) (balance-transfer_flow who token log m)

-- The net flow of every token is what was gained of it.
pub sender_net-gained :
    (r : Receipt) (native_spent : ℤ) (token : Text)
    → or_else (get token (sender_net r native_spent)) (pos 0) ≡ gained r native_spent token
unfolding sender_net
sender_net-gained r native_spent token = spent (ltb_ℤ (pos 0) native_spent)
  where
    net : TextMap ℤ
    net = transfer_flows (beneficiaries r) r.logs []

    start : balance token [] ≡ pos 0
    start = unfold get in refl

    z : ℤ
    z = after_logs (beneficiaries r) token (pos 0) r.logs

    flows : balance token net ≡ z
    flows =
        balance-transfer_flows (beneficiaries r) token r.logs []
        ∙ ap (λ v. after_logs (beneficiaries r) token v r.logs) start

    spent :
        (b : Bool)
        → balance token (if b then add_flow weth (negated native_spent) net else net)
          ≡ (if text_eq weth token then (if b then z +ℤ negated native_spent else z) else z)
    spent true =
        balance-add_flow weth token (negated native_spent) net
        ∙ ap (λ v. if text_eq weth token then v +ℤ negated native_spent else v) flows
    spent false = flows ∙ unchanged (text_eq weth token) z
