-- ===== src/Gateway/Hub/Tests.antt =====
-- Runs of the subscription hub, and the theorems applied to them.
use ordofi.Base.{List, [], ◌∷◌, true, none, ◌≡◌, ◌↔◌, refl, ◌&&◌, if◌then◌else◌}
use ordofi.Base.Text.{Text, codes, text_eq}
use ordofi.Base.Assoc.{get, put, remove}
use ordofi.Gateway.Hub.{
  new_heads, logs, one, many, other, RawLog, parse_log_filter, log_matches, Entry, empty_hub, add,
  remove_sub, drop, Change, subscribes, unsubscribes, step, run, IsFresh,
}
use ordofi.Gateway.Hub.Consistency.{held_by}
use ordofi.Gateway.Hub.Lifecycle.{
  IsConsistent, run-IsConsistent, drop_own_subscriptions, remove_sub_owner_only,
}
use ordofi.Gateway.Hub.Filters.{allows, AllowsEach, log_matches_iff}

abbrev heads_for : Text → Entry
heads_for s = record { sink = s; kind = new_heads; filter = none }

abbrev logs_for : Text → Entry
logs_for s = record { sink = s; kind = logs; filter = none }

-- Two sockets subscribe, one cancels, a stranger tries to, and one closes.
abbrev traffic : List Change
traffic =
    subscribes (codes "1") (heads_for (codes "a"))
    ∷ subscribes (codes "2") (logs_for (codes "a"))
    ∷ subscribes (codes "3") (heads_for (codes "b"))
    ∷ unsubscribes (codes "b") (codes "2")
    ∷ unsubscribes (codes "b") (codes "3")
    ∷ subscribes (codes "4") (heads_for (codes "b"))
    ∷ []

traffic-IsFresh : IsFresh traffic empty_hub
unfolding IsFresh step add remove_sub empty_hub get put remove text_eq
traffic-IsFresh = (refl, (refl, (refl, (refl, tt))))

run-IsConsistent_example : IsConsistent (run empty_hub traffic)
run-IsConsistent_example = run-IsConsistent traffic traffic-IsFresh

drop_own_subscriptions_example :
    get (codes "1") (drop (codes "a") (run empty_hub traffic)).0.by_id ≡ (
      if held_by (codes "a") (get (codes "1") (run empty_hub traffic).by_id)
      then none
      else get (codes "1") (run empty_hub traffic).by_id)
drop_own_subscriptions_example =
    drop_own_subscriptions (codes "a") (run empty_hub traffic) (codes "1")
      (run-IsConsistent traffic traffic-IsFresh)

remove_sub_owner_only_example :
    let h = run empty_hub traffic in
    ((remove_sub (codes "b") (codes "1") h).1 ≡ held_by (codes "b") (get (codes "1") h.by_id))
    × (get (codes "1") (remove_sub (codes "b") (codes "1") h).0.by_id ≡ (
        if held_by (codes "b") (get (codes "1") h.by_id) && text_eq (codes "1") (codes "1")
        then none
        else get (codes "1") h.by_id))
remove_sub_owner_only_example =
    remove_sub_owner_only (codes "b") (codes "1") (run empty_hub traffic) (codes "1")

abbrev some_log : RawLog
some_log = record { address = codes "0xAb"; topics = codes "0x1" ∷ codes "0x2" ∷ [] }

log_matches_iff_example :
    (log_matches some_log
        (parse_log_filter (one (codes "0xaB")) (other ∷ many (codes "0x2" ∷ []) ∷ []))
      ≡ true)
    ↔ ((allows (one (codes "0xaB")) some_log.address ≡ true)
        × AllowsEach 4 (other ∷ many (codes "0x2" ∷ []) ∷ []) some_log.topics)
log_matches_iff_example =
    log_matches_iff some_log (one (codes "0xaB")) (other ∷ many (codes "0x2" ∷ []) ∷ [])
