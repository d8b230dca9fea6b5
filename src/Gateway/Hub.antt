-- ===== src/Gateway/Hub.antt =====
-- The class `Hub` of apps/gateway/src/subscribe.ts, and which logs match which filter.
--
-- A sink is known by a name; the random id of a new subscription is an argument of `add`. What is sent
-- stands as a list of sink, id and result, in the order of the calls of `send`.
pub mod Consistency
pub mod Ownership
pub mod Lifecycle
pub mod Filters
mod Tests
use ordofi.Base.{
  ℕ, zero, suc, ◌+◌, ◌-◌, ◌<◌, List, [], ◌∷◌, ◌++◌, Bool, true, false, not, ◌&&◌, ◌||◌, Option,
  none, some, or_else, is_some, length, ltb, keep, ◌≡◌, any, if◌then◌else◌,
}
use ordofi.Base.Text.{Text, text_eq, to_lower_case}
use ordofi.Base.Assoc.{TextMap, get, put, remove}

pub data Kind : Type 0 where
  new_heads logs : Kind

pub record RawLog : Type 0 where
  pub address : Text
  pub topics : List Text

-- `none` is anything, a list one of these.
pub record LogFilter : Type 0 where
  pub address : Option (List Text)
  pub topics : List (Option (List Text))

-- What a client may pass for an address or for one topic.
pub data Param : Type 0 where
  one : Text → Param
  many : List Text → Param
  other : Param

lower_all : List Text → List Text
lower_all [] = []
lower_all (t ∷ ts) = to_lower_case t ∷ lower_all ts

unfoldable pub parse_one : Param → Option (List Text)
unfolding lower_all
parse_one (one t) = some (to_lower_case t ∷ [])
parse_one (many []) = none
parse_one (many (t ∷ ts)) = some (lower_all (t ∷ ts))
parse_one other = none

-- `p.topics.slice(0, 4)`, each parsed.
unfoldable pub parse_topics : ℕ → List Param → List (Option (List Text))
unfolding parse_one
parse_topics zero ps = []
parse_topics (suc n) [] = []
parse_topics (suc n) (p ∷ ps) = parse_one p ∷ parse_topics n ps

-- `parseLogFilter`; topics that are no array are an empty list.
unfoldable pub parse_log_filter : Param → List Param → LogFilter
unfolding parse_one parse_topics
parse_log_filter address topics = record {
  address = parse_one address;
  topics = parse_topics 4 topics;
}

-- `set.has(t)`
unfoldable pub has : List Text → Text → Bool
has [] t = false
has (s ∷ set) t = text_eq s t || has set t

unfoldable pub address_matches : Option (List Text) → Text → Bool
unfolding has
address_matches none a = true
address_matches (some set) a = has set (to_lower_case a)

-- `if (!got || !want.has(lower(got))) return false`; an empty string is no topic.
unfoldable pub topic_matches : List Text → List Text → Bool
unfolding has
topic_matches want [] = false
topic_matches want ([] ∷ rest) = false
topic_matches want ((c ∷ got) ∷ rest) = has want (to_lower_case (c ∷ got))

-- `log.topics.slice(1)`
unfoldable pub later_topics : List Text → List Text
later_topics [] = []
later_topics (t ∷ ts) = ts

unfoldable pub topics_match : List (Option (List Text)) → List Text → Bool
unfolding topic_matches later_topics
topics_match [] got = true
topics_match (none ∷ wants) got = topics_match wants (later_topics got)
topics_match (some want ∷ wants) got =
    topic_matches want got && topics_match wants (later_topics got)

-- `logMatches`
unfoldable pub log_matches : RawLog → LogFilter → Bool
unfolding address_matches topics_match
log_matches log f = address_matches f.address log.address && topics_match f.topics log.topics

pub record Entry : Type 0 where
  pub sink : Text
  pub kind : Kind
  pub filter : Option LogFilter

pub record Hub : Type 0 where
  pub by_id : TextMap Entry
  pub by_sink : TextMap (List Text)
  pub heads : ℕ
  pub log_subs : ℕ

unfoldable pub empty_hub : Hub
empty_hub = record { by_id = []; by_sink = []; heads = 0; log_subs = 0 }

unfoldable pub is_heads : Kind → Bool
is_heads new_heads = true
is_heads logs = false

-- `own.add(id)`
unfoldable pub include : Text → List Text → List Text
unfolding has
include id own = if has own id then own else own ++ id ∷ []

-- `this.bySink.get(sink) ?? new Set()`
unfoldable pub own_of : Text → Hub → List Text
own_of sink h = or_else (get sink h.by_sink) []

unfoldable pub counted_in : Kind → Hub → Hub
unfolding is_heads
counted_in k h =
    if is_heads k then record h { heads = h.heads + 1 } else record h { log_subs = h.log_subs + 1 }

unfoldable pub counted_out : Kind → Hub → Hub
unfolding is_heads
counted_out k h =
    if is_heads k then record h { heads = h.heads - 1 } else record h { log_subs = h.log_subs - 1 }

unfoldable pub add : Text → Entry → Hub → Hub
unfolding counted_in include own_of
add id e h = counted_in e.kind (record h {
  by_id = put id e h.by_id;
  by_sink = put e.sink (include id (own_of e.sink h)) h.by_sink;
})

-- `this.byId.delete(id)` and the count.
unfoldable pub forget : Text → Entry → Hub → Hub
unfolding counted_out
forget id e h = counted_out e.kind (record h { by_id = remove id h.by_id })

-- `this.bySink.get(sink)?.delete(id)`
disown_in : Text → Text → Option (List Text) → Hub → Hub
disown_in sink id none h = h
disown_in sink id (some own) h = record h {
  by_sink = put sink (keep (λ i. not (text_eq i id)) own) h.by_sink;
}

unfoldable pub disown : Text → Text → Hub → Hub
unfolding disown_in
disown sink id h = disown_in sink id (get sink h.by_sink) h

remove_entry : Text → Text → Option Entry → Hub → Hub × Bool
unfolding forget disown
remove_entry sink id none h = (h, false)
remove_entry sink id (some e) h =
    if text_eq e.sink sink then (disown sink id (forget id e h), true) else (h, false)

-- `remove`
unfoldable pub remove_sub : Text → Text → Hub → Hub × Bool
unfolding remove_entry
remove_sub sink id h = remove_entry sink id (get id h.by_id) h

forget_if : Text → Option Entry → Hub → Hub
unfolding forget
forget_if id none h = h
forget_if id (some e) h = forget id e h

-- The loop of `drop`.
unfoldable pub forget_all : List Text → Hub → Hub
unfolding forget_if
forget_all [] h = h
forget_all (id ∷ own) h = forget_all own (forget_if id (get id h.by_id) h)

drop_own : Text → Option (List Text) → Hub → Hub × ℕ
unfolding forget_all
drop_own sink none h = (h, 0)
drop_own sink (some own) h =
    let g = forget_all own h in (record g { by_sink = remove sink g.by_sink }, length own)

-- `drop`
unfoldable pub drop : Text → Hub → Hub × ℕ
unfolding drop_own
drop sink h = drop_own sink (get sink h.by_sink) h

unfoldable pub wants_heads : Hub → Bool
wants_heads h = ltb 0 h.heads

unfoldable pub wants_logs : Hub → Bool
wants_logs h = ltb 0 h.log_subs

-- What happens to a hub: a socket subscribes under a new id, cancels, or closes.
pub data Change : Type 0 where
  subscribes : Text → Entry → Change
  unsubscribes : Text → Text → Change
  closes : Text → Change

unfoldable pub step : Hub → Change → Hub
unfolding add remove_sub drop
step h (subscribes id e) = add id e h
step h (unsubscribes sink id) = (remove_sub sink id h).0
step h (closes sink) = (drop sink h).0

unfoldable pub run : Hub → List Change → Hub
unfolding step
run h [] = h
run h (x ∷ xs) = run (step h x) xs

-- New subscriptions have ids that are not in use.
unfoldable pub IsFresh : List Change → Hub → Type 0
IsFresh [] h = Unit
IsFresh (subscribes id e ∷ xs) h = (get id h.by_id ≡ none) × IsFresh xs (step h (subscribes id e))
IsFresh (unsubscribes sink id ∷ xs) h = IsFresh xs (step h (unsubscribes sink id))
IsFresh (closes sink ∷ xs) h = IsFresh xs (step h (closes sink))
