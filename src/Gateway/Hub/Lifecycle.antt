-- ===== src/Gateway/Hub/Lifecycle.antt =====
-- Every operation of the hub keeps its indices and counts in agreement.
use ordofi.Base.{
  List, [], ◌∷◌, Bool, true, false, ◌&&◌, ◌||◌, Option, none, some, or_else, if◌then◌else◌, ◌≡◌,
  ◌≢◌, refl, sym, ap, ◌∙◌, arith, Bool-cases, Option-cases, inl, inr, if_elim,
}
use ordofi.Base.Text.{Text, text_eq, text_eq_iff, text_eq_refl}
use ordofi.Base.Assoc.{get, put, remove, get-remove}
use ordofi.Gateway.Hub.{
  Kind, Entry, Hub, empty_hub, is_heads, has, include, own_of, counted_in, counted_out, add, forget,
  disown, disown_in, remove_entry, remove_sub, forget_if, forget_all, drop_own, drop, Change,
  subscribes, unsubscribes, closes, step, run, IsFresh,
}
use ordofi.Gateway.Hub.Consistency.{
  Distinct, count_of, IsCounted, IsOwned, held_by, counted_in-IsCounted, forget-IsCounted,
}
use ordofi.Gateway.Hub.Ownership.{add-IsOwned, disown-IsOwned, drop-IsOwned}

-- The two indices name the same subscriptions, each under its own sink, and the counts are theirs.
pub record IsConsistent (h : Hub) : Type 0 where
  pub counted : IsCounted h
  pub owned : IsOwned h.by_id h.by_sink

maps-counted_in :
    (k : Kind) (h : Hub)
    → ((counted_in k h).by_id ≡ h.by_id) × ((counted_in k h).by_sink ≡ h.by_sink)
unfolding counted_in
maps-counted_in k h =
    if_elim (λ (g : Hub). (g.by_id ≡ h.by_id) × (g.by_sink ≡ h.by_sink)) (is_heads k)
      (λ _. (refl, refl)) (λ _. (refl, refl))

maps-forget :
    (id : Text) (e : Entry) (h : Hub)
    → ((forget id e h).by_id ≡ remove id h.by_id) × ((forget id e h).by_sink ≡ h.by_sink)
unfolding forget counted_out
maps-forget id e h =
    if_elim (λ (g : Hub). (g.by_id ≡ remove id h.by_id) × (g.by_sink ≡ h.by_sink)) (is_heads e.kind)
      (λ _. (refl, refl)) (λ _. (refl, refl))

add-IsConsistent :
    (id : Text) (e : Entry) (h : Hub)
    → get id h.by_id ≡ none
    → IsConsistent h
    → IsConsistent (add id e h)
unfolding add own_of
add-IsConsistent id e h fresh c =
    let g : Hub = record h {
      by_id = put id e h.by_id;
      by_sink = put e.sink (include id (own_of e.sink h)) h.by_sink;
    } in
    let (same_ids, same_sinks) = maps-counted_in e.kind g in
    record {
      counted = counted_in-IsCounted id e h g fresh refl refl refl c.counted;
      owned = rw (same_ids, same_sinks) (add-IsOwned h.by_id h.by_sink c.owned id e fresh);
    }

-- An entry of a consistent hub stands in the index of its sink.
owner_of :
    (id : Text) (e : Entry) (h : Hub)
    → IsConsistent h
    → get id h.by_id ≡ some e
    → get e.sink h.by_sink ≢ none
unfolding has
owner_of id e h c there gone =
    let f = c.owned id e.sink in
    let g : false ≡ text_eq e.sink e.sink = (rw (there, gone) at f) in
    let t = text_eq_refl e.sink in ground arith

disowned-IsConsistent :
    (id : Text) (e : Entry) (h : Hub)
    → get id h.by_id ≡ some e
    → IsConsistent h
    → IsConsistent (disown e.sink id (forget id e h))
unfolding disown
disowned-IsConsistent id e h there c =
    let (same_ids, same_sinks) = maps-forget id e h in
    let books = forget-IsCounted id e h there c.counted in
    elim (Option-cases (get e.sink h.by_sink)) [
      | inl n ↦ absurd (owner_of id e h c there n)
      | inr (own, n) ↦
          rw (same_sinks, n, disown_in)
            (record {
              counted = record {
                distinct = books.distinct;
                heads_eq = books.heads_eq;
                logs_eq = books.logs_eq;
              };
              owned = rw same_ids (disown-IsOwned h.by_id h.by_sink c.owned id e own there n);
            })
    ]

remove_entry-IsConsistent :
    (sink id : Text) (o : Option Entry) (h : Hub)
    → get id h.by_id ≡ o
    → IsConsistent h
    → IsConsistent (remove_entry sink id o h).0
unfolding remove_entry
remove_entry-IsConsistent sink id none h there c = c
remove_entry-IsConsistent sink id (some e) h there c =
    if_elim (λ (r : Hub × Bool). IsConsistent r.0) (text_eq e.sink sink)
      (λ a. rw (sym ((text_eq_iff e.sink sink).0 a)) (disowned-IsConsistent id e h there c))
      (λ _. c)

-- The hub after the loop of `drop` over the ids `own`.
record IsForgotten (own : List Text) (h g : Hub) : Type 0 where
  gone : (j : Text) → get j g.by_id ≡ (if has own j then none else get j h.by_id)
  kept : g.by_sink ≡ h.by_sink
  books : IsCounted g

forget_if-IsForgotten :
    (id : Text) (o : Option Entry) (h : Hub)
    → get id h.by_id ≡ o
    → IsCounted h
    → IsForgotten (id ∷ []) h (forget_if id o h)
unfolding forget_if has
forget_if-IsForgotten id none h there c = record {
  gone = λ j. ground (arith, text_eq_iff id j, there);
  kept = refl;
  books = c;
}
forget_if-IsForgotten id (some e) h there c =
    let (same_ids, same_sinks) = maps-forget id e h in
    record {
      gone = λ j. rw (same_ids, get-remove id j h.by_id) (ground arith);
      kept = same_sinks;
      books = forget-IsCounted id e h there c;
    }

forget_all-IsForgotten :
    (own : List Text) (h : Hub) → IsCounted h → IsForgotten own h (forget_all own h)
unfolding forget_all has
forget_all-IsForgotten [] h c = record { gone = λ j. refl; kept = refl; books = c }
forget_all-IsForgotten (id ∷ own) h c =
    let a = forget_if-IsForgotten id (get id h.by_id) h refl c in
    let b = forget_all-IsForgotten own (forget_if id (get id h.by_id) h) a.books in
    record {
      gone = λ j. b.gone j ∙ both j (text_eq id j) (has own j) (get j h.by_id) (a.gone j);
      kept = b.kept ∙ a.kept;
      books = b.books;
    }
  where
    both :
        (j : Text) (p q : Bool) (v : Option Entry) {w : Option Entry}
        → w ≡ (if p || false then none else v)
        → (if q then none else w) ≡ (if p || q then none else v)
    both j true true v e = refl
    both j true false v e = e
    both j false true v e = refl
    both j false false v e = e

drop_own-IsConsistent :
    (sink : Text) (o : Option (List Text)) (h : Hub)
    → get sink h.by_sink ≡ o
    → IsConsistent h
    → IsConsistent (drop_own sink o h).0
unfolding drop_own
drop_own-IsConsistent sink none h there c = c
drop_own-IsConsistent sink (some own) h there c =
    let f = forget_all-IsForgotten own h c.counted in
    record {
      counted = record {
        distinct = f.books.distinct;
        heads_eq = f.books.heads_eq;
        logs_eq = f.books.logs_eq;
      };
      owned =
          rw f.kept
            (drop-IsOwned h.by_id h.by_sink c.owned sink own (forget_all own h).by_id there f.gone);
    }

empty_hub-IsConsistent : IsConsistent empty_hub
unfolding empty_hub Distinct count_of get has
empty_hub-IsConsistent = record {
  counted = record { distinct = tt; heads_eq = refl; logs_eq = refl };
  owned = λ id s. refl;
}

step-IsConsistent :
    (x : Change) (h : Hub) → IsFresh (x ∷ []) h → IsConsistent h → IsConsistent (step h x)
unfolding step remove_sub drop IsFresh
step-IsConsistent (subscribes id e) h fresh c = add-IsConsistent id e h fresh.0 c
step-IsConsistent (unsubscribes sink id) h fresh c =
    remove_entry-IsConsistent sink id (get id h.by_id) h refl c
step-IsConsistent (closes sink) h fresh c = drop_own-IsConsistent sink (get sink h.by_sink) h refl c

-- Whatever subscriptions with new ids, cancellations and closed sockets come in whatever order: the two
-- indices name the same subscriptions, each under the sink that made it, and the counts of heads and of
-- logs subscriptions are the numbers of entries of each kind.
pub run-IsConsistent : (xs : List Change) → IsFresh xs empty_hub → IsConsistent (run empty_hub xs)
unfolding run IsFresh
run-IsConsistent xs fresh = from xs empty_hub fresh empty_hub-IsConsistent
  where
    from : (xs : List Change) (h : Hub) → IsFresh xs h → IsConsistent h → IsConsistent (run h xs)
    from [] h fresh c = c
    from (subscribes id e ∷ xs) h fresh c =
        from xs (step h (subscribes id e)) fresh.1
          (step-IsConsistent (subscribes id e) h (fresh.0, tt) c)
    from (unsubscribes sink id ∷ xs) h fresh c =
        from xs (step h (unsubscribes sink id)) fresh
          (step-IsConsistent (unsubscribes sink id) h tt c)
    from (closes sink ∷ xs) h fresh c =
        from xs (step h (closes sink)) fresh (step-IsConsistent (closes sink) h tt c)

-- In a consistent hub: closing a socket ends its subscriptions, all of them and no others.
pub drop_own_subscriptions :
    (sink : Text) (h : Hub) (j : Text)
    → IsConsistent h
    → get j (drop sink h).0.by_id ≡ (if held_by sink (get j h.by_id) then none else get j h.by_id)
unfolding drop drop_own has
drop_own_subscriptions sink h j c = elim (Option-cases (get sink h.by_sink)) [
  | inl e ↦ rw (e, drop_own) (let f = rw (e, or_else) at (c.owned j sink) in rw (sym f) refl)
  | inr (own, e) ↦
      rw (e, drop_own)
        (let f = rw (e, or_else) at (c.owned j sink) in
          (forget_all-IsForgotten own h c.counted).gone j
          ∙ ap (λ b. if b then none else get j h.by_id) f)
]

by_id-disown : (sink id : Text) (h : Hub) → (disown sink id h).by_id ≡ h.by_id
unfolding disown
by_id-disown sink id h = elim (Option-cases (get sink h.by_sink)) [
  | inl e ↦ rw (e, disown_in) refl
  | inr (own, e) ↦ rw (e, disown_in) refl
]

-- Only the socket that made a subscription cancels it; that is what the answer
-- says, and no other subscription is touched.
pub remove_sub_owner_only :
    (sink id : Text) (h : Hub) (j : Text)
    → ((remove_sub sink id h).1 ≡ held_by sink (get id h.by_id))
      × (get j (remove_sub sink id h).0.by_id
          ≡ (if held_by sink (get id h.by_id) && text_eq id j then none else get j h.by_id))
unfolding remove_sub remove_entry
remove_sub_owner_only sink id h j = found (get id h.by_id)
  where
    found :
        (o : Option Entry)
        → ((remove_entry sink id o h).1 ≡ held_by sink o)
          × (get j (remove_entry sink id o h).0.by_id
              ≡ (if held_by sink o && text_eq id j then none else get j h.by_id))
    found none = (refl, refl)
    found (some e) = elim (Bool-cases (text_eq e.sink sink)) [
      | inl a ↦ rw a (
        refl,
        ap (get j) (by_id-disown sink id (forget id e h) ∙ (maps-forget id e h).0)
            ∙ get-remove id j h.by_id,
      )
      | inr a ↦ rw a (refl, refl)
    ]
