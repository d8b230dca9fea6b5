-- ===== src/Gateway/Hub/Ownership.antt =====
-- A sink owns its subscriptions, and no others.
use ordofi.Base.{
  List, [], ◌∷◌, ◌++◌, true, false, not, ◌&&◌, ◌||◌, Option, none, some, or_else, keep,
  if◌then◌else◌, ◌≡◌, refl, sym, ap, ◌∙◌, arith, Bool-cases, inl, inr,
}
use ordofi.Base.Text.{Text, text_eq, text_eq_iff}
use ordofi.Base.Assoc.{TextMap, get, put, remove, get-put, get-remove}
use ordofi.Gateway.Hub.{Entry, has, include}
use ordofi.Gateway.Hub.Consistency.{own_in, IsOwned, held_by}

has-append : (own : List Text) (id j : Text) → has (own ++ id ∷ []) j ≡ (has own j || text_eq id j)
unfolding has
has-append [] id j = ground arith
has-append (i ∷ own) id j = ground (arith, has-append own id j)

pub has-include :
    (id j : Text) (own : List Text) → has (include id own) j ≡ (has own j || text_eq id j)
unfolding include
has-include id j own = elim (Bool-cases (has own id)) [
  | inl e ↦ rw e (elim (Bool-cases (text_eq id j)) [
    | inl q ↦ let same : id ≡ j = (text_eq_iff id j).0 q in rw (q, ← same, e) refl
    | inr q ↦ rw q (ground arith)
  ])
  | inr e ↦ rw e (has-append own id j)
]

pub has-keep :
    (id j : Text) (own : List Text)
    → has (keep (λ i. not (text_eq i id)) own) j ≡ (has own j && not (text_eq id j))
unfolding has keep
has-keep id j [] = refl
has-keep id j (i ∷ own) =
    let ih = has-keep id j own in
    elim (Bool-cases (text_eq i id)) [
      | inl e ↦ let same : i ≡ id = (text_eq_iff i id).0 e in rw (e, ih, same) (ground arith)
      | inr e ↦ elim (Bool-cases (text_eq i j)) [
        | inl q ↦
            let same : i ≡ j = (text_eq_iff i j).0 q in
            let apart : text_eq id j ≡ false =
              ground (arith, text_eq_iff id j, text_eq_iff i id, same) in
            rw (e, q, apart) refl
        | inr q ↦ rw (e, q, ih) refl
      ]
    ]

module _ (by_id : TextMap Entry) (by_sink : TextMap (List Text)) (o : IsOwned by_id by_sink) where
  -- A new entry.
  pub add-IsOwned :
      (id : Text) (e : Entry)
      → get id by_id ≡ none
      → IsOwned (put id e by_id) (put e.sink (include id (own_in e.sink by_sink)) by_sink)
  add-IsOwned id e fresh j s =
      rw (get-put id j e by_id, get-put e.sink s (include id (own_in e.sink by_sink)) by_sink)
        (elim (Bool-cases (text_eq e.sink s)) [
          | inl a ↦ rw (a, has-include id j (own_in e.sink by_sink)) (mine a)
          | inr a ↦ rw a (others a)
        ])
    where
      mine :
          text_eq e.sink s ≡ true
          → (has (own_in e.sink by_sink) j || text_eq id j)
            ≡ held_by s (if text_eq id j then some e else get j by_id)
      mine a = elim (Bool-cases (text_eq id j)) [
        | inl b ↦ rw (b, a) (ground arith)
        | inr b ↦ rw b (
            ground
              (arith, o j e.sink, ap (λ t. held_by t (get j by_id)) ((text_eq_iff e.sink s).0 a)))
      ]

      others :
          text_eq e.sink s ≡ false
          → has (own_in s by_sink) j ≡ held_by s (if text_eq id j then some e else get j by_id)
      others a = elim (Bool-cases (text_eq id j)) [
        | inl b ↦
            rw (b, a)
              (o j s
                ∙ ap (held_by s) (ap (λ i. get i by_id) (sym ((text_eq_iff id j).0 b)) ∙ fresh))
        | inr b ↦ rw b (o j s)
      ]

  -- An entry of a sink less.
  pub disown-IsOwned :
      (id : Text) (e : Entry) (own : List Text)
      → get id by_id ≡ some e
      → get e.sink by_sink ≡ some own
      → IsOwned (remove id by_id) (put e.sink (keep (λ i. not (text_eq i id)) own) by_sink)
  disown-IsOwned id e own there held j s =
      rw (get-remove id j by_id, get-put e.sink s (keep (λ i. not (text_eq i id)) own) by_sink)
        (elim (Bool-cases (text_eq e.sink s)) [
          | inl a ↦ rw (a, has-keep id j own) (mine a)
          | inr a ↦ rw a (others a)
        ])
    where
      mine :
          text_eq e.sink s ≡ true
          → (has own j && not (text_eq id j))
            ≡ held_by s (if text_eq id j then none else get j by_id)
      mine a =
          let same = (text_eq_iff e.sink s).0 a in
          let own_s : has own j ≡ held_by s (get j by_id) =
            ap (λ l. has (or_else l []) j) (sym held)
            ∙ o j e.sink
            ∙ ap (λ t. held_by t (get j by_id)) same in
          elim (Bool-cases (text_eq id j)) [
            | inl b ↦ rw b (ground arith)
            | inr b ↦ rw (b, own_s) (ground arith)
          ]

      others :
          text_eq e.sink s ≡ false
          → has (own_in s by_sink) j ≡ held_by s (if text_eq id j then none else get j by_id)
      others a = elim (Bool-cases (text_eq id j)) [
        | inl b ↦ rw b (
            o j s
            ∙ ap (held_by s) (ap (λ i. get i by_id) (sym ((text_eq_iff id j).0 b)) ∙ there)
            ∙ a)
        | inr b ↦ rw b (o j s)
      ]

  -- Every entry of a sink less.
  pub drop-IsOwned :
      (sink : Text) (own : List Text) (by_id' : TextMap Entry)
      → get sink by_sink ≡ some own
      → ((j : Text) → get j by_id' ≡ (if has own j then none else get j by_id))
      → IsOwned by_id' (remove sink by_sink)
  unfolding has
  drop-IsOwned sink own by_id' held gone j s =
      rw (gone j, get-remove sink s by_sink)
        (elim (Bool-cases (text_eq sink s)) [
          | inl a ↦
              let same = (text_eq_iff sink s).0 a in
              rw a (elim (Bool-cases (has own j)) [
                | inl b ↦ rw b refl
                | inr b ↦ rw b (sym b ∙ own_eq ∙ ap (λ t. held_by t (get j by_id)) same)
              ])
          | inr a ↦ rw a (elim (Bool-cases (has own j)) [
            | inl b ↦ rw b (o j s ∙ apart (get j by_id) (sym own_eq ∙ b) a)
            | inr b ↦ rw b (o j s)
          ])
        ])
    where
      own_eq : has own j ≡ held_by sink (get j by_id)
      own_eq = ap (λ l. has (or_else l []) j) (sym held) ∙ o j sink

      apart :
          (v : Option Entry) → held_by sink v ≡ true → text_eq sink s ≡ false → held_by s v ≡ false
      apart none h a = refl
      apart (some v) h a =
          ground (arith, text_eq_iff v.sink sink, text_eq_iff sink s, text_eq_iff v.sink s, h, a)
