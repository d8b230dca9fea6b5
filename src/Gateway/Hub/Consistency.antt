-- ===== src/Gateway/Hub/Consistency.antt =====
-- The two indices and the two counts agree.
use ordofi.Base.{
  ℕ, ◌+◌, List, [], ◌∷◌, Bool, false, not, Option, none, some, or_else, if◌then◌else◌, ◌≡◌, refl,
  sym, ap, ◌∙◌, arith, Bool-cases, inl, inr, if_elim,
}
use ordofi.Base.Text.{Text, text_eq, text_eq_iff}
use ordofi.Base.Assoc.{TextMap, get, put, remove, get-put, get-remove}
use ordofi.Gateway.Hub.{Kind, Entry, Hub, is_heads, has, counted_in, counted_out, forget}

-- No key occurs twice.
unfoldable pub Distinct : TextMap Entry → Type 0
Distinct [] = Unit
Distinct ((k, v) ∷ m) = (get k m ≡ none) × Distinct m

Distinct-put : (k : Text) (v : Entry) (m : TextMap Entry) → Distinct m → Distinct (put k v m)
unfolding Distinct put get
Distinct-put k v [] d = (refl, tt)
Distinct-put k v ((j, w) ∷ m) d = elim (Bool-cases (text_eq j k)) [
  | inl e ↦ rw e d
  | inr e ↦ rw e (
    get-put k j v m ∙ (ground (arith, text_eq_iff k j, text_eq_iff j k, d.0)),
    Distinct-put k v m d.1,
  )
]

Distinct-remove : (k : Text) (m : TextMap Entry) → Distinct m → Distinct (remove k m)
unfolding Distinct remove get
Distinct-remove k [] d = tt
Distinct-remove k ((j, w) ∷ m) d = elim (Bool-cases (text_eq j k)) [
  | inl e ↦ rw e (Distinct-remove k m d.1)
  | inr e ↦ rw e (get-remove k j m ∙ (ground (arith, d.0)), Distinct-remove k m d.1)
]

-- How many entries are of a kind for which the test holds.
unfoldable pub count_of : (Kind → Bool) → TextMap Entry → ℕ
count_of p [] = 0
count_of p ((k, v) ∷ m) = let n = count_of p m in if p v.kind then n + 1 else n

unfoldable pub weight : (Kind → Bool) → Option Entry → ℕ
weight p none = 0
weight p (some e) = if p e.kind then 1 else 0

module _ (p : Kind → Bool) where
  count_of-put :
      (k : Text) (v : Entry) (m : TextMap Entry)
      → get k m ≡ none
      → count_of p (put k v m) ≡ count_of p m + weight p (some v)
  unfolding count_of put get weight
  count_of-put k v [] e = ground arith
  count_of-put k v ((j, w) ∷ m) e = elim (Bool-cases (text_eq j k)) [
    | inl q ↦ absurd (let f = rw q at e in cc)
    | inr q ↦ let f = rw q at e in let ih = count_of-put k v m f in rw q (ground arith)
  ]

  remove-absent : (k : Text) (m : TextMap Entry) → get k m ≡ none → remove k m ≡ m
  unfolding remove get
  remove-absent k [] e = refl
  remove-absent k ((j, w) ∷ m) e = elim (Bool-cases (text_eq j k)) [
    | inl q ↦ absurd (let f = rw q at e in cc)
    | inr q ↦ let f = rw q at e in rw q (ap (λ l. (j, w) ∷ l) (remove-absent k m f))
  ]

  count_of-remove :
      (k : Text) (m : TextMap Entry)
      → Distinct m
      → count_of p m ≡ count_of p (remove k m) + weight p (get k m)
  unfolding count_of remove get weight Distinct
  count_of-remove k [] d = omega arith
  count_of-remove k ((j, w) ∷ m) d = elim (Bool-cases (text_eq j k)) [
    | inl q ↦
        let same : j ≡ k = (text_eq_iff j k).0 q in
        let gone : remove k m ≡ m = remove-absent k m (ap (λ i. get i m) (sym same) ∙ d.0) in
        rw (q, gone) (ground arith)
    | inr q ↦ let ih = count_of-remove k m d.1 in rw q (ground arith)
  ]

-- The entries are told apart by their ids, and the counts are theirs.
pub record IsCounted (h : Hub) : Type 0 where
  pub distinct : Distinct h.by_id
  pub heads_eq : h.heads ≡ count_of is_heads h.by_id
  pub logs_eq : h.log_subs ≡ count_of (λ k. not (is_heads k)) h.by_id

-- The ids of an index by sink.
abbrev pub own_in : Text → TextMap (List Text) → List Text
own_in s m = or_else (get s m) []

-- Whether an entry is a sink's.
abbrev pub held_by : Text → Option Entry → Bool
held_by s none = false
held_by s (some e) = text_eq e.sink s

-- A sink owns the ids of its entries and no others.
abbrev pub IsOwned : TextMap Entry → TextMap (List Text) → Type 0
IsOwned by_id by_sink = (id s : Text) → has (own_in s by_sink) id ≡ held_by s (get id by_id)

pub counted_in-IsCounted :
    (id : Text) (v : Entry) (h g : Hub)
    → get id h.by_id ≡ none
    → g.by_id ≡ put id v h.by_id
    → g.heads ≡ h.heads
    → g.log_subs ≡ h.log_subs
    → IsCounted h
    → IsCounted (counted_in v.kind g)
unfolding counted_in weight
counted_in-IsCounted id v h g fresh same a b c =
    let n = count_of-put is_heads id v h.by_id fresh in
    let m = count_of-put (λ k. not (is_heads k)) id v h.by_id fresh in
    let d : Distinct g.by_id = rw same (Distinct-put id v h.by_id c.distinct) in
    if_elim IsCounted (is_heads v.kind)
      (λ e. record {
        distinct = d;
        heads_eq = rw same (rw n (ground (arith, e, a, c.heads_eq)));
        logs_eq = rw same (rw m (ground (arith, e, b, c.logs_eq)));
      })
      (λ e. record {
        distinct = d;
        heads_eq = rw same (rw n (ground (arith, e, a, c.heads_eq)));
        logs_eq = rw same (rw m (ground (arith, e, b, c.logs_eq)));
      })

pub forget-IsCounted :
    (id : Text) (v : Entry) (h : Hub)
    → get id h.by_id ≡ some v
    → IsCounted h
    → IsCounted (forget id v h)
unfolding forget counted_out weight
forget-IsCounted id v h there c =
    let n = count_of-remove is_heads id h.by_id c.distinct in
    let m = count_of-remove (λ k. not (is_heads k)) id h.by_id c.distinct in
    let n' = rw there at n in
    let m' = rw there at m in
    let d = Distinct-remove id h.by_id c.distinct in
    if_elim IsCounted (is_heads v.kind)
      (λ e. record {
        distinct = d;
        heads_eq = ground (arith, e, n', c.heads_eq);
        logs_eq = ground (arith, e, m', c.logs_eq);
      })
      (λ e. record {
        distinct = d;
        heads_eq = ground (arith, e, n', c.heads_eq);
        logs_eq = ground (arith, e, m', c.logs_eq);
      })
