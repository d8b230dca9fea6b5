-- ===== src/Batch/Pairs/Partition.antt =====
-- Grouping loses no order and repeats none, and each group holds one pair with its sides straight.
use mathlib.Core.List.{Perm, append_assoc, append-nil, perm_middle}
use mathlib.Core.List.Perm
use mathlib.Core.Path.{subst₂}
use ordofi.Base.{
  List, [], ◌∷◌, ◌++◌, true, false, some, or_else, ◌≡◌, refl, sym, arith, All, All-append, length,
  Bool-cases, Option-cases, inl, inr, ◌⊎◌,
}
use ordofi.Base.Text.{to_lower_case, length-to_lower_case, text_ltb_asymm, split_at_length}
use ordofi.Base.Text.{Text, codes, text_eq, text_eq→eq, text_eq_refl, text_ltb, text_ltb_irrefl}
use ordofi.Base.Assoc.{TextMap, get, put}
use ordofi.Batch.Types.{zero_token, Order, as_token}
use ordofi.Batch.Pairs.{
  PairBatch, all_orders, pair_key, sort_pair, empty_batch, push_order, add_sorted, add_order,
  group_from, values, group_by_pair,
}

abbrev pub orders_of : List PairBatch → List Order
orders_of [] = []
orders_of (pb ∷ pbs) = all_orders pb ++ orders_of pbs

push_order-perm :
    (o : Order) (s a : Text) (pb : PairBatch)
    → Perm (all_orders (push_order o s a pb)) (o ∷ all_orders pb)
unfolding push_order
push_order-perm o s a pb = elim (Bool-cases (text_eq s a)) [
  | inl e ↦ rw (e, append_assoc) (perm_middle pb.sell_a pb.sell_b)
  | inr e ↦ rw (e, ← append_assoc) (Perm.trans (perm_middle all []) (rw append-nil (Perm.refl _)))
]
  where
    all : List Order
    all = all_orders pb

put-perm :
    (o : Order) (k a b : Text) (v : PairBatch) (m : TextMap PairBatch)
    → Perm (all_orders v) (o ∷ all_orders (or_else (get k m) (empty_batch a b)))
    → Perm (orders_of (values (put k v m))) (o ∷ orders_of (values m))
unfolding get put
put-perm o k a b v [] h = Perm.append_right [] h
put-perm o k a b v ((j, pb) ∷ m) h = elim (Bool-cases (text_eq j k)) [
  | inl e ↦ rw e (Perm.append_right (orders_of (values m)) (rw e at h))
  | inr e ↦ rw e (
      Perm.trans (Perm.append_left (all_orders pb) (put-perm o k a b v m (rw e at h)))
        (perm_middle (all_orders pb) (orders_of (values m))))
]

add_order-perm :
    (m : TextMap PairBatch) (o : Order)
    → Perm (orders_of (values (add_order m o))) (o ∷ orders_of (values m))
unfolding add_order add_sorted
add_order-perm m o =
    let s = as_token o.sell_token in
    let (a, b) = sort_pair s (as_token o.buy_token) in
    put-perm o (pair_key a b) a b _ m (push_order-perm o s a _)

group_from-perm :
    (m : TextMap PairBatch) (os : List Order)
    → Perm (orders_of (values (group_from m os))) (orders_of (values m) ++ os)
unfolding group_from
group_from-perm m [] = rw append-nil (Perm.refl _)
group_from-perm m (o ∷ os) = Perm.trans (group_from-perm (add_order m o) os) (
    Perm.trans (Perm.append_right os (add_order-perm m o))
      (Perm.symm (perm_middle (orders_of (values m)) os)))

-- Every order of the window stands in exactly one batch, as often as it was given: the orders of
-- all the batches together are a rearrangement of the orders that were grouped.
pub group_by_pair-perm : (os : List Order) → Perm (orders_of (group_by_pair os)) os
unfolding group_by_pair
group_by_pair-perm os = group_from-perm [] os

abbrev pub Sells : Text → Text → Order → Type 0
Sells s t o = (as_token o.sell_token ≡ s) × (as_token o.buy_token ≡ t)

-- The two tokens are sorted, and each side holds orders of its own direction.
pub record IsStraight (pb : PairBatch) : Type 0 where
  pub sorted : text_ltb pb.b pb.a ≡ false
  pub side_a : All (Sells pb.a pb.b) pb.sell_a
  pub side_b : All (Sells pb.b pb.a) pb.sell_b

-- The tokens of an order are addresses: "0x" and forty digits.
abbrev pub HasAddresses : Order → Type 0
HasAddresses o = (length o.sell_token ≡ 42) × (length o.buy_token ≡ 42)

length-as_token : (t : Text) → length t ≡ 42 → length (as_token t) ≡ 42
unfolding as_token
length-as_token t h = elim (Bool-cases (text_eq (to_lower_case t) zero_token)) [
  | inl e ↦ rw e refl
  | inr e ↦ rw (e, length-to_lower_case) h
]

abbrev IsEntry : Text × PairBatch → Type 0
IsEntry (k, pb) = (k ≡ pair_key pb.a pb.b) × (length pb.a ≡ 42) × IsStraight pb

sort_pair_cases :
    (s t : Text)
    → (sort_pair s t ≡ (s, t)) × (text_ltb t s ≡ false)
      ⊎ (sort_pair s t ≡ (t, s)) × (text_ltb t s ≡ true)
unfolding sort_pair
sort_pair_cases s t = elim (Bool-cases (text_ltb t s)) [
  | inl e ↦ inr (rw e, e)
  | inr e ↦ inl (rw e, e)
]

-- The batch that stands, or will stand, under the key of a and b.
record IsFor (a b : Text) (pb : PairBatch) : Type 0 where
  is_a : pb.a ≡ a
  is_b : pb.b ≡ b
  straight : IsStraight pb

get-IsEntry :
    (k : Text) (m : TextMap PairBatch) (pb : PairBatch)
    → All IsEntry m
    → get k m ≡ some pb
    → IsEntry (k, pb)
unfolding get
get-IsEntry k [] pb h e = cc
get-IsEntry k ((j, w) ∷ m) pb (h, hs) e = elim (Bool-cases (text_eq j k)) [
  | inl q ↦
      let found : some w ≡ some pb = rw q at e in
      let same : w ≡ pb = cc in subst₂ (λ x y. IsEntry (x, y)) (text_eq→eq j k q) same h
  | inr q ↦ get-IsEntry k m pb hs (rw q at e)
]

put-IsEntry :
    (k : Text) (v : PairBatch) (m : TextMap PairBatch)
    → All IsEntry m
    → IsEntry (k, v)
    → All IsEntry (put k v m)
unfolding put
put-IsEntry k v [] hs h = (h, tt)
put-IsEntry k v ((j, w) ∷ m) (e, es) h = elim (Bool-cases (text_eq j k)) [
  | inl q ↦ rw (q, text_eq→eq j k q) (h, es)
  | inr q ↦ rw q (e, put-IsEntry k v m es h)
]

IsFor-of_IsEntry :
    (a b : Text) (pb : PairBatch) → length a ≡ 42 → IsEntry (pair_key a b, pb) → IsFor a b pb
IsFor-of_IsEntry a b pb n (e, n', s) =
    let (p, q) = split_at_length a pb.a (codes ":" ++ b) (codes ":" ++ pb.b) (omega arith) e in
    record { is_a = sym p; is_b = (cc); straight = s }

IsFor-found :
    (a b : Text) (m : TextMap PairBatch)
    → length a ≡ 42
    → text_ltb b a ≡ false
    → All IsEntry m
    → IsFor a b (or_else (get (pair_key a b) m) (empty_batch a b))
IsFor-found a b m n lt hs = elim (Option-cases (get (pair_key a b) m)) [
  | inl e ↦ rw e (record {
    is_a = refl;
    is_b = refl;
    straight = record { sorted = lt; side_a = tt; side_b = tt };
  })
  | inr (pb, e) ↦ rw e (IsFor-of_IsEntry a b pb n (get-IsEntry (pair_key a b) m pb hs e))
]

push_order-IsFor_a :
    (o : Order) (s t : Text) (pb : PairBatch)
    → Sells s t o
    → IsFor s t pb
    → IsFor s t (push_order o s s pb)
unfolding push_order
push_order-IsFor_a o s t pb h f = rw (text_eq_refl s) (record {
  is_a = f.is_a;
  is_b = f.is_b;
  straight = record {
    sorted = f.straight.sorted;
    side_a = All-append _ _ _ f.straight.side_a (rw (f.is_a, f.is_b) h, tt);
    side_b = f.straight.side_b;
  };
})

push_order-IsFor_b :
    (o : Order) (s t : Text) (pb : PairBatch)
    → text_eq s t ≡ false
    → Sells s t o
    → IsFor t s pb
    → IsFor t s (push_order o s t pb)
unfolding push_order
push_order-IsFor_b o s t pb ne h f = rw ne (record {
  is_a = f.is_a;
  is_b = f.is_b;
  straight = record {
    sorted = f.straight.sorted;
    side_a = f.straight.side_a;
    side_b = All-append _ _ _ f.straight.side_b (rw (f.is_a, f.is_b) h, tt);
  };
})

IsEntry-of_IsFor :
    (a b : Text) (pb : PairBatch) → length a ≡ 42 → IsFor a b pb → IsEntry (pair_key a b, pb)
IsEntry-of_IsFor a b pb n f = (rw (f.is_a, f.is_b), rw f.is_a n, f.straight)

ltb_of_text_ne : (s t : Text) → text_ltb t s ≡ true → text_eq s t ≡ false
ltb_of_text_ne s t h = elim (Bool-cases (text_eq s t)) [
  | inl e ↦ cc (h, text_eq→eq s t e, text_ltb_irrefl t)
  | inr e ↦ e
]

add_order-IsEntry :
    (m : TextMap PairBatch) (o : Order)
    → HasAddresses o
    → All IsEntry m
    → All IsEntry (add_order m o)
unfolding add_order add_sorted
add_order-IsEntry m o (ns, nt) hs = elim (sort_pair_cases s t) [
  | inl (e, lt) ↦ rw e (
      put-IsEntry (pair_key s t) _ m hs (
        IsEntry-of_IsFor s t _ len_s
          (push_order-IsFor_a o s t _ (refl, refl) (IsFor-found s t m len_s lt hs))))
  | inr (e, lt) ↦ rw e (
      put-IsEntry (pair_key t s) _ m hs (
        IsEntry-of_IsFor t s _ len_t (
          push_order-IsFor_b o s t _ (ltb_of_text_ne s t lt) (refl, refl)
            (IsFor-found t s m len_t (text_ltb_asymm t s lt) hs))))
]
  where
    s : Text
    s = as_token o.sell_token

    t : Text
    t = as_token o.buy_token

    len_s : length s ≡ 42
    len_s = length-as_token o.sell_token ns

    len_t : length t ≡ 42
    len_t = length-as_token o.buy_token nt

group_from-IsEntry :
    (m : TextMap PairBatch) (os : List Order)
    → All HasAddresses os
    → All IsEntry m
    → All IsEntry (group_from m os)
unfolding group_from
group_from-IsEntry m [] _ hs = hs
group_from-IsEntry m (o ∷ os) (h, rest) hs =
    group_from-IsEntry (add_order m o) os rest (add_order-IsEntry m o h hs)

values-IsStraight : (m : TextMap PairBatch) → All IsEntry m → All IsStraight (values m)
values-IsStraight [] hs = tt
values-IsStraight ((k, pb) ∷ m) ((_, _, st), hs) = (st, values-IsStraight m hs)

-- When every order names its tokens by 42-character addresses, each batch has its tokens sorted, and
-- its sides hold only orders that sell the first token for the second, and the second for the first.
pub group_by_pair-IsStraight :
    (os : List Order) → All HasAddresses os → All IsStraight (group_by_pair os)
unfolding group_by_pair
group_by_pair-IsStraight os h = values-IsStraight _ (group_from-IsEntry [] os h tt)
