-- ===== src/Batch/Book/Fair.antt =====
-- What stands in the batcher's book: amounts within the limits, and attempts.
use mathlib.Core.List.{Mem, mem-cons_self, mem-cons_of_mem}
use mathlib.Core.Path.{subst}
use ordofi.Base.{
  ℕ, ◌≤◌, ◌<◌, List, [], ◌∷◌, Option, none, some, ◌≡◌, refl, sym, ap, ◌∙◌, inl, inr, Bool-cases,
  or_else,
}
use ordofi.Base.Text.{Text, text_eq, text_eq_iff}
use ordofi.Base.Assoc.{TextMap, get, put}
use ordofi.Batch.Types.{Order}
use ordofi.Batch.Book.{OrderStatus, Pending, Stats, Book, on_order, on_found, each}
use ordofi.Batch.Book.OrderStatus.{pending, awaiting_deposit, filled}

-- A filled order got what it asked for, and one that waits failed less than twice the limit of attempts.
abbrev pub IsFair : Order → ℕ → OrderStatus → Type 0
IsFair o attempts pending = attempts < 6
IsFair o attempts awaiting_deposit = attempts < 6
IsFair o attempts (filled tx amount alone netted) = o.min_buy_amount ≤ amount
IsFair o attempts _ = Unit

-- `named` tells the order that a hash stands for.
module _ (order_hash : Order → Text) (named : Text → Order) where
  pub record IsKept (h : Text) (p : Pending) : Type 0 where
    pub hash_eq : order_hash p.order ≡ h
    pub named_eq : p.order ≡ named h
    pub fair : IsFair p.order p.attempts p.status

  unfoldable pub AreKept : TextMap Pending → Type 0
  AreKept [] = Unit
  AreKept ((h, p) ∷ m) = IsKept h p × AreKept m

  unfoldable pub IsFairBook : Book → Type 0
  IsFairBook st = AreKept st.orders

  pub get-IsKept :
      (h : Text) (p : Pending) (m : TextMap Pending) → AreKept m → get h m ≡ some p → IsKept h p
  unfolding get AreKept
  get-IsKept h p [] k e = absurd cc
  get-IsKept h p ((j, q) ∷ m) k e = elim (Bool-cases (text_eq j h)) [
    | inl t ↦
        let at : some q ≡ some p = sym (rw t refl) ∙ e in
        subst (λ r. IsKept h r) (ap (λ o. or_else o q) at)
          (subst (λ i. IsKept i q) ((text_eq_iff j h).0 t) k.0)
    | inr t ↦ get-IsKept h p m k.1 (sym (rw t refl) ∙ e)
  ]

  pub put-AreKept :
      (h : Text) (q : Pending) (m : TextMap Pending) → AreKept m → IsKept h q → AreKept (put h q m)
  unfolding put AreKept
  put-AreKept h q [] k kq = (kq, tt)
  put-AreKept h q ((j, r) ∷ m) k kq = elim (Bool-cases (text_eq j h)) [
    | inl t ↦ rw t (subst (λ i. IsKept i q) (sym ((text_eq_iff j h).0 t)) kq, k.1)
    | inr t ↦ rw t (k.0, put-AreKept h q m k.1 kq)
  ]

  on_found-IsFairBook :
      (change : Pending → Pending) (tally : Pending → Stats → Stats) (h : Text) (st : Book)
      (found : Option Pending)
      → ((p : Pending) → IsKept h p → IsKept h (change p))
      → get h st.orders ≡ found
      → IsFairBook st
      → IsFairBook (on_found change tally h found st)
  unfolding on_found IsFairBook
  on_found-IsFairBook change tally h st none keeps e b = b
  on_found-IsFairBook change tally h st (some p) keeps e b =
      put-AreKept h (change p) st.orders b (keeps p (get-IsKept h p st.orders b e))

  pub on_order-IsFairBook :
      (change : Pending → Pending) (tally : Pending → Stats → Stats) (h : Text) (st : Book)
      → ((p : Pending) → IsKept h p → IsKept h (change p))
      → IsFairBook st
      → IsFairBook (on_order change tally h st)
  unfolding on_order
  on_order-IsFairBook change tally h st keeps b =
      on_found-IsFairBook change tally h st (get h st.orders) keeps refl b

  pub each-IsFairBook {ℓ} :
      {A : Type ℓ} (body : A → Book → Book) (xs : List A) (st : Book)
      → ((a : A) → Mem a xs → (b : Book) → IsFairBook b → IsFairBook (body a b))
      → IsFairBook st
      → IsFairBook (each body xs st)
  unfolding each
  each-IsFairBook body [] st keeps b = b
  each-IsFairBook body (a ∷ xs) st keeps b =
      each-IsFairBook body xs (body a st) (λ c m. keeps c (mem-cons_of_mem a m))
        (keeps a mem-cons_self st b)

  -- An entry keeps its order under a change to what is fair for it.
  pub with_fair :
      (h : Text) (p q : Pending)
      → q.order ≡ p.order
      → IsFair q.order q.attempts q.status
      → IsKept h p
      → IsKept h q
  with_fair h p q e f k = record {
    hash_eq = ap order_hash e ∙ k.hash_eq;
    named_eq = e ∙ k.named_eq;
    fair = f;
  }
