-- ===== src/Batch/Book/Balance.antt =====
-- Orders are neither lost nor counted twice, and a loop over orders leaves the others alone.
use mathlib.Core.List.{Mem, mem-cons_self, mem-cons_of_mem, Nodup, Nodup-cons}
use ordofi.Base.{
  ℕ, ◌+◌, List, [], ◌∷◌, Bool, true, false, Option, none, some, if◌then◌else◌, map, ◌≡◌, ◌≢◌, refl,
  ap, ◌∙◌, arith,
}
use ordofi.Base.Text.{Text, text_eq_iff}
use ordofi.Base.Assoc.{TextMap, get, put, get-put}
use ordofi.Batch.Book.{OrderStatus, Pending, Stats, Book, on_order, on_found, each}
use ordofi.Batch.Book.OrderStatus.{pending, awaiting_deposit, settling}

-- An order that may still be filled.
abbrev pub is_live : OrderStatus → Bool
is_live pending = true
is_live awaiting_deposit = true
is_live (settling tx) = true
is_live _ = false

abbrev pub live : Pending → ℕ
live p = if is_live p.status then 1 else 0

unfoldable pub live_count : TextMap Pending → ℕ
live_count [] = 0
live_count ((h, p) ∷ m) = live p + live_count m

abbrev pub ended : Stats → ℕ
ended s = s.filled + s.rejected + s.expired

-- The orders that ended in one of the three ways, and those that may still be filled.
unfoldable pub total : Book → ℕ
unfolding live_count
total st = ended st.stats + live_count st.orders

pub live_count-put :
    (h : Text) (p q : Pending) (m : TextMap Pending)
    → get h m ≡ some p
    → live_count (put h q m) + live p ≡ live_count m + live q
unfolding live_count get put
live_count-put h p q [] e = absurd cc
live_count-put h p q ((j, r) ∷ m) e = ground (arith, live_count-put h p q m)

abbrev pub live_at : Option Pending → Bool
live_at none = false
live_at (some p) = is_live p.status

-- All of these orders are known and may still be filled.
unfoldable pub AreLive : List Text → Book → Type 0
AreLive hs st = (h : Text) → Mem h hs → live_at (get h st.orders) ≡ true

on_found-total :
    (change : Pending → Pending) (tally : Pending → Stats → Stats) (h : Text) (st : Book)
    (found : Option Pending)
    → ((p : Pending) (s : Stats)
        → live p ≡ 1
        → ended (tally (change p) s) + live (change p) ≡ ended s + 1)
    → get h st.orders ≡ found
    → live_at found ≡ true
    → total (on_found change tally h found st) ≡ total st
unfolding on_found total
on_found-total change tally h st none fair e l = absurd cc
on_found-total change tally h st (some p) fair e l =
    let one : live p ≡ 1 = ap (λ b. if b then 1 else 0) l in
    omega (arith, fair p st.stats one, one, live_count-put h p (change p) st.orders e)

-- A change that accounts for what it does to one order keeps the total.
pub on_order-total :
    (change : Pending → Pending) (tally : Pending → Stats → Stats) (h : Text) (st : Book)
    → ((p : Pending) (s : Stats)
        → live p ≡ 1
        → ended (tally (change p) s) + live (change p) ≡ ended s + 1)
    → live_at (get h st.orders) ≡ true
    → total (on_order change tally h st) ≡ total st
unfolding on_order
on_order-total change tally h st fair l =
    on_found-total change tally h st (get h st.orders) fair refl l

on_found-frame :
    (change : Pending → Pending) (tally : Pending → Stats → Stats) (h j : Text) (st : Book)
    (found : Option Pending)
    → h ≢ j
    → get j (on_found change tally h found st).orders ≡ get j st.orders
unfolding on_found
on_found-frame change tally h j st none n = refl
on_found-frame change tally h j st (some p) n =
    ground (arith, get-put h j (change p) st.orders, text_eq_iff h j)

pub on_order-frame :
    (change : Pending → Pending) (tally : Pending → Stats → Stats) (h j : Text) (st : Book)
    → h ≢ j
    → get j (on_order change tally h st).orders ≡ get j st.orders
unfolding on_order
on_order-frame change tally h j st n = on_found-frame change tally h j st (get h st.orders) n

module _ {ℓ} {A : Type ℓ} (key : A → Text) (body : A → Book → Book)
    (frame : (a : A) (j : Text) (st : Book)
      → key a ≢ j
      → get j (body a st).orders ≡ get j st.orders) where
  pub each-frame :
      (xs : List A) (j : Text) (st : Book)
      → ¬ Mem j (map key xs)
      → get j (each body xs st).orders ≡ get j st.orders
  unfolding each
  each-frame [] j st n = refl
  each-frame (a ∷ xs) j st n =
      each-frame xs j (body a st) (λ m. n (mem-cons_of_mem (key a) m))
      ∙ frame a j st (λ e. n (rw e mem-cons_self))

  -- The body at one order leaves the later ones as they are.
  rest-AreLive :
      (a : A) (xs : List A) (st : Book)
      → Nodup (map key (a ∷ xs))
      → AreLive (map key (a ∷ xs)) st
      → AreLive (map key xs) (body a st)
  unfolding AreLive
  rest-AreLive a xs st d l j m =
      ap live_at (frame a j st (λ e. (Nodup-cons.0 d).0 (rw e m))) ∙ l j (mem-cons_of_mem (key a) m)

  pub each-total :
      (xs : List A) (st : Book)
      → ((a : A) (b : Book) → live_at (get (key a) b.orders) ≡ true → total (body a b) ≡ total b)
      → Nodup (map key xs)
      → AreLive (map key xs) st
      → total (each body xs st) ≡ total st
  unfolding each AreLive
  each-total [] st keeps d l = refl
  each-total (a ∷ xs) st keeps d l =
      each-total xs (body a st) keeps (Nodup-cons.0 d).1 (rest-AreLive a xs st d l)
      ∙ keeps a st (l (key a) mem-cons_self)

module _ {ℓ} {A : Type ℓ} (body : A → Book → Book)
    (keeps : (a : A) (j : Text) (st : Book)
      → live_at (get j st.orders) ≡ true
      → live_at (get j (body a st).orders) ≡ true) where
  pub each-AreLive :
      (xs : List A) (hs : List Text) (st : Book) → AreLive hs st → AreLive hs (each body xs st)
  unfolding each AreLive
  each-AreLive [] hs st l = l
  each-AreLive (a ∷ xs) hs st l = each-AreLive xs hs (body a st) (λ h m. keeps a h st (l h m))
