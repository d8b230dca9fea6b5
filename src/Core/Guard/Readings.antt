-- ===== src/Core/Guard/Readings.antt =====
-- Which balances the guard of packages/core/src/guard.ts reads, and what it remembers of them.
use mathlib.Core.List.{map}
use ordofi.Base.{
  List, [], ◌∷◌, ◌++◌, Bool, true, false, none, some, length, get_elem?, or_else, is_some,
  if◌then◌else◌, ◌≡◌, refl, sym, ap, ◌∙◌, arith, All, All-append_left, All-append_right, Bool-cases,
  if_elim, inl, inr, bind-some,
}
use ordofi.Base.Int.{ℤ, pos}
use ordofi.Base.Text.{Text, text_eq, text_eq_refl, text_eq_iff}
use ordofi.Base.Assoc.{TextMap, get, put, get-put}
use ordofi.Core.Delivery.{
  Expectation, Payment, Holding, DeliveryRequest, SimCall, CallResult, blackholes,
}
use ordofi.Core.Calls.{
  eth, track_key, track, track_all, wanted, tracked, reads_of, approve_calls, calls_of, tx_index,
}
use ordofi.Core.Guard.{read_word, read_all}

-- No key stands twice.
abbrev AreDistinct {ℓ} : {V : Type ℓ} → TextMap V → Type ℓ
AreDistinct [] = Unit
AreDistinct ((k, v) ∷ m) = (get k m ≡ none) × AreDistinct m

put-AreDistinct {ℓ} :
    {V : Type ℓ} (k : Text) (v : V) (m : TextMap V) → AreDistinct m → AreDistinct (put k v m)
unfolding put
put-AreDistinct k v [] h = (unfold get in refl, tt)
put-AreDistinct k v ((j, w) ∷ m) h = elim (Bool-cases (text_eq j k)) [
  | inl e ↦ rw e h
  | inr e ↦ rw e (get-put k j v m ∙ rw (differ e) h.0, put-AreDistinct k v m h.1)
]
  where
    differ : text_eq j k ≡ false → text_eq k j ≡ false
    differ e = ground (arith, text_eq_iff j k, text_eq_iff k j)

track-AreDistinct :
    (holder asset : Text) (m : TextMap Holding) → AreDistinct m → AreDistinct (track holder asset m)
unfolding track
track-AreDistinct holder asset m h =
    if_elim (λ (n : TextMap Holding). AreDistinct n) (is_some (get (track_key holder asset) m))
      (λ _. h) (λ _. put-AreDistinct (track_key holder asset) _ m h)

track_all-AreDistinct :
    (hs : List Holding) (m : TextMap Holding) → AreDistinct m → AreDistinct (track_all hs m)
unfolding track_all
track_all-AreDistinct [] m h = h
track_all-AreDistinct (x ∷ hs) m h =
    track_all-AreDistinct hs (track x.holder x.asset m) (track-AreDistinct x.holder x.asset m h)

abbrev Has : TextMap Holding → Text → Type 0
Has m key = is_some (get key m) ≡ true

put-Has : (m : TextMap Holding) (k j : Text) (h : Holding) → Has m j → Has (put k h m) j
put-Has m k j h e = ap is_some (get-put k j h m) ∙ by_test (text_eq k j)
  where
    by_test : (b : Bool) → is_some (if b then some h else get j m) ≡ true
    by_test true = refl
    by_test false = e

track-keeps :
    (holder asset : Text) (m : TextMap Holding) (key : Text)
    → Has m key
    → Has (track holder asset m) key
unfolding track
track-keeps holder asset m key h =
    if_elim (λ (n : TextMap Holding). Has n key) (is_some (get (track_key holder asset) m)) (λ _. h)
      (λ _. put-Has m (track_key holder asset) key _ h)

track-Has :
    (holder asset : Text) (m : TextMap Holding)
    → Has (track holder asset m) (track_key holder asset)
unfolding track
track-Has holder asset m =
    if_elim (λ (n : TextMap Holding). Has n key) (is_some (get key m)) (λ e. e)
      (λ _. ap is_some (get-put key key _ m) ∙ rw text_eq_refl refl)
  where
    key : Text
    key = track_key holder asset

track_all-keeps :
    (hs : List Holding) (m : TextMap Holding) (key : Text) → Has m key → Has (track_all hs m) key
unfolding track_all
track_all-keeps [] m key h = h
track_all-keeps (x ∷ hs) m key h =
    track_all-keeps hs (track x.holder x.asset m) key (track-keeps x.holder x.asset m key h)

track_all-Has :
    (hs : List Holding) (m : TextMap Holding)
    → All (λ h. Has (track_all hs m) (track_key h.holder h.asset)) hs
unfolding track_all
track_all-Has [] m = tt
track_all-Has (x ∷ hs) m = (
  track_all-keeps hs (track x.holder x.asset m) (track_key x.holder x.asset)
      (track-Has x.holder x.asset m),
  track_all-Has hs (track x.holder x.asset m),
)

-- The balance of the holder in the asset is among those that are read.
abbrev pub IsWatched : DeliveryRequest → Text → Text → Type 0
IsWatched req holder asset = is_some (get (track_key holder asset) (tracked req)) ≡ true

pub All-map_of {ℓ κ ι} :
    {A : Type ℓ} {B : Type κ} (P : B → Type ι) (f : A → B) (xs : List A)
    → All P (map f xs)
    → All (λ x. P (f x)) xs
All-map_of P f [] h = tt
All-map_of P f (x ∷ xs) h = (h.0, All-map_of P f xs h.1)

-- Every balance that the proof speaks of is watched.
pub record WatchesAll (req : DeliveryRequest) : Type 0 where
  pub expected : All (λ e. IsWatched req req.from e.asset) req.expect
  pub paid : All (λ p. IsWatched req req.from p.asset) req.pay
  pub retained : All (λ h. IsWatched req h.holder h.asset) req.must_not_retain
  pub ether : All (λ h. IsWatched req h eth) blackholes

wanted-IsWatched : (req : DeliveryRequest) → All (λ h. IsWatched req h.holder h.asset) (wanted req)
unfolding tracked
wanted-IsWatched req = track_all-Has (wanted req) []

pub tracked-WatchesAll : (req : DeliveryRequest) → WatchesAll req
unfolding wanted
tracked-WatchesAll req =
    let Q : Holding → Type 0 = λ h. IsWatched req h.holder h.asset in
    let from_e : Expectation → Holding = λ e. record { holder = req.from; asset = e.asset } in
    let from_p : Payment → Holding = λ p. record { holder = req.from; asset = p.asset } in
    let from_b : Text → Holding = λ h. record { holder = h; asset = eth } in
    let es = map from_e req.expect in
    let ps = map from_p req.pay in
    let ms = req.must_not_retain in
    let bs = map from_b blackholes in
    let all = wanted-IsWatched req in
    let first_three = All-append_left Q (es ++ ps ++ ms) bs all in
    let first_two = All-append_left Q (es ++ ps) ms first_three in
    record {
      expected = All-map_of Q from_e req.expect (All-append_left Q es ps first_two);
      paid = All-map_of Q from_p req.pay (All-append_right Q es ps first_two);
      retained = All-append_right Q (es ++ ps) ms first_three;
      ether = All-map_of Q from_b blackholes (All-append_right Q (es ++ ps ++ ms) bs all);
    }

-- What is remembered of each watched balance is the word that its own call returned.
abbrev pub AreRead : TextMap Holding → List CallResult → TextMap ℤ → Type 0
AreRead [] rs m = Unit
AreRead ((key, h) ∷ es) [] m = (get key m ≡ some (pos 0)) × AreRead es [] m
AreRead ((key, h) ∷ es) (r ∷ rs) m = (get key m ≡ read_word (some r)) × AreRead es rs m

-- The reading of a key that is not asked for again stays.
read_all-keeps :
    (es : TextMap Holding) (rs : List CallResult) (m b : TextMap ℤ) (key : Text) (z : ℤ)
    → get key es ≡ none
    → get key m ≡ some z
    → read_all es rs m ≡ some b
    → get key b ≡ some z
unfolding read_all get
read_all-keeps [] rs m b key z absent e h = ap (λ o. get key (or_else o m)) (sym h) ∙ e
read_all-keeps ((k, x) ∷ es) [] m b key z absent e h =
    let differ : text_eq k key ≡ false = ground (arith, absent) in
    read_all-keeps es [] (put k (pos 0) m) b key z (ground (arith, absent))
      (get-put k key (pos 0) m ∙ rw differ e) h
read_all-keeps ((k, x) ∷ es) (r ∷ rs) m b key z absent e h =
    let differ : text_eq k key ≡ false = ground (arith, absent) in
    let (w, _, g) = bind-some (read_word (some r)) _ b h in
    read_all-keeps es rs (put k w m) b key z (ground (arith, absent))
      (get-put k key w m ∙ rw differ e) g

read_all-AreRead_of :
    (es : TextMap Holding) (rs : List CallResult) (m b : TextMap ℤ)
    → AreDistinct es
    → read_all es rs m ≡ some b
    → AreRead es rs b
unfolding read_all
read_all-AreRead_of [] rs m b d h = tt
read_all-AreRead_of ((key, x) ∷ es) [] m b d h = (
  read_all-keeps es [] (put key (pos 0) m) b key (pos 0) d.0
      (get-put key key (pos 0) m ∙ rw text_eq_refl refl) h,
  read_all-AreRead_of es [] (put key (pos 0) m) b d.1 h,
)
read_all-AreRead_of ((key, x) ∷ es) (r ∷ rs) m b d h =
    let (w, e, g) = bind-some (read_word (some r)) _ b h in
    (
      read_all-keeps es rs (put key w m) b key w d.0 (get-put key key w m ∙ rw text_eq_refl refl) g
          ∙ sym e,
      read_all-AreRead_of es rs (put key w m) b d.1 g,
    )

pub read_all-AreRead :
    (req : DeliveryRequest) (rs : List CallResult) (b : TextMap ℤ)
    → read_all (tracked req) rs [] ≡ some b
    → AreRead (tracked req) rs b
read_all-AreRead req rs b h =
    read_all-AreRead_of (tracked req) rs [] b
      (unfold tracked in track_all-AreDistinct (wanted req) [] tt) h

get_elem?-length {ℓ} :
    {A : Type ℓ} (xs : List A) (y : A) (ys : List A) → get_elem? (xs ++ y ∷ ys) (length xs) ≡ some y
get_elem?-length [] y ys = refl
get_elem?-length (x ∷ xs) y ys = get_elem?-length xs y ys

-- The call is the transaction of the request.
abbrev pub IsTransaction : DeliveryRequest → SimCall → Type 0
IsTransaction req call =
    (call.from ≡ some req.from) × (call.to ≡ req.tx_to) × (call.call_data ≡ req.tx_data)

pub calls_of-tx :
    (req : DeliveryRequest)
    → (call : SimCall) × (get_elem? (calls_of req) (tx_index req) ≡ some call)
      × IsTransaction req call
unfolding calls_of tx_index
calls_of-tx req = (
  _,
  get_elem?-length (reads_of req ++ approve_calls req req.approval) _ (reads_of req),
  (refl, refl, refl),
)
