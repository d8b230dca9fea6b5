-- ===== src/Auction/Bonds/Cover.antt =====
-- What is held of a searcher stays within its collateral.
use ordofi.Base.{
  ℕ, ◌+◌, ◌-◌, ◌≤◌, [], ◌∷◌, true, false, not, ◌&&◌, Option, none, some, ltb, if◌then◌else◌, ◌≡◌,
  refl, arith, Bool-cases, inl, inr, if_elim,
}
use ordofi.Base.Int.{pos}
use ordofi.Base.Text.{Text, text_eq, text_eq_refl, to_lower_case, starts_with_0x, big_int}
use ordofi.Base.Assoc.{TextMap, get, put}
use ordofi.Auction.Bonds.{
  Config, remember_read, is_fresh, Hold, Bonds, hold_key, collateral_of, has_expired, live_holds,
  held_in, held_by, hold, free_collateral, Verdict, collectable, wei_held, falls_short,
  check_amount, check_bond,
}

-- What one hold adds to what is held of a searcher.
unfoldable pub counted : Config → ℕ → Text → Option Hold → ℕ
counted cfg now s none = 0
counted cfg now s (some h) =
    if not (has_expired cfg now h) && text_eq h.searcher s then h.wei else 0

module _ (cfg : Config) (now : ℕ) (s : Text) where
  -- A hold replaces the one with its key.
  held_in-put :
      (k : Text) (h : Hold) (m : TextMap Hold)
      → held_in cfg now s (put k h m) + counted cfg now s (get k m)
        ≡ held_in cfg now s m + counted cfg now s (some h)
  unfolding held_in put get counted
  held_in-put k h [] = ground arith
  held_in-put k h ((j, g) ∷ m) = elim (Bool-cases (text_eq j k)) [
    | inl e ↦ rw e (ground arith)
    | inr e ↦ let ih = held_in-put k h m in rw e (ground arith)
  ]

  -- The sum does not change when the expired holds go.
  pub held_in-live_holds :
      (m : TextMap Hold) → held_in cfg now s (live_holds cfg now m) ≡ held_in cfg now s m
  unfolding held_in live_holds
  held_in-live_holds [] = refl
  held_in-live_holds ((k, h) ∷ m) = elim (Bool-cases (has_expired cfg now h)) [
    | inl e ↦ rw e (held_in-live_holds m)
    | inr e ↦ rw (e, e) (let ih = held_in-live_holds m in ground arith)
  ]

  get-live_holds :
      (k : Text) (m : TextMap Hold) (h : Hold)
      → get k m ≡ some h
      → has_expired cfg now h ≡ false
      → get k (live_holds cfg now m) ≡ some h
  unfolding get live_holds
  get-live_holds k [] h e live = absurd cc
  get-live_holds k ((j, g) ∷ m) h e live = elim (Bool-cases (text_eq j k)) [
    | inl q ↦ let f = rw q at e in let same : g ≡ h = cc in rw (same, live, q) refl
    | inr q ↦
        let f = rw q at e in
        let ih = get-live_holds k m h f live in
        elim (Bool-cases (has_expired cfg now g)) [ inl x ↦ rw x ih | inr x ↦ rw (x, q) ih ]
  ]

  get-live_holds-none :
      (k : Text) (m : TextMap Hold) → get k m ≡ none → get k (live_holds cfg now m) ≡ none
  unfolding get live_holds
  get-live_holds-none k [] e = refl
  get-live_holds-none k ((j, g) ∷ m) e = elim (Bool-cases (text_eq j k)) [
    | inl q ↦ absurd (let f = rw q at e in cc)
    | inr q ↦
        let f = rw q at e in
        let ih = get-live_holds-none k m f in
        elim (Bool-cases (has_expired cfg now g)) [ inl x ↦ rw x ih | inr x ↦ rw (x, q) ih ]
  ]

  -- A hold, if there is one, is the searcher's and has not expired.
  abbrev pub IsLive : Option Hold → Type 0
  IsLive none = Unit
  IsLive (some h) = (h.searcher ≡ s) × (has_expired cfg now h ≡ false)

  counted-live_holds :
      (k : Text) (m : TextMap Hold) (o : Option Hold)
      → get k m ≡ o
      → IsLive o
      → counted cfg now s (get k (live_holds cfg now m)) ≡ wei_held o
  unfolding counted wei_held
  counted-live_holds k m none e live = rw (get-live_holds-none k m e) refl
  counted-live_holds k m (some h) e live =
      rw (get-live_holds k m h e live.1, counted, live.1, live.0, text_eq_refl s) refl

  counted_new : (n : ℕ) → counted cfg now s (some (record { searcher = s; wei = n; at = now })) ≡ n
  unfolding counted has_expired
  counted_new n =
      let young : ltb cfg.hold_ttl_ms (now - now) ≡ false = ground arith in
      rw (young, text_eq_refl s) refl

  -- A new hold on what the check left.
  held_in-put-live_holds :
      (k : Text) (n : ℕ) (m : TextMap Hold)
      → IsLive (get k m)
      → held_in cfg now s
            (put k (record { searcher = s; wei = n; at = now }) (live_holds cfg now m))
          + wei_held (get k m)
        ≡ held_in cfg now s m + n
  held_in-put-live_holds k n m live =
      let new : Hold = record { searcher = s; wei = n; at = now } in
      let a = held_in-put k new (live_holds cfg now m) in
      let b = held_in-live_holds m in
      let c = counted-live_holds k m (get k m) refl live in
      let d = counted_new n in omega (arith, a, b, c, d)

holds-collateral_of :
    (cfg : Config) (now : ℕ) (read : Option ℕ) (searcher : Text) (b : Bonds)
    → (collateral_of cfg now read searcher b).0.holds ≡ b.holds
unfolding collateral_of
holds-collateral_of cfg now read searcher b =
    if_elim Same (not cfg.settlement) (λ _. refl)
      λ _.
        if_elim Same (is_fresh cfg now (get (to_lower_case searcher) b.cache)) (λ _. refl)
          (λ _. reading read)
  where
    Same : Bonds × ℕ → Type 0
    Same r = r.0.holds ≡ b.holds

    reading : (o : Option ℕ) → Same (remember_read (to_lower_case searcher) now o b)
    reading none = refl
    reading (some value) = refl

module _ (cfg : Config) (now : ℕ) (read : Option ℕ) (searcher opportunity_id : Text) (n : ℕ)
    (b : Bonds) where
  -- What the check of a converted amount leaves, and what it found if the amount is collectable.
  check_amount_lem :
      let r = check_amount cfg now read searcher opportunity_id (some (pos n)) b in
      (r.0.holds ≡ live_holds cfg now b.holds)
      × (r.1 ≡ collectable
          → n
            ≤ (collateral_of cfg now read searcher b).1
              - held_in cfg now (to_lower_case searcher) b.holds
              + wei_held (get (hold_key searcher opportunity_id) b.holds))
  unfolding check_amount free_collateral held_by
  check_amount_lem =
      let same = holds-collateral_of cfg now read searcher b in
      rw same (
        if_elim Checked (falls_short free (pos n)) (λ _. (refl, λ e. absurd cc))
          (λ q. (refl, λ _. unfold falls_short in not_ltb free n q)))
    where
      free : ℕ
      free =
          (collateral_of cfg now read searcher b).1
          - held_in cfg now (to_lower_case searcher) b.holds
          + wei_held (get (hold_key searcher opportunity_id) b.holds)

      Checked : Bonds × Verdict → Type 0
      Checked r = (r.0.holds ≡ live_holds cfg now b.holds) × (r.1 ≡ collectable → n ≤ free)

      not_ltb : (f k : ℕ) → falls_short f (pos k) ≡ false → k ≤ f
      not_ltb f k q = ground (arith, falls_short)

-- A bid that the check finds collectable can be held: where the holds of the searcher were within its
-- collateral, and its hold on the same opportunity, if it has one, had not expired, they still are when
-- the bid's amount replaces that hold.
pub check_bond_covers :
    (cfg : Config) (now : ℕ) (read : Option ℕ) (searcher bid_wei opportunity_id : Text) (n : ℕ)
    (b : Bonds)
    → cfg.settlement ≡ true
    → big_int bid_wei ≡ some (pos n)
    → IsLive cfg now (to_lower_case searcher) (get (hold_key searcher opportunity_id) b.holds)
    → held_in cfg now (to_lower_case searcher) b.holds ≤ (collateral_of cfg now read searcher b).1
    → (check_bond cfg now read searcher bid_wei opportunity_id b).1 ≡ collectable
    → held_in cfg now
        (to_lower_case searcher)
        (hold now searcher opportunity_id n
          (check_bond cfg now read searcher bid_wei opportunity_id b).0).holds
      ≤ (collateral_of cfg now read searcher b).1
unfolding check_bond check_amount hold
check_bond_covers cfg now read searcher bid_wei opportunity_id n b on amount live within =
    if_elim Covered (not cfg.settlement) (λ off e. absurd (ground arith))
      λ _.
        if_elim Covered (not (starts_with_0x searcher)) (λ _ e. absurd cc) (λ _. rw amount checked)
  where
    s : Text
    s = to_lower_case searcher

    c : ℕ
    c = (collateral_of cfg now read searcher b).1

    new_hold : Hold
    new_hold = record { searcher = s; wei = n; at = now }

    key : Text
    key = hold_key searcher opportunity_id

    Covered : Bonds × Verdict → Type 0
    Covered r = r.1 ≡ collectable → held_in cfg now s (put key new_hold r.0.holds) ≤ c

    checked : Covered (check_amount cfg now read searcher opportunity_id (some (pos n)) b)
    checked e =
        let (left, free) = check_amount_lem cfg now read searcher opportunity_id n b in
        let total = held_in-put-live_holds cfg now s key n b.holds live in
        let enough = free e in rw left (omega (arith, total, enough, within))
