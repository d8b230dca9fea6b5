-- ===== src/Gateway/Hub/Filters.antt =====
-- A parsed filter matches the logs that the client's filter describes.
use ordofi.Base.{
  ℕ, zero, suc, ◌<◌, List, [], ◌∷◌, Bool, true, false, ◌&&◌, ◌||◌, Option, none, some, any,
  get_elem?, ◌≡◌, ◌↔◌, refl, sym, ap, ◌∙◌, arith,
}
use ordofi.Base.Text.{Text, text_eq, to_lower_case}
use ordofi.Gateway.Hub.{
  Param, one, many, other, lower_all, parse_one, parse_topics, parse_log_filter, has,
  address_matches, topic_matches, later_topics, topics_match, RawLog, log_matches,
}

abbrev same_text : Text → Text → Bool
same_text s t = text_eq (to_lower_case s) (to_lower_case t)

-- Whether a parameter allows a value: no constraint, or one of those named, upper and lower case alike.
abbrev pub allows : Param → Text → Bool
allows (one s) t = same_text s t
allows (many []) t = true
allows (many (s ∷ ss)) t = any (λ r. same_text r t) (s ∷ ss)
allows other t = true

abbrev pub unconstrained : Param → Bool
unconstrained (one s) = false
unconstrained (many []) = true
unconstrained (many (s ∷ ss)) = false
unconstrained other = true

-- Whether a parameter allows what a log has at a position: a missing or empty topic only where there is
-- no constraint.
abbrev pub allows_at : Param → Option Text → Bool
allows_at p none = unconstrained p
allows_at p (some []) = unconstrained p
allows_at p (some (c ∷ t)) = allows p (c ∷ t)

has-lower_all :
    (ss : List Text) (t : Text) → has (lower_all ss) (to_lower_case t) ≡ any (λ r. same_text r t) ss
unfolding has lower_all any
has-lower_all [] t = refl
has-lower_all (s ∷ ss) t = ap (λ b. same_text s t || b) (has-lower_all ss t)

or_false : (b : Bool) → (b || false) ≡ b
or_false true = refl
or_false false = refl

address_matches-parse_one : (p : Param) (a : Text) → address_matches (parse_one p) a ≡ allows p a
unfolding address_matches parse_one has any
address_matches-parse_one (one s) a = or_false (same_text s a)
address_matches-parse_one (many []) a = refl
address_matches-parse_one (many (s ∷ ss)) a = has-lower_all (s ∷ ss) a
address_matches-parse_one other a = refl

topics_match-parse_one :
    (p : Param) (wants : List (Option (List Text))) (got : List Text)
    → topics_match (parse_one p ∷ wants) got
      ≡ (allows_at p (get_elem? got 0) && topics_match wants (later_topics got))
unfolding topics_match parse_one topic_matches has
topics_match-parse_one (one s) wants [] = refl
topics_match-parse_one (one s) wants ([] ∷ got) = refl
topics_match-parse_one (one s) wants ((c ∷ t) ∷ got) =
    ap (λ b. b && topics_match wants (later_topics ((c ∷ t) ∷ got)))
      (or_false (same_text s (c ∷ t)))
topics_match-parse_one (many []) wants [] = refl
topics_match-parse_one (many []) wants ([] ∷ got) = refl
topics_match-parse_one (many []) wants ((c ∷ t) ∷ got) = refl
topics_match-parse_one (many (s ∷ ss)) wants [] = refl
topics_match-parse_one (many (s ∷ ss)) wants ([] ∷ got) = refl
topics_match-parse_one (many (s ∷ ss)) wants ((c ∷ t) ∷ got) =
    ap (λ b. b && topics_match wants (later_topics ((c ∷ t) ∷ got)))
      (has-lower_all (s ∷ ss) (c ∷ t))
topics_match-parse_one other wants [] = refl
topics_match-parse_one other wants ([] ∷ got) = refl
topics_match-parse_one other wants ((c ∷ t) ∷ got) = refl

get_elem?-later_topics :
    (got : List Text) (i : ℕ) → get_elem? (later_topics got) i ≡ get_elem? got (suc i)
unfolding later_topics
get_elem?-later_topics [] i = refl
get_elem?-later_topics (t ∷ got) i = refl

-- Each of the first `n` parameters allows what the log has at its position.
abbrev pub AllowsEach : ℕ → List Param → List Text → Type 0
AllowsEach n ps got =
    (i : ℕ) (p : Param) → i < n → get_elem? ps i ≡ some p → allows_at p (get_elem? got i) ≡ true

both : (a b : Bool) → (a && b ≡ true) ↔ ((a ≡ true) × (b ≡ true))
both a b = ground arith

-- One position more.
topics_match_iff_step :
    (n : ℕ) (p : Param) (ps : List Param) (got : List Text)
    → (topics_match (parse_topics n ps) (later_topics got) ≡ true)
      ↔ AllowsEach n ps (later_topics got)
    → (topics_match (parse_one p ∷ parse_topics n ps) got ≡ true) ↔ AllowsEach (suc n) (p ∷ ps) got
topics_match_iff_step n p ps got ih = (there, back)
  where
    wants : List (Option (List Text))
    wants = parse_topics n ps

    there : topics_match (parse_one p ∷ wants) got ≡ true → AllowsEach (suc n) (p ∷ ps) got
    there h zero q lt e =
        let same : p ≡ q = cc in
        ap (λ r. allows_at r (get_elem? got 0)) (sym same)
        ∙ ((both _ _).0 (sym (topics_match-parse_one p wants got) ∙ h)).0
    there h (suc i) q lt e =
        ap (allows_at q) (sym (get_elem?-later_topics got i))
        ∙ ih.0 ((both _ _).0 (sym (topics_match-parse_one p wants got) ∙ h)).1 i q (omega arith) e

    back : AllowsEach (suc n) (p ∷ ps) got → topics_match (parse_one p ∷ wants) got ≡ true
    back h =
        topics_match-parse_one p wants got
        ∙ (both _ _).1 (
          h 0 p (omega arith) refl,
          ih.1 (λ i q lt e.
              ap (allows_at q) (get_elem?-later_topics got i) ∙ h (suc i) q (omega arith) e),
        )

topics_match_iff :
    (n : ℕ) (ps : List Param) (got : List Text)
    → (topics_match (parse_topics n ps) got ≡ true) ↔ AllowsEach n ps got
unfolding parse_topics topics_match
topics_match_iff zero ps got = (λ _ i p lt. absurd (omega arith), λ _. refl)
topics_match_iff (suc n) [] got = (λ _ i p lt e. absurd cc, λ _. refl)
topics_match_iff (suc n) (p ∷ ps) got =
    topics_match_iff_step n p ps got (topics_match_iff n ps (later_topics got))

-- A log matches a parsed filter exactly if the address parameter allows its address, and each of the
-- first four topic parameters allows what the log has at its position.
pub log_matches_iff :
    (log : RawLog) (address : Param) (topics : List Param)
    → (log_matches log (parse_log_filter address topics) ≡ true)
      ↔ ((allows address log.address ≡ true) × AllowsEach 4 topics log.topics)
unfolding log_matches parse_log_filter
log_matches_iff log address topics =
    let (there, back) = topics_match_iff 4 topics log.topics in
    let a = address_matches-parse_one address log.address in
    (
      λ h. let (x, y) = (both _ _).0 h in (sym a ∙ x, there y),
      λ h. (both _ _).1 (a ∙ h.0, back h.1),
    )
