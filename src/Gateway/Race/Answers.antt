-- ===== src/Gateway/Race/Answers.antt =====
-- What the race answers, and that it does.
use ordofi.Base.{
  ℕ, List, [], ◌∷◌, Bool, true, false, not, ◌&&◌, ◌||◌, Option, none, some, is_some, ◌≡◌, ◌≢◌, refl,
  ◌∙◌, arith, if_elim, ◌⊎◌, inl, inr, Option-cases,
}
use ordofi.Gateway.Race.{
  Answer, value, failure, Race, Event, timer, primary_settles, hedge_settles, start, on_timer,
  on_primary, on_hedge, reject_primary, step, run,
}

module _ {ℓ} {T : Type ℓ} where
  -- The answer (the last argument) in the light of what the primary and the hedge answered, and of
  -- whether the hedge was fired.
  abbrev pub Explains : Option (Answer T) → Option (Answer T) → Bool → Option (Answer T) → Type ℓ
  Explains primary hedge started none = (primary ≡ none) ⊎ ((started ≡ true) × (hedge ≡ none))
  Explains primary hedge started (some (value v)) =
      (primary ≡ some (value v)) ⊎ (hedge ≡ some (value v))
  Explains primary hedge started (some (failure e)) =
      (primary ≡ some (failure e)) × ((started ≡ false) ⊎ ((d : ℕ) × (hedge ≡ some (failure d))))

  record IsHonest (r : Race T) : Type ℓ where
    explained : Explains r.primary r.hedge r.hedge_started r.settled
    recorded : (e : ℕ) → r.primary_error ≡ some e → r.primary ≡ some (failure e)
    unrecorded : r.settled ≡ none → r.primary_error ≡ none → r.primary ≡ none
    timed : r.hedge_started ≡ false ⊎ r.timer_set ≡ false
    done : is_some r.hedge ≡ r.hedge_done
    alone : is_some r.hedge ≡ true → r.hedge_started ≡ true
    cleared : is_some r.primary ≡ true → r.timer_set ≡ false
    lost : (v : T) → r.settled ≡ none → r.hedge ≢ some (value v)

  start-IsHonest : IsHonest start
  unfolding start
  start-IsHonest = record {
    explained = inl refl;
    recorded = λ e h. absurd cc;
    unrecorded = λ _ _. refl;
    timed = inl refl;
    done = refl;
    alone = λ h. absurd cc;
    cleared = λ h. absurd cc;
    lost = λ v _ h. absurd cc;
  }

  undecided : {o : Option (Answer T)} → is_some o ≡ false → o ≡ none
  undecided {o = none} h = refl
  undecided {o = some a} h = absurd cc

  on_timer-IsHonest :
      (may_hedge : Bool) (r : Race T)
      → IsHonest r
      → r.timer_set ≡ true
      → IsHonest (on_timer may_hedge r)
  unfolding on_timer
  on_timer-IsHonest may_hedge r h set =
      if_elim IsHonest (is_some r.settled)
        (λ _. record {
          explained = h.explained;
          recorded = h.recorded;
          unrecorded = h.unrecorded;
          timed = inr refl;
          done = h.done;
          alone = h.alone;
          cleared = λ _. refl;
          lost = h.lost;
        })
        λ free.
          if_elim IsHonest (not may_hedge)
            (λ _. record {
              explained = h.explained;
              recorded = h.recorded;
              unrecorded = h.unrecorded;
              timed = inr refl;
              done = h.done;
              alone = h.alone;
              cleared = λ _. refl;
              lost = h.lost;
            })
            (λ _. record {
              explained = rw (undecided free) (inl unanswered);
              recorded = h.recorded;
              unrecorded = h.unrecorded;
              timed = inr refl;
              done = h.done;
              alone = λ _. refl;
              cleared = λ _. refl;
              lost = h.lost;
            })
    where
      unanswered : r.primary ≡ none
      unanswered = elim (Option-cases r.primary) [
        | inl e ↦ e
        | inr (a, e) ↦ absurd (let c = h.cleared (rw e refl) in cc)
      ]

  -- An answer that was explained stays so when the primary, which had not answered, does.
  explained_then :
      (p hd : Option (Answer T)) (b : Bool) (s : Option (Answer T))
      → is_some s ≡ true
      → Explains none hd b s
      → Explains p hd b s
  explained_then p hd b none some_s x = absurd cc
  explained_then p hd b (some (value v)) some_s (inl x) = absurd cc
  explained_then p hd b (some (value v)) some_s (inr x) = inr x
  explained_then p hd b (some (failure e)) some_s x = absurd (let y = x.0 in cc)

  -- The hedge of a race that is not settled, once the primary fails.
  module _ (r : Race T) (h : IsHonest r) where
    no_error : r.primary ≡ none → (e : ℕ) → r.primary_error ≢ some e
    no_error un e x = let y = h.recorded e x in cc

    no_hedge :
        r.settled ≡ none
        → not r.hedge_started || r.hedge_done ≡ true
        → (r.hedge_started ≡ false) ⊎ ((d : ℕ) × (r.hedge ≡ some (failure d)))
    no_hedge s d = elim (Option-cases r.hedge) [
      | inl e ↦ inl (let f = rw e at h.done in ground arith)
      | inr (value v, e) ↦ absurd (h.lost v s e)
      | inr (failure x, e) ↦ inr (x, e)
    ]

    not_hedged :
        not r.hedge_started || r.hedge_done ≡ false → (r.hedge_started ≡ true) × (r.hedge ≡ none)
    not_hedged d = elim (Option-cases r.hedge) [
      | inl e ↦ (ground arith, e)
      | inr (a, e) ↦ absurd (let f = rw e at h.done in ground arith)
    ]

  on_primary-IsHonest :
      (a : Answer T) (r : Race T) → IsHonest r → r.primary ≡ none → IsHonest (on_primary a r)
  unfolding on_primary
  on_primary-IsHonest (value v) r h un =
      if_elim IsHonest (is_some r.settled)
        (λ s. record {
          explained =
              explained_then (some (value v)) r.hedge r.hedge_started r.settled s
                (rw un at h.explained);
          recorded = λ e x. absurd (no_error r h un e x);
          unrecorded = λ e _. absurd (let x = rw e at s in cc);
          timed = inr refl;
          done = h.done;
          alone = h.alone;
          cleared = λ _. refl;
          lost = h.lost;
        })
        (λ s. record {
          explained = inl refl;
          recorded = λ e x. absurd (no_error r h un e x);
          unrecorded = λ e _. absurd cc;
          timed = inr refl;
          done = h.done;
          alone = h.alone;
          cleared = λ _. refl;
          lost = λ w e _. absurd cc;
        })
  on_primary-IsHonest (failure e) r h un =
      if_elim IsHonest (is_some r.settled)
        (λ s. record {
          explained =
              explained_then (some (failure e)) r.hedge r.hedge_started r.settled s
                (rw un at h.explained);
          recorded = λ d x. cc;
          unrecorded = λ e _. absurd (let x = rw e at s in cc);
          timed = inr refl;
          done = h.done;
          alone = h.alone;
          cleared = λ _. refl;
          lost = h.lost;
        })
        (λ s.
          if_elim IsHonest (not r.hedge_started || r.hedge_done)
            (λ d. record {
              explained = (refl, no_hedge r h (undecided s) d);
              recorded = λ d x. cc;
              unrecorded = λ e _. absurd cc;
              timed = inr refl;
              done = h.done;
              alone = h.alone;
              cleared = λ _. refl;
              lost = λ w e _. absurd cc;
            })
            (λ d. record {
              explained = rw (undecided s) (inr (not_hedged r h d));
              recorded = λ d x. cc;
              unrecorded = λ _ x. absurd cc;
              timed = inr refl;
              done = h.done;
              alone = h.alone;
              cleared = λ _. refl;
              lost = h.lost;
            }))

  -- The same for a hedge that was fired and had not answered.
  explained_hedge :
      (p : Option (Answer T)) (a : Answer T) (b : Bool) (s : Option (Answer T))
      → is_some s ≡ true
      → b ≡ true
      → Explains p none b s
      → Explains p (some a) b s
  explained_hedge p a b none some_s on x = absurd cc
  explained_hedge p a b (some (value v)) some_s on (inl x) = inl x
  explained_hedge p a b (some (value v)) some_s on (inr x) = absurd cc
  explained_hedge p a b (some (failure e)) some_s on (x, inl y) = absurd cc
  explained_hedge p a b (some (failure e)) some_s on (x, inr y) = absurd (let z = y.1 in cc)

  module _ (r : Race T) (h : IsHonest r) (started : r.hedge_started ≡ true)
      (un : r.hedge ≡ none) where
    answered-IsHonest :
        (a : Answer T)
        → is_some r.settled ≡ true
        → IsHonest (record r { hedge_done = true; hedge = some a })
    answered-IsHonest a s = record {
      explained =
          explained_hedge r.primary a r.hedge_started r.settled s started (rw un at h.explained);
      recorded = h.recorded;
      unrecorded = h.unrecorded;
      timed = h.timed;
      done = refl;
      alone = λ _. started;
      cleared = h.cleared;
      lost = λ v e. absurd (let x = rw e at s in cc);
    }

    failed-IsHonest :
        (d : ℕ)
        → r.settled ≡ none
        → r.primary_error ≡ none
        → IsHonest (record r { hedge_done = true; hedge = some (failure d) })
    failed-IsHonest d s e = record {
      explained = rw s (inl (h.unrecorded s e));
      recorded = h.recorded;
      unrecorded = h.unrecorded;
      timed = h.timed;
      done = refl;
      alone = λ _. started;
      cleared = h.cleared;
      lost = λ v _ x. cc;
    }

    on_hedge-IsHonest : (a : Answer T) → IsHonest (on_hedge a r)
    unfolding on_hedge reject_primary
    on_hedge-IsHonest (value v) =
        if_elim IsHonest (is_some r.settled) (answered-IsHonest (value v)) λ _. record {
          explained = inr refl;
          recorded = h.recorded;
          unrecorded = λ e _. absurd cc;
          timed = h.timed;
          done = refl;
          alone = λ _. started;
          cleared = h.cleared;
          lost = λ w e _. absurd cc;
        }
    on_hedge-IsHonest (failure d) = rejected r.primary_error refl
      where
        rejected :
            (o : Option ℕ)
            → r.primary_error ≡ o
            → IsHonest (reject_primary o (record r { hedge_done = true; hedge = some (failure d) }))
        rejected none e = elim (Option-cases r.settled) [
          | inl s ↦ failed-IsHonest d s e
          | inr (a, s) ↦ answered-IsHonest (failure d) (rw s refl)
        ]
        rejected (some x) e =
            if_elim IsHonest (is_some r.settled) (answered-IsHonest (failure d)) λ _. record {
              explained = (h.recorded x e, inr (d, refl));
              recorded = h.recorded;
              unrecorded = λ y _. absurd cc;
              timed = h.timed;
              done = refl;
              alone = λ _. started;
              cleared = h.cleared;
              lost = λ w y _. absurd cc;
            }

  step-IsHonest : (r : Race T) (e : Event T) → IsHonest r → IsHonest (step r e)
  unfolding step
  step-IsHonest r (timer may_hedge) h =
      if_elim IsHonest r.timer_set (on_timer-IsHonest may_hedge r h) (λ _. h)
  step-IsHonest r (primary_settles a) h =
      if_elim IsHonest (is_some r.primary) (λ _. h) (λ un. on_primary-IsHonest a r h (undecided un))
  step-IsHonest r (hedge_settles a) h =
      if_elim IsHonest (r.hedge_started && not r.hedge_done)
        (λ run. on_hedge-IsHonest r h (ground arith) (undecided (h.done ∙ ground arith)) a) (λ _. h)

  run-IsHonest : (r : Race T) (es : List (Event T)) → IsHonest r → IsHonest (run r es)
  unfolding run
  run-IsHonest r [] h = h
  run-IsHonest r (e ∷ es) h = run-IsHonest (step r e) es (step-IsHonest r e h)

  -- Whatever order the timer and the two requests settle in: a value that the race answers is one that
  -- the primary or the hedge answered; an error that it answers is the primary's, and then the hedge was
  -- not fired or failed too; and it is without an answer only while the primary is outstanding, or a
  -- fired hedge is.
  pub race-IsExplained :
      (es : List (Event T))
      → let r = run start es in Explains r.primary r.hedge r.hedge_started r.settled
  race-IsExplained es = (run-IsHonest start es start-IsHonest).explained
