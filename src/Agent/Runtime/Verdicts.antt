-- ===== src/Agent/Runtime/Verdicts.antt =====
-- approve_plan and reject_plan: a review is decided once, and only the reviewed plan can change the
-- world.
use blender_ai_sidebar.Prelude.{
  ℕ, ◌≡◌, refl, sym, ap, subst, ◌∙◌, true, false, none, some, ◌==◌, nat_comparable, Bool-cases,
  Option-cases, inl, inr, ◌⊎◌,
}
use blender_ai_sidebar.Plan.Review.{PlanReview}
use blender_ai_sidebar.Agent.Runtime.{
  Runtime, Services, Exception, no_pending_approval, invalid_approval,
}
use blender_ai_sidebar.Agent.Runtime.Action.{ok, raised, ◌>>=◌}
use blender_ai_sidebar.Agent.Runtime.Approvals.{is_pending, is_turn}
use blender_ai_sidebar.Agent.Runtime.Plans.{
  was_consumed, check_review, take_review, run_review, approve_plan, reject_review, reject_plan,
}
use blender_ai_sidebar.Agent.Runtime.Quiet.{View, view}
use blender_ai_sidebar.Agent.Runtime.Executed.{PlanRan, run_review-Leads, reject_review-Keeps}

-- The verdict `id` is for the review `p` that the runtime waits for, and was not given before.
pub record Decides {W C : Type 0} (id : ℕ) (r : Runtime W C) (p : PlanReview) : Type 0 where
  pub pending : r.pending_review ≡ some p
  pub waiting : is_pending r.state ≡ true
  pub id_matches : (p.approval_id == id) ≡ true
  pub turn_matches : is_turn p.turn_id r.turn_id ≡ true
  pub unused : was_consumed id r.consumed ≡ false
  pub runs : r.cancelled ≡ false

module _ {W C : Type 0} where
  abbrev decided : Runtime W C → Runtime W C
  decided r = record r { pending_review = none }

  -- How a verdict is taken: it is refused, it finds the turn cancelled, or it is used up.
  pub data Decided (id : ℕ) (r : Runtime W C) : Type 0 where
    refused : (e : Exception) → take_review id r ≡ (raised e, r) → Decided id r
    ended : take_review id r ≡ (ok none, decided r) → Decided id r
    used :
        (p : PlanReview)
        → Decides id r p
        → take_review id r ≡ (ok (some p), decided r)
        → Decided id r

  checked :
      (id : ℕ) (r : Runtime W C) (p : PlanReview)
      → r.pending_review ≡ some p
      → is_pending r.state ≡ true
      → take_review id r ≡ check_review id p r
      → Decided id r
  unfolding check_review
  checked id r p there waiting same = elim (Bool-cases (p.approval_id == id)) [
    | inr other ↦ Decided.refused invalid_approval (rw (same, other) refl)
    | inl mine ↦ elim (Bool-cases (is_turn p.turn_id r.turn_id)) [
      | inr stale ↦ Decided.refused invalid_approval (rw (same, mine, stale) refl)
      | inl now ↦ elim (Bool-cases (was_consumed id r.consumed)) [
        | inl twice ↦ Decided.refused invalid_approval (rw (same, mine, now, twice) refl)
        | inr fresh ↦ elim (Bool-cases r.cancelled) [
          | inl gone ↦ Decided.ended (rw (same, mine, now, fresh, gone) refl)
          | inr runs ↦
              Decided.used p
                (record {
                  pending = there;
                  waiting = waiting;
                  id_matches = mine;
                  turn_matches = now;
                  unused = fresh;
                  runs = runs;
                })
                (rw (same, mine, now, fresh, runs) refl)
        ]
      ]
    ]
  ]

  pub take_review-Decided : (id : ℕ) (r : Runtime W C) → Decided id r
  unfolding take_review
  take_review-Decided id r = elim (Option-cases r.pending_review) [
    | inl missing ↦ Decided.refused no_pending_approval (simp (take_review, missing))
    | inr (p, there) ↦ elim (Bool-cases (is_pending r.state)) [
      | inr idle ↦ Decided.refused no_pending_approval (simp (take_review, there, idle))
      | inl waiting ↦ checked id r p there waiting (simp (take_review, there, waiting))
    ]
  ]

  pub take_review-none :
      (id : ℕ) (r : Runtime W C)
      → r.pending_review ≡ none
      → take_review id r ≡ (raised no_pending_approval, r)
  unfolding take_review
  take_review-none id r missing = simp (take_review, missing)

module _ {W C : Type 0} (sv : Services W C) where
  module _ (id : ℕ) (r : Runtime W C) where
    pub approve_plan-raised :
        (e : Exception) → take_review id r ≡ (raised e, r) → approve_plan sv id r ≡ (raised e, r)
    unfolding approve_plan ◌>>=◌
    approve_plan-raised e same = simp (approve_plan, ◌>>=◌, same)

    reject_plan-raised :
        (e : Exception) → take_review id r ≡ (raised e, r) → reject_plan sv id r ≡ (raised e, r)
    unfolding reject_plan ◌>>=◌
    reject_plan-raised e same = simp (reject_plan, ◌>>=◌, same)

    pub approve_plan-ended :
        take_review id r ≡ (ok none, decided r) → approve_plan sv id r ≡ (ok none, decided r)
    unfolding approve_plan ◌>>=◌
    approve_plan-ended same = simp (approve_plan, ◌>>=◌, same)

    reject_plan-ended :
        take_review id r ≡ (ok none, decided r) → reject_plan sv id r ≡ (ok none, decided r)
    unfolding reject_plan ◌>>=◌
    reject_plan-ended same = simp (reject_plan, ◌>>=◌, same)

    module _ (p : PlanReview) where
      pub approve_plan-used :
          take_review id r ≡ (ok (some p), decided r)
          → approve_plan sv id r ≡ run_review sv p (decided r)
      unfolding approve_plan ◌>>=◌
      approve_plan-used same = simp (approve_plan, ◌>>=◌, same)

      reject_plan-used :
          take_review id r ≡ (ok (some p), decided r)
          → reject_plan sv id r ≡ reject_review sv p (decided r)
      unfolding reject_plan ◌>>=◌
      reject_plan-used same = simp (reject_plan, ◌>>=◌, same)

  abbrev NoneWaits : View W → Type 0
  NoneWaits v = v.pending_review ≡ none

  -- Without a pending review both verdicts are refused, and nothing changes.
  abbrev pub NoReview : ℕ → Runtime W C → Type 0
  NoReview id r =
      (approve_plan sv id r ≡ (raised no_pending_approval, r))
      × (reject_plan sv id r ≡ (raised no_pending_approval, r))

  unasked : (id : ℕ) (r : Runtime W C) → r.pending_review ≡ none → NoReview id r
  unasked id r h =
      let none_left = take_review-none id r h in
      (
        approve_plan-raised id r no_pending_approval none_left,
        reject_plan-raised id r no_pending_approval none_left,
      )

  module _ (id : ℕ) (r : Runtime W C) where
    approve_plan-pending :
        ((e : Exception) × (approve_plan sv id r ≡ (raised e, r)))
        ⊎ ((approve_plan sv id r).1.pending_review ≡ none)
    approve_plan-pending = elim (take_review-Decided id r) [
      | Decided.refused e same ↦ inl (e, approve_plan-raised id r e same)
      | Decided.ended same ↦ inr (ap (λ x. x.1.pending_review) (approve_plan-ended id r same))
      | Decided.used p h same ↦ inr (
          ap (λ x. x.1.pending_review) (approve_plan-used id r p same)
          ∙ (run_review-Leads sv p {P = NoneWaits} {Q = NoneWaits}
                (λ v v' moved n. moved.review_kept ∙ n) λ v n. n).lead
              (decided r) refl)
    ]

    reject_plan-pending :
        ((e : Exception) × (reject_plan sv id r ≡ (raised e, r)))
        ⊎ ((reject_plan sv id r).1.pending_review ≡ none)
    reject_plan-pending = elim (take_review-Decided id r) [
      | Decided.refused e same ↦ inl (e, reject_plan-raised id r e same)
      | Decided.ended same ↦ inr (ap (λ x. x.1.pending_review) (reject_plan-ended id r same))
      | Decided.used p h same ↦ inr (
          ap (λ x. x.1.pending_review) (reject_plan-used id r p same)
          ∙ (reject_review-Keeps sv {P = NoneWaits} p λ v n. n).keep (decided r) refl)
    ]

    -- `approve_plan` changes the world only by one execution of the plan of the pending review, and
    -- only if that review has the id of the verdict, belongs to the current turn, which is not
    -- cancelled, and was not decided before; otherwise it leaves the world as it is.
    pub approve_plan-world :
        ((approve_plan sv id r).1.world ≡ r.world)
        ⊎ ((p : PlanReview) × (Decides id r p
              × PlanRan sv r.expected_visual r.prompt p r.world (approve_plan sv id r).1.world))
    approve_plan-world = elim (take_review-Decided id r) [
      | Decided.refused e same ↦ inl (ap (λ x. x.1.world) (approve_plan-raised id r e same))
      | Decided.ended same ↦ inl (ap (λ x. x.1.world) (approve_plan-ended id r same))
      | Decided.used p h same ↦
          elim (subst
            (λ x. (x.1.world ≡ r.world) ⊎ PlanRan sv r.expected_visual r.prompt p r.world x.1.world)
            (sym (approve_plan-used id r p same))
            ((run_review-Leads sv p {P = λ v. v ≡ view (decided r)}
                {Q = λ v.
                  (v.world ≡ r.world) ⊎ PlanRan sv r.expected_visual r.prompt p r.world v.world}
                (λ v v' moved still.
                  subst
                    (λ u.
                      (v'.world ≡ u.world)
                      ⊎ PlanRan sv u.expected_visual u.prompt p u.world v'.world)
                    still moved.world_moves)
                λ v still. inl (ap (λ u. u.world) still)).lead
              (decided r) refl)) [ inl still ↦ inl still | inr ran ↦ inr (p, (h, ran)) ]
    ]

    -- `reject_plan` never changes the world.
    pub reject_plan-world : (reject_plan sv id r).1.world ≡ r.world
    reject_plan-world = elim (take_review-Decided id r) [
      | Decided.refused e same ↦ ap (λ x. x.1.world) (reject_plan-raised id r e same)
      | Decided.ended same ↦ ap (λ x. x.1.world) (reject_plan-ended id r same)
      | Decided.used p h same ↦
          ap (λ x. x.1.world) (reject_plan-used id r p same)
          ∙ (reject_review-Keeps sv {P = λ v. v.world ≡ r.world} p λ v n. n).keep (decided r) refl
    ]

  -- A verdict that is not refused uses the review up, also where the execution raises: both verdicts
  -- are refused after it, whatever their id, and change nothing. A verdict that is refused changes
  -- nothing itself.
  pub verdict_once :
      (id later : ℕ) (r : Runtime W C)
      → (((e : Exception) × (approve_plan sv id r ≡ (raised e, r)))
          ⊎ NoReview later (approve_plan sv id r).1)
        × (((e : Exception) × (reject_plan sv id r ≡ (raised e, r)))
            ⊎ NoReview later (reject_plan sv id r).1)
  verdict_once id later r = (
    elim (approve_plan-pending id r) [
      | inl refusal ↦ inl refusal
      | inr gone ↦ inr (unasked later _ gone)
    ],
    elim (reject_plan-pending id r) [
      | inl refusal ↦ inl refusal
      | inr gone ↦ inr (unasked later _ gone)
    ],
  )
