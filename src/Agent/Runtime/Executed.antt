-- ===== src/Agent/Runtime/Executed.antt =====
-- The execution of an approved plan and what follows it, and the rejection of a plan: what they keep.
use blender_ai_sidebar.Prelude.{
  suc, ◌≡◌, refl, sym, subst, String, ◌∷◌, Option, none, some, nat_comparable, Option-cases, inl,
  inr, ◌⊎◌,
}
use blender_ai_sidebar.Core.Json.{Value}
use blender_ai_sidebar.Core.Types.{fail}
use blender_ai_sidebar.Plan.Models.{Summary}
use blender_ai_sidebar.Plan.Validator.Checks.{plan_object}
use blender_ai_sidebar.Plan.Executor.Steps.{Reason, execute_plan}
use blender_ai_sidebar.Plan.Review.{PlanReview}
use blender_ai_sidebar.Agent.Runtime.{Runtime, Services, validator_failed}
use blender_ai_sidebar.Agent.Runtime.Action.{ok, raised}
use blender_ai_sidebar.Agent.Runtime.Replies.{tool_message}
use blender_ai_sidebar.Agent.Runtime.Plans.{
  plan_engine, execute_approved, plan_result, reply_id, report_plan, after_plan, run_review,
  plan_rejection, rejection_data, reject_review,
}
use blender_ai_sidebar.Agent.Runtime.Quiet.{
  View, view, Keeps, Leads, bind-Leads, kept-Leads, bind-Keeps, go_to-Keeps, emit-Keeps,
  add_result-Keeps, add_message-Keeps, send-Keeps,
}

module _ {W C : Type 0} (sv : Services W C) where
  -- `w'` is the world after the plan of the review has run in `w`.
  abbrev pub PlanRan : Option String → String → PlanReview → W → W → Type 0
  PlanRan expected prompt review w w' =
      (id : String) × ((summary : Summary Reason) × (execute_plan (plan_engine sv expected prompt)
            sv.show_value sv.registry id (plan_object review.plan) w
          ≡ some (summary, w')))

  -- The review is used up, and the plan has run or the world is as it was.
  pub record Executed (review : PlanReview) (v v' : View W) : Type 0 where
    pub world_moves :
        (v'.world ≡ v.world) ⊎ PlanRan v.expected_visual v.prompt review v.world v'.world
    pub consumed : v'.consumed ≡ review.approval_id ∷ v.consumed
    pub review_kept : v'.pending_review ≡ v.pending_review

  abbrev spend : PlanReview → Runtime W C → Runtime W C
  spend review r = record r { consumed = review.approval_id ∷ r.consumed; fresh = suc r.fresh }

  module _ (review : PlanReview) (r : Runtime W C) where
    abbrev plan_run : Option (Summary Reason × W)
    plan_run =
        execute_plan (plan_engine sv r.expected_visual r.prompt) sv.show_value sv.registry
          (sv.new_plan_id r.fresh) (plan_object review.plan) r.world

    execute_approved-none :
        plan_run ≡ none → execute_approved sv review r ≡ (raised validator_failed, spend review r)
    unfolding execute_approved
    execute_approved-none failed = rw (execute_approved, failed) refl

    execute_approved-some :
        (summary : Summary Reason) (w : W)
        → plan_run ≡ some (summary, w)
        → execute_approved sv review r ≡ (ok summary, record (spend review r) { world = w })
    unfolding execute_approved
    execute_approved-some summary w came = rw (execute_approved, came) refl

    pub execute_approved-Executed : Executed review (view r) (view (execute_approved sv review r).1)
    execute_approved-Executed = elim (Option-cases plan_run) [
      | inl failed ↦
          subst (λ x. Executed review (view r) (view x.1)) (sym (execute_approved-none failed))
            (record { world_moves = inl refl; consumed = refl; review_kept = refl })
      | inr ((summary, w), came) ↦
          subst (λ x. Executed review (view r) (view x.1))
            (sym (execute_approved-some summary w came))
            (record {
              world_moves = inr (sv.new_plan_id r.fresh, (summary, came));
              consumed = refl;
              review_kept = refl;
            })
    ]

  report_plan-Keeps :
      {P : View W → Type 0} (review : PlanReview) (summary : Summary Reason)
      → Keeps P (report_plan sv review summary)
  unfolding report_plan
  report_plan-Keeps review summary =
      bind-Keeps
        (add_message-Keeps (
          tool_message (Value.object (sv.summary_dict summary)) (reply_id sv review) "propose_plan"
            none))
        λ _.
          bind-Keeps (add_result-Keeps (plan_result sv summary))
            λ _. bind-Keeps (emit-Keeps _) λ _. emit-Keeps _

  after_plan-Keeps :
      {P : View W → Type 0} (review : PlanReview) (summary : Summary Reason)
      → Keeps P (after_plan sv review summary)
  unfolding after_plan
  after_plan-Keeps review summary =
      bind-Keeps (report_plan-Keeps review summary)
        λ _. bind-Keeps (go_to-Keeps _) λ _. send-Keeps sv review.turn_id

  module _ (review : PlanReview) {P Q : View W → Type 0} where
    -- What the execution of the plan leads to, an approved review leads to.
    pub run_review-Leads :
        ((v v' : View W) → Executed review v v' → P v → Q v')
        → ((v : View W) → P v → Q v)
        → Leads P (run_review sv review) Q
    unfolding run_review
    run_review-Leads executed early =
        bind-Leads (kept-Leads (emit-Keeps _))
          (λ _.
            bind-Leads (kept-Leads (go_to-Keeps _))
              (λ _.
                bind-Leads {Q = Q}
                  (record { lead = λ r p. executed _ _ (execute_approved-Executed review r) p })
                  (λ summary. kept-Leads (after_plan-Keeps review summary)) λ v q. q)
              early)
          early

  pub reject_review-Keeps :
      {P : View W → Type 0} (review : PlanReview)
      → ((v : View W) → P v → P (record v { consumed = review.approval_id ∷ v.consumed }))
      → Keeps P (reject_review sv review)
  unfolding reject_review
  reject_review-Keeps review h =
      bind-Keeps (record { keep = λ r p. h (view r) p })
        λ _. bind-Keeps (emit-Keeps _) λ _.
          bind-Keeps
            (add_message-Keeps
              (tool_message (rejection_data sv review) (reply_id sv review) "propose_plan" none))
            λ _.
              bind-Keeps
                (add_result-Keeps (fail "propose_plan" "USER_REJECTED" (plan_rejection sv review)))
                λ _. bind-Keeps (emit-Keeps _) λ _.
                  bind-Keeps (emit-Keeps _)
                    λ _. bind-Keeps (go_to-Keeps _) λ _. send-Keeps sv review.turn_id
