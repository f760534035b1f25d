-- ===== src/Agent/Runtime/Proposals.antt =====
-- A proposed plan: its review, its automatic approval and its refusal keep what the plans keep that
-- need no answer of the user.
use blender_ai_sidebar.Prelude.{
  ℕ, suc, ◌≡◌, refl, sym, subst, ◌∙◌, Bool, true, false, ◌&&◌, String, Option, none, some,
  if◌then◌else◌, nat_comparable, string_comparable, leb, Option-cases, inl, inr,
}
use mathlib.Core.Option.{some-injective}
use blender_ai_sidebar.Core.Types.{fail}
use blender_ai_sidebar.Agent.Models.{ToolCall}
use blender_ai_sidebar.Plan.Validator.Checks.{RawPlan, dict}
use blender_ai_sidebar.Plan.Review.{PlanReview, Reviewed, reviewed, invalid_plan, build_plan_review}
use blender_ai_sidebar.Agent.Runtime.{Runtime, Services}
use blender_ai_sidebar.Agent.Runtime.Action.{Result, ok, raised, M, ◌>>=◌, pure}
use blender_ai_sidebar.Agent.Runtime.Replies.{error_value, tool_message}
use blender_ai_sidebar.Agent.Runtime.Plans.{
  ensure_turn, build_review, is_auto_approved, open_review, approve_plan, open_reviewed,
  request_plan_review,
}
use blender_ai_sidebar.Agent.Runtime.Events.{
  without_field, refuse_plan, after_review, review_plan, count_repair, repairs_message, propose,
}
use blender_ai_sidebar.Agent.Runtime.Quiet.{
  On, View, view, Keeps, Leads, bind-Leads, kept-Leads, bind-Keeps, if-Keeps, pure-Keeps,
  gets-Keeps, modify-Keeps, attempt-Keeps, go_to-Keeps, emit-Keeps, add_result-Keeps,
  add_message-Keeps, report_error-Keeps, close_turn-Keeps,
}
use blender_ai_sidebar.Agent.Runtime.Executed.{PlanRan}
use blender_ai_sidebar.Agent.Runtime.LowRisk.{
  NeedsNoAnswer, HasOwnRisk, is_auto_approved-NeedsNoAnswer, build_plan_review-HasOwnRisk,
}
use blender_ai_sidebar.Agent.Runtime.Verdicts.{approve_plan-world}

module _ {W C : Type 0} (sv : Services W C) (Q : W → Type 0) where
  pub ensure_turn-world : (r : Runtime W C) → (ensure_turn r).world ≡ r.world
  unfolding ensure_turn
  ensure_turn-world r = elim (Option-cases r.turn_id) [
    | inl missing ↦ rw (missing, ensure_turn) refl
    | inr (t, there) ↦ rw (there, ensure_turn) refl
  ]

  -- What follows a review that has the risk of its own plan.
  build_review-Keeps :
      {A : Type 0} (raw : RawPlan) (call_id : String) (k : Reviewed → M W C A)
      → ((answer : Reviewed) → HasOwnRisk sv.registry answer → Keeps (On Q) (k answer))
      → Keeps (On Q) (build_review sv raw call_id >>= k)
  unfolding build_review ◌>>=◌
  build_review-Keeps raw call_id k h = record {
    keep = λ r q.
        let t : ℕ = elim r.turn_id [ none ↦ r.turn_counter | some t ↦ t ] in
        elim (Option-cases (
          build_plan_review sv.describe sv.registry (sv.new_plan_id r.fresh) t call_id r.fresh
            raw)) [
              | inl failed ↦ rw (failed, build_review) q
              | inr (answer, came) ↦
                  rw (came, build_review)
                    ((h answer (
                        build_plan_review-HasOwnRisk sv (sv.new_plan_id r.fresh) t call_id r.fresh
                          raw answer came)).keep
                      (record r { fresh = suc r.fresh }) q)
            ];
  }

  refuse_plan-Keeps :
      (t : ℕ) (call : ToolCall) (type message : String)
      → Keeps (On Q) (refuse_plan sv t call type message)
  unfolding refuse_plan
  refuse_plan-Keeps t call type message = bind-Keeps (go_to-Keeps _) λ _.
      bind-Keeps
        (add_message-Keeps (
          tool_message (error_value (record { type = type; message = message })) call.call_id
            "propose_plan" none))
        λ _. bind-Keeps (add_result-Keeps (fail "propose_plan" type message)) λ _.
          bind-Keeps (close_turn-Keeps _ _ (report_error-Keeps t type message))
            λ ended. pure-Keeps _

  count_repair-view : (repair : Bool) (r : Runtime W C) → view (count_repair sv repair r) ≡ view r
  count_repair-view true r = refl
  count_repair-view false r = refl

  module _
      (plans : (review : PlanReview)
        → NeedsNoAnswer sv review
        → (expected : Option String) (prompt : String) (w w' : W)
        → PlanRan sv expected prompt review w w'
        → Q w
        → Q w') where
    -- The review that waits has just been made, and no answer of the user is needed for it.
    abbrev Waits : PlanReview → View W → Type 0
    Waits review v = (v.pending_review ≡ some review) × Q v.world

    auto_plan-Leads :
        (review : PlanReview) (id : ℕ)
        → NeedsNoAnswer sv review
        → Leads (Waits review) (approve_plan sv id) (On Q)
    auto_plan-Leads review id free = record {
      lead = λ r (there, q). elim (approve_plan-world sv id r) [
        | inl still ↦ subst Q (sym still) q
        | inr (p, (h, ran)) ↦
            plans p
              (subst (NeedsNoAnswer sv) (sym (some-injective p review (sym h.pending ∙ there)))
                free)
              r.expected_visual r.prompt r.world (approve_plan sv id r).1.world ran q
      ];
    }

    if_auto-Leads :
        (review : PlanReview)
        → HasOwnRisk sv.registry (reviewed review)
        → (auto : Bool) → is_auto_approved sv review ≡ auto
        → Leads
            (Waits review)
            (if auto then approve_plan sv review.approval_id >>= (λ _. pure tt) else pure tt)
            (On Q)
    if_auto-Leads review own true always =
        bind-Leads
          (auto_plan-Leads review review.approval_id
            (is_auto_approved-NeedsNoAnswer sv review own always))
          (λ _. kept-Leads (pure-Keeps tt)) λ v q. q
    if_auto-Leads review own false never = record { lead = λ r h. h.1 }

    open_review-Leads :
        (review : PlanReview)
        → HasOwnRisk sv.registry (reviewed review)
        → Leads (On Q) (open_review sv review) (On Q)
    unfolding open_review
    open_review-Leads review own =
        bind-Leads {Q = Waits review} (record { lead = λ r q. (refl, q) })
          (λ _.
            bind-Leads (kept-Leads (go_to-Keeps _))
              (λ _.
                bind-Leads
                  (kept-Leads (
                    if-Keeps (is_auto_approved sv review) (emit-Keeps _)
                      (bind-Keeps (emit-Keeps _) λ _. emit-Keeps _)))
                  (λ _. if_auto-Leads review own (is_auto_approved sv review) refl) λ v h. h.1)
              λ v h. h.1)
          λ v h. h.1

    after_review-Keeps :
        (t : ℕ) (call : ToolCall) (answer : Result Reviewed)
        → Keeps (On Q) (after_review sv t call answer)
    unfolding after_review
    after_review-Keeps t call (raised e) = refuse_plan-Keeps t call "PLAN_VALIDATION_FAILED" _
    after_review-Keeps t call (ok (invalid_plan errors)) =
        refuse_plan-Keeps t call "PLAN_VALIDATION_FAILED" _
    after_review-Keeps t call (ok (reviewed review)) = pure-Keeps _

    open_reviewed-Keeps :
        (answer : Reviewed) → HasOwnRisk sv.registry answer → Keeps (On Q) (open_reviewed sv answer)
    unfolding open_reviewed
    open_reviewed-Keeps (invalid_plan errors) own = pure-Keeps _
    open_reviewed-Keeps (reviewed review) own =
        bind-Keeps (record { keep = (open_review-Leads review own).lead }) λ _. pure-Keeps _

    request_plan_review-Keeps :
        (raw : RawPlan) (call_id : String) → Keeps (On Q) (request_plan_review sv raw call_id)
    unfolding request_plan_review
    request_plan_review-Keeps raw call_id =
        bind-Keeps (record { keep = λ r q. subst Q (sym (ensure_turn-world r)) q })
          λ _.
            build_review-Keeps raw call_id (open_reviewed sv)
              λ answer own. open_reviewed-Keeps answer own

    review_plan-Keeps : (t : ℕ) (call : ToolCall) → Keeps (On Q) (review_plan sv t call)
    unfolding review_plan
    review_plan-Keeps t call =
        bind-Keeps
          (attempt-Keeps (
            request_plan_review-Keeps (dict (without_field "overall_risk" call.arguments))
              call.call_id))
          λ answer. after_review-Keeps t call answer

    pub propose-Keeps : (t : ℕ) (call : ToolCall) → Keeps (On Q) (propose sv t call)
    unfolding propose
    propose-Keeps t call = bind-Keeps (gets-Keeps _) λ repair. bind-Keeps (gets-Keeps _) λ repairs.
        if-Keeps (repair && leb sv.max_plan_repairs repairs)
          (refuse_plan-Keeps t call "MAX_PLAN_REPAIRS_EXCEEDED" (repairs_message sv))
          (bind-Keeps (modify-Keeps _ (count_repair-view repair)) λ _. review_plan-Keeps t call)
