-- ===== src/Agent/Runtime/Plans.antt =====
-- Plans in AgentRuntime: request_plan_review, approve_plan and reject_plan.
use blender_ai_sidebar.Prelude.{
  ℕ, suc, Bool, true, false, not, ◌&&◌, ◌||◌, String, List, [], ◌∷◌, Option, none, some, ◌==◌,
  nat_comparable, string_comparable, if◌then◌else◌,
}
use blender_ai_sidebar.Core.Text.{joined}
use blender_ai_sidebar.Core.Json.{Value, Fields}
use blender_ai_sidebar.Core.Types.{RiskLevel, ToolResult, ok as ok_result, fail}
use blender_ai_sidebar.Agent.StateMachine.{AgentState}
use blender_ai_sidebar.Agent.History.{HistoryKind}
use blender_ai_sidebar.Plan.Models.{PlanStatus, Summary}
use blender_ai_sidebar.Plan.Validator.Checks.{RawPlan, plan_object}
use blender_ai_sidebar.Plan.Executor.{Engine}
use blender_ai_sidebar.Plan.Executor.Steps.{Reason, execute_plan}
use blender_ai_sidebar.Plan.Review.{PlanReview, Reviewed, reviewed, invalid_plan, build_plan_review}
use blender_ai_sidebar.Agent.Runtime.{
  Runtime, Services, AgentResult, noted, approval_required, approval_resolved, tool_result_ready,
  no_pending_approval, invalid_approval, validator_failed,
}
use blender_ai_sidebar.Agent.Runtime.Action.{
  ok, raised, M, pure, ◌>>=◌, ◌>>◌, modify, go_to, emit, add_message, add_result,
}
use blender_ai_sidebar.Agent.Runtime.Execute.{execute_and_verify}
use blender_ai_sidebar.Agent.Runtime.Replies.{tool_message, send}
use blender_ai_sidebar.Agent.Runtime.Approvals.{is_pending, is_turn}

abbrev pub is_low : RiskLevel → Bool
is_low RiskLevel.read_only = true
is_low RiskLevel.low = true
is_low _ = false

abbrev pub is_completed : PlanStatus → Bool
is_completed PlanStatus.completed = true
is_completed _ = false

unfoldable pub was_consumed : ℕ → List ℕ → Bool
was_consumed id [] = false
was_consumed id (n ∷ ns) = n == id || was_consumed id ns

module _ {W C : Type 0} where
  -- The guards on the pending review; `none` says that the turn was cancelled.
  unfoldable pub check_review : ℕ → PlanReview → M W C (Option PlanReview)
  unfolding was_consumed
  check_review id p r =
      if not (p.approval_id == id)
      then (raised invalid_approval, r)
      else if not (is_turn p.turn_id r.turn_id)
      then (raised invalid_approval, r)
      else if was_consumed id r.consumed
      then (raised invalid_approval, r)
      else if r.cancelled
      then (ok none, record r { pending_review = none })
      else (ok (some p), record r { pending_review = none })

  unfoldable pub take_review : ℕ → M W C (Option PlanReview)
  unfolding check_review
  take_review id r = elim r.pending_review [
    | none ↦ (raised no_pending_approval, r)
    | some p ↦ if is_pending r.state then check_review id p r else (raised no_pending_approval, r)
  ]

  -- A turn for a review that is requested outside of one.
  unfoldable pub ensure_turn : Runtime W C → Runtime W C
  ensure_turn r = elim r.turn_id [
    | some t ↦ r
    | none ↦ record r { turn_counter = suc r.turn_counter; turn_id = some (suc r.turn_counter) }
  ]

  abbrev current_turn : Runtime W C → ℕ
  current_turn r = elim r.turn_id [ none ↦ r.turn_counter | some t ↦ t ]

module _ {W C : Type 0} (sv : Services W C) where
  -- The executor of an approved plan: it has no policy, since the user approved the plan as a whole,
  -- and executes its steps by execute_tool_call of the runtime.
  abbrev pub plan_engine : Option String → String → Engine W
  plan_engine expected prompt = record {
    execute_fn = none;
    runtime = some (λ call desc w. execute_and_verify sv expected prompt call desc w);
    dispatcher = none;
    verifier = none;
    visual_verifier = none;
    uses_policy = false;
    approval_hook = none;
    visual_expectation = λ s. none;
    should_verify_visually = sv.should_verify_visually;
  }

  -- _execute_approved_plan: the approval is consumed whatever happens.
  unfoldable pub execute_approved : PlanReview → M W C (Summary Reason)
  unfolding execute_plan
  execute_approved review r =
      let r' = record r { consumed = review.approval_id ∷ r.consumed; fresh = suc r.fresh } in
      elim (execute_plan (plan_engine r.expected_visual r.prompt) sv.show_value sv.registry
        (sv.new_plan_id r.fresh) (plan_object review.plan) r.world) [
          | none ↦ (raised validator_failed, r')
          | some (summary, w) ↦ (ok summary, record r' { world = w })
        ]

  abbrev pub plan_result : Summary Reason → ToolResult
  plan_result summary =
      if is_completed summary.status
      then ok_result "propose_plan" (sv.summary_dict summary)
      else fail "propose_plan" "PLAN_EXECUTION_FAILED" (elim summary.failure_reason [
        | none ↦ "Plan execution failed"
        | some reason ↦ sv.show_reason reason
      ])

  -- `review.call_id or f"call_{review.approval_id}"`, where approval ids begin with "plan_".
  abbrev pub reply_id : PlanReview → String
  reply_id review =
      if review.call_id == ""
      then joined ("call_plan_" ∷ sv.show_nat review.approval_id ∷ [])
      else review.call_id

  unfoldable pub report_plan : PlanReview → Summary Reason → M W C (Unit {0})
  unfolding add_message add_result emit
  report_plan review summary = do
    add_message (
        tool_message (Value.object (sv.summary_dict summary)) (reply_id review) "propose_plan" none)
    add_result (plan_result summary)
    emit (
        noted review.turn_id HistoryKind.tool
          (if is_completed summary.status then "OK" else "FAIL"))
    emit (tool_result_ready review.turn_id (plan_result summary))

  -- The summary becomes the answer to the proposal, and the turn goes on.
  unfoldable pub after_plan : PlanReview → Summary Reason → M W C (Option AgentResult)
  unfolding report_plan go_to send
  after_plan review summary = do
    report_plan review summary
    go_to AgentState.processing
    send sv review.turn_id

  unfoldable pub run_review : PlanReview → M W C (Option AgentResult)
  unfolding execute_approved after_plan go_to emit
  run_review review = do
    emit (approval_resolved review.turn_id review.approval_id "plan" true)
    go_to AgentState.executing_tool
    summary ← execute_approved review
    after_plan review summary

  -- approve_plan, without the summary that it returns.
  unfoldable pub approve_plan : ℕ → M W C (Option AgentResult)
  unfolding take_review run_review
  approve_plan id = do
    p ← take_review id
    elim p [ none ↦ pure none | some review ↦ run_review review ]

  abbrev pub plan_rejection : PlanReview → String
  plan_rejection review = joined ("User rejected execution of plan '" ∷ review.title ∷ "'." ∷ [])

  abbrev pub rejection_data : PlanReview → Value
  rejection_data review = Value.object (
      Fields.field "status" (Value.text "USER_REJECTED") (
        Fields.field "plan_id" (Value.text review.plan.plan_id) (
          Fields.field "title" (Value.text review.title) (
            Fields.field "error" (Value.text (plan_rejection review))
              (Fields.field "type" (Value.text "USER_REJECTED") Fields.end)))))

  unfoldable pub reject_review : PlanReview → M W C (Option AgentResult)
  unfolding add_message add_result emit go_to send
  reject_review review = do
    modify (λ r. record r { consumed = review.approval_id ∷ r.consumed })
    emit (approval_resolved review.turn_id review.approval_id "plan" false)
    add_message (tool_message (rejection_data review) (reply_id review) "propose_plan" none)
    add_result (fail "propose_plan" "USER_REJECTED" (plan_rejection review))
    emit (noted review.turn_id HistoryKind.tool "REJECTED")
    emit (
        tool_result_ready review.turn_id
          (fail "propose_plan" "USER_REJECTED" (plan_rejection review)))
    go_to AgentState.processing
    send sv review.turn_id

  unfoldable pub reject_plan : ℕ → M W C (Option AgentResult)
  unfolding take_review reject_review
  reject_plan id = do
    p ← take_review id
    elim p [ none ↦ pure none | some review ↦ reject_review review ]

  -- The review of a plan in the current turn.
  unfoldable pub build_review : RawPlan → String → M W C Reviewed
  unfolding build_plan_review
  build_review raw call_id r =
      let r' = record r { fresh = suc r.fresh } in
      elim (build_plan_review sv.describe sv.registry (sv.new_plan_id r.fresh) (current_turn r)
        call_id r.fresh raw) [
          | none ↦ (raised validator_failed, r')
          | some answer ↦ (ok answer, r')
        ]

  abbrev pub is_auto_approved : PlanReview → Bool
  is_auto_approved review = sv.auto_approve_low_risk_plans && is_low review.overall_risk

  -- A review that waits for the user, or goes on at once where low risks are approved.
  unfoldable pub open_review : PlanReview → M W C (Unit {0})
  unfolding approve_plan go_to emit
  open_review review = do
    modify (λ r. record r { pending_review = some review })
    go_to AgentState.pending_approval
    if is_auto_approved review then emit (noted review.turn_id HistoryKind.tool "PENDING") else (do
      emit (approval_required review.turn_id review.approval_id "plan" review.overall_risk)
      emit (noted review.turn_id HistoryKind.tool "PENDING"))
    if is_auto_approved review then (do approve_plan review.approval_id; pure tt) else pure tt

  unfoldable pub open_reviewed : Reviewed → M W C Reviewed
  unfolding open_review
  open_reviewed (invalid_plan errors) = pure (invalid_plan errors)
  open_reviewed (reviewed review) = do open_review review; pure (reviewed review)

  -- request_plan_review; the text of a refusal comes back in its errors.
  unfoldable pub request_plan_review : RawPlan → String → M W C Reviewed
  unfolding ensure_turn build_review open_reviewed
  request_plan_review raw call_id = do
    modify ensure_turn
    answer ← build_review raw call_id
    open_reviewed answer
