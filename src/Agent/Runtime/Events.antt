-- ===== src/Agent/Runtime/Events.antt =====
-- process_event: the handler of the main thread.
use blender_ai_sidebar.Prelude.{
  ℕ, suc, Bool, true, false, not, ◌&&◌, ◌||◌, String, List, [], ◌∷◌, Option, none, some, ◌==◌,
  nat_comparable, string_comparable, if◌then◌else◌, ltb, leb,
}
use Prim.Native.String.{◌++◌ as append}
use blender_ai_sidebar.Core.Text.{joined}
use blender_ai_sidebar.Core.Json.{Fields}
use blender_ai_sidebar.Core.Types.{ToolResult, fail}
use blender_ai_sidebar.Tools.Registry.{get_tool}
use blender_ai_sidebar.Agent.Models.{ToolCall, Role, plain, ChatMessage}
use blender_ai_sidebar.Agent.Policy.{
  ApprovalDecision, evaluate, PendingApproval, create_pending_approval,
}
use blender_ai_sidebar.Agent.StateMachine.{AgentState}
use blender_ai_sidebar.Agent.History.{HistoryKind}
use blender_ai_sidebar.Plan.Validator.Checks.{dict}
use blender_ai_sidebar.Plan.Review.{Reviewed, reviewed, invalid_plan}
use blender_ai_sidebar.Agent.Runtime.{
  Runtime, Services, Event, TurnId, Response, AgentResult, noted, approval_required,
  final_response_ready,
}
use blender_ai_sidebar.Agent.Runtime.Action.{
  Result, ok, raised, M, pure, ◌>>=◌, ◌>>◌, gets, modify, attempt, go_to, emit, add_message,
  add_result,
}
use blender_ai_sidebar.Agent.Runtime.Replies.{
  error_value, tool_message, close_turn, report_error, fail_turn, run_call, send,
}
use blender_ai_sidebar.Agent.Runtime.Plans.{request_plan_review}

-- How a call of a response leaves the loop: the next call follows, or the handler returns.
pub data Progress : Type 0 where
  go_on : Progress
  stop : Option AgentResult → Progress

abbrev pub assistant_message : Option String → List ToolCall → ChatMessage
assistant_message text calls = record {
  role = Role.assistant;
  content = elim text [ none ↦ none | some t ↦ some (plain t) ];
  tool_calls = calls;
  tool_call_id = none;
  name = none;
  image_id = none;
}

-- `text or None`
abbrev pub solid : Option String → Option String
solid none = none
solid (some t) = if t == "" then none else some t

-- `args.pop("overall_risk", None)`
unfoldable pub without_field : String → Fields → Fields
without_field k Fields.end = Fields.end
without_field k (Fields.field j v d) = if j == k then d else Fields.field j v (without_field k d)

-- _is_repair_proposal
unfoldable pub has_failed_plan : List ToolResult → Bool
has_failed_plan [] = false
has_failed_plan (res ∷ results) =
    (res.tool == "propose_plan"
      && not res.success
      && elim res.error [ none ↦ false | some e ↦ e.type == "PLAN_EXECUTION_FAILED" ])
    || has_failed_plan results

module _ {W C : Type 0} (sv : Services W C) where
  -- The end of a turn by a proposed plan that is not reviewed.
  unfoldable pub refuse_plan : ℕ → ToolCall → String → String → M W C Progress
  unfolding close_turn report_error go_to add_message add_result
  refuse_plan t call type message = do
    go_to AgentState.error
    add_message (
        tool_message (error_value (record { type = type; message = message })) call.call_id
          "propose_plan" none)
    add_result (fail "propose_plan" type message)
    ended ← close_turn (joined ("Error: " ∷ message ∷ [])) (report_error t type message)
    pure (stop ended)

  abbrev pub repairs_message : String
  repairs_message =
      joined ("Maximum plan repairs limit reached (" ∷ sv.show_nat sv.max_plan_repairs ∷ ")." ∷ [])

  -- Validation must fail as a normal tool round-trip: an exception becomes a refusal.
  unfoldable pub after_review : ℕ → ToolCall → Result Reviewed → M W C Progress
  unfolding refuse_plan
  after_review t call (raised e) =
      refuse_plan t call "PLAN_VALIDATION_FAILED"
        (joined ("Plan validation failed: " ∷ sv.show_exception e ∷ []))
  after_review t call (ok (invalid_plan errors)) =
      refuse_plan t call "PLAN_VALIDATION_FAILED"
        (joined ("Plan validation failed: " ∷ sv.show_errors errors ∷ []))
  after_review t call (ok (reviewed review)) = pure (stop none)

  unfoldable pub review_plan : ℕ → ToolCall → M W C Progress
  unfolding request_plan_review after_review without_field
  review_plan t call = do
    answer ←
        attempt
          (request_plan_review sv (dict (without_field "overall_risk" call.arguments)) call.call_id)
    after_review t call answer

  abbrev pub count_repair : Bool → Runtime W C → Runtime W C
  count_repair true r = record r { plan_repairs = suc r.plan_repairs }
  count_repair false r = r

  unfoldable pub propose : ℕ → ToolCall → M W C Progress
  unfolding review_plan refuse_plan has_failed_plan
  propose t call = do
    repair ← gets (λ r. has_failed_plan r.tool_results)
    repairs ← gets (λ r. r.plan_repairs)
    if repair && leb sv.max_plan_repairs repairs
        then refuse_plan t call "MAX_PLAN_REPAIRS_EXCEEDED" repairs_message
        else (do modify (count_repair repair); review_plan t call)

  abbrev pub make_pending : ℕ → ToolCall → Runtime W C → PendingApproval
  make_pending t call r =
      create_pending_approval r.fresh t (get_tool call.tool_name sv.registry) call

  -- A gated call halts the turn until the user answers.
  unfoldable pub ask_user : ℕ → ToolCall → M W C Progress
  unfolding create_pending_approval go_to emit
  ask_user t call = do
    p ← gets (make_pending t call)
    modify (λ r. record r { pending_approval = some p; fresh = suc r.fresh })
    go_to AgentState.pending_approval
    emit (noted t HistoryKind.tool "PENDING")
    emit (approval_required t p.approval_id p.tool_name p.risk_level)
    pure (stop none)

  unfoldable pub decide : ℕ → ToolCall → ApprovalDecision → M W C Progress
  unfolding ask_user run_call
  decide t call ApprovalDecision.require_approval = ask_user t call
  decide t call ApprovalDecision.auto_approve = do
    ended ← run_call sv t call call.tool_name
    pure (elim ended [ none ↦ go_on | some res ↦ stop (some res) ])

  unfoldable pub run_one : ℕ → ToolCall → M W C Progress
  unfolding propose decide evaluate
  run_one t call = do
    cancelled ← gets (λ r. r.cancelled)
    if cancelled
        then pure (stop none)
        else if call.tool_name == "propose_plan"
        then propose t call
        else decide t call (evaluate (get_tool call.tool_name sv.registry) call)

  unfoldable pub run_calls : ℕ → List ToolCall → M W C Progress
  unfolding run_one
  run_calls t [] = pure go_on
  run_calls t (call ∷ calls) = do
    progress ← run_one t call
    elim progress [ stop res ↦ pure (stop res) | go_on ↦ run_calls t calls ]

  abbrev pub final_text_of : String → Option Response → String
  final_text_of streamed resp = if not (streamed == "") then streamed else elim resp [
    | none ↦ "İşlem tamamlandı."
    | some answer ↦ elim (solid answer.assistant_text) [ none ↦ "İşlem tamamlandı." | some t ↦ t ]
  ]

  -- A response without tool calls finishes the turn.
  unfoldable pub finish_turn : ℕ → Option Response → M W C (Option AgentResult)
  unfolding go_to add_message emit
  finish_turn t resp = do
    go_to AgentState.idle
    text ← gets (λ r. final_text_of r.streaming_text resp)
    modify (λ r. record r { streaming_text = "" })
    add_message (assistant_message (some text) [])
    results ← gets (λ r. r.tool_results)
    let res : AgentResult = record {
      final_text = text;
      tool_results = results;
      state = AgentState.idle;
    }
    modify (λ r. record r { last_result = some res })
    emit (noted t HistoryKind.assistant "DONE")
    emit (final_response_ready t text results)
    modify (λ r. record r { turn_id = none })
    pure (some res)

  abbrev pub rounds_message : String
  rounds_message =
      joined ("Maximum tool rounds limit reached (" ∷ sv.show_nat sv.max_tool_rounds ∷ ")." ∷ [])

  -- After its calls a round goes back to the provider.
  unfoldable pub end_round : ℕ → Progress → M W C (Option AgentResult)
  unfolding send
  end_round t (stop res) = pure res
  end_round t go_on = do
    cancelled ← gets (λ r. r.cancelled)
    if cancelled then pure none else send sv t

  -- A round of tool calls.
  unfoldable pub run_round : ℕ → Response → M W C (Option AgentResult)
  unfolding run_calls end_round add_message
  run_round t resp = do
    streamed ← gets (λ r. r.streaming_text)
    add_message (
        assistant_message
          (if not (streamed == "") then some streamed else solid resp.assistant_text)
          resp.tool_calls)
    modify (λ r. record r { streaming_text = "" })
    progress ← run_calls t resp.tool_calls
    end_round t progress

  unfoldable pub start_round : ℕ → Response → M W C (Option AgentResult)
  unfolding run_round fail_turn
  start_round t resp = do
    modify (λ r. record r { tool_round = suc r.tool_round })
    round ← gets (λ r. r.tool_round)
    if ltb sv.max_tool_rounds round
        then fail_turn t "MAX_TOOL_ROUNDS_EXCEEDED" rounds_message
        else run_round t resp

  unfoldable pub answer_response : ℕ → Option Response → M W C (Option AgentResult)
  unfolding finish_turn start_round
  answer_response t none = finish_turn t none
  answer_response t (some resp) = elim resp.tool_calls [
    | [] ↦ finish_turn t (some resp)
    | call ∷ calls ↦ start_round t resp
  ]

  unfoldable pub handle_response : ℕ → Option Response → M W C (Option AgentResult)
  unfolding answer_response
  handle_response t resp r = if r.cancelled then (ok none, r) else answer_response t resp r

  unfoldable pub handle_provider_error : ℕ → String → String → M W C (Option AgentResult)
  unfolding close_turn report_error go_to
  handle_provider_error t type message r =
      if type == "CANCELLED" || r.cancelled
      then (ok none, r)
      else (do
        go_to AgentState.error
        close_turn (joined ("Error: " ∷ message ∷ []))
            (report_error t (joined ("PROVIDER_" ∷ type ∷ [])) message))
          r

  -- An error of the worker is noted, but not put in the queue again.
  unfoldable pub handle_agent_error : ℕ → String → M W C (Option AgentResult)
  unfolding close_turn go_to emit
  handle_agent_error t message = do
    go_to AgentState.error
    close_turn (joined ("Error: " ∷ message ∷ [])) (emit (noted t HistoryKind.error "ERROR"))

  -- ProviderCompleted as a response.
  abbrev pub completed_response : Runtime W C → Response
  completed_response r = record {
    assistant_text = solid (some r.streaming_text);
    tool_calls = sv.last_tool_calls r.world;
  }

  unfoldable pub handle : Event → M W C (Option AgentResult)
  unfolding handle_response handle_provider_error handle_agent_error
  handle (Event.streaming_text_delta t delta) r =
      (ok none, record r { streaming_text = append r.streaming_text delta })
  handle (Event.text_delta t text) r =
      (ok none, record r { streaming_text = append r.streaming_text text })
  handle (Event.tool_call_delta t) r = (ok none, r)
  handle (Event.provider_error t type message) r = handle_provider_error t type message r
  handle (Event.provider_completed t) r = handle_response t (some (completed_response r)) r
  handle (Event.provider_response_ready t resp) r = handle_response t resp r
  handle (Event.agent_error t type message) r = handle_agent_error t message r
  handle (Event.shutdown_event id) r = (ok none, r)
  handle (Event.unhandled t) r = (ok none, r)

-- `getattr(event, "turn_id", None)`
unfoldable pub turn_of : Event → Option TurnId
turn_of (Event.streaming_text_delta t delta) = some (TurnId.turn t)
turn_of (Event.text_delta t text) = some (TurnId.turn t)
turn_of (Event.tool_call_delta t) = some (TurnId.turn t)
turn_of (Event.provider_error t type message) = some (TurnId.turn t)
turn_of (Event.provider_completed t) = some (TurnId.turn t)
turn_of (Event.provider_response_ready t resp) = some (TurnId.turn t)
turn_of (Event.agent_error t type message) = some (TurnId.turn t)
turn_of (Event.shutdown_event id) = some id
turn_of (Event.unhandled id) = id

-- `isinstance(event, (ShutdownEvent,))`
unfoldable pub is_shutdown : Event → Bool
is_shutdown (Event.shutdown_event id) = true
is_shutdown event = false

abbrev pub is_other_turn : Option TurnId → Option ℕ → Bool
is_other_turn none current = false
is_other_turn (some (TurnId.turn t)) (some current) = not (t == current)
is_other_turn (some id) current = true

-- An event of another turn; a shutdown is exempt.
unfoldable pub is_stale : Event → Option ℕ → Bool
unfolding turn_of is_shutdown
is_stale event current = is_other_turn (turn_of event) current && not (is_shutdown event)

module _ {W C : Type 0} (sv : Services W C) where
  unfoldable pub process_event : Event → M W C (Option AgentResult)
  unfolding handle is_stale
  process_event event r =
      if is_stale event r.turn_id
      then (ok none, record r { stale_events = suc r.stale_events })
      else handle sv event r
