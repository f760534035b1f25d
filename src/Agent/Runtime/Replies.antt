-- ===== src/Agent/Runtime/Replies.antt =====
-- What the handlers of AgentRuntime share: the end of a turn with an error, the record of a tool
-- result, and the next task for the provider.
use blender_ai_sidebar.Prelude.{
  ℕ, Bool, false, String, [], ◌∷◌, Option, none, some, nat_comparable, string_comparable,
  if◌then◌else◌,
}
use blender_ai_sidebar.Core.Text.{joined}
use blender_ai_sidebar.Core.Json.{Value, Fields, get, is_truthy}
use blender_ai_sidebar.Core.Types.{Outcome, returned, ToolError, ToolResult}
use blender_ai_sidebar.Agent.Models.{ToolCall, Role, dumped, ChatMessage}
use blender_ai_sidebar.Agent.StateMachine.{AgentState}
use blender_ai_sidebar.Agent.History.{HistoryKind}
use blender_ai_sidebar.Agent.Runtime.{
  Services, AgentResult, done, unresolved, noted, error_event, tool_result_ready, not_executed,
  no_error_object, invalid_message,
}
use blender_ai_sidebar.Agent.Runtime.Action.{
  ok, raised, M, pure, ◌>>=◌, ◌>>◌, gets, modify, go_to, emit, add_message, add_result,
}
use blender_ai_sidebar.Agent.Runtime.Execute.{execute_and_verify}
use blender_ai_sidebar.Agent.Runtime.Turns.{submit_task}

abbrev given : Option Value → Bool
given none = false
given (some v) = is_truthy v

abbrev nested_image : Option Value → Option Value → Option Value
nested_image (some (Value.object d)) first = get "image_id" d
nested_image _ first = first

-- The image id of a successful result, its own or that of its visual verification.
unfoldable pub image_value : Option Fields → Option Value
image_value none = none
image_value (some d) =
    let first = get "image_id" d in
    if given first then first else nested_image (get "visual_verification" d) first

-- `none` stands for the TypeError of an image id that is no text.
unfoldable pub image_text : Option Value → Option (Option String)
image_text none = some none
image_text (some Value.null) = some none
image_text (some (Value.text t)) = some (some t)
image_text (some v) = none

abbrev pub error_value : ToolError → Value
error_value e = Value.object (
    Fields.field "error" (Value.text e.message)
      (Fields.field "type" (Value.text e.type) Fields.end))

abbrev data_value : Option Fields → Value
data_value none = Value.null
data_value (some d) = Value.object d

abbrev pub tool_message : Value → String → String → Option String → ChatMessage
tool_message v call_id name image_id = record {
  role = Role.tool;
  content = some (dumped v);
  tool_calls = [];
  tool_call_id = some call_id;
  name = some name;
  image_id = image_id;
}

module _ {W C : Type 0} where
  -- `tool_res.error.message` raises where there is no error.
  unfoldable pub error_of : ToolResult → M W C ToolError
  error_of res r = elim res.error [ none ↦ (raised no_error_object, r) | some e ↦ (ok e, r) ]

  unfoldable pub content_of : ToolResult → M W C Value
  unfolding error_of
  content_of res =
      if res.success
      then pure (data_value res.result_data)
      else (do e ← error_of res; pure (error_value e))

  unfoldable pub image_of : ToolResult → M W C (Option String)
  unfolding image_value image_text
  image_of res r =
      if res.success
      then elim (image_text (image_value res.result_data)) [
        | none ↦ (raised invalid_message, r)
        | some image ↦ (ok image, r)
      ]
      else (ok none, r)

  -- The result of a call in the conversation, the history and the event queue.
  unfoldable pub record_tool : ℕ → ToolCall → String → ToolResult → M W C (Unit {0})
  unfolding content_of image_of add_message add_result emit
  record_tool t call name res = do
    add_result res
    content ← content_of res
    image ← image_of res
    add_message (tool_message content call.call_id name image)
    emit (noted t HistoryKind.tool (if res.success then "OK" else "FAIL"))
    emit (tool_result_ready t res)

  -- The end of a turn in the state ERROR, which it has already entered; `report` is what it puts in
  -- the history and the event queue before the turn is closed.
  unfoldable pub close_turn : String → M W C (Unit {0}) → M W C (Option AgentResult)
  close_turn final_text report = do
    results ← gets (λ r. r.tool_results)
    let res : AgentResult = record {
      final_text = final_text;
      tool_results = results;
      state = AgentState.error;
    }
    modify (λ r. record r { last_result = some res })
    report
    modify (λ r. record r { turn_id = none })
    pure (some res)

  unfoldable pub report_error : ℕ → String → String → M W C (Unit {0})
  unfolding emit
  report_error t type message = do
    emit (noted t HistoryKind.error "ERROR")
    emit (error_event t type message)

  unfoldable pub fail_turn : ℕ → String → String → M W C (Option AgentResult)
  unfolding close_turn report_error go_to
  fail_turn t type message = do
    go_to AgentState.error
    close_turn (joined ("Error: " ∷ message ∷ [])) (report_error t type message)

  -- An image that is not found ends the turn.
  unfoldable pub miss_image : ℕ → String → M W C (Option AgentResult)
  unfolding close_turn report_error go_to
  miss_image t text = do
    go_to AgentState.error
    close_turn (joined ("Error (IMAGE_NOT_FOUND): " ∷ text ∷ []))
        (report_error t "IMAGE_NOT_FOUND" text)

  -- A tool that failed ends the turn.
  unfoldable pub fail_tool : ℕ → ToolResult → M W C (Option AgentResult)
  unfolding close_turn go_to emit error_of
  fail_tool t res = do
    go_to AgentState.error
    e ← error_of res
    close_turn (joined ("Tool failure: " ∷ e.message ∷ [])) (emit (error_event t e.type e.message))

  unfoldable pub after_call : ℕ → ToolCall → String → ToolResult → M W C (Option AgentResult)
  unfolding record_tool fail_tool go_to
  after_call t call name res = do
    record_tool t call name res
    if res.success then (do go_to AgentState.processing; pure none) else fail_tool t res

module _ {W C : Type 0} (sv : Services W C) where
  -- A tool call on the main thread.
  unfoldable pub execute_call : ToolCall → M W C ToolResult
  unfolding execute_and_verify
  execute_call call r =
      let (outcome, w) = execute_and_verify sv r.expected_visual r.prompt call none r.world in
      elim outcome [
        | returned res ↦ (ok res, record r { world = w })
        | Outcome.raised message ↦ (raised (not_executed message), record r { world = w })
      ]

  -- The next task of the turn, or its end where an image is not found.
  unfoldable pub send : ℕ → M W C (Option AgentResult)
  unfolding submit_task miss_image
  send t r =
      if sv.streams
      then elim (sv.build_context r.conversation r.world) [
        | done c ↦ (submit_task sv t (some c) >> pure none) r
        | unresolved text ↦ miss_image t text r
      ]
      else (submit_task sv t none >> pure none) r

  -- An approved call, up to the result; `none` says that the turn goes on.
  unfoldable pub run_call : ℕ → ToolCall → String → M W C (Option AgentResult)
  unfolding execute_call after_call go_to
  run_call t call name = do
    go_to AgentState.executing_tool
    res ← execute_call call
    after_call t call name res
