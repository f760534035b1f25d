-- ===== src/Agent/Runtime.antt =====
-- agent/runtime.py: the state of AgentRuntime and what it works with.
--
-- Turn ids "turn_n" and approval ids are their numbers; `fresh` numbers the ids of uuid4. The
-- metrics, the logs, the texts of the history and the task list of the sidebar are left out. What
-- the runtime puts in the event queue, hands to the worker and notes in the history is one list of
-- effects, in order.
pub mod Action
pub mod Execute
pub mod Turns
pub mod Replies
pub mod Approvals
pub mod Plans
pub mod Events
pub mod Quiet
pub mod Calls
pub mod Answers
pub mod Executed
pub mod LowRisk
pub mod Verdicts
pub mod Proposals
pub mod Handlers
pub mod Closed
pub mod Gate
pub mod Rounds
pub mod Untouched
pub mod Cancelled
use blender_ai_sidebar.Prelude.{
  ℕ, zero, suc, ◌+◌, Bool, true, false, not, ◌&&◌, String, List, [], ◌∷◌, ◌++◌, Option, none, some,
  ◌==◌, string_comparable, if◌then◌else◌,
}
use blender_ai_sidebar.Core.Json.{Value, Fields}
use blender_ai_sidebar.Core.Types.{RiskLevel, Outcome, ToolResult}
use blender_ai_sidebar.Tools.Registry.{Tool, Registry}
use blender_ai_sidebar.Agent.Models.{ToolCall, ChatMessage}
use blender_ai_sidebar.Agent.Policy.{PendingApproval}
use blender_ai_sidebar.Agent.StateMachine.{AgentState}
use blender_ai_sidebar.Agent.PromptQueue.{PromptQueue, new_queue}
use blender_ai_sidebar.Agent.History.{HistoryKind}
use blender_ai_sidebar.Agent.Conversation.{SequenceError}
use blender_ai_sidebar.Plan.Models.{Summary}
use blender_ai_sidebar.Plan.Validator.{PlanError}
use blender_ai_sidebar.Plan.Executor.Steps.{Reason}
use blender_ai_sidebar.Plan.Review.{PlanReview}
use blender_ai_sidebar.Plan.Executor.{Verification}

-- ProviderResponse: `is_final` is not read by the runtime.
pub record Response : Type 0 where
  pub assistant_text : Option String
  pub tool_calls : List ToolCall

-- The turn id of an event: "turn_1" and so on, or "system", as a shutdown has it.
pub data TurnId : Type 0 where
  turn : ℕ → TurnId
  system : TurnId

-- The events of core/events.py and the provider's stream events, as far as the runtime reads them.
-- An event of another class may have no turn id.
pub data Event : Type 0 where
  streaming_text_delta : ℕ → String → Event
  text_delta : ℕ → String → Event
  tool_call_delta : ℕ → Event
  provider_error : ℕ → String → String → Event
  provider_completed : ℕ → Event
  provider_response_ready : ℕ → Option Response → Event
  agent_error : ℕ → String → String → Event
  shutdown_event : TurnId → Event
  unhandled : Option TurnId → Event

pub record AgentResult : Type 0 where
  pub final_text : String
  pub tool_results : List ToolResult
  pub state : AgentState

-- A task of the worker, with the context that was built for a provider that streams.
pub record Task (C : Type 0) : Type 0 where
  pub turn_id : ℕ
  pub prompt : String
  pub tool_results : List ToolResult
  pub context : Option C

pub data Effect (C : Type 0) : Type 0 where
  prompt_submitted : ℕ → String → Effect C
  approval_required : ℕ → ℕ → String → RiskLevel → Effect C
  approval_resolved : ℕ → ℕ → String → Bool → Effect C
  tool_result_ready : ℕ → ToolResult → Effect C
  final_response_ready : ℕ → String → List ToolResult → Effect C
  error_event : ℕ → String → String → Effect C
  cancel_requested : ℕ → Effect C
  shutdown_requested : Effect C
  submitted : Task C → Effect C
  noted : ℕ → HistoryKind → String → Effect C
  history_cleared : Effect C

-- `unresolved` stands for an ImageResolutionError with its text.
pub data Attempt (A : Type 0) : Type 0 where
  done : A → Attempt A
  unresolved : String → Attempt A

-- What a method of the runtime raises.
pub data Exception : Type 0 where
  invalid_transition : AgentState → AgentState → Exception
  no_pending_approval : Exception
  invalid_approval : Exception
  queue_full : Exception
  active_turn : Exception
  invalid_sequence : SequenceError → Exception
  invalid_message : Exception
  not_executed : String → Exception
  no_error_object : Exception
  validator_failed : Exception

-- The collaborators of the runtime and its constants. `execute` stands for the tools on the adapter;
-- `verify` is build_change_set_from_result and the verifier, with `none` where there is no change
-- set; `verify_image` and `verify_after_mutation` are of the visual verifier; `build_context` is
-- ContextBuilder.build with the tools of the registry; `compact` is the pruning and the compaction
-- of agent/memory.py; `show_*` and `describe` are texts, and `summary_dict` is to_dict of a summary.
pub record Services (W C : Type 0) : Type 0 where
  pub registry : Registry
  pub execute : Tool → Fields → W → Outcome × W
  pub show_list : List String → String
  pub show_nat : ℕ → String
  pub show_value : Value → String
  pub verify : Option (ToolCall → Fields → W → Option Verification × W)
  pub verify_image : Value → Option Value → W → Attempt Value × W
  pub verify_after_mutation : Verification → String → W → Attempt Value × W
  pub unresolved_image : String → String → Value
  pub should_verify_visually : String → Bool
  pub streams : Bool
  pub build_context : List ChatMessage → W → Attempt C
  pub last_tool_calls : W → List ToolCall
  pub compact : List ChatMessage → List ChatMessage
  pub describe : String → Fields → String
  pub new_plan_id : ℕ → String
  pub show_errors : List PlanError → String
  pub show_exception : Exception → String
  pub show_reason : Reason → String
  pub summary_dict : Summary Reason → Fields
  pub max_tool_rounds : ℕ
  pub max_plan_repairs : ℕ
  pub auto_approve_low_risk_plans : Bool

pub record Runtime (W C : Type 0) : Type 0 where
  pub state : AgentState
  pub turn_counter : ℕ
  pub turn_id : Option ℕ
  pub has_cancel_event : Bool
  pub cancelled : Bool
  pub prompt : String
  pub expected_visual : Option String
  pub tool_results : List ToolResult
  pub tool_round : ℕ
  pub plan_repairs : ℕ
  pub streaming_text : String
  pub conversation : List ChatMessage
  pub active_start : Option ℕ
  pub pending_approval : Option PendingApproval
  pub pending_review : Option PlanReview
  pub consumed : List ℕ
  pub last_result : Option AgentResult
  pub stale_events : ℕ
  pub prompt_queue : PromptQueue
  pub effects : List (Effect C)
  pub fresh : ℕ
  pub world : W

-- The constructor.
unfoldable pub new_runtime : {W C : Type 0} → W → Runtime W C
unfolding new_queue
new_runtime w = record {
  state = AgentState.idle;
  turn_counter = 0;
  turn_id = none;
  has_cancel_event = false;
  cancelled = false;
  prompt = "";
  expected_visual = none;
  tool_results = [];
  tool_round = 0;
  plan_repairs = 0;
  streaming_text = "";
  conversation = [];
  active_start = none;
  pending_approval = none;
  pending_review = none;
  consumed = [];
  last_result = none;
  stale_events = 0;
  prompt_queue = new_queue 20;
  effects = [];
  fresh = 0;
  world = w;
}
