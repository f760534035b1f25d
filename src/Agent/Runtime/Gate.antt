-- ===== src/Agent/Runtime/Gate.antt =====
-- process_event: what an event runs without an answer of the user.
use blender_ai_sidebar.Prelude.{◌≡◌, true, String, Option, All}
use blender_ai_sidebar.Tools.Registry.{get_tool}
use blender_ai_sidebar.Agent.Models.{ToolCall}
use blender_ai_sidebar.Agent.Policy.{ApprovalDecision, evaluate}
use blender_ai_sidebar.Plan.Review.{PlanReview}
use blender_ai_sidebar.Agent.Runtime.{Runtime, Services, Event}
use blender_ai_sidebar.Agent.Runtime.Events.{process_event}
use blender_ai_sidebar.Agent.Runtime.Calls.{world_after}
use blender_ai_sidebar.Agent.Runtime.Executed.{PlanRan}
use blender_ai_sidebar.Agent.Runtime.LowRisk.{RunsLow}
use blender_ai_sidebar.Agent.Runtime.Closed.{process_event-Closed}

-- The worlds that are reached from `w` by calls that the policy approves, and, where the
-- configuration approves plans of a low risk, by plans whose steps all have a tool of the registry
-- with a risk level of READ_ONLY or LOW. The policy is not asked for the calls of such a plan.
pub data Auto {W C : Type 0} (sv : Services W C) (w : W) : W → Type 0 where
  untouched : Auto sv w w
  called :
      {w' : W} (call : ToolCall)
      → evaluate (get_tool call.tool_name sv.registry) call ≡ ApprovalDecision.auto_approve
      → (expected : Option String) (prompt : String) → Auto sv w w'
      → Auto sv w (world_after sv expected prompt call w')
  planned :
      {w' w'' : W} (review : PlanReview)
      → sv.auto_approve_low_risk_plans ≡ true
      → All (RunsLow sv.registry) review.plan.steps
      → (expected : Option String) (prompt : String) → PlanRan sv expected prompt review w' w''
      → Auto sv w w'
      → Auto sv w w''

module _ {W C : Type 0} (sv : Services W C) where
  -- The world after an event is reached from the world before it by calls that the approval policy
  -- approves, and, only where the configuration approves plans of a low risk, by running plans each
  -- of whose steps has a tool of the registry with a risk level of READ_ONLY or LOW.
  pub process_event-Auto :
      (event : Event) (r : Runtime W C) → Auto sv r.world (process_event sv event r).1.world
  process_event-Auto event r =
      process_event-Closed sv (Auto sv r.world)
        (λ call free expected prompt w before. Auto.called call free expected prompt before)
        (λ review free expected prompt w w' ran before.
          Auto.planned review free.0 free.1 expected prompt ran before)
        event r Auto.untouched
