-- ===== src/Tests/Gate.antt =====
-- The approval gate at a plan that deletes, with a user who refuses.
use blender_ai_sidebar.Prelude.{
  ◌≡◌, refl, Bool, true, false, String, List, [], ◌∷◌, none, some, ◌==◌, string_comparable,
  Bool-cases, inl, inr, subst, contains,
}
use blender_ai_sidebar.Core.Text.{strip, is_blank}
use blender_ai_sidebar.Core.Json.{Items, Fields, items, keys, entries}
use blender_ai_sidebar.Tools.Registry.{Tool, Registry, get_tool}
use blender_ai_sidebar.Agent.Models.{ToolCall}
use blender_ai_sidebar.Agent.Policy.{ApprovalDecision, evaluate}
use blender_ai_sidebar.Plan.Models.{PlanStep, PlanStatus, PlanStepStatus, Summary}
use blender_ai_sidebar.Plan.Validator.Checks.{dict}
use blender_ai_sidebar.Plan.Executor.{Engine, call_of, execute_step}
use blender_ai_sidebar.Plan.Executor.Steps.{Reason, rejected, execute_plan}
use blender_ai_sidebar.Plan.Executor.Gate.{IsLetThrough, by_policy, by_user, execute_plan-keeps}
use blender_ai_sidebar.Tests.Plans.{delete_object, plan_of, step, run, shown}

abbrev refuse : PlanStep → Tool → List String → Bool × List String
refuse s tool log = (false, log)

abbrev guarded : Engine (List String)
guarded = record {
  execute_fn = some run;
  runtime = none;
  dispatcher = none;
  verifier = none;
  visual_verifier = none;
  uses_policy = true;
  approval_hook = some refuse;
  visual_expectation = λ s. none;
  should_verify_visually = λ s. false;
}

abbrev only_delete : Registry
only_delete = delete_object ∷ []

abbrev delete_plan : Fields
delete_plan = plan_of (Items.cons (step "a" "delete_object" Items.nil) Items.nil)

delete-gated :
    (name : String) (tool : Tool) (call : ToolCall)
    → get_tool name only_delete ≡ some tool
    → evaluate (some tool) call ≡ ApprovalDecision.require_approval
unfolding get_tool evaluate
delete-gated name tool call h = elim (Bool-cases ("delete_object" == name)) [
  | inl same ↦
      let is_delete : delete_object ≡ tool = cc (rw (same, get_tool) at h) in
      subst (λ t. evaluate (some t) call ≡ ApprovalDecision.require_approval) is_delete refl
  | inr other ↦ absurd (cc (rw (other, get_tool) at h))
]

nothing_runs :
    (s : PlanStep) (tool : Tool) (log : List String)
    → get_tool s.tool_name only_delete ≡ some tool
    → IsLetThrough guarded only_delete refuse refl refl s tool log
    → log ≡ []
    → (execute_step guarded s log).1 ≡ []
nothing_runs s tool log found (by_policy auto) h =
    absurd (cc (auto, delete-gated s.tool_name tool (call_of guarded s) found))
nothing_runs s tool log found (by_user v agreed) h = absurd cc

abbrev refused_end : Summary Reason × List String
refused_end = (
  record {
    plan_id = "p";
    status = PlanStatus.failed;
    steps_total = 1;
    steps_completed = 0;
    step_results =
        record {
          step_id = "a";
          tool_name = "delete_object";
          status = PlanStepStatus.cancelled;
          tool_result = none;
        }
        ∷ [];
    failure_reason = some (rejected "a");
  },
  [],
)

p_solid : is_blank "p" ≡ false
unfolding strip
p_solid = refl

delete_refused : execute_plan guarded shown only_delete "p" (dict delete_plan) [] ≡ some refused_end
unfolding execute_plan strip items keys entries get_tool contains
delete_refused = refl

execute_plan-keeps_example : refused_end.1 ≡ []
execute_plan-keeps_example =
    execute_plan-keeps guarded only_delete refuse refl refl (λ log. log ≡ []) (λ s tool log h. h)
      nothing_runs shown "p" p_solid (dict delete_plan) [] refused_end delete_refused refl
