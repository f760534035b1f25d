-- ===== src/Tests/Plans.antt =====
-- A registry, a plan and an engine, and the theorems on plans at them.
use blender_ai_sidebar.Prelude.{
  false, String, List, [], ◌∷◌, ◌++◌, Option, none, some, ◌≡◌, refl, map, contains, if◌then◌else◌,
  ◌==◌, string_comparable,
}
use blender_ai_sidebar.Core.Text.{strip, is_blank}
use blender_ai_sidebar.Core.Json.{Value, Items, Fields, items, keys, entries}
use blender_ai_sidebar.Core.Types.{Outcome, returned, RiskLevel, ok, fail}
use blender_ai_sidebar.Tools.Registry.{PropertySpec, Tool, Registry, get_tool}
use blender_ai_sidebar.Agent.Models.{ToolCall}
use blender_ai_sidebar.Plan.Models.{Summary}
use blender_ai_sidebar.Plan.Validator.{PlanValidationResult}
use blender_ai_sidebar.Plan.Validator.Checks.{dict, validate}
use blender_ai_sidebar.Plan.Validator.Accept.{Verdict}
use blender_ai_sidebar.Plan.Validator.Verdict.{validate-Verdict}
use blender_ai_sidebar.Plan.Executor.{Engine}
use blender_ai_sidebar.Plan.Executor.Steps.{Reason, execute_plan}
use blender_ai_sidebar.Plan.Executor.Results.{
  Ended, IsHonest, execute_plan-Ended, execute_plan-IsHonest,
}

abbrev name_spec : PropertySpec
name_spec = record {
  type = some "string";
  enum = none;
  min_items = none;
  max_items = none;
  items_type = none;
}

abbrev pub create_object : Tool
create_object = record {
  name = "create_object";
  risk_level = RiskLevel.low;
  get_risk_level = none;
  input_schema = record {
    required = "name" ∷ [];
    properties = ("name", name_spec) ∷ [];
    additional_properties = false;
  };
}

abbrev pub delete_object : Tool
delete_object = record {
  name = "delete_object";
  risk_level = RiskLevel.high;
  get_risk_level = none;
  input_schema = record {
    required = "name" ∷ [];
    properties = ("name", name_spec) ∷ [];
    additional_properties = false;
  };
}

abbrev pub tools : Registry
tools = create_object ∷ delete_object ∷ []

abbrev pub step : String → String → Items → Value
step step_id tool_name deps = Value.object (
    Fields.field "step_id" (Value.text step_id) (
      Fields.field "tool_name" (Value.text tool_name) (
        Fields.field "arguments"
          (Value.object (Fields.field "name" (Value.text step_id) Fields.end))
          (Fields.field "depends_on" (Value.array deps) Fields.end))))

abbrev pub plan_of : Items → Fields
plan_of steps =
    Fields.field "title" (Value.text " Scene ")
      (Fields.field "steps" (Value.array steps) Fields.end)

-- The first step depends on the second.
abbrev backward_plan : Fields
backward_plan = plan_of (
    Items.cons (step "b" "delete_object" (Items.cons (Value.text "a") Items.nil)) (
      Items.cons (step "a" "create_object" Items.nil)
        (Items.cons (step "c" "create_object" Items.nil) Items.nil)))

abbrev cyclic_plan : Fields
cyclic_plan = plan_of (
    Items.cons (step "a" "create_object" (Items.cons (Value.text "b") Items.nil))
      (Items.cons (step "b" "create_object" (Items.cons (Value.text "a") Items.nil)) Items.nil))

-- An engine that logs the names of the tools; deleting fails.
abbrev pub run : ToolCall → Option String → List String → Outcome × List String
run call desc log = (
  returned (
      if call.tool_name == "delete_object"
      then fail call.tool_name "OBJECT_NOT_FOUND" "no such object"
      else ok call.tool_name Fields.end),
  log ++ call.tool_name ∷ [],
)

abbrev pub engine : Engine (List String)
engine = record {
  execute_fn = some run;
  runtime = none;
  dispatcher = none;
  verifier = none;
  visual_verifier = none;
  uses_policy = false;
  approval_hook = none;
  visual_expectation = λ s. none;
  should_verify_visually = λ s. false;
}

abbrev pub shown : Value → String
shown v = "shown"

test_order :
    map
      (λ (r : PlanValidationResult). r.topological_order)
      (elim (validate tools "plan_1" (dict backward_plan)) [ none ↦ [] | some r ↦ r ∷ [] ])
    ≡ ("a" ∷ "b" ∷ "c" ∷ []) ∷ []
unfolding validate items strip contains get_tool keys entries
test_order = refl

plan_1_solid : is_blank "plan_1" ≡ false
unfolding strip
plan_1_solid = refl

validate-Verdict_example : Verdict tools (validate tools "plan_1" (dict backward_plan))
validate-Verdict_example = validate-Verdict tools "plan_1" plan_1_solid (dict backward_plan)

execute_plan-Ended_example :
    Ended engine tools [] (execute_plan engine shown tools "plan_1" (dict backward_plan) [])
execute_plan-Ended_example =
    execute_plan-Ended engine tools shown "plan_1" plan_1_solid (dict backward_plan) []

execute_plan-IsHonest_example :
    (end : Summary Reason × List String) × (execute_plan engine shown tools "plan_1"
        (dict backward_plan)
        []
      ≡ some end)
    × IsHonest end.0
execute_plan-IsHonest_example =
    execute_plan-IsHonest engine tools shown "plan_1" plan_1_solid (dict backward_plan) []
