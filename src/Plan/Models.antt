-- ===== src/Plan/Models.antt =====
-- agent/plan_models.py: plans, their steps, and what a run of a plan records.
use blender_ai_sidebar.Prelude.{
  ℕ, Bool, true, false, String, List, [], ◌∷◌, map, Option, none, some, if◌then◌else◌,
}
use blender_ai_sidebar.Core.Text.{strip, is_blank}
use blender_ai_sidebar.Core.TextParts.{is_before}
use blender_ai_sidebar.Core.Json.{Value, Items, Fields}
use blender_ai_sidebar.Core.Types.{RiskLevel, ToolResult}

pub record PlanStep : Type 0 where
  pub step_id : String
  pub tool_name : String
  pub arguments : Fields
  pub description : String
  pub depends_on : List String
  pub expected_result : Option String

pub record Plan : Type 0 where
  pub plan_id : String
  pub title : String
  pub description : String
  pub steps : List PlanStep
  pub overall_risk : RiskLevel

abbrev pub any_blank : List String → Bool
any_blank [] = false
any_blank (d ∷ deps) = if is_blank d then true else any_blank deps

-- PlanStep.__post_init__ on fields of the declared types; `none` stands for a ValueError. Values
-- are immutable here, so the deep freeze changes nothing.
unfoldable pub make_step : PlanStep → Option PlanStep
make_step s =
    if is_blank s.step_id
    then none
    else if is_blank s.tool_name
    then none
    else if any_blank s.depends_on
    then none
    else some (record s {
      step_id = strip s.step_id;
      tool_name = strip s.tool_name;
      depends_on = map strip s.depends_on;
    })

-- __post_init__ of `Plan`, on fields of the declared types.
unfoldable pub make_plan : Plan → Option Plan
make_plan p =
    if is_blank p.plan_id
    then none
    else if is_blank p.title
    then none
    else some (record p { plan_id = strip p.plan_id; title = strip p.title })

-- The items of a dict sorted by their keys, a stable sort.
unfoldable pub insert_field : String → Value → Fields → Fields
unfolding is_before
insert_field k v Fields.end = Fields.field k v Fields.end
insert_field k v (Fields.field j w d) =
    let rest = insert_field k v d in
    if is_before k j then Fields.field k v (Fields.field j w d) else Fields.field j w rest

-- _deep_unfreeze_value
unfoldable mutual
  unfolding insert_field

  pub unfreeze : Value → Value
  unfreeze (Value.array vs) = Value.array (unfreeze_items vs)
  unfreeze (Value.object d) = Value.object (unfreeze_fields d)
  unfreeze v = v

  pub unfreeze_items : Items → Items
  unfreeze_items Items.nil = Items.nil
  unfreeze_items (Items.cons v vs) = Items.cons (unfreeze v) (unfreeze_items vs)

  pub unfreeze_fields : Fields → Fields
  unfreeze_fields Fields.end = Fields.end
  unfreeze_fields (Fields.field k v d) = insert_field k (unfreeze v) (unfreeze_fields d)

-- PlanStep.to_dict and Plan.to_dict
texts : List String → Items
texts [] = Items.nil
texts (s ∷ ss) = Items.cons (Value.text s) (texts ss)

optional_result : Option String → Fields
optional_result none = Fields.end
optional_result (some r) = Fields.field "expected_result" (Value.text r) Fields.end

unfoldable pub step_to_dict : PlanStep → Fields
unfolding texts optional_result unfreeze_fields
step_to_dict s = Fields.field "step_id" (Value.text s.step_id) (
    Fields.field "tool_name" (Value.text s.tool_name) (
      Fields.field "arguments" (Value.object (unfreeze_fields s.arguments)) (
        Fields.field "description" (Value.text s.description) (
          Fields.field "depends_on" (Value.array (texts s.depends_on))
            (optional_result s.expected_result)))))

steps_to_list : List PlanStep → Items
unfolding step_to_dict
steps_to_list [] = Items.nil
steps_to_list (s ∷ ss) = Items.cons (Value.object (step_to_dict s)) (steps_to_list ss)

abbrev pub risk_value : RiskLevel → String
risk_value RiskLevel.read_only = "READ_ONLY"
risk_value RiskLevel.low = "LOW"
risk_value RiskLevel.medium = "MEDIUM"
risk_value RiskLevel.high = "HIGH"
risk_value RiskLevel.critical = "CRITICAL"

unfoldable pub plan_to_dict : Plan → Fields
unfolding steps_to_list
plan_to_dict p = Fields.field "plan_id" (Value.text p.plan_id) (
    Fields.field "title" (Value.text p.title) (
      Fields.field "description" (Value.text p.description) (
        Fields.field "steps" (Value.array (steps_to_list p.steps))
          (Fields.field "overall_risk" (Value.text (risk_value p.overall_risk)) Fields.end))))

-- Runtime outcomes.
pub data PlanStepStatus : Type 0 where
  pending running completed failed skipped cancelled : PlanStepStatus

pub data PlanStatus : Type 0 where
  draft pending_approval approved executing completed failed rejected cancelled : PlanStatus

-- PlanStepExecutionResult, without the duration.
pub record StepResult : Type 0 where
  pub step_id : String
  pub tool_name : String
  pub status : PlanStepStatus
  pub tool_result : Option ToolResult

-- PlanExecutionSummary; the texts of its failure reason are the causes.
pub record Summary (Reason : Type 0) : Type 0 where
  pub plan_id : String
  pub status : PlanStatus
  pub steps_total : ℕ
  pub steps_completed : ℕ
  pub step_results : List StepResult
  pub failure_reason : Option Reason
