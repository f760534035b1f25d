-- ===== src/Plan/Review.antt =====
-- agent/plan_review.py: the review of a validated plan that the user approves as a whole.
use blender_ai_sidebar.Prelude.{
  ℕ, not, String, List, map, Option, none, some, ◌==◌, string_comparable, if◌then◌else◌, length,
}
use blender_ai_sidebar.Core.Text.{strip}
use blender_ai_sidebar.Core.Json.{Fields}
use blender_ai_sidebar.Core.Types.{RiskLevel, max_risk_level}
use blender_ai_sidebar.Tools.Registry.{Registry, get_tool}
use blender_ai_sidebar.Plan.Models.{PlanStep, Plan}
use blender_ai_sidebar.Plan.Validator.{PlanError}
use blender_ai_sidebar.Plan.Validator.Checks.{RawPlan, validate}

pub record PlanReviewStep : Type 0 where
  pub step_id : String
  pub tool_name : String
  pub description : String
  pub risk_level : RiskLevel

-- PlanReview, without the time. Approval ids are numbers here, and so are turn ids.
pub record PlanReview : Type 0 where
  pub approval_id : ℕ
  pub turn_id : ℕ
  pub plan : Plan
  pub title : String
  pub description : String
  pub steps_total : ℕ
  pub steps : List PlanReviewStep
  pub overall_risk : RiskLevel
  pub call_id : String

unfoldable pub step_risk : Registry → PlanStep → RiskLevel
step_risk registry s = elim (get_tool s.tool_name registry) [
  | none ↦ RiskLevel.high
  | some tool ↦ tool.risk_level
]

-- `describe` is create_human_description of the policy.
unfoldable pub review_step : (String → Fields → String) → Registry → PlanStep → PlanReviewStep
unfolding step_risk
review_step describe registry s = record {
  step_id = s.step_id;
  tool_name = s.tool_name;
  description =
      if s.description == "" then describe s.tool_name s.arguments else strip s.description;
  risk_level = step_risk registry s;
}

unfoldable pub make_review :
    (String → Fields → String) → Registry → ℕ → String → ℕ → Plan → PlanReview
unfolding review_step step_risk max_risk_level
make_review describe registry turn_id call_id approval_id plan = record {
  approval_id = approval_id;
  turn_id = turn_id;
  plan = plan;
  title = plan.title;
  description = plan.description;
  steps_total = length plan.steps;
  steps = map (review_step describe registry) plan.steps;
  overall_risk = max_risk_level (map (step_risk registry) plan.steps);
  call_id = call_id;
}

pub data Reviewed : Type 0 where
  reviewed : PlanReview → Reviewed
  invalid_plan : List PlanError → Reviewed

-- build_plan_review. `none` stands for an exception of the validator, which does not arise.
unfoldable pub build_plan_review :
    (String → Fields → String) → Registry → String → ℕ → String → ℕ → RawPlan → Option Reviewed
unfolding validate make_review
build_plan_review describe registry new_plan_id turn_id call_id approval_id raw =
    elim (validate registry new_plan_id raw) [
      | none ↦ none
      | some result ↦
          if not result.valid then some (invalid_plan result.errors) else elim result.plan [
            | none ↦ some (invalid_plan result.errors)
            | some plan ↦
                some (reviewed (make_review describe registry turn_id call_id approval_id plan))
          ]
    ]
