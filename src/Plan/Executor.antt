-- ===== src/Plan/Executor.antt =====
-- agent/plan_executor.py: the execution of a validated plan. What executes a tool, verifies it and
-- asks the user stands in a record of functions over a world that they may change; times are left
-- out, and so are the details of an error. The verifiers and the approval hook raise nothing.
pub mod Steps
pub mod Refine
pub mod FailFast
pub mod Results
pub mod Dispatch
pub mod Gate
use blender_ai_sidebar.Prelude.{
  ℕ, zero, suc, Bool, true, false, ◌&&◌, not, String, List, [], ◌∷◌, ◌++◌, Option, none, some, ◌==◌,
  string_comparable, if◌then◌else◌, contains, length,
}
use blender_ai_sidebar.Core.Text.{joined}
use blender_ai_sidebar.Core.Json.{Value, Fields, get}
use blender_ai_sidebar.Core.Types.{Outcome, returned, raised, ToolError, ToolResult, ok, fail}
use blender_ai_sidebar.Tools.Registry.{Tool, Registry, get_tool}
use blender_ai_sidebar.Agent.Models.{ToolCall}
use blender_ai_sidebar.Agent.Policy.{ApprovalDecision, evaluate}
use blender_ai_sidebar.Plan.Models.{PlanStep, Plan, PlanStepStatus, PlanStatus, StepResult, Summary}
use blender_ai_sidebar.Plan.Validator.{PlanError, PlanValidationResult}
use blender_ai_sidebar.Plan.Validator.Checks.{RawPlan, validate}

-- The verdict of a verifier on the result of a step: whether it passed, its summary and its dict.
pub record Verification : Type 0 where
  pub passed : Bool
  pub summary : String
  pub as_dict : Value

-- The collaborators of the executor. `verifier` is `build_change_set_from_result` followed by
-- `verify`, with `none` where there is no change set; `visual_expectation`
-- looks a step up in the merged dict of the explicit expectations.
pub record Engine (W : Type 0) : Type 0 where
  pub execute_fn : Option (ToolCall → Option String → W → Outcome × W)
  pub runtime : Option (ToolCall → Option String → W → Outcome × W)
  pub dispatcher : Option (ToolCall → W → Outcome × W)
  pub verifier : Option (PlanStep → Fields → W → Option Verification × W)
  pub visual_verifier : Option (Verification → String → W → Value × W)
  pub uses_policy : Bool
  pub approval_hook : Option (PlanStep → Tool → W → Bool × W)
  pub visual_expectation : String → Option String
  pub should_verify_visually : String → Bool

-- `d[key] = v`
unfoldable pub with_field : String → Value → Fields → Fields
with_field key v Fields.end = Fields.field key v Fields.end
with_field key v (Fields.field k w d) =
    if k == key then Fields.field k v d else Fields.field k w (with_field key v d)

abbrev pub fields_or_empty : Option Fields → Fields
fields_or_empty none = Fields.end
fields_or_empty (some d) = d

module _ {W : Type 0} (engine : Engine W) where
  -- _resolve_visual_description
  resolve_visual_description : PlanStep → Option String
  resolve_visual_description s = elim (engine.visual_expectation s.step_id) [
    | some d ↦ some d
    | none ↦ elim s.expected_result [
      | none ↦ none
      | some e ↦ if not (e == "") && engine.should_verify_visually e then some e else none
    ]
  ]

  abbrev pub call_of : PlanStep → ToolCall
  call_of s = record {
    call_id = joined ("call_" ∷ s.step_id ∷ []);
    tool_name = s.tool_name;
    arguments = s.arguments;
  }

  -- The visual verification after a passed semantic one.
  add_visual : Option String → Verification → Fields → W → Fields × W
  add_visual none v d w = (d, w)
  add_visual (some desc) v d w = elim engine.visual_verifier [
    | none ↦ (d, w)
    | some look ↦
        if desc == ""
        then (d, w)
        else let (seen, w') = look v desc w in (with_field "visual_verification" seen d, w')
  ]

  verified : PlanStep → ToolResult → Option Verification → W → Outcome × W
  unfolding add_visual resolve_visual_description with_field
  verified s res none w = (returned res, w)
  verified s res (some v) w =
      if v.passed
      then (let (d, w') =
            add_visual (resolve_visual_description s) v
              (with_field "verification" v.as_dict (fields_or_empty res.result_data)) w in
          (returned (ok res.tool d), w'))
      else (
        returned (record {
          success = false;
          tool = res.tool;
          result_data = some (Fields.field "verification" v.as_dict Fields.end);
          error = some (record { type = "VERIFICATION_FAILED"; message = v.summary });
        }),
        w,
      )

  after_dispatch : PlanStep → Outcome → W → Outcome × W
  unfolding verified
  after_dispatch s (raised message) w = (raised message, w)
  after_dispatch s (returned res) w =
      if res.success
      then (elim engine.verifier [
        | none ↦ (returned res, w)
        | some verify ↦
            let (v, w') = verify s (fields_or_empty res.result_data) w in verified s res v w'
      ])
      else (returned res, w)

  -- _execute_step
  unfoldable pub execute_step : PlanStep → W → Outcome × W
  unfolding resolve_visual_description after_dispatch
  execute_step s w =
      if s.tool_name == "propose_plan"
      then (
        returned (
            fail s.tool_name "PROPOSE_PLAN_NESTING_FORBIDDEN" (
              joined (
                "Step '" ∷ s.step_id ∷ "': Tool 'propose_plan' cannot be executed as a plan step."
                ∷ []))),
        w,
      )
      else elim engine.execute_fn [
        | some f ↦ f (call_of s) (resolve_visual_description s) w
        | none ↦ elim engine.runtime [
          | some f ↦ f (call_of s) (resolve_visual_description s) w
          | none ↦ elim engine.dispatcher [
            | some f ↦ let (res, w') = f (call_of s) w in after_dispatch s res w'
            | none ↦ (
              returned (
                  fail s.tool_name "NO_DISPATCHER" (
                    joined (
                      "No dispatcher, runtime, or execute_fn available to execute step '"
                      ∷ s.step_id ∷ "'." ∷ []))),
              w,
            )
          ]
        ]
      ]

  -- `except Exception`: an exception becomes a failed result.
  abbrev caught : PlanStep → Outcome → ToolResult
  caught s (returned res) = res
  caught s (raised message) =
      fail s.tool_name "STEP_EXECUTION_EXCEPTION"
        (joined ("Unhandled exception during step '" ∷ s.step_id ∷ "': " ∷ message ∷ []))
