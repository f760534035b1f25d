-- ===== src/Plan/Validator.antt =====
-- PlanValidator.validate of agent/plan_validator.py. `none` stands for an exception that escapes,
-- and each error text is a constructor. Of a plan given as a JSON text the value that `json.loads`
-- makes of it is taken, or `none` for its failure; the random part of a new plan id is an argument.
pub mod Checks
pub mod Parsing
pub mod Collect
pub mod Sound
pub mod Accept
pub mod Verdict
pub mod Complete
use blender_ai_sidebar.Prelude.{
  ℕ, zero, suc, ◌+◌, Bool, true, false, String, List, [], ◌∷◌, ◌++◌, map, Option, none, some, ◌==◌,
  nat_comparable, string_comparable, if◌then◌else◌, ltb, length, contains, not, ◌||◌,
}
use blender_ai_sidebar.Core.Text.{strip, is_blank}
use blender_ai_sidebar.Core.Json.{Value, Fields, get, items}
use blender_ai_sidebar.Core.Types.{RiskLevel, max_risk_level}
use blender_ai_sidebar.Tools.Registry.{Tool, Registry, get_tool}
use blender_ai_sidebar.Plan.Models.{PlanStep, Plan, make_step, make_plan, plan_to_dict}
use blender_ai_sidebar.Plan.Graph.{Node, update, topological_sort}
use blender_ai_sidebar.Plan.Arguments.{ArgumentError, validate_tool_arguments}

abbrev pub max_plan_steps : ℕ
max_plan_steps = 20

pub data PlanError : Type 0 where
  malformed_json bad_input_type not_an_object : PlanError
  bad_title bad_description missing_steps steps_not_list no_steps : PlanError
  too_many_steps step_not_dict bad_step_id : ℕ → PlanError
  duplicate_step_id bad_tool_name nested_plan arguments_not_dict : String → PlanError
  bad_step_description depends_on_not_list bad_dependency bad_expected_result : String → PlanError
  unknown_tool : String → String → PlanError
  bad_argument : String → String → ArgumentError → PlanError
  self_dependency : String → PlanError
  missing_dependency : String → String → PlanError
  dependency_cycle : List String → PlanError

pub record PlanValidationResult : Type 0 where
  pub valid : Bool
  pub plan : Option Plan
  pub topological_order : List String
  pub errors : List PlanError

abbrev pub invalid : List PlanError → Option PlanValidationResult
invalid errors =
    some (record { valid = false; plan = none; topological_order = []; errors = errors })

-- The state of the loop over the raw steps: `parsed_steps`, `step_order_index` and `errors`.
pub record Parsed : Type 0 where
  pub parsed_steps : List PlanStep
  pub step_order_index : String → ℕ
  pub errors : List PlanError

abbrev pub ids : List PlanStep → List String
ids steps = map (λ s. s.step_id) steps

abbrev add_error : PlanError → Parsed → Parsed
add_error e p = record p { errors = p.errors ++ e ∷ [] }

-- The text under a key, if it is there and not blank.
clean_text : Option Value → Option String
clean_text (some (Value.text t)) = if is_blank t then none else some (strip t)
clean_text _ = none

unfoldable pub text_at : String → Fields → Option String
unfolding clean_text
text_at key d = clean_text (get key d)

-- The dependency list of a step: the clean ids, and an error for each other item.
clean_deps : String → List Value → List String × List PlanError
clean_deps step_id [] = ([], [])
clean_deps step_id (Value.text d ∷ deps) =
    let (clean, errors) = clean_deps step_id deps in
    if is_blank d
    then (clean, PlanError.bad_dependency step_id ∷ errors)
    else (strip d ∷ clean, errors)
clean_deps step_id (v ∷ deps) =
    let (clean, errors) = clean_deps step_id deps in
    (clean, PlanError.bad_dependency step_id ∷ errors)

read_deps : String → Option Value → List String × List PlanError
unfolding clean_deps
read_deps step_id none = ([], [])
read_deps step_id (some (Value.array vs)) = clean_deps step_id (items vs)
read_deps step_id (some v) = ([], PlanError.depends_on_not_list step_id ∷ [])

read_description : String → Option Value → String × List PlanError
read_description step_id none = ("", [])
read_description step_id (some (Value.text t)) = (t, [])
read_description step_id (some v) = ("", PlanError.bad_step_description step_id ∷ [])

read_expected : String → Option Value → Option String × List PlanError
read_expected step_id none = (none, [])
read_expected step_id (some Value.null) = (none, [])
read_expected step_id (some (Value.text t)) = (some t, [])
read_expected step_id (some v) = (none, PlanError.bad_expected_result step_id ∷ [])

-- `none` where the arguments are no dict.
read_arguments : Option Value → Option Fields
read_arguments none = some Fields.end
read_arguments (some Value.null) = some Fields.end
read_arguments (some (Value.object d)) = some d
read_arguments (some v) = none

-- The rest of the loop body, from the description on.
add_step : ℕ → String → String → Fields → Fields → Parsed → Parsed
unfolding read_deps read_description read_expected
add_step idx step_id tool_name arguments d p =
    let (desc, desc_errors) = read_description step_id (get "description" d) in
    let (deps, dep_errors) = read_deps step_id (get "depends_on" d) in
    let (expected, expected_errors) = read_expected step_id (get "expected_result" d) in
    record {
      parsed_steps =
          p.parsed_steps
          ++ record {
            step_id = step_id;
            tool_name = tool_name;
            arguments = arguments;
            description = desc;
            depends_on = deps;
            expected_result = expected;
          }
            ∷ [];
      step_order_index = update p.step_order_index step_id idx;
      errors = p.errors ++ (desc_errors ++ (dep_errors ++ expected_errors));
    }

parse_arguments : ℕ → String → String → Fields → Parsed → Parsed
unfolding add_step read_arguments
parse_arguments idx step_id tool_name d p = elim (read_arguments (get "arguments" d)) [
  | none ↦ add_error (PlanError.arguments_not_dict step_id) p
  | some arguments ↦ add_step idx step_id tool_name arguments d p
]

parse_tool : ℕ → String → Fields → Parsed → Parsed
unfolding parse_arguments text_at
parse_tool idx step_id d p = elim (text_at "tool_name" d) [
  | none ↦ add_error (PlanError.bad_tool_name step_id) p
  | some tool_name ↦
      if tool_name == "propose_plan"
      then add_error (PlanError.nested_plan step_id) p
      else parse_arguments idx step_id tool_name d p
]

parse_step : ℕ → Value → Parsed → Parsed
unfolding parse_tool
parse_step idx (Value.object d) p = elim (text_at "step_id" d) [
  | none ↦ add_error (PlanError.bad_step_id idx) p
  | some step_id ↦
      if contains step_id (ids p.parsed_steps)
      then add_error (PlanError.duplicate_step_id step_id) p
      else parse_tool idx step_id d p
]
parse_step idx v p = add_error (PlanError.step_not_dict idx) p

unfoldable pub parse_steps : ℕ → List Value → Parsed → Parsed
unfolding parse_step
parse_steps idx [] p = p
parse_steps idx (v ∷ vs) p = parse_steps (suc idx) vs (parse_step idx v p)
