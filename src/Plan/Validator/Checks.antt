-- ===== src/Plan/Validator/Checks.antt =====
-- Steps 4 to 8 of PlanValidator.validate, and `validate` itself.
use blender_ai_sidebar.Prelude.{
  ℕ, true, String, List, [], ◌∷◌, ◌++◌, map, Option, none, some, ◌==◌, nat_comparable,
  string_comparable, if◌then◌else◌, ltb, length, contains,
}
use blender_ai_sidebar.Core.Json.{Value, Fields, get, items}
use blender_ai_sidebar.Core.Types.{RiskLevel, max_risk_level}
use blender_ai_sidebar.Tools.Registry.{Registry, get_tool}
use blender_ai_sidebar.Plan.Models.{PlanStep, Plan, make_step, make_plan, plan_to_dict}
use blender_ai_sidebar.Plan.Graph.{Node, topological_sort}
use blender_ai_sidebar.Plan.Arguments.{validate_tool_arguments}
use blender_ai_sidebar.Plan.Validator.{
  max_plan_steps, PlanError, PlanValidationResult, invalid, Parsed, ids, text_at, parse_steps,
}

-- 4. Tool existence and argument schema, and the risks of the tools.
unfoldable pub tool_errors : Registry → PlanStep → List PlanError
unfolding validate_tool_arguments
tool_errors registry s = elim (get_tool s.tool_name registry) [
  | none ↦ PlanError.unknown_tool s.step_id s.tool_name ∷ []
  | some tool ↦
      map (PlanError.bad_argument s.step_id s.tool_name)
        (validate_tool_arguments tool.input_schema s.arguments)
]

unfoldable pub all_tool_errors : Registry → List PlanStep → List PlanError
unfolding tool_errors
all_tool_errors registry [] = []
all_tool_errors registry (s ∷ steps) = tool_errors registry s ++ all_tool_errors registry steps

unfoldable pub step_risks : Registry → List PlanStep → List RiskLevel
step_risks registry [] = []
step_risks registry (s ∷ steps) =
    elim (get_tool s.tool_name registry) [ none ↦ [] | some tool ↦ tool.risk_level ∷ [] ]
    ++ step_risks registry steps

-- 5. No self-dependency and no missing target.
unfoldable pub dependency_errors : List String → String → List String → List PlanError
dependency_errors all_ids step_id [] = []
dependency_errors all_ids step_id (d ∷ deps) =
    (if d == step_id
      then PlanError.self_dependency step_id ∷ []
      else if contains d all_ids
      then []
      else PlanError.missing_dependency step_id d ∷ [])
    ++ dependency_errors all_ids step_id deps

unfoldable pub all_dependency_errors : List String → List PlanStep → List PlanError
unfolding dependency_errors
all_dependency_errors all_ids [] = []
all_dependency_errors all_ids (s ∷ steps) =
    dependency_errors all_ids s.step_id s.depends_on ++ all_dependency_errors all_ids steps

abbrev pub nodes : List PlanStep → List Node
nodes steps = map (λ s. record { step_id = s.step_id; depends_on = s.depends_on }) steps

-- The steps that keep a positive in-degree, as declared; the text of the error sorts them.
cycle_steps : (String → ℕ) → List String → List String
cycle_steps deg [] = []
cycle_steps deg (s ∷ all_ids) =
    if ltb 0 (deg s) then s ∷ cycle_steps deg all_ids else cycle_steps deg all_ids

-- `parsed_steps[step_id]`
unfoldable pub find_step : String → List PlanStep → Option PlanStep
find_step step_id [] = none
find_step step_id (s ∷ steps) = if s.step_id == step_id then some s else find_step step_id steps

-- A PlanStep for each id in topological order.
unfoldable pub collect_steps : List PlanStep → List String → Option (List PlanStep)
unfolding find_step make_step
collect_steps steps [] = some []
collect_steps steps (step_id ∷ order) = elim (find_step step_id steps) [
  | none ↦ none
  | some s ↦ elim (make_step s) [
    | none ↦ none
    | some made ↦ elim (collect_steps steps order) [ none ↦ none | some rest ↦ some (made ∷ rest) ]
  ]
]

-- 7. and 8. The derived risk and the validated plan.
unfoldable pub finish :
    Registry → String → String → String → List PlanStep → List String → Option PlanValidationResult
unfolding collect_steps step_risks max_risk_level make_plan
finish registry plan_id title description steps order = elim (collect_steps steps order) [
  | none ↦ none
  | some plan_steps ↦
      elim (make_plan (record {
        plan_id = plan_id;
        title = title;
        description = description;
        steps = plan_steps;
        overall_risk = max_risk_level (step_risks registry steps);
      })) [
        | none ↦ none
        | some plan ↦
            some (record { valid = true; plan = some plan; topological_order = order; errors = [] })
      ]
]

-- 6. The sort. The fuel never runs out, so the first case does not arise.
unfoldable pub sort_steps :
    Registry → String → String → String → Parsed → Option PlanValidationResult
unfolding topological_sort cycle_steps finish
sort_steps registry plan_id title description p =
    elim (topological_sort p.step_order_index (nodes p.parsed_steps)) [
      | none ↦ none
      | some (deg, order) ↦
          if length order == length p.parsed_steps
          then finish registry plan_id title description p.parsed_steps order
          else invalid (PlanError.dependency_cycle (cycle_steps deg (ids p.parsed_steps)) ∷ [])
    ]

unfoldable pub check_steps :
    Registry → String → String → String → Parsed → Option PlanValidationResult
unfolding all_tool_errors all_dependency_errors sort_steps
check_steps registry plan_id title description p =
    elim (all_tool_errors registry p.parsed_steps
      ++ all_dependency_errors (ids p.parsed_steps) p.parsed_steps) [
        | e ∷ errors ↦ invalid (e ∷ errors)
        | [] ↦ sort_steps registry plan_id title description p
      ]

-- If structural errors occurred, the registry and the graph are not looked at.
unfoldable pub check_parsed :
    Registry → String → String → String → Parsed → Option PlanValidationResult
unfolding check_steps
check_parsed registry plan_id title description p = elim p.errors [
  | e ∷ errors ↦ invalid (e ∷ errors)
  | [] ↦ check_steps registry plan_id title description p
]

-- The bounds on the number of steps, and the loop over them.
unfoldable pub validate_steps :
    Registry → String → String → String → List PlanError → List Value → Option PlanValidationResult
unfolding check_parsed parse_steps
validate_steps registry plan_id title description errors raw_steps =
    if length raw_steps == 0
    then invalid (errors ++ PlanError.no_steps ∷ [])
    else if ltb max_plan_steps (length raw_steps)
    then invalid (errors ++ PlanError.too_many_steps (length raw_steps) ∷ [])
    else check_parsed registry plan_id title description (
        parse_steps 0 raw_steps
          (record { parsed_steps = []; step_order_index = λ s. 0; errors = errors }))

unfoldable pub read_plan_description : Option Value → String × List PlanError
read_plan_description none = ("", [])
read_plan_description (some (Value.text t)) = (t, [])
read_plan_description (some v) = ("", PlanError.bad_description ∷ [])

unfoldable pub read_title : Option String → String × List PlanError
read_title none = ("", PlanError.bad_title ∷ [])
read_title (some t) = (t, [])

unfoldable pub read_plan_id : String → Option String → String
read_plan_id fresh none = fresh
read_plan_id fresh (some plan_id) = plan_id

-- 2. The fields of the plan.
unfoldable pub validate_dict : Registry → String → Fields → Option PlanValidationResult
unfolding read_plan_description read_title read_plan_id validate_steps text_at
validate_dict registry fresh d =
    let (title, title_errors) = read_title (text_at "title" d) in
    let (description, desc_errors) = read_plan_description (get "description" d) in
    let plan_id = read_plan_id fresh (text_at "plan_id" d) in
    let errors = title_errors ++ desc_errors in
    elim (get "steps" d) [
      | none ↦ invalid (errors ++ PlanError.missing_steps ∷ [])
      | some Value.null ↦ invalid (errors ++ PlanError.missing_steps ∷ [])
      | some (Value.array vs) ↦ validate_steps registry plan_id title description errors (items vs)
      | some v ↦ invalid (errors ++ PlanError.steps_not_list ∷ [])
    ]

pub data RawPlan : Type 0 where
  json_text : Option Value → RawPlan
  plan_object : Plan → RawPlan
  dict : Fields → RawPlan
  other : RawPlan

unfoldable pub validate_value : Registry → String → Value → Option PlanValidationResult
unfolding validate_dict
validate_value registry fresh (Value.object d) = validate_dict registry fresh d
validate_value registry fresh v = invalid (PlanError.not_an_object ∷ [])

-- 1. The forms of the input.
unfoldable pub validate : Registry → String → RawPlan → Option PlanValidationResult
unfolding validate_dict validate_value plan_to_dict
validate registry fresh (json_text none) = invalid (PlanError.malformed_json ∷ [])
validate registry fresh (json_text (some v)) = validate_value registry fresh v
validate registry fresh (plan_object plan) = validate_dict registry fresh (plan_to_dict plan)
validate registry fresh (dict d) = validate_dict registry fresh d
validate registry fresh other = invalid (PlanError.bad_input_type ∷ [])
