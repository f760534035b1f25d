-- ===== src/Plan/Validator/Verdict.antt =====
-- What `validate` returns, on every input.
use blender_ai_sidebar.Prelude.{
  ◌≤◌, false, String, List, [], ◌∷◌, ◌++◌, Option, none, some, ◌==◌, nat_comparable,
  string_comparable, ltb, length, ◌≡◌, refl, arith, count, Bool-cases, inl, inr, append-eq_nil,
}
use blender_ai_sidebar.Core.Text.{is_blank}
use blender_ai_sidebar.Core.Json.{Value, Fields, get, items}
use blender_ai_sidebar.Tools.Registry.{Registry}
use blender_ai_sidebar.Plan.Models.{plan_to_dict}
use blender_ai_sidebar.Plan.Validator.{
  max_plan_steps, PlanError, invalid, Parsed, text_at, parse_steps,
}
use blender_ai_sidebar.Plan.Validator.Checks.{
  check_steps, check_parsed, validate_steps, read_plan_description, read_title, read_plan_id,
  validate_dict, RawPlan, json_text, plan_object, dict, other, validate_value, validate,
}
use blender_ai_sidebar.Plan.Validator.Parsing.{
  IsClean, IsWellParsed, parse_steps-IsWellParsed, parse_steps-length, parse_steps-errors,
  text_at-IsClean,
}
use blender_ai_sidebar.Plan.Validator.Accept.{Verdict, rejected, check_steps-Verdict}

-- Where the loop left no error, the title is there.
module _ (registry : Registry) (plan_id title description : String) (p : Parsed)
    (w : IsWellParsed p) (short : length p.parsed_steps ≤ max_plan_steps) where
  parsed-Verdict :
      (es : List PlanError)
      → (es ≡ [] → (is_blank plan_id ≡ false) × (is_blank title ≡ false))
      → Verdict registry (elim es [
        | e ∷ errors ↦ invalid (e ∷ errors)
        | [] ↦ check_steps registry plan_id title description p
      ])
  parsed-Verdict (e ∷ es) solid = rejected registry e es
  parsed-Verdict [] solid =
      check_steps-Verdict registry plan_id title description (solid refl).0 (solid refl).1 p w short

snoc-Rejected :
    (registry : Registry) (es : List PlanError) (e : PlanError)
    → Verdict registry (invalid (es ++ e ∷ []))
snoc-Rejected registry [] e = rejected registry e []
snoc-Rejected registry (x ∷ es) e = rejected registry x (es ++ e ∷ [])

validate_steps-Verdict :
    (registry : Registry) (plan_id title description : String) (errors : List PlanError)
    (raw_steps : List Value)
    → (errors ≡ [] → (is_blank plan_id ≡ false) × (is_blank title ≡ false))
    → Verdict registry (validate_steps registry plan_id title description errors raw_steps)
unfolding validate_steps check_parsed count
validate_steps-Verdict registry plan_id title description errors raw_steps solid =
    let start : Parsed = record { parsed_steps = []; step_order_index = λ s. 0; errors = errors } in
    elim (Bool-cases (length raw_steps == 0)) [
      | inl none_given ↦ rw none_given (snoc-Rejected registry errors _)
      | inr some_given ↦ rw some_given (elim (Bool-cases (ltb max_plan_steps (length raw_steps))) [
        | inl many ↦ rw many (snoc-Rejected registry errors _)
        | inr few ↦ rw few (
            parsed-Verdict registry plan_id title description (parse_steps 0 raw_steps start)
              (parse_steps-IsWellParsed 0 raw_steps start
                (record { distinct = λ s. omega arith; clean_steps = tt }))
              (ground (arith, parse_steps-length 0 raw_steps start))
              (parse_steps 0 raw_steps start).errors
              (λ h. solid (parse_steps-errors 0 raw_steps start h)))
      ])
    ]

title_solid_of :
    (o : Option String)
    → ((t : String) → o ≡ some t → IsClean t)
    → (read_title o).1 ≡ []
    → is_blank (read_title o).0 ≡ false
unfolding read_title
title_solid_of none clean h = cc
title_solid_of (some t) clean h = (clean t refl).not_blank

id_solid_of :
    (fresh : String) (o : Option String)
    → is_blank fresh ≡ false
    → ((t : String) → o ≡ some t → IsClean t)
    → is_blank (read_plan_id fresh o) ≡ false
unfolding read_plan_id
id_solid_of fresh none solid clean = solid
id_solid_of fresh (some t) solid clean = (clean t refl).not_blank

module _ (registry : Registry) (fresh : String) (fresh_solid : is_blank fresh ≡ false) where
  steps-Verdict :
      (plan_id title description : String) (errors : List PlanError) (o : Option Value)
      → (errors ≡ [] → (is_blank plan_id ≡ false) × (is_blank title ≡ false))
      → Verdict registry (elim o [
        | none ↦ invalid (errors ++ PlanError.missing_steps ∷ [])
        | some Value.null ↦ invalid (errors ++ PlanError.missing_steps ∷ [])
        | some (Value.array vs) ↦
            validate_steps registry plan_id title description errors (items vs)
        | some v ↦ invalid (errors ++ PlanError.steps_not_list ∷ [])
      ])
  steps-Verdict plan_id title description errors (some (Value.array vs)) solid =
      validate_steps-Verdict registry plan_id title description errors (items vs) solid
  steps-Verdict plan_id title description errors none solid = snoc-Rejected registry errors _
  steps-Verdict plan_id title description errors _ solid = snoc-Rejected registry errors _

  validate_dict-Verdict : (d : Fields) → Verdict registry (validate_dict registry fresh d)
  unfolding validate_dict
  validate_dict-Verdict d =
      steps-Verdict (read_plan_id fresh (text_at "plan_id" d)) (read_title (text_at "title" d)).0
        (read_plan_description (get "description" d)).0
        ((read_title (text_at "title" d)).1 ++ (read_plan_description (get "description" d)).1)
        (get "steps" d)
        λ h. (
          id_solid_of fresh (text_at "plan_id" d) fresh_solid
              (λ t e. text_at-IsClean "plan_id" d e),
          title_solid_of (text_at "title" d) (λ t e. text_at-IsClean "title" d e)
              (append-eq_nil (read_title (text_at "title" d)).1 _ h).0,
        )

  validate_value-Verdict : (v : Value) → Verdict registry (validate_value registry fresh v)
  unfolding validate_value
  validate_value-Verdict (Value.object d) = validate_dict-Verdict d
  validate_value-Verdict _ = rejected registry _ _

  -- Whatever plan is given, under a new plan id that is not blank, `validate` returns: either a
  -- valid result, without errors and with a plan of at most 20 steps in which all step ids differ,
  -- each step stands behind the steps that it depends on, no step is a nested plan, each tool is
  -- registered, admits the arguments and is no riskier than the plan, and whose ids are the
  -- returned topological order; or an invalid result without a plan and with at least one error.
  pub validate-Verdict : (raw : RawPlan) → Verdict registry (validate registry fresh raw)
  unfolding validate
  validate-Verdict (json_text none) = rejected registry _ _
  validate-Verdict (json_text (some v)) = validate_value-Verdict v
  validate-Verdict (plan_object plan) = validate_dict-Verdict (plan_to_dict plan)
  validate-Verdict (dict d) = validate_dict-Verdict d
  validate-Verdict other = rejected registry _ _
