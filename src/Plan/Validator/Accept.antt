-- ===== src/Plan/Validator/Accept.antt =====
-- What acceptance and rejection mean, and that the stages behind the parsing of the steps come to
-- one of them.
use blender_ai_sidebar.Prelude.{
  ℕ, ◌≤◌, true, false, String, List, [], ◌∷◌, ◌++◌, Option, some, ◌==◌, nat_comparable,
  string_comparable, length, ◌≡◌, refl, arith, IsDistinct, count, Bool-cases, inl, inr, All, ap,
  ◌⊎◌, sym, length-map, append-eq_nil,
}
use blender_ai_sidebar.Core.Text.{strip, is_blank}
use blender_ai_sidebar.Core.Types.{RiskLevel, max_risk_level}
use blender_ai_sidebar.Tools.Registry.{Registry}
use blender_ai_sidebar.Plan.Models.{PlanStep, Plan, make_plan}
use blender_ai_sidebar.Plan.Graph.{step_ids, topological_sort}
use blender_ai_sidebar.Plan.Graph.Loop.{Inv}
use blender_ai_sidebar.Plan.Graph.Order.{topological_sort-Inv, order-le}
use blender_ai_sidebar.Plan.Validator.{
  max_plan_steps, PlanError, PlanValidationResult, invalid, Parsed, ids,
}
use blender_ai_sidebar.Plan.Validator.Checks.{
  all_tool_errors, step_risks, all_dependency_errors, nodes, finish, sort_steps, check_steps,
}
use blender_ai_sidebar.Plan.Validator.Parsing.{IsCleanStep, IsWellParsed}
use blender_ai_sidebar.Plan.Validator.Collect.{
  DependenciesFirst, Collected, collect_steps-Collected,
}
use blender_ai_sidebar.Plan.Validator.Sound.{
  ToolFits, IsCovered, all_tool_errors-ToolFits, max_risk_level-IsCovered,
}

-- What an accepted step satisfies.
pub record IsGoodStep (registry : Registry) (risk : RiskLevel) (s : PlanStep) : Type 0 where
  pub clean : IsCleanStep s
  pub fits : ToolFits registry s
  pub covered : IsCovered registry risk s

pub record IsExecutable (registry : Registry) (plan : Plan) : Type 0 where
  pub distinct : IsDistinct (ids plan.steps)
  pub dependencies_first : DependenciesFirst [] plan.steps
  pub good_steps : All (IsGoodStep registry plan.overall_risk) plan.steps
  pub bounded : length plan.steps ≤ max_plan_steps

-- A valid result has an executable plan, its order and no errors.
pub record Accepted (registry : Registry) (o : Option PlanValidationResult) : Type 0 where
  pub plan : Plan
  pub returned :
      o
      ≡ some (record {
        valid = true;
        plan = some plan;
        topological_order = ids plan.steps;
        errors = [];
      })
  pub executable : IsExecutable registry plan

-- An invalid result has no plan and at least one error.
pub record Rejected (o : Option PlanValidationResult) : Type 0 where
  pub error : PlanError
  pub more : List PlanError
  pub returned : o ≡ invalid (error ∷ more)

abbrev pub Verdict : Registry → Option PlanValidationResult → Type 0
Verdict registry o = Accepted registry o ⊎ Rejected o

abbrev pub rejected :
    (registry : Registry) (e : PlanError) (es : List PlanError)
    → Verdict registry (invalid (e ∷ es))
rejected registry e es = inr (record { error = e; more = es; returned = refl })

pub ids-nodes : (steps : List PlanStep) → step_ids (nodes steps) ≡ ids steps
ids-nodes [] = refl
ids-nodes (s ∷ steps) = ap (λ l. s.step_id ∷ l) (ids-nodes steps)

zip_good :
    (registry : Registry) (risk : RiskLevel) (steps : List PlanStep)
    → All IsCleanStep steps
    → All (ToolFits registry) steps
    → All (IsCovered registry risk) steps
    → All (IsGoodStep registry risk) steps
zip_good registry risk [] c f r = tt
zip_good registry risk (s ∷ steps) c f r =
    (record { clean = c.0; fits = f.0; covered = r.0 }, zip_good registry risk steps c.1 f.1 r.1)

module _ (registry : Registry) (plan_id title description : String)
    (id_solid : is_blank plan_id ≡ false) (title_solid : is_blank title ≡ false) where
  finish-Accepted :
      (steps : List PlanStep) (order : List String)
      → IsDistinct order
      → length order ≤ max_plan_steps
      → Collected (IsGoodStep registry (max_risk_level (step_risks registry steps))) steps [] order
      → Accepted registry (finish registry plan_id title description steps order)
  unfolding finish
  finish-Accepted steps order distinct short c = record {
    plan = record {
      plan_id = strip plan_id;
      title = strip title;
      description = description;
      steps = c.made;
      overall_risk = max_risk_level (step_risks registry steps);
    };
    returned =
        rw (c.collected, finish)
          (rw (id_solid, make_plan)
            (rw title_solid λ i. some (record {
              valid = true;
              plan = some (record {
                plan_id = strip plan_id;
                title = strip title;
                description = description;
                steps = c.made;
                overall_risk = max_risk_level (step_risks registry steps);
              });
              topological_order = sym c.in_order i;
              errors = [];
            })));
    executable = record {
      distinct = rw c.in_order distinct;
      dependencies_first = c.first;
      good_steps = c.all_hold;
      bounded =
          omega (arith, ap length c.in_order, length-map (λ (s : PlanStep). s.step_id) c.made);
    };
  }

  module _ (p : Parsed) (w : IsWellParsed p) (short : length p.parsed_steps ≤ max_plan_steps)
      (fits : All (ToolFits registry) p.parsed_steps) where
    pub nodes-IsDistinct : IsDistinct (step_ids (nodes p.parsed_steps))
    nodes-IsDistinct = rw ids-nodes w.distinct

    -- With as many steps in the order as in the plan, the plan is accepted.
    pub sorted-Accepted :
        (deg : String → ℕ) (order : List String)
        → Inv (nodes p.parsed_steps) deg [] order
        → topological_sort p.step_order_index (nodes p.parsed_steps) ≡ some (deg, order)
        → (length order == length p.parsed_steps) ≡ true
        → Accepted registry (sort_steps registry plan_id title description p)
    unfolding sort_steps
    sorted-Accepted deg order inv e all =
        let known =
          order-le p.step_order_index (nodes p.parsed_steps) nodes-IsDistinct deg order inv in
        let risk = max_risk_level (step_risks registry p.parsed_steps) in
        rw (e, sort_steps)
          (rw all (
            finish-Accepted p.parsed_steps order (λ s. omega (arith, known s, nodes-IsDistinct s))
              (ground (arith, all, short))
              (collect_steps-Collected (IsGoodStep registry risk) p.parsed_steps [] order
                (zip_good registry risk p.parsed_steps w.clean_steps fits
                  (max_risk_level-IsCovered registry p.parsed_steps))
                (λ s g. g.clean) inv.follows
                (λ s m. omega (arith, known s, ap (count s) (ids-nodes p.parsed_steps))))))

    sorted-Verdict :
        (deg : String → ℕ) (order : List String)
        → Inv (nodes p.parsed_steps) deg [] order
        → topological_sort p.step_order_index (nodes p.parsed_steps) ≡ some (deg, order)
        → Verdict registry (sort_steps registry plan_id title description p)
    unfolding sort_steps
    sorted-Verdict deg order inv e = elim (Bool-cases (length order == length p.parsed_steps)) [
      | inr fewer ↦ rw (e, sort_steps) (rw fewer (rejected registry _ _))
      | inl all ↦ inl (sorted-Accepted deg order inv e all)
    ]

    sort_steps-Verdict : Verdict registry (sort_steps registry plan_id title description p)
    sort_steps-Verdict =
        let (end, e, inv) =
          topological_sort-Inv p.step_order_index (nodes p.parsed_steps) nodes-IsDistinct in
        sorted-Verdict end.0 end.1 inv e

  module _ (p : Parsed) (w : IsWellParsed p) (short : length p.parsed_steps ≤ max_plan_steps) where
    errors-Verdict :
        (es : List PlanError)
        → all_tool_errors registry p.parsed_steps
            ++ all_dependency_errors (ids p.parsed_steps) p.parsed_steps
          ≡ es
        → Verdict registry (elim es [
          | e ∷ errors ↦ invalid (e ∷ errors)
          | [] ↦ sort_steps registry plan_id title description p
        ])
    errors-Verdict (e ∷ errors) h = rejected registry e errors
    errors-Verdict [] h = sort_steps-Verdict p w short (
        all_tool_errors-ToolFits registry p.parsed_steps
          (append-eq_nil (all_tool_errors registry p.parsed_steps) _ h).0)

    pub check_steps-Verdict : Verdict registry (check_steps registry plan_id title description p)
    unfolding check_steps
    check_steps-Verdict = errors-Verdict _ refl
