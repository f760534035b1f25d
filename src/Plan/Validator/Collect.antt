-- ===== src/Plan/Validator/Collect.antt =====
-- The steps of the validated plan: those that were parsed, in the order of the sort.
use blender_ai_sidebar.Prelude.{
  ◌<◌, false, String, List, [], ◌∷◌, ◌++◌, map, some, ◌==◌, nat_comparable, string_comparable, ◌≡◌,
  refl, arith, eq_iff, count, Bool-cases, inl, inr, All,
}
use blender_ai_sidebar.Core.Text.{strip}
use blender_ai_sidebar.Plan.Models.{PlanStep, make_step, any_blank}
use blender_ai_sidebar.Plan.Graph.Edges.{edges}
use blender_ai_sidebar.Plan.Graph.Loop.{Follows}
use blender_ai_sidebar.Plan.Validator.{ids}
use blender_ai_sidebar.Plan.Validator.Checks.{nodes, find_step, collect_steps}
use blender_ai_sidebar.Plan.Validator.Parsing.{IsClean, IsCleanStep}

-- Each step stands behind `seen` and the steps that it depends on.
abbrev pub DependenciesFirst : List String → List PlanStep → Type 0
DependenciesFirst seen [] = Unit
DependenciesFirst seen (s ∷ steps) =
    ((d : String) → 0 < count d s.depends_on → 0 < count d seen)
    × DependenciesFirst (seen ++ s.step_id ∷ []) steps

any_blank-IsClean : (deps : List String) → All IsClean deps → any_blank deps ≡ false
any_blank-IsClean [] h = refl
any_blank-IsClean (d ∷ deps) h = rw h.0.not_blank (any_blank-IsClean deps h.1)

map-strip-IsClean : (deps : List String) → All IsClean deps → map strip deps ≡ deps
map-strip-IsClean [] h = refl
map-strip-IsClean (d ∷ deps) h = cc (h.0.stripped, map-strip-IsClean deps h.1)

-- The constructor of a step changes nothing in a clean step, and does not raise.
make_step-IsCleanStep : (s : PlanStep) → IsCleanStep s → make_step s ≡ some s
unfolding make_step
make_step-IsCleanStep s c = rw c.clean_id.not_blank (
    rw c.clean_tool.not_blank (
      rw (any_blank-IsClean s.depends_on c.clean_deps_of) λ i. some (record s {
        step_id = c.clean_id.stripped i;
        tool_name = c.clean_tool.stripped i;
        depends_on = map-strip-IsClean s.depends_on c.clean_deps_of i;
      })))

-- A step that is found under an id.
record Found (P : PlanStep → Type 0) (step_id : String) (steps : List PlanStep) : Type 0 where
  step : PlanStep
  found : find_step step_id steps ≡ some step
  named : step.step_id ≡ step_id
  holds : P step
  deps : (d : String) → 0 < count d step.depends_on → 0 < edges d step_id (nodes steps)

module _ (P : PlanStep → Type 0) where
  Found-later :
      (step_id : String) (s : PlanStep) (steps : List PlanStep)
      → (s.step_id == step_id) ≡ false
      → Found P step_id steps
      → Found P step_id (s ∷ steps)
  unfolding find_step edges
  Found-later step_id s steps other f = record {
    step = f.step;
    found = rw other f.found;
    named = f.named;
    holds = f.holds;
    deps = λ d e. omega (arith, f.deps d e);
  }

  find_step-Found :
      (step_id : String) (steps : List PlanStep)
      → All P steps
      → 0 < count step_id (ids steps)
      → Found P step_id steps
  unfolding find_step count edges
  find_step-Found step_id [] h m = absurd (omega arith)
  find_step-Found step_id (s ∷ steps) h m = elim (Bool-cases (s.step_id == step_id)) [
    | inl same ↦ record {
      step = s;
      found = rw same refl;
      named = (eq_iff s.step_id step_id).0 same;
      holds = h.0;
      deps = λ d e. rw same (omega arith);
    }
    | inr other ↦
        Found-later step_id s steps other
          (find_step-Found step_id steps h.1 (omega (arith, rw other at m)))
  ]

  -- What collecting the steps of an order gives.
  pub record Collected (steps : List PlanStep) (seen order : List String) : Type 0 where
    pub made : List PlanStep
    pub collected : collect_steps steps order ≡ some made
    pub in_order : ids made ≡ order
    pub all_hold : All P made
    pub first : DependenciesFirst seen made

  Collected-cons :
      (steps : List PlanStep) (seen : List String) (x : String) (order : List String)
      → ((s : PlanStep) → P s → IsCleanStep s)
      → ((d : String) → 0 < edges d x (nodes steps) → 0 < count d seen)
      → Found P x steps
      → Collected steps (seen ++ x ∷ []) order
      → Collected steps seen (x ∷ order)
  unfolding collect_steps
  Collected-cons steps seen x order clean placed f c = record {
    made = f.step ∷ c.made;
    collected =
        rw (f.found, collect_steps)
          (rw (make_step-IsCleanStep f.step (clean f.step f.holds)) (rw c.collected refl));
    in_order = cc (f.named, c.in_order);
    all_hold = (f.holds, c.all_hold);
    first = (λ d e. placed d (f.deps d e), rw f.named c.first);
  }

  pub collect_steps-Collected :
      (steps : List PlanStep) (seen order : List String)
      → All P steps
      → ((s : PlanStep) → P s → IsCleanStep s)
      → Follows (nodes steps) seen order
      → ((s : String) → 0 < count s order → 0 < count s (ids steps))
      → Collected steps seen order
  unfolding collect_steps count
  collect_steps-Collected steps seen [] h clean f known = record {
    made = [];
    collected = refl;
    in_order = refl;
    all_hold = tt;
    first = tt;
  }
  collect_steps-Collected steps seen (x ∷ order) h clean f known =
      Collected-cons steps seen x order clean f.0
        (find_step-Found x steps h (known x (ground (arith, eq_iff x x))))
        (collect_steps-Collected steps (seen ++ x ∷ []) order h clean f.1
          (λ t m. known t (omega arith)))
