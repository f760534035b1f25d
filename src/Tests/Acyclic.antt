-- ===== src/Tests/Acyclic.antt =====
-- The acceptance of plans without cycles at concrete steps.
use blender_ai_sidebar.Prelude.{
  ℕ, ◌<◌, ◌≤◌, ◌≡◌, ◌≢◌, refl, arith, false, String, List, [], ◌∷◌, none, if◌then◌else◌, ◌==◌,
  string_comparable, count, contains, eq_iff, Bool-cases, inl, inr, subst,
}
use blender_ai_sidebar.Core.Text.{strip, is_blank}
use blender_ai_sidebar.Core.Json.{Value, Fields, keys, entries}
use blender_ai_sidebar.Tools.Registry.{Tool, get_tool}
use blender_ai_sidebar.Plan.Models.{PlanStep}
use blender_ai_sidebar.Plan.Validator.{Parsed, ids}
use blender_ai_sidebar.Plan.Validator.Checks.{all_tool_errors, all_dependency_errors, check_parsed}
use blender_ai_sidebar.Plan.Validator.Parsing.{IsWellParsed}
use blender_ai_sidebar.Plan.Validator.Accept.{Accepted}
use blender_ai_sidebar.Plan.Validator.Complete.{IsRanked, check_parsed-Accepted}
use blender_ai_sidebar.Core.Types.{Outcome, returned, ok}
use blender_ai_sidebar.Tests.Plans.{tools}

abbrev step_of : String → List String → PlanStep
step_of step_id deps = record {
  step_id = step_id;
  tool_name = "create_object";
  arguments = Fields.field "name" (Value.text "Cube") Fields.end;
  description = "";
  depends_on = deps;
  expected_result = none;
}

abbrev parsed : Parsed
parsed = record {
  parsed_steps = step_of "b" ("a" ∷ []) ∷ step_of "a" [] ∷ [];
  step_order_index = λ s. if s == "b" then 0 else 1;
  errors = [];
}

other_tool : (step_of "a" []).tool_name ≢ "propose_plan"
other_tool e = cc ((eq_iff "create_object" "propose_plan").1 e)

parsed-IsWellParsed : IsWellParsed parsed
unfolding strip count
parsed-IsWellParsed = record {
  distinct = λ s. elim (Bool-cases ("a" == s)) [
    | inl here ↦ subst (λ t. count t ("b" ∷ "a" ∷ []) ≤ 1) ((eq_iff "a" s).0 here) (omega arith)
    | inr other ↦ ground (arith, other)
  ];
  clean_steps = (
    record {
      clean_id = record { stripped = refl; not_blank = refl };
      clean_tool = record { stripped = refl; not_blank = refl };
      clean_deps_of = (record { stripped = refl; not_blank = refl }, tt);
      not_nested = other_tool;
    },
    (
      record {
        clean_id = record { stripped = refl; not_blank = refl };
        clean_tool = record { stripped = refl; not_blank = refl };
        clean_deps_of = tt;
        not_nested = other_tool;
      },
      tt,
    ),
  );
}

abbrev rank : String → ℕ
rank s = if s == "b" then 1 else 0

ranked : IsRanked rank (step_of "b" ("a" ∷ []) ∷ step_of "a" [] ∷ [])
unfolding count
ranked = (
  λ d m. elim (Bool-cases ("a" == d)) [
    | inl here ↦ subst (λ t. rank t < 1) ((eq_iff "a" d).0 here) (omega arith)
    | inr other ↦ absurd (ground (arith, m, other))
  ],
  (λ d m. absurd (omega (arith, m)), tt),
)

tools_fit : all_tool_errors tools parsed.parsed_steps ≡ []
unfolding all_tool_errors get_tool keys entries contains
tools_fit = refl

dependencies_fit : all_dependency_errors (ids parsed.parsed_steps) parsed.parsed_steps ≡ []
unfolding all_dependency_errors contains
dependencies_fit = refl

p_solid : is_blank "p" ≡ false
unfolding strip
p_solid = refl

check_parsed-Accepted_example : Accepted tools (check_parsed tools "p" "p" "" parsed)
check_parsed-Accepted_example =
    check_parsed-Accepted tools "p" "p" "" p_solid p_solid parsed parsed-IsWellParsed (omega arith)
      refl tools_fit dependencies_fit rank ranked

-- The tool logs its name.
abbrev log_name : Tool → Fields → List String → Outcome × List String
log_name tool arguments log = (returned (ok tool.name arguments), tool.name ∷ log)

abbrev list_text : List String → String
list_text names = "[..]"
