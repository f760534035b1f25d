-- ===== src/Plan/Validator/Complete.antt =====
-- Steps without errors whose dependencies have no cycle are accepted.
use blender_ai_sidebar.Prelude.{
  ℕ, ◌≤◌, ◌<◌, false, String, List, [], ◌∷◌, ◌==◌, nat_comparable, string_comparable, length, ◌≡◌,
  arith, eq_iff, IsDistinct, count, Bool-cases, inl, inr, All, ap, subst, ltb, length-map,
  length-le_of_count,
}
use blender_ai_sidebar.Core.Text.{is_blank}
use blender_ai_sidebar.Tools.Registry.{Registry}
use blender_ai_sidebar.Plan.Models.{PlanStep}
use blender_ai_sidebar.Plan.Graph.{step_ids}
use blender_ai_sidebar.Plan.Graph.Edges.{edges}
use blender_ai_sidebar.Plan.Graph.Loop.{Inv}
use blender_ai_sidebar.Plan.Graph.Order.{topological_sort-Inv, order_complete}
use blender_ai_sidebar.Plan.Validator.{max_plan_steps, Parsed, ids}
use blender_ai_sidebar.Plan.Validator.Checks.{
  all_tool_errors, all_dependency_errors, nodes, sort_steps, check_steps, check_parsed,
}
use blender_ai_sidebar.Plan.Validator.Parsing.{IsWellParsed}
use blender_ai_sidebar.Plan.Validator.Sound.{
  DependsOnOthers, all_dependency_errors-none, all_tool_errors-ToolFits,
}
use blender_ai_sidebar.Plan.Validator.Accept.{Accepted, ids-nodes, sorted-Accepted}

-- The rank of a step is above the ranks of the steps that it depends on: there is no cycle.
abbrev pub IsRanked : (String → ℕ) → List PlanStep → Type 0
IsRanked rank steps =
    All (λ s. (d : String) → 0 < count d s.depends_on → rank d < rank s.step_id) steps

-- What holds of the dependencies of all steps holds of the edges of the graph.
edges-All :
    (P : String → String → Type 0) (steps : List PlanStep)
    → All (λ s. (d : String) → 0 < count d s.depends_on → P d s.step_id) steps
    → (d s : String) → 0 < edges d s (nodes steps)
    → P d s
unfolding edges
edges-All P [] h d s m = absurd (omega arith)
edges-All P (x ∷ steps) h d s m = elim (Bool-cases (x.step_id == s)) [
  | inr other ↦ edges-All P steps h.1 d s (ground (arith, m, other))
  | inl same ↦ elim (Bool-cases (ltb 0 (count d x.depends_on))) [
    | inl here ↦ subst (P d) ((eq_iff x.step_id s).0 same) (h.0 d (ground (arith, here)))
    | inr later ↦ edges-All P steps h.1 d s (ground (arith, m, same, later))
  ]
]

length-eq : (xs ys : List String) → ((s : String) → count s xs ≡ count s ys) → length xs ≡ length ys
length-eq xs ys h = omega (
  arith,
  length-le_of_count xs ys (λ s. omega (arith, h s)),
  length-le_of_count ys xs (λ s. omega (arith, h s)),
)

module _ (registry : Registry) (plan_id title description : String)
    (id_solid : is_blank plan_id ≡ false) (title_solid : is_blank title ≡ false) where
  module _ (p : Parsed) (w : IsWellParsed p)
      (deps_fit : all_dependency_errors (ids p.parsed_steps) p.parsed_steps ≡ [])
      (rank : String → ℕ) (ranked : IsRanked rank p.parsed_steps) where
    declared :
        (steps : List PlanStep)
        → All (DependsOnOthers (ids p.parsed_steps)) steps
        → All
            (λ s.
              (d : String)
              → 0 < count d s.depends_on
              → 0 < count d (step_ids (nodes p.parsed_steps)))
            steps
    declared [] h = tt
    declared (s ∷ steps) h = (
      λ d m. omega (arith, (h.0 d m).0, ap (count d) (ids-nodes p.parsed_steps)),
      declared steps h.1,
    )

    all_sorted :
        (deg : String → ℕ) (order : List String)
        → Inv (nodes p.parsed_steps) deg [] order
        → length order ≡ length p.parsed_steps
    all_sorted deg order inv =
        let distinct : IsDistinct (step_ids (nodes p.parsed_steps)) = rw ids-nodes w.distinct in
        let complete =
          order_complete p.step_order_index (nodes p.parsed_steps) distinct deg order inv rank
            (edges-All (λ d s. rank d < rank s) p.parsed_steps ranked)
            (edges-All (λ d s. 0 < count d (step_ids (nodes p.parsed_steps))) p.parsed_steps
              (declared p.parsed_steps
                (all_dependency_errors-none (ids p.parsed_steps) p.parsed_steps deps_fit))) in
        omega (
          arith,
          length-eq order (step_ids (nodes p.parsed_steps)) complete,
          ap length (ids-nodes p.parsed_steps),
          length-map (λ (s : PlanStep). s.step_id) p.parsed_steps,
        )

  -- Parsed steps, at most 20, that left no error in the loop, whose tools and dependencies have no
  -- error and whose dependencies have no cycle, are accepted: the result is valid, with an executable
  -- plan. It takes a plan id and a title that are not blank and that the steps come out of the
  -- parsing loop.
  pub check_parsed-Accepted :
      (p : Parsed)
      → IsWellParsed p
      → length p.parsed_steps ≤ max_plan_steps
      → p.errors ≡ []
      → all_tool_errors registry p.parsed_steps ≡ []
      → all_dependency_errors (ids p.parsed_steps) p.parsed_steps ≡ []
      → (rank : String → ℕ) → IsRanked rank p.parsed_steps
      → Accepted registry (check_parsed registry plan_id title description p)
  unfolding check_parsed check_steps sort_steps
  check_parsed-Accepted p w short fine tools_fit deps_fit rank ranked =
      let fits = all_tool_errors-ToolFits registry p.parsed_steps tools_fit in
      let distinct : IsDistinct (step_ids (nodes p.parsed_steps)) = rw ids-nodes w.distinct in
      let (end, e, inv) = topological_sort-Inv p.step_order_index (nodes p.parsed_steps) distinct in
      rw (fine, check_parsed)
        (rw (tools_fit, check_steps)
          (rw deps_fit (
            sorted-Accepted registry plan_id title description id_solid title_solid p w short fits
              end.0 end.1 inv e
              (ground (arith, all_sorted p w deps_fit rank ranked end.0 end.1 inv)))))
