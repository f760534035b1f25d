-- ===== src/Plan/Graph.antt =====
-- The dependency graph of a plan and its topological sort: step 6 of PlanValidator.validate in
-- agent/plan_validator.py. A dict keyed by step ids is a function of the id.
pub mod Edges
pub mod Sorted
pub mod Relax
pub mod Loop
pub mod Order
use blender_ai_sidebar.Prelude.{
  ℕ, zero, suc, ◌+◌, ◌-◌, String, List, [], ◌∷◌, ◌++◌, map, Option, none, some, ◌==◌,
  nat_comparable, string_comparable, if◌then◌else◌, leb, length,
}

-- What the sort reads of a parsed step.
pub record Node : Type 0 where
  pub step_id : String
  pub depends_on : List String

abbrev pub step_ids : List Node → List String
step_ids steps = map (λ s. s.step_id) steps

abbrev pub update {ℓ} : {A : Type ℓ} → (String → A) → String → A → String → A
update f k v s = if k == s then v else f s

pub record Graph : Type 0 where
  pub in_degree : String → ℕ
  pub adj_graph : String → List String

abbrev pub empty : Graph
empty = record { in_degree = λ s. 0; adj_graph = λ s. [] }

-- `adj_graph[dep_id].append(step_id); in_degree[step_id] += 1`
abbrev pub add_edge : String → String → Graph → Graph
add_edge step_id dep_id g = record {
  in_degree = update g.in_degree step_id (g.in_degree step_id + 1);
  adj_graph = update g.adj_graph dep_id (g.adj_graph dep_id ++ step_id ∷ []);
}

unfoldable pub add_edges : String → List String → Graph → Graph
add_edges step_id [] g = g
add_edges step_id (dep_id ∷ deps) g = add_edges step_id deps (add_edge step_id dep_id g)

unfoldable pub build_graph : List Node → Graph → Graph
unfolding add_edges
build_graph [] g = g
build_graph (s ∷ steps) g = build_graph steps (add_edges s.step_id s.depends_on g)

-- `list.sort(key=...)`, a stable sort.
unfoldable pub insert : (String → ℕ) → String → List String → List String
insert key x [] = x ∷ []
insert key x (y ∷ ys) = if leb (key x) (key y) then x ∷ y ∷ ys else y ∷ insert key x ys

unfoldable pub sort : (String → ℕ) → List String → List String
unfolding insert
sort key [] = []
sort key (x ∷ xs) = insert key x (sort key xs)

-- The inner `for` loop: the in-degrees and the ready queue after the neighbours of one step. A
-- decrement is made only at a positive in-degree, so the truncated subtraction is the source's.
unfoldable pub relax : List String → (String → ℕ) → List String → (String → ℕ) × List String
relax [] deg ready = (deg, ready)
relax (n ∷ ns) deg ready =
    relax ns (update deg n (deg n - 1)) (if deg n - 1 == 0 then ready ++ n ∷ [] else ready)

-- The `while ready_queue` loop, from a queue that is sorted. `none` means that the fuel ran out.
unfoldable pub kahn :
    ℕ
    → (String → ℕ)
    → (String → List String)
    → (String → ℕ)
    → List String
    → List String
    → Option ((String → ℕ) × List String)
unfolding relax sort
kahn zero key adj deg ready order = none
kahn (suc fuel) key adj deg [] order = some (deg, order)
kahn (suc fuel) key adj deg (current ∷ rest) order =
    let (deg', ready) = relax (adj current) deg rest in
    kahn fuel key adj deg' (sort key ready) (order ++ current ∷ [])

-- The steps of in-degree zero, in the order of `ids`.
unfoldable pub ready_steps : (String → ℕ) → List String → List String
ready_steps deg [] = []
ready_steps deg (s ∷ ids) = if deg s == 0 then s ∷ ready_steps deg ids else ready_steps deg ids

-- The graph, the initial queue and the loop, with one round of fuel for each step and one to stop.
unfoldable pub topological_sort : (String → ℕ) → List Node → Option ((String → ℕ) × List String)
unfolding build_graph kahn sort ready_steps
topological_sort key steps =
    let ids = step_ids steps in
    let g = build_graph steps empty in
    kahn (suc (length ids)) key g.adj_graph g.in_degree (sort key (ready_steps g.in_degree ids)) []
