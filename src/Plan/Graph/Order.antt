-- ===== src/Plan/Graph/Order.antt =====
-- What the sort returns: always an order of distinct steps behind their dependencies, and one of
-- all steps if the dependencies have no cycle.
use blender_ai_sidebar.Prelude.{
  ℕ, zero, suc, ◌≤◌, ◌<◌, String, List, [], ◌≡◌, arith, string_comparable, nat_comparable, count,
  IsDistinct, some, length,
}
use blender_ai_sidebar.Plan.Graph.{
  Node, step_ids, empty, build_graph, ready_steps, sort, topological_sort,
}
use blender_ai_sidebar.Plan.Graph.Edges.{
  edges, placed, in_degree-build_graph, adj_graph-build_graph, placed_of_all,
}
use blender_ai_sidebar.Plan.Graph.Sorted.{count-sort, count-ready_steps}
use blender_ai_sidebar.Plan.Graph.Loop.{Inv, kahn-Inv}

module _ (key : String → ℕ) (steps : List Node) (distinct : IsDistinct (step_ids steps)) where
  start-Inv :
      Inv steps
        (build_graph steps empty).in_degree
        (sort key (ready_steps (build_graph steps empty).in_degree (step_ids steps)))
        []
  unfolding placed count
  start-Inv = record {
    balanced = λ s. omega (
      arith,
      count-sort key s (ready_steps (build_graph steps empty).in_degree (step_ids steps)),
      count-ready_steps (build_graph steps empty).in_degree s (step_ids steps),
    );
    counted = λ s. omega (arith, in_degree-build_graph s steps empty);
    follows = tt;
  }

  pub topological_sort-Inv :
      (end : (String → ℕ) × List String) × (topological_sort key steps ≡ some end)
      × Inv steps end.0 [] end.1
  unfolding topological_sort count
  topological_sort-Inv =
      kahn-Inv steps distinct key (build_graph steps empty).adj_graph
        (λ d s. omega (arith, adj_graph-build_graph s d steps empty))
        (suc (length (step_ids steps))) (build_graph steps empty).in_degree _ [] (omega arith)
        start-Inv

  module _ (deg : String → ℕ) (order : List String) (inv : Inv steps deg [] order) where
    pub order-le : (s : String) → count s order ≤ count s (step_ids steps)
    unfolding count
    order-le s = ground (arith, inv.balanced s)

    module _ (rank : String → ℕ) (ranked : (d s : String) → 0 < edges d s steps → rank d < rank s)
        (declared : (d s : String) → 0 < edges d s steps → 0 < count d (step_ids steps)) where
      -- By induction on the rank, every step is placed.
      all_placed :
          (n : ℕ) (s : String) → rank s < n → 0 < count s (step_ids steps) → 0 < count s order
      unfolding count
      all_placed zero s h m = absurd (omega arith)
      all_placed (suc n) s h m =
          let full =
            placed_of_all order s steps
              λ d e. all_placed n d (omega (arith, ranked d s e)) (declared d s e) in
          ground (arith, inv.balanced s, inv.counted s, full)

      pub order_complete : (s : String) → count s order ≡ count s (step_ids steps)
      order_complete s =
          ground (arith, all_placed (suc (rank s)) s (omega arith), order-le s, distinct s)
