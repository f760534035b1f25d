-- ===== src/Plan/Graph/Loop.antt =====
-- The `while ready_queue` loop: its invariant, and what holds when it ends.
use blender_ai_sidebar.Prelude.{
  ℕ, zero, suc, ◌+◌, ◌≤◌, ◌<◌, String, List, [], ◌∷◌, ◌++◌, ◌≡◌, refl, arith, string_comparable,
  nat_comparable, count, count-append, eq_iff, IsDistinct, some, length, length-append,
  length-le_of_count,
}
use blender_ai_sidebar.Plan.Graph.{Node, step_ids, relax, sort, kahn}
use blender_ai_sidebar.Plan.Graph.Edges.{
  edges, arity, placed, placed-append, placed-le-arity, placed_all, edges-declared,
}
use blender_ai_sidebar.Plan.Graph.Sorted.{count-sort}
use blender_ai_sidebar.Plan.Graph.Relax.{IsBalanced, relax_in_degree, relax-IsBalanced}

-- Each step of `order` stands behind `seen` and its dependencies.
abbrev pub Follows : List Node → List String → List String → Type 0
Follows steps seen [] = Unit
Follows steps seen (s ∷ order) =
    ((d : String) → 0 < edges d s steps → 0 < count d seen) × Follows steps (seen ++ s ∷ []) order

Follows-snoc :
    (steps : List Node) (seen order : List String) (s : String)
    → Follows steps seen order
    → ((d : String) → 0 < edges d s steps → 0 < count d (seen ++ order))
    → Follows steps seen (order ++ s ∷ [])
unfolding count
Follows-snoc steps seen [] s f h = (λ d m. omega (arith, h d m, count-append d seen []), tt)
Follows-snoc steps seen (x ∷ order) s f h = (
  f.0,
  Follows-snoc steps (seen ++ x ∷ []) order s f.1 λ d m. omega (
    arith,
    h d m,
    count-append d seen (x ∷ order),
    count-append d (seen ++ x ∷ []) order,
    count-append d seen (x ∷ []),
    count-append d (x ∷ []) order,
  ),
)

-- The in-degree of a step counts the edges from steps that are not placed.
abbrev pub IsCounted : List Node → (String → ℕ) → List String → Type 0
IsCounted steps deg order = (s : String) → deg s + placed order s steps ≡ arity s steps

pub record Inv (steps : List Node) (deg : String → ℕ) (ready order : List String) : Type 0 where
  pub balanced : IsBalanced (step_ids steps) deg ready order
  pub counted : IsCounted steps deg order
  pub follows : Follows steps [] order

module _ (steps : List Node) (distinct : IsDistinct (step_ids steps)) (key : String → ℕ)
    (adj : String → List String)
    (adj_edges : (d s : String) → count s (adj d) ≡ edges d s steps) where
  module _ (deg : String → ℕ) (current : String) (rest order : List String)
      (inv : Inv steps deg (current ∷ rest) order) where
    moved : IsBalanced (step_ids steps) deg rest (order ++ current ∷ [])
    unfolding count
    moved s = omega (arith, inv.balanced s, count-append s order (current ∷ []))

    order-IsDistinct : IsDistinct (order ++ current ∷ [])
    order-IsDistinct s = ground (arith, moved s, distinct s)

    enough : (s : String) → count s (adj current) ≤ deg s
    unfolding placed
    enough s = omega (
      arith,
      adj_edges current s,
      inv.counted s,
      placed-append order (current ∷ []) s steps,
      placed-le-arity (order ++ current ∷ []) s steps order-IsDistinct,
    )

    declared : (s : String) → 0 < count s (adj current) → count s (step_ids steps) ≡ 1
    declared s m = omega (arith, adj_edges current s, edges-declared current s steps, distinct s)

    -- The popped step has all of its dependencies placed.
    current_ready : (d : String) → 0 < edges d current steps → 0 < count d order
    unfolding count
    current_ready d m =
        let zero_degree : deg current ≡ 0 =
          ground (arith, inv.balanced current, eq_iff current current) in
        placed_all order current d steps
          (λ s. omega (arith, order-IsDistinct s, count-append s order (current ∷ [])))
          (omega (arith, inv.counted current, zero_degree)) m

    round-Inv :
        Inv steps
          (relax (adj current) deg rest).0
          (sort key (relax (adj current) deg rest).1)
          (order ++ current ∷ [])
    unfolding placed
    round-Inv = record {
      balanced = λ s. omega (
        arith,
        count-sort key s (relax (adj current) deg rest).1,
        relax-IsBalanced (step_ids steps) (order ++ current ∷ []) (adj current) deg rest enough
            declared moved s,
      );
      counted = λ s. omega (
        arith,
        relax_in_degree (adj current) deg rest s (enough s),
        adj_edges current s,
        inv.counted s,
        placed-append order (current ∷ []) s steps,
      );
      follows = Follows-snoc steps [] order current inv.follows current_ready;
    }

  order-le :
      (deg : String → ℕ) (ready order : List String)
      → Inv steps deg ready order
      → length ready + length order ≤ length (step_ids steps)
  order-le deg ready order inv = omega (
    arith,
    length-append ready order,
    length-le_of_count (ready ++ order) (step_ids steps)
        λ s. ground (arith, count-append s ready order, inv.balanced s),
  )

  -- With fuel above the number of steps still to place the loop ends, and the invariant holds.
  pub kahn-Inv :
      (fuel : ℕ) (deg : String → ℕ) (ready order : List String)
      → length (step_ids steps) < fuel + length order
      → Inv steps deg ready order
      → (end : (String → ℕ) × List String) × (kahn fuel key adj deg ready order ≡ some end)
        × Inv steps end.0 [] end.1
  unfolding kahn
  kahn-Inv zero deg ready order h inv = absurd (omega (arith, order-le deg ready order inv))
  kahn-Inv (suc fuel) deg [] order h inv = ((deg, order), refl, inv)
  kahn-Inv (suc fuel) deg (current ∷ rest) order h inv =
      kahn-Inv fuel (relax (adj current) deg rest).0 (sort key (relax (adj current) deg rest).1)
        (order ++ current ∷ []) (omega (arith, length-append order (current ∷ [])))
        (round-Inv deg current rest order inv)
