-- ===== src/Plan/Graph/Edges.antt =====
-- What `build_graph` counts: the edges between two steps, and the edges into a step.
use blender_ai_sidebar.Prelude.{
  ℕ, ◌+◌, ◌≤◌, ◌<◌, String, List, [], ◌∷◌, ◌++◌, ◌≡◌, refl, arith, ◌==◌, string_comparable, eq_iff,
  length, count, count-append, when, IsDistinct, Bool-cases, inl, inr,
}
use blender_ai_sidebar.Plan.Graph.{Node, step_ids, Graph, add_edge, add_edges, build_graph}

-- How often `d` is named as a dependency by the steps with the id `s`.
unfoldable pub edges : String → String → List Node → ℕ
edges d s [] = 0
edges d s (n ∷ steps) = when (n.step_id == s) (count d n.depends_on) + edges d s steps

-- How many dependencies the steps with the id `s` name.
unfoldable pub arity : String → List Node → ℕ
arity s [] = 0
arity s (n ∷ steps) = when (n.step_id == s) (length n.depends_on) + arity s steps

in_degree-add_edges :
    (x s : String) (deps : List String) (g : Graph)
    → (add_edges x deps g).in_degree s ≡ g.in_degree s + when (x == s) (length deps)
unfolding add_edges
in_degree-add_edges x s [] g = ground arith
in_degree-add_edges x s (d ∷ deps) g =
    ground (arith, in_degree-add_edges x s deps (add_edge x d g), eq_iff x s)

adj_graph-add_edges :
    (x s d : String) (deps : List String) (g : Graph)
    → count s ((add_edges x deps g).adj_graph d)
      ≡ count s (g.adj_graph d) + when (x == s) (count d deps)
unfolding add_edges count
adj_graph-add_edges x s d [] g = ground arith
adj_graph-add_edges x s d (e ∷ deps) g = ground (
  arith,
  adj_graph-add_edges x s d deps (add_edge x e g),
  count-append s (g.adj_graph e) (x ∷ []),
  eq_iff e d,
  eq_iff x s,
)

pub in_degree-build_graph :
    (s : String) (steps : List Node) (g : Graph)
    → (build_graph steps g).in_degree s ≡ g.in_degree s + arity s steps
unfolding build_graph arity
in_degree-build_graph s [] g = omega arith
in_degree-build_graph s (n ∷ steps) g = omega (
  arith,
  in_degree-build_graph s steps (add_edges n.step_id n.depends_on g),
  in_degree-add_edges n.step_id s n.depends_on g,
)

pub adj_graph-build_graph :
    (s d : String) (steps : List Node) (g : Graph)
    → count s ((build_graph steps g).adj_graph d) ≡ count s (g.adj_graph d) + edges d s steps
unfolding build_graph edges
adj_graph-build_graph s d [] g = omega arith
adj_graph-build_graph s d (n ∷ steps) g = omega (
  arith,
  adj_graph-build_graph s d steps (add_edges n.step_id n.depends_on g),
  adj_graph-add_edges n.step_id s d n.depends_on g,
)

-- A step with an edge into it is one of the steps.
pub edges-declared :
    (d s : String) (steps : List Node) → 0 < edges d s steps → 0 < count s (step_ids steps)
unfolding edges count
edges-declared d s [] h = absurd (omega arith)
edges-declared d s (n ∷ steps) h = ground (arith, edges-declared d s steps)

-- The occurrences in `xs` of the texts of `l`.
unfoldable pub occurrences : List String → List String → ℕ
occurrences [] xs = 0
occurrences (d ∷ l) xs = count d xs + occurrences l xs

occurrences-cons :
    (l : List String) (x : String) (xs : List String)
    → occurrences l (x ∷ xs) ≡ count x l + occurrences l xs
unfolding occurrences count
occurrences-cons [] x xs = omega arith
occurrences-cons (d ∷ l) x xs = ground (arith, occurrences-cons l x xs, eq_iff x d, eq_iff d x)

occurrences-nil : (l : List String) → occurrences l [] ≡ 0
unfolding occurrences count
occurrences-nil [] = refl
occurrences-nil (d ∷ l) = omega (arith, occurrences-nil l)

-- Without repetitions in `l` each element of `xs` is counted at most once,
pub occurrences-le : (l xs : List String) → IsDistinct l → occurrences l xs ≤ length xs
occurrences-le l [] h = omega (arith, occurrences-nil l)
occurrences-le l (x ∷ xs) h = omega (arith, occurrences-cons l x xs, occurrences-le l xs h, h x)

-- and if each is counted, then `l` has them all.
pub occurrences_all :
    (l xs : List String) (d : String)
    → IsDistinct l
    → length xs ≤ occurrences l xs
    → 0 < count d xs
    → 0 < count d l
unfolding count
occurrences_all l [] d h e m = absurd (omega arith)
occurrences_all l (x ∷ xs) d h e m = ground (
  arith,
  occurrences_all l xs d h,
  occurrences-cons l x xs,
  occurrences-le l xs h,
  h x,
  eq_iff x d,
)

pub occurrences_of_all :
    (l xs : List String)
    → ((d : String) → 0 < count d xs → 0 < count d l)
    → length xs ≤ occurrences l xs
unfolding count
occurrences_of_all l [] h = omega (arith, occurrences-nil l)
occurrences_of_all l (x ∷ xs) h =
    let here : 0 < count x l = h x (ground (arith, eq_iff x x)) in
    let rest = occurrences_of_all l xs (λ d m. h d (omega arith)) in
    omega (arith, occurrences-cons l x xs, rest, here)

-- The edges into `s` from the steps of `order`.
unfoldable pub placed : List String → String → List Node → ℕ
placed [] s steps = 0
placed (d ∷ order) s steps = edges d s steps + placed order s steps

pub placed-append :
    (xs ys : List String) (s : String) (steps : List Node)
    → placed (xs ++ ys) s steps ≡ placed xs s steps + placed ys s steps
unfolding placed
placed-append [] ys s steps = omega arith
placed-append (x ∷ xs) ys s steps = omega (arith, placed-append xs ys s steps)

placed-nil : (l : List String) (s : String) → placed l s [] ≡ 0
unfolding placed edges
placed-nil [] s = refl
placed-nil (d ∷ l) s = omega (arith, placed-nil l s)

pub placed-cons :
    (l : List String) (s : String) (n : Node) (steps : List Node)
    → placed l s (n ∷ steps) ≡ when (n.step_id == s) (occurrences l n.depends_on) + placed l s steps
unfolding placed edges occurrences
placed-cons [] s n steps = ground arith
placed-cons (d ∷ l) s n steps = ground (arith, placed-cons l s n steps)

pub placed-le-arity :
    (l : List String) (s : String) (steps : List Node)
    → IsDistinct l
    → placed l s steps ≤ arity s steps
unfolding arity
placed-le-arity l s [] h = omega (arith, placed-nil l s)
placed-le-arity l s (n ∷ steps) h =
    ground
      (arith, placed-cons l s n steps, placed-le-arity l s steps h, occurrences-le l n.depends_on h)

-- If every dependency of `s` is placed, then each of them is in `l`,
pub placed_all :
    (l : List String) (s d : String) (steps : List Node)
    → IsDistinct l
    → arity s steps ≤ placed l s steps
    → 0 < edges d s steps
    → 0 < count d l
unfolding arity edges
placed_all l s d [] h e m = absurd (omega arith)
placed_all l s d (n ∷ steps) h e m = ground (
  arith,
  placed-cons l s n steps,
  placed-le-arity l s steps h,
  occurrences-le l n.depends_on h,
  occurrences_all l n.depends_on d h,
  placed_all l s d steps h,
)

-- and the other way round.
pub placed_of_all :
    (l : List String) (s : String) (steps : List Node)
    → ((d : String) → 0 < edges d s steps → 0 < count d l)
    → arity s steps ≤ placed l s steps
unfolding arity edges
placed_of_all l s [] h = omega arith
placed_of_all l s (n ∷ steps) h =
    let rest = placed_of_all l s steps (λ d m. h d (ground arith)) in
    elim (Bool-cases (n.step_id == s)) [
      | inl same ↦
          let here = occurrences_of_all l n.depends_on (λ d m. h d (rw same (omega arith))) in
          rw same (omega (arith, rw same at (placed-cons l s n steps), here, rest))
      | inr other ↦ rw other (omega (arith, rw other at (placed-cons l s n steps), rest))
    ]
