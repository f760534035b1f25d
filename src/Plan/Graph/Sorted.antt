-- ===== src/Plan/Graph/Sorted.antt =====
-- Sorting the ready queue only permutes it.
use blender_ai_sidebar.Prelude.{
  ℕ, ◌+◌, String, List, [], ◌∷◌, ◌≡◌, refl, arith, ◌==◌, string_comparable, count, bit, when,
  nat_comparable, eq_iff,
}
use blender_ai_sidebar.Plan.Graph.{insert, sort, ready_steps}

module _ (key : String → ℕ) (s : String) where
  count-insert :
      (x : String) (ys : List String) → count s (insert key x ys) ≡ bit (x == s) + count s ys
  unfolding insert count
  count-insert x [] = refl
  count-insert x (y ∷ ys) = ground (arith, count-insert x ys)

  pub count-sort : (xs : List String) → count s (sort key xs) ≡ count s xs
  unfolding sort count
  count-sort [] = refl
  count-sort (x ∷ xs) = omega (arith, count-insert x (sort key xs), count-sort xs)

-- The initial queue holds the steps of in-degree zero.
pub count-ready_steps :
    (deg : String → ℕ) (s : String) (ids : List String)
    → count s (ready_steps deg ids) ≡ when (deg s == 0) (count s ids)
unfolding ready_steps count
count-ready_steps deg s [] = ground arith
count-ready_steps deg s (x ∷ ids) = ground (arith, count-ready_steps deg s ids, eq_iff x s)
