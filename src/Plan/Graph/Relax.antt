-- ===== src/Plan/Graph/Relax.antt =====
-- The inner loop: what it does to the in-degrees, and that it queues a step exactly when its
-- in-degree becomes zero.
use blender_ai_sidebar.Prelude.{
  ℕ, ◌+◌, ◌-◌, ◌≤◌, ◌<◌, String, List, [], ◌∷◌, ◌++◌, ◌≡◌, arith, ◌==◌, string_comparable,
  nat_comparable, count, count-append, when, eq_iff, if◌then◌else◌,
}
use blender_ai_sidebar.Plan.Graph.{update, relax}

pub relax_in_degree :
    (ns : List String) (deg : String → ℕ) (ready : List String) (s : String)
    → count s ns ≤ deg s
    → (relax ns deg ready).0 s + count s ns ≡ deg s
unfolding relax count
relax_in_degree [] deg ready s h = omega arith
relax_in_degree (n ∷ ns) deg ready s h = ground (
  arith,
  eq_iff n s,
  relax_in_degree ns (update deg n (deg n - 1)) (if deg n - 1 == 0 then ready ++ n ∷ [] else ready)
      s,
)

-- A declared step is queued or placed if its in-degree is zero, and otherwise it is neither.
abbrev pub IsBalanced : List String → (String → ℕ) → List String → List String → Type 0
IsBalanced ids deg ready order =
    (s : String) → count s ready + count s order ≡ when (deg s == 0) (count s ids)

module _ (ids order : List String) where
  queue_one :
      (deg : String → ℕ) (ready : List String) (n s : String)
      → 0 < deg n
      → count n ids ≡ 1
      → count n ready + count n order ≡ when (deg n == 0) (count n ids)
      → count s ready + count s order ≡ when (deg s == 0) (count s ids)
      → count s (if deg n - 1 == 0 then ready ++ n ∷ [] else ready) + count s order
        ≡ when (update deg n (deg n - 1) s == 0) (count s ids)
  unfolding count
  queue_one deg ready n s pos one at_n at_s =
      ground (arith, eq_iff n s, count-append s ready (n ∷ []))

  pub relax-IsBalanced :
      (ns : List String) (deg : String → ℕ) (ready : List String)
      → ((s : String) → count s ns ≤ deg s)
      → ((s : String) → 0 < count s ns → count s ids ≡ 1)
      → IsBalanced ids deg ready order
      → IsBalanced ids (relax ns deg ready).0 (relax ns deg ready).1 order
  unfolding relax count
  relax-IsBalanced [] deg ready enough known b = b
  relax-IsBalanced (n ∷ ns) deg ready enough known b =
      let pos : 0 < deg n = ground (arith, enough n, eq_iff n n) in
      relax-IsBalanced ns (update deg n (deg n - 1))
        (if deg n - 1 == 0 then ready ++ n ∷ [] else ready)
        (λ s. ground (arith, enough s, eq_iff n s)) (λ s m. known s (omega arith))
        (λ s. queue_one deg ready n s pos (known n (ground (arith, eq_iff n n))) (b n) (b s))
