-- ===== src/Agent/Verifier/Close.antt =====
-- What _compare_numeric_vector of agent/verifier.py accepts.
use blender_ai_sidebar.Prelude.{
  suc, ◌≡◌, refl, sym, ap, ◌∙◌, arith, Bool, true, false, ◌||◌, String, List, [], ◌∷◌, none, some,
  ◌==◌, nat_comparable, Bool-cases, Option-cases, inl, inr, ◌↔◌, length,
}
use mathlib.Core.Option.{some-injective}
use blender_ai_sidebar.Core.Json.{Value, Items, items}
use blender_ai_sidebar.Agent.Verifier.{
  Numbers, is_off, delta_of, deltas, any_off, compare_lists, compare_numeric_vector,
}

module _ {F : Type 0} (py : Numbers F) where
  -- `y - x`, for angles modulo a full turn to the half-open interval from -pi to pi.
  abbrev pub distance : Bool → F → F → F
  distance true x y = py.minus (py.modulo (py.plus (py.minus y x) py.pi) py.two_pi) py.pi
  distance false x y = py.minus y x

  -- The absolute value of the distance does not exceed epsilon.
  abbrev pub IsNear : Bool → F → F → Type 0
  IsNear rotation x y = py.exceeds (py.abs (distance rotation x y)) py.epsilon ≡ false

  is_off-distance :
      (rotation : Bool) (x y : F)
      → is_off py (delta_of py rotation y x)
        ≡ py.exceeds (py.abs (distance rotation x y)) py.epsilon
  unfolding delta_of
  is_off-distance true x y = refl
  is_off-distance false x y = refl

  -- Lists of numbers, of the same length, that are near to each other pairwise.
  pub data Close (rotation : Bool) : List Value → List Value → Type 0 where
    ends : Close rotation [] []
    near :
        {e a : Value} {es as' : List Value} {x y : F}
        → py.to_float e ≡ some x
        → py.to_float a ≡ some y
        → IsNear rotation x y
        → Close rotation es as'
        → Close rotation (e ∷ es) (a ∷ as')

  or-false : (a b : Bool) → (a || b) ≡ false → (a ≡ false) × (b ≡ false)
  or-false true b h = absurd (cc h)
  or-false false b h = (refl, h)

  deltas-Close :
      (rotation : Bool) (es vs : List Value) (ds : List F)
      → length es ≡ length vs
      → deltas py rotation es vs ≡ some ds
      → any_off py ds ≡ false
      → Close rotation es vs
  unfolding deltas any_off
  deltas-Close rotation [] [] ds l h off = ends
  deltas-Close rotation [] (v ∷ vs) ds l h off = absurd (omega (arith, l))
  deltas-Close rotation (e ∷ es) [] ds l h off = absurd (omega (arith, l))
  deltas-Close rotation (e ∷ es) (v ∷ vs) ds l h off = elim (Option-cases (py.to_float e)) [
    | inl bad ↦ absurd (cc (rw (deltas, bad) at h))
    | inr (x, is_x) ↦ elim (Option-cases (py.to_float v)) [
      | inl bad ↦ absurd (cc (rw (deltas, is_x, bad) at h))
      | inr (y, is_y) ↦ elim (Option-cases (deltas py rotation es vs)) [
        | inl bad ↦ absurd (cc (rw (deltas, is_x, is_y, bad) at h))
        | inr (rest, good) ↦
            let same : delta_of py rotation y x ∷ rest ≡ ds =
              some-injective (delta_of py rotation y x ∷ rest) ds
                (rw (deltas, is_x, is_y, good) at h) in
            let parts =
              or-false (is_off py (delta_of py rotation y x)) (any_off py rest)
                (ap (any_off py) same ∙ off) in
            near is_x is_y (sym (is_off-distance rotation x y) ∙ parts.0)
              (deltas-Close rotation es vs rest (omega (arith, l)) good parts.1)
      ]
    ]
  ]

  Close-deltas :
      (rotation : Bool) (es vs : List Value)
      → Close rotation es vs
      → (length es ≡ length vs)
        × ((ds : List F) × ((deltas py rotation es vs ≡ some ds) × (any_off py ds ≡ false)))
  unfolding deltas any_off
  Close-deltas rotation [] [] ends = (refl, ([], (refl, refl)))
  Close-deltas rotation (e ∷ es) (v ∷ vs) (near {x = x} {y = y} is_x is_y close rest) =
      let (l, (ds, (good, off))) = Close-deltas rotation es vs rest in
      (
        ap suc l,
        (
          delta_of py rotation y x ∷ ds,
          (
            rw (deltas, is_x, is_y, good) refl,
            rw (any_off, is_off-distance rotation x y, close, off) refl,
          ),
        ),
      )
  Close-deltas rotation [] (v ∷ vs) h = elim h [ ]
  Close-deltas rotation (e ∷ es) [] h = elim h [ ]

  -- Two arrays have no mismatch exactly where they are numbers throughout, of the same length, and
  -- the absolute value of no difference, for a rotation of angles modulo a full turn, exceeds
  -- epsilon.
  pub compare_numeric_vector-eq_none :
      (prop : String) (es vs : Items) (rotation : Bool)
      → (compare_numeric_vector py prop (Value.array es) (Value.array vs) rotation ≡ none)
        ↔ Close rotation (items es) (items vs)
  unfolding compare_numeric_vector compare_lists
  compare_numeric_vector-eq_none prop es vs rotation = (only, if_close)
    where
      only :
          compare_numeric_vector py prop (Value.array es) (Value.array vs) rotation ≡ none
          → Close rotation (items es) (items vs)
      only h = elim (Bool-cases (length (items es) == length (items vs))) [
        | inr differ ↦ absurd (cc (rw (compare_lists, differ) at h))
        | inl same ↦ elim (Option-cases (deltas py rotation (items es) (items vs))) [
          | inl bad ↦ absurd (cc (rw (compare_lists, same, bad) at h))
          | inr (ds, good) ↦ elim (Bool-cases (any_off py ds)) [
            | inl off ↦ absurd (cc (rw (compare_lists, same, good, off) at h))
            | inr near_all ↦
                deltas-Close rotation (items es) (items vs) ds (ground (arith, same)) good near_all
          ]
        ]
      ]

      if_close :
          Close rotation (items es) (items vs)
          → compare_numeric_vector py prop (Value.array es) (Value.array vs) rotation ≡ none
      if_close close =
          let (l, (ds, (good, off))) = Close-deltas rotation (items es) (items vs) close in
          let same : (length (items es) == length (items vs)) ≡ true = ground (arith, l) in
          rw (compare_lists, same, good, off) refl
