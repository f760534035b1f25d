-- ===== src/Agent/Verifier.antt =====
-- agent/verifier.py: numbers, and the comparisons that the rules of the operations share.
--
-- `F` stands for Python's floats; `none` for a ValueError or TypeError of `float` and `int`, and in
-- the result of a check for an exception that the check lets through. An integer too large for a
-- float, for which `float` raises an OverflowError, is not covered.
pub mod Rules
pub mod Creation
pub mod Editing
pub mod Operations
pub mod Close
pub mod Verdicts
pub mod Transforms
pub mod Changes
pub mod ChangeSets
pub mod Deletions
pub mod Requests
pub mod Creations
use blender_ai_sidebar.Prelude.{
  ℕ, zero, suc, ◌+◌, ◌-◌, Bool, true, false, not, ◌&&◌, ◌||◌, String, List, [], ◌∷◌, ◌++◌, map,
  Option, none, some, ◌==◌, nat_comparable, string_comparable, if◌then◌else◌, ltb, length,
}
use blender_ai_sidebar.Core.Text.{joined, strip}
use blender_ai_sidebar.Core.TextParts.{join}
use blender_ai_sidebar.Core.Json.{
  ℤ, pos, negsuc, Value, Items, Fields, get, eq_value, is_truthy, items, of_list,
}
use blender_ai_sidebar.Core.ChangeSet.{VerificationStatus, ChangeSet, Mismatch, VerificationResult}

-- Python's numbers and texts. `round_to n` is round(x, n).
pub record Numbers (F : Type 0) : Type 0 where
  pub to_float : Value → Option F
  pub of_float : F → Value
  pub to_int : Value → Option ℤ
  pub plus : F → F → F
  pub minus : F → F → F
  pub modulo : F → F → F
  pub times : F → F → F
  pub max_of : F → F → F
  pub min_of : F → F → F
  pub zero_float : F
  pub one_float : F
  pub abs : F → F
  pub exceeds : F → F → Bool
  pub round_to : ℕ → F → F
  pub pi : F
  pub two_pi : F
  pub epsilon : F
  pub show : Value → String
  pub upper : String → String
  pub lower : String → String

-- `m - n`, `m == n` and `n <= 0` on integers.
abbrev pub difference : ℤ → ℤ → ℤ
difference (pos m) (pos n) = if ltb m n then negsuc (n - m - 1) else pos (m - n)
difference (pos m) (negsuc n) = pos (m + suc n)
difference (negsuc m) (pos n) = negsuc (m + n)
difference (negsuc m) (negsuc n) = if ltb n m then negsuc (m - n - 1) else pos (n - m)

abbrev pub same_int : ℤ → ℤ → Bool
same_int (pos m) (pos n) = m == n
same_int (negsuc m) (negsuc n) = m == n
same_int _ _ = false

abbrev pub not_positive : ℤ → Bool
not_positive (pos m) = m == 0
not_positive (negsuc m) = true

-- `d.get(k, w)`
abbrev pub or_default : Option Value → Value → Value
or_default none w = w
or_default (some v) w = v

-- `k in d and d[k] is not None`
abbrev pub given : Option Value → Option Value
given (some Value.null) = none
given v = v

abbrev pub mismatch : String → Value → Value → Mismatch
mismatch property expected actual = record {
  property = property;
  expected = expected;
  actual = actual;
  diff = Value.null;
}

-- The mismatches of several checks, one after the other.
unfoldable pub both : Option (List Mismatch) → Option (List Mismatch) → Option (List Mismatch)
both none ns = none
both (some ms) none = none
both (some ms) (some ns) = some (ms ++ ns)

abbrev pub listed : Option Mismatch → List Mismatch
listed none = []
listed (some m) = m ∷ []

module _ {F : Type 0} (py : Numbers F) where
  unfoldable pub normalize_angle : F → F
  normalize_angle rad = py.minus (py.modulo (py.plus rad py.pi) py.two_pi) py.pi

  unfoldable pub angle_difference : F → F → F
  unfolding normalize_angle
  angle_difference actual expected = normalize_angle (py.minus actual expected)

  -- `abs(delta) > self.epsilon`
  abbrev pub is_off : F → Bool
  is_off delta = py.exceeds (py.abs delta) py.epsilon

  unfoldable pub delta_of : Bool → F → F → F
  unfolding angle_difference
  delta_of true actual expected = angle_difference actual expected
  delta_of false actual expected = py.minus actual expected

  -- The loop over the pairs: the differences, or `none` where a number is none.
  unfoldable pub deltas : Bool → List Value → List Value → Option (List F)
  unfolding delta_of
  deltas rotation [] actual = some []
  deltas rotation (e ∷ expected) [] = some []
  deltas rotation (e ∷ expected) (a ∷ actual) = elim (py.to_float e) [
    | none ↦ none
    | some x ↦ elim (py.to_float a) [
      | none ↦ none
      | some y ↦ elim (deltas rotation expected actual) [
        | none ↦ none
        | some ds ↦ some (delta_of rotation y x ∷ ds)
      ]
    ]
  ]

  unfoldable pub any_off : List F → Bool
  any_off [] = false
  any_off (d ∷ ds) = is_off d || any_off ds

  -- `[round(float(v), 4) for v in vs]`, of values that are numbers.
  abbrev rounded_value : Value → Value
  rounded_value v = elim (py.to_float v) [ none ↦ v | some x ↦ py.of_float (py.round_to 4 x) ]

  abbrev rounded_list : List Value → Value
  rounded_list vs = Value.array (of_list (map rounded_value vs))

  abbrev vector_mismatch : String → List Value → List Value → List F → Mismatch
  vector_mismatch prop expected actual ds = record {
    property = prop;
    expected = rounded_list expected;
    actual = rounded_list actual;
    diff = Value.array (of_list (map (λ d. py.of_float (py.round_to 6 d)) ds));
  }

  unfoldable pub compare_lists : String → Bool → List Value → List Value → Option Mismatch
  unfolding deltas any_off of_list
  compare_lists prop rotation expected actual =
      let unlike = mismatch prop (Value.array (of_list expected)) (Value.array (of_list actual)) in
      if not (length expected == length actual)
      then some unlike
      else elim (deltas rotation expected actual) [
        | none ↦ some unlike
        | some ds ↦ if any_off ds then some (vector_mismatch prop expected actual ds) else none
      ]

  -- _compare_numeric_vector
  unfoldable pub compare_numeric_vector : String → Value → Value → Bool → Option Mismatch
  unfolding compare_lists items
  compare_numeric_vector prop (Value.array es) (Value.array vs) rotation =
      compare_lists prop rotation (items es) (items vs)
  compare_numeric_vector prop expected actual rotation = some (mismatch prop expected actual)

  -- _compare_scalar, where a missing value is None.
  unfoldable pub compare_scalar : String → Value → Value → Option Mismatch
  compare_scalar prop expected actual = elim (py.to_float expected) [
    | none ↦ some (mismatch prop expected actual)
    | some x ↦ elim (py.to_float actual) [
      | none ↦ some (mismatch prop expected actual)
      | some y ↦
          if is_off (py.minus y x)
          then some (record {
            property = prop;
            expected = py.of_float (py.round_to 4 x);
            actual = py.of_float (py.round_to 4 y);
            diff = py.of_float (py.round_to 6 (py.minus y x));
          })
          else none
    ]
  ]

  -- _build_result
  unfoldable pub build_result : String → String → List Mismatch → VerificationResult
  unfolding join
  build_result operation target_name [] = record {
    status = VerificationStatus.pass;
    operation = operation;
    target_name = target_name;
    mismatches = [];
    summary = joined ("Verification PASSED for " ∷ operation ∷ " on '" ∷ target_name ∷ "'." ∷ []);
  }
  build_result operation target_name (m ∷ ms) = record {
    status = VerificationStatus.fail;
    operation = operation;
    target_name = target_name;
    mismatches = m ∷ ms;
    summary = joined (
        "Verification FAILED for "
        ∷ operation
        ∷ " on '"
        ∷ target_name
        ∷ "': mismatch in ["
        ∷ join ", " (map (λ (x : Mismatch). x.property) (m ∷ ms))
        ∷ "]."
        ∷ []);
  }
