-- ===== src/Agent/Verifier/Rules.antt =====
-- The rules that the operations of ChangeVerifier, agent/verifier.py, are made of.
use blender_ai_sidebar.Prelude.{
  Bool, not, String, List, [], ◌∷◌, Option, none, some, ◌==◌, string_comparable, if◌then◌else◌,
}
use blender_ai_sidebar.Core.Text.{strip}
use blender_ai_sidebar.Core.Json.{ℤ, pos, Value, Fields, get, eq_value, is_truthy}
use blender_ai_sidebar.Core.ChangeSet.{Mismatch}
use blender_ai_sidebar.Agent.Verifier.{
  Numbers, difference, same_int, or_default, mismatch, listed, compare_numeric_vector,
  compare_scalar,
}

abbrev pub fine : Option (List Mismatch)
fine = some []

abbrev pub fails : Mismatch → Option (List Mismatch)
fails m = some (m ∷ [])

abbrev pub boolean_mismatch : String → Bool → Bool → Mismatch
boolean_mismatch prop expected actual =
    mismatch prop (Value.boolean expected) (Value.boolean actual)

-- `not actual.get(k, default)`
abbrev pub lacks : String → Bool → Fields → Bool
lacks k default actual = not (is_truthy (or_default (get k actual) (Value.boolean default)))

-- A rule on the value of a key, where it is given.
abbrev pub where_given : Option Value → (Value → Option (List Mismatch)) → Option (List Mismatch)
where_given none rule = fine
where_given (some Value.null) rule = fine
where_given (some v) rule = rule v

abbrev pub is_rotation : String → Bool
is_rotation prop = prop == "rotation"

module _ {F : Type 0} (py : Numbers F) where
  -- A vector that is expected: it must be there and agree.
  unfoldable pub check_vector : String → Value → Option Value → Option Mismatch
  unfolding compare_numeric_vector
  check_vector prop expected none = some (mismatch prop expected Value.null)
  check_vector prop expected (some Value.null) = some (mismatch prop expected Value.null)
  check_vector prop expected (some actual) =
      compare_numeric_vector py prop expected actual (is_rotation prop)

  abbrev pub vector_rule : Fields → String → Value → Option (List Mismatch)
  vector_rule actual prop expected = some (listed (check_vector prop expected (get prop actual)))

  -- The same where the expectation may be None.
  unfoldable pub vector_if_given : Fields → Fields → String → Option (List Mismatch)
  unfolding get check_vector
  vector_if_given expected actual prop = where_given (get prop expected) (vector_rule actual prop)

  unfoldable pub vector_if_there : Fields → Fields → String → Option (List Mismatch)
  unfolding get check_vector
  vector_if_there expected actual prop = elim (get prop expected) [
    | none ↦ fine
    | some e ↦ vector_rule actual prop e
  ]

  -- `str(v).upper()` of both, where a missing value is "".
  abbrev pub upper_rule : Fields → String → Value → Option (List Mismatch)
  upper_rule actual prop e =
      let x = py.upper (py.show e) in
      let y = py.upper (py.show (or_default (get prop actual) (Value.text ""))) in
      if y == x then fine else fails (mismatch prop (Value.text x) (Value.text y))

  unfoldable pub upper_if_given : Fields → Fields → String → Option (List Mismatch)
  unfolding get
  upper_if_given expected actual prop = where_given (get prop expected) (upper_rule actual prop)

  -- `str(v).strip()` of both.
  abbrev pub strip_rule : Fields → String → Value → Option (List Mismatch)
  strip_rule actual prop e =
      let x = strip (py.show e) in
      let y = strip (py.show (or_default (get prop actual) (Value.text ""))) in
      if x == y then fine else fails (mismatch prop (Value.text x) (Value.text y))

  unfoldable pub strip_if_given : Fields → Fields → String → Option (List Mismatch)
  unfolding get strip
  strip_if_given expected actual prop = where_given (get prop expected) (strip_rule actual prop)

  abbrev pub int_mismatch : String → ℤ → ℤ → Mismatch
  int_mismatch prop expected actual = record {
    property = prop;
    expected = Value.integer expected;
    actual = Value.integer actual;
    diff = Value.integer (difference actual expected);
  }

  -- `int(v)` of two values; an exception goes through.
  unfoldable pub compare_ints : String → Value → Value → Option (List Mismatch)
  compare_ints prop expected actual = elim (py.to_int expected) [
    | none ↦ none
    | some x ↦ elim (py.to_int actual) [
      | none ↦ none
      | some y ↦ if same_int x y then fine else fails (int_mismatch prop x y)
    ]
  ]

  -- An integer that is compared to 0 where there is none.
  unfoldable pub int_if_given : Fields → Fields → String → Option (List Mismatch)
  unfolding get compare_ints
  int_if_given expected actual prop =
      where_given (get prop expected)
        λ e. compare_ints prop e (or_default (get prop actual) (Value.integer (pos 0)))

  abbrev pub scalar_rule : Fields → String → Value → Option (List Mismatch)
  scalar_rule actual prop e =
      some (listed (compare_scalar py prop e (or_default (get prop actual) Value.null)))

  unfoldable pub scalar_if_given : Fields → Fields → String → Option (List Mismatch)
  unfolding get compare_scalar
  scalar_if_given expected actual prop = where_given (get prop expected) (scalar_rule actual prop)

  -- `actual.get(prop) != expected`
  unfoldable pub check_same : String → Value → Option Value → Option Mismatch
  unfolding eq_value
  check_same prop expected actual =
      if eq_value (or_default actual Value.null) expected
      then none
      else some (mismatch prop expected (or_default actual Value.null))
