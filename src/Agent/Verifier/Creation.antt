-- ===== src/Agent/Verifier/Creation.antt =====
-- The creations of ChangeVerifier, agent/verifier.py: objects, cameras, lights and copies.
use blender_ai_sidebar.Prelude.{
  Bool, true, false, not, String, List, Option, none, some, ◌==◌, string_comparable, if◌then◌else◌,
}
use blender_ai_sidebar.Core.Text.{strip}
use blender_ai_sidebar.Core.Json.{pos, Value, Fields, get, eq_value, is_truthy, or_next}
use blender_ai_sidebar.Core.ChangeSet.{Mismatch, VerificationResult}
use blender_ai_sidebar.Agent.Verifier.{
  Numbers, difference, same_int, not_positive, or_default, given, mismatch, both, is_off,
  build_result,
}
use blender_ai_sidebar.Agent.Verifier.Rules.{
  fine, fails, boolean_mismatch, lacks, where_given, vector_if_given, vector_if_there,
  upper_if_given, scalar_if_given,
}

module _ {F : Type 0} (py : Numbers F) where
  -- The result of a rule's mismatches.
  abbrev pub concluded : String → String → Option (List Mismatch) → Option VerificationResult
  concluded operation target none = none
  concluded operation target (some ms) = some (build_result py operation target ms)

  abbrev pub clean_upper : Value → String
  clean_upper v = py.upper (strip (py.show v))

  abbrev type_mismatch : Value → Option Value → Mismatch
  type_mismatch expected actual = mismatch "type" (Value.text (clean_upper expected)) (
      if is_truthy (or_default actual Value.null)
      then Value.text (clean_upper (or_default actual Value.null))
      else Value.null)

  -- `d.get("primitive_type") or d.get("type")`
  abbrev pub type_of : Fields → Option Value
  type_of d = or_next (get "primitive_type" d) (get "type" d)

  unfoldable pub primitive_type_rule : Fields → Fields → Option (List Mismatch)
  unfolding get strip
  primitive_type_rule expected actual = where_given (type_of expected) λ e.
      if clean_upper (or_default (type_of actual) Value.null) == clean_upper e
      then fine
      else fails (type_mismatch e (type_of actual))

  abbrev count_mismatch : Value → Value → Value → Mismatch
  count_mismatch expected actual diff = record {
    property = "vertex_count";
    expected = expected;
    actual = actual;
    diff = diff;
  }

  -- An expected count, which must be the actual one.
  unfoldable pub expected_count : Value → Option Value → Option (List Mismatch)
  expected_count e actual = elim (py.to_int e) [
    | none ↦ none
    | some x ↦ elim (given actual) [
      | none ↦ fails (count_mismatch (Value.integer x) Value.null Value.null)
      | some a ↦ elim (py.to_int a) [
        | none ↦ none
        | some y ↦
            if same_int y x
            then fine
            else fails (
                count_mismatch (Value.integer x) (Value.integer y) (Value.integer (difference y x)))
      ]
    ]
  ]

  -- Without an expectation, a count that is there must be positive.
  unfoldable pub default_count : Option Value → Option (List Mismatch)
  default_count actual = elim (given actual) [
    | none ↦ fine
    | some a ↦ elim (py.to_int a) [
      | none ↦ none
      | some y ↦
          if not_positive y
          then fails (mismatch "vertex_count" (Value.text "> 0") (Value.integer y))
          else fine
    ]
  ]

  unfoldable pub vertex_count_rule : Fields → Fields → Option (List Mismatch)
  unfolding get expected_count default_count
  vertex_count_rule expected actual = elim (given (get "vertex_count" expected)) [
    | some e ↦ expected_count e (get "vertex_count" actual)
    | none ↦ default_count (get "vertex_count" actual)
  ]

  -- `actual.get("exists", actual.get("created", False))`
  abbrev pub exists_or_created : Fields → Bool
  exists_or_created actual =
      is_truthy
        (or_default (get "exists" actual) (or_default (get "created" actual) (Value.boolean false)))

  unfoldable pub verify_create : Fields → Fields → Option (List Mismatch)
  unfolding primitive_type_rule vertex_count_rule vector_if_there both get
  verify_create expected actual =
      if not (exists_or_created actual)
      then fails (boolean_mismatch "exists" true false)
      else both (primitive_type_rule expected actual) (
          both (vertex_count_rule expected actual) (
            both (vector_if_there py expected actual "location") (
              both (vector_if_there py expected actual "rotation")
                (vector_if_there py expected actual "scale"))))

  -- `expected.get("type", kind)` and `actual.get("type")`
  unfoldable pub kind_rule : String → Fields → Fields → Option (List Mismatch)
  unfolding get eq_value
  kind_rule kind expected actual =
      let e = or_default (get "type" expected) (Value.text kind) in
      let a = or_default (get "type" actual) Value.null in
      if eq_value a e then fine else fails (mismatch "type" e a)

  unfoldable pub lens_rule : Fields → Fields → Option (List Mismatch)
  unfolding get
  lens_rule expected actual = where_given (get "lens" expected) λ e. elim (py.to_float e) [
    | none ↦ none
    | some x ↦ elim (py.to_float (or_default (get "lens" actual) (Value.float (pos 0) 0))) [
      | none ↦ none
      | some y ↦
          if is_off py (py.minus y x)
          then fails (record {
            property = "lens";
            expected = py.of_float (py.round_to 2 x);
            actual = py.of_float (py.round_to 2 y);
            diff = py.of_float (py.round_to 4 (py.minus y x));
          })
          else fine
    ]
  ]

  abbrev same_bool : Bool → Bool → Bool
  same_bool true b = b
  same_bool false b = not b

  unfoldable pub active_camera_rule : Fields → Fields → Option (List Mismatch)
  unfolding get
  active_camera_rule expected actual = where_given (get "is_active_camera" expected) λ e.
      let a = is_truthy (or_default (get "is_active_camera" actual) (Value.boolean false)) in
      if same_bool a (is_truthy e)
      then fine
      else fails (boolean_mismatch "is_active_camera" (is_truthy e) a)

  unfoldable pub verify_create_camera : Fields → Fields → Option (List Mismatch)
  unfolding kind_rule vector_if_given lens_rule active_camera_rule both get
  verify_create_camera expected actual =
      if lacks "exists" false actual
      then fails (boolean_mismatch "exists" true false)
      else both (kind_rule "CAMERA" expected actual) (
          both (vector_if_given py expected actual "location") (
            both (vector_if_given py expected actual "rotation")
              (both (lens_rule expected actual) (active_camera_rule expected actual))))

  -- The colour is no rotation, so check_vector compares it as it stands.
  unfoldable pub verify_create_light : Fields → Fields → Option (List Mismatch)
  unfolding kind_rule upper_if_given vector_if_given scalar_if_given both get
  verify_create_light expected actual =
      if lacks "exists" false actual
      then fails (boolean_mismatch "exists" true false)
      else both (kind_rule "LIGHT" expected actual) (
          both (upper_if_given py expected actual "light_type") (
            both (vector_if_given py expected actual "location") (
              both (vector_if_given py expected actual "rotation") (
                both (scalar_if_given py expected actual "energy")
                  (vector_if_given py expected actual "color")))))
