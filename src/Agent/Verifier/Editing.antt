-- ===== src/Agent/Verifier/Editing.antt =====
-- The changes of objects in ChangeVerifier, agent/verifier.py: shading, modifiers, copies,
-- transforms, deletions and materials.
use blender_ai_sidebar.Prelude.{
  Bool, true, false, not, ◌&&◌, ◌||◌, String, List, [], ◌∷◌, ◌++◌, Option, none, some, ◌==◌,
  string_comparable, if◌then◌else◌, contains,
}
use Prim.Native.String.{◌++◌ as append}
use blender_ai_sidebar.Core.Text.{joined, strip}
use blender_ai_sidebar.Core.TextParts.{includes}
use blender_ai_sidebar.Core.Json.{Value, Fields, get, items, eq_value, is_truthy, or_next}
use blender_ai_sidebar.Core.ChangeSet.{Mismatch}
use blender_ai_sidebar.Agent.Verifier.{
  Numbers, same_int, given, mismatch, both, listed, compare_numeric_vector, compare_scalar,
}
use blender_ai_sidebar.Agent.Verifier.Rules.{
  fine, fails, boolean_mismatch, lacks, where_given, is_rotation, vector_if_given, upper_if_given,
  upper_rule, strip_rule, strip_if_given, int_if_given, int_mismatch, scalar_if_given, check_vector,
  check_same,
}

-- `v is True` and `v is False`
abbrev pub is_true : Option Value → Bool
is_true (some (Value.boolean b)) = b
is_true _ = false

abbrev pub is_false : Option Value → Bool
is_false (some (Value.boolean b)) = not b
is_false _ = false

-- `expected[k]` where it is truthy.
abbrev where_truthy : Option Value → (Value → Option (List Mismatch)) → Option (List Mismatch)
where_truthy none rule = fine
where_truthy (some v) rule = if is_truthy v then rule v else fine

unfoldable pub verify_delete : Fields → Option (List Mismatch)
unfolding get
verify_delete actual =
    if is_true (get "exists" actual)
    then fails (boolean_mismatch "exists" false true)
    else if is_false (get "deleted" actual)
    then fails (boolean_mismatch "deleted" true false)
    else fine

-- The rules of a loop over the items of the expectation.
unfoldable pub check_items : (String → Value → Option Mismatch) → Fields → List Mismatch
check_items rule Fields.end = []
check_items rule (Fields.field k v d) = listed (rule k v) ++ check_items rule d

module _ {F : Type 0} (py : Numbers F) where
  unfoldable pub verify_set_shading : Fields → Fields → Option (List Mismatch)
  unfolding upper_if_given get
  verify_set_shading expected actual =
      if lacks "exists" false actual
      then fails (boolean_mismatch "exists" true false)
      else upper_if_given py expected actual "shading"

  -- `expected.get("modifier_type") == name`
  abbrev has_type : String → Option Value → Bool
  has_type name (some (Value.text t)) = t == name
  has_type name _ = false

  unfoldable pub modifier_rule : Fields → Fields → Option (List Mismatch)
  unfolding scalar_if_given int_if_given upper_if_given strip_if_given get both
  modifier_rule expected actual =
      if has_type "BEVEL" (get "modifier_type" expected)
      then both (scalar_if_given py expected actual "width")
          (int_if_given py expected actual "segments")
      else if has_type "SUBSURF" (get "modifier_type" expected)
      then int_if_given py expected actual "levels"
      else if has_type "BOOLEAN" (get "modifier_type" expected)
      then both (upper_if_given py expected actual "operation")
          (strip_if_given py expected actual "target_object")
      else fine

  unfoldable pub verify_add_modifier : Fields → Fields → Option (List Mismatch)
  unfolding upper_if_given modifier_rule get both
  verify_add_modifier expected actual =
      if lacks "exists" false actual
      then fails (boolean_mismatch "exists" true false)
      else both (upper_if_given py expected actual "modifier_type") (modifier_rule expected actual)

  -- `before[k]` where `k in before`: only a dictionary has values by texts.
  unfoldable pub before_value : Value → String → Option (Option Value)
  unfolding get items contains
  before_value (Value.object d) k = some (get k d)
  before_value (Value.array vs) k = if holds (items vs) then none else some none
    where
      holds : List Value → Bool
      holds [] = false
      holds (Value.text t ∷ ws) = t == k || holds ws
      holds (w ∷ ws) = holds ws
  before_value (Value.text t) k = if includes k t then none else some none
  before_value v k = none

  abbrev source_vector : Value → String → String → Value → Option (List Mismatch)
  source_vector before prop key actual = elim (before_value before prop) [
    | none ↦ none
    | some none ↦ fine
    | some (some b) ↦ some (listed (compare_numeric_vector py key b actual (is_rotation prop)))
  ]

  -- The source of a copy is as it was before.
  unfoldable pub source_rule : Value → Fields → String → Option (List Mismatch)
  unfolding before_value compare_numeric_vector get
  source_rule before actual prop = elim (get (append "source_" prop) actual) [
    | none ↦ fine
    | some a ↦ source_vector before prop (append "source_" prop) a
  ]

  unfoldable pub sources_rule : Option Value → Fields → Option (List Mismatch)
  unfolding source_rule both
  sources_rule before actual = where_truthy before λ b.
      both (source_rule b actual "location")
        (both (source_rule b actual "rotation") (source_rule b actual "scale"))

  abbrev flag_rule : String → Bool → Fields → Option (List Mismatch)
  flag_rule k default actual =
      if lacks k default actual then fails (boolean_mismatch k true false) else fine

  -- `src_name and act_new_name and src_name == act_new_name`
  unfoldable pub names_rule : Option Value → Option Value → Option (List Mismatch)
  unfolding eq_value
  names_rule source new = where_truthy source λ s. where_truthy new λ n.
      if eq_value s n
      then fails
          (mismatch "identity_name_distinct" (Value.text (joined ("!= " ∷ py.show s ∷ []))) n)
      else fine

  -- The checks of a copy that exists.
  unfoldable pub copy_rule : Fields → Fields → Option (List Mismatch)
  unfolding vector_if_given names_rule get both strip
  copy_rule expected actual =
      both (where_truthy (get "new_name" expected) (strip_rule py actual "new_name")) (
        both (where_truthy (get "type" expected) (upper_rule py actual "type")) (
          both (vector_if_given py expected actual "location") (
            both (vector_if_given py expected actual "rotation") (
              both (vector_if_given py expected actual "scale") (
                both (flag_rule "distinct_identity" false actual) (
                  names_rule (or_next (get "source_name" actual) (get "source_name" expected))
                    (get "new_name" actual)))))))

  unfoldable pub verify_duplicate_object : Option Value → Fields → Fields → Option (List Mismatch)
  unfolding sources_rule copy_rule get both
  verify_duplicate_object before expected actual = both (flag_rule "source_exists" false actual) (
      both (flag_rule "source_preserved" true actual) (
        both (sources_rule before actual) (
          if lacks "new_exists" false actual && lacks "exists" true actual
          then fails (boolean_mismatch "new_exists" true false)
          else copy_rule expected actual)))

  -- One expected property of a transform.
  unfoldable pub transform_rule : Fields → String → Value → Option Mismatch
  unfolding check_vector check_same get contains
  transform_rule actual prop e =
      if contains prop ("location" ∷ "rotation" ∷ "scale" ∷ [])
      then check_vector py prop e (get prop actual)
      else if contains prop ("exists" ∷ "target_name" ∷ "relative" ∷ [])
      then none
      else check_same py prop e (get prop actual)

  unfoldable pub verify_transform : Fields → Fields → Option (List Mismatch)
  unfolding transform_rule check_items get
  verify_transform expected actual =
      if is_false (get "exists" actual)
      then fails (boolean_mismatch "exists" true false)
      else some (check_items (transform_rule actual) expected)

  -- A scalar that is expected: it must be there and agree.
  unfoldable pub check_scalar : String → Value → Option Value → Option Mismatch
  unfolding compare_scalar
  check_scalar prop e none = some (mismatch prop e Value.null)
  check_scalar prop e (some Value.null) = some (mismatch prop e Value.null)
  check_scalar prop e (some a) = compare_scalar py prop e a

  unfoldable pub material_rule : Fields → String → Value → Option Mismatch
  unfolding check_vector check_scalar check_same get contains
  material_rule actual prop e =
      if contains prop ("base_color" ∷ "emission_color" ∷ [])
      then check_vector py prop e (get prop actual)
      else if contains prop ("metallic" ∷ "roughness" ∷ "emission_strength" ∷ "alpha" ∷ [])
      then check_scalar prop e (get prop actual)
      else check_same py prop e (get prop actual)

  -- The material's properties, nested or flat.
  abbrev pub bsdf_of : Fields → Fields
  bsdf_of actual = elim (get "principled_bsdf" actual) [ some (Value.object d) ↦ d | _ ↦ actual ]

  unfoldable pub verify_set_material : Fields → Fields → Option (List Mismatch)
  unfolding material_rule check_items get
  verify_set_material expected actual = some (check_items (material_rule (bsdf_of actual)) expected)

  abbrev same_name : Value → Value → Bool
  same_name a e = strip (py.show a) == strip (py.show e)

  unfoldable pub object_name_rule : Fields → Fields → Option (List Mismatch)
  unfolding get strip
  object_name_rule expected actual = where_given (get "object_name" expected) λ e.
      elim (given (get "object_name" actual)) [
        | none ↦ fails (mismatch "object_name" e Value.null)
        | some a ↦ if same_name a e then fine else fails (mismatch "object_name" e a)
      ]

  unfoldable pub slot_rule : Fields → Fields → Option (List Mismatch)
  unfolding get
  slot_rule expected actual = where_given (get "slot_index" expected) λ e. elim (py.to_int e) [
    | none ↦ none
    | some x ↦ elim (given (get "slot_index" actual)) [
      | none ↦ fails (mismatch "slot_index" (Value.integer x) Value.null)
      | some a ↦ elim (py.to_int a) [
        | none ↦ none
        | some y ↦ if same_int y x then fine else fails (int_mismatch py "slot_index" x y)
      ]
    ]
  ]

  unfoldable pub material_name_rule : Fields → Fields → Option (List Mismatch)
  unfolding get strip
  material_name_rule expected actual = where_given (get "material_name" expected) λ e.
      let x = Value.text (strip (py.show e)) in
      elim (given (get "material_name" actual)) [
        | none ↦ fails (mismatch "material_name" x Value.null)
        | some a ↦
            if same_name a e
            then fine
            else fails (mismatch "material_name" x (Value.text (strip (py.show a))))
      ]

  unfoldable pub verify_assign_material : Fields → Fields → Option (List Mismatch)
  unfolding object_name_rule slot_rule material_name_rule both
  verify_assign_material expected actual =
      both (object_name_rule expected actual)
        (both (slot_rule expected actual) (material_name_rule expected actual))
