-- ===== src/Agent/Verifier/ChangeSets.antt =====
-- build_change_set_from_result of agent/verifier.py: transforms, materials, copies, and the choice
-- by the tool's name.
use blender_ai_sidebar.Prelude.{
  Bool, true, false, ◌||◌, String, List, [], ◌∷◌, ◌++◌, Option, none, some, ◌==◌, string_comparable,
  nat_comparable, if◌then◌else◌, length,
}
use Prim.Native.String.{◌++◌ as append}
use blender_ai_sidebar.Core.Text.{strip}
use blender_ai_sidebar.Core.Json.{
  pos, Value, Fields, get, items, of_list, is_truthy, or_else, or_next, put,
}
use blender_ai_sidebar.Core.ChangeSet.{ChangeSet}
use blender_ai_sidebar.Agent.Verifier.{Numbers, or_default, given}
use blender_ai_sidebar.Agent.Verifier.Changes.{
  ◌>>=◌, set_given, copy_given, put_result, try_given, change, fields_of, exists_true, iterated,
  name_of, clamp, clamp_all, create_primitive_change, create_camera_change, create_light_change,
  set_shading_change, add_modifier_change, delete_change,
}

module _ {F : Type 0} (py : Numbers F) where
  -- `[op(float(b), float(d)) for b, d in zip(b_vec, arg_vec)]`
  unfoldable pub combined_with : (F → F → F) → List Value → List Value → Option (List Value)
  combined_with op [] ds = some []
  combined_with op (b ∷ bs) [] = some []
  combined_with op (b ∷ bs) (d ∷ ds) = py.to_float b >>= λ x.
      py.to_float d >>= λ y. combined_with op bs ds >>= λ vs. some (py.of_float (op x y) ∷ vs)

  abbrev operation_of : String → F → F → F
  operation_of prop x y = if prop == "scale" then py.times x y else py.plus x y

  unfoldable pub relative_value : String → Value → Value → Option Value
  unfolding iterated combined_with of_list
  relative_value prop b d = iterated b >>= λ bs. iterated d >>= λ ds.
      combined_with (operation_of prop) bs ds >>= λ vs. some (Value.array (of_list vs))

  -- The value before the transform, where it counts.
  abbrev pub start_of : Bool → Option Value → String → Option Value
  start_of true (some (Value.object d)) prop = given (get prop d)
  start_of relative before prop = none

  abbrev pub moved_to : String → Option Value → Value → Option Value
  moved_to prop none d = some d
  moved_to prop (some b) d = relative_value prop b d

  unfoldable pub expected_vector : Bool → Option Value → Fields → String → Fields → Option Fields
  unfolding get put relative_value
  expected_vector relative before arguments prop out =
      try_given prop (get prop arguments) (moved_to prop (start_of relative before prop)) out

  -- `arguments.get("relative", False) or result_data.get("relative", False)`
  abbrev pub is_relative : Fields → Fields → Bool
  is_relative arguments result =
      is_truthy (or_default (get "relative" arguments) (Value.boolean false))
      || is_truthy (or_default (get "relative" result) (Value.boolean false))

  unfoldable pub transform_change : Fields → Fields → Option (Option ChangeSet)
  unfolding get expected_vector
  transform_change arguments result =
      let step = expected_vector (is_relative arguments result) (get "before" result) arguments in
      step "location" (exists_true Fields.end) >>= step "rotation" >>= step "scale" >>= λ expected.
      change "transform" (name_of py (get "name" arguments) (get "object_name" result) "Unknown")
        (get "before" result) expected
        (fields_of (
          some (
            or_else (or_next (get "actual" result) (get "after" result))
              (Value.object Fields.end))))

  -- A colour of three or four numbers is clamped.
  unfoldable pub color_value : List Value → Option Value
  unfolding clamp_all of_list
  color_value vs =
      if length vs == 3
      then (clamp_all py (vs) >>= λ ws.
          some (Value.array (of_list (ws ++ py.of_float py.one_float ∷ []))))
      else if length vs == 4
      then (clamp_all py vs >>= λ ws. some (Value.array (of_list ws)))
      else some (Value.array (of_list vs))

  abbrev with_color : String → Option Value → Fields → Option Fields
  with_color k (some (Value.array vs)) out = put_result k (color_value (items vs)) out
  with_color k v out = some out

  -- A number is clamped, and anything else is expected as it is.
  abbrev clamped : Value → Value
  clamped v = elim (py.to_float v) [ none ↦ v | some x ↦ py.of_float (clamp py x) ]

  abbrev at_least_zero : Value → Value
  at_least_zero v = elim (py.to_float v) [
    | none ↦ v
    | some x ↦ py.of_float (py.max_of py.zero_float x)
  ]

  unfoldable pub material_expected : Fields → Option Fields
  unfolding get put color_value items
  material_expected arguments =
      with_color "base_color" (get "base_color" arguments) Fields.end >>= λ based.
      with_color "emission_color" (get "emission_color" arguments) (
        set_given "roughness" (get "roughness" arguments) clamped
          (set_given "metallic" (get "metallic" arguments) clamped based))
      >>= λ colored. some (
          set_given "alpha" (get "alpha" arguments) clamped (
            set_given "emission_strength" (get "emission_strength" arguments) at_least_zero
              colored))

  -- `result.get("actual") or result.get("after") or result`
  abbrev snapshot : Fields → Fields
  snapshot result =
      fields_of
        (some (or_else (or_next (get "actual" result) (get "after" result)) (Value.object result)))

  unfoldable pub set_material_change : Fields → Fields → Option (Option ChangeSet)
  unfolding get material_expected
  set_material_change arguments result = material_expected arguments >>= λ expected.
      change "set_material"
        (py.show (
          or_else
            (or_next (or_next (get "material_name" result) (get "material_name" arguments))
              (get "object_name" arguments))
            (Value.text "Material")))
        (get "before" result) expected (snapshot result)

  abbrev either_name : String → Fields → Fields → Value
  either_name k arguments result = or_default (or_next (get k arguments) (get k result)) Value.null

  abbrev slot_of : Fields → Fields → Value
  slot_of arguments result =
      or_default (given (get "slot_index" arguments))
        (or_default (given (get "slot_index" result)) (Value.integer (pos 0)))

  unfoldable pub assign_material_change : Fields → Fields → Option (Option ChangeSet)
  unfolding get
  assign_material_change arguments result =
      change "assign_material"
        (name_of py (get "object_name" arguments) (get "object_name" result) "Object")
        (get "before" result)
        (Fields.field "object_name" (either_name "object_name" arguments result) (
          Fields.field "material_name" (either_name "material_name" arguments result)
            (Fields.field "slot_index" (slot_of arguments result) Fields.end)))
        (snapshot result)

  abbrev source_of : Fields → Fields → String
  source_of arguments result =
      name_of py (get "source_name" arguments) (get "source_name" result) ""

  abbrev put_truthy : String → Option Value → Fields → Fields
  put_truthy k none out = out
  put_truthy k (some v) out = if is_truthy v then put k v out else out

  abbrev put_there : String → Option Value → Fields → Fields
  put_there k none out = out
  put_there k (some v) out = put k v out

  unfoldable pub duplicate_change : Fields → Fields → Option (Option ChangeSet)
  unfolding get put
  duplicate_change arguments result =
      let source = source_of arguments result in
      change "duplicate_object"
        (name_of py (get "new_name" result) (get "new_name" arguments) (append source "_copy"))
        (get "before" result)
        (copy_given arguments "scale" (
          copy_given arguments "rotation" (
            copy_given arguments "location" (
              put_there "type" (get "type" result) (
                put_truthy "new_name" (get "new_name" arguments) (
                  Fields.field "source_name" (Value.text source) (
                    Fields.field "source_exists" (Value.boolean true) (
                      Fields.field "new_exists" (Value.boolean true)
                        (Fields.field "distinct_identity" (Value.boolean true) Fields.end)))))))))
        (fields_of (some (or_else (get "actual" result) (Value.object result))))

  -- By the clean name of the tool.
  unfoldable pub change_of : String → Fields → Fields → Option (Option ChangeSet)
  unfolding create_primitive_change create_camera_change create_light_change set_shading_change
      add_modifier_change transform_change delete_change set_material_change assign_material_change
      duplicate_change
  change_of name arguments result =
      if name == "create_primitive"
      then create_primitive_change py arguments result
      else if name == "create_camera"
      then create_camera_change py arguments result
      else if name == "create_light"
      then create_light_change py arguments result
      else if name == "set_shading"
      then set_shading_change py arguments result
      else if name == "add_modifier"
      then add_modifier_change py arguments result
      else if name == "transform_object"
      then transform_change arguments result
      else if name == "delete_object"
      then delete_change py arguments result
      else if name == "set_material"
      then set_material_change arguments result
      else if name == "assign_material"
      then assign_material_change arguments result
      else if name == "duplicate_object"
      then duplicate_change arguments result
      else some none

  unfoldable pub build_change_set_from_result : String → Fields → Fields → Option (Option ChangeSet)
  unfolding change_of strip
  build_change_set_from_result tool_name arguments result =
      change_of (py.lower (strip tool_name)) arguments result
