-- ===== src/Agent/Memory/Mutations.antt =====
-- The verified mutations in RollingMemory._extract_tool_message of agent/memory.py.
use blender_ai_sidebar.Prelude.{
  Bool, true, false, String, List, [], ◌∷◌, Option, none, some, string_comparable, if◌then◌else◌,
}
use blender_ai_sidebar.Core.Text.{joined}
use blender_ai_sidebar.Core.Json.{
  Value, Fields, get, items, of_list, is_truthy, or_else, or_next, as_object, put,
}
use blender_ai_sidebar.Agent.Memory.Builtins.{Builtins, is_one_of, rounded_first, ◌>>=◌}
use blender_ai_sidebar.Agent.Memory.ShortForms.{value_or}
use blender_ai_sidebar.Agent.Memory.Rolling.{RollingMemory, add_error}
use blender_ai_sidebar.Agent.Memory.Targets.{forget_target, remember_target}

module _ (py : Builtins) where
  -- `if k in data and isinstance(data[k], list)`, with the first three numbers rounded.
  unfoldable pub add_vector : String → Fields → Fields → Option Fields
  unfolding get put of_list rounded_first
  add_vector k payload properties = elim (get k payload) [
    | some (Value.array vs) ↦ rounded_first py 3 (items vs) >>= λ rounded.
        some (put k (Value.array (of_list rounded)) properties)
    | _ ↦ some properties
  ]

  -- `if k in data: properties[k] = round(float(data[k]), 2)`
  unfoldable pub add_shader : String → Fields → Fields → Option Fields
  unfolding get put
  add_shader k payload properties = elim (get k payload) [
    | none ↦ some properties
    | some v ↦ py.rounded v >>= λ rounded. some (put k rounded properties)
  ]

  abbrev pub entry_of : Value → Value → Fields → Fields → Fields
  entry_of op target properties extra = Fields.field "operation" op (
      Fields.field "target" target (
        Fields.field "status" (Value.text "PASS")
          (Fields.field "properties" (Value.object properties) extra)))

  abbrev material_name : Option Value → Fields
  material_name none = Fields.end
  material_name (some v) = if is_truthy v then Fields.field "material" v Fields.end else Fields.end

  -- The entry of a verified mutation, by its operation.
  unfoldable pub make_entry : Value → Value → Fields → Option Fields
  unfolding add_vector add_shader get is_one_of
  make_entry op target payload =
      if is_one_of ("create" ∷ "create_primitive" ∷ []) op
      then (do
        properties ← add_vector "location" payload Fields.end
        some (
            entry_of op target properties (
              Fields.field "primitive_type"
                (or_else (get "primitive_type" payload)
                  (value_or (get "type" payload) (Value.text "OBJECT")))
                Fields.end)))
      else if is_one_of ("transform" ∷ "transform_object" ∷ []) op
      then (do
        located ← add_vector "location" payload Fields.end
        rotated ← add_vector "rotation" payload located
        scaled ← add_vector "scale" payload rotated
        some (entry_of op target scaled Fields.end))
      else if is_one_of ("set_material" ∷ "assign_material" ∷ []) op
      then (do
        rough ← add_shader "roughness" payload Fields.end
        metallic ← add_shader "metallic" payload rough
        emissive ← add_shader "emission_strength" payload metallic
        shaded ← add_shader "alpha" payload emissive
        some (
            entry_of op target shaded
              (material_name (or_next (get "material_name" payload) (get "name" payload)))))
      else some (entry_of op target Fields.end Fields.end)

  unfoldable pub apply_mutation : Value → Value → Fields → RollingMemory → Option RollingMemory
  unfolding make_entry forget_target remember_target is_one_of
  apply_mutation op target payload memory =
      if is_one_of ("delete" ∷ "delete_object" ∷ []) op
      then forget_target target memory
      else make_entry op target payload >>= λ entry. remember_target target entry memory

  -- The mutation that a result verifies; the flag says that the result is done with.
  abbrev pub verification_failed : String → Value → RollingMemory → RollingMemory
  verification_failed tool_name target memory =
      add_error (joined (tool_name ∷ " ('" ∷ py.show target ∷ "'): VERIFICATION_FAILED" ∷ []))
        memory

  abbrev pub target_of : Fields → Fields → Value
  target_of verif payload =
      or_else
        (or_next (or_next (get "target_name" verif) (get "name" payload))
          (get "object_name" payload))
        (Value.text "target")

  abbrev pub status_in : List String → Option Value → Bool
  status_in names none = false
  status_in names (some v) = is_one_of names v

  unfoldable pub extract_mutation : String → Fields → RollingMemory → Option (RollingMemory × Bool)
  unfolding apply_mutation get is_one_of
  extract_mutation tool_name payload memory = elim (as_object (get "verification" payload)) [
    | none ↦ some (memory, false)
    | some verif ↦
        let target = target_of verif payload in
        let op = or_else (get "operation" verif) (Value.text tool_name) in
        if status_in ("PASS" ∷ "OK" ∷ []) (get "status" verif)
        then (apply_mutation op target payload memory >>= λ applied. some (applied, false))
        else if status_in ("FAIL" ∷ []) (get "status" verif)
        then some (verification_failed tool_name target memory, true)
        else some (memory, false)
  ]
