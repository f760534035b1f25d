-- ===== src/Agent/Memory/ShortForms.antt =====
-- The short forms of tool results in prune_tool_message_content of agent/memory.py.
use blender_ai_sidebar.Prelude.{
  ℕ, suc, Bool, true, false, not, ◌&&◌, ◌||◌, String, List, [], ◌∷◌, Option, none, some, ◌==◌,
  nat_comparable, string_comparable, if◌then◌else◌, ltb, take, contains,
}
use blender_ai_sidebar.Core.Json.{
  pos, Value, Items, Fields, get, has_key, items, of_list, size, or_else, or_next, put,
}

abbrev pub prune_threshold : ℕ
prune_threshold = 300

abbrev mutation_tools : List String
mutation_tools =
    "create_primitive" ∷ "transform_object" ∷ "delete_object" ∷ "set_material" ∷ "assign_material"
    ∷ []

abbrev inspection_tools : List String
inspection_tools =
    "inspect_mesh" ∷ "inspect_scene" ∷ "inspect_object" ∷ "inspect_material" ∷ "inspect_selection"
    ∷ "capture_viewport" ∷ []

abbrev pub number : ℕ → Value
number n = Value.integer (pos n)

-- `if k in payload: out[j] = payload[k]`
abbrev pub copy : String → Fields → Fields → Fields
copy k payload out = elim (get k payload) [ none ↦ out | some v ↦ put k v out ]

abbrev pub length_items : Items → ℕ
length_items Items.nil = 0
length_items (Items.cons v vs) = suc (length_items vs)

-- `isinstance(v, (list, dict)) and len(v) > 5`
abbrev is_large : Value → Bool
is_large (Value.array vs) = ltb 5 (length_items vs)
is_large (Value.object d) = ltb 5 (size d)
is_large _ = false

unfoldable pub has_large : Fields → Bool
has_large Fields.end = false
has_large (Fields.field k v d) = is_large v || has_large d

-- The fields that every short form keeps.
abbrev pub with_verifications : Fields → Fields → Fields
with_verifications payload out =
    copy "visual_verification" payload (copy "verification" payload out)

abbrev object_or_empty : Option Value → Fields
object_or_empty (some (Value.object d)) = d
object_or_empty _ = Fields.end

abbrev pub value_or : Option Value → Value → Value
value_or none w = w
value_or (some v) w = v

abbrev pub pruned_mesh : Fields → Fields
pruned_mesh payload =
    let counts = object_or_empty (get "counts" payload) in
    with_verifications payload (
      Fields.field "object_name"
        (or_else (or_next (get "object_name" payload) (get "name" payload)) (Value.text "object"))
        (Fields.field "vertex_count"
          (or_else
            (or_next (or_next (get "vertex_count" payload) (get "vertices" counts))
              (get "vertices_count" payload))
            (number 0))
          (Fields.field "face_count"
            (or_else
              (or_next (or_next (get "face_count" payload) (get "polygons" counts))
                (get "polygon_count" payload))
              (number 0))
            (Fields.field "pruned" (Value.boolean true) Fields.end))))

-- The length of a list under the key, or else the next answer.
abbrev listed : Option Value → Value → Value
listed (some (Value.array vs)) w = number (length_items vs)
listed _ w = w

-- `counts.get("total")`, where None is as missing.
abbrev pub total_objects : Fields → Value
total_objects payload = elim (get "total" (object_or_empty (get "counts" payload))) [
  | none ↦ listed (get "objects" payload) (listed (get "collections" payload) (number 0))
  | some Value.null ↦ listed (get "objects" payload) (listed (get "collections" payload) (number 0))
  | some v ↦ v
]

-- `payload["materials"][:n]` of a list that is not empty.
abbrev pub copy_first : ℕ → String → Fields → Fields → Fields
copy_first n k payload out = elim (get k payload) [
  | some (Value.array (Items.cons v vs)) ↦ put k (Value.array (of_list (take n (v ∷ items vs)))) out
  | _ ↦ out
]

-- The location of the object, its own or that of its transform.
abbrev pub location_of : Fields → Option Value
location_of payload = elim (get "location" payload) [
  | some v ↦ some v
  | none ↦ get "location" (object_or_empty (get "transform" payload))
]

-- A shader's value, its own or that of the Principled BSDF.
abbrev copy_shader : Fields → String → Fields → Fields
copy_shader payload k out = elim (get k payload) [
  | some v ↦ put k v out
  | none ↦ elim (get k (object_or_empty (get "principled_bsdf" payload))) [
    | some v ↦ put k v out
    | none ↦ out
  ]
]

abbrev pub pruned_material : Fields → Fields
pruned_material payload = with_verifications payload (
    copy_first 5 "assigned_objects" payload (
      copy_shader payload "emission_strength" (
        copy_shader payload "base_color" (
          copy_shader payload "metallic" (
            copy_shader payload "roughness" (
              Fields.field "name"
                (or_else (or_next (get "material_name" payload) (get "name" payload))
                  (Value.text "material"))
                (Fields.field "pruned" (Value.boolean true) Fields.end)))))))

abbrev selected : Option Value → Items
selected (some (Value.array vs)) = vs
selected _ = Items.nil

abbrev pub pruned_selection : Fields → Fields
pruned_selection payload =
    let objects = selected (get "selected_objects" payload) in
    with_verifications payload (
      copy "mode" payload (
        Fields.field "active_object" (value_or (get "active_object" payload) Value.null) (
          Fields.field "selected_objects" (Value.array (of_list (take 10 (items objects)))) (
            Fields.field "selection_count"
              (value_or (get "selection_count" payload) (number (length_items objects)))
              (Fields.field "pruned" (Value.boolean true) Fields.end)))))

abbrev pub pruned_other : Option String → Fields → Fields
pruned_other tool_name payload = with_verifications payload (
    copy "status" payload (
      copy "object_name" payload (
        copy "target_name" payload (
          copy "name" payload (
            Fields.field "tool"
              (Value.text (elim tool_name [
                | none ↦ "inspection"
                | some name ↦ if name == "" then "inspection" else name
              ]))
              (Fields.field "pruned" (Value.boolean true) Fields.end))))))

-- `tool_name in MUTATION_TOOLS` and the test of "verification".
abbrev named_in : List String → Option String → Bool
named_in names none = false
named_in names (some name) = contains name names

abbrev pub is_mutation : Option String → Fields → Bool
is_mutation tool_name payload =
    named_in mutation_tools tool_name
    || (has_key "verification" payload && not (named_in inspection_tools tool_name))
