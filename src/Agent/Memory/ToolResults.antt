-- ===== src/Agent/Memory/ToolResults.antt =====
-- RollingMemory._extract_tool_message of agent/memory.py: what is remembered of a tool result.
use blender_ai_sidebar.Prelude.{
  ℕ, ◌&&◌, String, List, [], ◌∷◌, Option, none, some, ◌==◌, string_comparable, if◌then◌else◌,
  length, contains,
}
use blender_ai_sidebar.Core.Text.{joined}
use blender_ai_sidebar.Core.Json.{
  pos, Value, Items, Fields, get, has_key, items, size, is_truthy, or_else, or_next, as_object,
}
use blender_ai_sidebar.Core.TextParts.{includes, length_of, first}
use blender_ai_sidebar.Agent.Models.{Role, ChatMessage}
use blender_ai_sidebar.Agent.Memory.Builtins.{Builtins, text_of, ◌>>=◌}
use blender_ai_sidebar.Agent.Memory.Pruning.{scene_detail}
use blender_ai_sidebar.Agent.Memory.ShortForms.{value_or}
use blender_ai_sidebar.Agent.Memory.Rolling.{
  RollingMemory, add_error, add_inspection, extract_user_message,
}
use blender_ai_sidebar.Agent.Memory.Mutations.{extract_mutation}

module _ (py : Builtins) where
  unfoldable pub extract_visual : Fields → RollingMemory → RollingMemory
  unfolding get first
  extract_visual payload memory = elim (as_object (get "visual_verification" payload)) [
    | none ↦ memory
    | some vis ↦ record memory {
      last_visual_verification = some (record {
        decision =
            py.show
              (or_else (or_next (get "decision" vis) (get "status" vis)) (Value.text "UNKNOWN"));
        rationale = first 120 (py.show (or_else (get "rationale" vis) (Value.text "")));
      });
    }
  ]

  -- `f"{v}v, {f}f" if v and f else "inspected"`
  abbrev counts_text : Option Value → Option Value → String
  counts_text (some v) (some f) =
      if is_truthy v && is_truthy f
      then joined (py.show v ∷ "v, " ∷ py.show f ∷ "f" ∷ [])
      else "inspected"
  counts_text _ _ = "inspected"

  abbrev pub mesh_text : Fields → String
  mesh_text payload = joined (
      "inspect_mesh('"
      ∷ py.show
          (or_else (or_next (get "name" payload) (get "object_name" payload)) (Value.text "object"))
      ∷ ": "
      ∷ counts_text (or_next (get "vertex_count" payload) (get "vertices_count" payload))
          (or_next (get "face_count" payload) (get "polygon_count" payload))
      ∷ ")"
      ∷ [])

  -- `len(v)`
  abbrev length_of_value : Value → Option ℕ
  length_of_value (Value.array vs) = some (length (items vs))
  length_of_value (Value.object d) = some (size d)
  length_of_value (Value.text t) = some (length_of t)
  length_of_value _ = none

  abbrev number_of_collections : Fields → Option Value
  number_of_collections payload =
      length_of_value (value_or (get "collections" payload) (Value.array Items.nil)) >>= λ n.
      some (Value.integer (pos n))

  abbrev total_in : Fields → Option Value → Option Value
  total_in payload none = number_of_collections payload
  total_in payload (some v) = if is_truthy v then some v else number_of_collections payload

  -- The total of the counts, or else the number of the collections.
  unfoldable pub scene_total : Fields → Option Value
  unfolding get items size length_of
  scene_total payload = elim (value_or (get "counts" payload) (Value.object Fields.end)) [
    | Value.object counts ↦ total_in payload (get "total" counts)
    | _ ↦ none
  ]

  abbrev pub scene_text : Fields → Value → String
  scene_text payload total =
      joined ("inspect_scene(" ∷ scene_detail py total (get "active_object" payload) ∷ ")" ∷ [])

  abbrev pub target_text : String → Value → String
  target_text tool_name target =
      if is_truthy target then joined (tool_name ∷ "('" ∷ py.show target ∷ "')" ∷ []) else tool_name

  abbrev pub inspected_target : Fields → Value
  inspected_target payload =
      or_else
        (or_next (or_next (get "name" payload) (get "material_name" payload))
          (get "active_object" payload))
        (Value.text "")

  unfoldable pub extract_inspection : String → Fields → RollingMemory → Option RollingMemory
  unfolding scene_total get contains
  extract_inspection tool_name payload memory =
      if tool_name == "inspect_mesh"
      then some (add_inspection (mesh_text payload) memory)
      else if tool_name == "inspect_scene"
      then (scene_total payload >>= λ total.
          some (add_inspection (scene_text payload total) memory))
      else if contains tool_name ("inspect_object" ∷ "inspect_material" ∷ "inspect_selection" ∷ [])
      then some (add_inspection (target_text tool_name (inspected_target payload)) memory)
      else if tool_name == "capture_viewport"
      then some (add_inspection "capture_viewport (visual check)" memory)
      else some memory

  -- A result without an "error".
  unfoldable pub extract_result : String → Fields → RollingMemory → Option RollingMemory
  unfolding extract_mutation extract_visual extract_inspection
  extract_result tool_name payload memory = do
    (applied, over) ← extract_mutation py tool_name payload memory
    if over
        then some applied
        else extract_inspection tool_name payload (extract_visual payload applied)

  abbrev error_text : String → Fields → String
  error_text tool_name payload = joined (
      tool_name
      ∷ " ("
      ∷ py.show (value_or (get "type" payload) (Value.text "ERROR"))
      ∷ "): "
      ∷ py.show (value_or (get "error" payload) Value.null)
      ∷ [])

  abbrev pub parsed_fields : Value → Fields
  parsed_fields (Value.object d) = d
  parsed_fields v = Fields.end

  -- By what json.loads returns.
  unfoldable pub extract_parsed :
      String → String → Option Value → RollingMemory → Option RollingMemory
  unfolding extract_result get first
  extract_parsed tool_name content none memory =
      if includes "error" (py.lower content)
      then some (add_error (joined (tool_name ∷ ": " ∷ first 80 content ∷ [])) memory)
      else some memory
  extract_parsed tool_name content (some v) memory =
      if has_key "error" (parsed_fields v)
      then some (add_error (error_text tool_name (parsed_fields v)) memory)
      else extract_result tool_name (parsed_fields v) memory

  abbrev pub tool_name_of : Option String → String
  tool_name_of none = "tool"
  tool_name_of (some name) = if name == "" then "tool" else name

  unfoldable pub extract_tool_message : ChatMessage → RollingMemory → Option RollingMemory
  unfolding extract_parsed
  extract_tool_message m memory = elim m.content [
    | none ↦ some memory
    | some c ↦
        if text_of py c == ""
        then some memory
        else extract_parsed (tool_name_of m.name) (text_of py c) (py.loads (text_of py c)) memory
  ]

  unfoldable pub extract_message : ChatMessage → RollingMemory → Option RollingMemory
  unfolding extract_tool_message extract_user_message
  extract_message m memory = elim m.role [
    | Role.user ↦ some (extract_user_message py m memory)
    | Role.tool ↦ extract_tool_message m memory
    | _ ↦ some memory
  ]

  -- add_turn_cluster
  unfoldable pub add_turn_cluster : List ChatMessage → RollingMemory → Option RollingMemory
  unfolding extract_message
  add_turn_cluster [] memory = some memory
  add_turn_cluster (m ∷ ms) memory = extract_message m memory >>= add_turn_cluster ms
