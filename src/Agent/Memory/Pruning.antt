-- ===== src/Agent/Memory/Pruning.antt =====
-- prune_tool_message_content of agent/memory.py: the short form of an older tool result.
use blender_ai_sidebar.Prelude.{
  Bool, true, false, not, ◌&&◌, String, [], ◌∷◌, Option, none, some, ◌==◌, nat_comparable,
  string_comparable, if◌then◌else◌, ltb,
}
use blender_ai_sidebar.Core.Text.{joined}
use blender_ai_sidebar.Core.Json.{
  Value, Items, Fields, get, has_key, items, of_list, is_truthy, or_else, or_next, put, delete,
}
use blender_ai_sidebar.Core.TextParts.{length_of}
use blender_ai_sidebar.Agent.Models.{Content, plain, dumped}
use blender_ai_sidebar.Agent.Memory.Builtins.{Builtins, text_of, rounded_first, ◌>>=◌}
use blender_ai_sidebar.Agent.Memory.ShortForms.{
  prune_threshold, number, copy, length_items, has_large, with_verifications, value_or, pruned_mesh,
  total_objects, copy_first, location_of, pruned_material, pruned_selection, pruned_other,
  is_mutation,
}

module _ (py : Builtins) where
  -- `loc and isinstance(loc, (list, tuple))`
  abbrev with_location : Option Value → Fields → Option Fields
  with_location (some (Value.array (Items.cons v vs))) out = do
    rounded ← rounded_first py 3 (v ∷ items vs)
    some (put "location" (Value.array (of_list rounded)) out)
  with_location _ out = some out

  unfoldable pub pruned_object : Fields → Option Fields
  unfolding put of_list rounded_first
  pruned_object payload = do
    located ← with_location (location_of payload) (
        Fields.field "name"
          (or_else (or_next (get "name" payload) (get "object_name" payload)) (Value.text "object"))
          (Fields.field "type" (value_or (get "type" payload) (Value.text "MESH"))
            (Fields.field "pruned" (Value.boolean true) Fields.end)))
    some (with_verifications payload (copy_first 5 "materials" payload located))

  -- `f", active='{active_obj}'" if active_obj else ""`
  abbrev active_part : Option Value → String
  active_part none = ""
  active_part (some v) = if is_truthy v then joined (", active='" ∷ py.show v ∷ "'" ∷ []) else ""

  abbrev pub scene_detail : Value → Option Value → String
  scene_detail total active = joined (py.show total ∷ " objects" ∷ active_part active ∷ [])

  abbrev pruned_scene : Fields → Fields
  pruned_scene payload = with_verifications payload (
      Fields.field "pruned" (Value.boolean true) (
        Fields.field "summary"
          (Value.text (scene_detail (total_objects payload) (get "active_object" payload)))
          Fields.end))

  abbrev with_resolution : Option Value → Option Value → Fields → Fields
  with_resolution (some w) (some h) out =
      put "resolution" (Value.text (joined (py.show w ∷ "x" ∷ py.show h ∷ []))) out
  with_resolution _ _ out = out

  abbrev pruned_view : Fields → Fields
  pruned_view payload = copy "visual_verification" payload (
      with_resolution (get "width" payload) (get "height" payload) (
        Fields.field "status" (Value.text "captured")
          (Fields.field "pruned" (Value.boolean true) Fields.end)))

  -- The short form by the tool.
  unfoldable pub short_form : Option String → Fields → Option Fields
  unfolding pruned_object put get
  short_form none payload = some (pruned_other none payload)
  short_form (some name) payload =
      if name == "inspect_mesh"
      then some (pruned_mesh payload)
      else if name == "inspect_scene"
      then some (pruned_scene payload)
      else if name == "inspect_object"
      then pruned_object payload
      else if name == "inspect_material"
      then some (pruned_material payload)
      else if name == "inspect_selection"
      then some (pruned_selection payload)
      else if name == "capture_viewport"
      then some (pruned_view payload)
      else some (pruned_other (some name) payload)

  abbrev is_viewport : Option String → Bool
  is_viewport none = false
  is_viewport (some name) = name == "capture_viewport"

  -- A small result is left as it is.
  abbrev is_small : Option String → Content → Fields → Bool
  is_small tool_name content payload =
      not (is_viewport tool_name)
      && ltb (length_of (text_of py content)) prune_threshold
      && not (has_large payload)

  -- A result without its image, which is unlinked.
  abbrev without_image : Content → Fields → Content × Bool
  without_image content payload =
      if has_key "image_id" payload
      then (dumped (Value.object (delete "image_id" payload)), true)
      else (content, false)

  abbrev is_pruned : Option Value → Bool
  is_pruned (some (Value.boolean b)) = b
  is_pruned _ = false

  unfoldable pub prune_object : Option String → Content → Fields → Option (Content × Bool)
  unfolding short_form has_large get
  prune_object tool_name content payload =
      if is_pruned (get "pruned" payload)
      then some (without_image content payload)
      else if is_mutation tool_name payload
      then some (without_image (dumped (Value.object payload)) payload)
      else if is_small tool_name content payload
      then some (content, false)
      else short_form tool_name payload >>= λ short. some (dumped (Value.object short), true)

  abbrev is_long : Content → Bool
  is_long content = ltb prune_threshold (length_of (text_of py content))

  abbrev pub truncated : Content
  truncated = plain "[PRUNED: Tool result was truncated from older turn to conserve context.]"

  -- By what json.loads returns.
  unfoldable pub prune_parsed : Option String → Content → Option Value → Option (Content × Bool)
  unfolding prune_object
  prune_parsed tool_name content none =
      if is_long content then some (truncated, true) else some (content, false)
  prune_parsed tool_name content (some (Value.object payload)) =
      prune_object tool_name content payload
  prune_parsed tool_name content (some (Value.array vs)) =
      if is_long content
      then some (
        dumped (
            Value.object (
              Fields.field "pruned" (Value.boolean true)
                (Fields.field "count" (number (length_items vs)) Fields.end))),
        true,
      )
      else some (content, false)
  prune_parsed tool_name content (some v) = some (content, false)

  -- prune_tool_message_content; `none` stands for an exception.
  unfoldable pub prune_content : Option String → Option Content → Option (Content × Bool)
  unfolding prune_parsed
  prune_content tool_name none = some (plain "", false)
  prune_content tool_name (some content) =
      if text_of py content == ""
      then some (plain "", false)
      else prune_parsed tool_name content (py.loads (text_of py content))
