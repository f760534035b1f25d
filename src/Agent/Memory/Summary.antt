-- ===== src/Agent/Memory/Summary.antt =====
-- RollingMemory.to_summary_text and build_summary_messages of agent/memory.py.
use blender_ai_sidebar.Prelude.{
  ℕ, ◌-◌, String, List, [], ◌∷◌, ◌++◌, Option, none, some, ◌==◌, string_comparable, if◌then◌else◌,
  map, length, drop,
}
use blender_ai_sidebar.Core.Text.{joined}
use blender_ai_sidebar.Core.Json.{Value, Fields, get, is_truthy}
use blender_ai_sidebar.Core.TextParts.{join}
use blender_ai_sidebar.Agent.Models.{Role, plain, ChatMessage}
use blender_ai_sidebar.Agent.Memory.{summary_marker}
use blender_ai_sidebar.Agent.Memory.Builtins.{Builtins, ◌>>=◌}
use blender_ai_sidebar.Agent.Memory.ShortForms.{value_or}
use blender_ai_sidebar.Agent.Memory.Rolling.{Verdict, RollingMemory}

-- `xs[-n:]`
abbrev pub last_of {ℓ} : {A : Type ℓ} → ℕ → List A → List A
last_of n xs = drop (length xs - n) xs

-- A section of the summary, if it has lines.
abbrev section : String → List String → List String
section title [] = []
section title (line ∷ lines) = joined (title ∷ "\n" ∷ join "\n" (line ∷ lines) ∷ []) ∷ []

abbrev visual_lines : Option Verdict → List String
visual_lines none = []
visual_lines (some v) =
    joined (
      "  * Last verdict: "
      ∷ v.decision
      ∷ (if v.rationale == "" then "" else joined (" (\"" ∷ v.rationale ∷ "\")" ∷ []))
      ∷ [])
    ∷ []

module _ (py : Builtins) where
  abbrev pair_text : String × Value → String
  pair_text (k, v) = joined (k ∷ "=" ∷ py.show v ∷ [])

  -- `props.items()` fails on what is no dictionary.
  abbrev properties_text : Value → Option String
  properties_text (Value.object (Fields.field k v d)) =
      some (
        joined
          (" (" ∷ join ", " (map pair_text (py.sorted_fields (Fields.field k v d))) ∷ ")" ∷ []))
  properties_text v = if is_truthy v then none else some ""

  abbrev material_text : Option Value → String
  material_text none = ""
  material_text (some v) = joined (", material='" ∷ py.show v ∷ "'" ∷ [])

  unfoldable pub state_line : Value × Fields → Option String
  unfolding join get
  state_line (name, item) = do
    properties ← properties_text (value_or (get "properties" item) (Value.object Fields.end))
    some (
        joined (
          "  * '"
          ∷ py.show name
          ∷ "': "
          ∷ py.show (value_or (get "operation" item) (Value.text "modified"))
          ∷ properties
          ∷ material_text (get "material" item)
          ∷ " [PASS]"
          ∷ []))

  unfoldable pub state_lines : List (Value × Fields) → Option (List String)
  unfolding state_line
  state_lines [] = some []
  state_lines (item ∷ rest) = do
    line ← state_line item
    lines ← state_lines rest
    some (line ∷ lines)

  abbrev task_line : String → String
  task_line task = joined ("  * \"" ∷ task ∷ "\"" ∷ [])

  abbrev deleted_line : Value → String
  deleted_line v = joined ("  * '" ∷ py.show v ∷ "': deleted [PASS]" ∷ [])

  abbrev item_line : String → String
  item_line s = joined ("  * " ∷ s ∷ [])

  abbrev summary_text : List String → String
  summary_text [] = "- No previous actions recorded."
  summary_text (s ∷ sections) = join "\n" (s ∷ sections)

  -- to_summary_text; `none` stands for an exception.
  unfoldable pub to_summary_text : RollingMemory → Option String
  unfolding state_lines join
  to_summary_text memory = do
    living ← py.sorted_items memory.verified_mutations
    state ← state_lines living
    deleted ← py.sorted_values memory.deleted_entities
    some (
        summary_text (
          section "- Completed Tasks:" (map task_line (last_of 6 memory.tasks))
          ++ section "- Verified Scene State:" state
          ++ section "- Deleted Objects:" (map deleted_line deleted)
          ++ section "- Inspections:" (map item_line (last_of 4 memory.inspections))
          ++ section "- Visual Verification:" (visual_lines memory.last_visual_verification)
          ++ section "- Past Warnings/Errors:" (map item_line (last_of 3 memory.errors))))

  abbrev pub spoken : Role → String → ChatMessage
  spoken role text = record {
    role = role;
    content = some (plain text);
    tool_calls = [];
    tool_call_id = none;
    name = none;
    image_id = none;
  }

  abbrev pub summary_user : String → ChatMessage
  summary_user text = spoken Role.user (
      joined (
        summary_marker
        ∷ "\nEarlier conversation turns were compacted to conserve context while preserving "
        ∷ "verified state:\n" ∷ text ∷ []))

  abbrev pub acknowledgement : ChatMessage
  acknowledgement =
      spoken Role.assistant
        "Understood. I have recorded the previous tasks and verified scene state in memory."

  unfoldable pub build_summary_messages : RollingMemory → Option (List ChatMessage)
  unfolding to_summary_text
  build_summary_messages memory = do
    text ← to_summary_text memory
    some (summary_user text ∷ acknowledgement ∷ [])
