-- ===== src/Agent/Memory/Rolling.antt =====
-- RollingMemory of agent/memory.py: its state, the user's messages and the merge of an earlier
-- summary.
use Prim.Native.String.{◌++◌ as append}
use text.Mathlib.Text.{starts_with}
use blender_ai_sidebar.Prelude.{
  ℕ, Bool, true, false, not, ◌&&◌, ◌||◌, String, List, [], ◌∷◌, ◌++◌, Option, none, some, ◌==◌,
  string_comparable, if◌then◌else◌, leb, contains,
}
use blender_ai_sidebar.Core.Text.{strip}
use blender_ai_sidebar.Core.Json.{Value, Fields, eq_value}
use blender_ai_sidebar.Core.TextParts.{
  includes, length_of, first, after, before_mark, behind_mark, before_last, strip_mark, first_word,
  split_lines,
}
use blender_ai_sidebar.Agent.Models.{ChatMessage}
use blender_ai_sidebar.Agent.Memory.{summary_marker}
use blender_ai_sidebar.Agent.Memory.Builtins.{Builtins, text_of}

pub record Verdict : Type 0 where
  pub decision : String
  pub rationale : String

-- A target comes from a JSON value, and so do the keys of verified_mutations.
pub record RollingMemory : Type 0 where
  pub tasks : List String
  pub verified_mutations : List (Value × Fields)
  pub deleted_entities : List Value
  pub inspections : List String
  pub errors : List String
  pub last_visual_verification : Option Verdict

abbrev pub empty_memory : RollingMemory
empty_memory = record {
  tasks = [];
  verified_mutations = [];
  deleted_entities = [];
  inspections = [];
  errors = [];
  last_visual_verification = none;
}

-- `v in values`
unfoldable pub has_entity : Value → List Value → Bool
has_entity v [] = false
has_entity v (w ∷ ws) = eq_value w v || has_entity v ws

-- `v in mutations`, for a hashable value.
unfoldable pub has_target : Value → List (Value × Fields) → Bool
has_target v [] = false
has_target v ((w, entry) ∷ rest) = eq_value w v || has_target v rest

abbrev pub add_error : String → RollingMemory → RollingMemory
add_error e memory = record memory { errors = memory.errors ++ e ∷ [] }

-- `if s not in self.inspections: self.inspections.append(s)`
abbrev pub add_inspection : String → RollingMemory → RollingMemory
add_inspection s memory =
    if contains s memory.inspections
    then memory
    else record memory { inspections = memory.inspections ++ s ∷ [] }

-- `self.tasks and self.tasks[-1] == task`
unfoldable pub is_last : String → List String → Bool
is_last s [] = false
is_last s (t ∷ []) = t == s
is_last s (t ∷ u ∷ ts) = is_last s (u ∷ ts)

abbrev pub task_text : String → String
task_text content =
    if leb (length_of content) 120 then content else append (first 117 content) "..."

abbrev pub add_task : String → RollingMemory → RollingMemory
add_task task memory =
    if not (task == "") && not (is_last task memory.tasks)
    then record memory { tasks = memory.tasks ++ task ∷ [] }
    else memory

-- The section of the summary that a line belongs to.
pub data Section : Type 0 where
  outside tasks verified deleted inspections visual : Section

unfoldable pub heading : String → Option Section
heading line =
    if starts_with line "- Completed Tasks:" || starts_with line "- Previous Tasks:"
    then some Section.tasks
    else if starts_with line "- Verified Scene State:"
    then some Section.verified
    else if starts_with line "- Deleted Objects:"
    then some Section.deleted
    else if starts_with line "- Inspections:"
    then some Section.inspections
    else if starts_with line "- Visual Verification:"
    then some Section.visual
    else none

abbrev quote_mark : ℕ
quote_mark = 34

abbrev pub apostrophe : ℕ
apostrophe = 39

abbrev pub colon : ℕ
colon = 58

-- An item of the tasks and one of the inspections, which must be new.
abbrev merge_task : String → RollingMemory → RollingMemory
merge_task item memory =
    if not (item == "") && not (contains item memory.tasks)
    then record memory { tasks = memory.tasks ++ item ∷ [] }
    else memory

abbrev merge_inspection : String → RollingMemory → RollingMemory
merge_inspection item memory = if item == "" then memory else add_inspection item memory

abbrev pub merge_deleted : String → RollingMemory → RollingMemory
merge_deleted target memory =
    if not (target == "")
      && not (has_entity (Value.text target) memory.deleted_entities)
      && not (has_target (Value.text target) memory.verified_mutations)
    then record memory { deleted_entities = memory.deleted_entities ++ Value.text target ∷ [] }
    else memory

-- `line.split("Last verdict:", 1)[-1]`
unfoldable pub behind_verdict : String → String
unfolding after
behind_verdict String.[] = String.[]
behind_verdict (String.◌∷◌ c s) = elim (starts_with (String.◌∷◌ c s) "Last verdict:") [
  | true ↦ after 13 (String.◌∷◌ c s)
  | false ↦ behind_verdict s
]

-- `parts[parts.find("(") + 1 : parts.rfind(")")]` where both occur.
unfoldable pub rationale_of : String → String
unfolding behind_mark before_last strip_mark
rationale_of parts =
    if includes "(" parts && includes ")" parts
    then elim (behind_mark 40 parts) [
      | none ↦ ""
      | some rest ↦ elim (before_last 41 rest) [
        | none ↦ ""
        | some inner ↦ strip_mark quote_mark inner
      ]
    ]
    else ""

abbrev verdict_of : String → Verdict
verdict_of parts = record {
  decision = if parts == "" then "UNKNOWN" else first_word parts;
  rationale = rationale_of parts;
}

abbrev merge_visual : String → RollingMemory → RollingMemory
merge_visual line memory =
    if includes "Last verdict:" line
    then record memory {
      last_visual_verification = some (verdict_of (strip (behind_verdict line)));
    }
    else memory

-- A line that is no heading, by the current section.
unfoldable pub merge_item : Section → String → RollingMemory → RollingMemory
unfolding strip strip_mark before_mark after has_entity has_target eq_value behind_verdict
    rationale_of first_word
merge_item Section.tasks line memory =
    if starts_with line "* "
    then merge_task (strip_mark quote_mark (strip (after 2 line))) memory
    else memory
merge_item Section.deleted line memory =
    if starts_with line "* "
    then merge_deleted (strip_mark apostrophe (strip (before_mark colon (after 2 line)))) memory
    else memory
merge_item Section.inspections line memory =
    if starts_with line "* " then merge_inspection (strip (after 2 line)) memory else memory
merge_item Section.visual line memory = merge_visual line memory
merge_item _ line memory = memory

-- The loop over the lines with the current section.
unfoldable pub merge_lines : Section → List String → RollingMemory → RollingMemory
unfolding heading merge_item strip
merge_lines section [] memory = memory
merge_lines section (line ∷ lines) memory = elim (strip line == "") [
  | true ↦ merge_lines section lines memory
  | false ↦ elim (heading (strip line)) [
    | some next ↦ merge_lines next lines memory
    | none ↦ merge_lines section lines (merge_item section (strip line) memory)
  ]
]

-- _merge_previous_summary
unfoldable pub merge_summary : String → RollingMemory → RollingMemory
unfolding merge_lines split_lines
merge_summary content memory = merge_lines Section.outside (split_lines false content) memory

-- _extract_user_message
unfoldable pub extract_user_message : Builtins → ChatMessage → RollingMemory → RollingMemory
unfolding merge_summary is_last
extract_user_message py m memory = elim m.content [
  | none ↦ memory
  | some c ↦
      let content = strip (text_of py c) in
      if text_of py c == ""
      then memory
      else if includes summary_marker content
      then merge_summary content memory
      else add_task (task_text content) memory
]
