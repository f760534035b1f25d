-- ===== src/Tests/Compactions.antt =====
-- A conversation of four turns that is shortened to its last one, and an earlier summary.
use blender_ai_sidebar.Prelude.{
  ◌+◌, ◌≤◌, ◌≡◌, refl, arith, Bool, false, String, List, [], ◌∷◌, ◌++◌, Option, none, some,
  contains, remove, ◌==◌, string_comparable, if◌then◌else◌,
}
use blender_ai_sidebar.Core.Text.{strip}
use blender_ai_sidebar.Core.Json.{Value, Fields, entries}
use blender_ai_sidebar.Agent.Models.{ToolCall, Role, plain, ChatMessage}
use blender_ai_sidebar.Agent.Conversation.{validate_sequence}
use blender_ai_sidebar.Agent.Memory.{prune_conversation, partition}
use blender_ai_sidebar.Agent.Memory.Builtins.{Builtins, mentions}
use blender_ai_sidebar.Agent.Memory.Pruning.{prune_content}
use blender_ai_sidebar.Agent.Memory.Rolling.{RollingMemory, empty_memory, merge_summary}
use blender_ai_sidebar.Agent.Memory.Summary.{to_summary_text}
use blender_ai_sidebar.Agent.Memory.Compaction.{remember, turns_of, compact_conversation}
use blender_ai_sidebar.Agent.Memory.Counts.{entity_count, target_count}
use blender_ai_sidebar.Agent.Memory.Extracted.{remember-IsConsistent}
use blender_ai_sidebar.Agent.Memory.Compacted.{summary_pair}
use blender_ai_sidebar.Agent.Memory.Returned.{compact_conversation-total}
use blender_ai_sidebar.Agent.Memory.Forgotten.{merge_summary-verified_mutations}

abbrev pub show_value : Value → String
show_value (Value.text t) = t
show_value v = "?"

abbrev pub verified_by : String → Fields
verified_by op =
    Fields.field "verification"
      (Value.object (
        Fields.field "status" (Value.text "PASS") (
          Fields.field "operation" (Value.text op)
            (Fields.field "target_name" (Value.text "Cube") Fields.end))))
      Fields.end

-- The results "created" and "deleted" are read as verified mutations of the cube.
abbrev pub load_text : String → Option Value
load_text s =
    if s == "created"
    then some (Value.object (verified_by "create"))
    else if s == "deleted"
    then some (Value.object (verified_by "delete"))
    else none

abbrev pub python : Builtins
python = record {
  dumps = λ v. "{}";
  dumps_ascii = λ d. "{}";
  loads = load_text;
  show = show_value;
  lower = λ s. s;
  rounded = λ v. some v;
  sorted_values = λ vs. some vs;
  sorted_items = λ vs. some vs;
  sorted_fields = entries;
}

abbrev pub message : Role → String → List ToolCall → Option String → Option String → ChatMessage
message role text calls call_id name = record {
  role = role;
  content = some (plain text);
  tool_calls = calls;
  tool_call_id = call_id;
  name = name;
  image_id = none;
}

abbrev pub call : String → String → ToolCall
call id name = record { call_id = id; tool_name = name; arguments = Fields.end }

abbrev pub conversation : List ChatMessage
conversation =
    message Role.system "You edit scenes." [] none none
    ∷ message Role.user "Add a cube." [] none none
    ∷ message Role.assistant "" (call "1" "create_primitive" ∷ []) none none
    ∷ message Role.tool "created" [] (some "1") (some "create_primitive")
    ∷ message Role.user "Remove it." [] none none
    ∷ message Role.assistant "" (call "2" "delete_object" ∷ []) none none
    ∷ message Role.tool "deleted" [] (some "2") (some "delete_object")
    ∷ message Role.user "Thanks." [] none none
    ∷ []

abbrev memory : RollingMemory
memory = record empty_memory {
  tasks = "Add a cube." ∷ "Remove it." ∷ [];
  deleted_entities = Value.text "Cube" ∷ [];
}

remembers : remember python 1 (turns_of python conversation) ≡ some memory
unfolding remember partition contains
remembers = refl

remember-IsConsistent_example :
    entity_count "Cube" memory.deleted_entities + target_count "Cube" memory.verified_mutations ≤ 1
remember-IsConsistent_example =
    remember-IsConsistent python 1 (turns_of python conversation) memory remembers "Cube"

abbrev summary : String
summary =
    "- Completed Tasks:\n  * \"Add a cube.\"\n  * \"Remove it.\"\n- Deleted Objects:\n  * 'Cube': deleted [PASS]"

tells : to_summary_text python memory ≡ some summary
unfolding to_summary_text
tells = refl

abbrev shortened : List ChatMessage
shortened =
    message Role.system "You edit scenes." [] none none ∷ summary_pair python summary
    ++ message Role.user "Thanks." [] none none ∷ []

is_valid : validate_sequence conversation ≡ none
unfolding validate_sequence contains remove
is_valid = refl

prunes :
    prune_conversation (mentions python) (prune_content python) 1 conversation
    ≡ some (conversation, false)
unfolding prune_conversation prune_content contains strip
prunes = refl

compact_conversation-total_example :
    (new : List ChatMessage) × ((b : Bool) × ((compact_conversation python 0 1 conversation
          ≡ some (new, b))
        × (validate_sequence new ≡ none)))
compact_conversation-total_example =
    compact_conversation-total python 0 1 conversation conversation false memory summary is_valid
      (omega arith) prunes remembers tells

-- A summary with a living target.
abbrev earlier : String
earlier =
    "- Completed Tasks:\n  * \"Add a cube.\"\n- Verified Scene State:\n  * 'Cube': create [PASS]"

merged : merge_summary earlier empty_memory ≡ record empty_memory { tasks = "Add a cube." ∷ [] }
unfolding merge_summary contains
merged = refl

merge_summary-verified_mutations_example :
    (merge_summary earlier empty_memory).verified_mutations ≡ []
merge_summary-verified_mutations_example = merge_summary-verified_mutations earlier empty_memory
