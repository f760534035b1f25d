-- ===== src/Agent/Conversation.antt =====
-- Conversation of agent/models.py: the list of the messages and its validation.
pub mod Grammar
use blender_ai_sidebar.Prelude.{
  ℕ, zero, suc, ◌+◌, Bool, true, false, String, List, [], ◌∷◌, ◌++◌, map, Option, none, some, ◌==◌,
  string_comparable, if◌then◌else◌, contains, remove,
}
use blender_ai_sidebar.Agent.Models.{ToolCall, Role, ChatMessage}

-- The ValueErrors of validate_sequence, with the index of the message.
pub data SequenceError : Type 0 where
  still_pending : ℕ → List String → SequenceError
  duplicate_call : ℕ → String → SequenceError
  no_matching_call : ℕ → SequenceError
  not_pending : ℕ → Option String → SequenceError
  unresolved : List String → SequenceError

abbrev pub call_ids : ChatMessage → List String
call_ids m = map (λ (c : ToolCall). c.call_id) m.tool_calls

-- The first id that occurs again, by the ids that were seen before.
unfoldable pub find_duplicate : List String → List String → Option String
find_duplicate seen [] = none
find_duplicate seen (c ∷ cs) = if contains c seen then some c else find_duplicate (c ∷ seen) cs

abbrev pub is_pending : Option String → List String → Bool
is_pending none pending = false
is_pending (some c) pending = contains c pending

-- `del pending[call_id]`
abbrev pub without : Option String → List String → List String
without none pending = pending
without (some c) pending = remove c pending

-- The loop at message `idx` with the pending ids; `none` says that it raises nothing.
unfoldable pub check_from : ℕ → List String → List ChatMessage → Option SequenceError
unfolding find_duplicate remove
check_from idx [] [] = none
check_from idx (p ∷ pending) [] = some (unresolved (p ∷ pending))
check_from idx [] (m ∷ ms) = elim m.role [
  | Role.assistant ↦ elim (find_duplicate [] (call_ids m)) [
    | some c ↦ some (duplicate_call idx c)
    | none ↦ check_from (suc idx) (call_ids m) ms
  ]
  | Role.tool ↦ some (no_matching_call idx)
  | _ ↦ check_from (suc idx) [] ms
]
check_from idx (p ∷ pending) (m ∷ ms) = elim m.role [
  | Role.tool ↦
      if is_pending m.tool_call_id (p ∷ pending)
      then check_from (suc idx) (without m.tool_call_id (p ∷ pending)) ms
      else some (not_pending idx m.tool_call_id)
  | _ ↦ some (still_pending idx (p ∷ pending))
]

unfoldable pub validate_sequence : List ChatMessage → Option SequenceError
unfolding check_from
validate_sequence messages = check_from 0 [] messages

unfoldable pub add_message : ChatMessage → List ChatMessage → List ChatMessage
add_message m messages = messages ++ m ∷ []

find_in : String → List ToolCall → Option ToolCall
find_in call_id [] = none
find_in call_id (c ∷ cs) = if c.call_id == call_id then some c else find_in call_id cs

-- The loop of find_tool_call goes through the messages from the last one.
unfoldable pub find_tool_call : String → List ChatMessage → Option ToolCall
unfolding find_in
find_tool_call call_id [] = none
find_tool_call call_id (m ∷ ms) = elim (find_tool_call call_id ms) [
  | some c ↦ some c
  | none ↦ find_in call_id m.tool_calls
]
