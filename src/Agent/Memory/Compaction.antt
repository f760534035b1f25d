-- ===== src/Agent/Memory/Compaction.antt =====
-- calculate_messages_chars and compact_conversation of agent/memory.py.
use blender_ai_sidebar.Prelude.{
  ℕ, ◌+◌, Bool, true, false, List, [], ◌∷◌, ◌++◌, Option, none, some, if◌then◌else◌, length, leb,
}
use blender_ai_sidebar.Core.TextParts.{length_of}
use blender_ai_sidebar.Agent.Models.{ToolCall, Content, ChatMessage}
use blender_ai_sidebar.Agent.Conversation.{validate_sequence}
use blender_ai_sidebar.Agent.Memory.{Partition, concat, partition, older, kept, prune_conversation}
use blender_ai_sidebar.Agent.Memory.Builtins.{Builtins, text_of, mentions, ◌>>=◌}
use blender_ai_sidebar.Agent.Memory.Pruning.{prune_content}
use blender_ai_sidebar.Agent.Memory.Rolling.{RollingMemory, empty_memory}
use blender_ai_sidebar.Agent.Memory.ToolResults.{add_turn_cluster}
use blender_ai_sidebar.Agent.Memory.Summary.{build_summary_messages}

abbrev pub compaction_trigger : ℕ
compaction_trigger = 10000

abbrev pub retained_turns : ℕ
retained_turns = 2

module _ (py : Builtins) where
  abbrev content_chars : Option Content → ℕ
  content_chars none = 0
  content_chars (some c) = length_of (text_of py c)

  unfoldable pub call_chars : List ToolCall → ℕ
  unfolding length_of
  call_chars [] = 0
  call_chars (c ∷ cs) =
      length_of c.call_id
      + length_of c.tool_name
      + length_of (py.dumps_ascii c.arguments)
      + call_chars cs

  unfoldable pub calculate_messages_chars : List ChatMessage → ℕ
  unfolding call_chars
  calculate_messages_chars [] = 0
  calculate_messages_chars (m ∷ ms) =
      content_chars m.content + call_chars m.tool_calls + calculate_messages_chars ms

  unfoldable pub add_clusters : List (List ChatMessage) → RollingMemory → Option RollingMemory
  unfolding add_turn_cluster
  add_clusters [] memory = some memory
  add_clusters (turn ∷ turns) memory = add_turn_cluster py turn memory >>= add_clusters turns

  -- The memory of the summary before and of the older turns.
  unfoldable pub remember : ℕ → Partition → Option RollingMemory
  unfolding add_clusters
  remember retained p = do
    absorbed ← add_turn_cluster py p.summary empty_memory
    add_clusters (older (mentions py) (prune_content py) retained p.turns) absorbed

  abbrev pub turns_of : List ChatMessage → Partition
  turns_of messages = partition (mentions py) messages

  -- What is kept behind the summary.
  abbrev pub compacted_with : ℕ → Partition → List ChatMessage → List ChatMessage
  compacted_with retained p summary =
      p.system ++ (summary ++ concat (kept (mentions py) (prune_content py) retained p.turns))

  abbrev pub checked : List ChatMessage → Option (List ChatMessage × Bool)
  checked new = elim (validate_sequence new) [ none ↦ some (new, true) | some e ↦ none ]

  -- The partition of the pruned conversation, summarised.
  unfoldable pub summarize_turns : ℕ → Partition → Option (List ChatMessage × Bool)
  unfolding remember build_summary_messages validate_sequence
  summarize_turns retained p = do
    memory ← remember retained p
    summary ← build_summary_messages py memory
    checked (compacted_with retained p summary)

  -- compact_conversation, with whether it compacted; `none` stands for an exception.
  unfoldable pub compact_conversation : ℕ → ℕ → List ChatMessage → Option (List ChatMessage × Bool)
  unfolding calculate_messages_chars prune_conversation summarize_turns partition prune_content
  compact_conversation trigger retained messages =
      if leb (calculate_messages_chars messages) trigger
      then some (messages, false)
      else if leb (length (turns_of messages).turns) retained
      then some (messages, false)
      else (prune_conversation (mentions py) (prune_content py) retained messages >>= λ pruned.
          summarize_turns retained (turns_of pruned.0))
