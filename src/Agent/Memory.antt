-- ===== src/Agent/Memory.antt =====
-- agent/memory.py: the turns of a conversation and the pruning of its older tool results.
--
-- `mentions` is Python's `in` on the content of a message, and `prune_content` is
-- prune_tool_message_content; Memory/Builtins and Memory/Pruning define them. `none` stands for an
-- exception.
pub mod Builtins
pub mod ShortForms
pub mod Pruning
pub mod Rolling
pub mod Targets
pub mod Mutations
pub mod ToolResults
pub mod Summary
pub mod Compaction
pub mod Counts
pub mod Consistent
pub mod Extracted
pub mod Turns
pub mod Similar
pub mod Intact
pub mod Boundary
pub mod Compacted
pub mod Returned
pub mod Forgotten
pub mod Persisted
pub mod Redacted
pub mod Restored
pub mod Alike
pub mod Pruned
pub mod Total
use blender_ai_sidebar.Prelude.{
  ℕ, ◌-◌, Bool, true, false, not, ◌&&◌, ◌||◌, String, List, [], ◌∷◌, ◌++◌, Option, none, some,
  if◌then◌else◌, length, take, drop, leb, ◌==◌, nat_comparable,
}
use blender_ai_sidebar.Agent.Models.{Role, Content, ChatMessage, make_message}
use blender_ai_sidebar.Agent.Conversation.{validate_sequence}

abbrev pub summary_marker : String
summary_marker = "[Context Summary & Scene Memory]"

abbrev pub is_user : Role → Bool
is_user Role.user = true
is_user _ = false

abbrev pub is_assistant : Role → Bool
is_assistant Role.assistant = true
is_assistant _ = false

-- The system message, the summary of an earlier compaction and the turns.
pub record Partition : Type 0 where
  pub system : List ChatMessage
  pub summary : List ChatMessage
  pub turns : List (List ChatMessage)

abbrev pub concat : List (List ChatMessage) → List ChatMessage
concat [] = []
concat (turn ∷ turns) = turn ++ concat turns

-- The loop over the messages, with the current cluster.
unfoldable pub clusters_from : List ChatMessage → List ChatMessage → List (List ChatMessage)
clusters_from [] [] = []
clusters_from (c ∷ cs) [] = (c ∷ cs) ∷ []
clusters_from [] (m ∷ ms) = clusters_from (m ∷ []) ms
clusters_from (c ∷ cs) (m ∷ ms) = elim (is_user m.role) [
  | true ↦ (c ∷ cs) ∷ clusters_from (m ∷ []) ms
  | false ↦ clusters_from ((c ∷ cs) ++ m ∷ []) ms
]

-- A system message at the front, and what follows it.
unfoldable pub split_system : List ChatMessage → List ChatMessage × List ChatMessage
split_system [] = ([], [])
split_system (m ∷ ms) = elim m.role [ Role.system ↦ (m ∷ [], ms) | _ ↦ ([], m ∷ ms) ]

module _ (mentions : String → Option Content → Bool) where
  -- The acknowledgement behind a summary.
  unfoldable pub split_ack : List ChatMessage → List ChatMessage × List ChatMessage
  split_ack [] = ([], [])
  split_ack (m ∷ ms) =
      if is_assistant m.role && mentions "Understood." m.content then (m ∷ [], ms) else ([], m ∷ ms)

  unfoldable pub split_summary : List ChatMessage → List ChatMessage × List ChatMessage
  unfolding split_ack
  split_summary [] = ([], [])
  split_summary (m ∷ ms) =
      if is_user m.role && mentions summary_marker m.content
      then (m ∷ (split_ack ms).0, (split_ack ms).1)
      else ([], m ∷ ms)

  -- partition_conversation_into_turns
  unfoldable pub partition : List ChatMessage → Partition
  unfolding split_system split_summary clusters_from
  partition messages =
      let (system, remaining) = split_system messages in
      let (summary, turns) = split_summary remaining in
      record { system = system; summary = summary; turns = clusters_from [] turns }

  module _ (prune_content : Option String → Option Content → Option (Content × Bool)) where
    abbrev pub has_image : ChatMessage → Bool
    has_image m = elim m.image_id [ none ↦ false | some image ↦ true ]

    abbrev pub marked : Bool → Option ChatMessage → Option (ChatMessage × Bool)
    marked pruned none = none
    marked pruned (some m) = some (m, pruned)

    abbrev pub pruned_tool : Content → ChatMessage → ChatMessage
    pruned_tool content m = record {
      role = Role.tool;
      content = some content;
      tool_calls = [];
      tool_call_id = m.tool_call_id;
      name = m.name;
      image_id = none;
    }

    abbrev pub pruned_user : ChatMessage → ChatMessage
    pruned_user m = record {
      role = Role.user;
      content = m.content;
      tool_calls = [];
      tool_call_id = none;
      name = none;
      image_id = none;
    }

    -- A message of an older turn, and whether it was pruned; `none` where the constructor raises.
    unfoldable pub prune_message : ChatMessage → Option (ChatMessage × Bool)
    unfolding make_message
    prune_message m = elim m.role [
      | Role.tool ↦ elim (prune_content m.name m.content) [
        | none ↦ none
        | some (content, pruned) ↦
            marked (pruned || has_image m) (make_message (pruned_tool content m))
      ]
      | Role.user ↦
          if has_image m then marked true (make_message (pruned_user m)) else some (m, false)
      | _ ↦ some (m, false)
    ]

    abbrev pub paired :
        Option (ChatMessage × Bool)
        → Option (List ChatMessage × Bool)
        → Option (List ChatMessage × Bool)
    paired (some (m, first)) (some (ms, others)) = some (m ∷ ms, first || others)
    paired (some p) none = none
    paired none rest = none

    abbrev pub combined :
        Option (List ChatMessage × Bool)
        → Option (List ChatMessage × Bool)
        → Option (List ChatMessage × Bool)
    combined (some (ms, first)) (some (rest, others)) = some (ms ++ rest, first || others)
    combined (some p) none = none
    combined none rest = none

    unfoldable pub prune_cluster : List ChatMessage → Option (List ChatMessage × Bool)
    unfolding prune_message
    prune_cluster [] = some ([], false)
    prune_cluster (m ∷ ms) = paired (prune_message m) (prune_cluster ms)

    unfoldable pub prune_clusters : List (List ChatMessage) → Option (List ChatMessage × Bool)
    unfolding prune_cluster
    prune_clusters [] = some ([], false)
    prune_clusters (turn ∷ turns) = combined (prune_cluster turn) (prune_clusters turns)

    -- `turns[:-retained]` and `turns[-retained:]`
    abbrev pub older : ℕ → List (List ChatMessage) → List (List ChatMessage)
    older retained turns = if retained == 0 then [] else take (length turns - retained) turns

    abbrev pub kept : ℕ → List (List ChatMessage) → List (List ChatMessage)
    kept retained turns = if retained == 0 then turns else drop (length turns - retained) turns

    -- prune_conversation_tool_results, with whether it pruned; `none` stands for an exception.
    unfoldable pub prune_conversation : ℕ → List ChatMessage → Option (List ChatMessage × Bool)
    unfolding partition prune_clusters validate_sequence
    prune_conversation retained messages =
        let p = partition messages in
        if leb (length p.turns) retained
        then some (messages, false)
        else elim (prune_clusters (older retained p.turns)) [
          | none ↦ none
          | some (pruned, any) ↦
              let new = p.system ++ (p.summary ++ (pruned ++ concat (kept retained p.turns))) in
              if not any
              then some (messages, false)
              else elim (validate_sequence new) [ none ↦ some (new, true) | some e ↦ none ]
        ]
