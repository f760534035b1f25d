-- ===== src/Agent/Memory/Returned.antt =====
-- When compact_conversation of agent/memory.py raises nothing.
use blender_ai_sidebar.Prelude.{
  ℕ, ◌<◌, ◌≡◌, refl, sym, subst, ◌∙◌, arith, Bool, true, false, String, List, Option, none, some,
  length, leb, if◌then◌else◌,
}
use blender_ai_sidebar.Agent.Models.{ChatMessage}
use blender_ai_sidebar.Agent.Conversation.{validate_sequence}
use blender_ai_sidebar.Agent.Memory.{Partition, prune_conversation}
use blender_ai_sidebar.Agent.Memory.Builtins.{Builtins, mentions, ◌>>=◌}
use blender_ai_sidebar.Agent.Memory.Pruning.{prune_content}
use blender_ai_sidebar.Agent.Memory.Rolling.{RollingMemory}
use blender_ai_sidebar.Agent.Memory.Summary.{to_summary_text, build_summary_messages}
use blender_ai_sidebar.Agent.Memory.Compaction.{
  calculate_messages_chars, remember, turns_of, compacted_with, checked, summarize_turns,
  compact_conversation,
}
use blender_ai_sidebar.Agent.Memory.Pruned.{prune_conversation-Alike, prune_conversation-validate}
use blender_ai_sidebar.Agent.Memory.Similar.{AlikeTurns-length, partition-Alike}
use blender_ai_sidebar.Agent.Memory.Compacted.{summary_pair, compacted_with-validate}

-- A conversation is returned, and it is well-formed.
abbrev Returns : Option (List ChatMessage × Bool) → Type 0
Returns o =
    (new : List ChatMessage) × ((b : Bool) × ((o ≡ some (new, b)) × (validate_sequence new ≡ none)))

either :
    (b : Bool) (x y : Option (List ChatMessage × Bool))
    → Returns x
    → (b ≡ false → Returns y)
    → Returns (if b then x else y)
either true x y h k = h
either false x y h k = k refl

lt_of_leb : (a b : ℕ) → leb a b ≡ false → b < a
lt_of_leb a b h = ground arith

module _ (py : Builtins) where
  summarize_turns-Returns :
      (retained : ℕ) (p : Partition) (memory : RollingMemory) (text : String)
      → remember py retained p ≡ some memory
      → to_summary_text py memory ≡ some text
      → validate_sequence (compacted_with py retained p (summary_pair py text)) ≡ none
      → Returns (summarize_turns py retained p)
  unfolding summarize_turns build_summary_messages
  summarize_turns-Returns retained p memory text remembers tells valid = (
    compacted_with py retained p (summary_pair py text),
    (
      true,
      (rw (summarize_turns, remembers, build_summary_messages, tells, checked, valid) refl, valid),
    ),
  )

  -- On a well-formed conversation, with at least one turn to retain, compact_conversation returns a
  -- well-formed conversation wherever the pruning, the memory of the older turns and its text raise
  -- nothing.
  pub compact_conversation-total :
      (trigger retained : ℕ) (messages pruned : List ChatMessage) (b : Bool)
      (memory : RollingMemory) (text : String)
      → validate_sequence messages ≡ none
      → 0 < retained
      → prune_conversation (mentions py) (prune_content py) retained messages ≡ some (pruned, b)
      → remember py retained (turns_of py pruned) ≡ some memory
      → to_summary_text py memory ≡ some text
      → (new : List ChatMessage) × ((b' : Bool) × ((compact_conversation py trigger retained
                messages
              ≡ some (new, b'))
            × (validate_sequence new ≡ none)))
  unfolding compact_conversation
  compact_conversation-total trigger retained messages pruned b memory text valid some_kept prunes
        remembers tells =
      either (leb (calculate_messages_chars py messages) trigger) _ _ unchanged λ _.
        either (leb (length (turns_of py messages).turns) retained) _ _ unchanged λ many.
          subst (λ o. Returns (o >>= λ x. summarize_turns py retained (turns_of py x.0)))
            (sym prunes)
            (summarize_turns-Returns retained (turns_of py pruned) memory text remembers tells (
              compacted_with-validate py retained pruned text
                (prune_conversation-validate (mentions py) (prune_content py) retained messages
                    pruned b prunes
                  ∙ valid)
                some_kept (more many)))
    where
      unchanged : Returns (some (messages, false))
      unchanged = (messages, (false, (refl, valid)))

      same_turns : length (turns_of py pruned).turns ≡ length (turns_of py messages).turns
      same_turns =
          AlikeTurns-length (turns_of py pruned).turns (turns_of py messages).turns
            (partition-Alike (mentions py) pruned messages (
              prune_conversation-Alike (mentions py) (prune_content py) retained messages pruned b
                prunes)).1.1

      more :
          leb (length (turns_of py messages).turns) retained ≡ false
          → retained < length (turns_of py pruned).turns
      more many =
          subst (λ k. retained < k) (sym same_turns)
            (lt_of_leb (length (turns_of py messages).turns) retained many)
