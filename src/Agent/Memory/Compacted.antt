-- ===== src/Agent/Memory/Compacted.antt =====
-- What compact_conversation of agent/memory.py keeps, and when it raises nothing.
use blender_ai_sidebar.Prelude.{
  ℕ, zero, suc, ◌-◌, ◌<◌, ◌≡◌, refl, ap, subst, ◌∙◌, arith, false, String, List, [], ◌∷◌, ◌++◌,
  Option, none, inl, inr, All, length, drop, count, ◌==◌, nat_comparable,
}
use blender_ai_sidebar.Agent.Models.{Role, ChatMessage}
use blender_ai_sidebar.Agent.Conversation.{validate_sequence}
use blender_ai_sidebar.Agent.Conversation.Grammar.{WellFormed, Answers, validate_sequence_iff}
use blender_ai_sidebar.Agent.Memory.{concat, split_system, split_summary, partition, kept}
use blender_ai_sidebar.Agent.Memory.Builtins.{Builtins, mentions}
use blender_ai_sidebar.Agent.Memory.Pruning.{prune_content}
use blender_ai_sidebar.Agent.Memory.Summary.{summary_user, acknowledgement}
use blender_ai_sidebar.Agent.Memory.Compaction.{turns_of, compacted_with}
use blender_ai_sidebar.Agent.Memory.Intact.{ends_with_kept}
use blender_ai_sidebar.Agent.Memory.Boundary.{IsHeaded, clusters_from-later, later_turns-WellFormed}

-- A system message, if there is one, and nothing else.
split_system-WellFormed :
    (ms rest : List ChatMessage) → WellFormed rest → WellFormed ((split_system ms).0 ++ rest)
unfolding split_system
split_system-WellFormed [] rest h = h
split_system-WellFormed (m ∷ ms) rest h = at m.role refl
  where
    at : (role : Role) → m.role ≡ role → WellFormed ((split_system (m ∷ ms)).0 ++ rest)
    at Role.system e = simp (split_system, e) (WellFormed.spoken (inr e) h)
    at Role.user e = simp (split_system, e) h
    at Role.assistant e = simp (split_system, e) h
    at Role.tool e = simp (split_system, e) h

module _ (py : Builtins) where
  abbrev pub kept_turns : ℕ → List ChatMessage → List (List ChatMessage)
  kept_turns retained messages =
      kept (mentions py) (prune_content py) retained (turns_of py messages).turns

  -- The messages of a summary.
  abbrev pub summary_pair : String → List ChatMessage
  summary_pair text = summary_user py text ∷ acknowledgement py ∷ []

  summary_pair-WellFormed :
      (text : String) (rest : List ChatMessage)
      → WellFormed rest
      → WellFormed (summary_pair text ++ rest)
  unfolding count
  summary_pair-WellFormed text rest h = WellFormed.spoken (inl refl) (
      WellFormed.asked {ids = []} {answers = []} refl (λ s. omega arith) Answers.no_more (λ s. refl)
        h)

  kept_turns-IsHeaded :
      (retained : ℕ) (messages : List ChatMessage)
      → 0 < retained
      → retained < length (turns_of py messages).turns
      → All IsHeaded (kept_turns retained messages)
  unfolding partition
  kept_turns-IsHeaded zero messages some_kept more = absurd (omega arith)
  kept_turns-IsHeaded (suc n) messages some_kept more =
      let turns = (turns_of py messages).turns in
      let count_left : suc (length turns - suc (suc n)) ≡ length turns - suc n =
        omega (arith, more) in
      let not_all : (suc n == 0) ≡ false = ground arith in
      rw not_all (
        subst (λ k. All IsHeaded (drop k turns)) count_left
          (clusters_from-later (length turns - suc (suc n))
            (split_summary (mentions py) (split_system messages).1).1))

  -- A well-formed conversation with more turns than are retained is well-formed with its older turns
  -- replaced by a summary: the validation at the end of compact_conversation raises nothing on it.
  pub compacted_with-validate :
      (retained : ℕ) (messages : List ChatMessage) (text : String)
      → validate_sequence messages ≡ none
      → 0 < retained
      → retained < length (turns_of py messages).turns
      → validate_sequence (compacted_with py retained (turns_of py messages) (summary_pair text))
        ≡ none
  unfolding partition
  compacted_with-validate retained messages text valid some_kept more =
      let (front, whole) = ends_with_kept (mentions py) (prune_content py) retained messages in
      let last : WellFormed (concat (kept_turns retained messages)) =
        later_turns-WellFormed front (kept_turns retained messages)
          (kept_turns-IsHeaded retained messages some_kept more)
          (ap validate_sequence whole ∙ valid) in
      (validate_sequence_iff
          (compacted_with py retained (turns_of py messages) (summary_pair text))).1
        (split_system-WellFormed messages
          (summary_pair text ++ concat (kept_turns retained messages))
          (summary_pair-WellFormed text (concat (kept_turns retained messages)) last))
