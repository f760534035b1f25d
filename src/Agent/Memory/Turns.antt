-- ===== src/Agent/Memory/Turns.antt =====
-- The partition of a conversation into its turns.
use blender_ai_sidebar.Prelude.{
  ◌≡◌, refl, ap, ◌∙◌, Bool, ◌&&◌, String, List, [], ◌∷◌, ◌++◌, append_assoc, Option, Bool-cases,
  inl, inr,
}
use blender_ai_sidebar.Agent.Models.{Role, Content, ChatMessage}
use blender_ai_sidebar.Agent.Memory.{
  summary_marker, is_user, is_assistant, concat, clusters_from, split_system, split_ack,
  split_summary, partition,
}

clusters_from-concat :
    (current messages : List ChatMessage)
    → concat (clusters_from current messages) ≡ current ++ messages
unfolding clusters_from
clusters_from-concat [] [] = refl
clusters_from-concat (c ∷ cs) [] = refl
clusters_from-concat [] (m ∷ ms) = clusters_from-concat (m ∷ []) ms
clusters_from-concat (c ∷ cs) (m ∷ ms) = elim (Bool-cases (is_user m.role)) [
  | inl starts ↦
      rw (clusters_from, starts) (ap (λ x. (c ∷ cs) ++ x) (clusters_from-concat (m ∷ []) ms))
  | inr goes_on ↦
      rw (clusters_from, goes_on)
        (clusters_from-concat ((c ∷ cs) ++ m ∷ []) ms ∙ append_assoc (c ∷ cs) (m ∷ []) ms)
]

split_system-append :
    (messages : List ChatMessage)
    → (split_system messages).0 ++ (split_system messages).1 ≡ messages
unfolding split_system
split_system-append [] = refl
split_system-append (m ∷ ms) = at m.role refl
  where
    at :
        (role : Role)
        → m.role ≡ role
        → (split_system (m ∷ ms)).0 ++ (split_system (m ∷ ms)).1 ≡ m ∷ ms
    at Role.system h = simp (split_system, h)
    at Role.user h = simp (split_system, h)
    at Role.assistant h = simp (split_system, h)
    at Role.tool h = simp (split_system, h)

module _ (mentions : String → Option Content → Bool) where
  split_ack-append :
      (messages : List ChatMessage)
      → (split_ack mentions messages).0 ++ (split_ack mentions messages).1 ≡ messages
  unfolding split_ack
  split_ack-append [] = refl
  split_ack-append (m ∷ ms) =
      elim (Bool-cases (is_assistant m.role && mentions "Understood." m.content)) [
        | inl ack ↦ simp (split_ack, ack)
        | inr other ↦ simp (split_ack, other)
      ]

  split_summary-append :
      (messages : List ChatMessage)
      → (split_summary mentions messages).0 ++ (split_summary mentions messages).1 ≡ messages
  unfolding split_summary
  split_summary-append [] = refl
  split_summary-append (m ∷ ms) =
      elim (Bool-cases (is_user m.role && mentions summary_marker m.content)) [
        | inl marks ↦ simp (split_summary, marks, split_ack-append ms)
        | inr other ↦ simp (split_summary, other)
      ]

  -- The partition loses nothing: the system message, the summary and the turns, one after the other,
  -- are the conversation.
  pub partition-lossless :
      (messages : List ChatMessage)
      → (partition mentions messages).system
          ++ ((partition mentions messages).summary ++ concat (partition mentions messages).turns)
        ≡ messages
  unfolding partition
  partition-lossless messages =
      ap
        (λ x.
          (split_system messages).0 ++ ((split_summary mentions (split_system messages).1).0 ++ x))
        (clusters_from-concat [] (split_summary mentions (split_system messages).1).1)
      ∙ ap (λ x. (split_system messages).0 ++ x) (split_summary-append (split_system messages).1)
      ∙ split_system-append messages
