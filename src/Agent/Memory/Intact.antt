-- ===== src/Agent/Memory/Intact.antt =====
-- What prune_conversation_tool_results and compact_conversation of agent/memory.py leave alone.
use blender_ai_sidebar.Prelude.{
  ℕ, ◌-◌, ◌≡◌, refl, sym, ap, ◌∙◌, Bool, String, List, [], ◌∷◌, ◌++◌, append_assoc, Option, some,
  Bool-cases, inl, inr, length, ◌==◌, nat_comparable,
}
use blender_ai_sidebar.Agent.Models.{Role, Content, ChatMessage}
use blender_ai_sidebar.Agent.Memory.{
  concat, split_system, partition, older, kept, prune_conversation,
}
use blender_ai_sidebar.Agent.Memory.Turns.{partition-lossless}
use blender_ai_sidebar.Agent.Memory.Alike.{Like, Alike}
use blender_ai_sidebar.Agent.Memory.Similar.{
  AlikeTurns, Like-role, Alike-length, AlikeTurns-length, AlikeTurns-concat, AlikeTurns-drop,
  append-suffix, AlikeTurns-eq, partition-Alike,
}
use blender_ai_sidebar.Agent.Memory.Pruned.{
  older-kept, concat-append, PruneResult, prune_conversation-PruneResult, prune_conversation-Alike,
}

Like-system : (m' m : ChatMessage) → Like m' m → m.role ≡ Role.system → m' ≡ m
Like-system m' m (Like.same e) r = e
Like-system m' m (Like.user h' h c) r = absurd (cc (sym h ∙ r))
Like-system m' m (Like.tool h' h id) r = absurd (cc (sym h ∙ r))

split_system-eq :
    (ms' ms : List ChatMessage) → Alike ms' ms → (split_system ms').0 ≡ (split_system ms).0
unfolding split_system
split_system-eq [] [] h = refl
split_system-eq (m' ∷ ms') (m ∷ ms) (Alike.follows like rest) = at m.role refl
  where
    at : (role : Role) → m.role ≡ role → (split_system (m' ∷ ms')).0 ≡ (split_system (m ∷ ms)).0
    at Role.system h =
        simp (split_system, h, Like-role m' m like ∙ h) (ap (λ x. x ∷ []) (Like-system m' m like h))
    at Role.user h = simp (split_system, h, Like-role m' m like ∙ h)
    at Role.assistant h = simp (split_system, h, Like-role m' m like ∙ h)
    at Role.tool h = simp (split_system, h, Like-role m' m like ∙ h)
split_system-eq [] (m ∷ ms) h = elim h [ ]
split_system-eq (m' ∷ ms') [] h = elim h [ ]

module _ (mentions : String → Option Content → Bool)
    (prune_content : Option String → Option Content → Option (Content × Bool)) where
  kept-AlikeTurns :
      (retained : ℕ) (ts' ts : List (List ChatMessage))
      → AlikeTurns ts' ts
      → AlikeTurns
          (kept mentions prune_content retained ts')
          (kept mentions prune_content retained ts)
  kept-AlikeTurns retained ts' ts h = elim (Bool-cases (retained == 0)) [
    | inl all ↦ rw all h
    | inr last ↦
        rw (last, AlikeTurns-length ts' ts h) (AlikeTurns-drop (length ts - retained) ts' ts h)
  ]

  -- A conversation that ends with the turns that it keeps.
  pub ends_with_kept :
      (retained : ℕ) (messages : List ChatMessage)
      → (front : List ChatMessage) × (front
            ++ concat (kept mentions prune_content retained (partition mentions messages).turns)
          ≡ messages)
  ends_with_kept retained messages =
      let p = partition mentions messages in
      let first = concat (older mentions prune_content retained p.turns) in
      let last = concat (kept mentions prune_content retained p.turns) in
      (
        p.system ++ (p.summary ++ first),
        append_assoc p.system (p.summary ++ first) last
            ∙ ap (λ x. p.system ++ x)
                (append_assoc p.summary first last
                  ∙ ap (λ x. p.summary ++ x)
                      (sym (
                          concat-append mentions prune_content
                            (older mentions prune_content retained p.turns)
                            (kept mentions prune_content retained p.turns))
                        ∙ ap concat (older-kept mentions prune_content retained p.turns)))
            ∙ partition-lossless mentions messages,
      )

  kept_of_rebuilt :
      (retained : ℕ) (messages new front : List ChatMessage)
      → Alike new messages
      → new
        ≡ front ++ concat (kept mentions prune_content retained (partition mentions messages).turns)
      → kept mentions prune_content retained (partition mentions new).turns
        ≡ kept mentions prune_content retained (partition mentions messages).turns
  kept_of_rebuilt retained messages new front like e =
      let ts' = kept mentions prune_content retained (partition mentions new).turns in
      let ts = kept mentions prune_content retained (partition mentions messages).turns in
      let turns : AlikeTurns ts' ts =
        kept-AlikeTurns retained (partition mentions new).turns (partition mentions messages).turns
          (partition-Alike mentions new messages like).1.1 in
      let (front', whole) = ends_with_kept retained new in
      AlikeTurns-eq ts' ts turns
        (append-suffix front' front (concat ts') (concat ts) (whole ∙ e)
          (Alike-length (concat ts') (concat ts) (AlikeTurns-concat ts' ts turns))).1

  -- The pruning keeps the system message and the last turns as they are.
  pub prune_conversation-kept :
      (retained : ℕ) (messages new : List ChatMessage) (b : Bool)
      → prune_conversation mentions prune_content retained messages ≡ some (new, b)
      → ((partition mentions new).system ≡ (partition mentions messages).system)
        × (kept mentions prune_content retained (partition mentions new).turns
            ≡ kept mentions prune_content retained (partition mentions messages).turns)
  unfolding partition
  prune_conversation-kept retained messages new b h =
      let like = prune_conversation-Alike mentions prune_content retained messages new b h in
      (
        split_system-eq new messages like,
        elim (prune_conversation-PruneResult mentions prune_content retained messages new b h) [
          | PruneResult.unchanged e ↦
              ap (λ x. kept mentions prune_content retained (partition mentions x).turns) e
          | PruneResult.shortened pruned similar e ↦
              let p = partition mentions messages in
              kept_of_rebuilt retained messages new (p.system ++ (p.summary ++ pruned)) like (
                e
                ∙ sym (
                    append_assoc p.system (p.summary ++ pruned)
                      (concat (kept mentions prune_content retained p.turns))
                    ∙ ap (λ x. p.system ++ x)
                        (append_assoc p.summary pruned
                          (concat (kept mentions prune_content retained p.turns)))))
        ],
      )
