-- ===== src/Agent/Memory/Total.antt =====
-- The pruning of a well-formed conversation raises nothing.
use blender_ai_sidebar.Prelude.{
  ℕ, ◌≡◌, refl, sym, ap, subst, ◌∙◌, Bool, true, false, not, ◌&&◌, ◌||◌, String, List, [], ◌∷◌,
  ◌++◌, Option, none, some, Bool-cases, inl, inr, All, All-left, All-right, length, leb,
}
use blender_ai_sidebar.Agent.Models.{
  Role, Content, ChatMessage, accepts, make_message, solid_id, has_value, has_items,
}
use blender_ai_sidebar.Agent.Conversation.{validate_sequence}
use blender_ai_sidebar.Agent.Memory.{
  Partition, concat, partition, has_image, marked, pruned_tool, pruned_user, prune_message,
  prune_cluster, prune_clusters, older, kept, prune_conversation,
}
use blender_ai_sidebar.Agent.Memory.Turns.{partition-lossless}
use blender_ai_sidebar.Agent.Memory.Alike.{check_from-Alike}
use blender_ai_sidebar.Agent.Memory.Pruned.{
  prune_clusters-Alike, rebuilt, rebuilt-Alike, concat-append, older-kept,
}

abbrev pub IsAccepted : ChatMessage → Type 0
IsAccepted m = accepts m ≡ true

and-middle : (a b c : Bool) → (a && b && c) ≡ true → b ≡ true
and-middle true true c h = refl
and-middle true false c h = absurd (cc h)
and-middle false b c h = absurd (cc h)

module _ (mentions : String → Option Content → Bool)
    (prune_content : Option String → Option Content → Option (Content × Bool)) where
  marked-total :
      (pruned : Bool) (x : ChatMessage)
      → accepts x ≡ true
      → marked mentions prune_content pruned (make_message x) ≡ some (x, pruned)
  unfolding make_message
  marked-total pruned x fine = rw (make_message, fine) refl

  -- prune_tool_message_content raises nothing on the message, if it is a tool result.
  abbrev pub IsPrunable : ChatMessage → Type 0
  IsPrunable m =
      m.role ≡ Role.tool → (r : Content × Bool) × (prune_content m.name m.content ≡ some r)

  prune_message-total :
      (m : ChatMessage)
      → accepts m ≡ true
      → IsPrunable m
      → (r : ChatMessage × Bool) × (prune_message mentions prune_content m ≡ some r)
  unfolding prune_message accepts
  prune_message-total m fine prunable = at m.role refl
    where
      at :
          (role : Role)
          → m.role ≡ role
          → (r : ChatMessage × Bool) × (prune_message mentions prune_content m ≡ some r)
      at Role.system h = ((m, false), simp (prune_message, h))
      at Role.assistant h = ((m, false), simp (prune_message, h))
      at Role.tool h =
          let ((content, short), prunes) = prunable h in
          let solid : solid_id m.tool_call_id ≡ true =
            and-middle (has_value m.content) (solid_id m.tool_call_id)
              (not (has_items m.tool_calls)) (rw (accepts, h) at fine) in
          (
            (
              pruned_tool mentions prune_content content m,
              short || has_image mentions prune_content m,
            ),
            rw (prune_message, h, prunes)
                (marked-total _ (pruned_tool mentions prune_content content m)
                  (rw (accepts, solid) refl)),
          )
      at Role.user h = elim (Bool-cases (has_image mentions prune_content m)) [
        | inl image ↦ (
          (pruned_user mentions prune_content m, true),
          rw (prune_message, h, image)
              (marked-total true (pruned_user mentions prune_content m) refl),
        )
        | inr bare ↦ ((m, false), simp (prune_message, h, bare))
      ]

  prune_cluster-total :
      (ms : List ChatMessage)
      → All IsAccepted ms
      → All IsPrunable ms
      → (r : List ChatMessage × Bool) × (prune_cluster mentions prune_content ms ≡ some r)
  unfolding prune_cluster
  prune_cluster-total [] h p = (([], false), refl)
  prune_cluster-total (m ∷ ms) h p =
      let ((made, one), good) = prune_message-total m h.0 p.0 in
      let ((rest, others), fine) = prune_cluster-total ms h.1 p.1 in
      ((made ∷ rest, one || others), rw (prune_cluster, good, fine) refl)

  prune_clusters-total :
      (turns : List (List ChatMessage))
      → All IsAccepted (concat turns)
      → All IsPrunable (concat turns)
      → (r : List ChatMessage × Bool) × (prune_clusters mentions prune_content turns ≡ some r)
  unfolding prune_clusters
  prune_clusters-total [] h p = (([], false), refl)
  prune_clusters-total (turn ∷ turns) h p =
      let ((made, one), good) =
        prune_cluster-total turn (All-left IsAccepted turn (concat turns) h)
          (All-left IsPrunable turn (concat turns) p) in
      let ((rest, others), fine) =
        prune_clusters-total turns (All-right IsAccepted turn (concat turns) h)
          (All-right IsPrunable turn (concat turns) p) in
      ((made ++ rest, one || others), rw (prune_clusters, good, fine) refl)

  -- The pruning of a well-formed conversation of messages that the constructor accepts and whose
  -- tool results can all be pruned returns a conversation, and that is well-formed.
  pub prune_conversation-total :
      (retained : ℕ) (messages : List ChatMessage)
      → All IsAccepted messages
      → All IsPrunable messages
      → validate_sequence messages ≡ none
      → (new : List ChatMessage) × ((b : Bool) × ((prune_conversation mentions prune_content
                retained messages
              ≡ some (new, b))
            × (validate_sequence new ≡ none)))
  unfolding prune_conversation validate_sequence
  prune_conversation-total retained messages accepted prunable valid =
      elim (Bool-cases (leb (length p.turns) retained)) [
        | inl few ↦ (messages, (false, (rw (prune_conversation, few) refl, valid)))
        | inr many ↦
            let ((pruned, any), good) =
              prune_clusters-total (older mentions prune_content retained p.turns)
                (older_All IsAccepted accepted) (older_All IsPrunable prunable) in
            elim (Bool-cases any) [
              | inr nothing ↦
                  (messages, (false, (rw (prune_conversation, many, good, nothing) refl, valid)))
              | inl some_pruned ↦
                  let fine = rebuilt_valid pruned any good in
                  (
                    rebuilt mentions prune_content retained messages pruned,
                    (true, (rw (prune_conversation, many, good, some_pruned, fine) refl, fine)),
                  )
            ]
      ]
    where
      p : Partition
      p = partition mentions messages

      older_All :
          (P : ChatMessage → Type 0)
          → All P messages
          → All P (concat (older mentions prune_content retained p.turns))
      older_All P all =
          All-left P (concat (older mentions prune_content retained p.turns))
            (concat (kept mentions prune_content retained p.turns))
            (subst (All P)
              (sym (ap concat (older-kept mentions prune_content retained p.turns))
                ∙ concat-append mentions prune_content
                    (older mentions prune_content retained p.turns)
                    (kept mentions prune_content retained p.turns))
              (All-right P p.summary (concat p.turns) (
                All-right P p.system (p.summary ++ concat p.turns)
                  (subst (All P) (sym (partition-lossless mentions messages)) all))))

      rebuilt_valid :
          (pruned : List ChatMessage) (any : Bool)
          → prune_clusters mentions prune_content (older mentions prune_content retained p.turns)
            ≡ some (pruned, any)
          → validate_sequence (rebuilt mentions prune_content retained messages pruned) ≡ none
      rebuilt_valid pruned any good =
          check_from-Alike (rebuilt mentions prune_content retained messages pruned) messages
            (rebuilt-Alike mentions prune_content retained messages pruned (
              prune_clusters-Alike mentions prune_content
                (older mentions prune_content retained p.turns) pruned any good))
            0 []
          ∙ valid
