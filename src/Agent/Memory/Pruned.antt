-- ===== src/Agent/Memory/Pruned.antt =====
-- The pruning of older turns keeps what validate_sequence reads.
use blender_ai_sidebar.Prelude.{
  ℕ, ◌-◌, ◌≡◌, refl, sym, ap, subst, ◌∙◌, Bool, true, false, ◌||◌, String, List, [], ◌∷◌, ◌++◌,
  append_assoc, Option, some, Option-cases, Bool-cases, inl, inr, length, take-append-drop, leb,
  ◌==◌, nat_comparable,
}
use mathlib.Core.Option.{some-injective}
use blender_ai_sidebar.Agent.Models.{Role, Content, ChatMessage, accepts, make_message}
use blender_ai_sidebar.Agent.Conversation.{validate_sequence}
use blender_ai_sidebar.Agent.Memory.{
  Partition, concat, partition, has_image, marked, pruned_tool, pruned_user, prune_message,
  prune_cluster, prune_clusters, older, kept, prune_conversation,
}
use blender_ai_sidebar.Agent.Memory.Turns.{partition-lossless}
use blender_ai_sidebar.Agent.Memory.Alike.{Like, Alike, check_from-Alike, Alike-append, Alike-refl}

module _ (mentions : String → Option Content → Bool)
    (prune_content : Option String → Option Content → Option (Content × Bool)) where
  marked-made :
      (pruned : Bool) (x : ChatMessage) (m' : ChatMessage) (b : Bool)
      → marked mentions prune_content pruned (make_message x) ≡ some (m', b)
      → m' ≡ x
  unfolding make_message
  marked-made pruned x m' b h = elim (Bool-cases (accepts x)) [
    | inl fine ↦
        ap (λ p. p.0) (sym (some-injective (x, pruned) (m', b) (rw (make_message, fine) at h)))
    | inr bad ↦ absurd (cc (rw (make_message, bad) at h))
  ]

  prune_message-Like :
      (m m' : ChatMessage) (b : Bool)
      → prune_message mentions prune_content m ≡ some (m', b)
      → Like m' m
  unfolding prune_message
  prune_message-Like m m' b h = at m.role refl
    where
      unchanged : ◌≡◌ {A = Option (ChatMessage × Bool)} (some (m, false)) (some (m', b)) → Like m' m
      unchanged e = Like.same (ap (λ p. p.0) (sym (some-injective (m, false) (m', b) e)))

      at : (role : Role) → m.role ≡ role → Like m' m
      at Role.system r = unchanged (rw (prune_message, r) at h)
      at Role.assistant r = unchanged (rw (prune_message, r) at h)
      at Role.tool r = elim (Option-cases (prune_content m.name m.content)) [
        | inl bad ↦ absurd (cc (rw (prune_message, r, bad) at h))
        | inr ((content, pruned), good) ↦
            let made : m' ≡ pruned_tool mentions prune_content content m =
              marked-made _ (pruned_tool mentions prune_content content m) m' b
                (rw (prune_message, r, good) at h) in
            Like.tool (ap (λ x. x.role) made) r (ap (λ x. x.tool_call_id) made)
      ]
      at Role.user r = elim (Bool-cases (has_image mentions prune_content m)) [
        | inl image ↦
            let made : m' ≡ pruned_user mentions prune_content m =
              marked-made _ (pruned_user mentions prune_content m) m' b
                (rw (prune_message, r, image) at h) in
            Like.user (ap (λ x. x.role) made) r (ap (λ x. x.content) made)
        | inr bare ↦ unchanged (rw (prune_message, r, bare) at h)
      ]

  prune_cluster-Alike :
      (ms ms' : List ChatMessage) (b : Bool)
      → prune_cluster mentions prune_content ms ≡ some (ms', b)
      → Alike ms' ms
  unfolding prune_cluster
  prune_cluster-Alike [] ms' b h =
      subst (λ x. Alike x []) (ap (λ p. p.0) (some-injective ([], false) (ms', b) h)) Alike.ends
  prune_cluster-Alike (m ∷ ms) ms' b h =
      elim (Option-cases (prune_message mentions prune_content m)) [
        | inl bad ↦ absurd (cc (rw bad at h))
        | inr ((made, one), good) ↦ elim (Option-cases (prune_cluster mentions prune_content ms)) [
          | inl bad ↦ absurd (cc (rw (good, bad) at h))
          | inr ((rest, others), fine) ↦
              subst (λ x. Alike x (m ∷ ms))
                (ap (λ p. p.0)
                  (some-injective (made ∷ rest, one || others) (ms', b) (rw (good, fine) at h)))
                (Alike.follows (prune_message-Like m made one good)
                  (prune_cluster-Alike ms rest others fine))
        ]
      ]

  pub prune_clusters-Alike :
      (turns : List (List ChatMessage)) (ms' : List ChatMessage) (b : Bool)
      → prune_clusters mentions prune_content turns ≡ some (ms', b)
      → Alike ms' (concat turns)
  unfolding prune_clusters
  prune_clusters-Alike [] ms' b h =
      subst (λ x. Alike x []) (ap (λ p. p.0) (some-injective ([], false) (ms', b) h)) Alike.ends
  prune_clusters-Alike (turn ∷ turns) ms' b h =
      elim (Option-cases (prune_cluster mentions prune_content turn)) [
        | inl bad ↦ absurd (cc (rw bad at h))
        | inr ((made, one), good) ↦
            elim (Option-cases (prune_clusters mentions prune_content turns)) [
              | inl bad ↦ absurd (cc (rw (good, bad) at h))
              | inr ((rest, others), fine) ↦
                  subst (λ x. Alike x (turn ++ concat turns))
                    (ap (λ p. p.0)
                      (some-injective (made ++ rest, one || others) (ms', b)
                        (rw (good, fine) at h)))
                    (Alike-append made turn rest (concat turns)
                      (prune_cluster-Alike turn made one good)
                      (prune_clusters-Alike turns rest others fine))
            ]
      ]

  pub concat-append : (xs ys : List (List ChatMessage)) → concat (xs ++ ys) ≡ concat xs ++ concat ys
  concat-append [] ys = refl
  concat-append (x ∷ xs) ys =
      ap (λ z. x ++ z) (concat-append xs ys) ∙ sym (append_assoc x (concat xs) (concat ys))

  pub older-kept :
      (retained : ℕ) (turns : List (List ChatMessage))
      → older mentions prune_content retained turns ++ kept mentions prune_content retained turns
        ≡ turns
  older-kept retained turns = elim (Bool-cases (retained == 0)) [
    | inl zero ↦ rw zero refl
    | inr some_kept ↦ rw some_kept (take-append-drop (length turns - retained) turns)
  ]

  abbrev pub rebuilt : ℕ → List ChatMessage → List ChatMessage → List ChatMessage
  rebuilt retained messages pruned =
      let p = partition mentions messages in
      p.system ++ (p.summary ++ (pruned ++ concat (kept mentions prune_content retained p.turns)))

  pub rebuilt-Alike :
      (retained : ℕ) (messages pruned : List ChatMessage)
      → Alike pruned
          (concat (older mentions prune_content retained (partition mentions messages).turns))
      → Alike (rebuilt retained messages pruned) messages
  rebuilt-Alike retained messages pruned like =
      let p = partition mentions messages in
      let first = concat (older mentions prune_content retained p.turns) in
      let last = concat (kept mentions prune_content retained p.turns) in
      let whole : p.system ++ (p.summary ++ (first ++ last)) ≡ messages =
        ap (λ x. p.system ++ (p.summary ++ x))
          (sym (
              concat-append (older mentions prune_content retained p.turns)
                (kept mentions prune_content retained p.turns))
            ∙ ap concat (older-kept retained p.turns))
        ∙ partition-lossless mentions messages in
      subst (Alike (rebuilt retained messages pruned)) whole (
        Alike-append p.system p.system (p.summary ++ (pruned ++ last))
          (p.summary ++ (first ++ last)) (Alike-refl p.system)
          (Alike-append p.summary p.summary (pruned ++ last) (first ++ last) (Alike-refl p.summary)
            (Alike-append pruned first last last like (Alike-refl last))))

  -- The pruning returns the conversation itself, or the one rebuilt with pruned older turns.
  pub data PruneResult (retained : ℕ) (messages new : List ChatMessage) : Type 0 where
    unchanged : new ≡ messages → PruneResult retained messages new
    shortened :
        (pruned : List ChatMessage)
        → Alike pruned
            (concat (older mentions prune_content retained (partition mentions messages).turns))
        → new ≡ rebuilt retained messages pruned
        → PruneResult retained messages new

  pub prune_conversation-PruneResult :
      (retained : ℕ) (messages new : List ChatMessage) (b : Bool)
      → prune_conversation mentions prune_content retained messages ≡ some (new, b)
      → PruneResult retained messages new
  unfolding prune_conversation validate_sequence
  prune_conversation-PruneResult retained messages new b h =
      elim (Bool-cases (leb (length p.turns) retained)) [
        | inl few ↦ same (rw (prune_conversation, few) at h)
        | inr many ↦
            elim (Option-cases (
              prune_clusters mentions prune_content
                (older mentions prune_content retained p.turns))) [
                  | inl bad ↦ absurd (cc (rw (prune_conversation, many, bad) at h))
                  | inr ((pruned, any), good) ↦ elim (Bool-cases any) [
                    | inr nothing ↦ same (rw (prune_conversation, many, good, nothing) at h)
                    | inl some_pruned ↦ rebuilt_case pruned any good some_pruned many
                  ]
                ]
      ]
    where
      p : Partition
      p = partition mentions messages

      rebuilt_case :
          (pruned : List ChatMessage) (any : Bool)
          → prune_clusters mentions prune_content (older mentions prune_content retained p.turns)
            ≡ some (pruned, any)
          → any ≡ true
          → leb (length p.turns) retained ≡ false
          → PruneResult retained messages new
      rebuilt_case pruned any good some_pruned many =
          elim (Option-cases (validate_sequence (rebuilt retained messages pruned))) [
            | inr (e, bad) ↦
                absurd (cc (rw (prune_conversation, many, good, some_pruned, bad) at h))
            | inl fine ↦
                PruneResult.shortened pruned
                  (prune_clusters-Alike (older mentions prune_content retained p.turns) pruned any
                    good)
                  (ap (λ x. x.0)
                    (sym (
                      some-injective (rebuilt retained messages pruned, true) (new, b)
                        (rw (prune_conversation, many, good, some_pruned, fine) at h))))
          ]

      same :
          ◌≡◌ {A = Option (List ChatMessage × Bool)} (some (messages, false)) (some (new, b))
          → PruneResult retained messages new
      same e =
          PruneResult.unchanged (ap (λ x. x.0) (sym (some-injective (messages, false) (new, b) e)))

  pub prune_conversation-Alike :
      (retained : ℕ) (messages new : List ChatMessage) (b : Bool)
      → prune_conversation mentions prune_content retained messages ≡ some (new, b)
      → Alike new messages
  prune_conversation-Alike retained messages new b h =
      elim (prune_conversation-PruneResult retained messages new b h) [
        | PruneResult.unchanged e ↦ subst (Alike new) e (Alike-refl new)
        | PruneResult.shortened pruned like e ↦
            subst (λ x. Alike x messages) (sym e) (rebuilt-Alike retained messages pruned like)
      ]

  -- Whatever the pruning returns, validate_sequence answers on it what it answers on the
  -- conversation: the pruning neither breaks nor mends the pairs of calls and results.
  pub prune_conversation-validate :
      (retained : ℕ) (messages new : List ChatMessage) (b : Bool)
      → prune_conversation mentions prune_content retained messages ≡ some (new, b)
      → validate_sequence new ≡ validate_sequence messages
  unfolding validate_sequence
  prune_conversation-validate retained messages new b h =
      check_from-Alike new messages (prune_conversation-Alike retained messages new b h) 0 []
