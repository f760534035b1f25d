-- ===== src/Agent/Memory/Similar.antt =====
-- Similar conversations have similar turns: partition_conversation_into_turns of agent/memory.py.
use blender_ai_sidebar.Prelude.{
  ℕ, zero, suc, ◌≡◌, refl, sym, ap, ◌∙◌, arith, Bool, ◌&&◌, String, List, [], ◌∷◌, ◌++◌, Option,
  Bool-cases, inl, inr, length, length-append, drop, nat_comparable,
}
use blender_ai_sidebar.Agent.Models.{Role, Content, ChatMessage}
use blender_ai_sidebar.Agent.Memory.{
  summary_marker, is_user, is_assistant, concat, clusters_from, split_system, split_ack,
  split_summary, partition,
}
use blender_ai_sidebar.Agent.Memory.Alike.{Like, Alike, Alike-append}

pub data AlikeTurns : List (List ChatMessage) → List (List ChatMessage) → Type 0 where
  no_turns : AlikeTurns [] []
  then :
      {t' t : List ChatMessage} {ts' ts : List (List ChatMessage)}
      → Alike t' t
      → AlikeTurns ts' ts
      → AlikeTurns (t' ∷ ts') (t ∷ ts)

pub Like-role : (m' m : ChatMessage) → Like m' m → m'.role ≡ m.role
Like-role m' m (Like.same e) = ap (λ x. x.role) e
Like-role m' m (Like.user h' h c) = h' ∙ sym h
Like-role m' m (Like.tool h' h id) = h' ∙ sym h

Like-user :
    (f : Option Content → Bool) (m' m : ChatMessage)
    → Like m' m
    → (is_user m'.role && f m'.content) ≡ (is_user m.role && f m.content)
Like-user f m' m (Like.same e) = ap (λ x. is_user x.role && f x.content) e
Like-user f m' m (Like.user h' h c) = rw (h', h, c) refl
Like-user f m' m (Like.tool h' h id) = rw (h', h) refl

Like-assistant :
    (f : Option Content → Bool) (m' m : ChatMessage)
    → Like m' m
    → (is_assistant m'.role && f m'.content) ≡ (is_assistant m.role && f m.content)
Like-assistant f m' m (Like.same e) = ap (λ x. is_assistant x.role && f x.content) e
Like-assistant f m' m (Like.user h' h c) = rw (h', h) refl
Like-assistant f m' m (Like.tool h' h id) = rw (h', h) refl

-- Both parts of two splits.
abbrev Both : List ChatMessage × List ChatMessage → List ChatMessage × List ChatMessage → Type 0
Both p' p = Alike p'.0 p.0 × Alike p'.1 p.1

split_system-Alike :
    (ms' ms : List ChatMessage) → Alike ms' ms → Both (split_system ms') (split_system ms)
unfolding split_system
split_system-Alike [] [] Alike.ends = (Alike.ends, Alike.ends)
split_system-Alike [] (m ∷ ms) h = elim h [ ]
split_system-Alike (m' ∷ ms') [] h = elim h [ ]
split_system-Alike (m' ∷ ms') (m ∷ ms) (Alike.follows like rest) = at m.role refl
  where
    at : (role : Role) → m.role ≡ role → Both (split_system (m' ∷ ms')) (split_system (m ∷ ms))
    at Role.system h =
        simp (split_system, h, Like-role m' m like ∙ h) (Alike.follows like Alike.ends, rest)
    at Role.user h =
        simp (split_system, h, Like-role m' m like ∙ h) (Alike.ends, Alike.follows like rest)
    at Role.assistant h =
        simp (split_system, h, Like-role m' m like ∙ h) (Alike.ends, Alike.follows like rest)
    at Role.tool h =
        simp (split_system, h, Like-role m' m like ∙ h) (Alike.ends, Alike.follows like rest)

clusters_from-Alike :
    (cs' cs ms' ms : List ChatMessage)
    → Alike cs' cs
    → Alike ms' ms
    → AlikeTurns (clusters_from cs' ms') (clusters_from cs ms)
unfolding clusters_from
clusters_from-Alike [] [] [] [] c h = no_turns
clusters_from-Alike (c' ∷ cs') (c ∷ cs) [] [] k h = then k no_turns
clusters_from-Alike [] [] (m' ∷ ms') (m ∷ ms) k (Alike.follows like rest) =
    clusters_from-Alike (m' ∷ []) (m ∷ []) ms' ms (Alike.follows like Alike.ends) rest
clusters_from-Alike (c' ∷ cs') (c ∷ cs) (m' ∷ ms') (m ∷ ms) k (Alike.follows like rest) =
    elim (Bool-cases (is_user m.role)) [
      | inl starts ↦
          rw (clusters_from, starts, ap is_user (Like-role m' m like) ∙ starts)
            (then k
              (clusters_from-Alike (m' ∷ []) (m ∷ []) ms' ms (Alike.follows like Alike.ends) rest))
      | inr goes_on ↦
          rw (clusters_from, goes_on, ap is_user (Like-role m' m like) ∙ goes_on)
            (clusters_from-Alike ((c' ∷ cs') ++ m' ∷ []) ((c ∷ cs) ++ m ∷ []) ms' ms
              (Alike-append (c' ∷ cs') (c ∷ cs) (m' ∷ []) (m ∷ []) k
                (Alike.follows like Alike.ends))
              rest)
    ]
clusters_from-Alike [] (c ∷ cs) ms' ms k h = elim k [ ]
clusters_from-Alike (c' ∷ cs') [] ms' ms k h = elim k [ ]
clusters_from-Alike cs' cs [] (m ∷ ms) k h = elim h [ ]
clusters_from-Alike cs' cs (m' ∷ ms') [] k h = elim h [ ]

pub Alike-length : (ms' ms : List ChatMessage) → Alike ms' ms → length ms' ≡ length ms
Alike-length [] [] h = refl
Alike-length (m' ∷ ms') (m ∷ ms) (Alike.follows like rest) = ap suc (Alike-length ms' ms rest)
Alike-length [] (m ∷ ms) h = elim h [ ]
Alike-length (m' ∷ ms') [] h = elim h [ ]

pub AlikeTurns-length :
    (ts' ts : List (List ChatMessage)) → AlikeTurns ts' ts → length ts' ≡ length ts
AlikeTurns-length [] [] h = refl
AlikeTurns-length (t' ∷ ts') (t ∷ ts) (then like rest) = ap suc (AlikeTurns-length ts' ts rest)
AlikeTurns-length [] (t ∷ ts) h = elim h [ ]
AlikeTurns-length (t' ∷ ts') [] h = elim h [ ]

pub AlikeTurns-concat :
    (ts' ts : List (List ChatMessage)) → AlikeTurns ts' ts → Alike (concat ts') (concat ts)
AlikeTurns-concat [] [] h = Alike.ends
AlikeTurns-concat (t' ∷ ts') (t ∷ ts) (then like rest) =
    Alike-append t' t (concat ts') (concat ts) like (AlikeTurns-concat ts' ts rest)
AlikeTurns-concat [] (t ∷ ts) h = elim h [ ]
AlikeTurns-concat (t' ∷ ts') [] h = elim h [ ]

pub AlikeTurns-drop :
    (n : ℕ) (ts' ts : List (List ChatMessage))
    → AlikeTurns ts' ts
    → AlikeTurns (drop n ts') (drop n ts)
AlikeTurns-drop zero ts' ts h = h
AlikeTurns-drop (suc n) [] [] h = no_turns
AlikeTurns-drop (suc n) (t' ∷ ts') (t ∷ ts) (then like rest) = AlikeTurns-drop n ts' ts rest
AlikeTurns-drop (suc n) [] (t ∷ ts) h = elim h [ ]
AlikeTurns-drop (suc n) (t' ∷ ts') [] h = elim h [ ]

-- Suffixes of the same length of one list are equal.
pub append-suffix {ℓ} :
    {A : Type ℓ} (xs' xs ys' ys : List A)
    → xs' ++ ys' ≡ xs ++ ys
    → length ys' ≡ length ys
    → (xs' ≡ xs) × (ys' ≡ ys)
append-suffix [] [] ys' ys h l = (refl, h)
append-suffix (x' ∷ xs') (x ∷ xs) ys' ys h l =
    let rest = append-suffix xs' xs ys' ys (cc h) l in (cc (h, rest.0), rest.1)
append-suffix [] (x ∷ xs) ys' ys h l = absurd (omega (arith, l, ap length h, length-append xs ys))
append-suffix (x' ∷ xs') [] ys' ys h l =
    absurd (omega (arith, l, ap length h, length-append xs' ys'))

pub AlikeTurns-eq :
    (ts' ts : List (List ChatMessage)) → AlikeTurns ts' ts → concat ts' ≡ concat ts → ts' ≡ ts
AlikeTurns-eq [] [] h e = refl
AlikeTurns-eq (t' ∷ ts') (t ∷ ts) (then like rest) e =
    let split =
      append-suffix t' t (concat ts') (concat ts) e
        (Alike-length (concat ts') (concat ts) (AlikeTurns-concat ts' ts rest)) in
    cc (split.0, AlikeTurns-eq ts' ts rest split.1)
AlikeTurns-eq [] (t ∷ ts) h e = elim h [ ]
AlikeTurns-eq (t' ∷ ts') [] h e = elim h [ ]

module _ (mentions : String → Option Content → Bool) where
  split_ack-Alike :
      (ms' ms : List ChatMessage)
      → Alike ms' ms
      → Both (split_ack mentions ms') (split_ack mentions ms)
  unfolding split_ack
  split_ack-Alike [] [] h = (Alike.ends, Alike.ends)
  split_ack-Alike (m' ∷ ms') (m ∷ ms) (Alike.follows like rest) =
      let same = Like-assistant (mentions "Understood.") m' m like in
      elim (Bool-cases (is_assistant m.role && mentions "Understood." m.content)) [
        | inl holds ↦ rw (split_ack, holds, same ∙ holds) (Alike.follows like Alike.ends, rest)
        | inr fails ↦ rw (split_ack, fails, same ∙ fails) (Alike.ends, Alike.follows like rest)
      ]
  split_ack-Alike [] (m ∷ ms) h = elim h [ ]
  split_ack-Alike (m' ∷ ms') [] h = elim h [ ]

  split_summary-Alike :
      (ms' ms : List ChatMessage)
      → Alike ms' ms
      → Both (split_summary mentions ms') (split_summary mentions ms)
  unfolding split_summary
  split_summary-Alike [] [] h = (Alike.ends, Alike.ends)
  split_summary-Alike (m' ∷ ms') (m ∷ ms) (Alike.follows like rest) =
      let same = Like-user (mentions summary_marker) m' m like in
      let ack = split_ack-Alike ms' ms rest in
      elim (Bool-cases (is_user m.role && mentions summary_marker m.content)) [
        | inl holds ↦ rw (split_summary, holds, same ∙ holds) (Alike.follows like ack.0, ack.1)
        | inr fails ↦ rw (split_summary, fails, same ∙ fails) (Alike.ends, Alike.follows like rest)
      ]
  split_summary-Alike [] (m ∷ ms) h = elim h [ ]
  split_summary-Alike (m' ∷ ms') [] h = elim h [ ]

  -- The three parts of the partitions.
  pub partition-Alike :
      (ms' ms : List ChatMessage)
      → Alike ms' ms
      → Alike (partition mentions ms').system (partition mentions ms).system
        × (Alike (partition mentions ms').summary (partition mentions ms).summary
            × AlikeTurns (partition mentions ms').turns (partition mentions ms).turns)
  unfolding partition
  partition-Alike ms' ms h =
      let system = split_system-Alike ms' ms h in
      let summary = split_summary-Alike (split_system ms').1 (split_system ms).1 system.1 in
      (system.0, (summary.0, clusters_from-Alike [] [] _ _ Alike.ends summary.1))
