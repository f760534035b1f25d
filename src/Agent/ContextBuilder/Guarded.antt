-- ===== src/Agent/ContextBuilder/Guarded.antt =====
-- The size guard of agent/context_builder.py keeps conversations well-formed.
use blender_ai_sidebar.Prelude.{
  ℕ, ◌≡◌, refl, sym, ap, subst, ◌∙◌, true, false, List, [], ◌∷◌, ◌++◌, Option, none, some,
  Bool-cases, Option-cases, inl, inr, if_lem, ltb,
}
use mathlib.Core.Option.{some-injective}
use Prim.Native.Nat.{◌/◌}
use blender_ai_sidebar.Core.TextParts.{length_of}
use blender_ai_sidebar.Agent.Models.{Role, Content, ChatMessage, accepts, make_message}
use blender_ai_sidebar.Agent.Conversation.{check_from, validate_sequence}
use blender_ai_sidebar.Agent.Conversation.Grammar.{
  WellFormed, WellFormed_of_check, validate_sequence_iff,
}
use blender_ai_sidebar.Agent.Memory.{is_user, concat}
use blender_ai_sidebar.Agent.Memory.Builtins.{Builtins, text_of}
use blender_ai_sidebar.Agent.Memory.Alike.{Like, Alike, check_from-Alike}
use blender_ai_sidebar.Agent.ContextBuilder.{
  is_tool, shortened, truncation, last_user, split_latest, group, fits, evict, with_content,
  shorten, shorten_all, keep_latest, evicted, apply_context_size_guard,
}
use blender_ai_sidebar.Agent.ContextBuilder.Clusters.{
  tool_first, Clustered, group-concat, group-Clustered, without_first, tool_role,
}

-- The messages are split at the latest one of the user.
last_user-append :
    (ms older latest : List ChatMessage)
    → last_user ms ≡ some (older, latest)
    → (older ++ latest ≡ ms) × (tool_first latest ≡ false)
unfolding last_user
last_user-append [] older latest h = absurd (cc h)
last_user-append (m ∷ ms) older latest h = elim (Option-cases (last_user ms)) [
  | inr ((o, l), found) ↦
      let same = some-injective (m ∷ o, l) (older, latest) (rw (last_user, found) at h) in
      let (whole, other) = last_user-append ms o l found in
      (
        sym (ap (λ p. p.0 ++ p.1) same) ∙ ap (λ x. m ∷ x) whole,
        sym (ap (λ p. tool_first p.1) same) ∙ other,
      )
  | inl missing ↦ elim (Bool-cases (is_user m.role)) [
    | inr other ↦ absurd (cc (rw (last_user, missing, other) at h))
    | inl users ↦
        let same =
          some-injective ([], m ∷ ms) (older, latest) (rw (last_user, missing, users) at h) in
        (
          sym (ap (λ p. p.0 ++ p.1) same),
          sym (ap (λ p. tool_first p.1) same) ∙ no_tool m.role users,
        )
  ]
]
  where
    no_tool : (role : Role) → is_user role ≡ true → is_tool role ≡ false
    no_tool Role.user e = refl
    no_tool Role.system e = absurd (cc e)
    no_tool Role.assistant e = absurd (cc e)
    no_tool Role.tool e = absurd (cc e)

-- A conversation that is there, if the guard returns one, is well-formed.
data Fine : Option (List ChatMessage) → Type 0 where
  raises : Fine none
  well : {ms : List ChatMessage} → WellFormed ms → Fine (some ms)

module _ (py : Builtins) (limit : ℕ) (sys : ChatMessage) (is_system : sys.role ≡ Role.system) where
  behind_system :
      (ms : List ChatMessage) (n : ℕ) → check_from n [] ms ≡ none → WellFormed (sys ∷ ms)
  behind_system ms n h = WellFormed.spoken (inr is_system) (WellFormed_of_check ms n h)

  made-Like :
      (x m m' : ChatMessage)
      → x.role ≡ Role.tool
      → m.role ≡ Role.tool
      → x.tool_call_id ≡ m.tool_call_id
      → make_message x ≡ some m'
      → Like m' m
  unfolding make_message
  made-Like x m m' role is_result id h = elim (Bool-cases (accepts x)) [
    | inr bad ↦ absurd (cc (rw (make_message, bad) at h))
    | inl good ↦
        let same : x ≡ m' = some-injective x m' (rw (make_message, good) at h) in
        Like.tool (sym (ap (λ y. y.role) same) ∙ role) is_result
          (sym (ap (λ y. y.tool_call_id) same) ∙ id)
  ]

  shortened-Like :
      (m m' : ChatMessage) (c : Content)
      → m.role ≡ Role.tool
      → shortened py limit m c ≡ some m'
      → Like m' m
  shortened-Like m m' c result h = elim (Bool-cases (ltb (limit / 2) (length_of (text_of py c)))) [
    | inl long ↦
        made-Like (with_content py limit (truncation py limit (length_of (text_of py c))) m) m m'
          refl result refl (rw long at h)
    | inr short ↦ Like.same (sym (some-injective m m' (rw short at h)))
  ]

  shorten-Like : (m m' : ChatMessage) → shorten py limit m ≡ some m' → Like m' m
  unfolding shorten make_message
  shorten-Like m m' h = elim (Bool-cases (is_tool m.role)) [
    | inr other ↦ Like.same (sym (some-injective m m' (rw (shorten, other) at h)))
    | inl result ↦ elim (Option-cases m.content) [
      | inl missing ↦ Like.same (sym (some-injective m m' (rw (shorten, result, missing) at h)))
      | inr (c, there) ↦
          shortened-Like m m' c (tool_role m.role result) (rw (shorten, result, there) at h)
    ]
  ]

  shorten_all-Alike :
      (ms ms' : List ChatMessage) → shorten_all py limit ms ≡ some ms' → Alike ms' ms
  unfolding shorten_all
  shorten_all-Alike [] ms' h = subst (λ x. Alike x []) (some-injective [] ms' h) Alike.ends
  shorten_all-Alike (m ∷ ms) ms' h = elim (Option-cases (shorten py limit m)) [
    | inl bad ↦ absurd (cc (rw (shorten_all, bad) at h))
    | inr (x, good) ↦ elim (Option-cases (shorten_all py limit ms)) [
      | inl bad ↦ absurd (cc (rw (shorten_all, good, bad) at h))
      | inr (xs, fine) ↦
          subst (λ y. Alike y (m ∷ ms))
            (some-injective (x ∷ xs) ms' (rw (shorten_all, good, fine) at h))
            (Alike.follows (shorten-Like m x good) (shorten_all-Alike ms xs fine))
    ]
  ]

  keep_latest-Fine :
      (latest : List ChatMessage) (n : ℕ)
      → check_from n [] latest ≡ none
      → Fine (keep_latest py limit sys latest)
  unfolding keep_latest
  keep_latest-Fine latest n h = elim (Bool-cases (fits py limit (sys ∷ latest))) [
    | inl short ↦ rw (keep_latest, short) (well (behind_system latest n h))
    | inr long ↦ elim (Option-cases (shorten_all py limit latest)) [
      | inl bad ↦ rw (keep_latest, long, bad) raises
      | inr (ms, good) ↦
          rw (keep_latest, long, good)
            (well (
              behind_system ms n
                (check_from-Alike ms latest (shorten_all-Alike latest ms good) n [] ∙ h)))
    ]
  ]

  evicted-Fine :
      (latest : List ChatMessage) (clusters : List (List ChatMessage)) (n : ℕ)
      → Clustered latest clusters
      → check_from n [] (concat clusters ++ latest) ≡ none
      → Fine (evicted py limit sys latest clusters)
  unfolding evict
  evicted-Fine latest [] n h valid = keep_latest-Fine latest n valid
  evicted-Fine latest (cl ∷ cls) n h valid =
      elim (Bool-cases (fits py limit (sys ∷ concat (cl ∷ cls) ++ latest))) [
        | inl short ↦
            rw (evicted, evict, short) (well (behind_system (concat (cl ∷ cls) ++ latest) n valid))
        | inr long ↦
            let ((k, fine), rest) = without_first latest cl cls n h valid in
            rw (evicted, evict, long) (evicted-Fine latest cls k rest fine)
      ]

  split_latest-append :
      (ms : List ChatMessage)
      → ((split_latest ms).0 ++ (split_latest ms).1 ≡ ms)
        × Clustered (split_latest ms).1 (group [] (split_latest ms).0)
  unfolding split_latest group
  split_latest-append ms = elim (Option-cases (last_user ms)) [
    | inl missing ↦ rw (split_latest, missing) (refl, Clustered.over)
    | inr ((older, latest), found) ↦
        let (whole, other) = last_user-append ms older latest found in
        rw (split_latest, found) (whole, group-Clustered latest [] older other tt)
  ]

  guard-Fine :
      (remaining : List ChatMessage)
      → validate_sequence (sys ∷ remaining) ≡ none
      → Fine (apply_context_size_guard py limit (sys ∷ remaining))
  unfolding apply_context_size_guard validate_sequence check_from
  guard-Fine remaining valid =
      let (whole, clustered) = split_latest-append remaining in
      let (older, latest) = split_latest remaining in
      if_lem Fine (fits py limit (sys ∷ remaining)) (some (sys ∷ remaining))
        (evicted py limit sys latest (group [] older))
        (well ((validate_sequence_iff (sys ∷ remaining)).0 valid))
        (evicted-Fine latest (group [] older) 1 clustered (
          ap (λ x. check_from 1 [] (x ++ latest)) (group-concat [] older)
          ∙ ap (check_from 1 []) whole
          ∙ (rw (check_from, is_system) at valid)))

Fine-some :
    (o : Option (List ChatMessage)) (new : List ChatMessage)
    → Fine o
    → o ≡ some new
    → validate_sequence new ≡ none
Fine-some none new h e = absurd (cc e)
Fine-some (some ms) new (well w) e =
    ap validate_sequence (sym (some-injective ms new e)) ∙ (validate_sequence_iff ms).1 w

-- Whatever the size guard makes of a well-formed conversation that starts with a system message is
-- well-formed: no call is parted from its results.
pub guard-validate :
    (py : Builtins) (limit : ℕ) (sys : ChatMessage) (remaining new : List ChatMessage)
    → sys.role ≡ Role.system
    → validate_sequence (sys ∷ remaining) ≡ none
    → apply_context_size_guard py limit (sys ∷ remaining) ≡ some new
    → validate_sequence new ≡ none
guard-validate py limit sys remaining new is_system valid run =
    Fine-some (apply_context_size_guard py limit (sys ∷ remaining)) new
      (guard-Fine py limit sys is_system remaining valid) run
