-- ===== src/Agent/Memory/Boundary.antt =====
-- Where a turn starts, a well-formed conversation can be cut: the later turns are well-formed.
use blender_ai_sidebar.Prelude.{
  ℕ, zero, suc, ◌≡◌, refl, sym, ap, subst, ◌∙◌, true, String, List, [], ◌∷◌, ◌++◌, none,
  Option-cases, Bool-cases, inl, inr, All, drop, nat_comparable,
}
use blender_ai_sidebar.Agent.Models.{Role, ChatMessage}
use blender_ai_sidebar.Agent.Conversation.{
  call_ids, find_duplicate, is_pending, without, check_from, validate_sequence,
}
use blender_ai_sidebar.Agent.Conversation.Grammar.{WellFormed, Role-cases, WellFormed_of_check}
use blender_ai_sidebar.Agent.Memory.{is_user, concat, clusters_from}

-- A turn that starts with a message of the user.
pub record IsHeaded (turn : List ChatMessage) : Type 0 where
  pub user : ChatMessage
  pub others : List ChatMessage
  pub starts : turn ≡ user ∷ others
  pub is_users : user.role ≡ Role.user

role_of_user : (role : Role) → is_user role ≡ true → role ≡ Role.user
role_of_user Role.user h = refl
role_of_user Role.system h = absurd (cc h)
role_of_user Role.assistant h = absurd (cc h)
role_of_user Role.tool h = absurd (cc h)

-- The clusters after the current one are headed, and it starts as the current one does.
clusters_from-IsHeaded :
    (c : ChatMessage) (cs ms : List ChatMessage)
    → (others : List ChatMessage) × ((rest : List (List ChatMessage)) × ((clusters_from (c ∷ cs) ms
            ≡ (c ∷ others) ∷ rest)
          × All IsHeaded rest))
unfolding clusters_from
clusters_from-IsHeaded c cs [] = (cs, ([], (refl, tt)))
clusters_from-IsHeaded c cs (m ∷ ms) = elim (Bool-cases (is_user m.role)) [
  | inl starts ↦
      let (others, (rest, (split, headed))) = clusters_from-IsHeaded m [] ms in
      (
        cs,
        (
          (m ∷ others) ∷ rest,
          (
            rw (clusters_from, starts) (ap (λ x. (c ∷ cs) ∷ x) split),
            (
              record {
                user = m;
                others = others;
                starts = refl;
                is_users = role_of_user m.role starts;
              },
              headed,
            ),
          ),
        ),
      )
  | inr goes_on ↦
      let (others, (rest, (split, headed))) = clusters_from-IsHeaded c (cs ++ m ∷ []) ms in
      (others, (rest, (rw (clusters_from, goes_on) split, headed)))
]

All-drop : (n : ℕ) (ts : List (List ChatMessage)) → All IsHeaded ts → All IsHeaded (drop n ts)
All-drop zero ts h = h
All-drop (suc n) [] h = tt
All-drop (suc n) (t ∷ ts) h = All-drop n ts h.1

pub clusters_from-later :
    (n : ℕ) (ms : List ChatMessage) → All IsHeaded (drop (suc n) (clusters_from [] ms))
unfolding clusters_from
clusters_from-later n [] = tt
clusters_from-later n (m ∷ ms) =
    let (others, (rest, (split, headed))) = clusters_from-IsHeaded m [] ms in
    subst (λ x. All IsHeaded (drop (suc n) x)) (sym split) (All-drop n rest headed)

-- The loop reaches a message of the user with no call pending.
check_from-user :
    (xs : List ChatMessage) (idx : ℕ) (pending : List String) (m : ChatMessage)
    (ms : List ChatMessage)
    → m.role ≡ Role.user
    → check_from idx pending (xs ++ m ∷ ms) ≡ none
    → (n : ℕ) × (check_from n [] (m ∷ ms) ≡ none)
unfolding check_from
check_from-user [] idx [] m ms u h = (idx, h)
check_from-user [] idx (p ∷ pending) m ms u h = absurd (cc (rw (u, check_from) at h))
check_from-user (x ∷ xs) idx [] m ms u h = elim (Role-cases x.role) [
  | inl e ↦ elim (Option-cases (find_duplicate [] (call_ids x))) [
    | inl fine ↦
        check_from-user xs (suc idx) (call_ids x) m ms u (rw fine at (rw (e, check_from) at h))
    | inr (c, again) ↦ absurd (cc (rw again at (rw (e, check_from) at h)))
  ]
  | inr (inl e) ↦ absurd (cc (rw (e, check_from) at h))
  | inr (inr (inl e)) ↦ check_from-user xs (suc idx) [] m ms u (rw (e, check_from) at h)
  | inr (inr (inr e)) ↦ check_from-user xs (suc idx) [] m ms u (rw (e, check_from) at h)
]
check_from-user (x ∷ xs) idx (p ∷ pending) m ms u h = elim (Role-cases x.role) [
  | inl e ↦ absurd (cc (rw (e, check_from) at h))
  | inr (inl e) ↦ elim (Bool-cases (is_pending x.tool_call_id (p ∷ pending))) [
    | inl waits ↦
        check_from-user xs (suc idx) (without x.tool_call_id (p ∷ pending)) m ms u
          (rw waits at (rw (e, check_from) at h))
    | inr unknown ↦ absurd (cc (rw unknown at (rw (e, check_from) at h)))
  ]
  | inr (inr (inl e)) ↦ absurd (cc (rw (e, check_from) at h))
  | inr (inr (inr e)) ↦ absurd (cc (rw (e, check_from) at h))
]

-- Headed turns at the end of a well-formed conversation are well-formed.
pub later_turns-WellFormed :
    (front : List ChatMessage) (turns : List (List ChatMessage))
    → All IsHeaded turns
    → validate_sequence (front ++ concat turns) ≡ none
    → WellFormed (concat turns)
unfolding validate_sequence
later_turns-WellFormed front [] h valid = WellFormed.over
later_turns-WellFormed front (turn ∷ turns) h valid =
    let t = h.0 in
    let whole : turn ++ concat turns ≡ t.user ∷ t.others ++ concat turns =
      ap (λ x. x ++ concat turns) t.starts in
    let (n, fine) =
      check_from-user front 0 [] t.user (t.others ++ concat turns) t.is_users
        (ap (λ x. check_from 0 [] (front ++ x)) (sym whole) ∙ valid) in
    subst WellFormed (sym whole) (WellFormed_of_check (t.user ∷ t.others ++ concat turns) n fine)
