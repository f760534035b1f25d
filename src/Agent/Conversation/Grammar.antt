-- ===== src/Agent/Conversation/Grammar.antt =====
-- What validate_sequence accepts, as a grammar of conversations.
use blender_ai_sidebar.Prelude.{
  ℕ, suc, ◌+◌, ◌≤◌, ◌≡◌, refl, sym, ap, subst, arith, true, String, List, [], ◌∷◌, ◌++◌, none, some,
  string_comparable, contains, contains-eq_true, contains-eq_false, remove, count, count-remove,
  IsDistinct, Bool-cases, Option-cases, inl, inr, ◌⊎◌, eq_iff, ◌↔◌,
}
use blender_ai_sidebar.Agent.Models.{Role, ChatMessage}
use blender_ai_sidebar.Agent.Conversation.{call_ids, find_duplicate, check_from, validate_sequence}

-- The TOOL messages that answer the calls `ids`, in this order.
pub data Answers : List String → List ChatMessage → Type 0 where
  no_more : Answers [] []
  answer :
      {c : String}
      → {ids : List String} → {m : ChatMessage} → {ms : List ChatMessage} → m.role ≡ Role.tool
      → m.tool_call_id ≡ some c
      → Answers ids ms
      → Answers (c ∷ ids) (m ∷ ms)

abbrev pub IsPermutation : List String → List String → Type 0
IsPermutation xs ys = (s : String) → count s xs ≡ count s ys

-- A conversation: messages of the user and the system, and messages of the assistant, each with
-- the answers to its calls, which have different ids, in any order right behind it.
pub data WellFormed : List ChatMessage → Type 0 where
  over : WellFormed []
  spoken :
      {m : ChatMessage}
      → {ms : List ChatMessage} → (m.role ≡ Role.user) ⊎ (m.role ≡ Role.system)
      → WellFormed ms
      → WellFormed (m ∷ ms)
  asked :
      {m : ChatMessage}
      → {ids : List String} → {answers ms : List ChatMessage} → m.role ≡ Role.assistant
      → IsDistinct (call_ids m)
      → Answers ids answers
      → IsPermutation ids (call_ids m)
      → WellFormed ms
      → WellFormed (m ∷ answers ++ ms)

-- The rest of a conversation in which the calls `pending` wait for an answer.
record Parts (pending : List String) (ms : List ChatMessage) : Type 0 where
  ids : List String
  answers : List ChatMessage
  rest : List ChatMessage
  split : ms ≡ answers ++ rest
  answered : Answers ids answers
  same : IsPermutation ids pending
  well_formed : WellFormed rest

abbrev Sound : List String → List ChatMessage → Type 0
Sound [] ms = WellFormed ms
Sound (p ∷ pending) ms = Parts (p ∷ pending) ms

Parts-Sound : (pending : List String) (ms : List ChatMessage) → Sound pending ms → Parts pending ms
Parts-Sound [] ms w = record {
  ids = [];
  answers = [];
  rest = ms;
  split = refl;
  answered = no_more;
  same = λ s. refl;
  well_formed = w;
}
Parts-Sound (p ∷ pending) ms parts = parts

pub Role-cases :
    (r : Role) → (r ≡ Role.assistant) ⊎ (r ≡ Role.tool) ⊎ ((r ≡ Role.user) ⊎ (r ≡ Role.system))
Role-cases Role.assistant = inl refl
Role-cases Role.tool = inr (inl refl)
Role-cases Role.user = inr (inr (inl refl))
Role-cases Role.system = inr (inr (inr refl))

find_duplicate-none :
    (seen cs : List String)
    → IsDistinct seen
    → find_duplicate seen cs ≡ none
    → (s : String) → count s seen + count s cs ≤ 1
unfolding find_duplicate count
find_duplicate-none seen [] d h s = omega (arith, d s)
find_duplicate-none seen (c ∷ cs) d h s = elim (Bool-cases (contains c seen)) [
  | inl again ↦ absurd (cc (rw (again, find_duplicate) at h))
  | inr new ↦
      let ih =
        find_duplicate-none (c ∷ seen) cs
          (λ t. ground (arith, d t, contains-eq_false c seen new, eq_iff c t))
          (rw (new, find_duplicate) at h) s in
      omega (arith, ih)
]

find_duplicate-eq_none :
    (seen cs : List String)
    → ((s : String) → count s seen + count s cs ≤ 1)
    → find_duplicate seen cs ≡ none
unfolding find_duplicate count
find_duplicate-eq_none seen [] d = refl
find_duplicate-eq_none seen (c ∷ cs) d = elim (Bool-cases (contains c seen)) [
  | inl again ↦ absurd (ground (arith, d c, contains-eq_true c seen again, eq_iff c c))
  | inr new ↦
      rw (new, find_duplicate) (find_duplicate-eq_none (c ∷ seen) cs (λ s. omega (arith, d s)))
]

calls-IsDistinct : (cs : List String) → find_duplicate [] cs ≡ none → IsDistinct cs
unfolding count
calls-IsDistinct cs fine s = omega (arith, find_duplicate-none [] cs (λ t. omega arith) fine s)

-- One answer, from the rest.
answer-Parts :
    (c : String) (pending : List String) (m : ChatMessage) (ms : List ChatMessage)
    → m.role ≡ Role.tool
    → m.tool_call_id ≡ some c
    → contains c pending ≡ true
    → Parts (remove c pending) ms
    → Parts pending (m ∷ ms)
unfolding count
answer-Parts c pending m ms is_tool has_id waits parts = record {
  ids = c ∷ parts.ids;
  answers = m ∷ parts.answers;
  rest = parts.rest;
  split = ap (λ l. m ∷ l) parts.split;
  answered = answer is_tool has_id parts.answered;
  same =
      λ s. omega (arith, parts.same s, count-remove c s pending (contains-eq_true c pending waits));
  well_formed = parts.well_formed;
}

check_from-Sound :
    (ms : List ChatMessage) (idx : ℕ) (pending : List String)
    → check_from idx pending ms ≡ none
    → Sound pending ms
unfolding check_from
check_from-Sound [] idx [] h = over
check_from-Sound [] idx (p ∷ pending) h = absurd cc
check_from-Sound (m ∷ ms) idx [] h = elim (Role-cases m.role) [
  | inl e ↦ elim (Option-cases (find_duplicate [] (call_ids m))) [
    | inl fine ↦
        let parts =
          Parts-Sound (call_ids m) ms
            (check_from-Sound ms (suc idx) (call_ids m) (rw fine at (rw (e, check_from) at h))) in
        subst (λ (l : List ChatMessage). WellFormed (m ∷ l)) (sym parts.split)
          (asked e (calls-IsDistinct (call_ids m) fine) parts.answered parts.same parts.well_formed)
    | inr (c, again) ↦ absurd (cc (rw again at (rw (e, check_from) at h)))
  ]
  | inr (inl e) ↦ absurd (cc (rw (e, check_from) at h))
  | inr (inr (inl e)) ↦ spoken (inl e) (check_from-Sound ms (suc idx) [] (rw (e, check_from) at h))
  | inr (inr (inr e)) ↦ spoken (inr e) (check_from-Sound ms (suc idx) [] (rw (e, check_from) at h))
]
check_from-Sound (m ∷ ms) idx (p ∷ pending) h = elim (Role-cases m.role) [
  | inl e ↦ absurd (cc (rw (e, check_from) at h))
  | inr (inl e) ↦ elim (Option-cases m.tool_call_id) [
    | inl missing ↦ absurd (cc (rw missing at (rw (e, check_from) at h)))
    | inr (c, has_id) ↦ elim (Bool-cases (contains c (p ∷ pending))) [
      | inl waits ↦ answer-Parts c (p ∷ pending) m ms e has_id waits (
          Parts-Sound (remove c (p ∷ pending)) ms (
            check_from-Sound ms (suc idx) (remove c (p ∷ pending))
              (rw waits at (rw has_id at (rw (e, check_from) at h)))))
      | inr unknown ↦ absurd (cc (rw unknown at (rw has_id at (rw (e, check_from) at h))))
    ]
  ]
  | inr (inr (inl e)) ↦ absurd (cc (rw (e, check_from) at h))
  | inr (inr (inr e)) ↦ absurd (cc (rw (e, check_from) at h))
]

no_pending : (pending : List String) → IsPermutation [] pending → pending ≡ []
unfolding count
no_pending [] h = refl
no_pending (p ∷ pending) h = absurd (ground (arith, h p, eq_iff p p))

-- The loop takes the answers to the pending calls away, whatever follows.
check_from-Answers :
    (ids pending : List String) (answers ms : List ChatMessage) (idx : ℕ)
    → Answers ids answers
    → IsPermutation ids pending
    → ((n : ℕ) → check_from n [] ms ≡ none)
    → check_from idx pending (answers ++ ms) ≡ none
unfolding check_from count
check_from-Answers [] pending [] ms idx no_more same rest = rw (no_pending pending same) (rest idx)
check_from-Answers [] pending (m ∷ answers) ms idx a same rest = elim a [ ]
check_from-Answers (c ∷ ids) pending [] ms idx a same rest = elim a [ ]
check_from-Answers (c ∷ ids) [] (m ∷ answers) ms idx (answer is_tool has_id more) same rest =
    absurd (ground (arith, same c, eq_iff c c))
check_from-Answers (c ∷ ids) (p ∷ pending) (m ∷ answers) ms idx (answer is_tool has_id more) same
      rest =
    elim (Bool-cases (contains c (p ∷ pending))) [
      | inl waits ↦
          rw (is_tool, check_from)
            (rw has_id (
              rw waits (
                check_from-Answers ids (remove c (p ∷ pending)) answers ms (suc idx) more
                  (λ s. omega (
                    arith,
                    same s,
                    count-remove c s (p ∷ pending) (contains-eq_true c (p ∷ pending) waits),
                  ))
                  rest)))
      | inr unknown ↦
          absurd (ground (arith, same c, eq_iff c c, contains-eq_false c (p ∷ pending) unknown))
    ]

check_from-WellFormed :
    (ms : List ChatMessage) → WellFormed ms → (idx : ℕ) → check_from idx [] ms ≡ none
unfolding check_from count
check_from-WellFormed _ over idx = refl
check_from-WellFormed _ (spoken {m} {ms} (inl e) w) idx =
    rw (e, check_from) (check_from-WellFormed ms w (suc idx))
check_from-WellFormed _ (spoken {m} {ms} (inr e) w) idx =
    rw (e, check_from) (check_from-WellFormed ms w (suc idx))
check_from-WellFormed _ (asked {m} {ids} {answers} {ms} e distinct answered same w) idx =
    rw (e, check_from)
      (rw (find_duplicate-eq_none [] (call_ids m) (λ s. omega (arith, distinct s))) (
        check_from-Answers ids (call_ids m) answers ms (suc idx) answered same
          (check_from-WellFormed ms w)))

pub WellFormed_of_check :
    (ms : List ChatMessage) (idx : ℕ) → check_from idx [] ms ≡ none → WellFormed ms
WellFormed_of_check ms idx = check_from-Sound ms idx []

-- validate_sequence raises no ValueError exactly on the conversations of the grammar: messages of
-- the user and the system, and messages of the assistant each directly followed by one answer to
-- each of its calls, whose ids differ, in any order.
pub validate_sequence_iff :
    (messages : List ChatMessage) → (validate_sequence messages ≡ none) ↔ WellFormed messages
unfolding validate_sequence
validate_sequence_iff messages =
    (check_from-Sound messages 0 [], λ w. check_from-WellFormed messages w 0)
