-- ===== src/Agent/ContextBuilder/Clusters.antt =====
-- The clusters of the older messages: agent/context_builder.py, _apply_context_size_guard.
use blender_ai_sidebar.Prelude.{
  ℕ, suc, ◌≡◌, refl, sym, ap, subst, ◌∙◌, Bool, true, false, String, List, [], ◌∷◌, ◌++◌,
  append_assoc, map, none, Bool-cases, Option-cases, inl, inr, All, string_comparable,
}
use blender_ai_sidebar.Agent.Models.{ToolCall, Role, ChatMessage, has_items}
use blender_ai_sidebar.Agent.Conversation.{
  call_ids, find_duplicate, is_pending, without, check_from,
}
use blender_ai_sidebar.Agent.Memory.{concat}
use blender_ai_sidebar.Agent.ContextBuilder.{is_tool, opens, group}

abbrev IsTool : ChatMessage → Type 0
IsTool m = is_tool m.role ≡ true

-- Whether a tool result comes first.
abbrev pub tool_first : List ChatMessage → Bool
tool_first [] = false
tool_first (m ∷ ms) = is_tool m.role

-- The clusters before the latest messages: single messages, and calls with all their results.
pub data Clustered (latest : List ChatMessage) : List (List ChatMessage) → Type 0 where
  over : Clustered latest []
  single :
      {m : ChatMessage} {cls : List (List ChatMessage)}
      → opens m ≡ false
      → Clustered latest cls
      → Clustered latest ((m ∷ []) ∷ cls)
  called :
      {m : ChatMessage} {tools : List ChatMessage} {cls : List (List ChatMessage)}
      → opens m ≡ true
      → All IsTool tools
      → tool_first (concat cls ++ latest) ≡ false
      → Clustered latest cls
      → Clustered latest ((m ∷ tools) ∷ cls)

pub group-concat : (cur ms : List ChatMessage) → concat (group cur ms) ≡ cur ++ ms
unfolding group
group-concat [] [] = refl
group-concat (c ∷ cs) [] = refl
group-concat [] (m ∷ ms) = elim (Bool-cases (opens m)) [
  | inl calls ↦ rw (group, calls) (group-concat (m ∷ []) ms)
  | inr closed ↦ rw (group, closed) (ap (λ x. m ∷ x) (group-concat [] ms))
]
group-concat (c ∷ cs) (m ∷ ms) = elim (Bool-cases (is_tool m.role)) [
  | inl result ↦
      rw (group, result) (group-concat ((c ∷ cs) ++ m ∷ []) ms ∙ append_assoc (c ∷ cs) (m ∷ []) ms)
  | inr other ↦ elim (Bool-cases (opens m)) [
    | inl calls ↦ rw (group, other, calls) (ap (λ x. (c ∷ cs) ++ x) (group-concat (m ∷ []) ms))
    | inr closed ↦ rw (group, other, closed) (ap (λ x. (c ∷ cs) ++ m ∷ x) (group-concat [] ms))
  ]
]

All-snoc :
    (xs : List ChatMessage) (x : ChatMessage) → All IsTool xs → IsTool x → All IsTool (xs ++ x ∷ [])
All-snoc [] x h k = (k, tt)
All-snoc (y ∷ ys) x h k = (h.0, All-snoc ys x h.1 k)

-- The cluster that is open, if one is.
abbrev IsOpen : List ChatMessage → Type 0
IsOpen [] = Unit
IsOpen (c ∷ cs) = (opens c ≡ true) × All IsTool cs

starts_with_other :
    (latest cur : List ChatMessage) (m : ChatMessage) (ms : List ChatMessage)
    → cur ≡ m ∷ ms
    → is_tool m.role ≡ false
    → tool_first (cur ++ latest) ≡ false
starts_with_other latest cur m ms e other = ap (λ x. tool_first (x ++ latest)) e ∙ other

pub group-Clustered :
    (latest cur ms : List ChatMessage)
    → tool_first latest ≡ false
    → IsOpen cur
    → Clustered latest (group cur ms)
unfolding group
group-Clustered latest [] [] h k = over
group-Clustered latest (c ∷ cs) [] h k = called k.0 k.1 h over
group-Clustered latest [] (m ∷ ms) h k = elim (Bool-cases (opens m)) [
  | inl calls ↦ rw (group, calls) (group-Clustered latest (m ∷ []) ms h (calls, tt))
  | inr closed ↦ rw (group, closed) (single closed (group-Clustered latest [] ms h tt))
]
group-Clustered latest (c ∷ cs) (m ∷ ms) h k = elim (Bool-cases (is_tool m.role)) [
  | inl result ↦
      rw (group, result)
        (group-Clustered latest ((c ∷ cs) ++ m ∷ []) ms h (k.0, All-snoc cs m k.1 result))
  | inr other ↦ elim (Bool-cases (opens m)) [
    | inl calls ↦
        rw (group, other, calls)
          (called k.0 k.1
            (starts_with_other latest (concat (group (m ∷ []) ms)) m ms (group-concat (m ∷ []) ms)
              other)
            (group-Clustered latest (m ∷ []) ms h (calls, tt)))
    | inr closed ↦
        rw (group, other, closed)
          (called k.0 k.1
            (starts_with_other latest (m ∷ concat (group [] ms)) m ms
              (ap (λ x. m ∷ x) (group-concat [] ms)) other)
            (single closed (group-Clustered latest [] ms h tt)))
  ]
]

pub tool_role : (role : Role) → is_tool role ≡ true → role ≡ Role.tool
tool_role Role.tool h = refl
tool_role Role.system h = absurd (cc h)
tool_role Role.user h = absurd (cc h)
tool_role Role.assistant h = absurd (cc h)

-- Behind results, no call is pending where something else follows.
after_tools :
    (tools rest : List ChatMessage) (idx : ℕ) (pending : List String)
    → All IsTool tools
    → tool_first rest ≡ false
    → check_from idx pending (tools ++ rest) ≡ none
    → (n : ℕ) × (check_from n [] rest ≡ none)
unfolding check_from
after_tools [] rest idx [] all other h = (idx, h)
after_tools [] [] idx (p ∷ pending) all other h = absurd (cc h)
after_tools [] (m ∷ ms) idx (p ∷ pending) all other h = at m.role refl
  where
    at : (role : Role) → m.role ≡ role → (n : ℕ) × (check_from n [] (m ∷ ms) ≡ none)
    at Role.tool e = absurd (cc (rw e at other))
    at Role.system e = absurd (cc (rw (check_from, e) at h))
    at Role.user e = absurd (cc (rw (check_from, e) at h))
    at Role.assistant e = absurd (cc (rw (check_from, e) at h))
after_tools (t ∷ tools) rest idx [] all other h = at t.role refl
  where
    at : (role : Role) → t.role ≡ role → (n : ℕ) × (check_from n [] rest ≡ none)
    at Role.tool e = absurd (cc (rw (check_from, e) at h))
    at Role.system e = absurd (cc (rw e at all.0))
    at Role.user e = absurd (cc (rw e at all.0))
    at Role.assistant e = absurd (cc (rw e at all.0))
after_tools (t ∷ tools) rest idx (p ∷ pending) all other h =
    let e = tool_role t.role all.0 in
    elim (Bool-cases (is_pending t.tool_call_id (p ∷ pending))) [
      | inl waits ↦
          after_tools tools rest (suc idx) (without t.tool_call_id (p ∷ pending)) all.1 other
            (rw (check_from, e, waits) at h)
      | inr unknown ↦ absurd (cc (rw (check_from, e, unknown) at h))
    ]

no_calls : (calls : List ToolCall) → has_items calls ≡ false → calls ≡ []
no_calls [] h = refl
no_calls (c ∷ cs) h = absurd (cc h)

-- A message that opens no cluster leaves no call pending.
after_single :
    (m : ChatMessage) (rest : List ChatMessage) (idx : ℕ)
    → opens m ≡ false
    → check_from idx [] (m ∷ rest) ≡ none
    → (n : ℕ) × (check_from n [] rest ≡ none)
unfolding check_from find_duplicate
after_single m rest idx closed h = at m.role refl
  where
    at : (role : Role) → m.role ≡ role → (n : ℕ) × (check_from n [] rest ≡ none)
    at Role.system e = (suc idx, rw (check_from, e) at h)
    at Role.user e = (suc idx, rw (check_from, e) at h)
    at Role.tool e = absurd (cc (rw (check_from, e) at h))
    at Role.assistant e =
        let ids : call_ids m ≡ [] =
          ap (map (λ (c : ToolCall). c.call_id)) (no_calls m.tool_calls (rw e at closed)) in
        (
          suc idx,
          subst (λ pending. check_from (suc idx) pending rest ≡ none) ids
              (rw (check_from, e, ids) at h),
        )

after_called :
    (m : ChatMessage) (tools rest : List ChatMessage) (idx : ℕ)
    → opens m ≡ true
    → All IsTool tools
    → tool_first rest ≡ false
    → check_from idx [] (m ∷ tools ++ rest) ≡ none
    → (n : ℕ) × (check_from n [] rest ≡ none)
unfolding check_from
after_called m tools rest idx calls all other h = at m.role refl
  where
    at : (role : Role) → m.role ≡ role → (n : ℕ) × (check_from n [] rest ≡ none)
    at Role.system e = absurd (cc (rw e at calls))
    at Role.user e = absurd (cc (rw e at calls))
    at Role.tool e = absurd (cc (rw e at calls))
    at Role.assistant e = elim (Option-cases (find_duplicate [] (call_ids m))) [
      | inl distinct ↦
          after_tools tools rest (suc idx) (call_ids m) all other
            (rw (check_from, e, distinct) at h)
      | inr (c, twice) ↦ absurd (cc (rw (check_from, e, twice) at h))
    ]

-- Without its first cluster, what was well-formed stays so.
pub without_first :
    (latest cl : List ChatMessage) (cls : List (List ChatMessage)) (idx : ℕ)
    → Clustered latest (cl ∷ cls)
    → check_from idx [] (concat (cl ∷ cls) ++ latest) ≡ none
    → ((n : ℕ) × (check_from n [] (concat cls ++ latest) ≡ none)) × Clustered latest cls
without_first latest _ _ idx (single {m} {cls} closed rest) h =
    (after_single m (concat cls ++ latest) idx closed h, rest)
without_first latest _ _ idx (called {m} {tools} {cls} calls all other rest) h = (
  after_called m tools (concat cls ++ latest) idx calls all other
      (ap (λ x. check_from idx [] (m ∷ x)) (sym (append_assoc tools (concat cls) latest)) ∙ h),
  rest,
)
