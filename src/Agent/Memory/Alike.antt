-- ===== src/Agent/Memory/Alike.antt =====
-- Conversations that look the same to validate_sequence.
use blender_ai_sidebar.Prelude.{
  ℕ, suc, ◌≡◌, refl, ap, ◌∙◌, String, List, [], ◌∷◌, ◌++◌, Option-cases, Bool-cases, inl, inr,
  nat_comparable,
}
use blender_ai_sidebar.Agent.Models.{Role, ChatMessage}
use blender_ai_sidebar.Agent.Conversation.{
  call_ids, find_duplicate, is_pending, without, check_from,
}

-- The messages look the same to validate_sequence.
pub data Like (m' m : ChatMessage) : Type 0 where
  same : m' ≡ m → Like m' m
  user : m'.role ≡ Role.user → m.role ≡ Role.user → m'.content ≡ m.content → Like m' m
  tool : m'.role ≡ Role.tool → m.role ≡ Role.tool → m'.tool_call_id ≡ m.tool_call_id → Like m' m

pub data Alike : List ChatMessage → List ChatMessage → Type 0 where
  ends : Alike [] []
  follows :
      {m' m : ChatMessage} {ms' ms : List ChatMessage}
      → Like m' m
      → Alike ms' ms
      → Alike (m' ∷ ms') (m ∷ ms)

-- The loop from any index and pending ids gives the same.
abbrev SameCheck : List ChatMessage → List ChatMessage → Type 0
SameCheck ms' ms =
    (idx : ℕ) (waiting : List String) → check_from idx waiting ms' ≡ check_from idx waiting ms

same-SameCheck :
    (m : ChatMessage) (ms' ms : List ChatMessage) → SameCheck ms' ms → SameCheck (m ∷ ms') (m ∷ ms)
unfolding check_from
same-SameCheck m ms' ms ih idx [] = at m.role refl
  where
    at : (role : Role) → m.role ≡ role → check_from idx [] (m ∷ ms') ≡ check_from idx [] (m ∷ ms)
    at Role.system h = rw (check_from, h) (ih (suc idx) [])
    at Role.user h = rw (check_from, h) (ih (suc idx) [])
    at Role.tool h = rw (check_from, h) refl
    at Role.assistant h = elim (Option-cases (find_duplicate [] (call_ids m))) [
      | inl distinct ↦ rw (check_from, h, distinct) (ih (suc idx) (call_ids m))
      | inr (c, twice) ↦ rw (check_from, h, twice) refl
    ]
same-SameCheck m ms' ms ih idx (w ∷ ws) = at m.role refl
  where
    at :
        (role : Role)
        → m.role ≡ role
        → check_from idx (w ∷ ws) (m ∷ ms') ≡ check_from idx (w ∷ ws) (m ∷ ms)
    at Role.system h = rw (check_from, h) refl
    at Role.user h = rw (check_from, h) refl
    at Role.assistant h = rw (check_from, h) refl
    at Role.tool h = elim (Bool-cases (is_pending m.tool_call_id (w ∷ ws))) [
      | inl answers ↦ rw (check_from, h, answers) (ih (suc idx) (without m.tool_call_id (w ∷ ws)))
      | inr other ↦ rw (check_from, h, other) refl
    ]

user-SameCheck :
    (m' m : ChatMessage) (ms' ms : List ChatMessage)
    → m'.role ≡ Role.user
    → m.role ≡ Role.user
    → SameCheck ms' ms
    → SameCheck (m' ∷ ms') (m ∷ ms)
unfolding check_from
user-SameCheck m' m ms' ms h' h ih idx [] = rw (check_from, h', h) (ih (suc idx) [])
user-SameCheck m' m ms' ms h' h ih idx (w ∷ ws) = rw (check_from, h', h) refl

tool-SameCheck :
    (m' m : ChatMessage) (ms' ms : List ChatMessage)
    → m'.role ≡ Role.tool
    → m.role ≡ Role.tool
    → m'.tool_call_id ≡ m.tool_call_id
    → SameCheck ms' ms
    → SameCheck (m' ∷ ms') (m ∷ ms)
unfolding check_from
tool-SameCheck m' m ms' ms h' h id ih idx [] = rw (check_from, h', h) refl
tool-SameCheck m' m ms' ms h' h id ih idx (w ∷ ws) =
    elim (Bool-cases (is_pending m.tool_call_id (w ∷ ws))) [
      | inl answers ↦
          rw (check_from, h', h, id, answers) (ih (suc idx) (without m.tool_call_id (w ∷ ws)))
      | inr other ↦ rw (check_from, h', h, id, other) refl
    ]

pub check_from-Alike : (ms' ms : List ChatMessage) → Alike ms' ms → SameCheck ms' ms
check_from-Alike [] [] Alike.ends idx waiting = refl
check_from-Alike [] (m ∷ ms) h idx waiting = elim h [ ]
check_from-Alike (m' ∷ ms') [] h idx waiting = elim h [ ]
check_from-Alike (m' ∷ ms') (m ∷ ms) (Alike.follows (Like.same e) rest) idx waiting =
    ap (λ x. check_from idx waiting (x ∷ ms')) e
    ∙ same-SameCheck m ms' ms (check_from-Alike ms' ms rest) idx waiting
check_from-Alike (m' ∷ ms') (m ∷ ms) (Alike.follows (Like.user h' h c) rest) idx waiting =
    user-SameCheck m' m ms' ms h' h (check_from-Alike ms' ms rest) idx waiting
check_from-Alike (m' ∷ ms') (m ∷ ms) (Alike.follows (Like.tool h' h id) rest) idx waiting =
    tool-SameCheck m' m ms' ms h' h id (check_from-Alike ms' ms rest) idx waiting

pub Alike-append :
    (xs' xs ys' ys : List ChatMessage) → Alike xs' xs → Alike ys' ys → Alike (xs' ++ ys') (xs ++ ys)
Alike-append [] [] ys' ys Alike.ends h = h
Alike-append [] (x ∷ xs) ys' ys empty h = elim empty [ ]
Alike-append (x' ∷ xs') [] ys' ys empty h = elim empty [ ]
Alike-append (x' ∷ xs') (x ∷ xs) ys' ys (Alike.follows like rest) h =
    Alike.follows like (Alike-append xs' xs ys' ys rest h)

pub Alike-refl : (ms : List ChatMessage) → Alike ms ms
Alike-refl [] = Alike.ends
Alike-refl (m ∷ ms) = Alike.follows (Like.same refl) (Alike-refl ms)
