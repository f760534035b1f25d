-- ===== src/Agent/Memory/Counts.antt =====
-- How often a text is a target of the memory, among the living and among the deleted ones.
use blender_ai_sidebar.Prelude.{
  ℕ, ◌+◌, ◌≡◌, refl, arith, true, false, not, ◌&&◌, String, List, [], ◌∷◌, ◌++◌, string_comparable,
  bit, eq_iff,
}
use blender_ai_sidebar.Core.Json.{Value, Fields, eq_value}
use blender_ai_sidebar.Agent.Memory.Builtins.{is_text}
use blender_ai_sidebar.Agent.Memory.Rolling.{has_entity, has_target}
use blender_ai_sidebar.Agent.Memory.Targets.{remove_entity, without_target, with_target}

unfoldable pub entity_count : String → List Value → ℕ
entity_count s [] = 0
entity_count s (w ∷ ws) = bit (is_text s w) + entity_count s ws

unfoldable pub target_count : String → List (Value × Fields) → ℕ
target_count s [] = 0
target_count s ((w, entry) ∷ rest) = bit (is_text s w) + target_count s rest

-- Equal values are both the text or both not.
is_text_of_eq : (s : String) (w v : Value) → eq_value w v ≡ true → is_text s w ≡ is_text s v
unfolding eq_value
is_text_of_eq s (Value.text t) (Value.text u) h = ground (arith, eq_iff t u)
is_text_of_eq s (Value.text t) v h = absurd (cc h)
is_text_of_eq s (Value.boolean true) (Value.text u) h = absurd (cc h)
is_text_of_eq s (Value.boolean false) (Value.text u) h = absurd (cc h)
is_text_of_eq s w (Value.text u) h = absurd (cc h)
is_text_of_eq s w v h = refl

eq_of_is_text :
    (s : String) (w v : Value) → is_text s w ≡ true → is_text s v ≡ true → eq_value w v ≡ true
unfolding eq_value
eq_of_is_text s (Value.text t) (Value.text u) h k =
    ground (arith, eq_iff t s, eq_iff u s, eq_iff t u)
eq_of_is_text s (Value.text t) v h k = absurd (cc k)
eq_of_is_text s w v h k = absurd (cc h)

pub entity_count-append :
    (s : String) (vs ws : List Value)
    → entity_count s (vs ++ ws) ≡ entity_count s vs + entity_count s ws
unfolding entity_count
entity_count-append s [] ws = omega arith
entity_count-append s (v ∷ vs) ws = omega (arith, entity_count-append s vs ws)

pub entity_count-eq_zero :
    (s : String) (v : Value) (ws : List Value)
    → is_text s v ≡ true
    → has_entity v ws ≡ false
    → entity_count s ws ≡ 0
unfolding entity_count has_entity
entity_count-eq_zero s v [] t h = refl
entity_count-eq_zero s v (w ∷ ws) t h =
    ground (arith, entity_count-eq_zero s v ws t, eq_of_is_text s w v)

pub target_count-eq_zero :
    (s : String) (v : Value) (ms : List (Value × Fields))
    → is_text s v ≡ true
    → has_target v ms ≡ false
    → target_count s ms ≡ 0
unfolding target_count has_target
target_count-eq_zero s v [] t h = refl
target_count-eq_zero s v ((w, entry) ∷ ms) t h =
    ground (arith, target_count-eq_zero s v ms t, eq_of_is_text s w v)

pub entity_count-remove :
    (s : String) (v : Value) (ws : List Value)
    → entity_count s (remove_entity v ws) + bit (has_entity v ws && is_text s v) ≡ entity_count s ws
unfolding entity_count has_entity remove_entity
entity_count-remove s v [] = omega arith
entity_count-remove s v (w ∷ ws) = ground (arith, entity_count-remove s v ws, is_text_of_eq s w v)

pub target_count-without :
    (s : String) (v : Value) (ms : List (Value × Fields))
    → target_count s (without_target v ms) + bit (has_target v ms && is_text s v)
      ≡ target_count s ms
unfolding target_count has_target without_target
target_count-without s v [] = omega arith
target_count-without s v ((w, entry) ∷ ms) =
    ground (arith, target_count-without s v ms, is_text_of_eq s w v)

pub target_count-with :
    (s : String) (v : Value) (entry : Fields) (ms : List (Value × Fields))
    → target_count s (with_target v entry ms)
      ≡ target_count s ms + bit (not (has_target v ms) && is_text s v)
unfolding target_count has_target with_target
target_count-with s v entry [] = ground arith
target_count-with s v entry ((w, old) ∷ ms) =
    ground (arith, target_count-with s v entry ms, is_text_of_eq s w v)
