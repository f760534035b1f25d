-- ===== src/Agent/Memory/Consistent.antt =====
-- The scene state of RollingMemory stays consistent: agent/memory.py, add_turn_cluster.
use blender_ai_sidebar.Prelude.{
  ◌+◌, ◌≤◌, ◌≡◌, sym, subst, arith, String, List, [], ◌∷◌, ◌++◌, some, string_comparable,
  Bool-cases, Option-cases, inl, inr, if◌then◌else◌,
}
use mathlib.Core.Option.{some-injective}
use blender_ai_sidebar.Core.Json.{Value, Fields}
use blender_ai_sidebar.Agent.Memory.Rolling.{RollingMemory, has_entity}
use blender_ai_sidebar.Agent.Memory.Targets.{
  is_hashable, remove_entity, without_target, pop_target, with_target, set_target, forget_target,
  remember_target,
}
use blender_ai_sidebar.Agent.Memory.Counts.{
  entity_count, target_count, entity_count-append, entity_count-eq_zero, target_count-eq_zero,
  entity_count-remove, target_count-without, target_count-with,
}

-- Every text is a target once at most, a living or a deleted one.
abbrev pub IsConsistent : RollingMemory → Type 0
IsConsistent memory =
    (s : String)
    → entity_count s memory.deleted_entities + target_count s memory.verified_mutations ≤ 1

pop_target-without :
    (v : Value) (ms ms' : List (Value × Fields))
    → pop_target v ms ≡ some ms'
    → ms' ≡ without_target v ms
unfolding pop_target without_target
pop_target-without v [] ms' h = sym (some-injective [] ms' h)
pop_target-without v (m ∷ ms) ms' h = elim (Bool-cases (is_hashable v)) [
  | inl fine ↦ sym (some-injective (without_target v (m ∷ ms)) ms' (rw fine at h))
  | inr bad ↦ absurd (cc (rw bad at h))
]

set_target-with :
    (v : Value) (entry : Fields) (ms ms' : List (Value × Fields))
    → set_target v entry ms ≡ some ms'
    → ms' ≡ with_target v entry ms
unfolding set_target
set_target-with v entry ms ms' h = elim (Bool-cases (is_hashable v)) [
  | inl fine ↦ sym (some-injective (with_target v entry ms) ms' (rw fine at h))
  | inr bad ↦ absurd (cc (rw bad at h))
]

-- The counts after a target was deleted.
forgotten :
    (s : String) (v : Value) (ds : List Value) (ms : List (Value × Fields))
    → entity_count s ds + target_count s ms ≤ 1
    → entity_count s (if has_entity v ds then ds else ds ++ v ∷ [])
        + target_count s (without_target v ms)
      ≤ 1
unfolding entity_count
forgotten s v ds ms h = ground (
  arith,
  target_count-without s v ms,
  entity_count-remove s v ds,
  entity_count-append s ds (v ∷ []),
  entity_count-eq_zero s v ds,
  target_count-eq_zero s v ms,
)

-- The counts after a target was created or changed.
remembered :
    (s : String) (v : Value) (entry : Fields) (ds : List Value) (ms : List (Value × Fields))
    → entity_count s ds + target_count s ms ≤ 1
    → entity_count s (if has_entity v ds then remove_entity v ds else ds)
        + target_count s (with_target v entry ms)
      ≤ 1
remembered s v entry ds ms h = ground (
  arith,
  target_count-with s v entry ms,
  entity_count-remove s v ds,
  entity_count-eq_zero s v ds,
  target_count-eq_zero s v ms,
)

pub forget_target-IsConsistent :
    (v : Value) (memory memory' : RollingMemory)
    → IsConsistent memory
    → forget_target v memory ≡ some memory'
    → IsConsistent memory'
unfolding forget_target
forget_target-IsConsistent v memory memory' h run =
    elim (Option-cases (pop_target v memory.verified_mutations)) [
      | inl bad ↦ absurd (cc (rw bad at run))
      | inr (ms, good) ↦ subst IsConsistent (some-injective _ memory' (rw good at run)) (λ s.
          subst
            (λ x.
              entity_count s (
                  if has_entity v memory.deleted_entities
                  then memory.deleted_entities
                  else memory.deleted_entities ++ v ∷ [])
                + target_count s x
              ≤ 1)
            (sym (pop_target-without v memory.verified_mutations ms good))
            (forgotten s v memory.deleted_entities memory.verified_mutations (h s)))
    ]

pub remember_target-IsConsistent :
    (v : Value) (entry : Fields) (memory memory' : RollingMemory)
    → IsConsistent memory
    → remember_target v entry memory ≡ some memory'
    → IsConsistent memory'
unfolding remember_target
remember_target-IsConsistent v entry memory memory' h run =
    elim (Option-cases (set_target v entry memory.verified_mutations)) [
      | inl bad ↦ absurd (cc (rw bad at run))
      | inr (ms, good) ↦ subst IsConsistent (some-injective _ memory' (rw good at run)) (λ s.
          subst
            (λ x.
              entity_count s (
                  if has_entity v memory.deleted_entities
                  then remove_entity v memory.deleted_entities
                  else memory.deleted_entities)
                + target_count s x
              ≤ 1)
            (sym (set_target-with v entry memory.verified_mutations ms good))
            (remembered s v entry memory.deleted_entities memory.verified_mutations (h s)))
    ]
