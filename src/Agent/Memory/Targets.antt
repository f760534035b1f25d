-- ===== src/Agent/Memory/Targets.antt =====
-- The targets of RollingMemory, agent/memory.py: the living ones with their entries, and the deleted
-- ones.
use blender_ai_sidebar.Prelude.{
  Bool, true, false, List, [], ◌∷◌, ◌++◌, Option, none, some, string_comparable, if◌then◌else◌,
}
use blender_ai_sidebar.Core.Json.{Value, Fields, eq_value}
use blender_ai_sidebar.Agent.Memory.Builtins.{◌>>=◌}
use blender_ai_sidebar.Agent.Memory.Rolling.{RollingMemory, has_entity}

-- Lists and dictionaries are no keys of a dictionary.
abbrev pub is_hashable : Value → Bool
is_hashable (Value.array vs) = false
is_hashable (Value.object d) = false
is_hashable _ = true

-- `entities.remove(v)`
unfoldable pub remove_entity : Value → List Value → List Value
remove_entity v [] = []
remove_entity v (w ∷ ws) = if eq_value w v then ws else w ∷ remove_entity v ws

unfoldable pub without_target : Value → List (Value × Fields) → List (Value × Fields)
without_target v [] = []
without_target v ((w, entry) ∷ rest) =
    if eq_value w v then rest else (w, entry) ∷ without_target v rest

-- `mutations.pop(v, None)`, which looks at no hash where the dictionary is empty.
unfoldable pub pop_target : Value → List (Value × Fields) → Option (List (Value × Fields))
unfolding without_target
pop_target v [] = some []
pop_target v (m ∷ rest) = if is_hashable v then some (without_target v (m ∷ rest)) else none

unfoldable pub with_target : Value → Fields → List (Value × Fields) → List (Value × Fields)
with_target v entry [] = (v, entry) ∷ []
with_target v entry ((w, old) ∷ rest) =
    if eq_value w v then (w, entry) ∷ rest else (w, old) ∷ with_target v entry rest

-- `mutations[v] = entry`
unfoldable pub set_target : Value → Fields → List (Value × Fields) → Option (List (Value × Fields))
unfolding with_target
set_target v entry mutations = if is_hashable v then some (with_target v entry mutations) else none

-- What becomes of a target that was deleted, or created or changed.
unfoldable pub forget_target : Value → RollingMemory → Option RollingMemory
unfolding pop_target has_entity
forget_target v memory = do
  mutations ← pop_target v memory.verified_mutations
  some record memory {
    verified_mutations = mutations;
    deleted_entities =
        if has_entity v memory.deleted_entities
        then memory.deleted_entities
        else memory.deleted_entities ++ v ∷ [];
  }

unfoldable pub remember_target : Value → Fields → RollingMemory → Option RollingMemory
unfolding set_target has_entity remove_entity
remember_target v entry memory = do
  mutations ← set_target v entry memory.verified_mutations
  some record memory {
    verified_mutations = mutations;
    deleted_entities =
        if has_entity v memory.deleted_entities
        then remove_entity v memory.deleted_entities
        else memory.deleted_entities;
  }
