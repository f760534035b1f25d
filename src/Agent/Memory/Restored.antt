-- ===== src/Agent/Memory/Restored.antt =====
-- The lists of texts of RollingMemory, agent/memory.py, written by to_dict and read again.
use blender_ai_sidebar.Prelude.{
  ◌≡◌, refl, subst, String, ap, ◌∙◌, List, [], ◌∷◌, some, All, map, Option-cases, inl, inr,
}
use mathlib.Core.Option.{some-injective}
use blender_ai_sidebar.Core.Json.{Value, Fields, get, eq_value, items, of_list}
use blender_ai_sidebar.Agent.Memory.Builtins.{Builtins}
use blender_ai_sidebar.Agent.Memory.Rolling.{RollingMemory}
use blender_ai_sidebar.Agent.Memory.Persisted.{
  Patterns, sanitize_text, load_texts, distinct, to_dict, deserialize_session_memory, from_dict,
}

module _ (py : Builtins) (re : Patterns) where
  abbrev pub IsClean : List String → Type 0
  IsClean ss = All (λ s. sanitize_text py re s ≡ s) ss

  load_texts-IsClean :
      (ss : List String)
      → IsClean ss
      → load_texts py re (items (of_list (map (λ s. Value.text (sanitize_text py re s)) ss))) ≡ ss
  unfolding load_texts items of_list
  load_texts-IsClean [] clean = refl
  load_texts-IsClean (s ∷ ss) (h, clean) =
      rw (load_texts-IsClean ss clean) (ap (λ t. t ∷ ss) (ap (sanitize_text py re) h ∙ h))

  -- What is read from the dictionary of a memory has its texts.
  abbrev HasTexts : RollingMemory → Fields → Type 0
  HasTexts memory d =
      (back : RollingMemory) × (deserialize_session_memory py re (Value.object d) ≡ some back)
      × (back.tasks ≡ memory.tasks)
      × (back.inspections ≡ memory.inspections)
      × (back.errors ≡ memory.errors)

  -- If to_dict gives a dictionary for a memory, and the sanitizing leaves its tasks, inspections and
  -- errors as they are, then deserialize_session_memory reads from that dictionary a memory with
  -- these tasks, inspections and errors, in their order.
  pub deserialize_session_memory-to_dict :
      (memory : RollingMemory) (d : Fields)
      → IsClean memory.tasks
      → IsClean memory.inspections
      → IsClean memory.errors
      → to_dict py re memory ≡ some d
      → (back : RollingMemory) × (deserialize_session_memory py re (Value.object d) ≡ some back)
        × (back.tasks ≡ memory.tasks)
        × (back.inspections ≡ memory.inspections)
        × (back.errors ≡ memory.errors)
  unfolding to_dict deserialize_session_memory from_dict eq_value get
  deserialize_session_memory-to_dict memory d tasks inspections errors run =
      elim (Option-cases (py.sorted_items memory.verified_mutations)) [
        | inl raised ↦ absurd (cc (rw (to_dict, raised) at run))
        | inr (living, sorted) ↦
            elim (Option-cases (py.sorted_values (distinct memory.deleted_entities))) [
              | inl raised ↦ absurd (cc (rw (to_dict, sorted, raised) at run))
              | inr (deleted, also) ↦
                  subst (HasTexts memory) (some-injective _ d (rw (to_dict, sorted, also) at run)) (
                    _,
                    refl,
                    load_texts-IsClean memory.tasks tasks,
                    load_texts-IsClean memory.inspections inspections,
                    load_texts-IsClean memory.errors errors,
                  )
            ]
      ]
