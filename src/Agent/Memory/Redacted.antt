-- ===== src/Agent/Memory/Redacted.antt =====
-- No banned key in what from_dict of agent/memory.py reads.
use blender_ai_sidebar.Prelude.{
  ◌≡◌, refl, sym, ap, subst, ◌∙◌, true, String, List, [], ◌∷◌, Option, none, some, ◌==◌,
  string_comparable, Bool-cases, inl, inr, All, contains,
}
use mathlib.Core.Option.{some-injective}
use blender_ai_sidebar.Core.Json.{Value, Fields, get, eq_value}
use blender_ai_sidebar.Agent.Memory.Builtins.{Builtins}
use blender_ai_sidebar.Agent.Memory.Rolling.{RollingMemory}
use blender_ai_sidebar.Agent.Memory.Targets.{with_target}
use blender_ai_sidebar.Agent.Memory.Persisted.{
  Patterns, banned, clean_nested, clean_item, clean_value, load_mutations, loaded_mutations,
  is_current, from_dict,
}

-- No key of the dictionary is banned, nor one of a dictionary in it.
abbrev HasNone : Fields → Type 0
HasNone d = (k : String) → contains k banned ≡ true → get k d ≡ none

abbrev pub IsRedacted : Fields → Type 0
IsRedacted d = HasNone d × ((j : String) (e : Fields) → get j d ≡ some (Value.object e) → HasNone e)

module _ (py : Builtins) (re : Patterns) where
  clean_nested-HasNone : (d : Fields) → HasNone (clean_nested py re d)
  unfolding clean_nested get
  clean_nested-HasNone Fields.end k h = refl
  clean_nested-HasNone (Fields.field j v d) k h = elim (Bool-cases (contains j banned)) [
    | inl bad ↦ rw (clean_nested, bad) (clean_nested-HasNone d k h)
    | inr good ↦ elim (Bool-cases (j == k)) [
      | inl same ↦ absurd (
          cc (sym good ∙ ap (λ x. contains x banned) ((string_comparable.same_iff j k).0 same) ∙ h))
      | inr other ↦ rw (clean_nested, good, get, other) (clean_nested-HasNone d k h)
    ]
  ]

  clean_item-HasNone : (d : Fields) → HasNone (clean_item py re d)
  unfolding clean_item get
  clean_item-HasNone Fields.end k h = refl
  clean_item-HasNone (Fields.field j v d) k h = elim (Bool-cases (contains j banned)) [
    | inl bad ↦ rw (clean_item, bad) (clean_item-HasNone d k h)
    | inr good ↦ elim (Bool-cases (j == k)) [
      | inl same ↦ absurd (
          cc (sym good ∙ ap (λ x. contains x banned) ((string_comparable.same_iff j k).0 same) ∙ h))
      | inr other ↦ rw (clean_item, good, get, other) (clean_item-HasNone d k h)
    ]
  ]

  object_of : Value → Option Fields
  object_of (Value.object d) = some d
  object_of v = none

  clean_value-HasNone : (v : Value) (e : Fields) → clean_value py re v ≡ Value.object e → HasNone e
  unfolding object_of
  clean_value-HasNone (Value.object d) e h =
      subst HasNone (some-injective (clean_nested py re d) e (ap object_of h))
        (clean_nested-HasNone d)
  clean_value-HasNone (Value.text s) e h = absurd (cc h)
  clean_value-HasNone v e h = absurd (cc h)

  clean_item-nested :
      (d : Fields) (j : String) (e : Fields)
      → get j (clean_item py re d) ≡ some (Value.object e)
      → HasNone e
  unfolding clean_item get
  clean_item-nested Fields.end j e h = absurd (cc h)
  clean_item-nested (Fields.field k v d) j e h = elim (Bool-cases (contains k banned)) [
    | inl bad ↦ clean_item-nested d j e (rw (clean_item, bad) at h)
    | inr good ↦ elim (Bool-cases (k == j)) [
      | inl same ↦ clean_value-HasNone v e (
          some-injective (clean_value py re v) (Value.object e)
            (rw (clean_item, good, get, same) at h))
      | inr other ↦ clean_item-nested d j e (rw (clean_item, good, get, other) at h)
    ]
  ]

  abbrev AllRedacted : List (Value × Fields) → Type 0
  AllRedacted = All (λ m. IsRedacted m.1)

  with_target-AllRedacted :
      (target : Value) (entry : Fields) (ms : List (Value × Fields))
      → IsRedacted entry
      → AllRedacted ms
      → AllRedacted (with_target target entry ms)
  unfolding with_target
  with_target-AllRedacted target entry [] h all = (h, tt)
  with_target-AllRedacted target entry ((w, old) ∷ ms) h all =
      elim (Bool-cases (eq_value w target)) [
        | inl same ↦ rw (with_target, same) (h, all.1)
        | inr other ↦
            rw (with_target, other) (all.0, with_target-AllRedacted target entry ms h all.1)
      ]

  load_mutations-AllRedacted :
      (d : Fields) (out : List (Value × Fields))
      → AllRedacted out
      → AllRedacted (load_mutations py re d out)
  unfolding load_mutations
  load_mutations-AllRedacted Fields.end out h = h
  load_mutations-AllRedacted (Fields.field target (Value.object item) d) out h =
      load_mutations-AllRedacted d _ (
        with_target-AllRedacted _ (clean_item py re item) out
          (clean_item-HasNone item, clean_item-nested item) h)
  load_mutations-AllRedacted (Fields.field target v d) out h = load_mutations-AllRedacted d out h

  loaded_mutations-AllRedacted : (v : Option Value) → AllRedacted (loaded_mutations py re v)
  loaded_mutations-AllRedacted none = tt
  loaded_mutations-AllRedacted (some (Value.object d)) = load_mutations-AllRedacted d [] tt
  loaded_mutations-AllRedacted (some v) = tt

  -- Whatever data from_dict reads a memory from, no entry of its verified mutations has a banned key,
  -- such as "api_key" or "password", and neither has a dictionary in an entry.
  pub from_dict-AllRedacted :
      (v : Value) (memory : RollingMemory)
      → from_dict py re v ≡ some memory
      → All (λ m. IsRedacted m.1) memory.verified_mutations
  unfolding from_dict
  from_dict-AllRedacted (Value.object d) memory run =
      elim (Bool-cases (is_current py re (get "schema_version" d))) [
        | inr other ↦ absurd (cc (rw (from_dict, other) at run))
        | inl current ↦
            subst AllRedacted
              (ap (λ m. m.verified_mutations)
                (some-injective _ memory (rw (from_dict, current) at run)))
              (loaded_mutations-AllRedacted (get "verified_mutations" d))
      ]
  from_dict-AllRedacted v memory run = absurd (cc run)
