-- ===== src/Agent/Memory/Extracted.antt =====
-- The scene state through the messages of a conversation: _extract_user_message,
-- _extract_tool_message and add_turn_cluster of agent/memory.py.
use blender_ai_sidebar.Prelude.{
  ℕ, ◌+◌, ◌≤◌, ◌≡◌, refl, subst, arith, Bool, true, false, String, List, [], ◌∷◌, Option, none,
  some, ◌==◌, string_comparable, Bool-cases, Option-cases, inl, inr, contains, if◌then◌else◌,
  if_lem,
}
use mathlib.Core.Option.{some-injective}
use blender_ai_sidebar.Core.Text.{strip}
use blender_ai_sidebar.Core.Json.{Value, Fields, get, has_key, as_object, or_else}
use blender_ai_sidebar.Core.TextParts.{includes, split_lines, strip_mark, before_mark, after}
use blender_ai_sidebar.Agent.Models.{Role, ChatMessage}
use blender_ai_sidebar.Agent.Memory.{Partition, older}
use blender_ai_sidebar.Agent.Memory.Builtins.{Builtins, text_of, is_one_of, ◌>>=◌, mentions}
use blender_ai_sidebar.Agent.Memory.Pruning.{prune_content}
use blender_ai_sidebar.Agent.Memory.Rolling.{
  RollingMemory, empty_memory, add_inspection, Section, heading, merge_item, merge_lines,
  merge_summary, extract_user_message, merge_deleted, apostrophe, colon,
}
use blender_ai_sidebar.Agent.Memory.Targets.{forget_target, remember_target}
use blender_ai_sidebar.Agent.Memory.Mutations.{
  make_entry, target_of, status_in, verification_failed, apply_mutation, extract_mutation,
}
use blender_ai_sidebar.Agent.Memory.ToolResults.{
  extract_visual, scene_total, mesh_text, scene_text, target_text, inspected_target, parsed_fields,
  tool_name_of, extract_inspection, extract_result, extract_parsed, extract_tool_message,
  extract_message, add_turn_cluster,
}
use blender_ai_sidebar.Agent.Memory.Compaction.{add_clusters, remember}
use blender_ai_sidebar.Agent.Memory.Counts.{
  entity_count, target_count, entity_count-append, entity_count-eq_zero, target_count-eq_zero,
}
use blender_ai_sidebar.Agent.Memory.Consistent.{
  IsConsistent, forget_target-IsConsistent, remember_target-IsConsistent,
}

-- A step that raises nothing leaves a consistent memory.
data Fine : Option RollingMemory → Type 0 where
  raises : Fine none
  leaves : {memory : RollingMemory} → IsConsistent memory → Fine (some memory)

Fine-of :
    (o : Option RollingMemory)
    → ((memory : RollingMemory) → o ≡ some memory → IsConsistent memory)
    → Fine o
Fine-of none h = raises
Fine-of (some memory) h = leaves (h memory refl)

bind-Fine {ℓ} :
    {A : Type ℓ} (o : Option A) (f : A → Option RollingMemory)
    → ((a : A) → Fine (f a))
    → Fine (o >>= f)
bind-Fine none f h = raises
bind-Fine (some a) f h = h a

chain-Fine :
    (o : Option RollingMemory) (f : RollingMemory → Option RollingMemory)
    → Fine o
    → ((memory : RollingMemory) → IsConsistent memory → Fine (f memory))
    → Fine (o >>= f)
chain-Fine none f h k = raises
chain-Fine (some memory) f (leaves h) k = k memory h

merge_deleted-IsConsistent :
    (target : String) (memory : RollingMemory)
    → IsConsistent memory
    → IsConsistent (merge_deleted target memory)
unfolding entity_count
merge_deleted-IsConsistent target memory h s = ground (
  arith,
  h s,
  entity_count-append s memory.deleted_entities (Value.text target ∷ []),
  entity_count-eq_zero s (Value.text target) memory.deleted_entities,
  target_count-eq_zero s (Value.text target) memory.verified_mutations,
)

add_inspection-IsConsistent :
    (text : String) (memory : RollingMemory)
    → IsConsistent memory
    → IsConsistent (add_inspection text memory)
add_inspection-IsConsistent text memory h =
    if_lem IsConsistent (contains text memory.inspections) memory _ h h

merge_item-IsConsistent :
    (section : Section) (line : String) (memory : RollingMemory)
    → IsConsistent memory
    → IsConsistent (merge_item section line memory)
unfolding merge_item
merge_item-IsConsistent Section.outside line memory h s = h s
merge_item-IsConsistent Section.verified line memory h s = h s
merge_item-IsConsistent Section.tasks line memory h s = ground (arith, h s)
merge_item-IsConsistent Section.deleted line memory h s = ground (
  arith,
  h s,
  merge_deleted-IsConsistent (strip_mark apostrophe (strip (before_mark colon (after 2 line))))
      memory h s,
)
merge_item-IsConsistent Section.inspections line memory h s = ground (arith, h s)
merge_item-IsConsistent Section.visual line memory h s = ground (arith, h s)

merge_lines-IsConsistent :
    (section : Section) (lines : List String) (memory : RollingMemory)
    → IsConsistent memory
    → IsConsistent (merge_lines section lines memory)
unfolding merge_lines
merge_lines-IsConsistent section [] memory h = h
merge_lines-IsConsistent section (line ∷ lines) memory h = elim (Bool-cases (strip line == "")) [
  | inl empty ↦ rw (merge_lines, empty) (merge_lines-IsConsistent section lines memory h)
  | inr full ↦ elim (Option-cases (heading (strip line))) [
    | inl item ↦
        rw (merge_lines, full, item)
          (merge_lines-IsConsistent section lines (merge_item section (strip line) memory)
            (merge_item-IsConsistent section (strip line) memory h))
    | inr (next, head) ↦ rw (merge_lines, full, head) (merge_lines-IsConsistent next lines memory h)
  ]
]

extract_user_message-IsConsistent :
    (py : Builtins) (m : ChatMessage) (memory : RollingMemory)
    → IsConsistent memory
    → IsConsistent (extract_user_message py m memory)
unfolding extract_user_message merge_summary
extract_user_message-IsConsistent py m memory h = elim (Option-cases m.content) [
  | inl missing ↦ rw (extract_user_message, missing) h
  | inr (c, there) ↦ λ s.
      rw (extract_user_message, there)
        (ground (
          arith,
          h s,
          merge_lines-IsConsistent Section.outside (split_lines false (strip (text_of py c))) memory
              h s,
        ))
]

module _ (py : Builtins) where
  apply_mutation-Fine :
      (op target : Value) (payload : Fields) (memory : RollingMemory)
      → IsConsistent memory
      → Fine (apply_mutation py op target payload memory)
  unfolding apply_mutation
  apply_mutation-Fine op target payload memory h =
      if_lem Fine (is_one_of ("delete" ∷ "delete_object" ∷ []) op) (forget_target target memory)
        (make_entry py op target payload >>= λ entry. remember_target target entry memory)
        (Fine-of _ λ memory'. forget_target-IsConsistent target memory memory' h)
        (bind-Fine (make_entry py op target payload) (λ entry. remember_target target entry memory)
          λ entry. Fine-of _ λ memory'. remember_target-IsConsistent target entry memory memory' h)

  -- The same for a step that says whether the result is done with.
  data FineFirst : Option (RollingMemory × Bool) → Type 0 where
    raises_first : FineFirst none
    leaves_first :
        {memory : RollingMemory}
        → {over : Bool} → IsConsistent memory
        → FineFirst (some (memory, over))

  applied-FineFirst :
      (o : Option RollingMemory) → Fine o → FineFirst (o >>= λ applied. some (applied, false))
  applied-FineFirst none h = raises_first
  applied-FineFirst (some memory) (leaves h) = leaves_first h

  extract_mutation-FineFirst :
      (tool_name : String) (payload : Fields) (memory : RollingMemory)
      → IsConsistent memory
      → FineFirst (extract_mutation py tool_name payload memory)
  unfolding extract_mutation
  extract_mutation-FineFirst tool_name payload memory h =
      elim (Option-cases (as_object (get "verification" payload))) [
        | inl missing ↦ rw (extract_mutation, missing) (leaves_first h)
        | inr (verif, there) ↦
            rw (extract_mutation, there)
              (if_lem FineFirst (status_in py ("PASS" ∷ "OK" ∷ []) (get "status" verif)) _ _
                (applied-FineFirst _ (
                  apply_mutation-Fine (or_else (get "operation" verif) (Value.text tool_name))
                    (target_of py verif payload) payload memory h))
                (if_lem FineFirst (status_in py ("FAIL" ∷ []) (get "status" verif))
                  (some
                    (verification_failed py tool_name (target_of py verif payload) memory, true))
                  (some (memory, false)) (leaves_first h) (leaves_first h)))
      ]

  extract_visual-IsConsistent :
      (payload : Fields) (memory : RollingMemory)
      → IsConsistent memory
      → IsConsistent (extract_visual py payload memory)
  unfolding extract_visual
  extract_visual-IsConsistent payload memory h =
      elim (Option-cases (as_object (get "visual_verification" payload))) [
        | inl missing ↦ rw (extract_visual, missing) h
        | inr (vis, there) ↦ rw (extract_visual, there) h
      ]

  extract_inspection-Fine :
      (tool_name : String) (payload : Fields) (memory : RollingMemory)
      → IsConsistent memory
      → Fine (extract_inspection py tool_name payload memory)
  unfolding extract_inspection
  extract_inspection-Fine tool_name payload memory h =
      if_lem Fine (tool_name == "inspect_mesh") _ _ (added (mesh_text py payload)) (
        if_lem Fine (tool_name == "inspect_scene") _ _
          (bind-Fine (scene_total py payload)
            (λ total. some (add_inspection (scene_text py payload total) memory))
            λ total. added (scene_text py payload total))
          (if_lem Fine
            (contains tool_name ("inspect_object" ∷ "inspect_material" ∷ "inspect_selection" ∷ []))
            _ _ (added (target_text py tool_name (inspected_target py payload)))
            (if_lem Fine (tool_name == "capture_viewport") _ (some memory)
              (added "capture_viewport (visual check)") (leaves h))))
    where
      added : (text : String) → Fine (some (add_inspection text memory))
      added text = leaves (add_inspection-IsConsistent text memory h)

  extract_result-Fine :
      (tool_name : String) (payload : Fields) (memory : RollingMemory)
      → IsConsistent memory
      → Fine (extract_result py tool_name payload memory)
  unfolding extract_result
  extract_result-Fine tool_name payload memory h =
      at (extract_mutation py tool_name payload memory)
        (extract_mutation-FineFirst tool_name payload memory h)
    where
      at :
          (o : Option (RollingMemory × Bool))
          → FineFirst o
          → Fine (
              o >>= λ r.
              if r.1
              then some r.0
              else extract_inspection py tool_name payload (extract_visual py payload r.0))
      at none r = raises
      at (some (applied, true)) (leaves_first r) = leaves r
      at (some (applied, false)) (leaves_first r) =
          extract_inspection-Fine tool_name payload (extract_visual py payload applied)
            (extract_visual-IsConsistent payload applied r)

  extract_parsed-Fine :
      (tool_name content : String) (v : Option Value) (memory : RollingMemory)
      → IsConsistent memory
      → Fine (extract_parsed py tool_name content v memory)
  unfolding extract_parsed
  extract_parsed-Fine tool_name content none memory h =
      if_lem Fine (includes "error" (py.lower content)) _ _ (leaves h) (leaves h)
  extract_parsed-Fine tool_name content (some v) memory h =
      if_lem Fine (has_key "error" (parsed_fields py v)) _ _ (leaves h)
        (extract_result-Fine tool_name (parsed_fields py v) memory h)

  extract_message-Fine :
      (m : ChatMessage) (memory : RollingMemory)
      → IsConsistent memory
      → Fine (extract_message py m memory)
  unfolding extract_message extract_tool_message
  extract_message-Fine m memory h = at m.role refl
    where
      result : Fine (extract_tool_message py m memory)
      result = elim (Option-cases m.content) [
        | inl missing ↦ rw (extract_tool_message, missing) (leaves h)
        | inr (c, there) ↦
            rw (extract_tool_message, there)
              (if_lem Fine (text_of py c == "") (some memory) _ (leaves h) (
                extract_parsed-Fine (tool_name_of py m.name) (text_of py c)
                  (py.loads (text_of py c)) memory h))
      ]

      at : (role : Role) → m.role ≡ role → Fine (extract_message py m memory)
      at Role.system r = rw (extract_message, r) (leaves h)
      at Role.assistant r = rw (extract_message, r) (leaves h)
      at Role.user r =
          rw (extract_message, r) (leaves (extract_user_message-IsConsistent py m memory h))
      at Role.tool r = rw (extract_message, r) result

  add_turn_cluster-Fine :
      (ms : List ChatMessage) (memory : RollingMemory)
      → IsConsistent memory
      → Fine (add_turn_cluster py ms memory)
  unfolding add_turn_cluster
  add_turn_cluster-Fine [] memory h = leaves h
  add_turn_cluster-Fine (m ∷ ms) memory h =
      chain-Fine (extract_message py m memory) (add_turn_cluster py ms)
        (extract_message-Fine m memory h) (add_turn_cluster-Fine ms)

  add_clusters-Fine :
      (turns : List (List ChatMessage)) (memory : RollingMemory)
      → IsConsistent memory
      → Fine (add_clusters py turns memory)
  unfolding add_clusters
  add_clusters-Fine [] memory h = leaves h
  add_clusters-Fine (turn ∷ turns) memory h =
      chain-Fine (add_turn_cluster py turn memory) (add_clusters py turns)
        (add_turn_cluster-Fine turn memory h) (add_clusters-Fine turns)

  Fine-some :
      (o : Option RollingMemory) (memory : RollingMemory)
      → Fine o
      → o ≡ some memory
      → IsConsistent memory
  Fine-some none memory h e = absurd (cc e)
  Fine-some (some other) memory (leaves h) e = subst IsConsistent (some-injective other memory e) h

  -- The memory that the compaction makes of an earlier summary and the older turns has no text
  -- twice among the living targets and the deleted ones: no target is deleted and living.
  pub remember-IsConsistent :
      (retained : ℕ) (p : Partition) (memory : RollingMemory)
      → remember py retained p ≡ some memory
      → (s : String)
      → entity_count s memory.deleted_entities + target_count s memory.verified_mutations ≤ 1
  unfolding remember entity_count target_count
  remember-IsConsistent retained p memory run =
      Fine-some (remember py retained p) memory
        (chain-Fine (add_turn_cluster py p.summary empty_memory)
          (add_clusters py (older (mentions py) (prune_content py) retained p.turns))
          (add_turn_cluster-Fine p.summary empty_memory (λ s. omega arith))
          (add_clusters-Fine (older (mentions py) (prune_content py) retained p.turns)))
        run
