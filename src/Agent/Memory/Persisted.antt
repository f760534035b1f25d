-- ===== src/Agent/Memory/Persisted.antt =====
-- The persisted form of RollingMemory, agent/memory.py: sanitize_persisted_text, to_dict, from_dict
-- and the session memory of a Blender property.
use blender_ai_sidebar.Prelude.{
  Bool, false, String, List, [], ◌∷◌, Option, none, some, ◌==◌, string_comparable, if◌then◌else◌,
  map, contains,
}
use blender_ai_sidebar.Core.Json.{pos, Value, Fields, eq_value, get, items, of_list, is_truthy, put}
use blender_ai_sidebar.Core.TextParts.{first}
use blender_ai_sidebar.Agent.Memory.Builtins.{Builtins, ◌>>=◌}
use blender_ai_sidebar.Agent.Memory.ShortForms.{value_or}
use blender_ai_sidebar.Agent.Memory.Rolling.{Verdict, RollingMemory, has_entity}
use blender_ai_sidebar.Agent.Memory.Targets.{with_target}

-- The substitutions by the regular expressions of the module.
pub record Patterns : Type 0 where
  pub data_uri : String → String
  pub bytes_literal : String → String
  pub prefixed_token : String → String
  pub bearer : String → String
  pub key_value_secret : String → String
  pub image_id_kv : String → String
  pub image_id_token : String → String
  pub long_base64 : String → String

abbrev pub banned : List String
banned = "api_key" ∷ "secret" ∷ "image_id" ∷ "bytes" ∷ "token" ∷ "password" ∷ "credential" ∷ []

-- `set(values)`, of which only the sorted list is used.
unfoldable pub distinct : List Value → List Value
unfolding has_entity
distinct [] = []
distinct (v ∷ vs) = if has_entity v vs then distinct vs else v ∷ distinct vs

module _ (py : Builtins) (re : Patterns) where
  unfoldable pub sanitize_text : String → String
  sanitize_text s =
      if s == ""
      then ""
      else re.long_base64 (
          re.image_id_token (
            re.image_id_kv (
              re.key_value_secret
                (re.bearer (re.prefixed_token (re.bytes_literal (re.data_uri s)))))))

  -- sanitize_persisted_text, of any value.
  unfoldable pub sanitize_persisted_text : Value → String
  unfolding sanitize_text
  sanitize_persisted_text (Value.text s) = sanitize_text s
  sanitize_persisted_text v = if is_truthy v then sanitize_text (py.show v) else ""

  abbrev pub clean_leaf : Value → Value
  clean_leaf (Value.text s) = Value.text (sanitize_text s)
  clean_leaf v = v

  -- The dictionary in an entry, without the banned keys.
  unfoldable pub clean_nested : Fields → Fields
  unfolding sanitize_text contains
  clean_nested Fields.end = Fields.end
  clean_nested (Fields.field k v d) =
      if contains k banned then clean_nested d else Fields.field k (clean_leaf v) (clean_nested d)

  abbrev pub clean_value : Value → Value
  clean_value (Value.object d) = Value.object (clean_nested d)
  clean_value v = clean_leaf v

  unfoldable pub clean_item : Fields → Fields
  unfolding clean_nested contains
  clean_item Fields.end = Fields.end
  clean_item (Fields.field k v d) =
      if contains k banned then clean_item d else Fields.field k (clean_value v) (clean_item d)

  unfoldable pub clean_mutations : List (Value × Fields) → Fields → Fields
  unfolding clean_item sanitize_persisted_text put
  clean_mutations [] out = out
  clean_mutations ((target, item) ∷ rest) out =
      clean_mutations rest
        (put (sanitize_persisted_text target) (Value.object (clean_item item)) out)

  abbrev texts : List String → Value
  texts ss = Value.array (of_list (map (λ s. Value.text (sanitize_text s)) ss))

  abbrev verdict_fields : Option Verdict → Value
  verdict_fields none = Value.null
  verdict_fields (some v) = Value.object (
      Fields.field "decision" (Value.text v.decision)
        (Fields.field "rationale" (Value.text (first 120 (sanitize_text v.rationale))) Fields.end))

  -- to_dict; `none` where a sort raises.
  unfoldable pub to_dict : RollingMemory → Option Fields
  unfolding clean_mutations distinct of_list first sanitize_persisted_text
  to_dict memory = py.sorted_items memory.verified_mutations >>= λ living.
      py.sorted_values (distinct memory.deleted_entities) >>= λ deleted. some (
        Fields.field "schema_version" (Value.integer (pos 1)) (
          Fields.field "tasks" (texts memory.tasks) (
            Fields.field "verified_mutations" (Value.object (clean_mutations living Fields.end)) (
              Fields.field "deleted_entities"
                (Value.array (of_list (map (λ v. Value.text (sanitize_persisted_text v)) deleted)))
                (Fields.field "inspections" (texts memory.inspections) (
                  Fields.field "errors" (texts memory.errors) (
                    Fields.field "last_visual_verification"
                      (verdict_fields memory.last_visual_verification) Fields.end)))))))

  -- The texts of a list, sanitized.
  unfoldable pub load_texts : List Value → List String
  unfolding sanitize_text
  load_texts [] = []
  load_texts (Value.text s ∷ vs) = sanitize_text s ∷ load_texts vs
  load_texts (v ∷ vs) = load_texts vs

  abbrev loaded : Option Value → List String
  loaded (some (Value.array vs)) = load_texts (items vs)
  loaded v = []

  -- The entries that are dictionaries, cleaned.
  unfoldable pub load_mutations : Fields → List (Value × Fields) → List (Value × Fields)
  unfolding clean_item with_target sanitize_text
  load_mutations Fields.end out = out
  load_mutations (Fields.field target (Value.object item) d) out =
      load_mutations d (with_target (Value.text (sanitize_text target)) (clean_item item) out)
  load_mutations (Fields.field target v d) out = load_mutations d out

  abbrev pub loaded_mutations : Option Value → List (Value × Fields)
  loaded_mutations (some (Value.object d)) = load_mutations d []
  loaded_mutations v = []

  abbrev loaded_verdict : Option Value → Option Verdict
  loaded_verdict (some (Value.object vis)) = some (record {
    decision = py.show (value_or (get "decision" vis) (Value.text "UNKNOWN"));
    rationale =
        first 120 (sanitize_text (py.show (value_or (get "rationale" vis) (Value.text ""))));
  })
  loaded_verdict v = none

  -- A version other than 1 is no integer, or below 1, or above it: none of them is read.
  abbrev pub is_current : Option Value → Bool
  is_current none = false
  is_current (some v) = eq_value v (Value.integer (pos 1))

  unfoldable pub from_dict : Value → Option RollingMemory
  unfolding load_texts load_mutations eq_value get first items
  from_dict (Value.object d) =
      if is_current (get "schema_version" d)
      then some (record {
        tasks = loaded (get "tasks" d);
        verified_mutations = loaded_mutations (get "verified_mutations" d);
        deleted_entities = map Value.text (loaded (get "deleted_entities" d));
        inspections = loaded (get "inspections" d);
        errors = loaded (get "errors" d);
        last_visual_verification = loaded_verdict (get "last_visual_verification" d);
      })
      else none
  from_dict v = none

  -- serialize_session_memory
  unfoldable pub serialize_session_memory : RollingMemory → Option String
  unfolding to_dict
  serialize_session_memory memory = to_dict memory >>= λ d. some (py.dumps (Value.object d))

  -- deserialize_session_memory, of a text or a dictionary.
  unfoldable pub deserialize_session_memory : Value → Option RollingMemory
  unfolding from_dict
  deserialize_session_memory (Value.text s) = if s == "" then none else (py.loads s >>= from_dict)
  deserialize_session_memory (Value.object Fields.end) = none
  deserialize_session_memory (Value.object (Fields.field k v d)) =
      from_dict (Value.object (Fields.field k v d))
  deserialize_session_memory v = none
