-- ===== src/Tests/Persistence.antt =====
-- Session memories that are written and read, one of which has a key of an API.
use blender_ai_sidebar.Prelude.{◌≡◌, refl, [], ◌∷◌, some, All, contains}
use blender_ai_sidebar.Core.Json.{pos, Value, Fields, of_list}
use blender_ai_sidebar.Agent.Memory.Rolling.{RollingMemory, empty_memory}
use blender_ai_sidebar.Agent.Memory.Persisted.{
  Patterns, to_dict, deserialize_session_memory, from_dict,
}
use blender_ai_sidebar.Agent.Memory.Restored.{deserialize_session_memory-to_dict}
use blender_ai_sidebar.Agent.Memory.Redacted.{IsRedacted, from_dict-AllRedacted}
use blender_ai_sidebar.Tests.Compactions.{python}

-- No text matches.
abbrev patterns : Patterns
patterns = record {
  data_uri = λ s. s;
  bytes_literal = λ s. s;
  prefixed_token = λ s. s;
  bearer = λ s. s;
  key_value_secret = λ s. s;
  image_id_kv = λ s. s;
  image_id_token = λ s. s;
  long_base64 = λ s. s;
}

abbrev stored : Value
stored = Value.object (
    Fields.field "schema_version" (Value.integer (pos 1)) (
      Fields.field "verified_mutations"
        (Value.object (
          Fields.field "Cube"
            (Value.object (
              Fields.field "api_key" (Value.text "abc")
                (Fields.field "operation" (Value.text "create") Fields.end)))
            Fields.end))
        Fields.end))

abbrev restored : RollingMemory
restored = record empty_memory {
  verified_mutations =
      (Value.text "Cube", Fields.field "operation" (Value.text "create") Fields.end) ∷ [];
}

restores : from_dict python patterns stored ≡ some restored
unfolding from_dict contains
restores = refl

from_dict-AllRedacted_example : All (λ m. IsRedacted m.1) restored.verified_mutations
from_dict-AllRedacted_example = from_dict-AllRedacted python patterns stored restored restores

abbrev session : RollingMemory
session = record empty_memory {
  tasks = "Create a cube" ∷ "Delete the lamp" ∷ [];
  inspections = "Scene: 3 objects" ∷ [];
  errors = "No such object" ∷ [];
  deleted_entities = Value.text "Lamp" ∷ [];
}

abbrev session_fields : Fields
session_fields = Fields.field "schema_version" (Value.integer (pos 1)) (
    Fields.field "tasks"
      (Value.array (of_list (Value.text "Create a cube" ∷ Value.text "Delete the lamp" ∷ [])))
      (Fields.field "verified_mutations" (Value.object Fields.end) (
        Fields.field "deleted_entities" (Value.array (of_list (Value.text "Lamp" ∷ []))) (
          Fields.field "inspections" (Value.array (of_list (Value.text "Scene: 3 objects" ∷ []))) (
            Fields.field "errors" (Value.array (of_list (Value.text "No such object" ∷ [])))
              (Fields.field "last_visual_verification" Value.null Fields.end))))))

writes : to_dict python patterns session ≡ some session_fields
unfolding to_dict of_list
writes = refl

deserialize_session_memory-to_dict_example :
    (back : RollingMemory) × (deserialize_session_memory python patterns
        (Value.object session_fields)
      ≡ some back)
    × (back.tasks ≡ session.tasks)
    × (back.inspections ≡ session.inspections)
    × (back.errors ≡ session.errors)
unfolding to_dict
deserialize_session_memory-to_dict_example =
    deserialize_session_memory-to_dict python patterns session session_fields (refl, (refl, tt))
      (refl, tt) (refl, tt) writes
