-- ===== src/Agent/Verifier/Creations.antt =====
-- A created primitive is verified against what was asked for: build_change_set_from_result and
-- _verify_create of agent/verifier.py together.
use blender_ai_sidebar.Prelude.{◌≡◌, true, [], Option, some}
use blender_ai_sidebar.Core.Json.{Fields, get}
use blender_ai_sidebar.Core.ChangeSet.{ChangeSet}
use blender_ai_sidebar.Agent.Verifier.{Numbers}
use blender_ai_sidebar.Agent.Verifier.Rules.{vector_if_there}
use blender_ai_sidebar.Agent.Verifier.Creation.{exists_or_created, primitive_type_rule}
use blender_ai_sidebar.Agent.Verifier.Changes.{exists_true, upper_text}
use blender_ai_sidebar.Agent.Verifier.Close.{Close}
use blender_ai_sidebar.Agent.Verifier.Requests.{with_vectors}

module _ {F : Type 0} (py : Numbers F) where
  -- The rules of a creation that all hold.
  abbrev CreatedWell : Fields → Fields → Type 0
  CreatedWell expected actual =
      (exists_or_created py actual ≡ true)
      × ((primitive_type_rule py expected actual ≡ some [])
          × ((vector_if_there py expected actual "location" ≡ some [])
              × ((vector_if_there py expected actual "rotation" ≡ some [])
                  × (vector_if_there py expected actual "scale" ≡ some []))))

  -- What is expected of a new primitive.
  abbrev expected_primitive : Fields → Fields
  expected_primitive arguments = with_vectors arguments (
      exists_true (
        Fields.field "primitive_type" (upper_text py (get "primitive_type" arguments) "")
          Fields.end))
