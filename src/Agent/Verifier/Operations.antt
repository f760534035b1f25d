-- ===== src/Agent/Verifier/Operations.antt =====
-- ChangeVerifier.verify of agent/verifier.py.
use blender_ai_sidebar.Prelude.{
  String, [], ◌∷◌, Option, some, ◌==◌, string_comparable, if◌then◌else◌, contains,
}
use blender_ai_sidebar.Core.Text.{joined, strip}
use blender_ai_sidebar.Core.Json.{Value}
use blender_ai_sidebar.Core.ChangeSet.{VerificationStatus, ChangeSet, VerificationResult}
use blender_ai_sidebar.Agent.Verifier.{Numbers, mismatch, build_result}
use blender_ai_sidebar.Agent.Verifier.Creation.{
  concluded, verify_create, verify_create_camera, verify_create_light,
}
use blender_ai_sidebar.Agent.Verifier.Editing.{
  verify_set_shading, verify_add_modifier, verify_duplicate_object, verify_transform, verify_delete,
  verify_set_material, verify_assign_material,
}

abbrev operations_text : String
operations_text =
    "One of ['create', 'create_camera', 'create_light', 'set_shading', 'add_modifier', 'duplicate_object', 'transform', 'delete', 'set_material', 'assign_material']"

module _ {F : Type 0} (py : Numbers F) where
  abbrev pub unsupported : String → String → VerificationResult
  unsupported op target = record {
    status = VerificationStatus.fail;
    operation = op;
    target_name = target;
    mismatches = mismatch "operation" (Value.text operations_text) (Value.text op) ∷ [];
    summary = joined (
        "Verification FAILED: Unsupported operation '" ∷ op ∷ "' for target '" ∷ target ∷ "'."
        ∷ []);
  }

  -- The rules of an operation, by its clean name.
  unfoldable pub verify_operation : String → String → ChangeSet → Option VerificationResult
  unfolding verify_create verify_create_camera verify_create_light verify_set_shading
      verify_add_modifier verify_duplicate_object verify_transform verify_delete verify_set_material
      verify_assign_material build_result contains
  verify_operation op target c =
      if op == "create"
      then concluded py "create" target (verify_create py c.expected_after c.actual_after)
      else if op == "create_camera"
      then concluded py "create_camera" target
          (verify_create_camera py c.expected_after c.actual_after)
      else if op == "create_light"
      then concluded py "create_light" target
          (verify_create_light py c.expected_after c.actual_after)
      else if op == "set_shading"
      then concluded py "set_shading" target (verify_set_shading py c.expected_after c.actual_after)
      else if op == "add_modifier"
      then concluded py "add_modifier" target
          (verify_add_modifier py c.expected_after c.actual_after)
      else if op == "transform"
      then concluded py "transform" target (verify_transform py c.expected_after c.actual_after)
      else if op == "delete"
      then concluded py "delete" target (verify_delete c.actual_after)
      else if contains op ("set_material" ∷ "material" ∷ [])
      then concluded py "set_material" target
          (verify_set_material py c.expected_after c.actual_after)
      else if contains op ("assign_material" ∷ "assign" ∷ [])
      then concluded py "assign_material" target
          (verify_assign_material py c.expected_after c.actual_after)
      else if contains op ("duplicate_object" ∷ "duplicate" ∷ [])
      then concluded py "duplicate_object" target
          (verify_duplicate_object py c.before c.expected_after c.actual_after)
      else some (unsupported op target)

  unfoldable pub verify : ChangeSet → Option VerificationResult
  unfolding verify_operation strip
  verify c = verify_operation (py.lower (strip c.operation)) (strip c.target_name) c
