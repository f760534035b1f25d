-- ===== src/Agent/Verifier/Verdicts.antt =====
-- When ChangeVerifier.verify of agent/verifier.py passes.
use blender_ai_sidebar.Prelude.{
  ◌≡◌, refl, subst, String, List, [], ◌∷◌, Option, none, some, ◌==◌, string_comparable, if_lem, ◌↔◌,
  contains,
}
use mathlib.Core.Option.{some-injective}
use blender_ai_sidebar.Core.Text.{strip}
use blender_ai_sidebar.Core.ChangeSet.{VerificationStatus, ChangeSet, Mismatch, VerificationResult}
use blender_ai_sidebar.Agent.Verifier.{Numbers, build_result}
use blender_ai_sidebar.Agent.Verifier.Creation.{concluded}
use blender_ai_sidebar.Agent.Verifier.Editing.{
  verify_duplicate_object, verify_set_material, verify_assign_material,
}
use blender_ai_sidebar.Agent.Verifier.Operations.{unsupported, verify_operation, verify}

-- A result passes where it has no mismatch.
abbrev IsJust : VerificationResult → Type 0
IsJust r = (r.status ≡ VerificationStatus.pass) ↔ (r.mismatches ≡ [])

data Just : Option VerificationResult → Type 0 where
  raises : Just none
  gives : {r : VerificationResult} → IsJust r → Just (some r)

module _ {F : Type 0} (py : Numbers F) where
  build_result-IsJust :
      (operation target : String) (ms : List Mismatch)
      → IsJust (build_result py operation target ms)
  unfolding build_result
  build_result-IsJust operation target [] = (λ h. refl, λ h. refl)
  build_result-IsJust operation target (m ∷ ms) = (λ h. absurd (cc h), λ h. absurd (cc h))

  concluded-Just :
      (operation target : String) (o : Option (List Mismatch))
      → Just (concluded py operation target o)
  concluded-Just operation target none = raises
  concluded-Just operation target (some ms) = gives (build_result-IsJust operation target ms)

  verify_operation-Just :
      (op target : String) (c : ChangeSet) → Just (verify_operation py op target c)
  unfolding verify_operation
  verify_operation-Just op target c = if_lem Just (op == "create") _ _ (concluded-Just _ target _) (
      if_lem Just (op == "create_camera") _ _ (concluded-Just _ target _) (
        if_lem Just (op == "create_light") _ _ (concluded-Just _ target _) (
          if_lem Just (op == "set_shading") _ _ (concluded-Just _ target _) (
            if_lem Just (op == "add_modifier") _ _ (concluded-Just _ target _) (
              if_lem Just (op == "transform") _ _ (concluded-Just _ target _) (
                if_lem Just (op == "delete") _ _ (concluded-Just _ target _) (
                  if_lem Just (contains op ("set_material" ∷ "material" ∷ [])) _ _
                    (concluded-Just "set_material" target
                      (verify_set_material py c.expected_after c.actual_after))
                    (if_lem Just (contains op ("assign_material" ∷ "assign" ∷ [])) _ _
                      (concluded-Just "assign_material" target
                        (verify_assign_material py c.expected_after c.actual_after))
                      (if_lem Just (contains op ("duplicate_object" ∷ "duplicate" ∷ [])) _
                        (some (unsupported py op target))
                        (concluded-Just "duplicate_object" target
                          (verify_duplicate_object py c.before c.expected_after c.actual_after))
                        (gives (λ h. absurd (cc h), λ h. absurd (cc h))))))))))))

  Just-some :
      (o : Option VerificationResult) (r : VerificationResult) → Just o → o ≡ some r → IsJust r
  Just-some none r h e = absurd (cc e)
  Just-some (some other) r (gives h) e = subst IsJust (some-injective other r e) h

  -- For every operation, the unsupported ones included, a result has the status PASS exactly where
  -- its list of mismatches is empty.
  pub verify-passes_iff :
      (c : ChangeSet) (r : VerificationResult)
      → verify py c ≡ some r
      → (r.status ≡ VerificationStatus.pass) ↔ (r.mismatches ≡ [])
  unfolding verify
  verify-passes_iff c r run =
      Just-some (verify py c) r
        (verify_operation-Just (py.lower (strip c.operation)) (strip c.target_name) c) run
