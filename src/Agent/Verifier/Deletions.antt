-- ===== src/Agent/Verifier/Deletions.antt =====
-- The verification of what delete_object reports: build_change_set_from_result and _verify_delete of
-- agent/verifier.py together.
use blender_ai_sidebar.Prelude.{
  ◌≡◌, refl, sym, ap, ◌∙◌, true, false, String, Option, none, some, string_comparable, Bool-cases,
  inl, inr, ◌↔◌,
}
use mathlib.Core.Option.{some-injective}
use blender_ai_sidebar.Core.Text.{strip}
use blender_ai_sidebar.Core.Json.{Value, Fields, get}
use blender_ai_sidebar.Core.ChangeSet.{VerificationStatus, ChangeSet, VerificationResult}
use blender_ai_sidebar.Agent.Verifier.{Numbers, build_result, or_default}
use blender_ai_sidebar.Agent.Verifier.Editing.{is_true, is_false, verify_delete}
use blender_ai_sidebar.Agent.Verifier.Operations.{verify_operation, verify}
use blender_ai_sidebar.Agent.Verifier.Changes.{delete_change}
use blender_ai_sidebar.Agent.Verifier.ChangeSets.{change_of, build_change_set_from_result}

is_true-default :
    (o : Option Value) → is_true (some (or_default o (Value.boolean false))) ≡ is_true o
is_true-default none = refl
is_true-default (some v) = refl

is_false-default :
    (o : Option Value) → is_false (some (or_default o (Value.boolean true))) ≡ is_false o
is_false-default none = refl
is_false-default (some v) = refl

module _ {F : Type 0} (py : Numbers F) where
  -- What a reading must not say.
  abbrev IsGone : Fields → Type 0
  IsGone result =
      (is_true (get "exists" result) ≡ false) × (is_false (get "deleted" result) ≡ false)

  delete_passes :
      (target : String) (result actual : Fields) (r : VerificationResult) (c : ChangeSet)
      → is_true (get "exists" c.actual_after) ≡ is_true (get "exists" result)
      → is_false (get "deleted" c.actual_after) ≡ is_false (get "deleted" result)
      → verify_operation py "delete" target c ≡ some r
      → (r.status ≡ VerificationStatus.pass) ↔ IsGone result
  unfolding verify_operation verify_delete build_result
  delete_passes target result actual r c same_exists same_deleted run =
      elim (Bool-cases (is_true (get "exists" result))) [
        | inl there ↦
            let status =
              ap (λ x. x.status)
                (some-injective _ r
                  (rw (verify_operation, verify_delete, same_exists, there) at run)) in
            (λ h. absurd (cc (status ∙ h)), λ h. absurd (cc (sym there ∙ h.0)))
        | inr gone ↦ elim (Bool-cases (is_false (get "deleted" result))) [
          | inl kept ↦
              let status =
                ap (λ x. x.status)
                  (some-injective _ r (
                    rw (verify_operation, verify_delete, same_exists, gone, same_deleted, kept) at
                      run)) in
              (λ h. absurd (cc (status ∙ h)), λ h. absurd (cc (sym kept ∙ h.1)))
          | inr deleted ↦
              let status =
                ap (λ x. x.status)
                  (some-injective _ r (
                    rw (verify_operation, verify_delete, same_exists, gone, same_deleted, deleted)
                      at run)) in
              (λ h. (gone, deleted), λ h. sym status)
        ]
      ]

  delete_verdict :
      (arguments result : Fields) (c : ChangeSet) (r : VerificationResult)
      → py.lower "delete" ≡ "delete"
      → delete_change py arguments result ≡ some (some c)
      → verify py c ≡ some r
      → (r.status ≡ VerificationStatus.pass) ↔ IsGone result
  unfolding delete_change verify get strip
  delete_verdict arguments result c r lower_delete built run =
      let same = some-injective _ c (some-injective _ (some c) built) in
      delete_passes (strip c.target_name) result c.actual_after r c
        (ap (λ x. is_true (get "exists" x.actual_after)) (sym same)
          ∙ is_true-default (get "exists" result))
        (ap (λ x. is_false (get "deleted" x.actual_after)) (sym same)
          ∙ is_false-default (get "deleted" result))
        (ap (λ op. verify_operation py op (strip c.target_name) c)
            (sym lower_delete ∙ ap (λ x. py.lower (strip x.operation)) same)
          ∙ run)

  -- A deletion is verified with PASS exactly where the result of delete_object does not say that the
  -- object exists, and does not say that it was not deleted.
  pub verify-deletion_iff :
      (tool_name : String) (arguments result : Fields) (c : ChangeSet) (r : VerificationResult)
      → py.lower (strip tool_name) ≡ "delete_object"
      → py.lower "delete" ≡ "delete"
      → build_change_set_from_result py tool_name arguments result ≡ some (some c)
      → verify py c ≡ some r
      → (r.status ≡ VerificationStatus.pass)
        ↔ ((is_true (get "exists" result) ≡ false) × (is_false (get "deleted" result) ≡ false))
  unfolding build_change_set_from_result change_of
  verify-deletion_iff tool_name arguments result c r named lower_delete built run =
      delete_verdict arguments result c r lower_delete
        (ap (λ n. change_of py n arguments result) (sym named) ∙ built) run
