-- ===== src/Agent/Verifier/Transforms.antt =====
-- What a verified transform says of the vectors: agent/verifier.py, _verify_transform.
use blender_ai_sidebar.Prelude.{
  ◌≡◌, refl, sym, ap, ◌∙◌, true, String, List, [], ◌∷◌, Option, none, some, ◌==◌, string_comparable,
  Bool-cases, Option-cases, inl, inr, contains, append-eq_nil,
}
use mathlib.Core.Option.{some-injective}
use blender_ai_sidebar.Core.Text.{strip}
use blender_ai_sidebar.Core.Json.{Value, Items, Fields, get, items}
use blender_ai_sidebar.Core.ChangeSet.{VerificationStatus, ChangeSet, Mismatch, VerificationResult}
use blender_ai_sidebar.Agent.Verifier.{Numbers, listed, compare_numeric_vector, build_result}
use blender_ai_sidebar.Agent.Verifier.Rules.{is_rotation, check_vector}
use blender_ai_sidebar.Agent.Verifier.Editing.{
  is_false, check_items, transform_rule, verify_transform,
}
use blender_ai_sidebar.Agent.Verifier.Operations.{verify_operation, verify}
use blender_ai_sidebar.Agent.Verifier.Close.{Close, compare_numeric_vector-eq_none}
use blender_ai_sidebar.Agent.Verifier.Verdicts.{verify-passes_iff}

pub listed-eq_nil : (o : Option Mismatch) → listed o ≡ [] → o ≡ none
listed-eq_nil none h = refl
listed-eq_nil (some m) h = absurd (cc h)

-- Where the items leave no mismatch, none of them has one.
check_items-eq_nil :
    (rule : String → Value → Option Mismatch) (d : Fields) (k : String) (v : Value)
    → check_items rule d ≡ []
    → get k d ≡ some v
    → rule k v ≡ none
unfolding check_items get
check_items-eq_nil rule Fields.end k v h there = absurd (cc there)
check_items-eq_nil rule (Fields.field j w d) k v h there =
    let parts = append-eq_nil (listed (rule j w)) (check_items rule d) h in
    elim (Bool-cases (j == k)) [
      | inl same ↦
          let key : j ≡ k = (string_comparable.same_iff j k).0 same in
          let value : w ≡ v = some-injective w v (rw (get, same) at there) in
          ap (λ x. rule x v) (sym key)
          ∙ ap (λ x. rule j x) (sym value)
          ∙ listed-eq_nil (rule j w) parts.0
      | inr other ↦ check_items-eq_nil rule d k v parts.1 (rw (get, other) at there)
    ]

module _ {F : Type 0} (py : Numbers F) where
  -- Two arrays of numbers that are close.
  abbrev pub Agree : String → Value → Option Value → Type 0
  Agree prop expected actual =
      (es : Items) × ((vs : Items) × ((expected ≡ Value.array es)
          × ((actual ≡ some (Value.array vs)) × Close py (is_rotation prop) (items es) (items vs))))

  compare_numeric_vector-Agree :
      (prop : String) (expected actual : Value)
      → compare_numeric_vector py prop expected actual (is_rotation prop) ≡ none
      → Agree prop expected (some actual)
  unfolding compare_numeric_vector
  compare_numeric_vector-Agree prop (Value.array es) (Value.array vs) h = (
    es,
    (vs, (refl, (refl, (compare_numeric_vector-eq_none py prop es vs (is_rotation prop)).0 h))),
  )
  compare_numeric_vector-Agree prop (Value.array es) v h = absurd (cc h)
  compare_numeric_vector-Agree prop e v h = absurd (cc h)

  pub check_vector-Agree :
      (prop : String) (expected : Value) (actual : Option Value)
      → check_vector py prop expected actual ≡ none
      → Agree prop expected actual
  unfolding check_vector
  check_vector-Agree prop e none h = absurd (cc h)
  check_vector-Agree prop e (some Value.null) h = absurd (cc h)
  check_vector-Agree prop e (some v) h = compare_numeric_vector-Agree prop e v h

  transform_passes :
      (prop : String) (e : Value) (expected actual : Fields)
      → verify_transform py expected actual ≡ some []
      → contains prop ("location" ∷ "rotation" ∷ "scale" ∷ []) ≡ true
      → get prop expected ≡ some e
      → Agree prop e (get prop actual)
  unfolding verify_transform transform_rule
  transform_passes prop e expected actual h vector there =
      elim (Bool-cases (is_false (get "exists" actual))) [
        | inl gone ↦ absurd (cc (rw (verify_transform, gone) at h))
        | inr there_is ↦ check_vector-Agree prop e (get prop actual) (
            rw (transform_rule, vector) at
              (check_items-eq_nil (transform_rule py actual) expected prop e
                (some-injective (check_items (transform_rule py actual) expected) []
                  (rw (verify_transform, there_is) at h))
                there))
      ]

  pub no_mismatches :
      (operation target : String) (ms : List Mismatch) (r : VerificationResult)
      → some (build_result py operation target ms) ≡ some r
      → r.mismatches ≡ []
      → ms ≡ []
  unfolding build_result
  no_mismatches operation target [] r h e = refl
  no_mismatches operation target (m ∷ ms) r h e =
      absurd (cc (ap (λ x. x.mismatches) (some-injective _ r h) ∙ e))

  verified_transform :
      (target : String) (c : ChangeSet) (r : VerificationResult)
      → verify_operation py "transform" target c ≡ some r
      → r.mismatches ≡ []
      → verify_transform py c.expected_after c.actual_after ≡ some []
  unfolding verify_operation
  verified_transform target c r run clean =
      elim (Option-cases (verify_transform py c.expected_after c.actual_after)) [
        | inl bad ↦ absurd (cc (rw (verify_operation, bad) at run))
        | inr (ms, good) ↦
            good
            ∙ ap some
                (no_mismatches "transform" target ms r (rw (verify_operation, good) at run) clean)
      ]

  -- Where a transform is verified with PASS, each of location, rotation and scale that it expects is
  -- an array, the reading has an array under the same key, and the two are lists of numbers of the
  -- same length that differ nowhere by more than epsilon, as angles in the case of the rotation.
  pub verify-transform_sound :
      (c : ChangeSet) (r : VerificationResult) (prop : String) (e : Value)
      → py.lower (strip c.operation) ≡ "transform"
      → verify py c ≡ some r
      → r.status ≡ VerificationStatus.pass
      → contains prop ("location" ∷ "rotation" ∷ "scale" ∷ []) ≡ true
      → get prop c.expected_after ≡ some e
      → (es : Items) × ((vs : Items) × ((e ≡ Value.array es)
            × ((get prop c.actual_after ≡ some (Value.array vs))
                × Close py (is_rotation prop) (items es) (items vs))))
  unfolding verify
  verify-transform_sound c r prop e named run passes vector there =
      transform_passes prop e c.expected_after c.actual_after
        (verified_transform (strip c.target_name) c r
          (ap (λ op. verify_operation py op (strip c.target_name) c) (sym named) ∙ run)
          ((verify-passes_iff py c r run).0 passes))
        vector there
