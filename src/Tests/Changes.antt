-- ===== src/Tests/Changes.antt =====
-- A transform, a creation and a deletion that are verified, with natural numbers for floats.
use Prim.Native.Nat.{max, min}
use blender_ai_sidebar.Prelude.{
  ℕ, ◌+◌, ◌-◌, ◌*◌, ◌≡◌, refl, true, false, String, [], ◌∷◌, Option, none, some, ltb, ◌↔◌, contains,
}
use blender_ai_sidebar.Core.Text.{strip}
use blender_ai_sidebar.Core.Json.{ℤ, pos, Value, Items, Fields, get, items}
use blender_ai_sidebar.Core.ChangeSet.{VerificationStatus, ChangeSet, VerificationResult}
use blender_ai_sidebar.Agent.Verifier.{Numbers, compare_numeric_vector, build_result}
use blender_ai_sidebar.Agent.Verifier.Rules.{is_rotation}
use blender_ai_sidebar.Agent.Verifier.Editing.{is_true, is_false}
use blender_ai_sidebar.Agent.Verifier.Operations.{verify}
use blender_ai_sidebar.Agent.Verifier.ChangeSets.{build_change_set_from_result}
use blender_ai_sidebar.Agent.Verifier.Close.{Close, compare_numeric_vector-eq_none}
use blender_ai_sidebar.Agent.Verifier.Deletions.{verify-deletion_iff}
use blender_ai_sidebar.Agent.Verifier.Requests.{VectorKey, verify-request_reached}

abbrev whole : Value → Option ℕ
whole (Value.integer (pos n)) = some n
whole v = none

abbrev integer_of : Value → Option ℤ
integer_of (Value.integer n) = some n
integer_of v = none

abbrev shown : Value → String
shown (Value.text t) = t
shown v = "?"

abbrev numbers : Numbers ℕ
numbers = record {
  to_float = whole;
  of_float = λ n. Value.integer (pos n);
  to_int = integer_of;
  plus = λ m n. m + n;
  minus = λ m n. (m - n) + (n - m);
  modulo = λ m n. m;
  times = λ m n. m * n;
  max_of = max;
  min_of = min;
  zero_float = 0;
  one_float = 1;
  abs = λ n. n;
  exceeds = λ m n. ltb n m;
  round_to = λ k n. n;
  pi = 0;
  two_pi = 0;
  epsilon = 0;
  show = shown;
  upper = λ s. s;
  lower = λ s. s;
}

abbrev count_to : ℕ → Value
count_to n = Value.integer (pos n)

abbrev point : Items
point = Items.cons (count_to 1) (Items.cons (count_to 2) (Items.cons (count_to 3) Items.nil))

abbrev far : Items
far = Items.cons (count_to 1) (Items.cons (count_to 2) (Items.cons (count_to 9) Items.nil))

compare_numeric_vector-eq_none_example :
    (compare_numeric_vector numbers "location" (Value.array point) (Value.array far) false ≡ none)
    ↔ Close numbers false (items point) (items far)
compare_numeric_vector-eq_none_example =
    compare_numeric_vector-eq_none numbers "location" point far false

abbrev arguments : Fields
arguments =
    Fields.field "name" (Value.text "Cube") (Fields.field "location" (Value.array point) Fields.end)

abbrev reading : Fields
reading =
    Fields.field "exists" (Value.boolean true)
      (Fields.field "location" (Value.array point) Fields.end)

abbrev moved : ChangeSet
moved = record {
  operation = "transform";
  target_name = "Cube";
  before = none;
  expected_after =
      Fields.field "exists" (Value.boolean true)
        (Fields.field "location" (Value.array point) Fields.end);
  actual_after = reading;
}

built_moved :
    build_change_set_from_result numbers "transform_object" arguments
      (Fields.field "actual" (Value.object reading) Fields.end)
    ≡ some (some moved)
unfolding build_change_set_from_result strip
built_moved = refl

verified_moved : verify numbers moved ≡ some (build_result numbers "transform" "Cube" [])
unfolding verify strip contains
verified_moved = refl

verify-request_reached_example :
    (es : Items) × ((vs : Items) × ((Value.array point ≡ Value.array es)
        × ((get "location" reading ≡ some (Value.array vs))
            × Close numbers (is_rotation "location") (items es) (items vs))))
unfolding get build_result strip
verify-request_reached_example =
    verify-request_reached numbers "transform_object" arguments
      (Fields.field "actual" (Value.object reading) Fields.end) moved
      (build_result numbers "transform" "Cube" []) "location" (Value.array point) refl refl refl
      built_moved verified_moved refl VectorKey.location refl

-- A cube that is made where it was asked for.
abbrev cube_arguments : Fields
cube_arguments =
    Fields.field "primitive_type" (Value.text "CUBE")
      (Fields.field "location" (Value.array point) Fields.end)

abbrev cube_result : Fields
cube_result = Fields.field "object_name" (Value.text "Cube") (
    Fields.field "exists" (Value.boolean true) (
      Fields.field "type" (Value.text "CUBE")
        (Fields.field "location" (Value.array point) Fields.end)))

abbrev made_cube : ChangeSet
made_cube = record {
  operation = "create";
  target_name = "Cube";
  before = none;
  expected_after = Fields.field "exists" (Value.boolean true) (
      Fields.field "primitive_type" (Value.text "CUBE")
        (Fields.field "location" (Value.array point) Fields.end));
  actual_after = cube_result;
}

-- A result of delete_object that says that the object is still there.
abbrev still_there : Fields
still_there = Fields.field "exists" (Value.boolean true) Fields.end

abbrev kept_change : ChangeSet
kept_change = record {
  operation = "delete";
  target_name = "Cube";
  before = none;
  expected_after =
      Fields.field "exists" (Value.boolean false)
        (Fields.field "deleted" (Value.boolean true) Fields.end);
  actual_after =
      Fields.field "exists" (Value.boolean true)
        (Fields.field "deleted" (Value.boolean true) Fields.end);
}

abbrev kept_result : VerificationResult
kept_result = build_result numbers "delete" "Cube" (
    record {
      property = "exists";
      expected = Value.boolean false;
      actual = Value.boolean true;
      diff = Value.null;
    }
    ∷ [])

built_kept :
    build_change_set_from_result numbers "delete_object" arguments still_there
    ≡ some (some kept_change)
unfolding build_change_set_from_result strip
built_kept = refl

verified_kept : verify numbers kept_change ≡ some kept_result
unfolding verify strip contains build_result
verified_kept = refl

verify-deletion_iff_example : (kept_result.status ≡ VerificationStatus.pass) ↔ (
    (is_true (get "exists" still_there) ≡ false) × (is_false (get "deleted" still_there) ≡ false))
unfolding strip
verify-deletion_iff_example =
    verify-deletion_iff numbers "delete_object" arguments still_there kept_change kept_result refl
      refl built_kept verified_kept
