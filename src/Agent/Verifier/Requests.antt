-- ===== src/Agent/Verifier/Requests.antt =====
-- An absolute transform is verified against what was asked for: build_change_set_from_result and
-- _verify_transform of agent/verifier.py together.
use blender_ai_sidebar.Prelude.{
  ◌≡◌, refl, sym, ap, ◌∙◌, true, false, String, [], ◌∷◌, Option, none, some, ◌==◌,
  string_comparable, Bool-cases, inl, inr, contains, same_refl, eq_iff, arith,
}
use mathlib.Core.Option.{some-injective}
use blender_ai_sidebar.Core.Text.{strip}
use blender_ai_sidebar.Core.Json.{Value, Items, Fields, get, items, put}
use blender_ai_sidebar.Core.ChangeSet.{VerificationStatus, ChangeSet, VerificationResult}
use blender_ai_sidebar.Agent.Verifier.{Numbers, given}
use blender_ai_sidebar.Agent.Verifier.Rules.{is_rotation}
use blender_ai_sidebar.Agent.Verifier.Operations.{verify}
use blender_ai_sidebar.Agent.Verifier.Changes.{set_given, copy_given, exists_true, try_given}
use blender_ai_sidebar.Agent.Verifier.ChangeSets.{
  is_relative, moved_to, start_of, expected_vector, transform_change, change_of,
  build_change_set_from_result,
}
use blender_ai_sidebar.Agent.Verifier.Close.{Close}
use blender_ai_sidebar.Agent.Verifier.Transforms.{verify-transform_sound}

get-put : (k : String) (v : Value) (d : Fields) → get k (put k v d) ≡ some v
unfolding get put
get-put k v Fields.end = rw (same_refl k) refl
get-put k v (Fields.field j w d) = elim (Bool-cases (j == k)) [
  | inl same ↦ rw (put, same, get, same) refl
  | inr other ↦ rw (put, other, get, other) (get-put k v d)
]

get-put_other :
    (k j : String) (v : Value) (d : Fields) → (k == j) ≡ false → get j (put k v d) ≡ get j d
unfolding get put
get-put_other k j v Fields.end h = rw h refl
get-put_other k j v (Fields.field i w d) h =
    ground (arith, get-put_other k j v d h, eq_iff i k, eq_iff i j, eq_iff k j)

-- A value that was asked for is what is expected, and the other keys stay.
get-set_same :
    (k : String) (o : Option Value) (v : Value) (out : Fields)
    → given o ≡ some v
    → get k (set_given k o (λ w. w) out) ≡ some v
unfolding get put
get-set_same k none v out h = absurd (cc h)
get-set_same k (some Value.null) v out h = absurd (cc h)
get-set_same k (some w) v out h = get-put k w out ∙ h

get-set_other :
    (k j : String) (o : Option Value) (out : Fields)
    → (k == j) ≡ false
    → get j (set_given k o (λ w. w) out) ≡ get j out
unfolding get put
get-set_other k j none out h = refl
get-set_other k j (some Value.null) out h = refl
get-set_other k j (some w) out h = get-put_other k j w out h

-- The keys that a transform may ask for.
pub data VectorKey : String → Type 0 where
  location : VectorKey "location"
  rotation : VectorKey "rotation"
  scale : VectorKey "scale"

VectorKey-contains :
    (prop : String) → VectorKey prop → contains prop ("location" ∷ "rotation" ∷ "scale" ∷ []) ≡ true
unfolding contains
VectorKey-contains _ VectorKey.location = refl
VectorKey-contains _ VectorKey.rotation = refl
VectorKey-contains _ VectorKey.scale = refl

-- The vectors of the arguments are expected as they are.
abbrev pub with_vectors : Fields → Fields → Fields
with_vectors arguments base =
    copy_given arguments "scale"
      (copy_given arguments "rotation" (copy_given arguments "location" base))

-- What is expected of an absolute transform.
abbrev absolute : Fields → Fields
absolute arguments = with_vectors arguments (exists_true Fields.end)

pub get-with_vectors :
    (arguments base : Fields) (prop : String) (v : Value)
    → VectorKey prop
    → given (get prop arguments) ≡ some v
    → get prop (with_vectors arguments base) ≡ some v
unfolding get put
get-with_vectors arguments base _ v VectorKey.location h =
    get-set_other "scale" "location" (get "scale" arguments) _ refl
    ∙ get-set_other "rotation" "location" (get "rotation" arguments) _ refl
    ∙ get-set_same "location" (get "location" arguments) v _ h
get-with_vectors arguments base _ v VectorKey.rotation h =
    get-set_other "scale" "rotation" (get "scale" arguments) _ refl
    ∙ get-set_same "rotation" (get "rotation" arguments) v _ h
get-with_vectors arguments base _ v VectorKey.scale h =
    get-set_same "scale" (get "scale" arguments) v _ h

pub get-with_vectors_kind :
    (arguments base : Fields)
    → get "primitive_type" (with_vectors arguments base) ≡ get "primitive_type" base
unfolding get put
get-with_vectors_kind arguments base =
    get-set_other "scale" "primitive_type" (get "scale" arguments) _ refl
    ∙ get-set_other "rotation" "primitive_type" (get "rotation" arguments) _ refl
    ∙ get-set_other "location" "primitive_type" (get "location" arguments) _ refl

module _ {F : Type 0} (py : Numbers F) where
  try_given-copy :
      (prop : String) (o before : Option Value) (out : Fields)
      → try_given prop o (moved_to py prop (start_of py false before prop)) out
        ≡ some (set_given prop o (λ w. w) out)
  try_given-copy prop none before out = refl
  try_given-copy prop (some Value.null) before out = refl
  try_given-copy prop (some v) before out = refl

  expected_vector-absolute :
      (prop : String) (before : Option Value) (arguments out : Fields)
      → expected_vector py false before arguments prop out ≡ some (copy_given arguments prop out)
  unfolding expected_vector
  expected_vector-absolute prop before arguments out =
      try_given-copy prop (get prop arguments) before out

  transform_change-absolute :
      (arguments result : Fields) (c : ChangeSet)
      → is_relative py arguments result ≡ false
      → transform_change py arguments result ≡ some (some c)
      → (c.expected_after ≡ absolute arguments) × (c.operation ≡ "transform")
  unfolding transform_change
  transform_change-absolute arguments result c h built =
      let same = some-injective _ c (
        some-injective _ (some c) (
          rw
            (
              transform_change,
              h,
              expected_vector-absolute "location" (get "before" result) arguments
                  (exists_true Fields.end),
              expected_vector-absolute "rotation" (get "before" result) arguments
                  (copy_given arguments "location" (exists_true Fields.end)),
              expected_vector-absolute "scale" (get "before" result) arguments (
                  copy_given arguments "rotation"
                    (copy_given arguments "location" (exists_true Fields.end))),
            )
            at built)) in
      (sym (ap (λ x. x.expected_after) same), sym (ap (λ x. x.operation) same))

  -- Where an absolute transform is verified with PASS, each of location, rotation and scale that the
  -- call gave is an array, and the reading has an array under its key that is a list of numbers of
  -- the same length, nowhere off by more than epsilon.
  pub verify-request_reached :
      (tool_name : String) (arguments result : Fields) (c : ChangeSet) (r : VerificationResult)
      (prop : String) (v : Value)
      → py.lower (strip tool_name) ≡ "transform_object"
      → py.lower "transform" ≡ "transform"
      → is_relative py arguments result ≡ false
      → build_change_set_from_result py tool_name arguments result ≡ some (some c)
      → verify py c ≡ some r
      → r.status ≡ VerificationStatus.pass
      → VectorKey prop
      → given (get prop arguments) ≡ some v
      → (es : Items) × ((vs : Items) × ((v ≡ Value.array es)
            × ((get prop c.actual_after ≡ some (Value.array vs))
                × Close py (is_rotation prop) (items es) (items vs))))
  unfolding build_change_set_from_result change_of strip
  verify-request_reached tool_name arguments result c r prop v named lower_transform absolute_call
        built run passes key asked =
      let made =
        transform_change-absolute arguments result c absolute_call
          (ap (λ n. change_of py n arguments result) (sym named) ∙ built) in
      verify-transform_sound py c r prop v (ap (λ op. py.lower (strip op)) made.1 ∙ lower_transform)
        run passes (VectorKey-contains prop key)
        (ap (get prop) made.0
          ∙ get-with_vectors arguments (exists_true Fields.end) prop v key asked)
