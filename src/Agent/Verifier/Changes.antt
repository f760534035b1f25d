-- ===== src/Agent/Verifier/Changes.antt =====
-- build_change_set_from_result of agent/verifier.py: what a tool's arguments let expect of its
-- result. `none` is an exception, and `some none` that the tool is not verified.
use blender_ai_sidebar.Prelude.{
  true, false, String, List, [], ◌∷◌, map, Option, none, some, ◌==◌, string_comparable,
  nat_comparable, if◌then◌else◌, length,
}
use blender_ai_sidebar.Core.Text.{strip}
use blender_ai_sidebar.Core.Json.{
  pos, Value, Fields, get, items, keys, of_list, is_truthy, or_else, or_next, put,
}
use blender_ai_sidebar.Core.ChangeSet.{ChangeSet}
use blender_ai_sidebar.Agent.Verifier.{Numbers, or_default, given}

infixl 5 ◌>>=◌
abbrev pub ◌>>=◌ {ℓ κ} : {A : Type ℓ} → {B : Type κ} → Option A → (A → Option B) → Option B
none >>= f = none
some a >>= f = f a

-- `if k in arguments and arguments[k] is not None: out[j] = rule(arguments[k])`
abbrev pub set_given : String → Option Value → (Value → Value) → Fields → Fields
set_given j none rule out = out
set_given j (some Value.null) rule out = out
set_given j (some v) rule out = put j (rule v) out

abbrev pub copy_given : Fields → String → Fields → Fields
copy_given arguments k out = set_given k (get k arguments) (λ v. v) out

-- The same where the rule may raise an exception.
abbrev pub put_result : String → Option Value → Fields → Option Fields
put_result j none out = none
put_result j (some v) out = some (put j v out)

abbrev pub try_given : String → Option Value → (Value → Option Value) → Fields → Option Fields
try_given j none rule out = some out
try_given j (some Value.null) rule out = some out
try_given j (some v) rule out = put_result j (rule v) out

abbrev pub change : String → String → Option Value → Fields → Fields → Option (Option ChangeSet)
change operation target before expected actual = some (
    some (record {
      operation = operation;
      target_name = target;
      before = before;
      expected_after = expected;
      actual_after = actual;
    }))

-- `dict(v) if isinstance(v, dict) else {}`
abbrev pub fields_of : Option Value → Fields
fields_of (some (Value.object d)) = d
fields_of v = Fields.end

abbrev pub exists_true : Fields → Fields
exists_true out = Fields.field "exists" (Value.boolean true) out

unfoldable pub characters : String → List Value
characters String.[] = []
characters (String.◌∷◌ c s) = Value.text (String.◌∷◌ c String.[]) ∷ characters s

-- What `zip` iterates over.
unfoldable pub iterated : Value → Option (List Value)
unfolding characters items keys
iterated (Value.array vs) = some (items vs)
iterated (Value.text t) = some (characters t)
iterated (Value.object d) = some (map Value.text (keys d))
iterated v = none

module _ {F : Type 0} (py : Numbers F) where
  abbrev pub name_of : Option Value → Option Value → String → String
  name_of a b default = py.show (or_else (or_next a b) (Value.text default))

  abbrev pub upper_text : Option Value → String → Value
  upper_text v default = Value.text (py.upper (py.show (or_default v (Value.text default))))

  -- `max(0.0, min(1.0, x))`
  abbrev pub clamp : F → F
  clamp x = py.max_of py.zero_float (py.min_of py.one_float x)

  abbrev float_value : Value → Option Value
  float_value v = py.to_float v >>= λ x. some (py.of_float x)

  abbrev int_value : Value → Option Value
  int_value v = py.to_int v >>= λ n. some (Value.integer n)

  unfoldable pub clamp_all : List Value → Option (List Value)
  clamp_all [] = some []
  clamp_all (v ∷ vs) =
      py.to_float v >>= λ x. clamp_all vs >>= λ ws. some (py.of_float (clamp x) ∷ ws)

  unfoldable pub create_primitive_change : Fields → Fields → Option (Option ChangeSet)
  unfolding get put
  create_primitive_change arguments result =
      change "create"
        (py.show (
          or_else
            (or_next (or_next (get "object_name" result) (get "name" arguments))
              (get "primitive_type" arguments))
            (Value.text "Primitive")))
        none
        (copy_given arguments "scale" (
          copy_given arguments "rotation" (
            copy_given arguments "location" (
              exists_true (
                Fields.field "primitive_type" (upper_text (get "primitive_type" arguments) "")
                  Fields.end)))))
        result

  unfoldable pub create_camera_change : Fields → Fields → Option (Option ChangeSet)
  unfolding get put
  create_camera_change arguments result =
      try_given "lens" (get "lens" arguments) float_value (
        copy_given arguments "rotation" (
          copy_given arguments "location"
            (exists_true (Fields.field "type" (Value.text "CAMERA") Fields.end))))
      >>= λ expected.
          change "create_camera"
            (name_of (get "object_name" result) (get "name" arguments) "Camera")
            (get "before" result)
            (put "is_active_camera"
              (Value.boolean
                (is_truthy (or_default (given (get "make_active" arguments)) (Value.boolean true))))
              expected)
            result

  -- A light type that is asked for, or that of a new light.
  abbrev with_light_type : Option Value → Option Value → Fields → Fields
  with_light_type none created out =
      if is_truthy (or_default created (Value.boolean false))
      then put "light_type" (Value.text "POINT") out
      else out
  with_light_type (some Value.null) created out = out
  with_light_type (some v) created out = put "light_type" (upper_text (some v) "") out

  abbrev light_color : Fields → List Value → Option Fields
  light_color out vs =
      if length vs == 3
      then (clamp_all vs >>= λ ws. some (put "color" (Value.array (of_list ws)) out))
      else some out

  abbrev with_light_color : Option Value → Fields → Option Fields
  with_light_color (some (Value.array vs)) out = light_color out (items vs)
  with_light_color v out = some out

  unfoldable pub create_light_change : Fields → Fields → Option (Option ChangeSet)
  unfolding get put clamp_all items of_list
  create_light_change arguments result =
      try_given "energy" (get "energy" arguments) float_value (
        copy_given arguments "rotation" (
          copy_given arguments "location" (
            with_light_type (get "light_type" arguments) (get "created" result)
              (exists_true (Fields.field "type" (Value.text "LIGHT") Fields.end)))))
      >>= λ powered. with_light_color (get "color" arguments) powered >>= λ expected.
          change "create_light" (name_of (get "object_name" result) (get "name" arguments) "Light")
            (get "before" result) expected result

  unfoldable pub set_shading_change : Fields → Fields → Option (Option ChangeSet)
  unfolding get
  set_shading_change arguments result =
      change "set_shading" (name_of (get "object_name" result) (get "name" arguments) "Unknown")
        (get "before" result)
        (exists_true (Fields.field "shading" (upper_text (get "shading" arguments) "") Fields.end))
        result

  -- The float 0.05, which is a fraction with a power of two below it.
  abbrev default_width : Value
  default_width = Value.float (pos 3602879701896397) 56

  unfoldable pub modifier_expected : String → Fields → Fields → Option Fields
  unfolding get put strip
  modifier_expected mod_type arguments out =
      if mod_type == "BEVEL"
      then (put_result "width" (float_value (or_default (get "width" arguments) default_width)) out
          >>= put_result "segments"
              (int_value (or_default (get "segments" arguments) (Value.integer (pos 2)))))
      else if mod_type == "SUBSURF"
      then put_result "levels"
          (int_value (or_default (get "levels" arguments) (Value.integer (pos 1)))) out
      else if mod_type == "BOOLEAN"
      then some (
          set_given "target_object" (get "target_object" arguments)
            (λ v. Value.text (strip (py.show v)))
            (put "operation" (upper_text (get "operation" arguments) "DIFFERENCE") out))
      else some out

  unfoldable pub add_modifier_change : Fields → Fields → Option (Option ChangeSet)
  unfolding get modifier_expected
  add_modifier_change arguments result =
      let mod_type =
        py.upper (py.show (or_default (get "modifier_type" arguments) (Value.text ""))) in
      modifier_expected mod_type arguments
        (exists_true (Fields.field "modifier_type" (Value.text mod_type) Fields.end))
      >>= λ expected.
          change "add_modifier"
            (name_of (get "object_name" result) (get "name" arguments) "Unknown")
            (get "before" result) expected result

  unfoldable pub delete_change : Fields → Fields → Option (Option ChangeSet)
  unfolding get
  delete_change arguments result =
      change "delete" (name_of (get "name" arguments) (get "object_name" result) "Unknown")
        (get "previous_state" result)
        (Fields.field "exists" (Value.boolean false)
          (Fields.field "deleted" (Value.boolean true) Fields.end))
        (Fields.field "exists" (or_default (get "exists" result) (Value.boolean false)) (
          Fields.field "deleted" (or_default (get "deleted" result) (Value.boolean true))
            Fields.end))
