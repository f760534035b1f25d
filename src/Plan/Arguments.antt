-- ===== src/Plan/Arguments.antt =====
-- validate_tool_arguments of agent/plan_validator.py: the check of arguments against the schema of
-- a tool. Each error text is a constructor.
use blender_ai_sidebar.Prelude.{
  ℕ, suc, Bool, true, false, String, List, [], ◌∷◌, ◌++◌, map, Option, none, some, ◌==◌,
  string_comparable, if◌then◌else◌, ltb, length, contains, ◌||◌,
}
use blender_ai_sidebar.Core.Json.{Value, Fields, has_key, keys, items, entries, eq_value}
use blender_ai_sidebar.Tools.Registry.{PropertySpec, Schema}

pub data ArgumentError : Type 0 where
  missing unexpected not_in_enum wrong_type too_short too_long : String → ArgumentError
  wrong_item_type : String → ℕ → ArgumentError

-- 1. Required properties check
unfoldable pub missing_errors : List String → Fields → List ArgumentError
missing_errors [] arguments = []
missing_errors (f ∷ required) arguments =
    if has_key f arguments
    then missing_errors required arguments
    else ArgumentError.missing f ∷ missing_errors required arguments

-- 2. Additional properties check
unfoldable pub unexpected_errors : List String → List String → List ArgumentError
unexpected_errors allowed [] = []
unexpected_errors allowed (arg ∷ args) =
    if contains arg allowed
    then unexpected_errors allowed args
    else ArgumentError.unexpected arg ∷ unexpected_errors allowed args

-- `isinstance(v, ...)` for the name of a JSON type; `bool` is no number here.
abbrev is_text : Value → Bool
is_text (Value.text s) = true
is_text _ = false

abbrev is_integer : Value → Bool
is_integer (Value.integer n) = true
is_integer _ = false

abbrev is_number : Value → Bool
is_number (Value.integer n) = true
is_number (Value.float n k) = true
is_number _ = false

abbrev is_boolean : Value → Bool
is_boolean (Value.boolean b) = true
is_boolean _ = false

abbrev is_object : Value → Bool
is_object (Value.object d) = true
is_object _ = false

-- The types that are checked alike for a property and for an item of an array.
has_basic_type : String → Value → Bool
has_basic_type t v =
    if t == "string"
    then is_text v
    else if t == "number"
    then is_number v
    else if t == "integer"
    then is_integer v
    else if t == "boolean"
    then is_boolean v
    else true

item_errors : String → Option String → ℕ → List Value → List ArgumentError
unfolding has_basic_type
item_errors name none idx vs = []
item_errors name (some t) idx [] = []
item_errors name (some t) idx (v ∷ vs) =
    if has_basic_type t v
    then item_errors name (some t) (suc idx) vs
    else ArgumentError.wrong_item_type name idx ∷ item_errors name (some t) (suc idx) vs

abbrev below_min : ℕ → Option ℕ → Bool
below_min n none = false
below_min n (some k) = ltb n k

abbrev above_max : ℕ → Option ℕ → Bool
above_max n none = false
above_max n (some k) = ltb k n

array_errors : String → PropertySpec → List Value → List ArgumentError
unfolding item_errors
array_errors name spec vs =
    (if below_min (length vs) spec.min_items then ArgumentError.too_short name ∷ [] else [])
    ++ ((if above_max (length vs) spec.max_items then ArgumentError.too_long name ∷ [] else [])
        ++ item_errors name spec.items_type 0 vs)

array_value_errors : String → PropertySpec → Value → List ArgumentError
unfolding array_errors
array_value_errors name spec (Value.array vs) = array_errors name spec (items vs)
array_value_errors name spec v = ArgumentError.wrong_type name ∷ []

type_errors : String → PropertySpec → Option String → Value → List ArgumentError
unfolding array_value_errors has_basic_type
type_errors name spec none v = []
type_errors name spec (some t) v =
    if t == "array"
    then array_value_errors name spec v
    else if t == "object"
    then (if is_object v then [] else ArgumentError.wrong_type name ∷ [])
    else if has_basic_type t v
    then []
    else ArgumentError.wrong_type name ∷ []

-- `v in p_spec["enum"]`
is_member : Value → List Value → Bool
is_member v [] = false
is_member v (w ∷ ws) = eq_value v w || is_member v ws

enum_errors : String → Option (List Value) → Value → List ArgumentError
unfolding is_member eq_value
enum_errors name none v = []
enum_errors name (some ws) v = if is_member v ws then [] else ArgumentError.not_in_enum name ∷ []

unfoldable pub find_property : String → List (String × PropertySpec) → Option PropertySpec
find_property name [] = none
find_property name ((p, spec) ∷ properties) =
    if p == name then some spec else find_property name properties

-- 3. Property types, enums, and bounds check
property_errors : List (String × PropertySpec) → List (String × Value) → List ArgumentError
unfolding find_property enum_errors type_errors
property_errors properties [] = []
property_errors properties ((name, v) ∷ arguments) =
    elim (find_property name properties) [
      | none ↦ []
      | some spec ↦ enum_errors name spec.enum v ++ type_errors name spec spec.type v
    ]
    ++ property_errors properties arguments

abbrev pub property_names : List (String × PropertySpec) → List String
property_names properties = map (λ p. p.0) properties

unfoldable pub validate_tool_arguments : Schema → Fields → List ArgumentError
unfolding missing_errors unexpected_errors property_errors
validate_tool_arguments schema arguments =
    missing_errors schema.required arguments
    ++ ((if schema.additional_properties
          then []
          else unexpected_errors (property_names schema.properties) (keys arguments))
        ++ property_errors schema.properties (entries arguments))
