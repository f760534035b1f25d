-- ===== src/Tools/Registry.antt =====
-- tools/base.py and tools/registry.py: the contract of a tool and the registry.
use blender_ai_sidebar.Prelude.{
  ℕ, ◌≡◌, refl, arith, Bool, true, false, String, List, [], ◌∷◌, ◌++◌, Option, none, some, ◌==◌,
  string_comparable, if◌then◌else◌,
}
use blender_ai_sidebar.Core.Json.{Value, Fields}
use blender_ai_sidebar.Core.Types.{RiskLevel}

-- The parts of a JSON schema that the program reads, of a property and of the arguments.
pub record PropertySpec : Type 0 where
  pub type : Option String
  pub enum : Option (List Value)
  pub min_items : Option ℕ
  pub max_items : Option ℕ
  pub items_type : Option String

pub record Schema : Type 0 where
  pub required : List String
  pub properties : List (String × PropertySpec)
  pub additional_properties : Bool

-- A tool may override `risk_level` by `get_risk_level`, which may raise (`none`).
pub record Tool : Type 0 where
  pub name : String
  pub risk_level : RiskLevel
  pub get_risk_level : Option (Fields → Option RiskLevel)
  pub input_schema : Schema

-- The dict of tools, in the order of registration.
abbrev pub Registry : Type 0
Registry = List Tool

-- `registry.get(name) if registry.exists(name) else None`
unfoldable pub get_tool : String → Registry → Option Tool
get_tool name [] = none
get_tool name (tool ∷ registry) = if tool.name == name then some tool else get_tool name registry

unfoldable pub exists : String → Registry → Bool
unfolding get_tool
exists name registry = elim (get_tool name registry) [ none ↦ false | some tool ↦ true ]

-- `none` stands for ToolAlreadyRegisteredError.
register : Tool → Registry → Option Registry
unfolding exists
register tool registry = if exists tool.name registry then none else some (registry ++ tool ∷ [])

remove_tool : String → Registry → Registry
remove_tool name [] = []
remove_tool name (tool ∷ registry) =
    if tool.name == name then registry else tool ∷ remove_tool name registry

-- `none` stands for ToolNotFoundError.
unregister : String → Registry → Option Registry
unfolding exists remove_tool
unregister name registry = if exists name registry then some (remove_tool name registry) else none

get_tool-append :
    (name : String) (registry : Registry) (tool : Tool)
    → get_tool name registry ≡ none
    → get_tool name (registry ++ tool ∷ []) ≡ (if tool.name == name then some tool else none)
unfolding get_tool
get_tool-append name [] tool h = refl
get_tool-append name (t ∷ registry) tool h = ground (arith, get_tool-append name registry tool)
