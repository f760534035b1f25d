-- ===== src/Core/Types.antt =====
-- core/types.py: risk levels and tool results, and RISK_ORDER and max_risk_level of
-- agent/plan_models.py.
use blender_ai_sidebar.Prelude.{
  ℕ, Bool, true, false, String, List, [], ◌∷◌, Option, none, some, ltb, if◌then◌else◌,
}
use blender_ai_sidebar.Core.Json.{Fields}

pub data RiskLevel : Type 0 where
  read_only low medium high critical : RiskLevel

pub record ToolError : Type 0 where
  pub type : String
  pub message : String

pub record ToolResult : Type 0 where
  pub success : Bool
  pub tool : String
  pub result_data : Option Fields
  pub error : Option ToolError

-- ToolResult.ok and ToolResult.fail
abbrev pub ok : String → Fields → ToolResult
ok tool fields = record { success = true; tool = tool; result_data = some fields; error = none }

abbrev pub fail : String → String → String → ToolResult
fail tool error_type message = record {
  success = false;
  tool = tool;
  result_data = none;
  error = some (record { type = error_type; message = message });
}

-- A call returns a result or raises with a message.
pub data Outcome : Type 0 where
  returned : ToolResult → Outcome
  raised : String → Outcome

-- RISK_ORDER
abbrev pub risk_order : RiskLevel → ℕ
risk_order RiskLevel.read_only = 0
risk_order RiskLevel.low = 1
risk_order RiskLevel.medium = 2
risk_order RiskLevel.high = 3
risk_order RiskLevel.critical = 4

-- `max(resolved, key=...)` returns the first of the greatest elements.
unfoldable pub max_from : RiskLevel → List RiskLevel → RiskLevel
max_from best [] = best
max_from best (r ∷ risks) =
    max_from (if ltb (risk_order best) (risk_order r) then r else best) risks

-- max_risk_level, on a list whose elements are risk levels already.
unfoldable pub max_risk_level : List RiskLevel → RiskLevel
unfolding max_from
max_risk_level [] = RiskLevel.low
max_risk_level (r ∷ risks) = max_from r risks
