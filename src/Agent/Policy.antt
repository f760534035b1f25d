-- ===== src/Agent/Policy.antt =====
-- agent/policy.py: the approval policy.
use blender_ai_sidebar.Prelude.{ℕ, Bool, true, false, String, Option, none, some, if◌then◌else◌}
use blender_ai_sidebar.Core.Json.{Fields}
use blender_ai_sidebar.Core.Types.{RiskLevel}
use blender_ai_sidebar.Tools.Registry.{Tool}
use blender_ai_sidebar.Agent.Models.{ToolCall}

pub data ApprovalDecision : Type 0 where
  auto_approve require_approval : ApprovalDecision

-- _GATED_RISK_LEVELS
abbrev pub is_gated : RiskLevel → Bool
is_gated RiskLevel.read_only = false
is_gated RiskLevel.low = false
is_gated RiskLevel.medium = true
is_gated RiskLevel.high = true
is_gated RiskLevel.critical = true

-- The risk of a call: what `get_risk_level` answers, or the class attribute if it is not there or
-- raises.
unfoldable pub call_risk : Tool → Fields → RiskLevel
call_risk tool arguments = elim tool.get_risk_level [
  | none ↦ tool.risk_level
  | some ask ↦ elim (ask arguments) [ none ↦ tool.risk_level | some risk ↦ risk ]
]

-- ApprovalPolicy.evaluate
unfoldable pub evaluate : Option Tool → ToolCall → ApprovalDecision
unfolding call_risk
evaluate none call = ApprovalDecision.require_approval
evaluate (some tool) call =
    if is_gated (call_risk tool call.arguments)
    then ApprovalDecision.require_approval
    else ApprovalDecision.auto_approve

-- PendingApproval, without the description and the time.
pub record PendingApproval : Type 0 where
  pub approval_id : ℕ
  pub turn_id : ℕ
  pub tool_call : ToolCall
  pub tool_name : String
  pub risk_level : RiskLevel

-- ApprovalPolicy.create_pending_approval, with the fresh approval id as an argument.
unfoldable pub create_pending_approval : ℕ → ℕ → Option Tool → ToolCall → PendingApproval
unfolding call_risk
create_pending_approval fresh turn_id tool call = record {
  approval_id = fresh;
  turn_id = turn_id;
  tool_call = call;
  tool_name = call.tool_name;
  risk_level = elim tool [ none ↦ RiskLevel.high | some t ↦ call_risk t call.arguments ];
}
