-- ===== src/Agent/Runtime/Approvals.antt =====
-- approve and reject: the answer of the user to a gated tool call.
use blender_ai_sidebar.Prelude.{
  ℕ, Bool, true, false, not, String, [], ◌∷◌, Option, none, some, ◌==◌, nat_comparable,
  string_comparable, if◌then◌else◌,
}
use blender_ai_sidebar.Core.Text.{joined}
use blender_ai_sidebar.Core.Types.{ToolError, ToolResult, fail}
use blender_ai_sidebar.Agent.Policy.{PendingApproval}
use blender_ai_sidebar.Agent.StateMachine.{AgentState}
use blender_ai_sidebar.Agent.History.{HistoryKind}
use blender_ai_sidebar.Agent.Runtime.{
  Services, AgentResult, noted, approval_resolved, tool_result_ready, no_pending_approval,
  invalid_approval,
}
use blender_ai_sidebar.Agent.Runtime.Action.{
  ok, raised, M, pure, ◌>>=◌, ◌>>◌, go_to, emit, add_message, add_result,
}
use blender_ai_sidebar.Agent.Runtime.Replies.{error_value, tool_message, run_call, send}

abbrev pub is_pending : AgentState → Bool
is_pending AgentState.pending_approval = true
is_pending _ = false

abbrev pub is_turn : ℕ → Option ℕ → Bool
is_turn t none = false
is_turn t (some current) = t == current

abbrev pub rejection : String → ToolResult
rejection name =
    fail name "USER_REJECTED" (joined ("User rejected execution of tool '" ∷ name ∷ "'." ∷ []))

abbrev pub rejection_error : String → ToolError
rejection_error name = record {
  type = "USER_REJECTED";
  message = joined ("User rejected execution of tool '" ∷ name ∷ "'." ∷ []);
}

module _ {W C : Type 0} where
  -- The guards on the pending approval; `none` says that the turn was cancelled.
  unfoldable pub check_approval : ℕ → PendingApproval → M W C (Option PendingApproval)
  check_approval id p r =
      if not (p.approval_id == id)
      then (raised invalid_approval, r)
      else if not (is_turn p.turn_id r.turn_id)
      then (raised invalid_approval, r)
      else if r.cancelled
      then (ok none, record r { pending_approval = none })
      else (ok (some p), record r { pending_approval = none })

  -- The guards of `approve` and `reject`, and the consumption of the approval.
  unfoldable pub take_approval : ℕ → M W C (Option PendingApproval)
  unfolding check_approval
  take_approval id r = elim r.pending_approval [
    | none ↦ (raised no_pending_approval, r)
    | some p ↦ if is_pending r.state then check_approval id p r else (raised no_pending_approval, r)
  ]

module _ {W C : Type 0} (sv : Services W C) where
  -- An approved call is executed, and the provider is asked to go on unless it failed.
  unfoldable pub approve_call : PendingApproval → M W C (Option AgentResult)
  unfolding run_call send emit
  approve_call p = do
    emit (approval_resolved p.turn_id p.approval_id p.tool_name true)
    ended ← run_call sv p.turn_id p.tool_call p.tool_name
    elim ended [ some res ↦ pure (some res) | none ↦ send sv p.turn_id ]

  unfoldable pub approve : ℕ → M W C (Option AgentResult)
  unfolding take_approval approve_call
  approve id = do
    p ← take_approval id
    elim p [ none ↦ pure none | some pending ↦ approve_call pending ]

  unfoldable pub reject_call : PendingApproval → M W C (Option AgentResult)
  unfolding add_result add_message emit go_to send
  reject_call p = do
    emit (approval_resolved p.turn_id p.approval_id p.tool_name false)
    add_result (rejection p.tool_name)
    add_message (
        tool_message (error_value (rejection_error p.tool_name)) p.tool_call.call_id p.tool_name
          none)
    emit (noted p.turn_id HistoryKind.tool "REJECTED")
    emit (tool_result_ready p.turn_id (rejection p.tool_name))
    go_to AgentState.processing
    send sv p.turn_id

  unfoldable pub reject : ℕ → M W C (Option AgentResult)
  unfolding take_approval reject_call
  reject id = do
    p ← take_approval id
    elim p [ none ↦ pure none | some pending ↦ reject_call pending ]
