-- ===== src/Agent/Runtime/Calls.antt =====
-- What a tool call and the answer of the user to it keep: a predicate that the tool itself keeps.
use blender_ai_sidebar.Prelude.{
  ℕ, ◌≡◌, refl, sym, ap, subst, ◌∙◌, String, Option, none, nat_comparable, inl, inr, ◌⊎◌,
}
use blender_ai_sidebar.Core.Types.{Outcome, returned, ToolResult}
use blender_ai_sidebar.Agent.Models.{ToolCall}
use blender_ai_sidebar.Agent.Policy.{PendingApproval}
use blender_ai_sidebar.Agent.Runtime.{Runtime, Services}
use blender_ai_sidebar.Agent.Runtime.Execute.{execute_and_verify}
use blender_ai_sidebar.Agent.Runtime.Replies.{
  execute_call, after_call, run_call, error_value, tool_message,
}
use blender_ai_sidebar.Agent.Runtime.Approvals.{
  rejection, rejection_error, approve_call, reject_call,
}
use blender_ai_sidebar.Agent.Runtime.Quiet.{
  View, view, Keeps, Leads, bind-Leads, kept-Leads, bind-Keeps, if-Keeps, option-Keeps, pure-Keeps,
  go_to-Keeps, emit-Keeps, add_result-Keeps, add_message-Keeps, record_tool-Keeps, fail_tool-Keeps,
  send-Keeps,
}

-- The world after a call.
abbrev pub world_after : {W C : Type 0} → Services W C → Option String → String → ToolCall → W → W
world_after sv expected prompt call w = (execute_and_verify sv expected prompt call none w).1

module _ {W C : Type 0} (sv : Services W C) where
  Outcome-cases :
      (o : Outcome)
      → ((res : ToolResult) × (o ≡ returned res)) ⊎ ((text : String) × (o ≡ Outcome.raised text))
  Outcome-cases (returned res) = inl (res, refl)
  Outcome-cases (Outcome.raised text) = inr (text, refl)

  pub view-execute_call :
      (call : ToolCall) (r : Runtime W C)
      → view (execute_call sv call r).1
        ≡ record (view r) { world = world_after sv r.expected_visual r.prompt call r.world }
  unfolding execute_call
  view-execute_call call r =
      elim (Outcome-cases (execute_and_verify sv r.expected_visual r.prompt call none r.world).0) [
        | inl (res, came) ↦ rw (execute_call, came) refl
        | inr (text, came) ↦ rw (execute_call, came) refl
      ]

  -- The view after a call of a tool.
  abbrev called : ToolCall → View W → View W
  called call v = record v { world = world_after sv v.expected_visual v.prompt call v.world }

  -- Nothing in the view has changed, or one call has run.
  abbrev pub RanOnce : ToolCall → View W → View W → Type 0
  RanOnce call v v' = (v' ≡ v) ⊎ (v' ≡ called call v)

  module _ {P : View W → Type 0} where
    after_call-Keeps :
        (t : ℕ) (call : ToolCall) (name : String) (res : ToolResult)
        → Keeps P (after_call {W = W} {C = C} t call name res)
    unfolding after_call
    after_call-Keeps t call name res = bind-Keeps (record_tool-Keeps t call name res) λ _.
        if-Keeps res.success (bind-Keeps (go_to-Keeps _) λ _. pure-Keeps _) (fail_tool-Keeps t res)

    -- A call keeps what its tool keeps.
    pub run_call-Keeps :
        (t : ℕ) (call : ToolCall) (name : String)
        → ((v : View W) → P v → P (called call v))
        → Keeps P (run_call sv t call name)
    unfolding run_call
    run_call-Keeps t call name allowed = bind-Keeps (go_to-Keeps _) λ _.
        bind-Keeps
          (record { keep = λ r p. subst P (sym (view-execute_call call r)) (allowed (view r) p) })
          λ res. after_call-Keeps t call name res

    pub approve_call-Keeps :
        (p : PendingApproval)
        → ((v : View W) → P v → P (called p.tool_call v))
        → Keeps P (approve_call sv p)
    unfolding approve_call
    approve_call-Keeps p allowed = bind-Keeps (emit-Keeps _) λ _.
        bind-Keeps (run_call-Keeps p.turn_id p.tool_call p.tool_name allowed)
          λ ended. option-Keeps ended (send-Keeps sv p.turn_id) λ res. pure-Keeps _

    pub reject_call-Keeps : (p : PendingApproval) → Keeps P (reject_call sv p)
    unfolding reject_call
    reject_call-Keeps p = bind-Keeps (emit-Keeps _) λ _.
        bind-Keeps (add_result-Keeps (rejection p.tool_name)) λ _.
          bind-Keeps
            (add_message-Keeps (
              tool_message (error_value (rejection_error p.tool_name)) p.tool_call.call_id
                p.tool_name none))
            λ _. bind-Keeps (emit-Keeps _) λ _.
              bind-Keeps (emit-Keeps _) λ _. bind-Keeps (go_to-Keeps _) λ _. send-Keeps sv p.turn_id

  module _ (v : View W) where
    run_call-RanOnce :
        (t : ℕ) (call : ToolCall) (name : String)
        → Leads (λ v'. v' ≡ v) (run_call sv t call name) (RanOnce call v)
    unfolding run_call
    run_call-RanOnce t call name =
        bind-Leads (kept-Leads (go_to-Keeps _))
          (λ _.
            bind-Leads {Q = RanOnce call v}
              (record { lead = λ r p. inr (view-execute_call call r ∙ ap (called call) p) })
              (λ res. kept-Leads (after_call-Keeps t call name res)) λ v' q. q)
          λ v' p. inl p

    pub approve_call-RanOnce :
        (p : PendingApproval) → Leads (λ v'. v' ≡ v) (approve_call sv p) (RanOnce p.tool_call v)
    unfolding approve_call
    approve_call-RanOnce p =
        bind-Leads (kept-Leads (emit-Keeps _))
          (λ _.
            bind-Leads (run_call-RanOnce p.turn_id p.tool_call p.tool_name)
              (λ ended.
                kept-Leads (option-Keeps ended (send-Keeps sv p.turn_id) λ res. pure-Keeps _))
              λ v' q. q)
          λ v' p. inl p
