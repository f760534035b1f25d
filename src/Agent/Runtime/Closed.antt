-- ===== src/Agent/Runtime/Closed.antt =====
-- The handlers of process_event keep what the calls and plans keep that need no answer of the user.
use blender_ai_sidebar.Prelude.{
  ℕ, ◌≡◌, refl, not, String, List, [], ◌∷◌, Option, some, if◌then◌else◌, ◌==◌, nat_comparable,
  string_comparable, ltb,
}
use blender_ai_sidebar.Tools.Registry.{get_tool}
use blender_ai_sidebar.Agent.Models.{ToolCall}
use blender_ai_sidebar.Agent.Policy.{ApprovalDecision, evaluate}
use blender_ai_sidebar.Plan.Review.{PlanReview}
use blender_ai_sidebar.Agent.Runtime.{Runtime, Services, Event, Response}
use blender_ai_sidebar.Agent.Runtime.Action.{M, pure}
use blender_ai_sidebar.Agent.Runtime.Events.{
  Progress, go_on, stop, assistant_message, solid, rounds_message, end_round, make_pending,
  ask_user, decide, run_one, run_calls, run_round, start_round, process_event,
}
use blender_ai_sidebar.Agent.Runtime.Quiet.{
  On, Keeps, bind-Keeps, if-Keeps, pure-Keeps, gets-Keeps, modify-Keeps, go_to-Keeps, emit-Keeps,
  add_message-Keeps, fail_turn-Keeps, send-Keeps,
}
use blender_ai_sidebar.Agent.Runtime.Calls.{world_after, run_call-Keeps}
use blender_ai_sidebar.Agent.Runtime.Executed.{PlanRan}
use blender_ai_sidebar.Agent.Runtime.LowRisk.{NeedsNoAnswer}
use blender_ai_sidebar.Agent.Runtime.Proposals.{propose-Keeps}
use blender_ai_sidebar.Agent.Runtime.Handlers.{process_event-Keeps}

module _ {W C : Type 0} (sv : Services W C) (Q : W → Type 0) where
  progress-Keeps :
      {m : M W C Progress} (progress : Progress)
      → Keeps (On Q) m
      → Keeps
          (On Q)
          (elim progress as (λ x. M W C Progress) [ stop res ↦ pure (stop res) | go_on ↦ m ])
  progress-Keeps (stop res) h = pure-Keeps _
  progress-Keeps go_on h = h

  ask_user-Keeps : (t : ℕ) (call : ToolCall) → Keeps (On Q) (ask_user sv t call)
  unfolding ask_user
  ask_user-Keeps t call = bind-Keeps (gets-Keeps (make_pending sv t call)) λ p.
      bind-Keeps (record { keep = λ r q. q })
        λ _.
          bind-Keeps (go_to-Keeps _)
            λ _. bind-Keeps (emit-Keeps _) λ _. bind-Keeps (emit-Keeps _) λ _. pure-Keeps _

  module _
      (tools : (call : ToolCall)
        → evaluate (get_tool call.tool_name sv.registry) call ≡ ApprovalDecision.auto_approve
        → (expected : Option String) (prompt : String) (w : W) → Q w
        → Q (world_after sv expected prompt call w))
      (plans : (review : PlanReview)
        → NeedsNoAnswer sv review
        → (expected : Option String) (prompt : String) (w w' : W)
        → PlanRan sv expected prompt review w w'
        → Q w
        → Q w') where
    decide-Keeps :
        (t : ℕ) (call : ToolCall) (decision : ApprovalDecision)
        → evaluate (get_tool call.tool_name sv.registry) call ≡ decision
        → Keeps (On Q) (decide sv t call decision)
    unfolding decide
    decide-Keeps t call ApprovalDecision.require_approval gated = ask_user-Keeps t call
    decide-Keeps t call ApprovalDecision.auto_approve free =
        bind-Keeps
          (run_call-Keeps sv t call call.tool_name
            λ v. tools call free v.expected_visual v.prompt v.world)
          λ ended. pure-Keeps _

    run_one-Keeps : (t : ℕ) (call : ToolCall) → Keeps (On Q) (run_one sv t call)
    unfolding run_one
    run_one-Keeps t call = bind-Keeps (gets-Keeps _) λ cancelled.
        if-Keeps cancelled (pure-Keeps _) (
          if-Keeps (call.tool_name == "propose_plan") (propose-Keeps sv Q plans t call)
            (decide-Keeps t call _ refl))

    run_calls-Keeps : (t : ℕ) (calls : List ToolCall) → Keeps (On Q) (run_calls sv t calls)
    unfolding run_calls
    run_calls-Keeps t [] = pure-Keeps go_on
    run_calls-Keeps t (call ∷ calls) =
        bind-Keeps (run_one-Keeps t call)
          λ progress. progress-Keeps progress (run_calls-Keeps t calls)

    end_round-Keeps : (t : ℕ) (progress : Progress) → Keeps (On Q) (end_round sv t progress)
    unfolding end_round
    end_round-Keeps t (stop res) = pure-Keeps _
    end_round-Keeps t go_on =
        bind-Keeps (gets-Keeps _) λ cancelled. if-Keeps cancelled (pure-Keeps _) (send-Keeps sv t)

    run_round-Keeps : (t : ℕ) (resp : Response) → Keeps (On Q) (run_round sv t resp)
    unfolding run_round
    run_round-Keeps t resp = bind-Keeps (gets-Keeps _) λ streamed.
        bind-Keeps
          (add_message-Keeps (
            assistant_message
              (if not (streamed == "") then some streamed else solid resp.assistant_text)
              resp.tool_calls))
          λ _. bind-Keeps (modify-Keeps _ λ r. refl) λ _.
            bind-Keeps (run_calls-Keeps t resp.tool_calls) λ progress. end_round-Keeps t progress

    start_round-Keeps : (t : ℕ) (resp : Response) → Keeps (On Q) (start_round sv t resp)
    unfolding start_round
    start_round-Keeps t resp =
        bind-Keeps (record { keep = λ r q. q })
          λ _. bind-Keeps (gets-Keeps _) λ round.
            if-Keeps (ltb sv.max_tool_rounds round)
              (fail_turn-Keeps t "MAX_TOOL_ROUNDS_EXCEEDED" (rounds_message sv))
              (run_round-Keeps t resp)

    pub process_event-Closed :
        (event : Event) (r : Runtime W C) → Q r.world → Q (process_event sv event r).1.world
    process_event-Closed event r q = process_event-Keeps sv {P = On Q} start_round-Keeps event r q
