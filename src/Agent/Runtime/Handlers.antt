-- ===== src/Agent/Runtime/Handlers.antt =====
-- The handlers of process_event keep what a round of tool calls keeps.
use blender_ai_sidebar.Prelude.{
  ℕ, refl, Bool, true, false, ◌||◌, String, List, [], ◌∷◌, Option, none, some, if◌then◌else◌, ◌==◌,
  nat_comparable, string_comparable, Bool-cases, inl, inr,
}
use blender_ai_sidebar.Agent.Models.{ToolCall}
use blender_ai_sidebar.Agent.Runtime.{Runtime, Services, Event, Response}
use blender_ai_sidebar.Agent.Runtime.Action.{ok, M}
use blender_ai_sidebar.Agent.Runtime.Events.{
  assistant_message, finish_turn, start_round, answer_response, handle_response,
  handle_provider_error, handle_agent_error, completed_response, handle, is_stale, process_event,
}
use blender_ai_sidebar.Agent.Runtime.Quiet.{
  View, view, Keeps, bind-Keeps, pure-Keeps, gets-Keeps, modify-Keeps, go_to-Keeps, emit-Keeps,
  add_message-Keeps, report_error-Keeps, close_turn-Keeps,
}

module _ {W C : Type 0} (sv : Services W C) {P : View W → Type 0} where
  module _ {B : Type 0} {m k : M W C B} where
    calls_or_end-Keeps :
        (calls : List ToolCall)
        → Keeps P m
        → Keeps P k
        → Keeps P (elim calls as (λ x. M W C B) [ [] ↦ m | call ∷ rest ↦ k ])
    calls_or_end-Keeps [] hm hk = hm
    calls_or_end-Keeps (call ∷ rest) hm hk = hk

  -- A handler that does nothing where the test holds.
  guard-Keeps :
      {A : Type 0} {m : M W C A} (a : A) (test : Runtime W C → Bool)
      → Keeps P m
      → Keeps P (λ r. if test r then (ok a, r) else m r)
  guard-Keeps {m = m} a test h = record {
    keep = λ r q. elim (test r) as (λ b. P (view (if b then (ok a, r) else m r).1)) [
      | true ↦ q
      | false ↦ h.keep r q
    ];
  }

  handle_provider_error-Keeps :
      (t : ℕ) (type message : String) → Keeps P (handle_provider_error sv t type message)
  unfolding handle_provider_error
  handle_provider_error-Keeps t type message =
      guard-Keeps none (λ r. type == "CANCELLED" || r.cancelled)
        (bind-Keeps (go_to-Keeps _) λ _. close_turn-Keeps _ _ (report_error-Keeps t _ message))

  handle_agent_error-Keeps : (t : ℕ) (message : String) → Keeps P (handle_agent_error sv t message)
  unfolding handle_agent_error
  handle_agent_error-Keeps t message =
      bind-Keeps (go_to-Keeps _) λ _. close_turn-Keeps _ _ (emit-Keeps _)

  finish_turn-Keeps : (t : ℕ) (resp : Option Response) → Keeps P (finish_turn sv t resp)
  unfolding finish_turn
  finish_turn-Keeps t resp = bind-Keeps (go_to-Keeps _) λ _. bind-Keeps (gets-Keeps _) λ text.
      bind-Keeps (modify-Keeps _ λ r. refl) λ _.
        bind-Keeps (add_message-Keeps (assistant_message (some text) [])) λ _.
          bind-Keeps (gets-Keeps _) λ results. bind-Keeps (modify-Keeps _ λ r. refl) λ _.
            bind-Keeps (emit-Keeps _) λ _.
              bind-Keeps (emit-Keeps _) λ _. bind-Keeps (modify-Keeps _ λ r. refl) λ _. pure-Keeps _

  module _ (rounds : (t : ℕ) (resp : Response) → Keeps P (start_round sv t resp)) where
    answer_response-Keeps : (t : ℕ) (resp : Option Response) → Keeps P (answer_response sv t resp)
    unfolding answer_response
    answer_response-Keeps t none = finish_turn-Keeps t none
    answer_response-Keeps t (some resp) =
        calls_or_end-Keeps resp.tool_calls (finish_turn-Keeps t (some resp)) (rounds t resp)

    handle_response-Keeps : (t : ℕ) (resp : Option Response) → Keeps P (handle_response sv t resp)
    unfolding handle_response
    handle_response-Keeps t resp =
        guard-Keeps none (λ r. r.cancelled) (answer_response-Keeps t resp)

    handle-Keeps : (event : Event) (r : Runtime W C) → P (view r) → P (view (handle sv event r).1)
    unfolding handle
    handle-Keeps (Event.streaming_text_delta t delta) r q = q
    handle-Keeps (Event.text_delta t text) r q = q
    handle-Keeps (Event.tool_call_delta t) r q = q
    handle-Keeps (Event.provider_error t type message) r q =
        (handle_provider_error-Keeps t type message).keep r q
    handle-Keeps (Event.provider_completed t) r q =
        (handle_response-Keeps t (some (completed_response sv r))).keep r q
    handle-Keeps (Event.provider_response_ready t resp) r q =
        (handle_response-Keeps t resp).keep r q
    handle-Keeps (Event.agent_error t type message) r q =
        (handle_agent_error-Keeps t message).keep r q
    handle-Keeps (Event.shutdown_event id) r q = q
    handle-Keeps (Event.unhandled t) r q = q

    pub process_event-Keeps :
        (event : Event) (r : Runtime W C) → P (view r) → P (view (process_event sv event r).1)
    unfolding process_event
    process_event-Keeps event r q = elim (Bool-cases (is_stale event r.turn_id)) [
      | inl stale ↦ rw (process_event, stale) q
      | inr current ↦ rw (process_event, current) (handle-Keeps event r q)
    ]
