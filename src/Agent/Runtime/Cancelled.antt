-- ===== src/Agent/Runtime/Cancelled.antt =====
-- The end of a turn by its cancellation.
use blender_ai_sidebar.Prelude.{suc, ◌≡◌, refl, true, false, ◌&&◌, none, some}
use blender_ai_sidebar.Agent.Runtime.{Runtime, Services, Event, TurnId}
use blender_ai_sidebar.Agent.Runtime.Action.{ok}
use blender_ai_sidebar.Agent.Runtime.Turns.{cancel_current_turn}
use blender_ai_sidebar.Agent.Runtime.Events.{
  turn_of, is_shutdown, is_other_turn, is_stale, process_event,
}
use blender_ai_sidebar.Agent.Runtime.Untouched.{cancel_current_turn-turn}

no_turn-other : (id : TurnId) → (is_other_turn (some id) none && true) ≡ true
no_turn-other (TurnId.turn t) = refl
no_turn-other TurnId.system = refl

module _ {W C : Type 0} (sv : Services W C) where
  -- After a cancellation every event that carries a turn id, whichever it is, and is no shutdown is
  -- only counted as stale: it has no result and changes nothing else.
  pub cancel_current_turn-stale :
      (r : Runtime W C) (event : Event) (id : TurnId)
      → turn_of event ≡ some id
      → is_shutdown event ≡ false
      → process_event sv event (cancel_current_turn r) ≡ (
        ok none,
        record (cancel_current_turn r) { stale_events = suc (cancel_current_turn r).stale_events },
      )
  unfolding process_event is_stale
  cancel_current_turn-stale r event id named no_shutdown =
      let stale : is_stale event (cancel_current_turn r).turn_id ≡ true =
        rw (is_stale, named, no_shutdown, cancel_current_turn-turn r) (no_turn-other id) in
      simp (process_event, stale)
