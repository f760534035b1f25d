-- ===== src/Agent/StateMachine.antt =====
-- agent/state_machine.py: the states of a turn and the transitions between them.
pub mod Walks
use blender_ai_sidebar.Prelude.{
  ◌≤◌, ◌≡◌, refl, arith, Bool, true, false, List, [], ◌∷◌, Option, none, some, if◌then◌else◌,
  length,
}

pub data AgentState : Type 0 where
  idle processing pending_approval executing_tool error : AgentState

-- _ALLOWED_TRANSITIONS
unfoldable pub allowed : AgentState → AgentState → Bool
allowed AgentState.idle AgentState.processing = true
allowed AgentState.processing AgentState.executing_tool = true
allowed AgentState.processing AgentState.pending_approval = true
allowed AgentState.processing AgentState.idle = true
allowed AgentState.processing AgentState.error = true
allowed AgentState.pending_approval AgentState.executing_tool = true
allowed AgentState.pending_approval AgentState.processing = true
allowed AgentState.pending_approval AgentState.idle = true
allowed AgentState.pending_approval AgentState.error = true
allowed AgentState.executing_tool AgentState.processing = true
allowed AgentState.executing_tool AgentState.error = true
allowed AgentState.error AgentState.idle = true
allowed _ _ = false

-- `none` stands for InvalidStateTransitionError, which leaves the state as it is.
unfoldable pub transition_to : AgentState → AgentState → Option AgentState
unfolding allowed
transition_to target current = if allowed current target then some target else none

unfoldable pub reset : AgentState → AgentState
reset current = AgentState.idle

-- Several transitions one after the other.
unfoldable pub transitions : List AgentState → AgentState → Option AgentState
unfolding transition_to
transitions [] current = some current
transitions (target ∷ targets) current = elim (transition_to target current) [
  | none ↦ none
  | some next ↦ transitions targets next
]
