-- ===== src/Agent/StateMachine/Walks.antt =====
-- The sequences of transitions that agent/state_machine.py permits, as walks through a diagram.
use blender_ai_sidebar.Prelude.{List, [], ◌∷◌}
use blender_ai_sidebar.Agent.StateMachine.{AgentState}

-- The moves of a turn.
pub data Move : AgentState → AgentState → Type 0 where
  begins : Move AgentState.idle AgentState.processing
  executes : Move AgentState.processing AgentState.executing_tool
  asks : Move AgentState.processing AgentState.pending_approval
  finishes : Move AgentState.processing AgentState.idle
  fails : Move AgentState.processing AgentState.error
  is_answered : Move AgentState.pending_approval AgentState.executing_tool
  goes_on : Move AgentState.pending_approval AgentState.processing
  is_dropped : Move AgentState.pending_approval AgentState.idle
  fails_waiting : Move AgentState.pending_approval AgentState.error
  has_executed : Move AgentState.executing_tool AgentState.processing
  fails_executing : Move AgentState.executing_tool AgentState.error
  recovers : Move AgentState.error AgentState.idle

-- A walk from a state through the targets to its end.
pub data Walk : AgentState → List AgentState → AgentState → Type 0 where
  here : {s : AgentState} → Walk s [] s
  on :
      {s next end : AgentState} {targets : List AgentState}
      → Move s next
      → Walk next targets end
      → Walk s (next ∷ targets) end
