-- ===== src/Agent/Runtime/Action.antt =====
-- The methods of the runtime: they change its state and return or raise. What was written before an
-- exception stays written.
use blender_ai_sidebar.Prelude.{[], ◌∷◌, ◌++◌, none, some}
use blender_ai_sidebar.Core.Types.{ToolResult}
use blender_ai_sidebar.Agent.Models.{ChatMessage, make_message}
use blender_ai_sidebar.Agent.StateMachine.{AgentState, transition_to}
use blender_ai_sidebar.Agent.Runtime.{
  Runtime, Effect, Exception, invalid_transition, invalid_message,
}

pub data Result (A : Type 0) : Type 0 where
  ok : A → Result A
  raised : Exception → Result A

-- `M W C A` is a method that returns an `A`.
abbrev pub M : Type 0 → Type 0 → Type 0 → Type 0
M W C A = Runtime W C → Result A × Runtime W C

module _ {W C : Type 0} where
  abbrev pub pure : {A : Type 0} → A → M W C A
  pure a r = (ok a, r)

  abbrev pub raise : {A : Type 0} → Exception → M W C A
  raise e r = (raised e, r)

  abbrev pub next : {A B : Type 0} → (A → M W C B) → Result A → M W C B
  next f (ok a) r = f a r
  next f (raised e) r = (raised e, r)

  infixl 5 ◌>>=◌ ◌>>◌
  unfoldable pub ◌>>=◌ : {A B : Type 0} → M W C A → (A → M W C B) → M W C B
  ◌>>=◌ m f r = next f (m r).0 (m r).1

  abbrev pub ◌>>◌ : {A B : Type 0} → M W C A → M W C B → M W C B
  m >> k = m >>= λ _. k

  abbrev pub gets : {A : Type 0} → (Runtime W C → A) → M W C A
  gets f r = (ok (f r), r)

  abbrev pub modify : (Runtime W C → Runtime W C) → M W C (Unit {0})
  modify f r = (ok tt, f r)

  -- `try`, with the exception as a value.
  abbrev pub attempt : {A : Type 0} → M W C A → M W C (Result A)
  attempt m r = (ok (m r).0, (m r).1)

  -- state_machine.transition_to
  unfoldable pub go_to : AgentState → M W C (Unit {0})
  unfolding transition_to
  go_to target r = elim (transition_to target r.state) [
    | none ↦ (raised (invalid_transition r.state target), r)
    | some state ↦ (ok tt, record r { state = state })
  ]

  unfoldable pub emit : Effect C → M W C (Unit {0})
  emit e r = (ok tt, record r { effects = r.effects ++ e ∷ [] })

  -- conversation.add_message(ChatMessage(...))
  unfoldable pub add_message : ChatMessage → M W C (Unit {0})
  unfolding make_message
  add_message m r = elim (make_message m) [
    | none ↦ (raised invalid_message, r)
    | some made ↦ (ok tt, record r { conversation = r.conversation ++ made ∷ [] })
  ]

  unfoldable pub add_result : ToolResult → M W C (Unit {0})
  add_result res r = (ok tt, record r { tool_results = r.tool_results ++ res ∷ [] })
