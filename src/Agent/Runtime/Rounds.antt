-- ===== src/Agent/Runtime/Rounds.antt =====
-- The limit on the rounds of tool calls of a turn.
use blender_ai_sidebar.Prelude.{ℕ, suc, ◌≡◌, refl, sym, subst, true, ltb, ◌≤◌, arith}
use blender_ai_sidebar.Agent.Runtime.{Runtime, Services, Event, Response}
use blender_ai_sidebar.Agent.Runtime.Action.{◌>>=◌}
use blender_ai_sidebar.Agent.Runtime.Replies.{fail_turn}
use blender_ai_sidebar.Agent.Runtime.Events.{rounds_message, start_round, process_event}
use blender_ai_sidebar.Agent.Runtime.Quiet.{View, view, Keeps, fail_turn-Keeps}
use blender_ai_sidebar.Agent.Runtime.Handlers.{process_event-Keeps}

module _ {W C : Type 0} (sv : Services W C) where
  -- The rounds are used up, and the world is `w`.
  abbrev Stopped : W → View W → Type 0
  Stopped w v = (v.world ≡ w) × (sv.max_tool_rounds ≤ v.tool_round)

  start_round-stopped :
      (t : ℕ) (resp : Response) (r : Runtime W C)
      → sv.max_tool_rounds ≤ r.tool_round
      → start_round sv t resp r
        ≡ fail_turn t "MAX_TOOL_ROUNDS_EXCEEDED"
            (rounds_message sv)
            (record r { tool_round = suc r.tool_round })
  unfolding start_round ◌>>=◌
  start_round-stopped t resp r full =
      let over : ltb sv.max_tool_rounds (suc r.tool_round) ≡ true = ground arith in rw over refl

  start_round-Stopped :
      (w : W) (t : ℕ) (resp : Response) → Keeps (Stopped w) (start_round sv t resp)
  start_round-Stopped w t resp = record {
    keep = λ r (still, full).
        subst (λ x. Stopped w (view x.1)) (sym (start_round-stopped t resp r full))
          ((fail_turn-Keeps {P = Stopped w} t "MAX_TOOL_ROUNDS_EXCEEDED" (rounds_message sv)).keep
            (record r { tool_round = suc r.tool_round }) (still, omega arith));
  }

  -- In a turn that has had its `max_tool_rounds` rounds of tool calls no event changes the world.
  pub process_event-stops :
      (event : Event) (r : Runtime W C)
      → sv.max_tool_rounds ≤ r.tool_round
      → (process_event sv event r).1.world ≡ r.world
  process_event-stops event r full =
      (process_event-Keeps sv {P = Stopped r.world} (start_round-Stopped r.world) event r
        (refl, full)).0
