-- ===== src/Plan/Executor/Dispatch.antt =====
-- The calls of an accepted plan against agent/dispatcher.py.
use blender_ai_sidebar.Prelude.{String, List, some, ◌≡◌}
use blender_ai_sidebar.Core.Json.{Fields}
use blender_ai_sidebar.Core.Types.{Outcome}
use blender_ai_sidebar.Tools.Registry.{Tool, Registry, get_tool}
use blender_ai_sidebar.Agent.Dispatcher.{run_tool, dispatch}
use blender_ai_sidebar.Plan.Models.{PlanStep, Plan}
use blender_ai_sidebar.Plan.Executor.{Engine, call_of}

module _ {W : Type 0} (execute : Tool → Fields → W → Outcome × W) (show : List String → String)
    (engine : Engine W) (registry : Registry) where
  -- The dispatcher executes the call of the step, in every world.
  pub record IsDispatched (s : PlanStep) : Type 0 where
    pub tool : Tool
    pub registered : get_tool s.tool_name registry ≡ some tool
    pub executed :
        (w : W)
        → dispatch execute show registry (call_of engine s) w
          ≡ run_tool execute show tool (call_of engine s) w
