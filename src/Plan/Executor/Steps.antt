-- ===== src/Plan/Executor/Steps.antt =====
-- The loop of PlanExecutor.execute_plan, and `execute_plan` itself.
use blender_ai_sidebar.Prelude.{
  ℕ, Bool, true, false, String, List, [], ◌∷◌, ◌++◌, Option, none, some, ◌==◌, string_comparable,
  if◌then◌else◌, contains, length,
}
use blender_ai_sidebar.Core.Json.{Value, get, items}
use blender_ai_sidebar.Core.Types.{ToolResult}
use blender_ai_sidebar.Tools.Registry.{Tool, Registry, get_tool}
use blender_ai_sidebar.Agent.Policy.{ApprovalDecision, evaluate}
use blender_ai_sidebar.Plan.Models.{PlanStep, Plan, PlanStepStatus, PlanStatus, StepResult, Summary}
use blender_ai_sidebar.Plan.Validator.{PlanError}
use blender_ai_sidebar.Plan.Validator.Checks.{RawPlan, plan_object, dict, validate}
use blender_ai_sidebar.Plan.Executor.{Engine, call_of, execute_step, caught}

pub data Reason : Type 0 where
  validation_failed : List PlanError → Reason
  forbidden_step unmet_dependencies missing_tool rejected : String → Reason
  step_failed : String → String → Reason

-- The variables of the loop. `completed` is a set; a member is added once.
pub record Loop (W : Type 0) : Type 0 where
  pub completed : List String
  pub results : List StepResult
  pub failure : Option Reason
  pub has_failed : Bool
  pub world : W

abbrev pub result_of : PlanStep → PlanStepStatus → Option ToolResult → StepResult
result_of s status res = record {
  step_id = s.step_id;
  tool_name = s.tool_name;
  status = status;
  tool_result = res;
}

abbrev pub insert_id : String → List String → List String
insert_id x xs = if contains x xs then xs else x ∷ xs

unfoldable pub unmet_deps : List String → List String → List String
unmet_deps completed [] = []
unmet_deps completed (d ∷ deps) =
    if contains d completed then unmet_deps completed deps else d ∷ unmet_deps completed deps

abbrev pub error_message : ToolResult → String
error_message res = elim res.error [ none ↦ "Step execution failed" | some e ↦ e.message ]

-- What a step does once its dependencies and its tool are there: the approval, the execution, and
-- the status, the tool result and the reason of a failure.
pub record Performed (W : Type 0) : Type 0 where
  pub status : PlanStepStatus
  pub tool_result : Option ToolResult
  pub failure : Option Reason
  pub world : W

module _ {W : Type 0} (engine : Engine W) where
  unfoldable pub run_tool : PlanStep → W → Performed W
  unfolding execute_step
  run_tool s w =
      let (outcome, w') = execute_step engine s w in
      let res = caught engine s outcome in
      if res.success
      then record {
        status = PlanStepStatus.completed;
        tool_result = some res;
        failure = none;
        world = w';
      }
      else record {
        status = PlanStepStatus.failed;
        tool_result = some res;
        failure = some (step_failed s.step_id (error_message res));
        world = w';
      }

  -- The answer of the approval hook; without a hook a gated step runs.
  unfoldable pub is_approved : PlanStep → Tool → W → Bool × W
  unfolding evaluate
  is_approved s tool w =
      if engine.uses_policy
      then (elim (evaluate (some tool) (call_of engine s)) [
        | ApprovalDecision.auto_approve ↦ (true, w)
        | ApprovalDecision.require_approval ↦ elim engine.approval_hook [
          | none ↦ (true, w)
          | some ask ↦ ask s tool w
        ]
      ])
      else (true, w)

  unfoldable pub perform : PlanStep → Tool → W → Performed W
  unfolding is_approved run_tool
  perform s tool w =
      let (approved, w') = is_approved s tool w in
      if approved then run_tool s w' else record {
        status = PlanStepStatus.cancelled;
        tool_result = none;
        failure = some (rejected s.step_id);
        world = w';
      }

  unfoldable pub record_step : PlanStep → Performed W → Loop W → Loop W
  record_step s p l = record {
    completed = elim p.failure [ none ↦ insert_id s.step_id l.completed | some r ↦ l.completed ];
    results = l.results ++ result_of s p.status p.tool_result ∷ [];
    failure = elim p.failure [ none ↦ l.failure | some r ↦ some r ];
    has_failed = elim p.failure [ none ↦ l.has_failed | some r ↦ true ];
    world = p.world;
  }

  -- A step that ends without being performed.
  unfoldable pub give_up : PlanStep → PlanStepStatus → Reason → Loop W → Loop W
  give_up s status reason l = record l {
    results = l.results ++ result_of s status none ∷ [];
    failure = some reason;
    has_failed = true;
  }

  unfoldable pub visit : Registry → PlanStep → Loop W → Loop W
  unfolding perform record_step give_up unmet_deps
  visit registry s l =
      if l.has_failed
      then record l { results = l.results ++ result_of s PlanStepStatus.skipped none ∷ [] }
      else elim (unmet_deps l.completed s.depends_on) [
        | d ∷ deps ↦ give_up s PlanStepStatus.skipped (unmet_dependencies s.step_id) l
        | [] ↦ elim (get_tool s.tool_name registry) [
          | none ↦ give_up s PlanStepStatus.failed (missing_tool s.step_id) l
          | some tool ↦ record_step s (perform s tool l.world) l
        ]
      ]

  unfoldable pub run_steps : Registry → List PlanStep → Loop W → Loop W
  unfolding visit
  run_steps registry [] l = l
  run_steps registry (s ∷ steps) l = run_steps registry steps (visit registry s l)

  abbrev pub start : W → Loop W
  start w = record { completed = []; results = []; failure = none; has_failed = false; world = w }

  abbrev pub failed_summary : String → ℕ → Reason → Summary Reason
  failed_summary plan_id total reason = record {
    plan_id = plan_id;
    status = PlanStatus.failed;
    steps_total = total;
    steps_completed = 0;
    step_results = [];
    failure_reason = some reason;
  }

  unfoldable pub summarize : Plan → Loop W → Summary Reason
  summarize plan l = record {
    plan_id = plan.plan_id;
    status = if l.has_failed then PlanStatus.failed else PlanStatus.completed;
    steps_total = length plan.steps;
    steps_completed = length l.completed;
    step_results = l.results;
    failure_reason = l.failure;
  }

  -- 2. The first step that names the forbidden meta-tool.
  unfoldable pub forbidden : List PlanStep → Option String
  forbidden [] = none
  forbidden (s ∷ steps) = if s.tool_name == "propose_plan" then some s.step_id else forbidden steps

  -- The id and the number of steps that a failed validation reports; `show` is Python's `str`.
  pub reported_id : (Value → String) → RawPlan → String
  reported_id show (plan_object plan) = plan.plan_id
  reported_id show (dict d) = elim (get "plan_id" d) [ none ↦ "unvalidated_plan" | some v ↦ show v ]
  reported_id show _ = "unvalidated_plan"

  pub reported_total : RawPlan → ℕ
  reported_total (plan_object plan) = length plan.steps
  reported_total (dict d) = elim (get "steps" d) [
    | some (Value.array vs) ↦ length (items vs)
    | _ ↦ 0
  ]
  reported_total _ = 0

  unfoldable pub run_plan : Registry → Plan → W → Summary Reason × W
  unfolding forbidden run_steps summarize
  run_plan registry plan w = elim (forbidden plan.steps) [
    | some step_id ↦ (failed_summary plan.plan_id (length plan.steps) (forbidden_step step_id), w)
    | none ↦ let l = run_steps registry plan.steps (start w) in (summarize plan l, l.world)
  ]

  -- execute_plan. `none` stands for an exception of the validator, which does not arise.
  unfoldable pub execute_plan :
      (Value → String) → Registry → String → RawPlan → W → Option (Summary Reason × W)
  unfolding validate reported_id reported_total run_plan
  execute_plan show registry fresh raw w = elim (validate registry fresh raw) [
    | none ↦ none
    | some result ↦ elim result.plan [
      | none ↦ some (
        failed_summary (reported_id show raw) (reported_total raw)
            (validation_failed result.errors),
        w,
      )
      | some plan ↦ some (run_plan registry plan w)
    ]
  ]
