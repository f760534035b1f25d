-- ===== src/Plan/Executor/Results.antt =====
-- What PlanExecutor.execute_plan returns, on every input.
use blender_ai_sidebar.Prelude.{
  ℕ, ◌≡◌, ◌≢◌, refl, ap, arith, Bool, false, String, List, [], ◌∷◌, map, Option, none, some,
  if◌then◌else◌, length, length-map, count, contains, Option-cases, inl, inr, ◌⊎◌, All, ◌∙◌,
  string_comparable, eq_iff,
}
use blender_ai_sidebar.Core.Text.{is_blank}
use blender_ai_sidebar.Core.Json.{Value}
use blender_ai_sidebar.Core.Types.{RiskLevel}
use blender_ai_sidebar.Tools.Registry.{Registry}
use blender_ai_sidebar.Plan.Models.{PlanStep, Plan, PlanStatus, StepResult, Summary}
use blender_ai_sidebar.Plan.Validator.{PlanError, ids}
use blender_ai_sidebar.Plan.Validator.Checks.{RawPlan}
use blender_ai_sidebar.Plan.Validator.Accept.{IsGoodStep, IsExecutable}
use blender_ai_sidebar.Plan.Validator.Verdict.{validate-Verdict}
use blender_ai_sidebar.Plan.Executor.{Engine}
use blender_ai_sidebar.Plan.Executor.Steps.{
  Reason, validation_failed, run_steps, start, failed_summary, summarize, forbidden, reported_id,
  reported_total, run_plan, execute_plan,
}
use blender_ai_sidebar.Plan.Executor.Refine.{
  Report, IsReady, is_failure, report, Agrees, run_steps-Agrees,
}
use blender_ai_sidebar.Plan.Executor.FailFast.{
  completed_count, IsFailFast, finished, status_of, IsFaithful, report-IsFaithful,
}

-- The summary of the run of a plan, by its report.
abbrev pub reported : {W : Type 0} → Plan → Report W → Summary Reason
reported plan r = record {
  plan_id = plan.plan_id;
  status = status_of r.failure;
  steps_total = length plan.steps;
  steps_completed = r.done;
  step_results = r.results;
  failure_reason = r.failure;
}

-- A plan that was accepted and performed, or input that was refused without effects.
pub data Ended {W : Type 0} (engine : Engine W) (registry : Registry) (w : W)
    : Option (Summary Reason × W) → Type 0 where
  performed :
      {o : Option (Summary Reason × W)}
      → (plan : Plan) → IsExecutable registry plan
      → o
        ≡ some (
          reported plan (report engine registry plan.steps w),
          (report engine registry plan.steps w).world,
        )
      → Ended engine registry w o
  refused :
      {o : Option (Summary Reason × W)}
      → (plan_id : String) (total : ℕ) (e : PlanError) (es : List PlanError)
      → o ≡ some (failed_summary engine plan_id total (validation_failed (e ∷ es)), w)
      → Ended engine registry w o

forbidden-eq_none :
    (registry : Registry) (risk : RiskLevel) (steps : List PlanStep)
    → All (IsGoodStep registry risk) steps
    → {W : Type 0} → (engine : Engine W) → forbidden engine steps ≡ none
unfolding forbidden
forbidden-eq_none registry risk [] good engine = refl
forbidden-eq_none registry risk (s ∷ steps) good engine = ground (
  arith,
  eq_iff s.tool_name "propose_plan",
  good.0.clean.not_nested,
  forbidden-eq_none registry risk steps good.1 engine,
)

status-status_of :
    (b : Bool) (failure : Option Reason)
    → b ≡ is_failure failure
    → (if b then PlanStatus.failed else PlanStatus.completed) ≡ status_of failure
status-status_of b none h = rw h refl
status-status_of b (some r) h = rw h refl

start-IsReady :
    {W : Type 0}
    → (engine : Engine W) (registry : Registry) (w : W)
    → IsReady engine registry [] (start engine w)
unfolding count contains
start-IsReady engine registry w = record {
  running = refl;
  no_failure = refl;
  has_seen = λ d h. absurd (omega (arith, h));
  only_seen = λ d h. cc;
}

summarize-reported :
    {W : Type 0}
    → (engine : Engine W) (registry : Registry) (plan : Plan) (w : W) → IsExecutable registry plan
    → run_plan engine registry plan w ≡ (
      reported plan (report engine registry plan.steps w),
      (report engine registry plan.steps w).world,
    )
unfolding run_plan summarize
summarize-reported engine registry plan w x =
    let l = run_steps engine registry plan.steps (start engine w) in
    let a : Agrees engine registry (start engine w) l (report engine registry plan.steps w) =
      run_steps-Agrees engine registry plan.steps [] (start engine w)
        (start-IsReady engine registry w) x.distinct x.dependencies_first in
    let counted : length l.completed ≡ (report engine registry plan.steps w).done =
      omega (arith, a.completed) in
    rw (forbidden-eq_none registry plan.overall_risk plan.steps x.good_steps engine, run_plan)
      λ i. (
        record {
          plan_id = plan.plan_id;
          status =
              (status-status_of l.has_failed l.failure (rw a.failure a.has_failed)
                  ∙ ap status_of a.failure)
                i;
          steps_total = length plan.steps;
          steps_completed = counted i;
          step_results = a.results i;
          failure_reason = a.failure i;
        },
        a.world i,
      )

-- What a summary says of itself.
pub record IsHonest (s : Summary Reason) : Type 0 where
  pub fail_fast : IsFailFast s.step_results
  pub counted : s.steps_completed ≡ completed_count s.step_results
  pub decided :
      (s.status ≡ PlanStatus.completed)
        × (s.failure_reason ≡ none)
        × (s.steps_completed ≡ s.steps_total)
        × (length s.step_results ≡ s.steps_total)
      ⊎ (s.status ≡ PlanStatus.failed) × (s.failure_reason ≢ none)

length-of_ids :
    (rs : List StepResult) (steps : List PlanStep)
    → map (λ (x : StepResult). x.step_id) rs ≡ ids steps
    → length rs ≡ length steps
length-of_ids rs steps h = omega (
  arith,
  ap length h,
  length-map (λ (x : StepResult). x.step_id) rs,
  length-map (λ (x : PlanStep). x.step_id) steps,
)

reported-IsHonest :
    {W : Type 0}
    → (plan : Plan) (r : Report W) → IsFaithful plan.steps r
    → IsHonest (reported plan r)
reported-IsHonest plan r f = record {
  fail_fast = f.fail_fast;
  counted = f.counted;
  decided = elim (Option-cases r.failure) [
    | inl fine ↦
        inl (rw fine refl, fine, f.all_done fine, length-of_ids r.results plan.steps f.same_ids)
    | inr (reason, broken) ↦ inr (rw broken refl, λ h. cc)
  ];
}

module _ {W : Type 0} (engine : Engine W) (registry : Registry) (show : Value → String)
    (fresh : String) (fresh_solid : is_blank fresh ≡ false) where
  -- Whatever is given, under a new plan id that is not blank, execute_plan returns. Either the
  -- input was accepted as an executable plan, and the summary and the world are those of
  -- performing its steps one after the other up to the first failure (`report`): no step is held
  -- back by the dependency check of the loop. Or the validator refused it with at least one error,
  -- no step has a result, and the world is unchanged.
  pub execute_plan-Ended :
      (raw : RawPlan) (w : W)
      → Ended engine registry w (execute_plan engine show registry fresh raw w)
  unfolding execute_plan
  execute_plan-Ended raw w = elim (validate-Verdict registry fresh fresh_solid raw) [
    | inl a ↦ performed a.plan a.executable (
        rw (a.returned, execute_plan)
          (ap some (summarize-reported engine registry a.plan w a.executable)))
    | inr r ↦
        refused (reported_id engine show raw) (reported_total engine raw) r.error r.more
          (rw (r.returned, execute_plan) refl)
  ]

  Ended-IsHonest :
      (w : W) (o : Option (Summary Reason × W))
      → Ended engine registry w o
      → (end : Summary Reason × W) × (o ≡ some end) × IsHonest end.0
  Ended-IsHonest w o (performed plan x e) = (
    _,
    e,
    reported-IsHonest plan (report engine registry plan.steps w)
        (report-IsFaithful engine registry plan.steps w),
  )
  Ended-IsHonest w o (refused plan_id total e es eq) =
      (_, eq, record { fail_fast = finished; counted = refl; decided = inr (refl, λ no. cc) })

  -- On every input execute_plan returns a summary whose results are completed steps, then at most
  -- one failed or rejected step, then only skipped steps without a tool result; whose count is the
  -- number of completed results; and that is either completed, with no failure and with every step
  -- completed and reported, or failed, with a failure reason.
  pub execute_plan-IsHonest :
      (raw : RawPlan) (w : W)
      → (end : Summary Reason × W) × (execute_plan engine show registry fresh raw w ≡ some end)
        × IsHonest end.0
  execute_plan-IsHonest raw w = Ended-IsHonest w _ (execute_plan-Ended raw w)
