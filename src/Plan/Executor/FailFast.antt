-- ===== src/Plan/Executor/FailFast.antt =====
-- The shape of a report: completed steps, at most one that stopped the run, skipped steps.
use blender_ai_sidebar.Prelude.{
  ℕ, suc, ◌≡◌, refl, sym, ap, Bool, true, false, List, [], ◌∷◌, map, Option, none, some,
  if◌then◌else◌, length, Bool-cases, Option-cases, inl, inr, ◌⊎◌, All, string_comparable,
}
use blender_ai_sidebar.Core.Types.{ToolResult}
use blender_ai_sidebar.Tools.Registry.{Tool, Registry, get_tool}
use blender_ai_sidebar.Plan.Models.{PlanStep, PlanStepStatus, PlanStatus, StepResult}
use blender_ai_sidebar.Plan.Validator.{ids}
use blender_ai_sidebar.Plan.Executor.{Engine}
use blender_ai_sidebar.Plan.Executor.Steps.{
  Reason, step_failed, error_message, Performed, run_tool, is_approved, perform,
}
use blender_ai_sidebar.Plan.Executor.Refine.{Report, skipped, act, after, report}

abbrev pub completed_count : List StepResult → ℕ
completed_count [] = 0
completed_count (r ∷ rs) = elim r.status [
  | PlanStepStatus.completed ↦ suc (completed_count rs)
  | _ ↦ completed_count rs
]

-- The failed and the rejected step.
abbrev pub IsStop : StepResult → Type 0
IsStop r = (r.status ≡ PlanStepStatus.failed) ⊎ (r.status ≡ PlanStepStatus.cancelled)

abbrev pub IsSkipped : StepResult → Type 0
IsSkipped r = (r.status ≡ PlanStepStatus.skipped) × (r.tool_result ≡ none)

-- Completed steps, then at most one step that stopped the run, then only skipped steps.
pub data IsFailFast : List StepResult → Type 0 where
  finished : IsFailFast []
  went_on :
      {r : StepResult}
      → {rs : List StepResult} → r.status ≡ PlanStepStatus.completed
      → IsFailFast rs
      → IsFailFast (r ∷ rs)
  stopped :
      {r : StepResult} → {rs : List StepResult} → IsStop r → All IsSkipped rs → IsFailFast (r ∷ rs)

abbrev pub status_of : Option Reason → PlanStatus
status_of none = PlanStatus.completed
status_of (some r) = PlanStatus.failed

-- The status of a step that was performed goes with its failure.
abbrev FitsFailure : PlanStepStatus → Option Reason → Type 0
FitsFailure status none = status ≡ PlanStepStatus.completed
FitsFailure status (some r) = (status ≡ PlanStepStatus.failed) ⊎ (status ≡ PlanStepStatus.cancelled)

-- What a report says of the steps it is about.
pub record IsFaithful {W : Type 0} (steps : List PlanStep) (r : Report W) : Type 0 where
  pub same_ids : map (λ (x : StepResult). x.step_id) r.results ≡ ids steps
  pub fail_fast : IsFailFast r.results
  pub counted : r.done ≡ completed_count r.results
  pub all_done : r.failure ≡ none → r.done ≡ length steps

skipped-ids :
    (steps : List PlanStep) → map (λ (x : StepResult). x.step_id) (map skipped steps) ≡ ids steps
skipped-ids [] = refl
skipped-ids (s ∷ steps) = ap (λ l. s.step_id ∷ l) (skipped-ids steps)

skipped-All : (steps : List PlanStep) → All IsSkipped (map skipped steps)
skipped-All [] = tt
skipped-All (s ∷ steps) = ((refl, refl), skipped-All steps)

skipped_count : (steps : List PlanStep) → completed_count (map skipped steps) ≡ 0
skipped_count [] = refl
skipped_count (s ∷ steps) = skipped_count steps

abbrev Fits : {W : Type 0} → Performed W → Type 0
Fits p = FitsFailure p.status p.failure

module _ {W : Type 0} (engine : Engine W) (registry : Registry) where
  tool_result-Fits :
      (s : PlanStep) (res : ToolResult) (b : Bool) (w : W)
      → Fits (
          if b
          then record {
            status = PlanStepStatus.completed;
            tool_result = some res;
            failure = none;
            world = w;
          }
          else record {
            status = PlanStepStatus.failed;
            tool_result = some res;
            failure = some (step_failed s.step_id (error_message res));
            world = w;
          })
  tool_result-Fits s res true w = refl
  tool_result-Fits s res false w = inl refl

  run_tool-Fits : (s : PlanStep) (w : W) → Fits (run_tool engine s w)
  unfolding run_tool
  run_tool-Fits s w = tool_result-Fits s _ _ _

  perform-Fits : (s : PlanStep) (tool : Tool) (w : W) → Fits (perform engine s tool w)
  unfolding perform
  perform-Fits s tool w = elim (Bool-cases (is_approved engine s tool w).0) [
    | inl agreed ↦ rw (agreed, perform) (run_tool-Fits s (is_approved engine s tool w).1)
    | inr refused ↦ rw (refused, perform) (inr refl)
  ]

  act-Fits : (s : PlanStep) (w : W) → Fits (act engine registry s w)
  unfolding act
  act-Fits s w = elim (Option-cases (get_tool s.tool_name registry)) [
    | inl missing ↦ rw (missing, act) (inl refl)
    | inr (tool, found) ↦ rw (found, act) (perform-Fits s tool w)
  ]

  after-IsFaithful :
      (s : PlanStep) (steps : List PlanStep) (status : PlanStepStatus) (res : Option ToolResult)
      (failure : Option Reason) (w : W) (rest : Report W)
      → FitsFailure status failure
      → IsFaithful steps rest
      → IsFaithful (s ∷ steps) (
          after engine registry s
            (record { status = status; tool_result = res; failure = failure; world = w })
            rest
            steps)
  after-IsFaithful s steps status res none w rest fits f = record {
    same_ids = ap (λ l. s.step_id ∷ l) f.same_ids;
    fail_fast = went_on fits f.fail_fast;
    counted = rw fits (ap suc f.counted);
    all_done = λ h. ap suc (f.all_done h);
  }
  after-IsFaithful s steps status res (some r) w rest fits f = record {
    same_ids = ap (λ l. s.step_id ∷ l) (skipped-ids steps);
    fail_fast = stopped fits (skipped-All steps);
    counted = elim fits [
      | inl e ↦ rw e (sym (skipped_count steps))
      | inr e ↦ rw e (sym (skipped_count steps))
    ];
    all_done = λ h. cc;
  }

  pub report-IsFaithful :
      (steps : List PlanStep) (w : W) → IsFaithful steps (report engine registry steps w)
  unfolding report
  report-IsFaithful [] w = record {
    same_ids = refl;
    fail_fast = finished;
    counted = refl;
    all_done = λ h. refl;
  }
  report-IsFaithful (s ∷ steps) w =
      let p = act engine registry s w in
      after-IsFaithful s steps p.status p.tool_result p.failure p.world
        (report engine registry steps p.world) (act-Fits s w) (report-IsFaithful steps p.world)
