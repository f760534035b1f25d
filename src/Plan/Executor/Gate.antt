-- ===== src/Plan/Executor/Gate.antt =====
-- The approval gate of the executor: what holds before and after the calls that the policy or the
-- user let through holds before and after execute_plan.
use blender_ai_sidebar.Prelude.{
  ◌≡◌, refl, ap, ◌∙◌, subst, Bool, true, false, String, List, [], ◌∷◌, Option, none, some,
  Bool-cases, Option-cases, inl, inr, ◌⊎◌,
}
use blender_ai_sidebar.Core.Text.{is_blank}
use blender_ai_sidebar.Core.Json.{Value}
use blender_ai_sidebar.Tools.Registry.{Tool, Registry, get_tool}
use blender_ai_sidebar.Agent.Policy.{ApprovalDecision, evaluate}
use blender_ai_sidebar.Plan.Models.{PlanStep, Summary}
use blender_ai_sidebar.Plan.Validator.Checks.{RawPlan}
use blender_ai_sidebar.Plan.Executor.{Engine, call_of, execute_step, caught}
use blender_ai_sidebar.Plan.Executor.Steps.{
  Reason, Performed, run_tool, is_approved, perform, execute_plan,
}
use blender_ai_sidebar.Plan.Executor.Refine.{Report, act, after, report}
use blender_ai_sidebar.Plan.Executor.Results.{Ended, performed, refused, execute_plan-Ended}

Decision-cases :
    (d : ApprovalDecision)
    → (d ≡ ApprovalDecision.auto_approve) ⊎ (d ≡ ApprovalDecision.require_approval)
Decision-cases ApprovalDecision.auto_approve = inl refl
Decision-cases ApprovalDecision.require_approval = inr refl

module _ {W : Type 0} (engine : Engine W) (registry : Registry)
    (ask : PlanStep → Tool → W → Bool × W) (with_policy : engine.uses_policy ≡ true)
    (with_hook : engine.approval_hook ≡ some ask) where
  -- The call of a step was let through: the policy approves it, or the hook just agreed.
  pub data IsLetThrough (s : PlanStep) (tool : Tool) (w : W) : Type 0 where
    by_policy :
        evaluate (some tool) (call_of engine s) ≡ ApprovalDecision.auto_approve
        → IsLetThrough s tool w
    by_user : (v : W) → ask s tool v ≡ (true, w) → IsLetThrough s tool w

  run_tool-world :
      (s : PlanStep) (w : W) → (run_tool engine s w).world ≡ (execute_step engine s w).1
  unfolding run_tool
  run_tool-world s w = elim (Bool-cases (caught engine s (execute_step engine s w).0).success) [
    | inl fine ↦ rw (fine, run_tool) refl
    | inr broken ↦ rw (broken, run_tool) refl
  ]

  module _ (P : W → Type 0)
      (asking : (s : PlanStep) (tool : Tool) (w : W) → P w → P (ask s tool w).1)
      (running : (s : PlanStep) (tool : Tool) (w : W)
        → get_tool s.tool_name registry ≡ some tool
        → IsLetThrough s tool w
        → P w
        → P (execute_step engine s w).1) where
    -- The answer of the gate, in the world after it.
    Gated : PlanStep → Tool → Bool × W → Type 0
    Gated s tool (approved, w) = P w × (approved ≡ true → IsLetThrough s tool w)

    asked-Gated :
        (s : PlanStep) (tool : Tool) (w : W)
        → P w
        → (r : Bool × W) → ask s tool w ≡ r
        → Gated s tool r
    unfolding Gated
    asked-Gated s tool w p (approved, w') e = (
      subst P (ap (λ (r : Bool × W). r.1) e) (asking s tool w p),
      λ agreed. by_user w (e ∙ ap (λ (b : Bool). (b, w')) agreed),
    )

    is_approved-Gated :
        (s : PlanStep) (tool : Tool) (w : W) → P w → Gated s tool (is_approved engine s tool w)
    unfolding Gated is_approved
    is_approved-Gated s tool w p = elim (Decision-cases (evaluate (some tool) (call_of engine s))) [
      | inl auto ↦ rw (with_policy, is_approved) (rw auto (p, λ agreed. by_policy auto))
      | inr gated ↦
          rw (with_policy, is_approved)
            (rw gated (rw with_hook (asked-Gated s tool w p (ask s tool w) refl)))
    ]

    perform-keeps :
        (s : PlanStep) (tool : Tool) (w : W)
        → get_tool s.tool_name registry ≡ some tool
        → P w
        → P (perform engine s tool w).world
    unfolding perform Gated
    perform-keeps s tool w found p =
        let asked = is_approved-Gated s tool w p in
        elim (Bool-cases (is_approved engine s tool w).0) [
          | inl agreed ↦
              rw (agreed, perform)
                (rw (run_tool-world s (is_approved engine s tool w).1)
                  (running s tool (is_approved engine s tool w).1 found (asked.1 agreed) asked.0))
          | inr refusal ↦ rw (refusal, perform) asked.0
        ]

    act-keeps : (s : PlanStep) (w : W) → P w → P (act engine registry s w).world
    unfolding act
    act-keeps s w p = elim (Option-cases (get_tool s.tool_name registry)) [
      | inl missing ↦ rw (missing, act) p
      | inr (tool, found) ↦ rw (found, act) (perform-keeps s tool w found p)
    ]

    after-keeps :
        (s : PlanStep) (steps : List PlanStep) (q : Performed W) (rest : Report W)
        (failure : Option Reason)
        → P q.world
        → P rest.world
        → P (after engine registry s (record q { failure = failure }) rest steps).world
    after-keeps s steps q rest none here later = later
    after-keeps s steps q rest (some r) here later = here

    report-keeps : (steps : List PlanStep) (w : W) → P w → P (report engine registry steps w).world
    unfolding report
    report-keeps [] w p = p
    report-keeps (s ∷ steps) w p =
        let q = act engine registry s w in
        let here = act-keeps s w p in
        after-keeps s steps q (report engine registry steps q.world) q.failure here
          (report-keeps steps q.world here)

    same-keeps :
        (o : Option (Summary Reason × W)) (r end : Summary Reason × W)
        → o ≡ some r
        → o ≡ some end
        → P r.1
        → P end.1
    same-keeps o r end e h p =
        let same : r ≡ end = cc in subst (λ (t : Summary Reason × W). P t.1) same p

    Ended-keeps :
        (w : W) (o : Option (Summary Reason × W))
        → Ended engine registry w o
        → P w
        → (end : Summary Reason × W) → o ≡ some end
        → P end.1
    Ended-keeps w o (performed plan x e) p end h =
        same-keeps o _ end e h (report-keeps plan.steps w p)
    Ended-keeps w o (refused plan_id total error more e) p end h = same-keeps o _ end e h p

    -- Let the executor have a policy and an approval hook. A property of the world that asking the
    -- user keeps, and that a step keeps which is executed where the policy approves its call or the
    -- user has just agreed to it, holds after execute_plan if it held before, on every input, under
    -- a new plan id that is not blank: no step is executed without one of the two.
    pub execute_plan-keeps :
        (show : Value → String) (fresh : String)
        → is_blank fresh ≡ false
        → (raw : RawPlan) (w : W) (end : Summary Reason × W)
        → execute_plan engine show registry fresh raw w ≡ some end
        → P w
        → P end.1
    execute_plan-keeps show fresh solid raw w end h p =
        Ended-keeps w _ (execute_plan-Ended engine registry show fresh solid raw w) p end h
