-- ===== src/Agent/Runtime/LowRisk.antt =====
-- The reviews of plans that AgentRuntime.request_plan_review may approve by itself.
use blender_ai_sidebar.Prelude.{
  ℕ, String, ◌≤◌, ◌≡◌, refl, sym, ap, subst, ◌∙◌, arith, true, List, [], ◌∷◌, map, some, All,
  Option-cases, Bool-cases, ◌⊎◌, inl, inr,
}
use mathlib.Core.Option.{some-injective}
use blender_ai_sidebar.Core.Types.{RiskLevel, risk_order, max_risk_level}
use blender_ai_sidebar.Tools.Registry.{Tool, Registry, get_tool}
use blender_ai_sidebar.Plan.Models.{PlanStep}
use blender_ai_sidebar.Plan.Validator.Checks.{RawPlan, validate}
use blender_ai_sidebar.Plan.Validator.Sound.{max_risk_level-ge}
use blender_ai_sidebar.Plan.Review.{
  PlanReview, step_risk, make_review, Reviewed, reviewed, invalid_plan, build_plan_review,
}
use blender_ai_sidebar.Agent.Runtime.{Services}
use blender_ai_sidebar.Agent.Runtime.Plans.{is_low, is_auto_approved}

-- The step has a tool of the registry whose risk level is READ_ONLY or LOW.
abbrev pub RunsLow : Registry → PlanStep → Type 0
RunsLow registry s =
    (tool : Tool) × ((get_tool s.tool_name registry ≡ some tool)
      × ((tool.risk_level ≡ RiskLevel.read_only) ⊎ (tool.risk_level ≡ RiskLevel.low)))

-- The configuration approves plans of a low risk, and every step of this one has a tool of such.
abbrev pub NeedsNoAnswer : {W C : Type 0} → Services W C → PlanReview → Type 0
NeedsNoAnswer sv review =
    (sv.auto_approve_low_risk_plans ≡ true) × All (RunsLow sv.registry) review.plan.steps

is_low-order : (r : RiskLevel) → is_low r ≡ true → risk_order r ≤ 1
is_low-order RiskLevel.read_only h = omega arith
is_low-order RiskLevel.low h = omega arith
is_low-order r h = absurd (cc h)

order-low : (r : RiskLevel) → risk_order r ≤ 1 → (r ≡ RiskLevel.read_only) ⊎ (r ≡ RiskLevel.low)
order-low RiskLevel.read_only h = inl refl
order-low RiskLevel.low h = inr refl
order-low RiskLevel.medium h = absurd (omega (arith, h))
order-low RiskLevel.high h = absurd (omega (arith, h))
order-low RiskLevel.critical h = absurd (omega (arith, h))

module _ (registry : Registry) where
  step_risk-RunsLow : (s : PlanStep) → risk_order (step_risk registry s) ≤ 1 → RunsLow registry s
  unfolding step_risk
  step_risk-RunsLow s h = elim (Option-cases (get_tool s.tool_name registry)) [
    | inl missing ↦ absurd (omega (arith, rw (step_risk, missing) at h))
    | inr (tool, found) ↦ (tool, (found, order-low tool.risk_level (rw (step_risk, found) at h)))
  ]

  step_risks-RunsLow :
      (top : RiskLevel) (steps : List PlanStep)
      → risk_order top ≤ 1
      → All (λ r. risk_order r ≤ risk_order top) (map (step_risk registry) steps)
      → All (RunsLow registry) steps
  step_risks-RunsLow top [] low h = tt
  step_risks-RunsLow top (s ∷ steps) low h =
      (step_risk-RunsLow s (omega (arith, low, h.0)), step_risks-RunsLow top steps low h.1)

  -- The review has the greatest risk of the steps of its own plan.
  abbrev pub HasOwnRisk : Reviewed → Type 0
  HasOwnRisk (reviewed review) =
      review.overall_risk ≡ max_risk_level (map (step_risk registry) review.plan.steps)
  HasOwnRisk (invalid_plan errors) = Unit

module _ {W C : Type 0} (sv : Services W C) where
  pub is_auto_approved-NeedsNoAnswer :
      (review : PlanReview)
      → HasOwnRisk sv.registry (reviewed review)
      → is_auto_approved sv review ≡ true
      → NeedsNoAnswer sv review
  is_auto_approved-NeedsNoAnswer review own auto =
      elim (Bool-cases sv.auto_approve_low_risk_plans) [
        | inr off ↦ absurd (cc (rw off at auto))
        | inl on ↦
            let steps = review.plan.steps in
            (
              on,
              step_risks-RunsLow sv.registry _ steps
                  (is_low-order _ (ap is_low (sym own) ∙ (rw on at auto)))
                  (max_risk_level-ge (map (step_risk sv.registry) steps)),
            )
      ]

  pub build_plan_review-HasOwnRisk :
      (id : String) (t : ℕ) (call_id : String) (n : ℕ) (raw : RawPlan) (answer : Reviewed)
      → build_plan_review sv.describe sv.registry id t call_id n raw ≡ some answer
      → HasOwnRisk sv.registry answer
  unfolding build_plan_review make_review
  build_plan_review-HasOwnRisk id t call_id n raw answer h =
      elim (Option-cases (validate sv.registry id raw)) [
        | inl failed ↦ absurd (cc (rw (build_plan_review, failed) at h))
        | inr (result, came) ↦ elim (Bool-cases result.valid) [
          | inr invalid ↦
              subst (HasOwnRisk sv.registry)
                (some-injective (invalid_plan result.errors) answer
                  (rw (build_plan_review, came, invalid) at h))
                tt
          | inl valid ↦ elim (Option-cases result.plan) [
            | inl missing ↦
                subst (HasOwnRisk sv.registry)
                  (some-injective (invalid_plan result.errors) answer
                    (rw (build_plan_review, came, valid, missing) at h))
                  tt
            | inr (plan, there) ↦
                subst (HasOwnRisk sv.registry)
                  (some-injective (reviewed (make_review sv.describe sv.registry t call_id n plan))
                    answer (rw (build_plan_review, came, valid, there) at h))
                  refl
          ]
        ]
      ]
