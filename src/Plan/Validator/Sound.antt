-- ===== src/Plan/Validator/Sound.antt =====
-- What the checks of the validator establish of the parsed steps.
use blender_ai_sidebar.Prelude.{
  ◌≤◌, ◌<◌, String, List, [], ◌∷◌, some, ◌==◌, nat_comparable, string_comparable, if◌then◌else◌,
  ltb, ◌≡◌, arith, eq_iff, count, contains, contains-eq_true, Bool-cases, Option-cases, inl, inr,
  All, ◌≢◌, subst, append-eq_nil, map-eq_nil,
}
use blender_ai_sidebar.Core.Types.{RiskLevel, risk_order, max_from, max_risk_level}
use blender_ai_sidebar.Tools.Registry.{Tool, Registry, get_tool}
use blender_ai_sidebar.Plan.Models.{PlanStep}
use blender_ai_sidebar.Plan.Arguments.{validate_tool_arguments}
use blender_ai_sidebar.Plan.Validator.Checks.{
  tool_errors, all_tool_errors, step_risks, dependency_errors, all_dependency_errors,
}

-- The tool of a step is registered, and its schema admits the arguments of the step.
pub record ToolFits (registry : Registry) (s : PlanStep) : Type 0 where
  pub tool : Tool
  pub registered : get_tool s.tool_name registry ≡ some tool
  pub arguments_fit : validate_tool_arguments tool.input_schema s.arguments ≡ []

-- The tool of a step is no riskier than `risk`.
abbrev pub IsCovered : Registry → RiskLevel → PlanStep → Type 0
IsCovered registry risk s =
    (tool : Tool)
    → get_tool s.tool_name registry ≡ some tool
    → risk_order tool.risk_level ≤ risk_order risk

module _ (registry : Registry) where
  tool_errors-ToolFits : (s : PlanStep) → tool_errors registry s ≡ [] → ToolFits registry s
  unfolding tool_errors
  tool_errors-ToolFits s h = elim (Option-cases (get_tool s.tool_name registry)) [
    | inl missing ↦ absurd (cc (rw (missing, tool_errors) at h))
    | inr (tool, found) ↦ record {
      tool = tool;
      registered = found;
      arguments_fit = map-eq_nil _ _ (rw (found, tool_errors) at h);
    }
  ]

  pub all_tool_errors-ToolFits :
      (steps : List PlanStep) → all_tool_errors registry steps ≡ [] → All (ToolFits registry) steps
  unfolding all_tool_errors
  all_tool_errors-ToolFits [] h = tt
  all_tool_errors-ToolFits (s ∷ steps) h =
      let (here, rest) = append-eq_nil (tool_errors registry s) _ h in
      (tool_errors-ToolFits s here, all_tool_errors-ToolFits steps rest)

pick-ge :
    (a b : RiskLevel)
    → (risk_order a ≤ risk_order (if ltb (risk_order a) (risk_order b) then b else a))
      × (risk_order b ≤ risk_order (if ltb (risk_order a) (risk_order b) then b else a))
pick-ge a b = elim (Bool-cases (ltb (risk_order a) (risk_order b))) [
  | inl less ↦ rw less (ground arith, ground arith)
  | inr more ↦ rw more (ground arith, ground arith)
]

-- The greatest risk is at least each of them.
max_from-ge :
    (best : RiskLevel) (risks : List RiskLevel)
    → (risk_order best ≤ risk_order (max_from best risks))
      × All (λ r. risk_order r ≤ risk_order (max_from best risks)) risks
unfolding max_from
max_from-ge best [] = (omega arith, tt)
max_from-ge best (r ∷ risks) =
    let pick = if ltb (risk_order best) (risk_order r) then r else best in
    let (above, rest) = max_from-ge pick risks in
    let (left, right) = pick-ge best r in (omega arith, (omega arith, rest))

pub max_risk_level-ge :
    (risks : List RiskLevel) → All (λ r. risk_order r ≤ risk_order (max_risk_level risks)) risks
unfolding max_risk_level
max_risk_level-ge [] = tt
max_risk_level-ge (r ∷ risks) = max_from-ge r risks

module _ (registry : Registry) (risk : RiskLevel) where
  step_risks-IsCovered :
      (steps : List PlanStep)
      → All (λ r. risk_order r ≤ risk_order risk) (step_risks registry steps)
      → All (IsCovered registry risk) steps
  unfolding step_risks
  step_risks-IsCovered [] h = tt
  step_risks-IsCovered (s ∷ steps) h = elim (Option-cases (get_tool s.tool_name registry)) [
    | inl missing ↦ (
      λ tool found. absurd (cc (missing, found)),
      step_risks-IsCovered steps (rw (missing, step_risks) at h),
    )
    | inr (t, here) ↦
        let h' : (risk_order t.risk_level ≤ risk_order risk)
            × All (λ r. risk_order r ≤ risk_order risk) (step_risks registry steps) =
          rw (here, step_risks) at h in
        (
          λ tool found.
              let same : t ≡ tool = cc (here, found) in
              subst (λ (u : Tool). risk_order u.risk_level ≤ risk_order risk) same h'.0,
          step_risks-IsCovered steps h'.1,
        )
  ]

pub max_risk_level-IsCovered :
    (registry : Registry) (steps : List PlanStep)
    → All (IsCovered registry (max_risk_level (step_risks registry steps))) steps
max_risk_level-IsCovered registry steps =
    step_risks-IsCovered registry (max_risk_level (step_risks registry steps)) steps
      (max_risk_level-ge (step_risks registry steps))

-- The dependencies are other steps of the plan.
abbrev pub DependsOnOthers : List String → PlanStep → Type 0
DependsOnOthers all_ids s =
    (d : String) → 0 < count d s.depends_on → (0 < count d all_ids) × (d ≢ s.step_id)

dependency_errors-none :
    (all_ids : List String) (step_id : String) (deps : List String)
    → dependency_errors all_ids step_id deps ≡ []
    → (d : String) → 0 < count d deps
    → (0 < count d all_ids) × (d ≢ step_id)
unfolding dependency_errors count
dependency_errors-none all_ids step_id [] h d m = absurd (omega arith)
dependency_errors-none all_ids step_id (x ∷ deps) h d m = elim (Bool-cases (x == step_id)) [
  | inl same ↦ absurd (cc (rw same at h))
  | inr other ↦ elim (Bool-cases (contains x all_ids)) [
    | inr missing ↦ absurd (cc (rw missing at (rw other at h)))
    | inl known ↦
        let rest : dependency_errors all_ids step_id deps ≡ [] = rw known at (rw other at h) in
        elim (Bool-cases (x == d)) [
          | inl here ↦
              subst (λ t. (0 < count t all_ids) × (t ≢ step_id)) ((eq_iff x d).0 here)
                (contains-eq_true x all_ids known, λ e. cc ((eq_iff x step_id).1 e, other))
          | inr later ↦
              dependency_errors-none all_ids step_id deps rest d (omega (arith, rw later at m))
        ]
  ]
]

pub all_dependency_errors-none :
    (all_ids : List String) (steps : List PlanStep)
    → all_dependency_errors all_ids steps ≡ []
    → All (DependsOnOthers all_ids) steps
unfolding all_dependency_errors
all_dependency_errors-none all_ids [] h = tt
all_dependency_errors-none all_ids (s ∷ steps) h =
    let (here, rest) = append-eq_nil (dependency_errors all_ids s.step_id s.depends_on) _ h in
    (
      dependency_errors-none all_ids s.step_id s.depends_on here,
      all_dependency_errors-none all_ids steps rest,
    )
