-- ===== src/Plan/Executor/Refine.antt =====
-- The loop of the executor against a description of it: perform the steps in order and stop at the
-- first failure. On an accepted plan the dependency check of the loop never fires.
use blender_ai_sidebar.Prelude.{
  ℕ, suc, ◌+◌, ◌<◌, ◌≡◌, refl, sym, ap, arith, Bool, true, false, String, List, [], ◌∷◌, ◌++◌, map,
  append_assoc, append-nil, Option, none, some, string_comparable, contains, length, count,
  count-append, eq_iff, IsDistinct, Bool-cases, inl, inr, ◌∙◌, subst,
}
use blender_ai_sidebar.Core.Types.{ToolResult}
use blender_ai_sidebar.Tools.Registry.{Registry, get_tool}
use blender_ai_sidebar.Plan.Models.{PlanStep, PlanStepStatus, StepResult}
use blender_ai_sidebar.Plan.Validator.{ids}
use blender_ai_sidebar.Plan.Validator.Collect.{DependenciesFirst}
use blender_ai_sidebar.Plan.Executor.{Engine}
use blender_ai_sidebar.Plan.Executor.Steps.{
  Reason, missing_tool, Loop, result_of, unmet_deps, Performed, perform, record_step, give_up,
  visit, run_steps,
}

-- What a run reports: a result for each step, the failure, how many steps completed, the world.
pub record Report (W : Type 0) : Type 0 where
  pub results : List StepResult
  pub failure : Option Reason
  pub done : ℕ
  pub world : W

abbrev pub skipped : PlanStep → StepResult
skipped s = result_of s PlanStepStatus.skipped none

abbrev pub is_failure : Option Reason → Bool
is_failure none = false
is_failure (some r) = true

module _ {W : Type 0} (engine : Engine W) (registry : Registry) where
  -- A step with the tool of its name.
  unfoldable pub act : PlanStep → W → Performed W
  act s w = elim (get_tool s.tool_name registry) [
    | none ↦ record {
      status = PlanStepStatus.failed;
      tool_result = none;
      failure = some (missing_tool s.step_id);
      world = w;
    }
    | some tool ↦ perform engine s tool w
  ]

  abbrev pub after : PlanStep → Performed W → Report W → List PlanStep → Report W
  after s p rest steps = elim p.failure [
    | none ↦ record {
      results = result_of s p.status p.tool_result ∷ rest.results;
      failure = rest.failure;
      done = suc rest.done;
      world = rest.world;
    }
    | some r ↦ record {
      results = result_of s p.status p.tool_result ∷ map skipped steps;
      failure = some r;
      done = 0;
      world = p.world;
    }
  ]

  unfoldable pub report : List PlanStep → W → Report W
  unfolding act
  report [] w = record { results = []; failure = none; done = 0; world = w }
  report (s ∷ steps) w = after s (act s w) (report steps (act s w).world) steps

  -- The loop is at a step with `seen` completed, and nothing failed.
  pub record IsReady (seen : List String) (l : Loop W) : Type 0 where
    pub running : l.has_failed ≡ false
    pub no_failure : l.failure ≡ none
    pub has_seen : (d : String) → 0 < count d seen → contains d l.completed ≡ true
    pub only_seen : (d : String) → contains d l.completed ≡ true → 0 < count d seen

  -- The loop ended as the report says.
  pub record Agrees (l end : Loop W) (r : Report W) : Type 0 where
    pub results : end.results ≡ l.results ++ r.results
    pub failure : end.failure ≡ r.failure
    pub has_failed : end.has_failed ≡ is_failure r.failure
    pub completed : length end.completed ≡ length l.completed + r.done
    pub world : end.world ≡ r.world

  unmet_deps-eq_nil :
      (completed deps : List String)
      → ((d : String) → 0 < count d deps → contains d completed ≡ true)
      → unmet_deps completed deps ≡ []
  unfolding unmet_deps count
  unmet_deps-eq_nil completed [] h = refl
  unmet_deps-eq_nil completed (d ∷ deps) h =
      rw (h d (ground (arith, eq_iff d d)))
        (unmet_deps-eq_nil completed deps (λ e m. h e (omega arith)))

  visit-eq :
      (seen : List String) (s : PlanStep) (l : Loop W)
      → IsReady seen l
      → ((d : String) → 0 < count d s.depends_on → 0 < count d seen)
      → visit engine registry s l ≡ record_step engine s (act s l.world) l
  unfolding visit act record_step give_up
  visit-eq seen s l ready deps = ground (
    arith,
    ready.running,
    ready.no_failure,
    unmet_deps-eq_nil l.completed s.depends_on (λ d m. ready.has_seen d (deps d m)),
  )

  visit_skips :
      (s : PlanStep) (l : Loop W)
      → l.has_failed ≡ true
      → visit engine registry s l ≡ record l { results = l.results ++ skipped s ∷ [] }
  unfolding visit
  visit_skips s l h = ground arith

  skip_rest :
      (steps : List PlanStep) (l : Loop W)
      → l.has_failed ≡ true
      → run_steps engine registry steps l ≡ record l { results = l.results ++ map skipped steps }
  unfolding run_steps
  skip_rest [] l h = λ i. record l { results = sym (append-nil l.results) i }
  skip_rest (s ∷ steps) l h =
      ap (run_steps engine registry steps) (visit_skips s l h)
      ∙ skip_rest steps (record l { results = l.results ++ skipped s ∷ [] }) h
      ∙ λ i. record l { results = append_assoc l.results (skipped s ∷ []) (map skipped steps) i }

  -- One step on the ready loop, by how it ends.
  record_step-IsReady :
      (seen : List String) (s : PlanStep) (p : Performed W) (l : Loop W)
      → IsReady seen l
      → p.failure ≡ none
      → IsReady (seen ++ s.step_id ∷ []) (record_step engine s p l)
  unfolding record_step contains count
  record_step-IsReady seen s p l ready ok = record {
    running = ground (arith, ready.running);
    no_failure = ground (arith, ready.no_failure);
    has_seen = λ d m.
        ground (arith, ready.has_seen d, count-append d seen (s.step_id ∷ []), eq_iff s.step_id d);
    only_seen = λ d c.
        ground (arith, ready.only_seen d, count-append d seen (s.step_id ∷ []), eq_iff s.step_id d);
  }

  module _ (s : PlanStep) (steps : List PlanStep) (seen : List String) (l : Loop W)
      (ready : IsReady seen l) (distinct : IsDistinct (seen ++ ids (s ∷ steps))) where
    is_new : contains s.step_id l.completed ≡ false
    unfolding count
    is_new = elim (Bool-cases (contains s.step_id l.completed)) [
      | inr new ↦ new
      | inl old ↦ absurd (
          ground (
            arith,
            ready.only_seen s.step_id old,
            distinct s.step_id,
            count-append s.step_id seen (ids (s ∷ steps)),
            eq_iff s.step_id s.step_id,
          ))
    ]

    still-IsDistinct : IsDistinct ((seen ++ s.step_id ∷ []) ++ ids steps)
    still-IsDistinct = rw append_assoc distinct

    -- The rest of the loop, from how the step ends.
    step-Agrees :
        (status : PlanStepStatus) (res : Option ToolResult) (failure : Option Reason) (w : W)
        (rest : Report W)
        → let p : Performed W = record {
          status = status;
          tool_result = res;
          failure = failure;
          world = w;
        } in
          (failure ≡ none
            → Agrees
                (record_step engine s p l)
                (run_steps engine registry steps (record_step engine s p l))
                rest)
          → Agrees l
              (run_steps engine registry steps (record_step engine s p l))
              (after s p rest steps)
    unfolding record_step
    step-Agrees status res none w rest ih =
        let a = ih refl in
        record {
          results = a.results ∙ append_assoc l.results (result_of s status res ∷ []) rest.results;
          failure = a.failure;
          has_failed = a.has_failed;
          completed = ground (arith, a.completed, is_new);
          world = a.world;
        }
    step-Agrees status res (some r) w rest ih =
        rw
          (skip_rest steps
            (record_step engine s
              (record { status = status; tool_result = res; failure = some r; world = w }) l)
            refl)
          (record {
            results = append_assoc l.results (result_of s status res ∷ []) (map skipped steps);
            failure = refl;
            has_failed = refl;
            completed = omega arith;
            world = refl;
          })

  pub run_steps-Agrees :
      (steps : List PlanStep) (seen : List String) (l : Loop W)
      → IsReady seen l
      → IsDistinct (seen ++ ids steps)
      → DependenciesFirst seen steps
      → Agrees l (run_steps engine registry steps l) (report steps l.world)
  unfolding run_steps report
  run_steps-Agrees [] seen l ready distinct first = record {
    results = sym (append-nil l.results);
    failure = ready.no_failure;
    has_failed = ready.running;
    completed = omega arith;
    world = refl;
  }
  run_steps-Agrees (s ∷ steps) seen l ready distinct first =
      let p = act s l.world in
      subst
        (λ (next : Loop W).
          Agrees l (run_steps engine registry steps next) (after s p (report steps p.world) steps))
        (sym (visit-eq seen s l ready first.0))
        (step-Agrees s steps seen l ready distinct p.status p.tool_result p.failure p.world
          (report steps p.world)
          λ fine.
            run_steps-Agrees steps (seen ++ s.step_id ∷ []) (record_step engine s p l)
              (record_step-IsReady seen s p l ready fine)
              (still-IsDistinct s steps seen l ready distinct) first.1)
