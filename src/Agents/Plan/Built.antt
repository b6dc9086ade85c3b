-- ===== src/Agents/Plan/Built.antt =====
-- A plan of backend/app/agents/executor/plan/strategy.py, and its run.
use enterprise_ai_agent.Prelude.{
  ℕ, suc, ◌≤◌, ◌≡◌, refl, sym, some, List, [], ◌∷◌, String, arith, ◌∙◌, length, take, length-take,
  take-all, drop-all, List-cases, inl, inr,
}
use mathlib.Core.Path.{subst}
use mathlib.Core.List.{append-nil}
use enterprise_ai_agent.Agents.Types.{Message, AgentResult, Plan, AgentContext, Call}
use enterprise_ai_agent.Agents.Loop.Rounds.{Ending, Ending-map}
use enterprise_ai_agent.Agents.Build.{RawStep, steps_from, build_plan}
use enterprise_ai_agent.Agents.Step.{Setting}
use enterprise_ai_agent.Agents.Plan.{run_plan}
use enterprise_ai_agent.Agents.Plan.Steps.{Done, run_plan-Ran}

length-steps_from :
    (decimal : ℕ → String) (goal : String) (index : ℕ) (items : List RawStep)
    → length (steps_from decimal goal index items) ≡ length items
unfolding steps_from
length-steps_from decimal goal index [] = refl
length-steps_from decimal goal index (item ∷ items) =
    omega (arith, length-steps_from decimal goal (suc index) items)

-- A plan has a step, and no more than `max_plan_steps` of them, if that allows one.
pub length-build_plan :
    (decimal : ℕ → String) (goal : String) (raw_steps : List RawStep) (max_plan_steps : ℕ)
    → 1 ≤ max_plan_steps
    → (1 ≤ length (build_plan decimal goal raw_steps max_plan_steps).steps)
      × (length (build_plan decimal goal raw_steps max_plan_steps).steps ≤ max_plan_steps)
unfolding build_plan
length-build_plan decimal goal raw_steps max_plan_steps h =
    let n = length-steps_from decimal goal 1 (take max_plan_steps raw_steps) in
    let m = length-take max_plan_steps raw_steps in
    elim (List-cases (steps_from decimal goal 1 (take max_plan_steps raw_steps))) [
      | inl e ↦ rw (e, build_plan) (omega arith, omega arith)
      | inr (s, steps, e) ↦ rw (e, build_plan) (omega arith, ground (arith, n, m, e))
    ]

module _ {W Observation : Type 0} (setting : Setting W Observation) where
  -- A plan that `SinglePlanStrategy` builds is run to its last step, where `max_plan_steps` allows a
  -- step at all: each step of the plan is COMPLETED or SKIPPED in the end, and the run returns a result
  -- or raises what the embodied helper raised.
  pub run_plan-build_plan :
      (decimal : ℕ → String) (goal : String) (raw_steps : List RawStep) (context : AgentContext)
      (base_messages : List Message) (w : W)
      → 1 ≤ setting.max_plan_steps
      → (r : Call (AgentResult Observation)) × (ended : Plan) × (w' : W) × (run_plan setting
            (build_plan decimal goal raw_steps setting.max_plan_steps)
            context
            base_messages
            w
          ≡ some (r, ended, w'))
        × Ending setting.services Unit r
        × Done (build_plan decimal goal raw_steps setting.max_plan_steps).steps ended.steps
  run_plan-build_plan decimal goal raw_steps context base_messages w h =
      let plan = build_plan decimal goal raw_steps setting.max_plan_steps in
      let n = (length-build_plan decimal goal raw_steps setting.max_plan_steps h).1 in
      let ran = run_plan-Ran setting plan context base_messages w in
      let same : ran.ended.steps ≡ ran.done =
        ran.steps ∙ rw (drop-all setting.max_plan_steps plan.steps n) (append-nil ran.done) in
      (
        ran.answer,
        ran.ended,
        ran.world,
        ran.returns,
        Ending-map setting.services (λ h. tt) ran.ending,
        subst (λ done. Done plan.steps done) (sym same)
            (subst (λ steps. Done steps ran.done) (take-all setting.max_plan_steps plan.steps n)
              ran.all_done),
      )
