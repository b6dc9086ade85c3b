-- ===== src/Agents/Build.antt =====
-- `SinglePlanStrategy.build_plan` of backend/app/agents/executor/plan/strategy.py.
use Prim.Native.String.{◌++◌ as str_append}
use enterprise_ai_agent.Prelude.{ℕ, suc, Option, none, some, List, [], ◌∷◌, String, take}
use enterprise_ai_agent.Workflow.Node.{str}
use enterprise_ai_agent.Agents.Types.{PlanStatus, StepStatus, PlanStep, Plan}

-- A raw step of the planner's answer, `str` being applied to the fields that are there.
pub record RawStep : Type 0 where
  pub id : Option String
  pub description : Option String
  pub tool : Option String

-- `index` is written in decimal; `decimal` is Python's `str` on it.
unfoldable pub step_of : (decimal : ℕ → String) → (goal : String) → (index : ℕ) → RawStep → PlanStep
step_of decimal goal index item = record {
  id = elim item.id [ none ↦ str_append "step-" (decimal index) | some i ↦ i ];
  description = elim item.description [ none ↦ goal | some d ↦ d ];
  tool = item.tool;
  status = StepStatus.pending;
  result = "";
}

unfoldable pub steps_from :
    (decimal : ℕ → String) → (goal : String) → (index : ℕ) → List RawStep → List PlanStep
unfolding step_of
steps_from decimal goal index [] = []
steps_from decimal goal index (item ∷ items) =
    step_of decimal goal index item ∷ steps_from decimal goal (suc index) items

abbrev only_step : String → List PlanStep
only_step goal =
    (record {
      id = "step-1";
      description = goal;
      tool = none;
      status = StepStatus.pending;
      result = "";
    })
    ∷ []

-- `SinglePlanStrategy.build_plan`
unfoldable pub build_plan : (decimal : ℕ → String) → String → List RawStep → ℕ → Plan
unfolding steps_from
build_plan decimal goal raw_steps max_plan_steps = record {
  goal = goal;
  steps = elim (steps_from decimal goal 1 (take max_plan_steps raw_steps)) [
    | [] ↦ only_step goal
    | s ∷ steps ↦ s ∷ steps
  ];
  status = PlanStatus.pending;
  metadata = ("strategy", str "single_plan") ∷ [];
}
