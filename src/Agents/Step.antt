-- ===== src/Agents/Step.antt =====
-- `StepExecutor.execute` of backend/app/agents/executor/plan/step_executor.py, `WorkflowErrorHandler` of
-- error_handler.py, and the retry loop of `SequentialWorkflow.run` (workflow.py) over one step.
--
-- Steps are objects that the source changes in place; here a step is handed on with its new status
-- and result, and the plan that the prompt builder sees holds the steps before it, it, and the rest.
-- The log and the tracer only record and are left out.
pub mod Settles
use enterprise_ai_agent.Prelude.{
  ℕ, zero, suc, ltb, Bool, true, false, Option, none, some, List, [], ◌∷◌, ◌++◌, String,
  if◌then◌else◌,
}
use enterprise_ai_agent.Prelude.Text.{str_eq}
use enterprise_ai_agent.Agents.Types.{
  Message, ToolResult, AgentResult, StepStatus, PlanStep, Plan, AgentContext, Call, gave, raised,
}
use enterprise_ai_agent.Agents.Loop.{Services, run_agent_loop}

pub data WorkflowAction : Type 0 where
  retry skip abort : WorkflowAction

-- `WorkflowErrorHandler.handle_step_failure`
unfoldable pub handle_step_failure : (retry_count max_retries : ℕ) → WorkflowAction
handle_step_failure retry_count max_retries =
    if ltb retry_count max_retries then WorkflowAction.retry else WorkflowAction.skip

-- `handle_tool_failure`, which also marks the step.
unfoldable pub handle_tool_failure : PlanStep → ToolResult → WorkflowAction × PlanStep
handle_tool_failure step r =
    if r.success
    then (WorkflowAction.skip, step)
    else (WorkflowAction.skip, record step { result = r.content; status = StepStatus.failed })

abbrev pub is_completed : StepStatus → Bool
is_completed StepStatus.completed = true
is_completed _ = false

-- `if step.tool`: an empty name counts as none.
unfoldable pub tool_of : PlanStep → Option String
tool_of step = elim step.tool [ none ↦ none | some t ↦ if str_eq t "" then none else some t ]

-- The context of the run as the prompt builder sees it, and the step's own context, are handed to
-- code that is a parameter: `PromptBuilder.build`.
pub record Setting (W Observation : Type 0) : Type 0 where
  pub services : Services W Observation
  pub build_prompt : AgentContext → List PlanStep → W → List Message
  pub max_iterations : ℕ
  pub max_plan_steps : ℕ
  pub max_retries : ℕ

unfoldable pub plain_result : {Observation : Type 0} → Bool → String → AgentResult Observation
plain_result success content = record {
  success = success;
  model = "";
  content = content;
  observations = [];
}

-- The branch of `StepExecutor.execute` for a tool that answered.
unfoldable pub after_tool :
    {Observation : Type 0} → PlanStep → ToolResult → AgentResult Observation × PlanStep
unfolding handle_tool_failure plain_result
after_tool step r =
    let (action, marked) = handle_tool_failure step r in
    if r.success
    then (
      plain_result true r.content,
      record step { result = r.content; status = StepStatus.completed },
    )
    else elim action [
      | abort ↦ (plain_result false marked.result, record marked { status = StepStatus.failed })
      | _ ↦ (plain_result false marked.result, record marked { status = StepStatus.skipped })
    ]

-- Whether the loop is left at once: the step was executed, and is COMPLETED or SKIPPED.
abbrev pub is_settled : StepStatus → Bool
is_settled StepStatus.completed = true
is_settled StepStatus.skipped = true
is_settled _ = false

module _ {W Observation : Type 0} (setting : Setting W Observation) where
  -- `StepExecutor.execute` on the step between those before and those after it in the plan.
  unfoldable pub execute :
      PlanStep
      → (before after : List PlanStep) → (completed : List PlanStep) → AgentContext
      → Plan
      → W
      → Call (AgentResult Observation) × PlanStep × W
  unfolding tool_of after_tool
  execute step before after completed context plan w =
      let running = record step { status = StepStatus.running } in
      elim (tool_of step) [
        | some tool ↦
            let (answer, w') = setting.services.execute_tool tool [] w in
            elim answer [
              | raised error ↦ (raised error, running, w')
              | gave r ↦ let (result, step') = after_tool running r in (gave result, step', w')
            ]
        | none ↦
            let seen = record context {
              plan = some (record plan { steps = before ++ (running ∷ after) });
              current_step = some running;
            } in
            let (answer, messages, w') =
              run_agent_loop setting.services setting.max_iterations
                (setting.build_prompt seen completed w) w in
            elim answer [
              | raised error ↦ (raised error, running, w')
              | gave result ↦ (
                gave result,
                record running {
                  result = result.content;
                  status = if result.success then StepStatus.completed else StepStatus.failed;
                },
                w',
              )
            ]
      ]

  -- How the retry loop leaves a step: whether the workflow is aborted, the step, and the last result.
  pub record Stepped : Type 0 where
    pub is_aborted : Bool
    pub step : PlanStep
    pub last : Option (AgentResult Observation)
    pub world : W

  -- What `handle_step_failure`'s action makes of the step, where it is not a retry.
  unfoldable pub give_up :
      WorkflowAction → PlanStep → Option (AgentResult Observation) → W → Stepped
  give_up abort step last w = record { is_aborted = true; step = step; last = last; world = w }
  give_up _ step last w = record {
    is_aborted = false;
    step = record step { status = StepStatus.skipped };
    last = last;
    world = w;
  }

  abbrev keep : PlanStep → Option (AgentResult Observation) → W → Stepped
  keep step last w = record { is_aborted = false; step = step; last = last; world = w }

  abbrev last_of :
      Call (AgentResult Observation)
      → Option (AgentResult Observation)
      → Option (AgentResult Observation)
  last_of (gave r) last = some r
  last_of (raised e) last = last

  abbrev is_left : Call (AgentResult Observation) → StepStatus → Bool
  is_left (gave r) status = is_settled status
  is_left (raised e) status = false

  -- The `while True` loop over one step; `none` if the fuel is spent.
  unfoldable pub run_step :
      (fuel retry_count : ℕ)
      → PlanStep
      → (before after : List PlanStep) → (completed : List PlanStep) → AgentContext
      → Plan
      → Option (AgentResult Observation)
      → W
      → Option Stepped
  unfolding execute handle_step_failure give_up
  run_step zero retry_count step before after completed context plan last w = none
  run_step (suc fuel) retry_count step before after completed context plan last w =
      let (answer, step', w') = execute step before after completed context plan w in
      let last' = last_of answer last in
      let again =
        run_step fuel (suc retry_count) step' before after completed context plan last' w' in
      if is_left answer step'.status
      then some (keep step' last' w')
      else elim (handle_step_failure retry_count setting.max_retries) [
        | retry ↦ again
        | action ↦ some (give_up action step' last' w')
      ]
