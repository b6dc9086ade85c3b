-- ===== src/Agents/Plan.antt =====
-- `SequentialWorkflow` of backend/app/agents/executor/plan/workflow.py, `StepExecutor.synthesize` of
-- step_executor.py, and `WorkflowExecutor.run` of workflow_executor.py.
--
-- `max_plan_steps` is not negative. The log and the tracer only record and are left out.
pub mod Steps
pub mod Built
use Prim.Native.String.{◌++◌ as str_append}
use enterprise_ai_agent.Prelude.{
  ℕ, zero, suc, ◌+◌, ltb, ◌==◌, Bool, true, false, ◌&&◌, not, Option, none, some, List, [], ◌∷◌,
  ◌++◌, String, length, take, drop, if◌then◌else◌,
}
use enterprise_ai_agent.Prelude.Text.{str_eq}
use enterprise_ai_agent.Prelude.TextDict.{TextDict, lookup, insert}
use enterprise_ai_agent.Workflow.Node.{Value, str}
use enterprise_ai_agent.Agents.Types.{
  Message, ToolResult, AgentResult, PlanStatus, StepStatus, PlanStep, Plan, AgentContext, Call,
  gave, raised,
}
use enterprise_ai_agent.Agents.Loop.{Services, run_agent_loop}
use enterprise_ai_agent.Agents.Step.{Setting, Stepped, run_step, plain_result, is_completed}

-- The steps that are COMPLETED with a result that is not empty.
unfoldable pub with_result : List PlanStep → List PlanStep
with_result [] = []
with_result (s ∷ steps) =
    if is_completed s.status && not (str_eq s.result "")
    then s ∷ with_result steps
    else with_result steps

line_of : PlanStep → String
line_of s = str_append "- " (str_append s.description (str_append ": " s.result))

-- `"\n".join(f"- {description}: {result}" …)`
unfoldable pub summary_lines : List PlanStep → String
unfolding line_of
summary_lines [] = ""
summary_lines (s ∷ []) = line_of s
summary_lines (s ∷ t ∷ rest) = str_append (line_of s) (str_append "\n" (summary_lines (t ∷ rest)))

-- The result of the last step of a list.
unfoldable pub last_step_result : List PlanStep → String
last_step_result [] = ""
last_step_result (s ∷ []) = s.result
last_step_result (s ∷ t ∷ rest) = last_step_result (t ∷ rest)

module _ {W Observation : Type 0} (setting : Setting W Observation) where
  -- How the loop over the steps is left: the steps passed, those of them that are completed, and the
  -- steps that are left over after an abort.
  pub record Passed : Type 0 where
    pub is_aborted : Bool
    pub passed : List PlanStep
    pub left_over : List PlanStep
    pub completed : List PlanStep
    pub last : Option (AgentResult Observation)
    pub world : W

  unfoldable pub run_steps :
      (steps : List PlanStep)
      → (before beyond : List PlanStep) → (completed : List PlanStep) → AgentContext
      → Plan
      → Option (AgentResult Observation)
      → W
      → Option Passed
  unfolding run_step
  run_steps [] before beyond completed context plan last w = some (record {
    is_aborted = false;
    passed = before;
    left_over = beyond;
    completed = completed;
    last = last;
    world = w;
  })
  run_steps (step ∷ steps) before beyond completed context plan last w =
      elim (run_step setting (suc setting.max_retries) 0 step before (steps ++ beyond) completed
        context plan last w) [
          | none ↦ none
          | some s ↦ elim s.is_aborted [
            | true ↦ some (record {
              is_aborted = true;
              passed = before ++ (s.step ∷ []);
              left_over = steps ++ beyond;
              completed = completed;
              last = s.last;
              world = s.world;
            })
            | false ↦
                run_steps steps (before ++ (s.step ∷ [])) beyond
                  (if is_completed s.step.status then completed ++ (s.step ∷ []) else completed)
                  context plan s.last s.world
          ]
        ]

  unfoldable pub synthesize : Plan → List Message → W → Call (AgentResult Observation) × W
  unfolding with_result summary_lines plain_result
  synthesize plan base_messages w =
      let ask : Message = record {
        role = "user";
        content = some (
            str_append
              "Based on the completed plan steps below, provide a final consolidated answer for the goal: "
              (str_append plan.goal (str_append "\n\n" (summary_lines (with_result plan.steps)))));
        tool_call_id = none;
        name = none;
        tool_calls = none;
      } in
      let (answer, messages, w') =
        run_agent_loop setting.services setting.max_iterations (base_messages ++ (ask ∷ [])) w in
      elim (with_result plan.steps) [
        | [] ↦ (answer, w')
        | s ∷ rest ↦ elim rest [
          | [] ↦ (gave (plain_result true s.result), w)
          | t ∷ more ↦ (answer, w')
        ]
      ]

  -- The end of `SequentialWorkflow.run`.
  unfoldable pub conclude_run :
      Plan → Passed → List Message → Call (AgentResult Observation) × Plan × W
  unfolding synthesize plain_result
  conclude_run plan p base_messages =
      let ended = record plan { steps = p.passed ++ p.left_over } in
      elim p.completed [
        | [] ↦ (
          gave (plain_result false "No plan steps completed successfully."),
          record ended { status = PlanStatus.failed },
          p.world,
        )
        | s ∷ done ↦
            let (answer, w') = synthesize ended base_messages p.world in
            elim answer [
              | raised error ↦ (raised error, ended, w')
              | gave result ↦ (
                gave result,
                record ended {
                  status = if result.success then PlanStatus.completed else PlanStatus.failed;
                },
                w',
              )
            ]
      ]

  -- The result of an abort: that of the step, which is the last one passed.
  unfoldable pub abort_run : Plan → Passed → String → Call (AgentResult Observation) × Plan × W
  abort_run plan p content = (
    gave (record {
      success = false;
      model = elim p.last [ none ↦ "" | some r ↦ r.model ];
      content = if str_eq content "" then "Workflow aborted." else content;
      observations = [];
    }),
    record plan { steps = p.passed ++ p.left_over; status = PlanStatus.aborted },
    p.world,
  )

  -- `SequentialWorkflow.run`
  unfoldable pub run_plan :
      Plan → AgentContext → List Message → W → Option (Call (AgentResult Observation) × Plan × W)
  unfolding run_steps conclude_run abort_run last_step_result
  run_plan plan context base_messages w =
      let started = record plan { status = PlanStatus.running } in
      elim (run_steps (take setting.max_plan_steps plan.steps) []
        (drop setting.max_plan_steps plan.steps) [] context started none w) [
          | none ↦ none
          | some p ↦
              if p.is_aborted
              then some (abort_run started p (last_step_result p.passed))
              else some (conclude_run started p base_messages)
        ]

  -- `WorkflowExecutor.run`; the planner answers with a plan, or raises.
  unfoldable pub run_request :
      (enable_planner : Bool)
      → (planner : AgentContext → W → Call Plan × W) → AgentContext
      → List Message
      → W
      → Option (Call (AgentResult Observation) × W)
  unfolding run_plan
  run_request enable_planner planner context base_messages w =
      let (direct, messages, w') =
        run_agent_loop setting.services setting.max_iterations base_messages w in
      let (answer, v) = planner context w in
      elim enable_planner [
        | false ↦ some (direct, w')
        | true ↦ elim answer [
          | raised error ↦
              let (result, messages', v') =
                run_agent_loop setting.services setting.max_iterations base_messages v in
              some (result, v')
          | gave plan ↦ elim (run_plan plan (record context { plan = some plan }) base_messages v) [
            | none ↦ none
            | some (result, plan', v') ↦ some (result, v')
          ]
        ]
      ]
