-- ===== src/MultiAgent/Coordinator.antt =====
-- `Coordinator` of backend/app/multi_agent/coordinator.py, and `Task` of task.py.
--
-- The n-th task of a request gets the n-th of the ids that `uuid4` makes. An agent may raise, which
-- ends the request. `max_agents` is not negative. The tracer only records and is left out.
pub mod Tasks
pub mod Requests
pub mod Status
use Prim.Native.String.{◌++◌ as str_append}
use enterprise_ai_agent.Prelude.{
  ℕ, zero, suc, Bool, true, false, Option, none, some, List, [], ◌∷◌, ◌++◌, String, length, take,
  if◌then◌else◌,
}
use enterprise_ai_agent.Prelude.Int.{ℤ, pos}
use enterprise_ai_agent.Prelude.Text.{str_eq}
use enterprise_ai_agent.Prelude.TextDict.{TextDict, insert}
use enterprise_ai_agent.Workflow.Node.{Value, str, int}
use enterprise_ai_agent.Agents.Types.{AgentContext, AgentResult, Call, gave, raised}
use enterprise_ai_agent.Agents.Step.{plain_result}
use enterprise_ai_agent.MultiAgent.Bus.{MessageBus, send_request, send_response}
use enterprise_ai_agent.MultiAgent.Memory.{
  SharedMemory, set, get_context_snapshot, set_workflow_state, update_workflow_state,
}
use enterprise_ai_agent.MultiAgent.Registry.{Words, Agent, AgentRegistry, any_within, get_agent}
use enterprise_ai_agent.MultiAgent.Router.{route}
use enterprise_ai_agent.MultiAgent.Task.{
  TaskStatus, Task, new_task, AgentConfig, Shared, uses_bus, context_of, join,
}

module _ {W Observation : Type 0} (words : Words) (config : AgentConfig)
    (registry : AgentRegistry W Observation) (session_id : String) where
  unfoldable pub run_single_agent :
      String → Option (TextDict Value) → W → Call (AgentResult Observation) × W
  unfolding plain_result context_of
  run_single_agent user_input metadata w = elim (route words user_input registry metadata) [
    | none ↦ (gave (plain_result false "No agent available to handle the request."), w)
    | some agent ↦
        agent.run
          (context_of session_id user_input (elim metadata [ none ↦ [] | some m ↦ m ]) "" "" []) w
  ]

  -- The request to an agent on the bus, in the mode "bus".
  unfoldable pub announce : String → Task → Shared W → Shared W
  announce agent_name task s =
      let (bus, world) =
        send_request "coordinator" agent_name
          (("task_id", str task.id) ∷ ("goal", str task.goal) ∷ ("input", str task.input) ∷ [])
          task.id s.bus s.world in
      if uses_bus config then record s { bus = bus; world = world } else s

  -- The agent's response on the bus, in the mode "bus".
  unfoldable pub report : String → Task → Bool → Shared W → Shared W
  report agent_name task success s =
      let (bus, world) =
        send_response agent_name "coordinator"
          (("task_id", str task.id) ∷ ("output", str task.output) ∷ []) task.id success s.bus
          s.world in
      if uses_bus config then record s { bus = bus; world = world } else s

  -- The two entries of the shared memory that a result leaves.
  unfoldable pub remember : String → Task → SharedMemory → SharedMemory
  remember agent_name task m =
      set (str_append "agent:" (str_append agent_name ":last_result")) (str task.output) agent_name
        task.id (set (str_append "task:" task.id) (str task.output) agent_name task.id m)

  unfoldable pub task_context :
      Agent W Observation → Task → (goal : String) → SharedMemory → AgentContext
  unfolding context_of
  task_context agent task goal m =
      context_of session_id task.input
        (insert "root_goal" (str goal) (insert "current_task" (str task.goal) task.metadata))
        agent.name (elim agent.profile [ none ↦ "" | some p ↦ p.role ]) (get_context_snapshot m)

  -- `_execute_subtask`
  unfoldable pub execute_subtask :
      Task → (goal : String) → Shared W → Call (AgentResult Observation) × Task × Shared W
  unfolding plain_result announce report remember task_context
  execute_subtask task goal s = elim (route words task.input registry (some task.metadata)) [
    | none ↦ (
      gave (plain_result false "No agent found."),
      record task { status = TaskStatus.failed; output = "No agent found." },
      s,
    )
    | some agent ↦
        let started : Task = record task {
          status = TaskStatus.running;
          assigned_agent = agent.name;
        } in
        let s' = announce agent.name started s in
        let (answer, w) = agent.run (task_context agent started goal s.memory) s'.world in
        elim answer [
          | raised error ↦ (raised error, started, record s' { world = w })
          | gave r ↦
              let ended : Task = record started {
                output = r.content;
                status = if r.success then TaskStatus.completed else TaskStatus.failed;
              } in
              (
                gave r,
                ended,
                report agent.name ended r.success
                    (record s' { memory = remember agent.name ended s'.memory; world = w }),
              )
        ]
  ]

  -- `_decompose`; the ids of the subtasks are those after the first one.
  unfoldable pub decompose : (new_id : ℕ → String) → Task → List Task
  unfolding new_task any_within
  decompose new_id root =
      if any_within (record words { lower = λ k. k }) ("旅行" ∷ "旅游" ∷ "travel" ∷ "东京" ∷ "tokyo" ∷ [])
        (words.lower root.input)
      then new_task (new_id 1) "查询东京天气" "请提供东京未来一周的天气概况与出行建议。" (("task_type", str "weather") ∷ [])
        ∷ new_task (new_id 2) "推荐东京景点" "请推荐东京主要景点与每日游览建议。" (("task_type", str "travel") ∷ [])
        ∷ new_task (new_id 3) "查询东京酒店" "请推荐东京不同预算区间的酒店选择。" (("task_type", str "hotel") ∷ [])
        ∷ []
      else elim (route words root.input registry (some root.metadata)) [
        | none ↦ root ∷ []
        | some agent ↦ new_task (new_id 1) root.goal root.input root.metadata ∷ []
      ]

  -- The lines of the results that are successes, each under its heading.
  unfoldable pub lines_of :
      (heading : String → String → String)
      → List (String × String × AgentResult Observation)
      → List String
  lines_of heading [] = []
  lines_of heading ((agent_name, goal, r) ∷ results) =
      let rest = lines_of heading results in
      if r.success then str_append (heading agent_name goal) r.content ∷ rest else rest

  unfoldable pub synthesis_input :
      (goal : String) → List (String × String × AgentResult Observation) → String
  unfolding lines_of join
  synthesis_input goal results = str_append "用户目标：" (
      str_append goal (
        str_append "\n\n以下是各 Agent 的执行结果，请汇总为一份完整、结构清晰的最终建议：\n\n" (
          join "\n\n" (
            lines_of
              (λ agent_name g.
                str_append "[" (str_append agent_name (str_append "] " (str_append g ":\n"))))
              results))))

  -- `_synthesize`
  unfoldable pub synthesize :
      (goal : String)
      → List (String × String × AgentResult Observation)
      → SharedMemory
      → W
      → Call (AgentResult Observation) × W
  unfolding plain_result synthesis_input lines_of join context_of
  synthesize goal results m w =
      let context =
        context_of session_id (synthesis_input goal results)
          (("current_task", str "汇总最终答案") ∷ ("root_goal", str goal) ∷ []) "summary" ""
          (get_context_snapshot m) in
      let combined = str_append "## " (
        str_append goal (
          str_append "\n\n"
            (join "\n\n" (lines_of (λ a g. str_append "### " (str_append g "\n")) results)))) in
      elim results [
        | [] ↦ (gave (plain_result false "No subtask results to synthesize."), w)
        | (agent_name, g, r) ∷ more ↦ elim more [
          | [] ↦ (gave r, w)
          | next ∷ others ↦ elim (get_agent "summary" registry) [
            | some summary ↦ summary.run context w
            | none ↦ (
              gave (record {
                success = true;
                model = "coordinator";
                content = combined;
                observations = [];
              }),
              w,
            )
          ]
        ]
      ]

  -- The loop over the subtasks: the results, or the error of the first agent that raises.
  unfoldable pub execute_all :
      List Task
      → (goal : String) → List (String × String × AgentResult Observation)
      → Shared W
      → Call (List (String × String × AgentResult Observation)) × Shared W
  unfolding execute_subtask
  execute_all [] goal results s = (gave results, s)
  execute_all (task ∷ tasks) goal results s =
      let (answer, task', s') = execute_subtask task goal s in
      elim answer [
        | raised error ↦ (raised error, s')
        | gave r ↦
            execute_all tasks goal (results ++ ((task'.assigned_agent, task'.goal, r) ∷ [])) s'
      ]

  -- `run` from the root task on.
  unfoldable pub run_tasks :
      (new_id : ℕ → String)
      → String
      → Option (TextDict Value)
      → Shared W
      → Call (AgentResult Observation) × Shared W
  unfolding decompose execute_all synthesize new_task
  run_tasks new_id user_input metadata s =
      let root =
        new_task (new_id 0) user_input user_input (elim metadata [ none ↦ [] | some m ↦ m ]) in
      let subtasks = decompose new_id root in
      let started =
        set_workflow_state
          (("goal", str user_input)
            ∷ ("status", str "running")
            ∷ ("total_tasks", int (pos (length subtasks)))
            ∷ [])
          s.memory in
      let (answers, s') =
        execute_all (take config.max_agents subtasks) user_input []
          (record s { memory = started }) in
      elim answers [
        | raised error ↦ (raised error, s')
        | gave results ↦
            let (final, w') = synthesize user_input results s'.memory s'.world in
            elim final [
              | raised error ↦ (raised error, record s' { world = w' })
              | gave r ↦ (
                gave r,
                record s' {
                  memory = update_workflow_state (("status", str "completed") ∷ []) s'.memory;
                  world = w';
                },
              )
            ]
      ]

  unfoldable pub run :
      (new_id : ℕ → String)
      → String
      → Option (TextDict Value)
      → Shared W
      → Call (AgentResult Observation) × Shared W
  unfolding run_single_agent run_tasks
  run new_id user_input metadata s =
      let (single, w) = run_single_agent user_input metadata s.world in
      if config.enable_multi_agent
      then run_tasks new_id user_input metadata s
      else (single, record s { world = w })
