-- ===== src/MultiAgent/Coordinator/Status.antt =====
-- The workflow state that the coordinator of backend/app/multi_agent/coordinator.py keeps.
use enterprise_ai_agent.Prelude.{
  ℕ, ◌≡◌, refl, ◌∙◌, ap, Bool, Option, none, some, List, [], ◌∷◌, String, length, take,
  if◌then◌else◌, Bool-cases, Option-cases, inl, inr,
}
use enterprise_ai_agent.Prelude.Int.{pos}
use enterprise_ai_agent.Prelude.TextDict.{TextDict, lookup, lookup-insert}
use enterprise_ai_agent.Workflow.Node.{Value, str, int}
use enterprise_ai_agent.Agents.Types.{AgentResult, Call, gave, raised, Call-cases}
use enterprise_ai_agent.MultiAgent.Memory.{
  set, set_workflow_state, update_workflow_state, update_all,
}
use enterprise_ai_agent.MultiAgent.Registry.{Words, AgentRegistry}
use enterprise_ai_agent.MultiAgent.Router.{route}
use enterprise_ai_agent.MultiAgent.Task.{Task, TaskStatus, new_task, AgentConfig, Shared, uses_bus}
use enterprise_ai_agent.MultiAgent.Coordinator.{
  announce, report, remember, task_context, execute_subtask, execute_all, synthesize, run_tasks,
  decompose,
}

-- `status` while the agents run, and once there is a result.
abbrev pub status_after : {A : Type 0} → Call A → String
status_after (gave a) = "completed"
status_after (raised error) = "running"

module _ {W Observation : Type 0} (words : Words) (config : AgentConfig)
    (registry : AgentRegistry W Observation) (session_id : String) where
  announce-memory :
      (agent_name : String) (task : Task) (s : Shared W)
      → (announce words config registry session_id agent_name task s).memory ≡ s.memory
  unfolding announce
  announce-memory agent_name task s = elim (Bool-cases (uses_bus config)) [
    | inl b ↦ rw (b, announce) refl
    | inr b ↦ rw (b, announce) refl
  ]

  report-memory :
      (agent_name : String) (task : Task) (success : Bool) (s : Shared W)
      → (report words config registry session_id agent_name task success s).memory ≡ s.memory
  unfolding report
  report-memory agent_name task success s = elim (Bool-cases (uses_bus config)) [
    | inl b ↦ rw (b, report) refl
    | inr b ↦ rw (b, report) refl
  ]

  execute_subtask-state :
      (task : Task) (goal : String) (s : Shared W)
      → (execute_subtask words config registry session_id task goal s).2.memory.workflow_state
        ≡ s.memory.workflow_state
  unfolding execute_subtask remember set
  execute_subtask-state task goal s =
      elim (Option-cases (route words task.input registry (some task.metadata))) [
        | inl e ↦ rw (e, execute_subtask) refl
        | inr (agent, e) ↦
            let started : Task = record task {
              status = TaskStatus.running;
              assigned_agent = agent.name;
            } in
            let asked = ap (λ m. m.workflow_state) (announce-memory agent.name started s) in
            elim (Call-cases
              (agent.run (task_context words config registry session_id agent started goal s.memory)
                (announce words config registry session_id agent.name started s).world).0) [
                  | inl (x, f) ↦ rw (e, f, execute_subtask) asked
                  | inr (r, f) ↦
                      let ended : Task = record started {
                        output = r.content;
                        status = if r.success then TaskStatus.completed else TaskStatus.failed;
                      } in
                      rw (e, f, execute_subtask)
                        (ap (λ m. m.workflow_state) (report-memory agent.name ended r.success _)
                          ∙ asked)
                ]
      ]

  execute_all-state :
      (tasks : List Task) (goal : String)
      (results : List (String × String × AgentResult Observation)) (s : Shared W)
      → (execute_all words config registry session_id tasks goal results s).1.memory.workflow_state
        ≡ s.memory.workflow_state
  unfolding execute_all
  execute_all-state [] goal results s = refl
  execute_all-state (task ∷ tasks) goal results s =
      let part = execute_subtask words config registry session_id task goal s in
      let h = execute_subtask-state task goal s in
      elim (Call-cases part.0) [
        | inl (x, e) ↦ rw (e, execute_all) h
        | inr (r, e) ↦ rw (e, execute_all) (execute_all-state tasks goal _ part.2 ∙ h)
      ]

  -- With several agents enabled, the status that is left in the workflow state is "completed" if the
  -- request is answered with a result, even one that is no success, and "running" if an agent raised.
  pub run_tasks-status :
      (new_id : ℕ → String) (user_input : String) (metadata : Option (TextDict Value))
      (s : Shared W)
      → lookup "status"
          (run_tasks words config registry session_id new_id user_input metadata
            s).1.memory.workflow_state
        ≡ some (
            str (
              status_after
                (run_tasks words config registry session_id new_id user_input metadata s).0))
  unfolding run_tasks set_workflow_state update_workflow_state update_all lookup
  run_tasks-status new_id user_input metadata s =
      let root =
        new_task (new_id 0) user_input user_input (elim metadata [ none ↦ [] | some m ↦ m ]) in
      let subtasks = decompose words config registry session_id new_id root in
      let state : TextDict Value =
        ("goal", str user_input)
        ∷ ("status", str "running")
        ∷ ("total_tasks", int (pos (length subtasks)))
        ∷ [] in
      let started : Shared W = record s { memory = set_workflow_state state s.memory } in
      let all =
        execute_all words config registry session_id (take config.max_agents subtasks) user_input []
          started in
      let h = execute_all-state (take config.max_agents subtasks) user_input [] started in
      elim (Call-cases all.0) [
        | inl (x, f) ↦ rw (f, run_tasks) (rw h refl)
        | inr (results, f) ↦
            let final =
              synthesize words config registry session_id user_input results all.1.memory
                all.1.world in
            elim (Call-cases final.0) [
              | inl (x, g) ↦ rw (f, g, run_tasks) (rw h refl)
              | inr (r, g) ↦
                  rw (f, g, run_tasks)
                    (lookup-insert "status" "status" (str "completed") all.1.memory.workflow_state)
            ]
      ]
