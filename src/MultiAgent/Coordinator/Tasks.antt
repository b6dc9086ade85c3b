-- ===== src/MultiAgent/Coordinator/Tasks.antt =====
-- What a request to the coordinator of backend/app/multi_agent/coordinator.py leaves on the bus.
use mathlib.Core.List.{append-nil, append_assoc}
use enterprise_ai_agent.Prelude.{
  ℕ, ◌≤◌, ◌≡◌, refl, sym, ◌∙◌, Bool, true, false, some, List, [], ◌∷◌, ◌++◌, String, length,
  if◌then◌else◌, arith, Bool-cases, Option-cases, inl, inr,
}
use enterprise_ai_agent.Workflow.Node.{str}
use enterprise_ai_agent.Agents.Types.{Call, gave, raised, Call-cases}
use enterprise_ai_agent.MultiAgent.Bus.{
  MessageType, AgentMessage, create_request, create_response, publish, send_request, send_response,
}
use enterprise_ai_agent.MultiAgent.Registry.{Words, AgentRegistry}
use enterprise_ai_agent.MultiAgent.Router.{route}
use enterprise_ai_agent.MultiAgent.Task.{Task, TaskStatus, AgentConfig, Shared, uses_bus}
use enterprise_ai_agent.MultiAgent.Coordinator.{announce, report, task_context, execute_subtask}

-- A request of the coordinator to an agent.
pub record IsRequest (m : AgentMessage) : Type 0 where
  pub type : m.message_type ≡ MessageType.request
  pub sender : m.sender ≡ "coordinator"

-- The answer of that agent to the request.
pub record IsAnswer (q a : AgentMessage) : Type 0 where
  pub type : a.message_type ≡ MessageType.response
  pub sender : a.sender ≡ q.receiver
  pub receiver : a.receiver ≡ "coordinator"
  pub correlated : a.correlation_id ≡ q.correlation_id

-- Requests, each followed by its answer; the last one may be open, where the flag is false.
pub data Exchanges : Bool → List AgentMessage → Type 0 where
  quiet : Exchanges true []
  exchange :
      {b : Bool} {rest : List AgentMessage} (q a : AgentMessage)
      → IsRequest q
      → IsAnswer q a
      → Exchanges b rest
      → Exchanges b (q ∷ a ∷ rest)
  open_request : (q : AgentMessage) → IsRequest q → Exchanges false (q ∷ [])

-- What a part of a request adds to the bus: exchanges, all of them answered if it gives a result,
-- at most so many messages, and none outside of the mode "bus".
pub record Adds {A : Type 0} (config : AgentConfig) (bound : ℕ) (before after : List AgentMessage)
    (answer : Call A) : Type 0 where
  pub added : List AgentMessage
  pub extends : after ≡ before ++ added
  pub answered : Bool
  pub exchanges : Exchanges answered added
  pub given : (a : A) → answer ≡ gave a → answered ≡ true
  pub bounded : length added ≤ bound
  pub silent : uses_bus config ≡ false → added ≡ []

module _ {W Observation : Type 0} (words : Words) (config : AgentConfig)
    (registry : AgentRegistry W Observation) (session_id : String) where
  pub Adds-nothing :
      {A : Type 0} (bound : ℕ) (h : List AgentMessage) (answer : Call A)
      → Adds config bound h h answer
  Adds-nothing bound h answer = record {
    added = [];
    extends = sym (append-nil h);
    answered = true;
    exchanges = quiet;
    given = λ a e. refl;
    bounded = omega arith;
    silent = λ e. refl;
  }

  abbrev request_to : String → Task → AgentMessage
  request_to agent_name task =
      create_request "coordinator" agent_name
        (("task_id", str task.id) ∷ ("goal", str task.goal) ∷ ("input", str task.input) ∷ [])
        task.id

  abbrev answer_of : String → Task → Bool → AgentMessage
  answer_of agent_name task success =
      create_response agent_name "coordinator"
        (("task_id", str task.id) ∷ ("output", str task.output) ∷ []) task.id success

  history-announce :
      (agent_name : String) (task : Task) (s : Shared W)
      → (announce words config registry session_id agent_name task s).bus.history
        ≡ s.bus.history ++ (if uses_bus config then request_to agent_name task ∷ [] else [])
  unfolding announce send_request publish
  history-announce agent_name task s = elim (Bool-cases (uses_bus config)) [
    | inl b ↦ rw (b, announce) refl
    | inr b ↦ rw (b, announce) (sym (append-nil s.bus.history))
  ]

  history-report :
      (agent_name : String) (task : Task) (success : Bool) (s : Shared W)
      → (report words config registry session_id agent_name task success s).bus.history
        ≡ s.bus.history ++ (if uses_bus config then answer_of agent_name task success ∷ [] else [])
  unfolding report send_response publish
  history-report agent_name task success s = elim (Bool-cases (uses_bus config)) [
    | inl b ↦ rw (b, report) refl
    | inr b ↦ rw (b, report) (sym (append-nil s.bus.history))
  ]

  open_Adds :
      {A : Type 0} (agent_name : String) (task : Task) (error : String)
      {before after : List AgentMessage}
      → after ≡ before ++ (if uses_bus config then request_to agent_name task ∷ [] else [])
      → Adds {A = A} config 2 before after (raised error)
  unfolding create_request
  open_Adds agent_name task error {before = before} h = elim (Bool-cases (uses_bus config)) [
    | inl b ↦ record {
      added = request_to agent_name task ∷ [];
      extends = rw b at h;
      answered = false;
      exchanges = open_request _ (record { type = refl; sender = refl });
      given = λ a e. cc;
      bounded = omega arith;
      silent = λ e. cc;
    }
    | inr b ↦ record {
      added = [];
      extends = rw b at h;
      answered = true;
      exchanges = quiet;
      given = λ a e. refl;
      bounded = omega arith;
      silent = λ e. refl;
    }
  ]

  answered_Adds :
      {A : Type 0} (agent_name : String) (task ended : Task) (success : Bool) (r : A)
      {before between after : List AgentMessage}
      → ended.id ≡ task.id
      → between ≡ before ++ (if uses_bus config then request_to agent_name task ∷ [] else [])
      → after ≡ between ++ (if uses_bus config then answer_of agent_name ended success ∷ [] else [])
      → Adds config 2 before after (gave r)
  unfolding create_request create_response
  answered_Adds agent_name task ended success r {before = before} {between = between} i h k =
      elim (Bool-cases (uses_bus config)) [
        | inl b ↦
            let h' : between ≡ before ++ (request_to agent_name task ∷ []) = rw b at h in
            record {
              added = request_to agent_name task ∷ answer_of agent_name ended success ∷ [];
              extends = (rw (b, h') at k) ∙ append_assoc before _ _;
              answered = true;
              exchanges =
                  exchange _ _ (record { type = refl; sender = refl })
                    (record { type = refl; sender = refl; receiver = refl; correlated = i }) quiet;
              given = λ a e. refl;
              bounded = omega arith;
              silent = λ e. cc;
            }
        | inr b ↦
            let h' : between ≡ before ++ [] = rw b at h in
            record {
              added = [];
              extends = (rw (b, h') at k) ∙ append_assoc before [] [];
              answered = true;
              exchanges = quiet;
              given = λ a e. refl;
              bounded = omega arith;
              silent = λ e. refl;
            }
      ]

  pub execute_subtask-Adds :
      (task : Task) (goal : String) (s : Shared W)
      → Adds config 2 s.bus.history
          (execute_subtask words config registry session_id task goal s).2.bus.history
          (execute_subtask words config registry session_id task goal s).0
  unfolding execute_subtask
  execute_subtask-Adds task goal s =
      elim (Option-cases (route words task.input registry (some task.metadata))) [
        | inl e ↦ rw (e, execute_subtask) (Adds-nothing 2 s.bus.history _)
        | inr (agent, e) ↦
            let started : Task = record task {
              status = TaskStatus.running;
              assigned_agent = agent.name;
            } in
            let asked = history-announce agent.name started s in
            elim (Call-cases
              (agent.run (task_context words config registry session_id agent started goal s.memory)
                (announce words config registry session_id agent.name started s).world).0) [
                  | inl (x, f) ↦ rw (e, f, execute_subtask) (open_Adds agent.name started x asked)
                  | inr (r, f) ↦
                      let ended : Task = record started {
                        output = r.content;
                        status = if r.success then TaskStatus.completed else TaskStatus.failed;
                      } in
                      rw (e, f, execute_subtask)
                        (answered_Adds agent.name started ended r.success r refl asked
                          (history-report agent.name ended r.success _))
                ]
      ]
