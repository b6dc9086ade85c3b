-- ===== src/MultiAgent/Task.antt =====
-- `Task` of backend/app/multi_agent/task.py, and what the parts of a request share.
use Prim.Native.String.{◌++◌ as str_append}
use enterprise_ai_agent.Prelude.{ℕ, Bool, none, List, [], ◌∷◌, String}
use enterprise_ai_agent.Prelude.Text.{str_eq}
use enterprise_ai_agent.Prelude.TextDict.{TextDict}
use enterprise_ai_agent.Workflow.Node.{Value}
use enterprise_ai_agent.Agents.Types.{AgentContext}
use enterprise_ai_agent.MultiAgent.Bus.{MessageBus}
use enterprise_ai_agent.MultiAgent.Memory.{SharedMemory}

pub data TaskStatus : Type 0 where
  pending running completed failed delegated : TaskStatus

pub record Task : Type 0 where
  pub goal : String
  pub input : String
  pub id : String
  pub output : String
  pub status : TaskStatus
  pub metadata : TextDict Value
  pub assigned_agent : String

unfoldable pub new_task : String → String → String → TextDict Value → Task
new_task id goal input metadata = record {
  goal = goal;
  input = input;
  id = id;
  output = "";
  status = TaskStatus.pending;
  metadata = metadata;
  assigned_agent = "";
}

pub record AgentConfig : Type 0 where
  pub enable_multi_agent : Bool
  pub max_agents : ℕ
  pub communication_mode : String

-- The objects that the parts of a request share.
pub record Shared (W : Type 0) : Type 0 where
  pub bus : MessageBus W
  pub memory : SharedMemory
  pub world : W

abbrev pub uses_bus : AgentConfig → Bool
uses_bus config = str_eq config.communication_mode "bus"

unfoldable pub context_of :
    String → String → TextDict Value → String → String → TextDict Value → AgentContext
context_of session_id user_message metadata agent_name agent_role shared_context = record {
  session_id = session_id;
  user_message = user_message;
  history = [];
  plan = none;
  current_step = none;
  metadata = metadata;
  agent_name = agent_name;
  agent_role = agent_role;
  shared_context = shared_context;
}

-- `"sep".join(parts)`
unfoldable pub join : String → List String → String
join separator [] = ""
join separator (p ∷ []) = p
join separator (p ∷ q ∷ parts) = str_append p (str_append separator (join separator (q ∷ parts)))
