-- ===== src/MultiAgent/Tests.antt =====
-- A request to the coordinator of backend/app/multi_agent/coordinator.py.
use enterprise_ai_agent.Prelude.{
  ℕ, zero, suc, ◌+◌, ◌≡◌, ◌≢◌, refl, true, none, some, [], ◌∷◌, String,
}
use mathlib.Core.List.{cons≢nil}
use enterprise_ai_agent.Prelude.Text.{str_eq, occ}
use enterprise_ai_agent.Prelude.TextDict.{lookup}
use enterprise_ai_agent.Workflow.Node.{str}
use enterprise_ai_agent.Agents.Types.{AgentContext, AgentResult, Call, gave}
use enterprise_ai_agent.MultiAgent.Registry.{
  AgentProfile, Words, AgentRegistry, RegisteredAgent, role_agent, find_handlers, can_handle_by,
  any_within, has_type, task_type_of,
}
use enterprise_ai_agent.MultiAgent.Router.{route}
use enterprise_ai_agent.MultiAgent.Router.Best.{BestHandler, route-BestHandler}
use enterprise_ai_agent.MultiAgent.Task.{AgentConfig, Shared}
use enterprise_ai_agent.MultiAgent.Coordinator.{run, run_tasks}
use enterprise_ai_agent.MultiAgent.Coordinator.Tasks.{Adds}
use enterprise_ai_agent.MultiAgent.Coordinator.Requests.{run-Adds}
use enterprise_ai_agent.MultiAgent.Coordinator.Status.{status_after, run_tasks-status}

-- A text stands in another one here if the two are equal.
abbrev words : Words
words = record { lower = λ t. t; is_within = str_eq }

abbrev profile : String → String → AgentProfile
profile name keyword = record {
  name = name;
  role = "assistant";
  description = "";
  capabilities = [];
  supported_tools = [];
  supported_resources = [];
  keywords = keyword ∷ [];
}

abbrev chat_agent : AgentContext → ℕ → Call (AgentResult String) × ℕ
chat_agent context w = (
  gave (record { success = true; model = "m"; content = context.user_message; observations = [] }),
  suc w,
)

abbrev entry : AgentProfile → RegisteredAgent ℕ String
entry p = record { agent = role_agent words p chat_agent; profile = p }

abbrev registry : AgentRegistry ℕ String
registry =
    ("weather", entry (profile "weather" "rain"))
    ∷ ("travel", entry (profile "travel" "travel"))
    ∷ []

abbrev config : AgentConfig
config = record { enable_multi_agent = true; max_agents = 2; communication_mode = "bus" }

abbrev shared : Shared ℕ
shared = record {
  bus = record { handlers = []; history = [] };
  memory = record { store = []; workflow_state = [] };
  world = 0;
}

abbrev new_id : ℕ → String
new_id zero = "root"
new_id (suc n) = "part"

abbrev travel_entry : RegisteredAgent ℕ String
travel_entry = entry (profile "travel" "travel")

handlers_of_travel : find_handlers "travel" none registry ≡ travel_entry ∷ []
unfolding find_handlers role_agent can_handle_by any_within has_type task_type_of occ
handlers_of_travel = refl

travel_handled : find_handlers "travel" none registry ≢ []
travel_handled = λ e. cons≢nil (rw handlers_of_travel at e)

route-BestHandler_example :
    BestHandler words "travel" registry none (route words "travel" registry none)
route-BestHandler_example = route-BestHandler words "travel" registry none travel_handled

run-Adds_example :
    Adds config
      (2 + 2)
      []
      (run words config registry "s" new_id "travel" none shared).1.bus.history
      (run words config registry "s" new_id "travel" none shared).0
run-Adds_example = run-Adds words config registry "s" new_id "travel" none shared

run_tasks-status_example :
    lookup "status"
      (run_tasks words config registry "s" new_id "travel" none shared).1.memory.workflow_state
    ≡ some (str (status_after (run_tasks words config registry "s" new_id "travel" none shared).0))
run_tasks-status_example = run_tasks-status words config registry "s" new_id "travel" none shared
