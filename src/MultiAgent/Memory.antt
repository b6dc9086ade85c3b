-- ===== src/MultiAgent/Memory.antt =====
-- `SharedMemory` of backend/app/multi_agent/shared_memory.py.
use enterprise_ai_agent.Prelude.{Bool, true, false, Option, none, some, [], ◌∷◌, String}
use enterprise_ai_agent.Prelude.TextDict.{TextDict, lookup, insert, erase}
use enterprise_ai_agent.Workflow.Node.{Value}

pub record SharedMemoryEntry : Type 0 where
  pub key : String
  pub value : Value
  pub agent_name : String
  pub task_id : String

pub record SharedMemory : Type 0 where
  pub store : TextDict SharedMemoryEntry
  pub workflow_state : TextDict Value

unfoldable pub set : String → Value → String → String → SharedMemory → SharedMemory
set key value agent_name task_id m = record m {
  store =
      insert key (record { key = key; value = value; agent_name = agent_name; task_id = task_id })
        m.store;
}

unfoldable pub get_entry : String → SharedMemory → Option SharedMemoryEntry
get_entry key m = lookup key m.store

-- `get`, with the default.
unfoldable pub get : String → Value → SharedMemory → Value
get key default m = elim (lookup key m.store) [ none ↦ default | some e ↦ e.value ]

unfoldable pub delete : String → SharedMemory → Bool × SharedMemory
delete key m = elim (lookup key m.store) [
  | none ↦ (false, m)
  | some e ↦ (true, record m { store = erase key m.store })
]

unfoldable pub values_of : TextDict SharedMemoryEntry → TextDict Value
values_of [] = []
values_of ((k, e) ∷ d) = (k, e.value) ∷ values_of d

unfoldable pub get_context_snapshot : SharedMemory → TextDict Value
unfolding values_of
get_context_snapshot m = values_of m.store

unfoldable pub set_workflow_state : TextDict Value → SharedMemory → SharedMemory
set_workflow_state state m = record m { workflow_state = state }

unfoldable pub update_all : TextDict Value → TextDict Value → TextDict Value
update_all [] d = d
update_all ((k, v) ∷ kwargs) d = update_all kwargs (insert k v d)

unfoldable pub update_workflow_state : TextDict Value → SharedMemory → SharedMemory
unfolding update_all
update_workflow_state kwargs m = record m { workflow_state = update_all kwargs m.workflow_state }

unfoldable pub clear : SharedMemory → SharedMemory
clear m = record { store = []; workflow_state = [] }
