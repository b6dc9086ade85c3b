-- ===== src/Memory/Manager.antt =====
-- `EnterpriseMemoryManager` of backend/app/memory/memory_manager.py. `now` is the clock of a call.
pub mod Writes
use Prim.Native.String.{◌++◌ as str_append}
use enterprise_ai_agent.Prelude.{
  ℕ, Bool, Option, none, some, List, [], ◌∷◌, ◌++◌, String, if◌then◌else◌,
}
use enterprise_ai_agent.Prelude.Text.{str_eq}
use enterprise_ai_agent.Prelude.TextDict.{TextDict, lookup, insert, erase}
use enterprise_ai_agent.Workflow.Node.{Value, str, obj, Fields, blank, entry}
use enterprise_ai_agent.Workflow.Value.{truthy, set_default}
use enterprise_ai_agent.Agents.Types.{MemoryRecord}
use enterprise_ai_agent.Memory.Stores.{
  Records, Projects, load_conversation, append_conversation, load_knowledge, publish, read, put,
  get_all, to_records,
}

pub record EnterpriseMemory : Type 0 where
  pub conversation : Records
  pub project : Projects
  pub shared : Records
  pub knowledge : Records

-- The first key with a truthy value in one of the two, `str` being Python's.
unfoldable pub first_id :
    (Value → String) → TextDict Value → TextDict Value → List String → Option String
first_id python_str meta shared [] = none
first_id python_str meta shared (key ∷ ks) =
    let rest = first_id python_str meta shared ks in
    let in_shared : Option String = elim (lookup key shared) [
      | none ↦ rest
      | some w ↦ if truthy w then some (python_str w) else rest
    ] in
    elim (lookup key meta) [
      | none ↦ in_shared
      | some v ↦ if truthy v then some (python_str v) else in_shared
    ]

unfoldable pub resolve_project_id :
    (Value → String) → String → TextDict Value → TextDict Value → String
unfolding first_id
resolve_project_id python_str session_id meta shared =
    elim (first_id python_str meta shared ("project_id" ∷ "run_id" ∷ "workflow_run_id" ∷ [])) [
      | none ↦ session_id
      | some i ↦ i
    ]

unfoldable pub save_user_message : String → String → EnterpriseMemory → EnterpriseMemory
unfolding append_conversation
save_user_message session_id content m = record m {
  conversation = append_conversation session_id "user" content [] m.conversation;
}

unfoldable pub save_assistant_message : String → String → EnterpriseMemory → EnterpriseMemory
unfolding append_conversation
save_assistant_message session_id content m = record m {
  conversation = append_conversation session_id "assistant" content [] m.conversation;
}

abbrev pub updated : String → String
updated key = str_append "project:" (str_append key " updated")

unfoldable pub write_project :
    ℕ → String → String → String → String → EnterpriseMemory → EnterpriseMemory
unfolding put publish
write_project now project_id key value agent_name m = record m {
  project = put now project_id key value agent_name m.project;
  shared = publish now project_id agent_name (updated key) "project_memory" m.shared;
}

unfoldable pub load_project_snapshot : String → EnterpriseMemory → TextDict String
unfolding get_all
load_project_snapshot project_id m = get_all project_id m.project

unfoldable pub snapshot_fields : TextDict String → Fields
snapshot_fields [] = blank
snapshot_fields ((k, v) ∷ d) = entry k (str v) (snapshot_fields d)

-- `merged.setdefault(key, snapshot[key])` if the snapshot has a text there that is not empty.
unfoldable pub default_from : TextDict String → String → TextDict Value → TextDict Value
unfolding set_default
default_from snapshot key merged = elim (lookup key snapshot) [
  | none ↦ merged
  | some v ↦ if str_eq v "" then merged else set_default key (str v) merged
]

unfoldable pub sync_project_to_shared_context :
    String → TextDict Value → EnterpriseMemory → TextDict Value
unfolding load_project_snapshot snapshot_fields default_from
sync_project_to_shared_context project_id shared_context m =
    let snapshot = load_project_snapshot project_id m in
    default_from snapshot "manager_plan" (
      default_from snapshot "architecture" (
        default_from snapshot "tasks" (
          default_from snapshot "task_list" (
            insert "project_id" (str project_id)
              (insert "project_memory" (obj (snapshot_fields snapshot)) shared_context)))))

-- `x or default`, and whether there is such a text.
unfoldable pub given_or : Option String → String → String
given_or none default = default
given_or (some s) default = if str_eq s "" then default else s

unfoldable pub knowledge_of : Option String → Records → List MemoryRecord
unfolding load_knowledge
knowledge_of none d = []
knowledge_of (some scope) d = if str_eq scope "" then [] else load_knowledge scope 50 d

-- `load_merged`; the store of conversations is what loading makes of it.
unfoldable pub load_merged :
    String
    → (project_id knowledge_scope : Option String) → (include_shared : Bool) → EnterpriseMemory
    → List MemoryRecord × EnterpriseMemory
unfolding load_conversation to_records read knowledge_of given_or
load_merged session_id project_id knowledge_scope include_shared m =
    let pid = given_or project_id session_id in
    let (own, conversation) = load_conversation session_id m.conversation in
    (
      own
          ++ (to_records pid m.project
              ++ ((if include_shared then read pid 100 m.shared else [])
                  ++ knowledge_of knowledge_scope m.knowledge)),
      record m { conversation = conversation },
    )

-- `now` gives the clock of each of the writes.
unfoldable pub record_software_project :
    (now : ℕ → ℕ)
    → (project_id agent_name requirement task_list_text tasks_json : String) → EnterpriseMemory
    → EnterpriseMemory
unfolding write_project
record_software_project now project_id agent_name requirement task_list_text tasks_json m =
    let m = write_project (now 0) project_id "requirement" requirement agent_name m in
    let m = write_project (now 1) project_id "task_list" task_list_text agent_name m in
    let with_tasks = write_project (now 2) project_id "tasks" tasks_json agent_name m in
    let m = if str_eq tasks_json "" then m else with_tasks in
    write_project (now 3) project_id "manager_plan" task_list_text agent_name m

unfoldable pub clear_project : String → EnterpriseMemory → EnterpriseMemory
clear_project project_id m = record m {
  project = erase project_id m.project;
  shared = erase project_id m.shared;
}

unfoldable pub clear_session : String → Option String → EnterpriseMemory → EnterpriseMemory
unfolding clear_project
clear_session session_id none m = record m { conversation = erase session_id m.conversation }
clear_session session_id (some project_id) m =
    let m' = record m { conversation = erase session_id m.conversation } in
    let cleared = clear_project project_id m' in if str_eq project_id "" then m' else cleared
