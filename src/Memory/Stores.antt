-- ===== src/Memory/Stores.antt =====
-- inmemory.py, short_term.py, long_term.py and shared_memory.py of backend/app/memory.
--
-- Times are clock ticks. Records are values: nothing changes a record after it was handed over.
use Prim.Native.String.{◌++◌ as str_append}
use enterprise_ai_agent.Prelude.{
  ℕ, zero, suc, ◌-◌, Option, none, some, List, [], ◌∷◌, ◌++◌, String, length, drop, map,
}
use enterprise_ai_agent.Prelude.Int.{pos}
use enterprise_ai_agent.Prelude.TextDict.{TextDict, lookup, insert}
use enterprise_ai_agent.Workflow.Node.{Value, int, str, arr, Items, nil, cons}
use enterprise_ai_agent.Workflow.Value.{set_default}
use enterprise_ai_agent.Agents.Types.{MemoryRecord}

-- Lists of records by the id of a session, a channel or a scope.
abbrev pub Records : Type 0
Records = TextDict (List MemoryRecord)

-- `d.get(scope, [])`
unfoldable pub records_of : String → Records → List MemoryRecord
records_of scope d = elim (lookup scope d) [ none ↦ [] | some l ↦ l ]

-- `InMemory.save`, and `d.setdefault(scope, []).append(record)`.
unfoldable pub save : String → MemoryRecord → Records → Records
unfolding records_of
save scope r d = insert scope (records_of scope d ++ (r ∷ [])) d

-- `items[-limit:]`, which is all of them if the limit is 0.
unfoldable pub last_items {ℓ} : {A : Type ℓ} → ℕ → List A → List A
last_items zero items = items
last_items (suc limit) items = drop (length items - suc limit) items

unfoldable pub with_kind : MemoryRecord → MemoryRecord
unfolding set_default
with_kind r = record r { metadata = set_default "memory_kind" (str "conversation") r.metadata }

-- `ShortTermMemory.load`, which sets the kind in the records that stay in the store.
unfoldable pub load_conversation : String → Records → List MemoryRecord × Records
unfolding records_of with_kind
load_conversation session_id d = elim (lookup session_id d) [
  | none ↦ ([], d)
  | some l ↦ (map with_kind l, insert session_id (map with_kind l) d)
]

-- `ShortTermMemory.append`
unfoldable pub append_conversation : String → String → String → TextDict Value → Records → Records
unfolding save
append_conversation session_id role content metadata d =
    save session_id
      (record {
        role = role;
        content = content;
        metadata = insert "memory_kind" (str "conversation") metadata;
      })
      d

unfoldable pub save_record : String → MemoryRecord → Records → Records
unfolding save with_kind
save_record session_id r d = save session_id (with_kind r) d

unfoldable pub tags_of : List String → Items
tags_of [] = nil
tags_of (t ∷ tags) = cons (str t) (tags_of tags)

-- `KnowledgeMemory.append`
unfoldable pub append_knowledge : ℕ → String → String → String → List String → Records → Records
unfolding save tags_of
append_knowledge now scope_id content source tags d =
    save scope_id
      (record {
        role = "knowledge";
        content = content;
        metadata =
            ("memory_kind", str "knowledge")
            ∷ ("source", str source)
            ∷ ("tags", arr (tags_of tags))
            ∷ ("timestamp", int (pos now))
            ∷ [];
      })
      d

unfoldable pub load_knowledge : String → ℕ → Records → List MemoryRecord
unfolding records_of last_items
load_knowledge scope_id limit d = last_items limit (records_of scope_id d)

abbrev pub event : ℕ → String → String → String → String → MemoryRecord
event now channel_id agent_name content message_type = record {
  role = "shared";
  content = content;
  metadata =
      ("memory_kind", str "shared")
      ∷ ("channel_id", str channel_id)
      ∷ ("agent_name", str agent_name)
      ∷ ("message_type", str message_type)
      ∷ ("timestamp", int (pos now))
      ∷ [];
}

-- `SharedMemory.publish`
unfoldable pub publish : ℕ → String → String → String → String → Records → Records
unfolding save
publish now channel_id agent_name content message_type d =
    save channel_id (event now channel_id agent_name content message_type) d

-- `SharedMemory.read`
unfoldable pub read : String → ℕ → Records → List MemoryRecord
unfolding records_of last_items
read channel_id limit d = last_items limit (records_of channel_id d)

pub record ProjectMemoryEntry : Type 0 where
  pub key : String
  pub value : String
  pub agent_name : String
  pub updated_at : ℕ

abbrev pub Projects : Type 0
Projects = TextDict (TextDict ProjectMemoryEntry)

-- `self._projects.get(project_id, {})`
unfoldable pub bucket_of : String → Projects → TextDict ProjectMemoryEntry
bucket_of project_id d = elim (lookup project_id d) [ none ↦ [] | some b ↦ b ]

unfoldable pub put : ℕ → String → String → String → String → Projects → Projects
unfolding bucket_of
put now project_id key value agent_name d =
    insert project_id
      (insert key (record { key = key; value = value; agent_name = agent_name; updated_at = now })
        (bucket_of project_id d))
      d

unfoldable pub get_value : String → String → Projects → Option String
unfolding bucket_of
get_value project_id key d = elim (lookup key (bucket_of project_id d)) [
  | none ↦ none
  | some e ↦ some e.value
]

unfoldable pub plain_values : TextDict ProjectMemoryEntry → TextDict String
plain_values [] = []
plain_values ((k, e) ∷ d) = (k, e.value) ∷ plain_values d

unfoldable pub get_all : String → Projects → TextDict String
unfolding bucket_of plain_values
get_all project_id d = plain_values (bucket_of project_id d)

abbrev pub record_of_entry : String → ProjectMemoryEntry → MemoryRecord
record_of_entry project_id e = record {
  role = "project";
  content = str_append e.key (str_append ": " e.value);
  metadata =
      ("memory_kind", str "project")
      ∷ ("project_id", str project_id)
      ∷ ("key", str e.key)
      ∷ ("agent_name", str e.agent_name)
      ∷ ("updated_at", int (pos e.updated_at))
      ∷ [];
}

unfoldable pub records_of_entries : String → TextDict ProjectMemoryEntry → List MemoryRecord
records_of_entries project_id [] = []
records_of_entries project_id ((k, e) ∷ d) =
    record_of_entry project_id e ∷ records_of_entries project_id d

unfoldable pub to_records : String → Projects → List MemoryRecord
unfolding bucket_of records_of_entries
to_records project_id d = records_of_entries project_id (bucket_of project_id d)
