-- ===== src/Memory/Manager/Writes.antt =====
-- Writes to the project memory and the events that announce them.
use mathlib.Core.List.{append-nil, append_assoc}
use enterprise_ai_agent.Prelude.{
  ℕ, ◌≡◌, refl, sym, ◌∙◌, [], Option, none, some, true, List, ◌∷◌, ◌++◌, String, Bool, false,
  Bool-cases, inl, inr, if◌then◌else◌,
}
use enterprise_ai_agent.Prelude.Text.{str_eq, eq_iff}
use enterprise_ai_agent.Prelude.TextDict.{TextDict, insert, lookup-insert}
use enterprise_ai_agent.Agents.Types.{MemoryRecord}
use enterprise_ai_agent.Memory.Stores.{
  Records, Projects, records_of, save, publish, event, put, bucket_of, get_value,
  ProjectMemoryEntry,
}
use enterprise_ai_agent.Memory.Manager.{
  EnterpriseMemory, write_project, updated, record_software_project,
}

same : (q p : String) → str_eq q p ≡ true → q ≡ p
same q p e = (eq_iff q p).0 e

bucket_of-insert :
    (p q : String) (b : TextDict ProjectMemoryEntry) (d : Projects)
    → bucket_of p (insert q b d) ≡ (if str_eq q p then b else bucket_of p d)
unfolding bucket_of
bucket_of-insert p q b d = elim (Bool-cases (str_eq q p)) [
  | inl e ↦ rw (lookup-insert q p b d, e, bucket_of) refl
  | inr e ↦ rw (lookup-insert q p b d, e, bucket_of) refl
]

get_value-put :
    (p k : String) (now : ℕ) (q j v a : String) (d : Projects)
    → get_value p k (put now q j v a d)
      ≡ (if str_eq q p then (if str_eq j k then some v else get_value p k d) else get_value p k d)
unfolding get_value put
get_value-put p k now q j v a d = elim (Bool-cases (str_eq q p)) [
  | inl e ↦ elim (Bool-cases (str_eq j k)) [
    | inl f ↦ rw (get_value, put, bucket_of-insert p q, e, lookup-insert j k, f) refl
    | inr f ↦ rw (get_value, put, bucket_of-insert p q, e, lookup-insert j k, f, same q p e) refl
  ]
  | inr e ↦ rw (get_value, put, bucket_of-insert p q, e) refl
]

records_of-save :
    (p q : String) (r : MemoryRecord) (d : Records)
    → records_of p (save q r d)
      ≡ (if str_eq q p then records_of p d ++ (r ∷ []) else records_of p d)
unfolding records_of save
records_of-save p q r d = elim (Bool-cases (str_eq q p)) [
  | inl e ↦ rw (records_of, save, lookup-insert q p, e, same q p e) refl
  | inr e ↦ rw (records_of, save, lookup-insert q p, e) refl
]

-- A call of `write_project`, with its clock.
pub record Write : Type 0 where
  pub now : ℕ
  pub project_id : String
  pub key : String
  pub value : String
  pub agent_name : String

unfoldable pub write_all : List Write → EnterpriseMemory → EnterpriseMemory
write_all [] m = m
write_all (w ∷ ws) m = write_all ws (write_project w.now w.project_id w.key w.value w.agent_name m)

-- The value of the last of the writes to a key of a project.
unfoldable pub latest : String → String → List Write → Option String
latest p k [] = none
latest p k (w ∷ ws) =
    let here =
      if str_eq w.project_id p then (if str_eq w.key k then some w.value else none) else none in
    elim (latest p k ws) [ none ↦ here | some v ↦ some v ]

-- One event for each write to the project, in order.
unfoldable pub announced : String → List Write → List MemoryRecord
announced p [] = []
announced p (w ∷ ws) =
    let rest = announced p ws in
    if str_eq w.project_id p
    then event w.now w.project_id w.agent_name (updated w.key) "project_memory" ∷ rest
    else rest

abbrev pub or_before : Option String → Option String → Option String
or_before none before = before
or_before (some v) before = some v

-- What the writes leave, seen from one project.
pub record Written (p k : String) (ws : List Write) (m m' : EnterpriseMemory) : Type 0 where
  pub value : get_value p k m'.project ≡ or_before (latest p k ws) (get_value p k m.project)
  pub events : records_of p m'.shared ≡ records_of p m.shared ++ announced p ws
  pub conversation : m'.conversation ≡ m.conversation
  pub knowledge : m'.knowledge ≡ m.knowledge

or_before-here :
    (later : Option String) (b c : Bool) (v : String) (before : Option String)
    → or_before later (if b then (if c then some v else before) else before)
      ≡ or_before
          (elim later [ none ↦ if b then (if c then some v else none) else none | some u ↦ some u ])
          before
or_before-here (some u) b c v before = refl
or_before-here none true true v before = refl
or_before-here none true false v before = refl
or_before-here none false c v before = refl

value-step :
    (p k : String) (w : Write) (ws : List Write) (m : EnterpriseMemory)
    → or_before
        (latest p k ws)
        (get_value p k (write_project w.now w.project_id w.key w.value w.agent_name m).project)
      ≡ or_before (latest p k (w ∷ ws)) (get_value p k m.project)
unfolding latest write_project
value-step p k w ws m =
    rw (get_value-put p k w.now w.project_id w.key w.value w.agent_name m.project) (
      or_before-here (latest p k ws) (str_eq w.project_id p) (str_eq w.key k) w.value
        (get_value p k m.project))

events-step :
    (p : String) (w : Write) (ws : List Write) (m : EnterpriseMemory)
    → records_of p (write_project w.now w.project_id w.key w.value w.agent_name m).shared
        ++ announced p ws
      ≡ records_of p m.shared ++ announced p (w ∷ ws)
unfolding announced write_project publish
events-step p w ws m = elim (Bool-cases (str_eq w.project_id p)) [
  | inl e ↦
      rw (publish, records_of-save p w.project_id, e)
        (append_assoc (records_of p m.shared) _ (announced p ws))
  | inr e ↦ rw (publish, records_of-save p w.project_id, e) refl
]

-- Any writes to projects, in their order, leave under each key of each project the value of the last
-- write to it, or what was there if there is none; they add to each project's channel one event for
-- each write to the project, in order, and leave conversations and knowledge as they were.
pub write_all-Written :
    (p k : String) (ws : List Write) (m : EnterpriseMemory) → Written p k ws m (write_all ws m)
unfolding write_all write_project latest announced
write_all-Written p k [] m = record {
  value = refl;
  events = sym (append-nil (records_of p m.shared));
  conversation = refl;
  knowledge = refl;
}
write_all-Written p k (w ∷ ws) m =
    let h =
      write_all-Written p k ws (write_project w.now w.project_id w.key w.value w.agent_name m) in
    record {
      value = h.value ∙ value-step p k w ws m;
      events = h.events ∙ events-step p w ws m;
      conversation = h.conversation;
      knowledge = h.knowledge;
    }

-- The writes of `record_software_project`.
unfoldable project_writes : (ℕ → ℕ) → String → String → String → String → String → List Write
project_writes now project_id agent_name requirement task_list_text tasks_json =
    let write : ℕ → String → String → Write = λ i key value. record {
      now = now i;
      project_id = project_id;
      key = key;
      value = value;
      agent_name = agent_name;
    } in
    write 0 "requirement" requirement
    ∷ write 1 "task_list" task_list_text
    ∷ (if str_eq tasks_json ""
        then write 3 "manager_plan" task_list_text ∷ []
        else write 2 "tasks" tasks_json ∷ write 3 "manager_plan" task_list_text ∷ [])

-- `record_software_project` does these writes in this order, and nothing else.
record_software_project-write_all :
    (now : ℕ → ℕ) (project_id agent_name requirement task_list_text tasks_json : String)
    (m : EnterpriseMemory)
    → record_software_project now project_id agent_name requirement task_list_text tasks_json m
      ≡ write_all (project_writes now project_id agent_name requirement task_list_text tasks_json) m
unfolding record_software_project write_all project_writes
record_software_project-write_all now project_id agent_name requirement task_list_text tasks_json
      m =
    elim (Bool-cases (str_eq tasks_json "")) [
      | inl e ↦ rw (e, record_software_project, project_writes) refl
      | inr e ↦ rw (e, record_software_project, project_writes) refl
    ]
