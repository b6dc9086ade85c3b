-- ===== src/MultiAgent/Registry.antt =====
-- `AgentRegistry` of backend/app/multi_agent/registry.py, the `Agent` interface of agent.py and
-- `RoleAgent` of role_agent.py.
--
-- `lower` is Python's method; `is_within needle text` stands for `needle in text`.
use enterprise_ai_agent.Prelude.{
  Bool, true, false, ◌||◌, Option, none, some, List, [], ◌∷◌, String, if◌then◌else◌,
}
use Prim.Native.String.{◌++◌ as str_append}
use enterprise_ai_agent.Prelude.Text.{mem}
use enterprise_ai_agent.Prelude.TextDict.{TextDict, lookup, insert, erase, keys}
use enterprise_ai_agent.Workflow.Node.{Value, str}
use enterprise_ai_agent.Workflow.Value.{truthy}
use enterprise_ai_agent.Agents.Types.{AgentContext, AgentResult, Call}

pub record AgentProfile : Type 0 where
  pub name : String
  pub role : String
  pub description : String
  pub capabilities : List String
  pub supported_tools : List String
  pub supported_resources : List String
  pub keywords : List String

pub record Agent (W Observation : Type 0) : Type 0 where
  pub name : String
  pub profile : Option AgentProfile
  pub run : AgentContext → W → Call (AgentResult Observation) × W
  pub can_handle : String → Option (TextDict Value) → Bool
  pub get_capabilities : List String

pub record Words : Type 0 where
  pub lower : String → String
  pub is_within : String → String → Bool

-- `(metadata or {}).get("task_type", "")` as a text; another value stands in no list of texts.
unfoldable pub task_type_of : Option (TextDict Value) → Option String
task_type_of none = some ""
task_type_of (some metadata) = elim (lookup "task_type" metadata) [
  | none ↦ some ""
  | some v ↦ elim v [ str t ↦ some t | _ ↦ none ]
]

unfoldable pub has_type : Option String → List String → Bool
has_type none names = false
has_type (some t) names = mem t names

-- Whether one of the words stands in the text.
unfoldable pub any_within : Words → List String → String → Bool
any_within words [] text = false
any_within words (k ∷ ks) text =
    if words.is_within (words.lower k) text then true else any_within words ks text

unfoldable pub can_handle_by : Words → AgentProfile → String → Option (TextDict Value) → Bool
unfolding any_within has_type task_type_of
can_handle_by words profile task_input metadata =
    let lower_input = words.lower task_input in
    any_within words profile.keywords lower_input
    || any_within words profile.capabilities lower_input
    || has_type (task_type_of metadata) profile.capabilities

-- `context.metadata.get("current_task")` is there and true.
unfoldable pub has_task : AgentContext → Bool
has_task context = elim (lookup "current_task" context.metadata) [
  | none ↦ false
  | some v ↦ truthy v
]

-- The context that `RoleAgent.run` hands on: with the agent's name and role, and a task.
unfoldable pub role_context : AgentProfile → AgentContext → AgentContext
unfolding has_task
role_context profile context = record context {
  agent_name = profile.name;
  agent_role = profile.role;
  metadata =
      if has_task context
      then context.metadata
      else insert "current_task" (str context.user_message) context.metadata;
}

-- `RoleAgent` on a chat agent, which is a parameter.
unfoldable pub role_agent :
    {W Observation : Type 0}
    → Words
    → AgentProfile
    → (chat_agent : AgentContext → W → Call (AgentResult Observation) × W) → Agent W Observation
unfolding role_context can_handle_by
role_agent words profile chat_agent = record {
  name = profile.name;
  profile = some profile;
  run = λ context w. chat_agent (role_context profile context) w;
  can_handle = λ task_input metadata. can_handle_by words profile task_input metadata;
  get_capabilities = profile.capabilities;
}

pub record RegisteredAgent (W Observation : Type 0) : Type 0 where
  pub agent : Agent W Observation
  pub profile : AgentProfile

abbrev pub AgentRegistry : Type 0 → Type 0 → Type 0
AgentRegistry W Observation = TextDict (RegisteredAgent W Observation)

module _ {W Observation : Type 0} where
  unfoldable pub profile_for : Agent W Observation → Option AgentProfile → AgentProfile
  profile_for agent none = record {
    name = agent.name;
    role = "assistant";
    description = str_append "Agent " agent.name;
    capabilities = agent.get_capabilities;
    supported_tools = [];
    supported_resources = [];
    keywords = [];
  }
  profile_for agent (some p) = record p { name = agent.name }

  unfoldable pub register :
      Agent W Observation
      → Option AgentProfile
      → AgentRegistry W Observation
      → AgentRegistry W Observation
  unfolding profile_for
  register agent profile registry =
      insert agent.name (record { agent = agent; profile = profile_for agent profile }) registry

  unfoldable pub unregister :
      String → AgentRegistry W Observation → Bool × AgentRegistry W Observation
  unregister name registry = elim (lookup name registry) [
    | none ↦ (false, registry)
    | some e ↦ (true, erase name registry)
  ]

  unfoldable pub get : String → AgentRegistry W Observation → Option (RegisteredAgent W Observation)
  get name registry = lookup name registry

  unfoldable pub list_names : AgentRegistry W Observation → List String
  list_names registry = keys registry

  unfoldable pub clear : AgentRegistry W Observation → AgentRegistry W Observation
  clear registry = []

  unfoldable pub get_agent : String → AgentRegistry W Observation → Option (Agent W Observation)
  get_agent name registry = elim (lookup name registry) [ none ↦ none | some e ↦ some e.agent ]

  unfoldable pub get_all : AgentRegistry W Observation → List (RegisteredAgent W Observation)
  get_all [] = []
  get_all ((k, e) ∷ registry) = e ∷ get_all registry

  unfoldable pub find_by_capability :
      String → AgentRegistry W Observation → List (RegisteredAgent W Observation)
  find_by_capability capability [] = []
  find_by_capability capability ((k, e) ∷ registry) =
      let rest = find_by_capability capability registry in
      if mem capability e.profile.capabilities then e ∷ rest else rest

  unfoldable pub find_handlers :
      String
      → Option (TextDict Value)
      → AgentRegistry W Observation
      → List (RegisteredAgent W Observation)
  find_handlers task_input metadata [] = []
  find_handlers task_input metadata ((k, e) ∷ registry) =
      let rest = find_handlers task_input metadata registry in
      if e.agent.can_handle task_input metadata then e ∷ rest else rest
