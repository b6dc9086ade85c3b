-- ===== src/MultiAgent/Router.antt =====
-- `RuleBasedRouter` of backend/app/multi_agent/router.py; `LLMRouter` there hands on to it.
pub mod Best
use enterprise_ai_agent.Prelude.{
  ℕ, zero, suc, ◌+◌, ltb, Bool, true, false, ◌&&◌, not, Option, none, some, List, [], ◌∷◌, String,
  if◌then◌else◌,
}
use enterprise_ai_agent.Prelude.Text.{str_eq}
use enterprise_ai_agent.Prelude.TextDict.{TextDict}
use enterprise_ai_agent.Workflow.Node.{Value}
use enterprise_ai_agent.MultiAgent.Registry.{
  Words, Agent, RegisteredAgent, AgentRegistry, has_type, task_type_of, get_all, find_handlers,
}

-- `points` for each of the words that stands in the text.
unfoldable pub points_within : Words → (points : ℕ) → List String → String → ℕ
points_within words points [] text = 0
points_within words points (k ∷ ks) text =
    let rest = points_within words points ks text in
    if words.is_within (words.lower k) text then points + rest else rest

module _ {W Observation : Type 0} (words : Words) where
  -- `_score`
  unfoldable pub score : RegisteredAgent W Observation → String → Option (TextDict Value) → ℕ
  unfolding points_within has_type task_type_of
  score entry task_input metadata =
      let lower_input = words.lower task_input in
      (if has_type (task_type_of metadata) entry.profile.capabilities then 10 else 0)
      + points_within words 3 entry.profile.keywords lower_input
      + points_within words 2 entry.profile.capabilities lower_input
      + (if words.is_within (words.lower entry.profile.role) lower_input then 1 else 0)

  unfoldable pub insert_scored :
      (points : RegisteredAgent W Observation → ℕ)
      → RegisteredAgent W Observation
      → List (RegisteredAgent W Observation)
      → List (RegisteredAgent W Observation)
  insert_scored points a [] = a ∷ []
  insert_scored points a (b ∷ rest) =
      if ltb (points a) (points b) then b ∷ insert_scored points a rest else a ∷ b ∷ rest

  -- `scored.sort(key=…, reverse=True)`, which keeps the order of entries with the same score.
  unfoldable pub sort_scored :
      (points : RegisteredAgent W Observation → ℕ)
      → List (RegisteredAgent W Observation)
      → List (RegisteredAgent W Observation)
  unfolding insert_scored
  sort_scored points [] = []
  sort_scored points (a ∷ rest) = insert_scored points a (sort_scored points rest)

  -- The entries that have the task type among their capabilities, if one is given.
  unfoldable pub of_type :
      Option String → List (RegisteredAgent W Observation) → List (RegisteredAgent W Observation)
  unfolding has_type
  of_type none entries = []
  of_type (some t) [] = []
  of_type (some t) (e ∷ entries) =
      let rest = of_type (some t) entries in
      if not (str_eq t "") && has_type (some t) e.profile.capabilities then e ∷ rest else rest

  abbrev agent_of : List (RegisteredAgent W Observation) → Option (Agent W Observation)
  agent_of [] = none
  agent_of (e ∷ entries) = some e.agent

  -- Without a handler: an agent of the task's type, or any.
  unfoldable pub fall_back :
      AgentRegistry W Observation → Option (TextDict Value) → Option (Agent W Observation)
  unfolding of_type task_type_of
  fall_back registry metadata = elim (of_type (task_type_of metadata) (get_all registry)) [
    | [] ↦ agent_of (get_all registry)
    | e ∷ rest ↦ some e.agent
  ]

  unfoldable pub route :
      String → AgentRegistry W Observation → Option (TextDict Value) → Option (Agent W Observation)
  unfolding score sort_scored fall_back
  route task_input registry metadata = elim (find_handlers task_input metadata registry) [
    | [] ↦ fall_back registry metadata
    | e ∷ rest ↦ elim rest [
      | [] ↦ some e.agent
      | e' ∷ more ↦ agent_of (sort_scored (λ x. score x task_input metadata) (e ∷ e' ∷ more))
    ]
  ]
