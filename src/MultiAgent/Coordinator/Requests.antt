-- ===== src/MultiAgent/Coordinator/Requests.antt =====
-- What a whole request to the coordinator of backend/app/multi_agent/coordinator.py leaves.
use mathlib.Core.List.{append_assoc}
use enterprise_ai_agent.Prelude.{
  ℕ, ◌+◌, ◌≤◌, refl, ap, subst, ◌∙◌, Bool, true, false, Option, none, some, List, [], ◌∷◌, ◌++◌,
  String, length, take, length-take, length-append, if◌then◌else◌, arith, inl, inr,
}
use enterprise_ai_agent.Prelude.Int.{pos}
use enterprise_ai_agent.Prelude.TextDict.{TextDict}
use enterprise_ai_agent.Workflow.Node.{Value, str, int}
use enterprise_ai_agent.Agents.Types.{AgentResult, Call, gave, raised, Call-cases}
use enterprise_ai_agent.MultiAgent.Bus.{AgentMessage}
use enterprise_ai_agent.MultiAgent.Memory.{set_workflow_state}
use enterprise_ai_agent.MultiAgent.Registry.{Words, AgentRegistry}
use enterprise_ai_agent.MultiAgent.Task.{Task, new_task, AgentConfig, Shared}
use enterprise_ai_agent.MultiAgent.Coordinator.{
  execute_subtask, execute_all, synthesize, run, run_tasks, decompose,
}
use enterprise_ai_agent.MultiAgent.Coordinator.Tasks.{
  Adds, Adds-nothing, Exchanges, quiet, exchange, execute_subtask-Adds,
}

Exchanges-append :
    {b : Bool} {ms ns : List AgentMessage}
    → Exchanges true ms
    → Exchanges b ns
    → Exchanges b (ms ++ ns)
Exchanges-append quiet e = e
Exchanges-append (exchange q a i j rest) e = exchange q a i j (Exchanges-append rest e)

-- Two parts one after the other, the first of which gave a result.
Adds-both :
    {A B : Type 0} {config : AgentConfig} {m n t : ℕ} {before between after : List AgentMessage}
    {answer : Call B} (a : A)
    → m + n ≤ t
    → Adds config m before between (gave a)
    → Adds config n between after answer
    → Adds config t before after answer
Adds-both {before = before} a le h k = record {
  added = h.added ++ k.added;
  extends = k.extends ∙ ap (λ l. l ++ k.added) h.extends ∙ append_assoc before h.added k.added;
  answered = k.answered;
  exchanges =
      Exchanges-append (subst (λ b. Exchanges b h.added) (h.given a refl) h.exchanges) k.exchanges;
  given = k.given;
  bounded = omega (arith, length-append h.added k.added, h.bounded, k.bounded, le);
  silent = λ e. rw (h.silent e, k.silent e) refl;
}

either_way {ℓ κ} :
    {A : Type ℓ} (P : A → Type κ) (b : Bool) (x y : A) → P x → P y → P (if b then x else y)
either_way P true x y p q = p
either_way P false x y p q = q

-- The answer of the whole where a part of it raised, and where it gave a result.
Adds-raised :
    {A B : Type 0} {config : AgentConfig} {m n : ℕ} {before after : List AgentMessage}
    (error : String)
    → m ≤ n
    → Adds {A = A} config m before after (raised error)
    → Adds {A = B} config n before after (raised error)
Adds-raised error le h = record {
  added = h.added;
  extends = h.extends;
  answered = h.answered;
  exchanges = h.exchanges;
  given = λ b e. cc;
  bounded = omega (arith, h.bounded);
  silent = h.silent;
}

Adds-then :
    {A B : Type 0} {config : AgentConfig} {m n : ℕ} {before after : List AgentMessage} (a : A)
    (answer : Call B)
    → m ≤ n
    → Adds config m before after (gave a)
    → Adds config n before after answer
Adds-then a answer le h = record {
  added = h.added;
  extends = h.extends;
  answered = h.answered;
  exchanges = h.exchanges;
  given = λ b e. h.given a refl;
  bounded = omega (arith, h.bounded);
  silent = h.silent;
}

module _ {W Observation : Type 0} (words : Words) (config : AgentConfig)
    (registry : AgentRegistry W Observation) (session_id : String) where
  execute_all-Adds :
      (tasks : List Task) (goal : String)
      (results : List (String × String × AgentResult Observation)) (s : Shared W)
      → Adds config
          (length tasks + length tasks)
          s.bus.history
          (execute_all words config registry session_id tasks goal results s).1.bus.history
          (execute_all words config registry session_id tasks goal results s).0
  unfolding execute_all
  execute_all-Adds [] goal results s =
      Adds-nothing words config registry session_id 0 s.bus.history _
  execute_all-Adds (task ∷ tasks) goal results s =
      let part = execute_subtask words config registry session_id task goal s in
      let h = execute_subtask-Adds words config registry session_id task goal s in
      elim (Call-cases part.0) [
        | inl (x, e) ↦
            rw (e, execute_all)
              (Adds-raised x (omega arith)
                (subst (λ c. Adds config 2 s.bus.history part.2.bus.history c) e h))
        | inr (r, e) ↦
            let rest =
              execute_all-Adds tasks goal
                (results ++ ((part.1.assigned_agent, part.1.goal, r) ∷ [])) part.2 in
            rw (e, execute_all)
              (Adds-both r (omega arith)
                (subst (λ c. Adds config 2 s.bus.history part.2.bus.history c) e h) rest)
      ]

  run_tasks-Adds :
      (new_id : ℕ → String) (user_input : String) (metadata : Option (TextDict Value))
      (s : Shared W)
      → Adds config
          (config.max_agents + config.max_agents)
          s.bus.history
          (run_tasks words config registry session_id new_id user_input metadata s).1.bus.history
          (run_tasks words config registry session_id new_id user_input metadata s).0
  unfolding run_tasks set_workflow_state
  run_tasks-Adds new_id user_input metadata s =
      let root =
        new_task (new_id 0) user_input user_input (elim metadata [ none ↦ [] | some m ↦ m ]) in
      let subtasks = decompose words config registry session_id new_id root in
      let started : Shared W = record s {
        memory =
            set_workflow_state
              (("goal", str user_input)
                ∷ ("status", str "running")
                ∷ ("total_tasks", int (pos (length subtasks)))
                ∷ [])
              s.memory;
      } in
      let all =
        execute_all words config registry session_id (take config.max_agents subtasks) user_input []
          started in
      let h = execute_all-Adds (take config.max_agents subtasks) user_input [] started in
      let n = length (take config.max_agents subtasks) in
      let few = length-take config.max_agents subtasks in
      elim (Call-cases all.0) [
        | inl (x, f) ↦
            rw (f, run_tasks)
              (Adds-raised x (omega arith)
                (subst (λ c. Adds config (n + n) s.bus.history all.1.bus.history c) f h))
        | inr (results, f) ↦
            let final =
              synthesize words config registry session_id user_input results all.1.memory
                all.1.world in
            let done = λ (c : Call (AgentResult Observation)).
              Adds-then {n = config.max_agents + config.max_agents} results c (omega arith)
                (subst (λ c. Adds config (n + n) s.bus.history all.1.bus.history c) f h) in
            elim (Call-cases final.0) [
              | inl (x, g) ↦ rw (f, g, run_tasks) (done (raised x))
              | inr (r, g) ↦ rw (f, g, run_tasks) (done (gave r))
            ]
      ]

  -- A request leaves on the bus, after what was there, at most `max_agents` exchanges: a request of the
  -- coordinator and the answer of the agent, with the same correlation id. If the
  -- request is answered with a result, each of them is answered; where an agent raises, the last one
  -- may be open. Outside of the mode "bus" nothing is sent.
  pub run-Adds :
      (new_id : ℕ → String) (user_input : String) (metadata : Option (TextDict Value))
      (s : Shared W)
      → Adds config
          (config.max_agents + config.max_agents)
          s.bus.history
          (run words config registry session_id new_id user_input metadata s).1.bus.history
          (run words config registry session_id new_id user_input metadata s).0
  unfolding run
  run-Adds new_id user_input metadata s =
      either_way
        (λ r. Adds config (config.max_agents + config.max_agents) s.bus.history r.1.bus.history r.0)
        config.enable_multi_agent
        (run_tasks words config registry session_id new_id user_input metadata s) _
        (run_tasks-Adds new_id user_input metadata s)
        (Adds-nothing words config registry session_id _ s.bus.history _)
