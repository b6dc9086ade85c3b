-- ===== src/MultiAgent/Router/Best.antt =====
-- Which agent `RuleBasedRouter.route` of backend/app/multi_agent/router.py picks.
use mathlib.Core.List.{Memᴰ}
use enterprise_ai_agent.Prelude.{
  ℕ, ◌≤◌, ltb, ◌≡◌, ◌≢◌, refl, Option, some, List, [], ◌∷◌, String, arith, Bool-cases, List-cases,
  inl, inr, All,
}
use enterprise_ai_agent.Prelude.TextDict.{TextDict}
use enterprise_ai_agent.Workflow.Node.{Value}
use enterprise_ai_agent.MultiAgent.Registry.{
  Words, Agent, RegisteredAgent, AgentRegistry, task_type_of, get_all, find_handlers,
}
use enterprise_ai_agent.MultiAgent.Router.{
  score, insert_scored, sort_scored, of_type, fall_back, route,
}

module _ {W Observation : Type 0} (words : Words) where
  -- An entry of the list with the most points, at the head of the sorted list.
  record Top (points : RegisteredAgent W Observation → ℕ)
      (entries sorted : List (RegisteredAgent W Observation)) : Type 0 where
    top : RegisteredAgent W Observation
    rest : List (RegisteredAgent W Observation)
    split : sorted ≡ top ∷ rest
    stands : Memᴰ top entries
    most : All (λ e. points e ≤ points top) entries

  All-le :
      (points : RegisteredAgent W Observation → ℕ) (m n : ℕ)
      (entries : List (RegisteredAgent W Observation))
      → m ≤ n
      → All (λ e. points e ≤ m) entries
      → All (λ e. points e ≤ n) entries
  All-le points m n [] h k = tt
  All-le points m n (e ∷ entries) h k = (omega (arith, k.0), All-le points m n entries h k.1)

  sort_scored-Top :
      (points : RegisteredAgent W Observation → ℕ) (a : RegisteredAgent W Observation)
      (entries : List (RegisteredAgent W Observation))
      → Top points (a ∷ entries) (sort_scored words points (a ∷ entries))
  unfolding sort_scored insert_scored
  sort_scored-Top points a [] = record {
    top = a;
    rest = [];
    split = refl;
    stands = Memᴰ.head refl;
    most = (omega arith, tt);
  }
  sort_scored-Top points a (b ∷ entries) =
      let h = sort_scored-Top points b entries in
      elim (Bool-cases (ltb (points a) (points h.top))) [
        | inl e ↦
            rw (h.split, e, sort_scored)
              (record {
                top = h.top;
                rest = _;
                split = refl;
                stands = Memᴰ.tail h.stands;
                most = (ground (arith, e), h.most);
              })
        | inr e ↦
            rw (h.split, e, sort_scored)
              (record {
                top = a;
                rest = _;
                split = refl;
                stands = Memᴰ.head refl;
                most = (
                  omega arith,
                  All-le points (points h.top) (points a) (b ∷ entries) (ground (arith, e)) h.most,
                );
              })
      ]

  -- A handler of the task with the highest score among the handlers.
  pub record BestHandler (task_input : String) (registry : AgentRegistry W Observation)
      (metadata : Option (TextDict Value)) (r : Option (Agent W Observation)) : Type 0 where
    pub entry : RegisteredAgent W Observation
    pub routed : r ≡ some entry.agent
    pub handles : Memᴰ entry (find_handlers task_input metadata registry)
    pub highest :
        All
          (λ e. score words e task_input metadata ≤ score words entry task_input metadata)
          (find_handlers task_input metadata registry)

  -- If a registered agent can handle the task, the router picks one that can, with the highest score
  -- among those that can.
  pub route-BestHandler :
      (task_input : String) (registry : AgentRegistry W Observation)
      (metadata : Option (TextDict Value))
      → find_handlers task_input metadata registry ≢ []
      → BestHandler task_input registry metadata (route words task_input registry metadata)
  unfolding route
  route-BestHandler task_input registry metadata h =
      elim (List-cases (find_handlers task_input metadata registry)) [
        | inl e ↦ absurd (h e)
        | inr (x, xs, e) ↦ elim (List-cases xs) [
          | inl f ↦
              rw (e, f, route)
                (record {
                  entry = x;
                  routed = refl;
                  handles = rw e (Memᴰ.head refl);
                  highest = rw (e, f) (omega arith, tt);
                })
          | inr (y, ys, f) ↦
              let t = sort_scored-Top (λ z. score words z task_input metadata) x (y ∷ ys) in
              rw (e, f, t.split, route)
                (record {
                  entry = t.top;
                  routed = refl;
                  handles = rw (e, f) t.stands;
                  highest = rw (e, f) t.most;
                })
        ]
      ]

  fall_back-some :
      (registry : AgentRegistry W Observation) (metadata : Option (TextDict Value))
      → registry ≢ []
      → (agent : Agent W Observation) × (fall_back words registry metadata ≡ some agent)
  unfolding fall_back get_all
  fall_back-some [] metadata h = absurd (h refl)
  fall_back-some ((k, r) ∷ registry) metadata h =
      elim (List-cases (of_type words (task_type_of metadata) (get_all ((k, r) ∷ registry)))) [
        | inl e ↦ rw (e, fall_back) (_, refl)
        | inr (x, xs, e) ↦ rw (e, fall_back) (_, refl)
      ]

  -- The router finds an agent as soon as one is registered, whatever the task.
  pub route-some :
      (task_input : String) (registry : AgentRegistry W Observation)
      (metadata : Option (TextDict Value))
      → registry ≢ []
      → (agent : Agent W Observation) × (route words task_input registry metadata ≡ some agent)
  unfolding route
  route-some task_input registry metadata h =
      elim (List-cases (find_handlers task_input metadata registry)) [
        | inl e ↦ rw (e, route) (fall_back-some registry metadata h)
        | inr (x, xs, e) ↦ elim (List-cases xs) [
          | inl f ↦ rw (e, f, route) (_, refl)
          | inr (y, ys, f) ↦
              let t = sort_scored-Top (λ z. score words z task_input metadata) x (y ∷ ys) in
              rw (e, f, t.split, route) (_, refl)
        ]
      ]
