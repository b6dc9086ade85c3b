-- ===== src/Agents/Loop/Rounds.antt =====
-- What the agent loop of backend/app/agents/executor/agent_executor.py leaves in the conversation.
use enterprise_ai_agent.Prelude.{
  ℕ, zero, suc, ◌≤◌, ◌<◌, ◌≡◌, refl, true, some, List, [], ◌∷◌, ◌++◌, length, arith, List-cases,
  Option-cases, String, Option-cases, String, inl, inr, ◌∙◌, sym,
}
use mathlib.Core.List.{append-nil, append_assoc}
use enterprise_ai_agent.Agents.Types.{
  ToolCall, Message, ToolResult, AgentResult, Call, gave, raised, Call-cases,
}
use enterprise_ai_agent.Agents.Loop.{
  Services, build_observation, build_observations, build_assistant_tool_call, build_tool_round,
  execute_tool_calls, observations_of, iterate, run_agent_loop,
}

-- One tool message for each call, in the order of the calls, with the call's id and name.
pub data Answers : List ToolCall → List Message → Type 0 where
  no_answers : Answers [] []
  answer :
      {calls : List ToolCall} {ms : List Message} (call : ToolCall) (m : Message)
      → m.role ≡ "tool"
      → m.tool_call_id ≡ some call.id
      → m.name ≡ some call.name
      → Answers calls ms
      → Answers (call ∷ calls) (m ∷ ms)

-- As many rounds: an assistant's message with calls, and the answer to each.
pub data Rounds : ℕ → List Message → Type 0 where
  no_rounds : Rounds 0 []
  round :
      {n : ℕ} {ms : List Message} (m : Message) (calls : List ToolCall) (answers : List Message)
      → m.role ≡ "assistant"
      → m.tool_calls ≡ some calls
      → 1 ≤ length calls
      → Answers calls answers
      → Rounds n ms
      → Rounds (suc n) ((m ∷ answers) ++ ms)

build_observations-Answers :
    (calls : List ToolCall) (results : List ToolResult)
    → length calls ≡ length results
    → (ms : List Message) × (build_observations calls results ≡ some ms) × Answers calls ms
unfolding build_observations build_observation
build_observations-Answers [] [] e = ([], refl, no_answers)
build_observations-Answers [] (r ∷ results) e = absurd (omega arith)
build_observations-Answers (call ∷ calls) [] e = absurd (omega arith)
build_observations-Answers (call ∷ calls) (r ∷ results) e =
    let (ms, eq, a) = build_observations-Answers calls results (omega arith) in
    (
      build_observation r call ∷ ms,
      rw (eq, build_observations) refl,
      answer call (build_observation r call) refl refl refl a,
    )

module _ {W Observation : Type 0} (services : Services W Observation) where
  length-execute_tool_calls :
      (calls : List ToolCall) (w : W)
      → length calls ≡ length (execute_tool_calls services calls w).0
  unfolding execute_tool_calls
  length-execute_tool_calls [] w = refl
  length-execute_tool_calls (call ∷ calls) w =
      omega (
        arith,
        length-execute_tool_calls calls (services.execute_tool call.name call.arguments w).1,
      )

  -- How the loop is left: with a result, which is a success only if `P` holds, or by an exception of
  -- the embodied helper.
  pub data Ending (P : Type 0) : Call (AgentResult Observation) → Type 0 where
    returned :
        (result : AgentResult Observation) → (result.success ≡ true → P) → Ending P (gave result)
    helper_raised :
        (observe : List ToolCall → List ToolResult → Call (List Observation))
        (calls : List ToolCall) (results : List ToolResult) (error : String)
        → services.observe ≡ some observe
        → observe calls results ≡ raised error
        → Ending P (raised error)

  pub Ending-map :
      {P Q : Type 0} {r : Call (AgentResult Observation)} → (P → Q) → Ending P r → Ending Q r
  Ending-map f (returned result h) = returned result (λ e. f (h e))
  Ending-map f (helper_raised observe calls results error h e) =
      helper_raised observe calls results error h e

  observations_of-raised :
      (calls : List ToolCall) (results : List ToolResult) (error : String) {P : Type 0}
      → observations_of services calls results ≡ raised error
      → Ending P (raised error)
  unfolding observations_of
  observations_of-raised calls results error e = elim (Option-cases services.observe) [
    | inl h ↦ let bad : gave [] ≡ raised error = rw (h, observations_of) at e in cc
    | inr (observe, h) ↦ helper_raised observe calls results error h (rw (h, observations_of) at e)
  ]

  -- What a run from these messages comes to, with so many iterations.
  pub record Answered (left : ℕ) (messages : List Message)
      (r : Call (AgentResult Observation) × List Message × W) : Type 0 where
    pub rounds : ℕ
    pub added : List Message
    pub ending : Ending (rounds < left) r.0
    pub extends : r.1 ≡ messages ++ added
    pub in_rounds : Rounds rounds added
    pub bounded : rounds ≤ left

  iterate-Answered :
      (left : ℕ) (collected : List Observation) (messages : List Message) (w : W)
      → Answered left messages (iterate services left collected messages w)
  unfolding iterate build_tool_round build_assistant_tool_call
  iterate-Answered zero collected messages w = record {
    rounds = 0;
    added = [];
    ending = returned _ (λ e. cc);
    extends = sym (append-nil messages);
    in_rounds = no_rounds;
    bounded = omega arith;
  }
  iterate-Answered (suc left) collected messages w =
      elim (Call-cases (services.chat messages w).0) [
        | inl (e, raises) ↦
            rw (raises, iterate)
              (record {
                rounds = 0;
                added = [];
                ending = returned _ (λ e. cc);
                extends = sym (append-nil messages);
                in_rounds = no_rounds;
                bounded = omega arith;
              })
        | inr (reply, gives) ↦ elim (List-cases reply.tool_calls) [
          | inl none_called ↦
              rw (gives, none_called, iterate)
                (record {
                  rounds = 0;
                  added = [];
                  ending = returned _ (λ e. omega arith);
                  extends = sym (append-nil messages);
                  in_rounds = no_rounds;
                  bounded = omega arith;
                })
          | inr (call, calls, called) ↦
              let w' = (services.chat messages w).1 in
              let executed = execute_tool_calls services (call ∷ calls) w' in
              let (answers, built, a) =
                build_observations-Answers (call ∷ calls) executed.0
                  (length-execute_tool_calls (call ∷ calls) w') in
              let asked = build_assistant_tool_call (call ∷ calls) reply.content in
              elim (Call-cases (observations_of services (call ∷ calls) executed.0)) [
                | inl (error, raises) ↦
                    rw (gives, called, raises, iterate)
                      (record {
                        rounds = 0;
                        added = [];
                        ending = observations_of-raised (call ∷ calls) executed.0 error raises;
                        extends = sym (append-nil messages);
                        in_rounds = no_rounds;
                        bounded = omega arith;
                      })
                | inr (observed, seen) ↦
                    let rest =
                      iterate-Answered left (collected ++ observed) (messages ++ (asked ∷ answers))
                        executed.1 in
                    rw (gives, called, seen, built, iterate)
                      (record {
                        rounds = suc rest.rounds;
                        added = (asked ∷ answers) ++ rest.added;
                        ending = Ending-map (λ h. omega (arith, h)) rest.ending;
                        extends = rest.extends ∙ append_assoc messages (asked ∷ answers) rest.added;
                        in_rounds =
                            round asked (call ∷ calls) answers refl refl (omega arith) a
                              rest.in_rounds;
                        bounded = omega (arith, rest.bounded);
                      })
              ]
        ]
      ]

  pub run_agent_loop-Answered :
      (max_iterations : ℕ) (messages : List Message) (w : W)
      → Answered max_iterations messages (run_agent_loop services max_iterations messages w)
  unfolding run_agent_loop
  run_agent_loop-Answered max_iterations messages w = iterate-Answered max_iterations [] messages w
