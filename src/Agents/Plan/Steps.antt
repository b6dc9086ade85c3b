-- ===== src/Agents/Plan/Steps.antt =====
-- What a run of a plan comes to: each step that it looks at is COMPLETED or SKIPPED in the end.
use enterprise_ai_agent.Prelude.{
  suc, ◌≤◌, ◌≡◌, refl, sym, Bool, true, false, Option, none, some, List, [], ◌∷◌, ◌++◌,
  if◌then◌else◌, arith, Bool-cases, List-cases, inl, inr, ◌∙◌, length, take, drop, subst,
}
use mathlib.Core.List.{append-nil, append_assoc}
use enterprise_ai_agent.Agents.Types.{
  Message, AgentResult, PlanStatus, PlanStep, Plan, AgentContext, Call, gave, raised, Call-cases,
}
use enterprise_ai_agent.Agents.Loop.Rounds.{Ending, Ending-map, returned, run_agent_loop-Answered}
use enterprise_ai_agent.Agents.Step.{Setting, is_completed, is_settled}
use enterprise_ai_agent.Agents.Step.Settles.{Same, run_step-Settled}
use enterprise_ai_agent.Agents.Plan.{
  Passed, run_steps, with_result, synthesize, conclude_run, run_plan, run_request,
}

-- The second list has the steps of the first one in their order, each COMPLETED or SKIPPED.
pub data Done : List PlanStep → List PlanStep → Type 0 where
  no_step : Done [] []
  one_step :
      {a b : PlanStep} {old new : List PlanStep}
      → Same a b
      → is_settled b.status ≡ true
      → Done old new
      → Done (a ∷ old) (b ∷ new)

-- Those of the steps that are COMPLETED.
unfoldable pub completed_of : List PlanStep → List PlanStep
completed_of [] = []
completed_of (s ∷ steps) =
    if is_completed s.status then s ∷ completed_of steps else completed_of steps

append-completed_of :
    (before : List PlanStep) (s : PlanStep) (steps : List PlanStep)
    → (if is_completed s.status then before ++ (s ∷ []) else before) ++ completed_of steps
      ≡ before ++ completed_of (s ∷ steps)
unfolding completed_of
append-completed_of before s steps = elim (Bool-cases (is_completed s.status)) [
  | inl e ↦ rw e (append_assoc before (s ∷ []) (completed_of steps))
  | inr e ↦ rw e refl
]

module _ {W Observation : Type 0} (setting : Setting W Observation) where
  -- How the loop over the steps ends: without an abort.
  record AllPassed (steps before beyond completed : List PlanStep) (r : Option (Passed setting))
      : Type 0 where
    outcome : Passed setting
    returns : r ≡ some outcome
    goes_on : outcome.is_aborted ≡ false
    done : List PlanStep
    all_done : Done steps done
    passed : outcome.passed ≡ before ++ done
    left_over : outcome.left_over ≡ beyond
    completed_ones : outcome.completed ≡ completed ++ completed_of done

  run_steps-AllPassed :
      (steps before beyond completed : List PlanStep) (context : AgentContext) (plan : Plan)
      (last : Option (AgentResult Observation)) (w : W)
      → AllPassed steps before beyond completed
          (run_steps setting steps before beyond completed context plan last w)
  unfolding run_steps completed_of
  run_steps-AllPassed [] before beyond completed context plan last w = record {
    outcome = _;
    returns = refl;
    goes_on = refl;
    done = [];
    all_done = no_step;
    passed = sym (append-nil before);
    left_over = refl;
    completed_ones = sym (append-nil completed);
  }
  run_steps-AllPassed (step ∷ steps) before beyond completed context plan last w =
      let h =
        run_step-Settled setting (suc setting.max_retries) 0 step before (steps ++ beyond) completed
          context plan last w (omega arith) (omega arith) in
      let s = h.outcome in
      let rest =
        run_steps-AllPassed steps (before ++ (s.step ∷ [])) beyond
          (if is_completed s.step.status then completed ++ (s.step ∷ []) else completed) context
          plan s.last s.world in
      rw (h.returns, h.goes_on, run_steps)
        (record {
          outcome = rest.outcome;
          returns = rest.returns;
          goes_on = rest.goes_on;
          done = s.step ∷ rest.done;
          all_done = one_step h.same h.settled rest.all_done;
          passed = rest.passed ∙ append_assoc before (s.step ∷ []) rest.done;
          left_over = rest.left_over;
          completed_ones = rest.completed_ones ∙ append-completed_of completed s.step rest.done;
        })

  synthesize-Ending :
      (plan : Plan) (base_messages : List Message) (w : W)
      → Ending setting.services Unit (synthesize setting plan base_messages w).0
  unfolding synthesize
  synthesize-Ending plan base_messages w = elim (List-cases (with_result plan.steps)) [
    | inl e ↦
        rw (e, synthesize)
          (Ending-map setting.services (λ h. tt)
            (run_agent_loop-Answered setting.services setting.max_iterations _ w).ending)
    | inr (s, rest, e) ↦ elim (List-cases rest) [
      | inl f ↦ rw (e, f, synthesize) (returned _ (λ h. tt))
      | inr (t, more, f) ↦
          rw (e, f, synthesize)
            (Ending-map setting.services (λ h. tt)
              (run_agent_loop-Answered setting.services setting.max_iterations _ w).ending)
    ]
  ]

  -- The plan's status, once the run is left: an exception leaves it RUNNING.
  abbrev pub status_after : Call (AgentResult Observation) → PlanStatus
  status_after (gave r) = if r.success then PlanStatus.completed else PlanStatus.failed
  status_after (raised e) = PlanStatus.running

  -- What a run of the plan comes to.
  pub record Ran (plan : Plan) (r : Option (Call (AgentResult Observation) × Plan × W))
      : Type 0 where
    pub answer : Call (AgentResult Observation)
    pub ended : Plan
    pub world : W
    pub returns : r ≡ some (answer, ended, world)
    pub done : List PlanStep
    pub all_done : Done (take setting.max_plan_steps plan.steps) done
    pub steps : ended.steps ≡ done ++ drop setting.max_plan_steps plan.steps
    pub status : ended.status ≡ status_after answer
    pub ending : Ending setting.services (1 ≤ length (completed_of done)) answer

  -- A run of a plan comes to an end, whatever the model and the tools answer: it returns a result, or
  -- raises what the embodied helper raised while the answer was put together. Each of the first
  -- `max_plan_steps` steps ends COMPLETED or SKIPPED, with its id, description and tool kept, and the
  -- rest stays as it was. The plan is COMPLETED if the result is a success, FAILED if it is none and
  -- RUNNING after an exception, and the result is a success only if a step is COMPLETED.
  pub run_plan-Ran :
      (plan : Plan) (context : AgentContext) (base_messages : List Message) (w : W)
      → Ran plan (run_plan setting plan context base_messages w)
  unfolding run_plan conclude_run
  run_plan-Ran plan context base_messages w =
      let started : Plan = record plan { status = PlanStatus.running } in
      let h =
        run_steps-AllPassed (take setting.max_plan_steps plan.steps) []
          (drop setting.max_plan_steps plan.steps) [] context started none w in
      rw (h.returns, h.goes_on, run_plan)
        (elim (List-cases h.outcome.completed) [
          | inl e ↦
              rw (e, conclude_run)
                (record {
                  answer = _;
                  ended = _;
                  world = _;
                  returns = refl;
                  done = h.done;
                  all_done = h.all_done;
                  steps = cc (h.passed, h.left_over);
                  status = refl;
                  ending = returned _ (λ x. cc);
                })
          | inr (s, more, e) ↦
              let worked : 1 ≤ length (completed_of h.done) = ground (arith, h.completed_ones, e) in
              let ended = record started { steps = h.outcome.passed ++ h.outcome.left_over } in
              let answered = synthesize-Ending ended base_messages h.outcome.world in
              elim (Call-cases (synthesize setting ended base_messages h.outcome.world).0) [
                | inl (error, raises) ↦
                    rw (e, conclude_run, raises)
                      (record {
                        answer = _;
                        ended = _;
                        world = _;
                        returns = refl;
                        done = h.done;
                        all_done = h.all_done;
                        steps = cc (h.passed, h.left_over);
                        status = refl;
                        ending =
                            Ending-map setting.services (λ u. worked)
                              (subst (λ r. Ending setting.services Unit r) raises answered);
                      })
                | inr (answer, gives) ↦
                    rw (e, conclude_run, gives)
                      (record {
                        answer = _;
                        ended = _;
                        world = _;
                        returns = refl;
                        done = h.done;
                        all_done = h.all_done;
                        steps = cc (h.passed, h.left_over);
                        status = refl;
                        ending = returned answer (λ x. worked);
                      })
              ]
        ])

  -- `WorkflowExecutor.run` comes to an end, with the planner or without, and also if the planner
  -- raises: it returns a result, or raises what the embodied helper raised.
  pub run_request-Ending :
      (enable_planner : Bool) (planner : AgentContext → W → Call Plan × W) (context : AgentContext)
      (base_messages : List Message) (w : W)
      → (r : Call (AgentResult Observation)) × (w' : W) × (run_request setting enable_planner
            planner context base_messages w
          ≡ some (r, w'))
        × Ending setting.services Unit r
  unfolding run_request
  run_request-Ending enable_planner planner context base_messages w =
      let direct = λ (v : W).
        Ending-map setting.services (λ h. tt)
          (run_agent_loop-Answered setting.services setting.max_iterations base_messages
            v).ending in
      elim (Bool-cases enable_planner) [
        | inr e ↦ rw (e, run_request) (_, _, refl, direct w)
        | inl e ↦ elim (Call-cases (planner context w).0) [
          | inl (x, f) ↦ rw (e, f, run_request) (_, _, refl, direct (planner context w).1)
          | inr (plan, f) ↦
              let h =
                run_plan-Ran plan (record context { plan = some plan }) base_messages
                  (planner context w).1 in
              rw (e, f, h.returns, run_request)
                (_, _, refl, Ending-map setting.services (λ x. tt) h.ending)
        ]
      ]
