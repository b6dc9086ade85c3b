-- ===== src/Agents/Step/Settles.antt =====
-- What the retry loop over one step of a plan comes to.
use enterprise_ai_agent.Prelude.{
  ℕ, zero, suc, ◌+◌, ◌≤◌, ◌<◌, ltb, ◌≡◌, refl, true, false, Option, some, List, [], ◌∷◌, ◌++◌,
  arith, Bool-cases, Option-cases, inl, inr, ◌∙◌,
}
use enterprise_ai_agent.Agents.Types.{
  ToolResult, AgentResult, StepStatus, PlanStep, Plan, AgentContext, Call-cases,
}
use enterprise_ai_agent.Agents.Loop.{run_agent_loop}
use enterprise_ai_agent.Agents.Step.{
  Setting, Stepped, handle_step_failure, give_up, execute, run_step, is_settled, tool_of,
  after_tool, handle_tool_failure,
}

-- The two stand for the same step: its id, description and tool are never changed.
pub record Same (a b : PlanStep) : Type 0 where
  pub id : a.id ≡ b.id
  pub description : a.description ≡ b.description
  pub tool : a.tool ≡ b.tool

-- The status of the step does not matter.
Same-through :
    {a b : PlanStep} {status : StepStatus} → Same (record a { status = status }) b → Same a b
Same-through s = record { id = s.id; description = s.description; tool = s.tool }

pub record Settled {W Observation : Type 0} (setting : Setting W Observation) (step : PlanStep)
    (r : Option (Stepped setting)) : Type 0 where
  pub outcome : Stepped setting
  pub returns : r ≡ some outcome
  pub goes_on : outcome.is_aborted ≡ false
  pub settled : is_settled outcome.step.status ≡ true
  pub same : Same step outcome.step

after_tool-Same :
    (Observation : Type 0) (step : PlanStep) (r : ToolResult)
    → Same step (after_tool {Observation = Observation} step r).1
unfolding after_tool handle_tool_failure
after_tool-Same Observation step r = elim (Bool-cases r.success) [
  | inl g ↦ record {
    id = ground (arith, g);
    description = ground (arith, g);
    tool = ground (arith, g);
  }
  | inr g ↦ record {
    id = ground (arith, g);
    description = ground (arith, g);
    tool = ground (arith, g);
  }
]

Settled-through :
    {W Observation : Type 0} {setting : Setting W Observation} {a b : PlanStep}
    {r : Option (Stepped setting)}
    → Same a b
    → Settled setting b r
    → Settled setting a r
Settled-through ab h = record {
  outcome = h.outcome;
  returns = h.returns;
  goes_on = h.goes_on;
  settled = h.settled;
  same = record {
    id = ab.id ∙ h.same.id;
    description = ab.description ∙ h.same.description;
    tool = ab.tool ∙ h.same.tool;
  };
}

module _ {W Observation : Type 0} (setting : Setting W Observation) where
  execute-Same :
      (step : PlanStep) (before after completed : List PlanStep) (context : AgentContext)
      (plan : Plan) (w : W)
      → Same step (execute setting step before after completed context plan w).1
  unfolding execute after_tool handle_tool_failure
  execute-Same step before after completed context plan w = elim (Option-cases (tool_of step)) [
    | inl e ↦
        elim (Call-cases
          (run_agent_loop setting.services setting.max_iterations
            (setting.build_prompt
              (record context {
                plan = some (record plan {
                  steps = before ++ (record step { status = StepStatus.running } ∷ after);
                });
                current_step = some (record step { status = StepStatus.running });
              })
              completed w)
            w).0) [
              | inl (x, f) ↦
                  rw (e, f, execute) (record { id = refl; description = refl; tool = refl })
              | inr (x, f) ↦
                  rw (e, f, execute) (record { id = refl; description = refl; tool = refl })
            ]
    | inr (tool, e) ↦ elim (Call-cases (setting.services.execute_tool tool [] w).0) [
      | inl (x, f) ↦ rw (e, f, execute) (record { id = refl; description = refl; tool = refl })
      | inr (x, f) ↦
          rw (e, f, execute)
            (Same-through
              (after_tool-Same Observation (record step { status = StepStatus.running }) x))
    ]
  ]

  pub run_step-Settled :
      (fuel retry_count : ℕ) (step : PlanStep) (before after completed : List PlanStep)
      (context : AgentContext) (plan : Plan) (last : Option (AgentResult Observation)) (w : W)
      → setting.max_retries < fuel + retry_count
      → retry_count ≤ setting.max_retries
      → Settled setting step
          (run_step setting fuel retry_count step before after completed context plan last w)
  unfolding run_step handle_step_failure give_up
  run_step-Settled zero retry_count step before after completed context plan last w h k =
      absurd (omega arith)
  run_step-Settled (suc fuel) retry_count step before after completed context plan last w h k =
      let run = execute setting step before after completed context plan w in
      let kept = execute-Same step before after completed context plan w in
      elim (Call-cases run.0) [
        | inl (x, e) ↦ elim (Bool-cases (ltb retry_count setting.max_retries)) [
          | inl f ↦
              rw (e, f, run_step)
                (Settled-through kept (
                  run_step-Settled fuel (suc retry_count) run.1 before after completed context plan
                    _ run.2 (omega arith) (ground (arith, f))))
          | inr f ↦
              rw (e, f, run_step)
                (record {
                  outcome = _;
                  returns = refl;
                  goes_on = refl;
                  settled = refl;
                  same = record { id = kept.id; description = kept.description; tool = kept.tool };
                })
        ]
        | inr (x, e) ↦ elim (Bool-cases (is_settled run.1.status)) [
          | inl g ↦
              rw (e, g, run_step)
                (record {
                  outcome = _;
                  returns = refl;
                  goes_on = refl;
                  settled = g;
                  same = record { id = kept.id; description = kept.description; tool = kept.tool };
                })
          | inr g ↦ elim (Bool-cases (ltb retry_count setting.max_retries)) [
            | inl f ↦
                rw (e, g, f, run_step)
                  (Settled-through kept (
                    run_step-Settled fuel (suc retry_count) run.1 before after completed context
                      plan _ run.2 (omega arith) (ground (arith, f))))
            | inr f ↦
                rw (e, g, f, run_step)
                  (record {
                    outcome = _;
                    returns = refl;
                    goes_on = refl;
                    settled = refl;
                    same = record {
                      id = kept.id;
                      description = kept.description;
                      tool = kept.tool;
                    };
                  })
          ]
        ]
      ]
