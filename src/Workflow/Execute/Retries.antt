-- ===== src/Workflow/Execute/Retries.antt =====
-- How often `_execute_node_with_recovery` of backend/app/workflow/executor.py runs a node.
use enterprise_ai_agent.Prelude.{
  ℕ, zero, suc, ◌+◌, ◌≤◌, ◌<◌, ◌≡◌, refl, ap, ◌∙◌, true, false, Bool, arith, Bool-cases, inl, inr,
}
use enterprise_ai_agent.Workflow.Node.{WorkflowNode}
use enterprise_ai_agent.Workflow.Value.{Python}
use enterprise_ai_agent.Workflow.Context.{NodeResult, Context, is_failed}
use enterprise_ai_agent.Workflow.Graph.{Raises, ok, raised, Raises-cases}
use enterprise_ai_agent.Workflow.Execute.{
  Services, retries_of, execute_node, attempt, execute_with_recovery,
}

-- A run that gave a result with the status FAILED, so that the node may be run again.
unfoldable pub has_failed : Raises NodeResult → Bool
has_failed (ok r) = is_failed r.status
has_failed (raised e) = false

-- The result with the number of runs written into it.
unfoldable pub counted : ℕ → Raises NodeResult → Raises NodeResult
counted n (ok r) = ok (record r { attempts = n })
counted n (raised e) = raised e

module _ {W : Type 0} (py : Python) (services : Services W) where
  -- The run that comes after `n` others, each from what the one before it left.
  unfoldable pub nth_run : ℕ → WorkflowNode → Context → W → Raises NodeResult × Context × W
  nth_run zero node ctx w = execute_node py services node ctx w
  nth_run (suc n) node ctx w =
      let (result, ctx', w') = execute_node py services node ctx w in nth_run n node ctx' w'

  -- The node was run `others` times and once more, every time but the last one with a failure, and the
  -- last run's result, with its number, and what that run left, came back; the last run failed only if
  -- every retry was used up.
  pub record Recovered (left made : ℕ) (node : WorkflowNode) (ctx : Context) (w : W)
      (r : Raises NodeResult × Context × W) : Type 0 where
    pub others : ℕ
    pub bounded : others ≤ left
    pub earlier : (n : ℕ) → n < others → has_failed (nth_run n node ctx w).0 ≡ true
    pub exhausted : has_failed (nth_run others node ctx w).0 ≡ true → others ≡ left
    pub result : r.0 ≡ counted (suc others + made) (nth_run others node ctx w).0
    pub context : r.1 ≡ (nth_run others node ctx w).1
    pub world : r.2 ≡ (nth_run others node ctx w).2

  earlier-suc :
      (others : ℕ) (node : WorkflowNode) (ctx : Context) (w : W)
      → has_failed (execute_node py services node ctx w).0 ≡ true
      → ((n : ℕ)
          → n < others
          → has_failed
              (nth_run n node
                (execute_node py services node ctx w).1
                (execute_node py services node ctx w).2).0
            ≡ true)
      → (n : ℕ) → n < suc others
      → has_failed (nth_run n node ctx w).0 ≡ true
  unfolding nth_run
  earlier-suc others node ctx w f h zero m = f
  earlier-suc others node ctx w f h (suc n) m = h n (omega arith)

  attempt-Recovered :
      (left made : ℕ) (node : WorkflowNode) (ctx : Context) (w : W)
      → Recovered left made node ctx w (attempt py services left made node ctx w)
  unfolding attempt nth_run counted has_failed
  attempt-Recovered zero made node ctx w =
      elim (Raises-cases (execute_node py services node ctx w).0) [
        | inl (e, f) ↦
            rw (f, attempt)
              (record {
                others = 0;
                bounded = omega arith;
                earlier = λ n h. absurd (omega arith);
                exhausted = λ h. refl;
                result = rw (f, counted) refl;
                context = refl;
                world = refl;
              })
        | inr (r, f) ↦
            rw (f, attempt)
              (record {
                others = 0;
                bounded = omega arith;
                earlier = λ n h. absurd (omega arith);
                exhausted = λ h. refl;
                result =
                    rw (f, counted) (ap (λ (n : ℕ). ok (record r { attempts = n })) (omega arith));
                context = refl;
                world = refl;
              })
      ]
  attempt-Recovered (suc left) made node ctx w =
      let run = execute_node py services node ctx w in
      elim (Raises-cases (execute_node py services node ctx w).0) [
        | inl (e, f) ↦
            rw (f, attempt)
              (record {
                others = 0;
                bounded = omega arith;
                earlier = λ n h. absurd (omega arith);
                exhausted = λ h. absurd (ground (arith, f, h));
                result = rw (f, counted) refl;
                context = refl;
                world = refl;
              })
        | inr (r, f) ↦ elim (Bool-cases (is_failed r.status)) [
          | inl t ↦
              let rest = attempt-Recovered left (suc made) node run.1 run.2 in
              rw (f, t, attempt)
                (record {
                  others = suc rest.others;
                  bounded = omega (arith, rest.bounded);
                  earlier = earlier-suc rest.others node ctx w (rw (f, has_failed) t) rest.earlier;
                  exhausted = λ h. omega (arith, rest.exhausted h);
                  result =
                      rest.result
                      ∙ ap (λ (n : ℕ). counted n (nth_run rest.others node run.1 run.2).0)
                          (omega arith);
                  context = rest.context;
                  world = rest.world;
                })
          | inr t ↦
              rw (f, t, attempt)
                (record {
                  others = 0;
                  bounded = omega arith;
                  earlier = λ n h. absurd (omega arith);
                  exhausted = λ h. absurd (ground (arith, f, t, h));
                  result =
                      rw (f, counted)
                        (ap (λ (n : ℕ). ok (record r { attempts = n })) (omega arith));
                  context = refl;
                  world = refl;
                })
        ]
      ]

  -- The node is run once, and again from what the run before left as long as the result is FAILED and
  -- fewer than `max_retries` retries (none if it is negative) were made: what comes back is what the
  -- last run gave and left, with the number of the runs, or the exception that it raised.
  pub execute_with_recovery-Recovered :
      (node : WorkflowNode) (ctx : Context) (w : W)
      → Recovered
          (retries_of node.max_retries)
          0
          node
          ctx
          w
          (execute_with_recovery py services node ctx w)
  unfolding execute_with_recovery
  execute_with_recovery-Recovered node ctx w =
      attempt-Recovered (retries_of node.max_retries) 0 node ctx w
