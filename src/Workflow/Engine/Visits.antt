-- ===== src/Workflow/Engine/Visits.antt =====
-- One node of a round of `_execute_loop` in backend/app/workflow/executor.py.
use enterprise_ai_agent.Prelude.{
  ◌≡◌, refl, ◌∙◌, Bool, true, false, String, arith, Option-cases, inl, inr,
}
use enterprise_ai_agent.Prelude.Text.{occ}
use enterprise_ai_agent.Prelude.TextDict.{lookup, occ-keys-none}
use enterprise_ai_agent.Workflow.Node.{WorkflowNode}
use enterprise_ai_agent.Workflow.Value.{Python}
use enterprise_ai_agent.Workflow.Context.{RunStatus, NodeResult, Context, set_node_output}
use enterprise_ai_agent.Workflow.Execute.{Services, execute_with_recovery}
use enterprise_ai_agent.Workflow.Execute.Refused.{Refuses, execute_with_recovery-Refused}
use enterprise_ai_agent.Workflow.Graph.{Raises, ok, raised, Raises-cases}
use enterprise_ai_agent.Workflow.Engine.{ActiveRun, add, complete, settle, visit}
use enterprise_ai_agent.Workflow.Engine.Resolve.{res, IsRun, CanResolve, Resolves}
use enterprise_ai_agent.Workflow.Engine.Skips.{Same}

-- The statuses in which a round leaves the loop.
abbrev pub is_halted : RunStatus → Bool
is_halted RunStatus.waiting_approval = true
is_halted RunStatus.failed = true
is_halted _ = false

ok-inj : {a b : Bool} → ok a ≡ ok b → a ≡ b
ok-inj e = cc

-- What the visit of a node leaves: the loop goes on with the node resolved, or is left with nothing
-- resolved, and the status is WAITING_APPROVAL or FAILED.
pub record Visited (n : String) (a b : ActiveRun) (stop : Bool) : Type 0 where
  pub graph : b.graph ≡ a.graph
  pub goes_on : stop ≡ false → Resolves n a b × Same a b
  pub leaves :
      stop ≡ true
      → (b.completed ≡ a.completed) × (b.skipped ≡ a.skipped) × (is_halted b.status ≡ true)

settle-Visited :
    (py : Python) (node : WorkflowNode) (n : String) (r : NodeResult) (a : ActiveRun)
    → res a n ≡ 0
    → Visited n a (settle py node n r a).1 (settle py node n r a).0
unfolding settle complete add occ
settle-Visited py node n r a f = record {
  graph = ground arith;
  goes_on = λ e. (
    record {
      graph = ground (arith, e);
      counts = λ m. ground (arith, e, f);
      sizes = ground (arith, e, f);
    },
    record {
      graph = ground (arith, e);
      pending = ground (arith, e);
      status = ground (arith, e);
      grows = ground (arith, e, f);
    },
  );
  leaves = λ e. (ground (arith, e), ground (arith, e), ground (arith, e));
}

-- The context does not matter for what is resolved.
Visited-context :
    (n : String) (a : ActiveRun) (ctx : Context) {b : ActiveRun} {stop : Bool}
    → Visited n (record a { context = ctx }) b stop
    → Visited n a b stop
Visited-context n a ctx v = record {
  graph = v.graph;
  goes_on = λ e.
      let (r, s) = v.goes_on e in
      (
        record { graph = r.graph; counts = r.counts; sizes = r.sizes },
        record { graph = s.graph; pending = s.pending; status = s.status; grows = s.grows },
      );
  leaves = v.leaves;
}

pub IsRun-same :
    {a b : ActiveRun}
    → b.graph ≡ a.graph
    → b.completed ≡ a.completed
    → b.skipped ≡ a.skipped
    → IsRun a
    → IsRun b
IsRun-same g c s h = record {
  within = λ n. rw (g, c, s) (h.within n);
  settled = rw (g, c, s) h.settled;
}

-- The same of a visit, which may raise: then nothing is resolved and the status stays.
pub record Visit (py : Python) (n : String) (a b : ActiveRun) (left : Raises Bool) : Type 0 where
  pub graph : b.graph ≡ a.graph
  pub goes_on : left ≡ ok false → Resolves n a b × Same a b
  pub leaves :
      left ≡ ok true
      → (b.completed ≡ a.completed) × (b.skipped ≡ a.skipped) × (is_halted b.status ≡ true)
  pub refuses :
      (e : String)
      → left ≡ raised e
      → (b.completed ≡ a.completed)
        × (b.skipped ≡ a.skipped)
        × (b.status ≡ a.status)
        × Refuses py a.graph e

Visited-Visit :
    (py : Python) (n : String) (a b : ActiveRun) (stop : Bool)
    → Visited n a b stop
    → Visit py n a b (ok stop)
Visited-Visit py n a b stop v = record {
  graph = v.graph;
  goes_on = λ e. v.goes_on (ok-inj e);
  leaves = λ e. v.leaves (ok-inj e);
  refuses = λ m e. cc;
}

module _ {W : Type 0} (py : Python) (services : Services W) where
  pub visit-Visit :
      (n : String) (a : ActiveRun) (w : W)
      → CanResolve a n
      → Visit py n a (visit py services n a w).1 (visit py services n a w).0
  unfolding visit
  visit-Visit n a w c = elim (Option-cases (lookup n a.graph.nodes)) [
    | inl e ↦ absurd (omega (arith, c.node, occ-keys-none n a.graph.nodes e))
    | inr (node, e) ↦ elim (Raises-cases (execute_with_recovery py services node a.context w).0) [
      | inl (x, f) ↦
          rw (e, f, visit)
            (record {
              graph = refl;
              goes_on = λ h. cc;
              leaves = λ h. cc;
              refuses = λ m h. (
                refl,
                refl,
                refl,
                record {
                  id = n;
                  node = node;
                  known = e;
                  refused = execute_with_recovery-Refused py services node a.context w m (f ∙ cc h);
                },
              );
            })
      | inr (r, f) ↦
          let ctx = (execute_with_recovery py services node a.context w).1 in
          let after = record a { context = set_node_output n r ctx } in
          rw (e, f, visit)
            (Visited-Visit py n a (settle py node n r after).1 (settle py node n r after).0 (
              Visited-context n a (set_node_output n r ctx)
                (settle-Visited py node n r after c.fresh)))
    ]
  ]
