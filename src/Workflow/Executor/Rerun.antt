-- ===== src/Workflow/Executor/Rerun.antt =====
-- `rerun_step` of backend/app/workflow/executor.py: that the reset keeps a run a run, and the call.
use enterprise_ai_agent.Prelude.{
  ℕ, ◌≤◌, ◌≡◌, refl, some, List, [], ◌∷◌, String, if◌then◌else◌, arith, All,
}
use enterprise_ai_agent.Prelude.Text.{eq_iff, occ, mem}
use enterprise_ai_agent.Workflow.Node.{WorkflowEdge, WorkflowNode}
use enterprise_ai_agent.Prelude.TextDict.{lookup}
use enterprise_ai_agent.Workflow.Value.{Python}
use enterprise_ai_agent.Workflow.Graph.Order.{IsGraph}
use enterprise_ai_agent.Workflow.Execute.{Services}
use enterprise_ai_agent.Workflow.Engine.{ActiveRun}
use enterprise_ai_agent.Workflow.Engine.Resolve.{res, IsRun, Settled}
use enterprise_ai_agent.Workflow.Executor.{Runs, reset_nodes, remove_all, reset, rerun_step}
use enterprise_ai_agent.Workflow.Executor.Calls.{Returned, run_loop-Returned}
use enterprise_ai_agent.Workflow.Executor.Downstream.{IsClosed, IsLeast, reset_nodes-IsClosed}

occ-remove_all :
    (ns xs : List String) (n : String)
    → occ n (remove_all ns xs) ≡ (if mem n ns then 0 else occ n xs)
unfolding remove_all occ
occ-remove_all ns [] n = ground arith
occ-remove_all ns (x ∷ xs) n = ground (arith, occ-remove_all ns xs n, eq_iff x n)

All-Settled-reset :
    (es : List WorkflowEdge) (ns : List String) (r r' : String → ℕ)
    → ((n : String) → r' n ≡ (if mem n ns then 0 else r n))
    → IsClosed ns es
    → All (Settled r) es
    → All (Settled r') es
All-Settled-reset [] ns r r' h c k = tt
All-Settled-reset (e ∷ es) ns r r' h c k = (
  (λ i j. ground (arith, h e.to_id, h e.from_id, c.0, k.0, i, j)),
  All-Settled-reset es ns r r' h c.1 k.1,
)

reset-IsRun :
    (node_id : String) (ns : List String) (a : ActiveRun)
    → IsClosed ns a.graph.edges
    → IsRun a
    → IsRun (reset node_id ns a)
unfolding reset
reset-IsRun node_id ns a c h =
    let counts : (n : String) → res (reset node_id ns a) n ≡ (if mem n ns then 0 else res a n) =
      λ n. ground (arith, occ-remove_all ns a.completed n, occ-remove_all ns a.skipped n) in
    record {
      within = λ n. ground (arith, counts n, h.within n);
      settled = All-Settled-reset a.graph.edges ns (res a) _ counts c h.settled;
    }

module _ {W : Type 0} (py : Python) (services : Services W) where
  -- `rerun_step` of a node of a run that is known and sound, on a graph: the set of nodes to reset is
  -- found with the fuel given; it is the smallest one with the node in it that no edge leads out of. The
  -- run without them goes through the loop again: the call returns its result, the run not being
  -- RUNNING, or raises the exception of a node of the graph that is refused.
  pub rerun_step-Returned :
      (run_id node_id : String) (runs : Runs) (w : W) (a : ActiveRun) (node : WorkflowNode)
      → lookup run_id runs ≡ some a
      → lookup node_id a.graph.nodes ≡ some node
      → IsGraph a.graph
      → IsRun a
      → (ns : List String) × (reset_nodes a.graph node_id ≡ some ns)
        × (1 ≤ occ node_id ns)
        × IsClosed ns a.graph.edges
        × IsLeast node_id ns a.graph.edges
        × Returned py run_id
            (reset node_id ns a)
            runs
            (rerun_step py services run_id node_id runs w)
  unfolding rerun_step reset
  rerun_step-Returned run_id node_id runs w a node known found g h =
      let (ns, e, has, closed, least) = reset_nodes-IsClosed a.graph node_id g in
      (
        ns,
        e,
        has,
        closed,
        least,
        rw (known, found, e, rerun_step)
            (run_loop-Returned py services run_id (reset node_id ns a) runs w g
              (reset-IsRun node_id ns a closed h) refl),
      )
