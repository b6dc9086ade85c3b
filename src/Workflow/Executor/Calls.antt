-- ===== src/Workflow/Executor/Calls.antt =====
-- What a call of the executor returns and leaves in `_runs`.
use enterprise_ai_agent.Prelude.{
  ℕ, ◌≡◌, refl, true, Option, none, some, List, [], ◌∷◌, String, arith, Option-cases, Bool-cases,
  inl, inr, All,
}
use enterprise_ai_agent.Prelude.Text.{str_eq, occ}
use enterprise_ai_agent.Prelude.TextDict.{TextDict, lookup, insert}
use enterprise_ai_agent.Workflow.Node.{Value, WorkflowEdge}
use enterprise_ai_agent.Workflow.Value.{Python}
use enterprise_ai_agent.Workflow.Context.{RunStatus, RunResult}
use enterprise_ai_agent.Workflow.Graph.{WorkflowGraph, Raises, ok, validate}
use enterprise_ai_agent.Workflow.Graph.Order.{IsGraph}
use enterprise_ai_agent.Workflow.Execute.{Services}
use enterprise_ai_agent.Workflow.Engine.{ActiveRun}
use enterprise_ai_agent.Workflow.Engine.Resolve.{IsRun, Settled}
use enterprise_ai_agent.Workflow.Engine.Visits.{IsRun-same}
use enterprise_ai_agent.Workflow.Engine.Ended.{Ended}
use enterprise_ai_agent.Workflow.Engine.Progress.{execute_loop-ends}
use enterprise_ai_agent.Workflow.Executor.{
  Runs, answer_of, start_run, approve, reopen, run_loop, run, resume, is_waiting,
}

All-Settled-none :
    (es : List WorkflowEdge) (r : String → ℕ) → ((n : String) → r n ≡ 0) → All (Settled r) es
All-Settled-none [] r z = tt
All-Settled-none (e ∷ es) r z =
    ((λ h t. absurd (omega (arith, z e.to_id))), All-Settled-none es r z)

pub start_run-IsRun :
    (g : WorkflowGraph) (sid rid msg : String) (shared metadata : TextDict Value)
    → IsRun (start_run g sid rid msg shared metadata)
unfolding start_run occ
start_run-IsRun g sid rid msg shared metadata = record {
  within = λ n. omega arith;
  settled = All-Settled-none g.edges _ (λ n. refl);
}

-- A call that ran the loop: it returned the result of the run that it left in `_runs`, or raised what
-- the loop raised, and the run has come to an end of the loop.
pub record Returned {W : Type 0} (py : Python) (run_id : String) (a : ActiveRun) (runs : Runs)
    (r : Option (Raises RunResult × Runs × W)) : Type 0 where
  pub exit : Raises (Unit {0})
  pub left : ActiveRun
  pub world : W
  pub returns : r ≡ some (answer_of exit left, insert run_id left runs, world)
  pub ended : Ended py a exit left

module _ {W : Type 0} (py : Python) (services : Services W) where
  pub run_loop-Returned :
      (run_id : String) (a : ActiveRun) (runs : Runs) (w : W)
      → IsGraph a.graph
      → IsRun a
      → a.pending_node_id ≡ none
      → Returned py run_id a runs (run_loop py services run_id a runs w)
  unfolding run_loop
  run_loop-Returned run_id a runs w g h p =
      let (exit, b, w', e, ended) = execute_loop-ends py services a w g h p in
      record { exit = exit; left = b; world = w'; returns = rw (e, run_loop); ended = ended }

  -- On a graph whose edges join its nodes and that passes `validate`, `run` comes to an end: it returns
  -- the result of the run that it leaves in `_runs`, which is not RUNNING, or raises the exception of a
  -- node of the graph that is refused, and leaves the run RUNNING in `_runs`. Either way only nodes are
  -- resolved, none before the sources of its unconditional edges, and all if the run is COMPLETED.
  pub run-Returned :
      (g : WorkflowGraph) (sid rid msg : String) (shared metadata : TextDict Value) (runs : Runs)
      (w : W)
      → IsGraph g
      → validate g ≡ ok tt
      → Returned py rid
          (start_run g sid rid msg shared metadata)
          runs
          (run py services g sid rid msg shared metadata runs w)
  unfolding run start_run
  run-Returned g sid rid msg shared metadata runs w h v =
      rw (v, run)
        (run_loop-Returned rid (start_run g sid rid msg shared metadata) runs w h
          (start_run-IsRun g sid rid msg shared metadata) refl)

  pub approve-Same :
      (payload : Option (TextDict Value)) (a : ActiveRun)
      → ((approve py payload a).graph ≡ a.graph)
        × ((approve py payload a).completed ≡ a.completed)
        × ((approve py payload a).skipped ≡ a.skipped)
  unfolding approve
  approve-Same none a = (refl, refl, refl)
  approve-Same (some payload) a = elim (Option-cases a.pending_node_id) [
    | inl e ↦ rw (e, approve) (refl, refl, refl)
    | inr (n, e) ↦ elim (Bool-cases (str_eq n "")) [
      | inl t ↦ rw (e, t, approve) (refl, refl, refl)
      | inr t ↦ rw (e, t, approve) (refl, refl, refl)
    ]
  ]

  -- `resume` of a run that is known and sound, on a graph, and waits for an approval comes to an end: the
  -- run with the payload written to its context goes through the loop, and `resume` returns its result,
  -- the run not being RUNNING, or raises the exception of a node of the graph that is refused.
  pub resume-Returned :
      (run_id : String) (payload : Option (TextDict Value)) (runs : Runs) (w : W) (a : ActiveRun)
      → lookup run_id runs ≡ some a
      → IsGraph a.graph
      → IsRun a
      → a.status ≡ RunStatus.waiting_approval
      → Returned py run_id
          (reopen (approve py payload a))
          runs
          (resume py services run_id payload runs w)
  unfolding resume is_waiting
  resume-Returned run_id payload runs w a e g h s =
      let (same_graph, same_completed, same_skipped) = approve-Same payload a in
      let waits : is_waiting a.status ≡ true = rw s refl in
      rw (e, waits, resume)
        (run_loop-Returned run_id (reopen (approve py payload a)) runs w (rw same_graph g)
          (IsRun-same same_graph same_completed same_skipped h) refl)
