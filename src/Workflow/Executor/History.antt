-- ===== src/Workflow/Executor/History.antt =====
-- The dictionary `_runs` of backend/app/workflow/executor.py over a sequence of calls.
use enterprise_ai_agent.Prelude.{
  ◌≡◌, refl, true, false, Option, some, [], String, arith, Option-cases, Bool-cases, inl, inr, ◌⊎◌,
  subst,
}
use enterprise_ai_agent.Prelude.Text.{str_eq}
use enterprise_ai_agent.Prelude.TextDict.{TextDict, lookup, insert, lookup-insert}
use enterprise_ai_agent.Workflow.Node.{Value}
use enterprise_ai_agent.Workflow.Value.{Python}
use enterprise_ai_agent.Workflow.Context.{RunStatus, RunResult}
use enterprise_ai_agent.Workflow.Graph.{WorkflowGraph, Raises, raised, Raises-cases, validate}
use enterprise_ai_agent.Workflow.Execute.Refused.{Refuses}
use enterprise_ai_agent.Workflow.Engine.Ended.{Ended}
use enterprise_ai_agent.Workflow.Graph.Order.{IsGraph}
use enterprise_ai_agent.Workflow.Execute.{Services}
use enterprise_ai_agent.Workflow.Engine.{ActiveRun, is_running}
use enterprise_ai_agent.Workflow.Engine.Resolve.{IsRun}
use enterprise_ai_agent.Workflow.Executor.{
  Runs, start_run, reset, run, resume, rerun_step, is_waiting,
}
use enterprise_ai_agent.Workflow.Executor.Calls.{
  Returned, run-Returned, resume-Returned, approve-Same,
}
use enterprise_ai_agent.Workflow.Executor.Rerun.{rerun_step-Returned}

-- A run between two calls: its graph is one, it is sound, and it is not RUNNING, unless a node of its
-- graph is refused with an exception, which then has left the loop.
pub record IsStopped (py : Python) (a : ActiveRun) : Type 0 where
  pub is_graph : IsGraph a.graph
  pub is_run : IsRun a
  pub not_running : (is_running a.status ≡ false) ⊎ ((e : String) × Refuses py a.graph e)

pub record AllStopped (py : Python) (runs : Runs) : Type 0 where
  pub each : (k : String) (a : ActiveRun) → lookup k runs ≡ some a → IsStopped py a

waiting_lem : (s : RunStatus) → is_waiting s ≡ true → s ≡ RunStatus.waiting_approval
unfolding is_waiting
waiting_lem RunStatus.waiting_approval e = refl
waiting_lem _ e = ground (arith, e)

module _ {W : Type 0} (py : Python) (services : Services W) where
  -- What the calls of `run`, `resume` and `rerun_step` that have ended, with a result or an exception,
  -- have made of `_runs`.
  pub data History : Runs → W → Type 0 where
    nothing : (w : W) → History [] w
    ran :
        {runs runs' : Runs} {w w' : W} (g : WorkflowGraph) (sid rid msg : String)
        (shared metadata : TextDict Value) (r : Raises RunResult)
        → History runs w
        → IsGraph g
        → run py services g sid rid msg shared metadata runs w ≡ some (r, runs', w')
        → History runs' w'
    resumed :
        {runs runs' : Runs} {w w' : W} (run_id : String) (payload : Option (TextDict Value))
        (r : Raises RunResult)
        → History runs w
        → resume py services run_id payload runs w ≡ some (r, runs', w')
        → History runs' w'
    rerun :
        {runs runs' : Runs} {w w' : W} (run_id node_id : String) (r : Raises RunResult)
        → History runs w
        → rerun_step py services run_id node_id runs w ≡ some (r, runs', w')
        → History runs' w'

  Ended-stopped :
      {a b : ActiveRun} {left : Raises (Unit {0})}
      → Ended py a left b
      → (is_running b.status ≡ false) ⊎ ((e : String) × Refuses py b.graph e)
  Ended-stopped {left = left} h = elim (Raises-cases left) [
    | inl (e, raises) ↦ inr (e, (h.refuses e raises).1)
    | inr (u, returns) ↦ inl (h.not_running returns)
  ]

  -- A call that raises before it reaches the loop leaves `_runs` as it was.
  unchanged :
      {runs runs' : Runs} {w w' : W} {x : String} {r : Raises RunResult}
      → AllStopped py runs
      → ◌≡◌ {A = Option (Raises RunResult × Runs × W)}
          (some (raised x, runs, w))
          (some (r, runs', w'))
      → AllStopped py runs'
  unchanged {runs} {runs'} h e =
      let same : runs ≡ runs' = ground (arith, e) in subst (λ d. AllStopped py d) same h

  Returned-AllStopped :
      {runs runs' : Runs} {w' : W} {a : ActiveRun} {r : Raises RunResult} {k : String}
      {x : Option (Raises RunResult × Runs × W)}
      → AllStopped py runs
      → IsGraph a.graph
      → Returned py k a runs x
      → x ≡ some (r, runs', w')
      → AllStopped py runs'
  Returned-AllStopped {runs} {runs'} {a = a} {k = k} h g c e =
      let same : insert k c.left runs ≡ runs' = ground (arith, c.returns, e) in
      rw (← same) (record {
        each = λ j b f. elim (Bool-cases (str_eq k j)) [
          | inl t ↦
              let is_left : c.left ≡ b = ground (arith, t, f, lookup-insert k j c.left runs) in
              rw (← is_left) (record {
                is_graph = rw c.ended.graph g;
                is_run = c.ended.is_run;
                not_running = Ended-stopped c.ended;
              })
          | inr t ↦ h.each j b (ground (arith, t, f, lookup-insert k j c.left runs))
        ];
      })

  -- Whatever calls have ended, with a result or an exception, from no runs on and with graphs whose
  -- edges join their nodes, every run in `_runs` is not RUNNING, unless a node of its graph is refused,
  -- and is sound: only nodes are resolved, each once, none before the sources of its unconditional
  -- edges.
  pub History-AllStopped : {runs : Runs} {w : W} → History runs w → AllStopped py runs
  unfolding lookup run resume rerun_step
  History-AllStopped (nothing w) = record { each = λ k a f. absurd (ground (arith, f)) }
  History-AllStopped (ran {runs} {w = w} g sid rid msg shared metadata r past h e) =
      elim (Raises-cases (validate g)) [
        | inl (x, f) ↦ unchanged (History-AllStopped past) (rw (f, run) at e)
        | inr (u, valid) ↦
            Returned-AllStopped (History-AllStopped past) (unfold start_run in h)
              (run-Returned py services g sid rid msg shared metadata runs w h valid) e
      ]
  History-AllStopped (resumed {runs} {w = w} run_id payload r past e) =
      let h = History-AllStopped past in
      elim (Option-cases (lookup run_id runs)) [
        | inl f ↦ unchanged h (rw (f, resume) at e)
        | inr (a, f) ↦ elim (Bool-cases (is_waiting a.status)) [
          | inl t ↦
              let s = h.each run_id a f in
              let same_graph = (approve-Same py services payload a).0 in
              Returned-AllStopped h (rw same_graph s.is_graph)
                (resume-Returned py services run_id payload runs w a f s.is_graph s.is_run
                  (waiting_lem a.status t))
                e
          | inr t ↦ unchanged h (rw (f, t, resume) at e)
        ]
      ]
  History-AllStopped (rerun {runs} {w = w} run_id node_id r past e) =
      let h = History-AllStopped past in
      elim (Option-cases (lookup run_id runs)) [
        | inl f ↦ unchanged h (rw (f, rerun_step) at e)
        | inr (a, f) ↦ elim (Option-cases (lookup node_id a.graph.nodes)) [
          | inl n ↦ unchanged h (rw (f, n, rerun_step) at e)
          | inr (node, n) ↦
              let s = h.each run_id a f in
              let returned =
                rerun_step-Returned py services run_id node_id runs w a node f n s.is_graph
                  s.is_run in
              Returned-AllStopped h (unfold reset in s.is_graph) returned.5 e
        ]
      ]
