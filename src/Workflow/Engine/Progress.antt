-- ===== src/Workflow/Engine/Progress.antt =====
-- `_execute_loop` of backend/app/workflow/executor.py ends, and what holds when it has.
use enterprise_ai_agent.Prelude.{
  ℕ, zero, suc, ◌+◌, ◌≤◌, ◌<◌, ◌≡◌, refl, ap, ◌∙◌, true, false, none, some, String, length, arith,
  Bool-cases, inl, inr,
}
use enterprise_ai_agent.Prelude.Text.{occ}
use enterprise_ai_agent.Prelude.TextDict.{keys}
use enterprise_ai_agent.Workflow.Graph.{Raises, ok, raised, Raises-cases}
use enterprise_ai_agent.Workflow.Graph.Order.{IsGraph}
use enterprise_ai_agent.Workflow.Value.{Python}
use enterprise_ai_agent.Workflow.Execute.{Services}
use enterprise_ai_agent.Workflow.Engine.{
  ActiveRun, auto_skip, ready_nodes, is_empty, run_round, is_running, close, execute_loop,
}
use enterprise_ai_agent.Workflow.Engine.Resolve.{IsRun}
use enterprise_ai_agent.Workflow.Engine.Skips.{auto_skip-IsRun, ready_nodes-CanResolve}
use enterprise_ai_agent.Workflow.Engine.Rounds.{run_round-Rounded}
use enterprise_ai_agent.Workflow.Engine.Ended.{
  Ended, done_count, done_count-le, close-Ended, Ended-after, more_room, halted-Ended,
  refused-Ended,
}

module _ {W : Type 0} (py : Python) (services : Services W) where
  loop-goes :
      (fuel : ℕ) (a : ActiveRun) (w : W)
      → is_running a.status ≡ true
      → is_empty (ready_nodes (auto_skip a)) ≡ false
      → (run_round py services (ready_nodes (auto_skip a)) (auto_skip a) w).0 ≡ ok false
      → execute_loop py services (suc fuel) a w
        ≡ execute_loop py services fuel
            (run_round py services (ready_nodes (auto_skip a)) (auto_skip a) w).1
            (run_round py services (ready_nodes (auto_skip a)) (auto_skip a) w).2
  unfolding execute_loop
  loop-goes fuel a w live some_ready goes = rw (live, some_ready, goes, execute_loop) refl

  loop-ends :
      (fuel : ℕ) (a : ActiveRun) (w : W)
      → ((m : String) → occ m (keys a.graph.nodes) ≤ 1)
      → IsRun a
      → a.pending_node_id ≡ none
      → length a.graph.nodes < fuel + done_count a
      → (left : Raises (Unit {0})) × (b : ActiveRun) × (w' : W) × (execute_loop py services fuel a w
          ≡ some (left, b, w'))
        × Ended py a left b
  unfolding execute_loop
  loop-ends zero a w u h p k = absurd (omega (arith, done_count-le a h))
  loop-ends (suc fuel) a w u h p k =
      let (h', s) = auto_skip-IsRun a u h in
      let a' = auto_skip a in
      let rounded =
        run_round-Rounded py services (ready_nodes a') a' w (λ m. ground (arith, s.graph, u m))
          (ready_nodes-CanResolve a' (s.pending ∙ p) (λ m. ground (arith, s.graph, u m))) h' in
      elim (Bool-cases (is_running a.status)) [
        | inr idle ↦ (
          ok tt,
          a,
          w,
          rw idle,
          record {
            graph = refl;
            is_run = h;
            not_running = λ x. idle;
            refuses = λ m x. cc;
            all_resolved = λ r. absurd (ground (arith, idle, r));
          },
        )
        | inl live ↦ elim (Bool-cases (is_empty (ready_nodes (auto_skip a)))) [
          | inl none_ready ↦ (
            ok tt,
            close (auto_skip a),
            w,
            rw (live, none_ready),
            Ended-after s (close-Ended py (auto_skip a) h'),
          )
          | inr some_ready ↦
              elim (Raises-cases
                (run_round py services (ready_nodes (auto_skip a)) (auto_skip a) w).0) [
                  | inl (x, raises) ↦ (
                    raised x,
                    (run_round py services (ready_nodes (auto_skip a)) (auto_skip a) w).1,
                    (run_round py services (ready_nodes (auto_skip a)) (auto_skip a) w).2,
                    rw (live, some_ready, raises),
                    Ended-after s (refused-Ended rounded (ground (arith, s.status, live)) x raises),
                  )
                  | inr (stop, settles) ↦ elim (Bool-cases stop) [
                    | inl t ↦ (
                      ok tt,
                      (run_round py services (ready_nodes (auto_skip a)) (auto_skip a) w).1,
                      (run_round py services (ready_nodes (auto_skip a)) (auto_skip a) w).2,
                      rw (live, some_ready, settles, t),
                      Ended-after s (
                          halted-Ended rounded.is_run rounded.graph
                            (rounded.leaves (settles ∙ ap ok t))),
                    )
                    | inr t ↦
                        let (same, sizes) = rounded.goes_on (settles ∙ ap ok t) in
                        let (left, b, w', e, ended) =
                          loop-ends fuel
                            (run_round py services (ready_nodes (auto_skip a)) (auto_skip a) w).1
                            (run_round py services (ready_nodes (auto_skip a)) (auto_skip a) w).2
                            (λ m. ground (arith, same.graph, s.graph, u m)) rounded.is_run
                            (same.pending ∙ (s.pending ∙ p))
                            (more_room (ready_nodes (auto_skip a)) fuel s same some_ready sizes
                              k) in
                        (
                          left,
                          b,
                          w',
                          loop-goes fuel a w live some_ready (settles ∙ ap ok t) ∙ e,
                          Ended-after s (Ended-after same ended),
                        )
                  ]
                ]
        ]
      ]

  -- With one unit of fuel more than there are nodes `_execute_loop` ends, whatever the agents and the
  -- tools answer: for a run on a graph that is sound and has no node pending. It returns and the run is
  -- not RUNNING, or it raises the exception of a node of the graph whose metadata (of an agent) or
  -- arguments (of a tool) Python refuses to take as a dictionary, and leaves the run RUNNING. Either
  -- way only nodes are resolved (each once, as completed or as skipped), none before the sources of
  -- its unconditional edges, and a run that went from RUNNING to COMPLETED has resolved every node.
  pub execute_loop-ends :
      (a : ActiveRun) (w : W)
      → IsGraph a.graph
      → IsRun a
      → a.pending_node_id ≡ none
      → (left : Raises (Unit {0})) × (b : ActiveRun) × (w' : W) × (execute_loop py services
            (suc (length a.graph.nodes))
            a
            w
          ≡ some (left, b, w'))
        × Ended py a left b
  execute_loop-ends a w g h p =
      loop-ends (suc (length a.graph.nodes)) a w g.unique h p (omega arith)
