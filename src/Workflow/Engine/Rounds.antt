-- ===== src/Workflow/Engine/Rounds.antt =====
-- A round of `_execute_loop` in backend/app/workflow/executor.py: the nodes that are run, in order.
use enterprise_ai_agent.Prelude.{
  ◌+◌, ◌≤◌, ◌≡◌, refl, ap, subst, ◌∙◌, Bool, true, false, List, [], ◌∷◌, String, length, arith,
  Bool-cases, inl, inr,
}
use enterprise_ai_agent.Prelude.Text.{eq_refl, occ}
use enterprise_ai_agent.Prelude.TextDict.{keys}
use enterprise_ai_agent.Workflow.Value.{Python}
use enterprise_ai_agent.Workflow.Execute.{Services}
use enterprise_ai_agent.Workflow.Execute.Refused.{Refuses}
use enterprise_ai_agent.Workflow.Graph.{Raises, ok, raised, Raises-cases}
use enterprise_ai_agent.Workflow.Engine.{ActiveRun, visit, run_round}
use enterprise_ai_agent.Workflow.Engine.Resolve.{
  IsRun, CanResolve, Resolves-IsRun, Resolves-CanResolve,
}
use enterprise_ai_agent.Workflow.Engine.Skips.{Same, Same-refl, Same-trans}
use enterprise_ai_agent.Workflow.Engine.Visits.{is_halted, IsRun-same, visit-Visit}

-- What a round over a list of ready nodes leaves.
pub record Rounded (py : Python) (ns : List String) (a b : ActiveRun) (left : Raises Bool)
    : Type 0 where
  pub is_run : IsRun b
  pub graph : b.graph ≡ a.graph
  pub goes_on :
      left ≡ ok false
      → Same a b
        × (length b.completed + length b.skipped
            ≡ length ns + (length a.completed + length a.skipped))
  pub leaves : left ≡ ok true → is_halted b.status ≡ true
  pub refuses : (e : String) → left ≡ raised e → (b.status ≡ a.status) × Refuses py a.graph e

module _ {W : Type 0} (py : Python) (services : Services W) where
  pub run_round-Rounded :
      (ns : List String) (a : ActiveRun) (w : W)
      → ((m : String) → occ m (keys a.graph.nodes) ≤ 1)
      → ((m : String) → (occ m ns ≤ 1) × (1 ≤ occ m ns → CanResolve a m))
      → IsRun a
      → Rounded py ns a (run_round py services ns a w).1 (run_round py services ns a w).0
  unfolding run_round occ
  run_round-Rounded [] a w u k h = record {
    is_run = h;
    graph = refl;
    goes_on = λ e. (Same-refl a, omega arith);
    leaves = λ e. cc;
    refuses = λ m e. cc;
  }
  run_round-Rounded (n ∷ ns) a w u k h =
      let c = (k n).1 (ground (arith, eq_refl n)) in
      let v = visit-Visit py services n a w c in
      elim (Raises-cases (visit py services n a w).0) [
        | inl (x, raises) ↦
            let (same_completed, same_skipped, same_status, refused) = v.refuses x raises in
            rw (raises, run_round)
              (record {
                is_run = IsRun-same v.graph same_completed same_skipped h;
                graph = v.graph;
                goes_on = λ e. cc;
                leaves = λ e. cc;
                refuses = λ m e. (same_status, (v.refuses m (raises ∙ e)).3);
              })
        | inr (stop, settles) ↦ elim (Bool-cases stop) [
          | inl t ↦
              let (same_completed, same_skipped, ended) = v.leaves (settles ∙ ap ok t) in
              rw (settles, t, run_round)
                (record {
                  is_run = IsRun-same v.graph same_completed same_skipped h;
                  graph = v.graph;
                  goes_on = λ e. cc;
                  leaves = λ e. ended;
                  refuses = λ m e. cc;
                })
          | inr t ↦
              let (r, s) = v.goes_on (settles ∙ ap ok t) in
              let rest =
                run_round-Rounded ns (visit py services n a w).1 (visit py services n a w).2
                  (λ m. ground (arith, v.graph, u m))
                  (λ m. (
                    ground (arith, (k m).0),
                    λ i.
                        Resolves-CanResolve m r (ground (arith, (k m).0, i))
                          ((k m).1 (ground (arith, i))),
                  ))
                  (Resolves-IsRun r c h u) in
              rw (settles, t, run_round)
                (record {
                  is_run = rest.is_run;
                  graph = rest.graph ∙ v.graph;
                  goes_on = λ e.
                      let (same, sizes) = rest.goes_on e in
                      (Same-trans s same, omega (arith, sizes, r.sizes));
                  leaves = rest.leaves;
                  refuses = λ m e.
                      let (same_status, refused) = rest.refuses m e in
                      (same_status ∙ s.status, subst (λ g. Refuses py g m) v.graph refused);
                })
        ]
      ]
