-- ===== src/Workflow/Engine/Skips.antt =====
-- Before a round: `_auto_skip_unreachable` and `_ready_nodes` of backend/app/workflow/executor.py.
use enterprise_ai_agent.Prelude.{
  ◌+◌, ◌≤◌, ◌≡◌, refl, true, none, List, [], ◌∷◌, String, length, arith, inl, inr, ◌⊎◌,
}
use enterprise_ai_agent.Prelude.Text.{eq_iff, eq_refl, occ, occ-sort}
use enterprise_ai_agent.Prelude.TextDict.{keys}
use enterprise_ai_agent.Workflow.Engine.{
  ActiveRun, add, all_resolved, skip_unreachable, skip_each, auto_skip, predecessors, is_ready,
  ready_among, ready_nodes,
}
use enterprise_ai_agent.Workflow.Engine.Resolve.{
  res, IsRun, CanResolve, Resolves-IsRun, skip-Resolves, sources_of_predecessors,
  is_ready-CanResolve,
}

-- What stays while a round runs: the graph, that no node is pending, and the status.
pub record Same (a b : ActiveRun) : Type 0 where
  pub graph : b.graph ≡ a.graph
  pub pending : b.pending_node_id ≡ a.pending_node_id
  pub status : b.status ≡ a.status
  pub grows : length a.completed + length a.skipped ≤ length b.completed + length b.skipped

pub Same-refl : (a : ActiveRun) → Same a a
Same-refl a = record { graph = refl; pending = refl; status = refl; grows = omega arith }

pub Same-trans : {a b c : ActiveRun} → Same a b → Same b c → Same a c
Same-trans s t = ground (arith, s, t)

skip_cases :
    (n : String) (a : ActiveRun)
    → (skip_unreachable n a ≡ a)
      ⊎ ((skip_unreachable n a ≡ record a { skipped = add n a.skipped })
          × (res a n ≡ 0)
          × (all_resolved a (predecessors a.graph.edges n) ≡ true))
unfolding skip_unreachable
skip_cases n a = ground arith

skip_unreachable-IsRun :
    (n : String) (a : ActiveRun)
    → ((m : String) → occ m (keys a.graph.nodes) ≤ 1)
    → 1 ≤ occ n (keys a.graph.nodes)
    → IsRun a
    → IsRun (skip_unreachable n a) × Same a (skip_unreachable n a)
skip_unreachable-IsRun n a u k h = elim (skip_cases n a) [
  | inl e ↦ rw e (h, Same-refl a)
  | inr (e, fresh, sources) ↦
      let r = skip-Resolves n a fresh in
      rw e (
        Resolves-IsRun r
            (record {
              fresh = fresh;
              node = k;
              sources = sources_of_predecessors a.graph.edges a n sources;
            })
            h u,
        record { graph = refl; pending = refl; status = refl; grows = omega (arith, r.sizes) },
      )
]

skip_each-IsRun :
    (ns : List String) (a : ActiveRun)
    → ((m : String) → occ m (keys a.graph.nodes) ≤ 1)
    → ((m : String) → 1 ≤ occ m ns → 1 ≤ occ m (keys a.graph.nodes))
    → IsRun a
    → IsRun (skip_each ns a) × Same a (skip_each ns a)
unfolding skip_each occ
skip_each-IsRun [] a u k h = (h, Same-refl a)
skip_each-IsRun (n ∷ ns) a u k h =
    let (h', s) = skip_unreachable-IsRun n a u (k n (ground (arith, eq_refl n))) h in
    let (h'', t) =
      skip_each-IsRun ns (skip_unreachable n a) (λ m. ground (arith, s.graph, u m))
        (λ m i. ground (arith, s.graph, k m)) h' in
    (h'', Same-trans s t)

pub auto_skip-IsRun :
    (a : ActiveRun)
    → ((m : String) → occ m (keys a.graph.nodes) ≤ 1)
    → IsRun a
    → IsRun (auto_skip a) × Same a (auto_skip a)
unfolding auto_skip
auto_skip-IsRun a u h = skip_each-IsRun (keys a.graph.nodes) a u (λ m i. i) h

-- The ready nodes are nodes, each once, whose time has come.
occ-ready_among :
    (a : ActiveRun) (ns : List String) (n : String)
    → (occ n (ready_among a ns) ≤ occ n ns) × (1 ≤ occ n (ready_among a ns) → is_ready a n ≡ true)
unfolding ready_among occ
occ-ready_among a [] n = (omega arith, λ h. absurd (omega arith))
occ-ready_among a (m ∷ ns) n =
    let (le, t) = occ-ready_among a ns n in (ground (arith, le), ground (arith, t, eq_iff m n))

pub ready_nodes-CanResolve :
    (a : ActiveRun)
    → a.pending_node_id ≡ none
    → ((m : String) → occ m (keys a.graph.nodes) ≤ 1)
    → (n : String) → (occ n (ready_nodes a) ≤ 1) × (1 ≤ occ n (ready_nodes a) → CanResolve a n)
unfolding ready_nodes
ready_nodes-CanResolve a p u n =
    let (le, t) = occ-ready_among a (keys a.graph.nodes) n in
    let eq = occ-sort n (ready_among a (keys a.graph.nodes)) in
    (
      omega (arith, le, eq, u n),
      λ k. is_ready-CanResolve a n p (omega (arith, le, eq)) (t (omega (arith, eq))),
    )
