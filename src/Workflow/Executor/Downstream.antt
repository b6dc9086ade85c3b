-- ===== src/Workflow/Executor/Downstream.antt =====
-- `_collect_downstream` of backend/app/workflow/executor.py: what `rerun_step` resets.
use enterprise_ai_agent.Prelude.{
  ℕ, zero, suc, ◌+◌, ◌≤◌, ◌<◌, ◌≡◌, refl, ◌&&◌, not, some, List, [], ◌∷◌, ◌++◌, String, length,
  length-append, arith, Bool-cases, inl, inr, All, ◌⊎◌,
}
use enterprise_ai_agent.Prelude.Text.{
  str_eq, eq_iff, eq_refl, occ, occ-append, mem, length-le_of_occ,
}
use enterprise_ai_agent.Workflow.Node.{WorkflowEdge}
use enterprise_ai_agent.Workflow.Graph.Taking.{Ends}
use enterprise_ai_agent.Prelude.TextDict.{keys}
use enterprise_ai_agent.Workflow.Graph.{WorkflowGraph}
use enterprise_ai_agent.Workflow.Graph.Order.{IsGraph}
use enterprise_ai_agent.Workflow.Engine.{add}
use enterprise_ai_agent.Workflow.Engine.Ended.{length-keys}
use enterprise_ai_agent.Workflow.Executor.{follow, collect, reset_nodes}

-- What the inner loop over the edges makes of the visited nodes and the queue.
record Followed (es : List WorkflowEdge) (current : String)
    (ns visited queue visited' queue' : List String) : Type 0 where
  visited_grows : (n : String) → occ n visited ≤ occ n visited'
  queue_grows : (n : String) → occ n queue ≤ occ n queue'
  new_queued : (n : String) → 1 ≤ occ n visited' → (1 ≤ occ n visited) ⊎ (1 ≤ occ n queue')
  within : ((n : String) → occ n visited ≤ occ n ns) → (n : String) → occ n visited' ≤ occ n ns
  sizes : length queue' + length visited ≡ length queue + length visited'
  covers : All (λ e. e.from_id ≡ current → 1 ≤ occ e.to_id visited') es

Followed-more :
    {es : List WorkflowEdge} {e : WorkflowEdge} {current : String} {ns v q v' q' : List String}
    → (e.from_id ≡ current → 1 ≤ occ e.to_id v)
    → Followed es current ns v q v' q'
    → Followed (e ∷ es) current ns v q v' q'
Followed-more {e = e} h f = record {
  visited_grows = f.visited_grows;
  queue_grows = f.queue_grows;
  new_queued = f.new_queued;
  within = f.within;
  sizes = f.sizes;
  covers = ((λ i. omega (arith, h i, f.visited_grows e.to_id)), f.covers);
}

follow-Followed :
    (es : List WorkflowEdge) (current : String) (ns v q : List String)
    → All (Ends ns) es
    → Followed es current ns v q (follow es current v q).0 (follow es current v q).1
unfolding follow occ
follow-Followed [] current ns v q k = record {
  visited_grows = λ n. omega arith;
  queue_grows = λ n. omega arith;
  new_queued = λ n h. inl h;
  within = λ h n. h n;
  sizes = refl;
  covers = tt;
}
follow-Followed (e ∷ es) current ns v q k =
    elim (Bool-cases (str_eq e.from_id current && not (mem e.to_id v))) [
      | inl t ↦
          let f = follow-Followed es current ns (e.to_id ∷ v) (q ++ e.to_id ∷ []) k.1 in
          let fresh : occ e.to_id v ≡ 0 = ground (arith, t) in
          rw (t, follow)
            (record {
              visited_grows = λ n. ground (arith, f.visited_grows n);
              queue_grows = λ n. omega (arith, f.queue_grows n, occ-append n q (e.to_id ∷ []));
              new_queued = λ n h.
                  ground (arith, f.new_queued n h, f.queue_grows n, occ-append n q (e.to_id ∷ []));
              within = λ h. f.within λ n. ground (arith, h n, fresh, k.0, eq_iff e.to_id n);
              sizes = omega (arith, f.sizes, length-append q (e.to_id ∷ []));
              covers = ((λ i. ground (arith, f.visited_grows e.to_id, eq_refl e.to_id)), f.covers);
            })
      | inr t ↦
          rw (t, follow)
            (Followed-more (λ i. ground (arith, t, i, eq_refl current))
              (follow-Followed es current ns v q k.1))
    ]

-- Nodes from which the search has gone on: those visited, and its start, less those in the queue.
abbrev Covered : String → List String → List String → WorkflowEdge → Type 0
Covered start visited queue e =
    1 ≤ occ e.from_id (start ∷ visited) → occ e.from_id queue ≡ 0 → 1 ≤ occ e.to_id visited

All-Covered-follow :
    (es : List WorkflowEdge) (start current : String) (v q v' q' : List String)
    → ((n : String) → occ n v ≤ occ n v')
    → ((n : String) → occ n q ≤ occ n q')
    → ((n : String) → 1 ≤ occ n v' → (1 ≤ occ n v) ⊎ (1 ≤ occ n q'))
    → All (λ e. e.from_id ≡ current → 1 ≤ occ e.to_id v') es
    → All (Covered start v (current ∷ q)) es
    → All (Covered start v' q') es
unfolding occ
All-Covered-follow [] start current v q v' q' a b c d h = tt
All-Covered-follow (e ∷ es) start current v q v' q' a b c d h = (
  (λ i j.
      ground
        (arith, a e.to_id, b e.from_id, c e.from_id, d.0, h.0, i, j, eq_iff current e.from_id)),
  All-Covered-follow es start current v q v' q' a b c d.1 h.1,
)

-- The search ends with a set of nodes that every edge from it, or from the start, leads back into.
collect-Covered :
    (fuel : ℕ) (es : List WorkflowEdge) (ns : List String) (start : String) (v q : List String)
    → All (Ends ns) es
    → ((n : String) → occ n v ≤ occ n ns)
    → length q + length ns < fuel + length v
    → All (Covered start v q) es
    → (vs : List String) × (collect fuel es v q ≡ some vs) × All (Covered start vs []) es
unfolding collect
collect-Covered zero es ns start v q k w m c = absurd (omega (arith, length-le_of_occ v ns w))
collect-Covered (suc fuel) es ns start v [] k w m c = (v, refl, c)
collect-Covered (suc fuel) es ns start v (x ∷ q) k w m c =
    let f = follow-Followed es x ns v q k in
    collect-Covered fuel es ns start (follow es x v q).0 (follow es x v q).1 k (f.within w)
      (omega (arith, f.sizes, m))
      (All-Covered-follow es start x v q (follow es x v q).0 (follow es x v q).1 f.visited_grows
        f.queue_grows f.new_queued f.covers c)

-- A set of nodes that no edge leads out of.
abbrev pub IsClosed : List String → List WorkflowEdge → Type 0
IsClosed ns es = All (λ e. 1 ≤ occ e.from_id ns → 1 ≤ occ e.to_id ns) es

-- A set is within every set that has the node and that no edge leads out of.
abbrev pub IsLeast : String → List String → List WorkflowEdge → Type 0
IsLeast node_id ns es =
    (ms : List String)
    → IsClosed ms es
    → 1 ≤ occ node_id ms
    → (n : String) → 1 ≤ occ n ns
    → 1 ≤ occ n ms

-- All of one list are in the other.
abbrev Within : List String → List String → Type 0
Within ns ms = (n : String) → 1 ≤ occ n ns → 1 ≤ occ n ms

follow-Within :
    (es : List WorkflowEdge) (current : String) (ms v q : List String)
    → IsClosed ms es
    → 1 ≤ occ current ms
    → Within v ms
    → Within q ms
    → Within (follow es current v q).0 ms × Within (follow es current v q).1 ms
unfolding follow occ
follow-Within [] current ms v q closed has h k = (h, k)
follow-Within (e ∷ es) current ms v q closed has h k =
    elim (Bool-cases (str_eq e.from_id current && not (mem e.to_id v))) [
      | inl t ↦
          let reached : 1 ≤ occ e.to_id ms =
            ground (arith, closed.0, has, t, eq_iff e.from_id current) in
          rw (t, follow)
            (follow-Within es current ms (e.to_id ∷ v) (q ++ e.to_id ∷ []) closed.1 has
              (λ n i. ground (arith, i, h n, reached, eq_iff e.to_id n))
              (λ n i.
                ground (arith, i, k n, reached, eq_iff e.to_id n, occ-append n q (e.to_id ∷ []))))
      | inr t ↦ rw (t, follow) (follow-Within es current ms v q closed.1 has h k)
    ]

collect-Within :
    (fuel : ℕ) (es : List WorkflowEdge) (ms v q vs : List String)
    → IsClosed ms es
    → Within v ms
    → Within q ms
    → collect fuel es v q ≡ some vs
    → Within vs ms
unfolding collect occ
collect-Within zero es ms v q vs closed h k e = cc
collect-Within (suc fuel) es ms v [] vs closed h k e = ground (arith, h, e)
collect-Within (suc fuel) es ms v (x ∷ q) vs closed h k e =
    let (h', k') =
      follow-Within es x ms v q closed (k x (ground (arith, eq_refl x))) h
        (λ n i. k n (ground (arith, i))) in
    collect-Within fuel es ms (follow es x v q).0 (follow es x v q).1 vs closed h' k' e

Covered-IsClosed :
    (es : List WorkflowEdge) (start : String) (vs : List String)
    → All (Covered start vs []) es
    → IsClosed (add start vs) es
unfolding add occ
Covered-IsClosed [] start vs c = tt
Covered-IsClosed (e ∷ es) start vs c =
    ((λ i. ground (arith, c.0, i)), Covered-IsClosed es start vs c.1)

All-Covered-start :
    (es : List WorkflowEdge) (start : String) → All (Covered start [] (start ∷ [])) es
unfolding occ
All-Covered-start [] start = tt
All-Covered-start (e ∷ es) start =
    ((λ i j. absurd (ground (arith, i, j))), All-Covered-start es start)

-- `{node_id} | _collect_downstream(graph, node_id)` is found with the fuel given, has the node in it,
-- no edge leads out of it, and it is the smallest such set.
pub reset_nodes-IsClosed :
    (g : WorkflowGraph) (node_id : String)
    → IsGraph g
    → (ns : List String) × (reset_nodes g node_id ≡ some ns)
      × (1 ≤ occ node_id ns)
      × IsClosed ns g.edges
      × IsLeast node_id ns g.edges
unfolding reset_nodes add occ
reset_nodes-IsClosed g node_id h =
    let (vs, e, c) =
      collect-Covered (suc (suc (length g.nodes))) g.edges (keys g.nodes) node_id [] (node_id ∷ [])
        h.ends (λ n. omega arith) (omega (arith, length-keys g.nodes))
        (All-Covered-start g.edges node_id) in
    (
      add node_id vs,
      rw (e, reset_nodes) refl,
      ground (arith, eq_refl node_id),
      Covered-IsClosed g.edges node_id vs c,
      λ ms closed has n i.
          let within =
            collect-Within (suc (suc (length g.nodes))) g.edges ms [] (node_id ∷ []) vs closed
              (λ m j. absurd (omega arith)) (λ m j. ground (arith, j, has, eq_iff node_id m)) e in
          ground (arith, within n, i, has, eq_iff node_id n),
    )
