-- ===== src/Workflow/Graph/Topological.antt =====
-- `topological_order` of backend/app/workflow/graph.py, with and without a branch filter.
use enterprise_ai_agent.Prelude.{
  suc, ◌≤◌, ◌<◌, ◌≡◌, none, some, List, [], ◌∷◌, String, length, if◌then◌else◌, arith, Bool-cases,
  Option-cases, inl, inr, ◌==◌, All,
}
use enterprise_ai_agent.Prelude.Text.{eq_iff, occ, index, occ-le_of_length, sort, occ-sort}
use enterprise_ai_agent.Prelude.TextDict.{keys}
use enterprise_ai_agent.Workflow.Node.{WorkflowEdge}
use enterprise_ai_agent.Workflow.Graph.{
  WorkflowGraph, ok, raised, in_degree, without_incoming, counters, taken, roots, entry_nodes,
  entry_of, validate, BranchFilter, kept_edges, is_kept, starts_of, topological_order,
}
use enterprise_ai_agent.Workflow.Graph.Taking.{
  Ends, InOrder, take_ready-ends, take-IsReached, start-IsTaking, IsReached,
}
use enterprise_ai_agent.Workflow.Graph.Order.{IsGraph, validate_iff}

kept_edges-Ends :
    (f : BranchFilter) (es : List WorkflowEdge) (ns : List String)
    → All (Ends ns) es
    → All (Ends ns) (kept_edges f es)
unfolding kept_edges
kept_edges-Ends f [] ns k = tt
kept_edges-Ends f (e ∷ es) ns k = elim (Bool-cases (is_kept f e)) [
  | inl h ↦ rw (h, kept_edges) (k.0, kept_edges-Ends f es ns k.1)
  | inr h ↦ rw (h, kept_edges) (kept_edges-Ends f es ns k.1)
]

occ-without_incoming-le :
    (es : List WorkflowEdge) (ns : List String) (n : String)
    → (occ n (without_incoming (counters es) ns) ≤ occ n ns)
      × (1 ≤ occ n (without_incoming (counters es) ns) → in_degree es n ≡ 0)
unfolding without_incoming occ
occ-without_incoming-le es [] n = (omega arith, λ h. absurd (omega arith))
occ-without_incoming-le es (x ∷ ns) n =
    let (le, z) = occ-without_incoming-le es ns n in
    (ground (arith, le), ground (arith, z, eq_iff x n))

occ-roots :
    (es : List WorkflowEdge) (ns : List String) (n : String)
    → (occ n (roots es ns) ≤ occ n ns) × (1 ≤ occ n (roots es ns) → in_degree es n ≡ 0)
unfolding roots occ
occ-roots es [] n = (omega arith, λ h. absurd (omega arith))
occ-roots es (x ∷ ns) n =
    let (le, z) = occ-roots es ns n in (ground (arith, le), ground (arith, z, eq_iff x n))

-- The start of the loop consists of nodes, each once.
occ-starts :
    (g : WorkflowGraph)
    → ((e : String) → entry_of g ≡ some e → 1 ≤ occ e (keys g.nodes))
    → (n : String) → occ n (starts_of g) ≤ occ n (keys g.nodes)
unfolding starts_of entry_nodes occ
occ-starts g k n = elim (Option-cases (entry_of g)) [
  | inl a ↦ ground (arith, a, occ-roots g.edges (keys g.nodes) n)
  | inr (e, a) ↦ ground (arith, a, k e a, eq_iff e n)
]

-- The loop of `topological_order` on a graph that passes `validate`.
record Taken (es : List WorkflowEdge) (ns start : List String) : Type 0 where
  order : List String
  ends_with : taken es ns start ≡ some order
  within : (n : String) → occ n order ≤ occ n ns
  ordered : All (InOrder order) es
  reached : (n : String) → in_degree es n ≡ 0 → occ n order ≤ occ n start

abbrev first : BranchFilter → WorkflowGraph → List String
first f g = sort (without_incoming (counters (kept_edges f g.edges)) (starts_of g))

some-Taken :
    (f : BranchFilter) (g : WorkflowGraph)
    → IsGraph g
    → ((e : String) → entry_of g ≡ some e → 1 ≤ occ e (keys g.nodes))
    → Taken (kept_edges f g.edges) (keys g.nodes) (first f g)
unfolding taken occ
some-Taken f g h entry =
    let es = kept_edges f g.edges in
    let ns = keys g.nodes in
    let known = kept_edges-Ends f g.edges ns h.ends in
    let free = occ-without_incoming-le es (starts_of g) in
    let sorted = λ (n : String). occ-sort n (without_incoming (counters es) (starts_of g)) in
    let (order, e, (c, k), p) =
      take_ready-ends es ns known h.unique (IsReached es ns known h.unique (first f g))
        (take-IsReached es ns known h.unique (first f g)) (suc (length ns)) [] (first f g)
        (counters es) (omega arith)
        (start-IsTaking es ns known h.unique (first f g)
          (λ n. ground (arith, sorted n, free n, occ-starts g entry n))
          (λ n. ground (arith, sorted n, free n)))
        (λ n z. omega arith) in
    record {
      order = order;
      ends_with = e;
      within = λ n. omega (arith, k.within n);
      ordered = k.ordered;
      reached = λ n z. omega (arith, p n z);
    }

topological_order-eq :
    (f : BranchFilter) (g : WorkflowGraph)
    (t : Taken (kept_edges f g.edges) (keys g.nodes) (first f g))
    → validate g ≡ ok tt
    → topological_order f g ≡ (
        if length t.order == length (keys g.nodes)
        then ok t.order
        else raised "Graph has cycle or unreachable nodes")
unfolding topological_order
topological_order-eq f g t v = ground (arith, v, t.ends_with)

passes :
    (f : BranchFilter) (g : WorkflowGraph) (order : List String)
    → topological_order f g ≡ ok order
    → validate g ≡ ok tt
unfolding topological_order
passes f g order e = ground (arith, e)

InOrder-grows :
    (es : List WorkflowEdge) (ns order : List String)
    → All (Ends ns) es
    → All (InOrder order) es
    → ((n : String) → occ n ns ≤ occ n order)
    → All (λ e. index e.from_id order < index e.to_id order) es
InOrder-grows [] ns order k o h = tt
InOrder-grows (e ∷ es) ns order k o h =
    ((o.0 (omega (arith, k.0, h e.to_id))).1, InOrder-grows es ns order k.1 o.1 h)

-- On a graph whose edges join its nodes and whose ids are unique, a list that `topological_order`
-- returns, whatever the branch filter, holds every node exactly as often as the graph does, and each
-- edge that the filter keeps leads from a node to a later one.
pub topological_order-sorted :
    (f : BranchFilter) (g : WorkflowGraph) (order : List String)
    → IsGraph g
    → topological_order f g ≡ ok order
    → ((n : String) → occ n order ≡ occ n (keys g.nodes))
      × All (λ e. index e.from_id order < index e.to_id order) (kept_edges f g.edges)
topological_order-sorted f g order h e =
    let ns = keys g.nodes in
    let v = passes f g order e in
    let t = some-Taken f g h ((validate_iff g h).0 v).2 in
    let eq = topological_order-eq f g t v in
    let same : t.order ≡ order = ground (arith, eq, e) in
    let all = occ-le_of_length t.order ns t.within (ground (arith, eq, e)) in
    rw (← same) (
      (λ n. omega (arith, t.within n, all n)),
      InOrder-grows (kept_edges f g.edges) ns t.order (kept_edges-Ends f g.edges ns h.ends)
          t.ordered all,
    )

-- On a graph that passes `validate` and sets no entry id: if the filter drops every edge to a node that
-- has one, `topological_order` raises. (The node is no entry of the whole graph, so it is never taken.)
pub topological_order-drops_branch :
    (f : BranchFilter) (g : WorkflowGraph) (n : String)
    → IsGraph g
    → validate g ≡ ok tt
    → entry_of g ≡ none
    → 1 ≤ occ n (keys g.nodes)
    → 1 ≤ in_degree g.edges n
    → in_degree (kept_edges f g.edges) n ≡ 0
    → topological_order f g ≡ raised "Graph has cycle or unreachable nodes"
unfolding starts_of entry_nodes
topological_order-drops_branch f g n h v no_entry node target dropped =
    let ns = keys g.nodes in
    let es = kept_edges f g.edges in
    let t = some-Taken f g h ((validate_iff g h).0 v).2 in
    let all = occ-le_of_length t.order ns t.within in
    let missed : occ n t.order ≡ 0 = ground (
      arith,
      t.reached n dropped,
      occ-sort n (without_incoming (counters es) (starts_of g)),
      occ-without_incoming-le es (starts_of g) n,
      occ-roots g.edges ns n,
      no_entry,
    ) in
    elim (Bool-cases (length t.order == length ns)) [
      | inl same ↦ absurd (omega (arith, all (ground (arith, same)) n))
      | inr differ ↦ ground (arith, topological_order-eq f g t v, differ)
    ]
