-- ===== src/Workflow/Graph/Build.antt =====
-- The methods that build a `WorkflowGraph` keep it a graph.
use enterprise_ai_agent.Prelude.{
  ◌≤◌, ◌≡◌, Option, List, [], ◌∷◌, ◌++◌, String, arith, Option-cases, inl, inr, All,
}
use enterprise_ai_agent.Prelude.Text.{eq_iff, occ}
use enterprise_ai_agent.Prelude.TextDict.{lookup, insert, keys, occ-keys-insert, occ-keys-none}
use enterprise_ai_agent.Workflow.Node.{WorkflowNode, WorkflowEdge}
use enterprise_ai_agent.Workflow.Graph.{WorkflowGraph, ok, add_node, add_edge}
use enterprise_ai_agent.Workflow.Graph.Taking.{Ends}
use enterprise_ai_agent.Workflow.Graph.Order.{IsGraph}

All-Ends-more :
    (ns ms : List String) (es : List WorkflowEdge)
    → ((n : String) → occ n ns ≤ occ n ms)
    → All (Ends ns) es
    → All (Ends ms) es
All-Ends-more ns ms [] h k = tt
All-Ends-more ns ms (e ∷ es) h k =
    ((omega (arith, k.0, h e.to_id), omega (arith, k.0, h e.from_id)), All-Ends-more ns ms es h k.1)

All-Ends-snoc :
    (ns : List String) (es : List WorkflowEdge) (e : WorkflowEdge)
    → Ends ns e
    → All (Ends ns) es
    → All (Ends ns) (es ++ e ∷ [])
All-Ends-snoc ns [] e h k = (h, tt)
All-Ends-snoc ns (x ∷ es) e h k = (k.0, All-Ends-snoc ns es e h k.1)

-- `add_node` that does not raise keeps every edge between nodes and every id unique, and adds the id.
pub add_node-IsGraph :
    (node : WorkflowNode) (g g' : WorkflowGraph)
    → IsGraph g
    → add_node node g ≡ ok g'
    → IsGraph g' × (occ node.id (keys g'.nodes) ≡ 1)
unfolding add_node
add_node-IsGraph node g g' h e = elim (Option-cases (lookup node.id g.nodes)) [
  | inl a ↦
      let more = λ (n : String). occ-keys-insert node.id n node g.nodes in
      let new = occ-keys-none node.id g.nodes a in
      let same : record g { nodes = insert node.id node g.nodes } ≡ g' = ground (arith, a, e) in
      rw (← same) (
        record {
          ends = All-Ends-more (keys g.nodes) _ g.edges (λ n. ground (arith, more n, a)) h.ends;
          unique = λ n. ground (arith, more n, a, new, h.unique n, eq_iff node.id n);
        },
        ground (arith, more node.id, a, new, eq_iff node.id node.id),
      )
  | inr (x, a) ↦ absurd (ground (arith, a, e))
]

-- `add_edge` that does not raise keeps every edge between nodes and every id unique, and both its ends
-- were nodes.
pub add_edge-IsGraph :
    (from_id to_id : String) (condition : Option String) (g g' : WorkflowGraph)
    → IsGraph g
    → add_edge from_id to_id condition g ≡ ok g'
    → IsGraph g' × (1 ≤ occ from_id (keys g.nodes)) × (1 ≤ occ to_id (keys g.nodes))
unfolding add_edge
add_edge-IsGraph from_id to_id condition g g' h e =
    let from_known : 1 ≤ occ from_id (keys g.nodes) = ground (arith, e) in
    let to_known : 1 ≤ occ to_id (keys g.nodes) = ground (arith, e) in
    let edge : WorkflowEdge = record { from_id = from_id; to_id = to_id; condition = condition } in
    let same : record g { edges = g.edges ++ edge ∷ [] } ≡ g' = ground (arith, e) in
    (
      rw (← same) (record {
        ends = All-Ends-snoc (keys g.nodes) g.edges edge (to_known, from_known) h.ends;
        unique = h.unique;
      }),
      from_known,
      to_known,
    )
