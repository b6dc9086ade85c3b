-- ===== src/Workflow/Graph.antt =====
-- `WorkflowGraph` of backend/app/workflow/graph.py.
--
-- The two loops of the source that take nodes without open predecessors from a queue,
-- `_assert_acyclic` and `topological_order`, are one loop here, which returns the ids in the order in
-- which they are taken; the first one only counts them. Its fuel is one more than the number of
-- nodes, and it gives none if that is spent.
pub mod Kahn
pub mod Taking
pub mod Order
pub mod Topological
pub mod Build
use Prim.Native.String.{◌++◌ as str_append}
use enterprise_ai_agent.Prelude.{
  ℕ, zero, suc, ◌+◌, Bool, true, false, ◌&&◌, not, Option, none, some, List, [], ◌∷◌, ◌++◌, String,
  ◌==◌, length, if◌then◌else◌, map, ◌≡◌, refl, ◌⊎◌, inl, inr,
}
use enterprise_ai_agent.Prelude.Int.{ℤ, pos, negsuc}
use enterprise_ai_agent.Prelude.Text.{str_eq, occ, mem, sort}
use enterprise_ai_agent.Prelude.TextDict.{TextDict, lookup, insert, keys}
use enterprise_ai_agent.Workflow.Node.{WorkflowNode, WorkflowEdge, matches_branch}

-- A call that may raise, with the exception's message.
pub data Raises {ℓ} (A : Type ℓ) : Type ℓ where
  ok : A → Raises A
  raised : String → Raises A

pub Raises-cases {ℓ} :
    {A : Type ℓ} (r : Raises A) → ((e : String) × (r ≡ raised e)) ⊎ ((a : A) × (r ≡ ok a))
Raises-cases (ok a) = inr (a, refl)
Raises-cases (raised e) = inl (e, refl)

infixl 5 ◌>>=◌ ◌>>◌
abbrev pub ◌>>=◌ {ℓ κ} : {A : Type ℓ} {B : Type κ} → Raises A → (A → Raises B) → Raises B
ok a >>= f = f a
raised e >>= f = raised e

abbrev pub ◌>>◌ {ℓ} : {B : Type ℓ} → Raises (Unit {0}) → Raises B → Raises B
m >> k = m >>= λ _. k

abbrev pub require : Bool → String → Raises (Unit {0})
require true e = ok tt
require false e = raised e

pub record WorkflowGraph : Type 0 where
  pub id : String
  pub name : String
  pub description : String
  pub nodes : TextDict WorkflowNode
  pub edges : List WorkflowEdge
  pub entry_node_id : Option String

unfoldable pub add_node : WorkflowNode → WorkflowGraph → Raises WorkflowGraph
add_node node g = elim (lookup node.id g.nodes) [
  | some _ ↦ raised (str_append "Duplicate node id: " node.id)
  | none ↦ ok (record g { nodes = insert node.id node g.nodes })
]

unfoldable pub add_edge :
    (from_id to_id : String) → Option String → WorkflowGraph → Raises WorkflowGraph
add_edge from_id to_id condition g =
    if mem from_id (keys g.nodes) && mem to_id (keys g.nodes)
    then ok (record g {
      edges = g.edges ++ (record { from_id = from_id; to_id = to_id; condition = condition }) ∷ [];
    })
    else raised
        (str_append "Edge references unknown node: " (str_append from_id (str_append " -> " to_id)))

-- The integer counters `incoming[node_id]`.
abbrev pub Counters : Type 0
Counters = String → ℤ

abbrev pub decrement : ℤ → ℤ
decrement (pos zero) = negsuc 0
decrement (pos (suc n)) = pos n
decrement (negsuc n) = negsuc (suc n)

abbrev pub is_zero : ℤ → Bool
is_zero (pos zero) = true
is_zero _ = false

abbrev pub update : String → ℤ → Counters → Counters
update k v c = λ n. if str_eq k n then v else c n

-- How many edges lead to a node.
unfoldable pub in_degree : List WorkflowEdge → String → ℕ
in_degree [] n = 0
in_degree (e ∷ es) n = if str_eq e.to_id n then suc (in_degree es n) else in_degree es n

-- The targets of the edges that leave a node, in the order of the edges.
unfoldable pub outgoing : List WorkflowEdge → String → List String
outgoing [] n = []
outgoing (e ∷ es) n = if str_eq e.from_id n then e.to_id ∷ outgoing es n else outgoing es n

-- The inner `for` loop: the counters, and the queue with the nodes whose counter comes to 0.
unfoldable pub relax : List String → Counters → List String → Counters × List String
relax [] c q = (c, q)
relax (nxt ∷ rest) c q =
    let c' = update nxt (decrement (c nxt)) c in
    relax rest c' (if is_zero (c' nxt) then q ++ nxt ∷ [] else q)

-- The `while queue` loop, with the ids that were taken so far.
unfoldable pub take_ready :
    ℕ → List WorkflowEdge → (order queue : List String) → Counters → Option (List String)
take_ready zero es order queue c = none
take_ready (suc fuel) es order [] c = some order
take_ready (suc fuel) es order (current ∷ queue) c =
    let (c', queue') = relax (outgoing es current) c queue in
    take_ready fuel es (order ++ current ∷ []) queue' c'

-- `[x for x in xs if counter[x] == 0]`
unfoldable pub without_incoming : Counters → List String → List String
without_incoming c [] = []
without_incoming c (n ∷ ns) =
    if is_zero (c n) then n ∷ without_incoming c ns else without_incoming c ns

abbrev pub counters : List WorkflowEdge → Counters
counters es n = pos (in_degree es n)

unfoldable pub all_taken : Option (List String) → List String → Bool
all_taken none ns = false
all_taken (some order) ns = length order == length ns

-- Both loops first index the counters by the ends of every edge, and raise KeyError on a stranger.
unfoldable pub edges_known : List WorkflowEdge → List String → Bool
edges_known [] ns = true
edges_known (e ∷ es) ns = mem e.to_id ns && mem e.from_id ns && edges_known es ns

unfoldable pub taken : List WorkflowEdge → (nodes starts : List String) → Option (List String)
taken es nodes starts = take_ready (suc (length nodes)) es [] starts (counters es)

-- `_assert_acyclic`
unfoldable pub assert_acyclic : WorkflowGraph → Raises (Unit {0})
assert_acyclic g =
    let nodes = keys g.nodes in
    do
      require (edges_known g.edges nodes) "KeyError"
      require (all_taken (taken g.edges nodes (without_incoming (counters g.edges) nodes)) nodes)
          "Workflow graph contains a cycle"

-- `_entry_nodes`: `has_incoming` is the set of the targets.
unfoldable pub roots : List WorkflowEdge → List String → List String
roots es [] = []
roots es (n ∷ ns) = elim (in_degree es n) [ zero ↦ n ∷ roots es ns | suc _ ↦ roots es ns ]

unfoldable pub entry_nodes : WorkflowGraph → List String
entry_nodes g = roots g.edges (keys g.nodes)

abbrev pub is_nil : List String → Bool
is_nil [] = true
is_nil (x ∷ xs) = false

-- `if self.entry_node_id`: an empty id counts as none.
unfoldable pub entry_of : WorkflowGraph → Option String
entry_of g = elim g.entry_node_id [ none ↦ none | some e ↦ if str_eq e "" then none else some e ]

unfoldable pub validate : WorkflowGraph → Raises (Unit {0})
unfolding assert_acyclic entry_nodes entry_of
validate g = do
  require (not (is_nil (keys g.nodes))) "Workflow graph has no nodes"
  assert_acyclic g
  require (not (is_nil (entry_nodes g))) "No entry node (check for cycle or orphan)"
  elim (entry_of g) [
    | none ↦ ok tt
    | some e ↦ require (mem e (keys g.nodes)) (str_append "Unknown entry_node_id: " e)
  ]

-- `branch_filter.get(edge.from_id)`: an edge is left out if its source has a required branch and the
-- edge does not match it.
abbrev pub BranchFilter : Type 0
BranchFilter = Option (TextDict (Option String))

unfoldable pub is_kept : BranchFilter → WorkflowEdge → Bool
is_kept none e = true
is_kept (some filter) e = elim (lookup e.from_id filter) [
  | some (some required) ↦ matches_branch e (some required)
  | _ ↦ true
]

unfoldable pub kept_edges : BranchFilter → List WorkflowEdge → List WorkflowEdge
unfolding is_kept
kept_edges f [] = []
kept_edges f (e ∷ es) = if is_kept f e then e ∷ kept_edges f es else kept_edges f es

unfoldable pub starts_of : WorkflowGraph → List String
unfolding entry_nodes entry_of
starts_of g = elim (entry_of g) [ none ↦ entry_nodes g | some e ↦ e ∷ [] ]

unfoldable pub topological_order : BranchFilter → WorkflowGraph → Raises (List String)
unfolding validate kept_edges starts_of
topological_order branch_filter g =
    let nodes = keys g.nodes in
    let es = kept_edges branch_filter g.edges in
    do
      validate g
      elim (taken es nodes (sort (without_incoming (counters es) (starts_of g)))) [
        | none ↦ raised "Graph has cycle or unreachable nodes"
        | some order ↦
            if length order == length nodes
            then ok order
            else raised "Graph has cycle or unreachable nodes"
      ]

unfoldable pub targets : String → Option String → List WorkflowEdge → List String
targets node_id branch [] = []
targets node_id branch (e ∷ es) =
    if str_eq e.from_id node_id && matches_branch e branch
    then e.to_id ∷ targets node_id branch es
    else targets node_id branch es

unfoldable pub successors : String → Option String → WorkflowGraph → List String
successors node_id branch g = targets node_id branch g.edges
