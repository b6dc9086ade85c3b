-- ===== src/Workflow/Graph/Order.antt =====
-- What `validate` and `topological_order` of backend/app/workflow/graph.py decide and return.
use enterprise_ai_agent.Prelude.{
  ℕ, zero, suc, ◌≤◌, ◌<◌, ◌≡◌, ◌≢◌, ◌↔◌, refl, true, some, List, [], ◌∷◌, String, length,
  if◌then◌else◌, arith, Option-cases, inl, inr, ◌==◌, All,
}
use enterprise_ai_agent.Prelude.Text.{eq_iff, occ, index, occ-le_of_length, length-le_of_occ}
use enterprise_ai_agent.Prelude.TextDict.{keys}
use enterprise_ai_agent.Workflow.Node.{WorkflowEdge}
use enterprise_ai_agent.Workflow.Graph.{
  WorkflowGraph, ok, raised, in_degree, edges_known, without_incoming, counters, taken, all_taken,
  assert_acyclic, roots, entry_nodes, entry_of, validate, take_ready,
}
use enterprise_ai_agent.Workflow.Graph.Kahn.{open_in, open_in-nil}
use enterprise_ai_agent.Workflow.Graph.Taking.{
  Ends, InOrder, take_ready-ends, take-IsComplete, start-IsTaking, IsComplete,
}

-- A graph whose edges join its nodes, and whose dictionary has each id once.
pub record IsGraph (g : WorkflowGraph) : Type 0 where
  pub ends : All (Ends (keys g.nodes)) g.edges
  pub unique : (n : String) → occ n (keys g.nodes) ≤ 1

-- Numbers that grow along every edge: there is no cycle.
pub record Ranking (es : List WorkflowEdge) : Type 0 where
  pub rank : String → ℕ
  pub grows : All (λ e. rank e.from_id < rank e.to_id) es

edges_known_lem :
    (es : List WorkflowEdge) (ns : List String) → All (Ends ns) es → edges_known es ns ≡ true
unfolding edges_known
edges_known_lem [] ns h = refl
edges_known_lem (e ∷ es) ns h = ground (arith, edges_known_lem es ns h.1, h.0)

occ-without_incoming :
    (es : List WorkflowEdge) (ns : List String) (n : String)
    → occ n (without_incoming (counters es) ns)
      ≡ elim (in_degree es n) [ zero ↦ occ n ns | suc _ ↦ 0 ]
unfolding without_incoming occ
occ-without_incoming es [] n = ground arith
occ-without_incoming es (x ∷ ns) n = ground (arith, occ-without_incoming es ns n, eq_iff x n)

-- The loop of `_assert_acyclic` ends, with nodes in order and every node that is not behind a cycle.
record Taken (es : List WorkflowEdge) (ns : List String) : Type 0 where
  order : List String
  ends_with : taken es ns (without_incoming (counters es) ns) ≡ some order
  within : (n : String) → occ n order ≤ occ n ns
  ordered : All (InOrder order) es
  complete : (n : String) → 1 ≤ occ n ns → open_in es order n ≡ 0 → 1 ≤ occ n order

all-Taken :
    (es : List WorkflowEdge) (ns : List String)
    → All (Ends ns) es
    → ((n : String) → occ n ns ≤ 1)
    → Taken es ns
unfolding taken occ
all-Taken es ns k u =
    let start = without_incoming (counters es) ns in
    let free = occ-without_incoming es ns in
    let (order, e, (c, h), p) =
      take_ready-ends es ns k u (IsComplete es ns k u) (take-IsComplete es ns k u) (suc (length ns))
        [] start (counters es) (omega arith)
        (start-IsTaking es ns k u start (λ n. ground (arith, free n)) (λ n. ground (arith, free n)))
        (λ n m z. ground (arith, free n, open_in-nil es n)) in
    record {
      order = order;
      ends_with = e;
      within = λ n. omega (arith, h.within n);
      ordered = h.ordered;
      complete = λ n m z. omega (arith, p n m z);
    }

-- A node whose sources are all taken has no open edge.
pub open_in-eq-zero :
    (es : List WorkflowEdge) (d : List String) (n : String)
    → All (λ e. e.to_id ≡ n → 1 ≤ occ e.from_id d) es
    → open_in es d n ≡ 0
unfolding open_in
open_in-eq-zero [] d n h = refl
open_in-eq-zero (e ∷ es) d n h = ground (arith, open_in-eq-zero es d n h.1, eq_iff e.to_id n, h.0)

sources_of_rank :
    (rank : String → ℕ) (es : List WorkflowEdge) (ns d : List String) (n : String) (b : ℕ)
    → All (Ends ns) es
    → All (λ e. rank e.from_id < rank e.to_id) es
    → rank n ≤ b
    → ((m : String) → rank m < b → 1 ≤ occ m ns → 1 ≤ occ m d)
    → All (λ e. e.to_id ≡ n → 1 ≤ occ e.from_id d) es
sources_of_rank rank [] ns d n b k g r ih = tt
sources_of_rank rank (e ∷ es) ns d n b k g r ih =
    ((λ p. ground (arith, ih e.from_id, k.0, g.0)), sources_of_rank rank es ns d n b k.1 g.1 r ih)

module _ (es : List WorkflowEdge) (ns : List String) (known : All (Ends ns) es)
    (t : Taken es ns) where
  Ranking-all_taken :
      (k : Ranking es) (b : ℕ) (n : String) → k.rank n < b → 1 ≤ occ n ns → 1 ≤ occ n t.order
  Ranking-all_taken k zero n r m = absurd (omega arith)
  Ranking-all_taken k (suc b) n r m = t.complete n m (
      open_in-eq-zero es t.order n (
        sources_of_rank k.rank es ns t.order n b known k.grows (omega arith)
          (Ranking-all_taken k b)))

  -- An order of all nodes ranks them.
  InOrder-grows :
      (fs : List WorkflowEdge)
      → All (Ends ns) fs
      → All (InOrder t.order) fs
      → ((n : String) → occ n ns ≤ occ n t.order)
      → All (λ e. index e.from_id t.order < index e.to_id t.order) fs
  InOrder-grows [] k o h = tt
  InOrder-grows (e ∷ fs) k o h =
      ((o.0 (omega (arith, k.0, h e.to_id))).1, InOrder-grows fs k.1 o.1 h)

assert_acyclic-eq :
    (g : WorkflowGraph) (h : IsGraph g) (t : Taken g.edges (keys g.nodes))
    → assert_acyclic g ≡ (
        if length t.order == length (keys g.nodes)
        then ok tt
        else raised "Workflow graph contains a cycle")
unfolding assert_acyclic all_taken
assert_acyclic-eq g h t = ground (arith, edges_known_lem g.edges (keys g.nodes) h.ends, t.ends_with)

-- For a graph whose edges join its nodes, `_assert_acyclic` passes exactly if there is no cycle: if the
-- nodes can be numbered so that the number grows along every edge.
pub assert_acyclic_iff :
    (g : WorkflowGraph) → IsGraph g → (assert_acyclic g ≡ ok tt) ↔ Ranking g.edges
assert_acyclic_iff g h =
    let ns = keys g.nodes in
    let t = all-Taken g.edges ns h.ends h.unique in
    let eq = assert_acyclic-eq g h t in
    (
      (λ e. record {
        rank = λ n. index n t.order;
        grows =
            InOrder-grows g.edges ns h.ends t g.edges h.ends t.ordered
              (occ-le_of_length t.order ns t.within (ground (arith, eq, e)));
      }),
      (λ k.
          let all : (n : String) → occ n ns ≤ occ n t.order = λ n. ground (
            arith,
            h.unique n,
            Ranking-all_taken g.edges ns h.ends t k (suc (k.rank n)) n (omega arith),
          ) in
          ground
            (arith, eq, length-le_of_occ ns t.order all, length-le_of_occ t.order ns t.within)),
    )

roots-eq :
    (es : List WorkflowEdge) (ns : List String) → roots es ns ≡ without_incoming (counters es) ns
unfolding roots without_incoming
roots-eq es [] = refl
roots-eq es (n ∷ ns) = ground (arith, roots-eq es ns)

-- A graph that has nodes and no cycle has an entry: the third check of `validate` never fails.
acyclic-has_root :
    (g : WorkflowGraph)
    → IsGraph g
    → keys g.nodes ≢ []
    → assert_acyclic g ≡ ok tt
    → entry_nodes g ≢ []
unfolding entry_nodes taken take_ready
acyclic-has_root g h some_node e none_free =
    let t = all-Taken g.edges (keys g.nodes) h.ends h.unique in
    ground (
      arith,
      assert_acyclic-eq g h t,
      roots-eq g.edges (keys g.nodes),
      t.ends_with,
      e,
      none_free,
      some_node,
    )

-- `validate` passes exactly on the graphs with a node, without a cycle, and whose entry id, if one is
-- set and not empty, is a node. (For graphs whose edges join their nodes.)
pub validate_iff :
    (g : WorkflowGraph)
    → IsGraph g
    → (validate g ≡ ok tt) ↔ (
        (keys g.nodes ≢ [])
        × Ranking g.edges
        × ((e : String) → entry_of g ≡ some e → 1 ≤ occ e (keys g.nodes)))
unfolding validate
validate_iff g h =
    let acyclic = assert_acyclic_iff g h in
    (
      (λ e.
          let passed : assert_acyclic g ≡ ok tt = ground (arith, e) in
          (ground (arith, e), acyclic.0 passed, (λ n k. ground (arith, e, k)))),
      (λ (some_node, k, known).
          let passed = acyclic.1 k in
          let rooted = acyclic-has_root g h some_node passed in
          elim (Option-cases (entry_of g)) [
            | inl a ↦ ground (arith, passed, rooted, some_node, a)
            | inr (e, a) ↦ ground (arith, passed, rooted, some_node, a, known e a)
          ]),
    )
