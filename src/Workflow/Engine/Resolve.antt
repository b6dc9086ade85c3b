-- ===== src/Workflow/Engine/Resolve.antt =====
-- When a node may be resolved, and that the steps of a round resolve only such nodes.
use enterprise_ai_agent.Prelude.{
  ℕ, suc, ◌+◌, ◌≤◌, ◌≡◌, refl, true, false, none, List, [], ◌∷◌, String, length, if◌then◌else◌,
  arith, Bool-cases, inl, inr, All,
}
use enterprise_ai_agent.Prelude.Text.{str_eq, eq_iff, occ}
use enterprise_ai_agent.Prelude.TextDict.{keys}
use enterprise_ai_agent.Workflow.Node.{WorkflowEdge}
use enterprise_ai_agent.Workflow.Engine.{
  ActiveRun, add, predecessors, is_required, required_predecessors, all_resolved, is_ready,
  is_empty,
}

-- How often a node is resolved.
abbrev pub res : ActiveRun → String → ℕ
res a n = occ n a.completed + occ n a.skipped

-- If the target of an unconditional edge is resolved, so is its source.
abbrev pub Settled : (String → ℕ) → WorkflowEdge → Type 0
Settled r e = e.condition ≡ none → 1 ≤ r e.to_id → 1 ≤ r e.from_id

-- Only nodes are resolved, each once, and none before the sources of its unconditional edges.
pub record IsRun (a : ActiveRun) : Type 0 where
  pub within : (n : String) → res a n ≤ occ n (keys a.graph.nodes)
  pub settled : All (Settled (res a)) a.graph.edges

-- A node whose time has come.
pub record CanResolve (a : ActiveRun) (n : String) : Type 0 where
  pub fresh : res a n ≡ 0
  pub node : 1 ≤ occ n (keys a.graph.nodes)
  pub sources : All (λ e. e.condition ≡ none → e.to_id ≡ n → 1 ≤ res a e.from_id) a.graph.edges

-- `b` has resolved the node `n` more than `a`.
pub record Resolves (n : String) (a b : ActiveRun) : Type 0 where
  pub graph : b.graph ≡ a.graph
  pub counts : (m : String) → res b m ≡ (if str_eq n m then suc (res a m) else res a m)
  pub sizes : length b.completed + length b.skipped ≡ suc (length a.completed + length a.skipped)

All-Settled-more :
    (es : List WorkflowEdge) (r r' : String → ℕ) (n : String)
    → ((m : String) → r' m ≡ (if str_eq n m then suc (r m) else r m))
    → All (λ e. e.condition ≡ none → e.to_id ≡ n → 1 ≤ r e.from_id) es
    → All (Settled r) es
    → All (Settled r') es
All-Settled-more [] r r' n c s k = tt
All-Settled-more (e ∷ es) r r' n c s k = (
  (λ h t. ground (arith, c e.to_id, c e.from_id, s.0 h, k.0 h, eq_iff n e.to_id)),
  All-Settled-more es r r' n c s.1 k.1,
)

pub Resolves-IsRun :
    {a b : ActiveRun} {n : String}
    → Resolves n a b
    → CanResolve a n
    → IsRun a
    → ((m : String) → occ m (keys a.graph.nodes) ≤ 1)
    → IsRun b
Resolves-IsRun {a} {b} {n} r c h u = record {
  within = λ m. rw r.graph (ground (arith, r.counts m, h.within m, c.fresh, c.node, eq_iff n m));
  settled =
      rw r.graph (All-Settled-more a.graph.edges (res a) (res b) n r.counts c.sources h.settled);
}

All-sources-more :
    (es : List WorkflowEdge) (r r' : String → ℕ) (m : String)
    → ((k : String) → r k ≤ r' k)
    → All (λ e. e.condition ≡ none → e.to_id ≡ m → 1 ≤ r e.from_id) es
    → All (λ e. e.condition ≡ none → e.to_id ≡ m → 1 ≤ r' e.from_id) es
All-sources-more [] r r' m l s = tt
All-sources-more (e ∷ es) r r' m l s =
    ((λ h t. omega (arith, l e.from_id, s.0 h t)), All-sources-more es r r' m l s.1)

-- Another node whose time has come may still be resolved.
pub Resolves-CanResolve :
    {a b : ActiveRun} {n : String} (m : String)
    → Resolves n a b
    → str_eq n m ≡ false
    → CanResolve a m
    → CanResolve b m
Resolves-CanResolve {a} {b} {n} m r d c = record {
  fresh = ground (arith, r.counts m, c.fresh, d);
  node = rw r.graph c.node;
  sources = rw r.graph (
      All-sources-more a.graph.edges (res a) (res b) m (λ k. ground (arith, r.counts k)) c.sources);
}

-- To put a fresh node into one of the sets.
pub skip-Resolves :
    (n : String) (a : ActiveRun)
    → res a n ≡ 0
    → Resolves n a (record a { skipped = add n a.skipped })
unfolding add occ
skip-Resolves n a f = record {
  graph = refl;
  counts = λ m. ground (arith, f);
  sizes = ground (arith, f);
}

pub sources_of_predecessors :
    (es : List WorkflowEdge) (a : ActiveRun) (n : String)
    → all_resolved a (predecessors es n) ≡ true
    → All (λ e. e.condition ≡ none → e.to_id ≡ n → 1 ≤ res a e.from_id) es
unfolding predecessors all_resolved
sources_of_predecessors [] a n h = tt
sources_of_predecessors (e ∷ es) a n h =
    ((λ k t. ground (arith, eq_iff e.to_id n)), sources_of_predecessors es a n (ground arith))

sources_of_required :
    (es : List WorkflowEdge) (a : ActiveRun) (n : String)
    → all_resolved a (required_predecessors a.branch_by_node es n) ≡ true
    → All (λ e. e.condition ≡ none → e.to_id ≡ n → 1 ≤ res a e.from_id) es
unfolding required_predecessors is_required all_resolved
sources_of_required [] a n h = tt
sources_of_required (e ∷ es) a n h =
    ((λ k t. ground (arith, eq_iff e.to_id n)), sources_of_required es a n (ground arith))

sources_of_none :
    (es : List WorkflowEdge) (a : ActiveRun) (n : String)
    → is_empty (predecessors es n) ≡ true
    → All (λ e. e.condition ≡ none → e.to_id ≡ n → 1 ≤ res a e.from_id) es
unfolding predecessors
sources_of_none [] a n h = tt
sources_of_none (e ∷ es) a n h =
    ((λ k t. ground (arith, eq_iff e.to_id n)), sources_of_none es a n (ground arith))

pub is_ready-CanResolve :
    (a : ActiveRun) (n : String)
    → a.pending_node_id ≡ none
    → 1 ≤ occ n (keys a.graph.nodes)
    → is_ready a n ≡ true
    → CanResolve a n
unfolding is_ready
is_ready-CanResolve a n p k h = record {
  fresh = ground (arith, p, h);
  node = k;
  sources = elim (Bool-cases (is_empty (required_predecessors a.branch_by_node a.graph.edges n))) [
    | inl e ↦ sources_of_none a.graph.edges a n (ground (arith, p, h, e))
    | inr e ↦ sources_of_required a.graph.edges a n (ground (arith, p, h, e))
  ];
}
