-- ===== src/Workflow/Graph/Taking.antt =====
-- The invariant of the loop that takes nodes, and what it gives when the queue is empty.
use enterprise_ai_agent.Prelude.{
  ℕ, zero, suc, ◌+◌, ◌≤◌, ◌<◌, ◌≡◌, refl, some, List, [], ◌∷◌, ◌++◌, String, length, arith,
  length-append, All,
}
use enterprise_ai_agent.Prelude.Int.{pos}
use enterprise_ai_agent.Prelude.Text.{
  eq_iff, eq_refl, occ, occ-append, index, index-append, index-snoc, index-lt_length,
  length-le_of_occ,
}
use enterprise_ai_agent.Workflow.Node.{WorkflowEdge}
use enterprise_ai_agent.Workflow.Graph.{in_degree, outgoing, relax, take_ready, Counters, counters}
use enterprise_ai_agent.Workflow.Graph.Kahn.{open_in, open_in-nil, open_in-snoc, relax_lem}

-- Both ends of an edge are nodes.
abbrev pub Ends : List String → WorkflowEdge → Type 0
Ends ns e = (1 ≤ occ e.to_id ns) × (1 ≤ occ e.from_id ns)

-- If the target of an edge is taken, its source was taken before.
abbrev pub InOrder : List String → WorkflowEdge → Type 0
InOrder d e = 1 ≤ occ e.to_id d → (1 ≤ occ e.from_id d) × (index e.from_id d < index e.to_id d)

pub record IsTaking (es : List WorkflowEdge) (ns d q : List String) (c : Counters) : Type 0 where
  pub counter : (n : String) → c n ≡ pos (open_in es d n)
  pub within : (n : String) → occ n d + occ n q ≤ occ n ns
  pub closed : (n : String) → 1 ≤ occ n d + occ n q → open_in es d n ≡ 0
  pub ordered : All (InOrder d) es

occ-outgoing :
    (es : List WorkflowEdge) (ns : List String) (x n : String)
    → All (Ends ns) es
    → 1 ≤ occ n (outgoing es x)
    → 1 ≤ occ n ns
unfolding outgoing occ
occ-outgoing [] ns x n k h = absurd (omega arith)
occ-outgoing (e ∷ es) ns x n k h = ground (arith, k.0, occ-outgoing es ns x n k.1, eq_iff e.to_id n)

sources_taken :
    (es : List WorkflowEdge) (d : List String) (n : String)
    → open_in es d n ≡ 0
    → All (λ e. e.to_id ≡ n → 1 ≤ occ e.from_id d) es
unfolding open_in
sources_taken [] d n h = tt
sources_taken (e ∷ es) d n h =
    ((λ p. ground (arith, eq_iff e.to_id n)), sources_taken es d n (ground arith))

InOrder-snoc :
    (d : List String) (x : String) (e : WorkflowEdge)
    → occ x d ≡ 0
    → (e.to_id ≡ x → 1 ≤ occ e.from_id d)
    → InOrder d e
    → InOrder (d ++ x ∷ []) e
unfolding occ
InOrder-snoc d x e h s k t = ground (
  arith,
  occ-append e.to_id d (x ∷ []),
  occ-append e.from_id d (x ∷ []),
  eq_iff x e.to_id,
  index-snoc x d h,
  index-append e.from_id d (x ∷ []),
  index-append e.to_id d (x ∷ []),
  index-lt_length e.from_id d,
  s,
  k,
)

All-InOrder-snoc :
    (es : List WorkflowEdge) (d : List String) (x : String)
    → occ x d ≡ 0
    → All (λ e. e.to_id ≡ x → 1 ≤ occ e.from_id d) es
    → All (InOrder d) es
    → All (InOrder (d ++ x ∷ [])) es
All-InOrder-snoc [] d x h s k = tt
All-InOrder-snoc (e ∷ es) d x h s k =
    (InOrder-snoc d x e h s.0 k.0, All-InOrder-snoc es d x h s.1 k.1)

All-InOrder-nil : (es : List WorkflowEdge) → All (InOrder []) es
unfolding occ
All-InOrder-nil [] = tt
All-InOrder-nil (e ∷ es) = ((λ h. absurd (omega arith)), All-InOrder-nil es)

open_in-le :
    (es : List WorkflowEdge) (d : List String) (n : String) → open_in es d n ≤ in_degree es n
unfolding open_in in_degree
open_in-le [] d n = omega arith
open_in-le (e ∷ es) d n = ground (arith, open_in-le es d n)

module _ (es : List WorkflowEdge) (ns : List String) (known : All (Ends ns) es)
    (unique : (n : String) → occ n ns ≤ 1) where
  pub take-IsTaking :
      (d q : List String) (x : String) (c : Counters)
      → IsTaking es ns d (x ∷ q) c
      → IsTaking es ns (d ++ x ∷ []) (relax (outgoing es x) c q).1 (relax (outgoing es x) c q).0
  unfolding occ
  take-IsTaking d q x c h =
      let absent : occ x d ≡ 0 = ground (arith, h.within x, unique x, eq_refl x) in
      let split = λ (n : String). open_in-snoc es d x n absent in
      let after =
        relax_lem (outgoing es x) c q (open_in es d) h.counter (λ n. omega (arith, split n)) in
      record {
        counter = λ n. ground (arith, (after n).0, split n);
        within = λ n. ground (
          arith,
          (after n).1,
          split n,
          occ-append n d (x ∷ []),
          h.within n,
          h.closed n,
          occ-outgoing es ns x n known,
        );
        closed = λ n. ground (arith, (after n).1, split n, occ-append n d (x ∷ []), h.closed n);
        ordered =
            All-InOrder-snoc es d x absent
              (sources_taken es d x (h.closed x (ground (arith, eq_refl x)))) h.ordered;
      }

  -- If fewer nodes are taken than fuel is left, the loop ends with an empty queue, and keeps what each
  -- round keeps.
  module _ (P : (d q : List String) → Type 0)
      (keeps : (d q : List String) (x : String) (c : Counters)
        → IsTaking es ns d (x ∷ q) c
        → P d (x ∷ q)
        → P (d ++ x ∷ []) (relax (outgoing es x) c q).1) where
    pub take_ready-ends :
        (fuel : ℕ) (d q : List String) (c : Counters)
        → length ns < fuel + length d
        → IsTaking es ns d q c
        → P d q
        → (order : List String) × (take_ready fuel es d q c ≡ some order)
          × ((c' : Counters) × IsTaking es ns order [] c')
          × P order []
    unfolding take_ready
    take_ready-ends zero d q c k h p =
        absurd (omega (arith, length-le_of_occ d ns (λ n. omega (arith, h.within n))))
    take_ready-ends (suc fuel) d [] c k h p = (d, refl, (c, h), p)
    take_ready-ends (suc fuel) d (x ∷ q) c k h p =
        take_ready-ends fuel (d ++ x ∷ []) _ _ (omega (arith, length-append d (x ∷ [])))
          (take-IsTaking d q x c h) (keeps d q x c h p)

  -- Every node without open edges is taken or in the queue.
  abbrev pub IsComplete : (d q : List String) → Type 0
  IsComplete d q = (n : String) → 1 ≤ occ n ns → open_in es d n ≡ 0 → 1 ≤ occ n d + occ n q

  pub take-IsComplete :
      (d q : List String) (x : String) (c : Counters)
      → IsTaking es ns d (x ∷ q) c
      → IsComplete d (x ∷ q)
      → IsComplete (d ++ x ∷ []) (relax (outgoing es x) c q).1
  unfolding occ
  take-IsComplete d q x c h p n m e =
      let absent : occ x d ≡ 0 = ground (arith, h.within x, unique x, eq_refl x) in
      let split = λ (k : String). open_in-snoc es d x k absent in
      let after =
        relax_lem (outgoing es x) c q (open_in es d) h.counter (λ k. omega (arith, split k)) in
      ground (arith, (after n).1, split n, occ-append n d (x ∷ []), p n m)

  -- A node that is taken or in the queue was there at the start, or has an edge to it.
  abbrev pub IsReached : (start d q : List String) → Type 0
  IsReached start d q = (n : String) → in_degree es n ≡ 0 → occ n d + occ n q ≤ occ n start

  pub take-IsReached :
      (start d q : List String) (x : String) (c : Counters)
      → IsTaking es ns d (x ∷ q) c
      → IsReached start d (x ∷ q)
      → IsReached start (d ++ x ∷ []) (relax (outgoing es x) c q).1
  unfolding occ
  take-IsReached start d q x c h p n e =
      let absent : occ x d ≡ 0 = ground (arith, h.within x, unique x, eq_refl x) in
      let split = λ (k : String). open_in-snoc es d x k absent in
      let after =
        relax_lem (outgoing es x) c q (open_in es d) h.counter (λ k. omega (arith, split k)) in
      ground (arith, (after n).1, split n, occ-append n d (x ∷ []), p n, open_in-le es d n)

  -- At the start nothing is taken, and the counters count all edges.
  pub start-IsTaking :
      (q : List String)
      → ((n : String) → occ n q ≤ occ n ns)
      → ((n : String) → 1 ≤ occ n q → in_degree es n ≡ 0)
      → IsTaking es ns [] q (counters es)
  unfolding occ
  start-IsTaking q w z = record {
    counter = λ n. ground (arith, open_in-nil es n);
    within = λ n. omega (arith, w n);
    closed = λ n k. ground (arith, open_in-nil es n, z n);
    ordered = All-InOrder-nil es;
  }
