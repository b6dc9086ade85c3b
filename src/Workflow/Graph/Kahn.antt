-- ===== src/Workflow/Graph/Kahn.antt =====
-- The loop that takes the nodes without open predecessors keeps what makes its result an order.
use enterprise_ai_agent.Prelude.{
  ℕ, zero, suc, ◌+◌, ◌-◌, ◌≤◌, ◌≡◌, refl, ◌&&◌, List, [], ◌∷◌, ◌++◌, String, if◌then◌else◌, arith,
  ◌==◌, ltb,
}
use enterprise_ai_agent.Prelude.Int.{pos}
use enterprise_ai_agent.Prelude.Text.{str_eq, eq_iff, eq_refl, occ, occ-append}
use enterprise_ai_agent.Workflow.Node.{WorkflowEdge}
use enterprise_ai_agent.Workflow.Graph.{
  in_degree, outgoing, relax, decrement, is_zero, update, Counters,
}

-- How many edges lead to a node from nodes that are not taken.
unfoldable pub open_in : List WorkflowEdge → List String → String → ℕ
open_in [] d n = 0
open_in (e ∷ es) d n =
    if str_eq e.to_id n
    then elim (occ e.from_id d) [ zero ↦ suc (open_in es d n) | suc _ ↦ open_in es d n ]
    else open_in es d n

pub open_in-nil : (es : List WorkflowEdge) (n : String) → open_in es [] n ≡ in_degree es n
unfolding open_in in_degree occ
open_in-nil [] n = refl
open_in-nil (e ∷ es) n = ground (arith, open_in-nil es n)

-- To take one more node closes its outgoing edges.
pub open_in-snoc :
    (es : List WorkflowEdge) (d : List String) (x n : String)
    → occ x d ≡ 0
    → open_in es d n ≡ open_in es (d ++ x ∷ []) n + occ n (outgoing es x)
unfolding open_in outgoing occ
open_in-snoc [] d x n h = refl
open_in-snoc (e ∷ es) d x n h = ground (
  arith,
  open_in-snoc es d x n h,
  occ-append e.from_id d (x ∷ []),
  eq_iff e.from_id x,
  eq_iff x e.from_id,
  eq_iff e.to_id n,
)

-- 1 if the last of `a` open edges is among `k` that are closed now.
abbrev pub closes : ℕ → ℕ → ℕ
closes k a = if ltb 0 k && (a == k) then 1 else 0

relaxed_counter :
    (x : String) (c : Counters) (a : String → ℕ)
    → c x ≡ pos (a x)
    → 1 ≤ a x
    → (decrement (c x) ≡ pos (a x - 1)) × (is_zero (pos (a x - 1)) ≡ (a x == 1))
relaxed_counter x c a e k = go (a x) e k
  where
    go :
        (m : ℕ)
        → c x ≡ pos m
        → 1 ≤ m
        → (decrement (c x) ≡ pos (m - 1)) × (is_zero (pos (m - 1)) ≡ (m == 1))
    go zero e k = absurd (omega arith)
    go (suc zero) e k = (ground arith, refl)
    go (suc (suc m)) e k = (ground arith, ground arith)

-- The `for` loop subtracts from each counter how often its node is a target, and appends the nodes
-- whose counter comes to 0 by that, each once.
pub relax_lem :
    (outs : List String) (c : Counters) (q : List String) (a : String → ℕ)
    → ((n : String) → c n ≡ pos (a n))
    → ((n : String) → occ n outs ≤ a n)
    → (n : String)
    → ((relax outs c q).0 n ≡ pos (a n - occ n outs))
      × (occ n (relax outs c q).1 ≡ occ n q + closes (occ n outs) (a n))
unfolding relax occ
relax_lem [] c q a e k n = (ground (arith, e n), ground arith)
relax_lem (x ∷ outs) c q a e k n =
    let a' : String → ℕ = λ m. if str_eq x m then a m - 1 else a m in
    let (down, zeroed) = relaxed_counter x c a (e x) (ground (arith, k x, eq_refl x)) in
    let c' = update x (decrement (c x)) c in
    let (counter, queued) =
      relax_lem outs c' (if is_zero (c' x) then q ++ x ∷ [] else q) a'
        (λ m. ground (arith, e m, down, eq_iff x m)) (λ m. ground (arith, k m)) n in
    (
      ground (arith, counter),
      ground (arith, queued, occ-append n q (x ∷ []), eq_iff x n, down, zeroed, k n, eq_refl x),
    )
