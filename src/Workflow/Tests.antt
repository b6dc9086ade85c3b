-- ===== src/Workflow/Tests.antt =====
-- A workflow graph with a branch, and the theorems on graphs applied to it.
pub mod Running
use enterprise_ai_agent.Prelude.{
  ℕ, suc, ◌≤◌, ◌<◌, ◌≡◌, ◌≢◌, ◌↔◌, if◌then◌else◌, refl, true, false, Option, none, some, List, [],
  ◌∷◌, ◌++◌, String, length, arith, All,
}
use enterprise_ai_agent.Prelude.Int.{pos}
use enterprise_ai_agent.Prelude.Text.{occ, index, str_eq, eq_iff, sort}
use enterprise_ai_agent.Prelude.TextDict.{TextDict, keys, lookup, insert}
use enterprise_ai_agent.Workflow.Node.{
  Value, bool, str, blank, WorkflowNode, agent_node, conditional_node, matches_branch,
}
use enterprise_ai_agent.Workflow.Value.{Python}
use enterprise_ai_agent.Workflow.Context.{RunStatus, NodeStatus, is_failed}
use enterprise_ai_agent.Workflow.Human.{HumanNode, action_of, apply_payload, evaluate}
use enterprise_ai_agent.Workflow.Human.Decision.{decided, evaluate-apply_payload}
use enterprise_ai_agent.Workflow.Graph.{
  WorkflowGraph, ok, raised, add_node, add_edge, assert_acyclic, validate, entry_of, in_degree,
  kept_edges, BranchFilter, topological_order, edges_known, all_taken, taken, take_ready,
  without_incoming, relax, outgoing, roots,
}
use enterprise_ai_agent.Workflow.Graph.Order.{IsGraph, Ranking, assert_acyclic_iff, validate_iff}
use enterprise_ai_agent.Workflow.Graph.Topological.{
  topological_order-sorted, topological_order-drops_branch,
}
use enterprise_ai_agent.Workflow.Graph.Build.{add_node-IsGraph, add_edge-IsGraph}
use enterprise_ai_agent.Workflow.Execute.{
  AgentTask, Outcome, answers, Services, retries_of, execute_with_recovery,
}
use enterprise_ai_agent.Workflow.Execute.Retries.{execute_with_recovery-Recovered}
use enterprise_ai_agent.Workflow.Engine.{ActiveRun, execute_loop}
use enterprise_ai_agent.Workflow.Engine.Resolve.{IsRun}
use enterprise_ai_agent.Workflow.Engine.Visits.{IsRun-same}
use enterprise_ai_agent.Workflow.Engine.Ended.{Ended}
use enterprise_ai_agent.Workflow.Engine.Progress.{execute_loop-ends}
use enterprise_ai_agent.Workflow.Executor.{Runs, start_run, approve, reopen, run, resume}
use enterprise_ai_agent.Workflow.Executor.Calls.{
  start_run-IsRun, Returned, run-Returned, resume-Returned,
}
use enterprise_ai_agent.Workflow.Registry.{
  Graphs, register, get, unregister, IsRegistry, Registered, register-Registered, unregister-get,
}

-- "check" decides between "yes" and "no".
abbrev pub check : WorkflowNode
check = conditional_node "check" "flag" (bool true) "Check"

abbrev pub yes_node : WorkflowNode
yes_node = agent_node "yes" "writer" "Yes" "{user_message}" (pos 1) "fail" blank

abbrev no_node : WorkflowNode
no_node = agent_node "no" "writer" "No" "{user_message}" (pos 0) "skip" blank

abbrev pub branching : WorkflowGraph
branching = record {
  id = "wf";
  name = "Branching";
  description = "";
  nodes = ("check", check) ∷ ("yes", yes_node) ∷ ("no", no_node) ∷ [];
  edges =
      (record { from_id = "check"; to_id = "yes"; condition = some "true" })
      ∷ (record { from_id = "check"; to_id = "no"; condition = some "false" })
      ∷ [];
  entry_node_id = none;
}

pub branching-IsGraph : IsGraph branching
unfolding occ keys
branching-IsGraph = record {
  ends = ((omega arith, omega arith), ((omega arith, omega arith), tt));
  unique = λ n.
      let check_yes : str_eq "check" "yes" ≡ false = refl in
      let check_no : str_eq "check" "no" ≡ false = refl in
      let yes_no : str_eq "yes" "no" ≡ false = refl in
      ground (
        arith,
        eq_iff "check" n,
        eq_iff "yes" n,
        eq_iff "no" n,
        eq_iff "check" "yes",
        eq_iff "check" "no",
        eq_iff "yes" "no",
        check_yes,
        check_no,
        yes_no,
      );
}

pub branching-validate : validate branching ≡ ok tt
unfolding validate keys edges_known occ all_taken taken take_ready without_incoming in_degree relax
    outgoing roots
branching-validate = refl

assert_acyclic_iff_example : (assert_acyclic branching ≡ ok tt) ↔ Ranking branching.edges
assert_acyclic_iff_example = assert_acyclic_iff branching branching-IsGraph

validate_iff_example : (validate branching ≡ ok tt) ↔ (
    (keys branching.nodes ≢ [])
    × Ranking branching.edges
    × ((e : String) → entry_of branching ≡ some e → 1 ≤ occ e (keys branching.nodes)))
validate_iff_example = validate_iff branching branching-IsGraph

abbrev sorted_ids : List String
sorted_ids = "check" ∷ "yes" ∷ "no" ∷ []

branching-order : topological_order none branching ≡ ok sorted_ids
unfolding topological_order keys edges_known occ all_taken taken take_ready without_incoming
    in_degree relax outgoing roots sort
branching-order = refl

topological_order-sorted_example :
    ((n : String) → occ n sorted_ids ≡ occ n (keys branching.nodes))
    × All
        (λ e. index e.from_id sorted_ids < index e.to_id sorted_ids)
        (kept_edges none branching.edges)
topological_order-sorted_example =
    topological_order-sorted none branching sorted_ids branching-IsGraph branching-order

-- The filter of a run that took the branch "true" of "check".
abbrev took_true : BranchFilter
took_true = some (("check", some "true") ∷ [])

no-IsTarget : (1 ≤ occ "no" (keys branching.nodes)) × (1 ≤ in_degree branching.edges "no")
unfolding occ keys in_degree
no-IsTarget = (omega arith, omega arith)

no-dropped : in_degree (kept_edges took_true branching.edges) "no" ≡ 0
unfolding in_degree kept_edges lookup matches_branch
no-dropped = refl

branching-entry : entry_of branching ≡ none
unfolding entry_of
branching-entry = refl

topological_order-drops_branch_example :
    topological_order took_true branching ≡ raised "Graph has cycle or unreachable nodes"
topological_order-drops_branch_example =
    topological_order-drops_branch took_true branching "no" branching-IsGraph branching-validate
      branching-entry no-IsTarget.0 no-IsTarget.1 no-dropped

abbrev extra : WorkflowNode
extra = agent_node "extra" "writer" "" "{user_message}" (pos 0) "fail" blank

abbrev extended : WorkflowGraph
extended = record branching { nodes = insert extra.id extra branching.nodes }

branching-add_node : add_node extra branching ≡ ok extended
unfolding add_node agent_node lookup
branching-add_node = refl

abbrev joined : WorkflowGraph
joined = record branching {
  edges = branching.edges ++ (record { from_id = "yes"; to_id = "no"; condition = none }) ∷ [];
}

branching-add_edge : add_edge "yes" "no" none branching ≡ ok joined
unfolding add_edge occ keys
branching-add_edge = refl

add_edge-IsGraph_example :
    IsGraph joined × (1 ≤ occ "yes" (keys branching.nodes)) × (1 ≤ occ "no" (keys branching.nodes))
add_edge-IsGraph_example =
    add_edge-IsGraph "yes" "no" none branching joined branching-IsGraph branching-add_edge
