-- ===== src/Workflow/Engine.antt =====
-- The scheduling loop of `WorkflowExecutor` in backend/app/workflow/executor.py.
--
-- Each round of `_execute_loop` skips what cannot run any more, collects the nodes that are ready and
-- runs them in order. The fuel of the loop is the number of nodes and one. What the source guards and
-- cannot happen is left out: a round over ready nodes always makes progress, and the loop is never
-- left by its condition while the status is RUNNING. An exception of a node leaves round and loop with
-- what the nodes before it have changed.
pub mod Skips
pub mod Visits
pub mod Rounds
pub mod Ended
pub mod Progress
pub mod Resolve
use enterprise_ai_agent.Prelude.{
  ℕ, zero, suc, ◌+◌, Bool, true, false, ◌&&◌, ◌||◌, not, Option, none, some, List, [], ◌∷◌, ◌++◌,
  String, ◌==◌, length, if◌then◌else◌,
}
use enterprise_ai_agent.Prelude.Text.{str_eq, mem, occ, sort}
use enterprise_ai_agent.Prelude.TextDict.{TextDict, lookup, insert, keys}
use enterprise_ai_agent.Workflow.Node.{
  Value, str, NodeType, conditional, WorkflowNode, WorkflowEdge, matches_branch,
}
use enterprise_ai_agent.Workflow.Value.{Python}
use enterprise_ai_agent.Workflow.Context.{
  RunStatus, NodeStatus, OnFailure, NodeResult, Context, set_node_output, RunResult,
}
use enterprise_ai_agent.Workflow.Graph.{WorkflowGraph, Raises, ok, raised}
use enterprise_ai_agent.Workflow.Execute.{Services, execute_with_recovery}

-- `_ActiveRun`; `completed` and `skipped` are sets, `branch_by_node` may hold None.
pub record ActiveRun : Type 0 where
  pub graph : WorkflowGraph
  pub context : Context
  pub completed : List String
  pub skipped : List String
  pub branch_by_node : TextDict (Option String)
  pub status : RunStatus
  pub pending_node_id : Option String
  pub pending_message : String
  pub error : String

-- `set.add`
unfoldable pub add : String → List String → List String
add n xs = if mem n xs then xs else n ∷ xs

-- In `completed` or in `skipped`.
abbrev pub resolved : ActiveRun → String → Bool
resolved a n = mem n a.completed || mem n a.skipped

unfoldable pub predecessors : List WorkflowEdge → String → List String
predecessors [] n = []
predecessors (e ∷ es) n =
    if str_eq e.to_id n then e.from_id ∷ predecessors es n else predecessors es n

-- `branch_by_node.get(n)`
unfoldable pub branch_of : TextDict (Option String) → String → Option String
branch_of branches n = elim (lookup n branches) [ none ↦ none | some b ↦ b ]

-- Whether an edge makes its source required: always without a condition, or if the condition is the
-- branch that its source took.
unfoldable pub is_required : TextDict (Option String) → WorkflowEdge → Bool
unfolding branch_of matches_branch
is_required branches e = elim e.condition [
  | none ↦ true
  | some c ↦ matches_branch e (branch_of branches e.from_id)
]

-- `_required_predecessors`
unfoldable pub required_predecessors :
    TextDict (Option String) → List WorkflowEdge → String → List String
required_predecessors branches [] n = []
required_predecessors branches (e ∷ es) n =
    if str_eq e.to_id n && is_required branches e
    then e.from_id ∷ required_predecessors branches es n
    else required_predecessors branches es n

unfoldable pub all_resolved : ActiveRun → List String → Bool
all_resolved a [] = true
all_resolved a (n ∷ ns) = resolved a n && all_resolved a ns

abbrev pub is_empty : List String → Bool
is_empty [] = true
is_empty (x ∷ xs) = false

-- The body of the loop in `_auto_skip_unreachable`.
unfoldable pub skip_unreachable : String → ActiveRun → ActiveRun
unfolding predecessors required_predecessors all_resolved add
skip_unreachable n a =
    if resolved a n
    then a
    else if is_empty (predecessors a.graph.edges n)
    then a
    else if not (is_empty (required_predecessors a.branch_by_node a.graph.edges n))
    then a
    else if all_resolved a (predecessors a.graph.edges n)
    then record a { skipped = add n a.skipped }
    else a

skip_each : List String → ActiveRun → ActiveRun
skip_each [] a = a
skip_each (n ∷ ns) a = skip_each ns (skip_unreachable n a)

-- `_auto_skip_unreachable`
unfoldable pub auto_skip : ActiveRun → ActiveRun
unfolding skip_each skip_unreachable
auto_skip a = skip_each (keys a.graph.nodes) a

abbrev pub is_pending_node : ActiveRun → String → Bool
is_pending_node a n = elim a.pending_node_id [ none ↦ false | some p ↦ str_eq n p ]

-- The test of the loop in `_ready_nodes`.
unfoldable pub is_ready : ActiveRun → String → Bool
unfolding predecessors required_predecessors all_resolved
is_ready a n =
    if resolved a n
    then false
    else if is_pending_node a n
    then true
    else if is_empty (required_predecessors a.branch_by_node a.graph.edges n)
    then is_empty (predecessors a.graph.edges n)
    else all_resolved a (required_predecessors a.branch_by_node a.graph.edges n)

unfoldable pub ready_among : ActiveRun → List String → List String
ready_among a [] = []
ready_among a (n ∷ ns) = if is_ready a n then n ∷ ready_among a ns else ready_among a ns

-- `_ready_nodes`: the ids are keys of a dictionary, so that making a set of them drops none.
unfoldable pub ready_nodes : ActiveRun → List String
unfolding ready_among
ready_nodes a = sort (ready_among a (keys a.graph.nodes))

-- `_on_failure_action`; `lower` is Python's.
unfoldable pub on_failure_action : Python → WorkflowNode → OnFailure
on_failure_action py node =
    let raw = py.lower (if str_eq node.on_failure "" then "fail" else node.on_failure) in
    if str_eq raw "skip"
    then OnFailure.skip
    else if str_eq raw "continue"
    then OnFailure.continue
    else if str_eq raw "retry"
    then OnFailure.retry
    else OnFailure.fail

-- `result.data.get("branch")`, which is a text or None.
unfoldable pub branch_in : NodeResult → Option String
branch_in r = elim (lookup "branch" r.payload) [ some (str b) ↦ some b | _ ↦ none ]

-- A node that is done: a conditional one leaves its branch.
unfoldable pub complete : WorkflowNode → String → NodeResult → ActiveRun → ActiveRun
unfolding add branch_in
complete node n r a = record a {
  completed = add n a.completed;
  branch_by_node = elim node.type [
    | conditional ↦ insert n (branch_in r) a.branch_by_node
    | _ ↦ a.branch_by_node
  ];
}

-- What the round does with a node's result. True if the loop is left.
unfoldable pub settle : Python → WorkflowNode → String → NodeResult → ActiveRun → Bool × ActiveRun
unfolding complete add on_failure_action
settle py node n r a = elim r.status [
  | NodeStatus.waiting_approval ↦ (
    true,
    record a {
      status = RunStatus.waiting_approval;
      pending_node_id = some n;
      pending_message = r.output;
    },
  )
  | NodeStatus.failed ↦ elim (on_failure_action py node) [
    | OnFailure.skip ↦ (false, record a { skipped = add n a.skipped })
    | OnFailure.continue ↦ (false, complete node n r a)
    | _ ↦ (
      true,
      record a {
        status = RunStatus.failed;
        error = if str_eq r.error "" then r.output else r.error;
      },
    )
  ]
  | _ ↦ (false, complete node n r a)
]

abbrev pub is_running : RunStatus → Bool
is_running RunStatus.running = true
is_running _ = false

-- No node is ready: the run is over, or stuck.
unfoldable pub close : ActiveRun → ActiveRun
close a =
    if length a.completed + length a.skipped == length a.graph.nodes
    then record a { status = RunStatus.completed }
    else record a {
      status = RunStatus.failed;
      error = if str_eq a.error "" then "Deadlock: no ready nodes" else a.error;
    }

unfoldable pub build_result : ActiveRun → RunResult
build_result a = record {
  workflow_id = a.graph.id;
  run_id = a.context.run_id;
  status = a.status;
  shared_context = a.context.shared_context;
  node_results = a.context.node_results;
  error = a.error;
  pending_node_id = a.pending_node_id;
  pending_message = a.pending_message;
}

module _ {W : Type 0} (py : Python) (services : Services W) where
  -- One node of a round, and whether the loop is left; an id that is no node cannot be ready.
  unfoldable pub visit : String → ActiveRun → W → Raises Bool × ActiveRun × W
  unfolding settle
  visit n a w = elim (lookup n a.graph.nodes) [
    | none ↦ (ok true, a, w)
    | some node ↦
        let (r, ctx, w') = execute_with_recovery py services node a.context w in
        elim r [
          | raised e ↦ (raised e, record a { context = ctx }, w')
          | ok result ↦
              let (stop, a') =
                settle py node n result (record a { context = set_node_output n result ctx }) in
              (ok stop, a', w')
        ]
  ]

  unfoldable pub run_round : List String → ActiveRun → W → Raises Bool × ActiveRun × W
  run_round [] a w = (ok false, a, w)
  run_round (n ∷ ns) a w =
      let (left, a', w') = visit n a w in
      let rest = run_round ns a' w' in
      elim left [
        | raised e ↦ (raised e, a', w')
        | ok stop ↦ if stop then (ok true, a', w') else rest
      ]

  -- `_execute_loop`, left by a `return` or by an exception.
  unfoldable pub execute_loop : ℕ → ActiveRun → W → Option (Raises (Unit {0}) × ActiveRun × W)
  unfolding auto_skip ready_nodes close
  execute_loop zero a w = none
  execute_loop (suc fuel) a w =
      let skipped = auto_skip a in
      let ready = ready_nodes skipped in
      let (left, a', w') = run_round ready skipped w in
      let rest = execute_loop fuel a' w' in
      if is_running a.status
      then if is_empty ready then some (ok tt, close skipped, w) else elim left [
        | raised e ↦ some (raised e, a', w')
        | ok stop ↦ if stop then some (ok tt, a', w') else rest
      ]
      else some (ok tt, a, w)
