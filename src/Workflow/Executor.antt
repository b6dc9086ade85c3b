-- ===== src/Workflow/Executor.antt =====
-- The methods of `WorkflowExecutor` in backend/app/workflow/executor.py, over the dictionary `_runs`.
--
-- A method returns a result or raises, and leaves `_runs`, also where the loop raises; `none` means that
-- the loop's fuel, one more than the number of nodes, was spent.
pub mod Calls
pub mod Downstream
pub mod Rerun
pub mod History
use Prim.Native.String.{◌++◌ as str_append}
use enterprise_ai_agent.Prelude.{
  ℕ, zero, suc, ◌+◌, Bool, true, false, ◌&&◌, not, Option, none, some, List, [], ◌∷◌, ◌++◌, String,
  length, if◌then◌else◌,
}
use enterprise_ai_agent.Prelude.Text.{str_eq, mem}
use enterprise_ai_agent.Prelude.TextDict.{TextDict, lookup, insert, erase}
use enterprise_ai_agent.Workflow.Node.{Value, str, human_approval, WorkflowNode, WorkflowEdge}
use enterprise_ai_agent.Workflow.Value.{Python, set_default}
use enterprise_ai_agent.Workflow.Context.{RunStatus, NodeResult, Context, RunResult}
use enterprise_ai_agent.Workflow.Graph.{WorkflowGraph, Raises, ok, raised, ◌>>=◌, ◌>>◌, validate}
use enterprise_ai_agent.Workflow.Human.{HumanNode, from_workflow_node, apply_payload}
use enterprise_ai_agent.Workflow.Execute.{Services}
use enterprise_ai_agent.Workflow.Engine.{ActiveRun, add, execute_loop, build_result}

abbrev pub Runs : Type 0
Runs = TextDict ActiveRun

-- The run that `run` starts.
unfoldable pub start_run :
    WorkflowGraph
    → (session_id run_id user_message : String) → (shared metadata : TextDict Value) → ActiveRun
unfolding set_default
start_run graph session_id run_id user_message shared metadata = record {
  graph = graph;
  context = record {
    session_id = session_id;
    run_id = run_id;
    user_message = user_message;
    shared_context = set_default "user_message" (str user_message) shared;
    metadata = metadata;
    node_results = [];
  };
  completed = [];
  skipped = [];
  branch_by_node = [];
  status = RunStatus.running;
  pending_node_id = none;
  pending_message = "";
  error = "";
}

-- The key under which a human approval leaves the modified prompt, for the node that is pending.
unfoldable pub prompt_key_of : Python → Option WorkflowNode → String
unfolding from_workflow_node
prompt_key_of py none = "human_modified_prompt"
prompt_key_of py (some node) = elim node.type [
  | human_approval ↦ (from_workflow_node py node).context_prompt_key
  | _ ↦ "human_modified_prompt"
]

-- `resume` writes the payload only if one is given and a node is pending.
unfoldable pub approve : Python → Option (TextDict Value) → ActiveRun → ActiveRun
unfolding prompt_key_of apply_payload
approve py none a = a
approve py (some payload) a = elim a.pending_node_id [
  | none ↦ a
  | some pending ↦ if str_eq pending "" then a else record a {
    context =
        apply_payload py pending payload (prompt_key_of py (lookup pending a.graph.nodes))
          a.context;
  }
]

-- Back to RUNNING with no node pending.
abbrev pub reopen : ActiveRun → ActiveRun
reopen a = record a { status = RunStatus.running; pending_node_id = none; pending_message = "" }

-- One edge of the `for` loop in `_collect_downstream`.
unfoldable pub follow :
    List WorkflowEdge → String → (visited queue : List String) → List String × List String
follow [] current visited queue = (visited, queue)
follow (e ∷ es) current visited queue =
    if str_eq e.from_id current && not (mem e.to_id visited)
    then follow es current (e.to_id ∷ visited) (queue ++ e.to_id ∷ [])
    else follow es current visited queue

-- The `while queue` loop; each round visits the targets of one node.
unfoldable pub collect :
    ℕ → List WorkflowEdge → (visited queue : List String) → Option (List String)
unfolding follow
collect zero es visited queue = none
collect (suc fuel) es visited [] = some visited
collect (suc fuel) es visited (current ∷ queue) =
    let (visited', queue') = follow es current visited queue in collect fuel es visited' queue'

-- `{node_id} | _collect_downstream(graph, node_id)`
unfoldable pub reset_nodes : WorkflowGraph → String → Option (List String)
unfolding collect
reset_nodes g node_id = elim (collect (suc (suc (length g.nodes))) g.edges [] (node_id ∷ [])) [
  | none ↦ none
  | some visited ↦ some (add node_id visited)
]

-- `xs -= ns`, and the same for the keys of a dictionary.
unfoldable pub remove_all : List String → List String → List String
remove_all ns [] = []
remove_all ns (x ∷ xs) = if mem x ns then remove_all ns xs else x ∷ remove_all ns xs

unfoldable pub erase_all : List String → TextDict NodeResult → TextDict NodeResult
erase_all [] d = d
erase_all (n ∷ ns) d = erase_all ns (erase n d)

unfoldable pub reset : String → List String → ActiveRun → ActiveRun
unfolding remove_all erase_all
reset node_id ns a = record a {
  completed = remove_all ns a.completed;
  skipped = remove_all ns a.skipped;
  context = record (a.context) { node_results = erase_all ns a.context.node_results };
  branch_by_node = erase node_id a.branch_by_node;
  status = RunStatus.running;
  pending_node_id = none;
  pending_message = "";
  error = "";
}

is_waiting : RunStatus → Bool
is_waiting RunStatus.waiting_approval = true
is_waiting _ = false

-- `WorkflowRunStatus`, as Python renders its members in a message.
unfoldable pub status_text : Python → RunStatus → String
status_text py RunStatus.pending = py.enum_text "WorkflowRunStatus" "PENDING" "pending"
status_text py RunStatus.running = py.enum_text "WorkflowRunStatus" "RUNNING" "running"
status_text py RunStatus.waiting_approval =
    py.enum_text "WorkflowRunStatus" "WAITING_APPROVAL" "waiting_approval"
status_text py RunStatus.completed = py.enum_text "WorkflowRunStatus" "COMPLETED" "completed"
status_text py RunStatus.failed = py.enum_text "WorkflowRunStatus" "FAILED" "failed"

unfoldable pub get_run : String → Runs → Option RunResult
unfolding build_result
get_run run_id runs = elim (lookup run_id runs) [ none ↦ none | some a ↦ some (build_result a) ]

unfoldable pub get_run_graph : String → Runs → Option WorkflowGraph
get_run_graph run_id runs = elim (lookup run_id runs) [ none ↦ none | some a ↦ some a.graph ]

-- What a call that ran the loop answers.
unfoldable pub answer_of : Raises (Unit {0}) → ActiveRun → Raises RunResult
unfolding build_result
answer_of (ok _) a = ok (build_result a)
answer_of (raised e) a = raised e

module _ {W : Type 0} (py : Python) (services : Services W) where
  -- The loop on the run with this id; the run is an object of `_runs`, which the loop changes.
  unfoldable pub run_loop : String → ActiveRun → Runs → W → Option (Raises RunResult × Runs × W)
  unfolding answer_of
  run_loop run_id a runs w = elim (execute_loop py services (suc (length a.graph.nodes)) a w) [
    | none ↦ none
    | some (left, b, w') ↦ some (answer_of left b, insert run_id b runs, w')
  ]

  unfoldable pub run :
      WorkflowGraph
      → (session_id run_id user_message : String) (shared metadata : TextDict Value) → Runs
      → W
      → Option (Raises RunResult × Runs × W)
  unfolding run_loop start_run
  run graph session_id run_id user_message shared metadata runs w = elim (validate graph) [
    | raised e ↦ some (raised e, runs, w)
    | ok _ ↦ run_loop run_id (start_run graph session_id run_id user_message shared metadata) runs w
  ]

  unfoldable pub resume :
      String → Option (TextDict Value) → Runs → W → Option (Raises RunResult × Runs × W)
  unfolding run_loop approve is_waiting status_text
  resume run_id approval_payload runs w = elim (lookup run_id runs) [
    | none ↦ some (raised (str_append "Unknown workflow run: " run_id), runs, w)
    | some a ↦
        if is_waiting a.status
        then run_loop run_id (reopen (approve py approval_payload a)) runs w
        else some (
          raised (
              str_append "Run " (
                str_append run_id (
                  str_append " is not waiting for approval (status="
                    (str_append (status_text py a.status) ")")))),
          runs,
          w,
        )
  ]

  unfoldable pub rerun_step : String → String → Runs → W → Option (Raises RunResult × Runs × W)
  unfolding run_loop reset_nodes reset
  rerun_step run_id node_id runs w = elim (lookup run_id runs) [
    | none ↦ some (raised (str_append "Unknown workflow run: " run_id), runs, w)
    | some a ↦ elim (lookup node_id a.graph.nodes) [
      | none ↦ some (raised (str_append "Unknown node: " node_id), runs, w)
      | some _ ↦ elim (reset_nodes a.graph node_id) [
        | none ↦ none
        | some ns ↦ run_loop run_id (reset node_id ns a) runs w
      ]
    ]
  ]
