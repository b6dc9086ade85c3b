-- ===== src/Workflow/Tests/Running.antt =====
-- Runs of a workflow graph with a branch, and the theorems on runs, approvals and the registry applied
-- to them.
use enterprise_ai_agent.Prelude.{
  ℕ, suc, ◌≤◌, ◌≡◌, if◌then◌else◌, refl, true, false, Option, none, some, List, [], ◌∷◌, String,
  length, arith,
}
use enterprise_ai_agent.Prelude.TextDict.{TextDict, lookup, insert}
use enterprise_ai_agent.Workflow.Node.{Value, bool, str, WorkflowNode, agent_node}
use enterprise_ai_agent.Workflow.Value.{Python}
use enterprise_ai_agent.Workflow.Context.{RunStatus, NodeStatus}
use enterprise_ai_agent.Workflow.Human.{HumanNode, action_of, apply_payload, evaluate}
use enterprise_ai_agent.Workflow.Human.Decision.{decided, evaluate-apply_payload}
use enterprise_ai_agent.Workflow.Graph.{Raises, ok, raised}
use enterprise_ai_agent.Workflow.Graph.Order.{IsGraph}
use enterprise_ai_agent.Workflow.Execute.{
  AgentTask, Outcome, answers, Services, retries_of, execute_with_recovery, attempt, execute_node,
}
use enterprise_ai_agent.Workflow.Execute.Retries.{Recovered, execute_with_recovery-Recovered}
use enterprise_ai_agent.Workflow.Engine.{ActiveRun, execute_loop}
use enterprise_ai_agent.Workflow.Engine.Resolve.{IsRun}
use enterprise_ai_agent.Workflow.Engine.Visits.{IsRun-same}
use enterprise_ai_agent.Workflow.Engine.Ended.{Ended}
use enterprise_ai_agent.Workflow.Engine.Progress.{execute_loop-ends}
use enterprise_ai_agent.Workflow.Executor.{
  Runs, answer_of, start_run, approve, reopen, run, resume, reset, reset_nodes, rerun_step,
}
use enterprise_ai_agent.Workflow.Executor.Calls.{
  start_run-IsRun, Returned, run-Returned, resume-Returned,
}
use enterprise_ai_agent.Workflow.Registry.{
  Graphs, register, IsRegistry, Registered, register-Registered,
}
use enterprise_ai_agent.Workflow.Tests.{
  branching, yes_node, branching-IsGraph, branching-validate, check,
}
use enterprise_ai_agent.Prelude.Text.{occ}
use enterprise_ai_agent.Workflow.Executor.Downstream.{IsClosed, IsLeast}
use enterprise_ai_agent.Workflow.Executor.Rerun.{rerun_step-Returned}
use enterprise_ai_agent.Workflow.Executor.History.{AllStopped, nothing, ran, History-AllStopped}

-- Texts of ASCII letters in lower case without blanks around them, and an agent that always answers
-- and counts its calls.
abbrev plain : Python
plain = record {
  enum_text = λ class member value. value;
  repr = λ v. "…";
  lower = λ s. s;
  strip = λ s. s;
  dict_of = λ v. raised "not iterable";
}

answering : AgentTask → ℕ → Outcome × ℕ
answering task calls = (answers true "model" "done", suc calls)

abbrev counting : Services ℕ
counting = record { run_agent = answering; execute_tool = none }

abbrev first_run : ActiveRun
first_run = start_run branching "session" "run" "hello" (("flag", bool true) ∷ []) []

first_run-IsRun : IsRun first_run
first_run-IsRun = start_run-IsRun branching "session" "run" "hello" (("flag", bool true) ∷ []) []

first_run-starts : (first_run.graph ≡ branching) × (first_run.pending_node_id ≡ none)
unfolding start_run
first_run-starts = (refl, refl)

first_run-IsGraph : IsGraph first_run.graph
unfolding start_run
first_run-IsGraph = branching-IsGraph

execute_loop-ends_example :
    (left : Raises (Unit {0})) × (b : ActiveRun) × (calls : ℕ) × (execute_loop plain counting
        (suc (length first_run.graph.nodes))
        first_run
        0
      ≡ some (left, b, calls))
    × Ended plain first_run left b
execute_loop-ends_example =
    execute_loop-ends plain counting first_run 0 first_run-IsGraph first_run-IsRun
      first_run-starts.1

execute_with_recovery-Recovered_example :
    Recovered plain counting
      (retries_of yes_node.max_retries)
      0
      yes_node
      first_run.context
      0
      (execute_with_recovery plain counting yes_node first_run.context 0)
execute_with_recovery-Recovered_example =
    execute_with_recovery-Recovered plain counting yes_node first_run.context 0

run-Returned_example :
    Returned plain "run" first_run []
      (run plain counting branching "session" "run" "hello" (("flag", bool true) ∷ []) [] [] 0)
run-Returned_example =
    run-Returned plain counting branching "session" "run" "hello" (("flag", bool true) ∷ []) [] [] 0
      branching-IsGraph branching-validate

-- The run, as it would wait for an approval.
abbrev waiting_run : ActiveRun
waiting_run = record first_run {
  status = RunStatus.waiting_approval;
  pending_node_id = some "check";
}

waiting_run-IsRun : IsRun waiting_run
waiting_run-IsRun = IsRun-same {a = first_run} refl refl refl first_run-IsRun

abbrev known_runs : Runs
known_runs = ("run", waiting_run) ∷ []

waiting_run-known : lookup "run" known_runs ≡ some waiting_run
unfolding lookup
waiting_run-known = refl

abbrev approval : Option (TextDict Value)
approval = some (("action", str "approve") ∷ [])

resume-Returned_example :
    Returned plain "run"
      (reopen (approve plain approval waiting_run))
      known_runs
      (resume plain counting "run" approval known_runs 0)
resume-Returned_example =
    resume-Returned plain counting "run" approval known_runs 0 waiting_run waiting_run-known
      first_run-IsGraph waiting_run-IsRun refl

nothing-IsRegistry : IsRegistry []
unfolding lookup
nothing-IsRegistry = record { holds = λ k g f. absurd (ground (arith, f)) }

abbrev registry : Graphs
registry = ("wf", branching) ∷ []

branching-register : register branching false [] ≡ ok registry
unfolding register lookup insert
branching-register = rw branching-validate refl

register-Registered_example : Registered branching false [] registry
register-Registered_example =
    register-Registered branching false [] registry nothing-IsRegistry branching-register

abbrev count_shown : List String → String
count_shown ids = "[…]"

abbrev reviewer : HumanNode
reviewer = record {
  node_id = "review";
  prompt = "Approval required";
  name = "Human Approval";
  allow_modify_prompt = true;
  context_prompt_key = "human_modified_prompt";
}

abbrev rejection : TextDict Value
rejection = ("approved", bool true) ∷ ("action", str "reject") ∷ []

evaluate-apply_payload_example :
    (evaluate plain reviewer
      (apply_payload plain "review" rejection "human_modified_prompt"
        first_run.context).shared_context).status
    ≡ (if decided (action_of plain rejection) rejection
        then NodeStatus.completed
        else NodeStatus.failed)
evaluate-apply_payload_example =
    evaluate-apply_payload plain reviewer rejection first_run.context refl refl

-- The action "reject" outweighs the field `approved`.
rejection-decided : decided (action_of plain rejection) rejection ≡ false
unfolding action_of lookup decided
rejection-decided = refl

check-known : lookup "check" waiting_run.graph.nodes ≡ some check
unfolding lookup start_run
check-known = refl

rerun_step-Returned_example :
    (ns : List String) × (reset_nodes waiting_run.graph "check" ≡ some ns)
    × (1 ≤ occ "check" ns)
    × IsClosed ns waiting_run.graph.edges
    × IsLeast "check" ns waiting_run.graph.edges
    × Returned plain "run"
        (reset "check" ns waiting_run)
        known_runs
        (rerun_step plain counting "run" "check" known_runs 0)
rerun_step-Returned_example =
    rerun_step-Returned plain counting "run" "check" known_runs 0 waiting_run check
      waiting_run-known check-known first_run-IsGraph waiting_run-IsRun

first_call :
    Returned plain "run" first_run []
      (run plain counting branching "session" "run" "hello" (("flag", bool true) ∷ []) [] [] 0)
first_call =
    run-Returned plain counting branching "session" "run" "hello" (("flag", bool true) ∷ []) [] [] 0
      branching-IsGraph branching-validate

History-AllStopped_example : AllStopped plain (insert "run" first_call.left [])
History-AllStopped_example = History-AllStopped plain counting (
    ran branching "session" "run" "hello" (("flag", bool true) ∷ []) []
      (answer_of first_call.exit first_call.left) (nothing 0) branching-IsGraph first_call.returns)

-- An agent whose metadata is a text: the exception leaves the node and the loop over its attempts.
abbrev misconfigured : WorkflowNode
misconfigured = record yes_node {
  config = ("agent_name", str "writer") ∷ ("metadata", str "x") ∷ [];
}

misconfigured-raises :
    (execute_with_recovery plain counting misconfigured first_run.context 0).0
    ≡ raised "not iterable"
unfolding execute_with_recovery attempt execute_node lookup agent_node
misconfigured-raises = refl
