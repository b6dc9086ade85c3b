-- ===== src/Workflow/Context.antt =====
-- base.py of backend/app/workflow: the statuses, the result of a node, and the state of one run.
use Prim.Native.String.{◌++◌ as str_append}
use enterprise_ai_agent.Prelude.{ℕ, Bool, true, false, Option, [], ◌∷◌, String}
use enterprise_ai_agent.Prelude.TextDict.{TextDict, insert}
use enterprise_ai_agent.Workflow.Node.{Value, bool, str, obj}
use enterprise_ai_agent.Workflow.Value.{to_fields}

pub data RunStatus : Type 0 where
  pending running waiting_approval completed failed : RunStatus

-- `NodeRunStatus`
pub data NodeStatus : Type 0 where
  pending running completed failed skipped waiting_approval : NodeStatus

-- `OnFailureAction`
pub data OnFailure : Type 0 where
  fail retry skip continue : OnFailure

-- `NodeExecutionResult`
pub record NodeResult : Type 0 where
  pub node_id : String
  pub status : NodeStatus
  pub success : Bool
  pub output : String
  pub payload : TextDict Value
  pub error : String
  pub attempts : ℕ

-- `WorkflowExecutionContext`
pub record Context : Type 0 where
  pub session_id : String
  pub run_id : String
  pub user_message : String
  pub shared_context : TextDict Value
  pub metadata : TextDict Value
  pub node_results : TextDict NodeResult

abbrev output_key : String → String
output_key node_id = str_append "node:" (str_append node_id ":output")

abbrev success_key : String → String
success_key node_id = str_append "node:" (str_append node_id ":success")

abbrev payload_key : String → String
payload_key node_id = str_append "node:" (str_append node_id ":data")

-- `if result.data: shared_context[key] = dict(result.data)`
abbrev put_payload : String → TextDict Value → TextDict Value → TextDict Value
put_payload k [] shared = shared
put_payload k (d ∷ ds) shared = insert k (obj (to_fields (d ∷ ds))) shared

unfoldable pub set_node_output : String → NodeResult → Context → Context
set_node_output node_id r ctx =
    let shared = insert (output_key node_id) (str r.output) ctx.shared_context in
    let shared' = insert (success_key node_id) (bool r.success) shared in
    record ctx {
      node_results = insert node_id r ctx.node_results;
      shared_context = put_payload (payload_key node_id) r.payload shared';
    }

-- A result that failed before the node could run.
abbrev pub failure : String → String → NodeResult
failure node_id error = record {
  node_id = node_id;
  status = NodeStatus.failed;
  success = false;
  output = "";
  payload = [];
  error = error;
  attempts = 1;
}

abbrev pub is_failed : NodeStatus → Bool
is_failed NodeStatus.failed = true
is_failed _ = false

-- `WorkflowRunResult`
pub record RunResult : Type 0 where
  pub workflow_id : String
  pub run_id : String
  pub status : RunStatus
  pub shared_context : TextDict Value
  pub node_results : TextDict NodeResult
  pub error : String
  pub pending_node_id : Option String
  pub pending_message : String
