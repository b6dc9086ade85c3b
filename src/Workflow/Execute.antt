-- ===== src/Workflow/Execute.antt =====
-- One node of a workflow: `_execute_node_with_recovery`, `_execute_node` and the four kinds of nodes,
-- of backend/app/workflow/executor.py.
--
-- `AgentRuntime.run` and the tool executor's `execute` are parameters: they answer, or raise, and
-- change a state `W` of their own. The messages of exceptions are `str(error)`. A node may raise itself,
-- where its `metadata` or `arguments` is no dictionary, and then leaves the context as it was.
pub mod Retries
pub mod Refused
use Prim.Native.String.{◌++◌ as str_append}
use enterprise_ai_agent.Prelude.{
  ℕ, zero, suc, ◌+◌, max, Bool, true, false, Option, none, some, List, [], ◌∷◌, String,
  if◌then◌else◌,
}
use enterprise_ai_agent.Prelude.Int.{ℤ, pos, negsuc}
use enterprise_ai_agent.Prelude.Text.{str_eq}
use enterprise_ai_agent.Prelude.TextDict.{TextDict, lookup, insert}
use enterprise_ai_agent.Workflow.Node.{
  Value, null, bool, str, obj, Fields, blank, entry, NodeType, agent, tool, human_approval,
  conditional, WorkflowNode,
}
use enterprise_ai_agent.Workflow.Value.{
  Python, dict_field, value_eq, to_str, update_with, get_path, resolve_value, render_template,
}
use enterprise_ai_agent.Workflow.Context.{NodeResult, NodeStatus, Context, failure, is_failed}
use enterprise_ai_agent.Workflow.Graph.{Raises, ok, raised}
use enterprise_ai_agent.Workflow.Human.{get_or, from_workflow_node, evaluate}

-- `AgentTask`, as far as a workflow fills it.
pub record AgentTask : Type 0 where
  pub session_id : String
  pub user_message : String
  pub agent_name : String
  pub shared_context : TextDict Value
  pub metadata : TextDict Value

-- What a call of the runtime or of a tool gives.
pub data Outcome : Type 0 where
  raises : String → Outcome
  answers : (success : Bool) (model content : String) → Outcome

pub record Services (W : Type 0) : Type 0 where
  pub run_agent : AgentTask → W → Outcome × W
  pub execute_tool : Option (String → TextDict Value → W → Outcome × W)

status_of : Bool → NodeStatus
status_of success = if success then NodeStatus.completed else NodeStatus.failed

or_failed : String → String
or_failed content = if str_eq content "" then "failed" else content

resolve_fields : Fields → TextDict Value → TextDict Value
resolve_fields blank shared = []
resolve_fields (entry k v fs) shared = (k, resolve_value v shared) ∷ resolve_fields fs shared

-- `max(1, node.max_retries + 1)` attempts in all: the number of those after the first.
unfoldable pub retries_of : ℤ → ℕ
retries_of (pos n) = n
retries_of (negsuc n) = 0

module _ {W : Type 0} (py : Python) (services : Services W) where
  agent_task : WorkflowNode → String → Fields → Context → AgentTask
  unfolding render_template to_str update_with
  agent_task node agent_name metadata ctx = record {
    session_id = ctx.session_id;
    user_message =
        render_template py
          (to_str py (get_or node.config "message_template" (str "{user_message}")))
          ctx.shared_context ctx.user_message;
    agent_name = agent_name;
    shared_context = ctx.shared_context;
    metadata =
        insert "workflow_run_id" (str ctx.run_id)
          (insert "workflow_node_id" (str node.id) (update_with metadata ctx.metadata));
  }

  -- What `_run_agent_node` does with the runtime's answer.
  agent_answer : WorkflowNode → Context → Outcome → NodeResult × Context
  unfolding status_of or_failed
  agent_answer node ctx (raises e) = (failure node.id e, ctx)
  agent_answer node ctx (answers success model content) = (
    record {
      node_id = node.id;
      status = status_of success;
      success = success;
      output = content;
      payload = ("model", str model) ∷ [];
      error = if success then "" else or_failed content;
      attempts = 1;
    },
    record ctx {
      shared_context =
          insert "last_agent_output" (str content)
            (insert "last_agent_success" (bool success) ctx.shared_context);
    },
  )

  run_agent_node : WorkflowNode → Context → W → Raises NodeResult × Context × W
  unfolding agent_task agent_answer to_str dict_field
  run_agent_node node ctx w =
      let agent_name = py.strip (to_str py (get_or node.config "agent_name" (str ""))) in
      if str_eq agent_name ""
      then (ok (failure node.id "agent_name is required"), ctx, w)
      else elim (dict_field py (get_or node.config "metadata" null)) [
        | raised e ↦ (raised e, ctx, w)
        | ok metadata ↦
            let (outcome, w') = services.run_agent (agent_task node agent_name metadata ctx) w in
            let (result, ctx') = agent_answer node ctx outcome in (ok result, ctx', w')
      ]

  tool_answer : WorkflowNode → Outcome → NodeResult
  unfolding status_of
  tool_answer node (raises e) = failure node.id e
  tool_answer node (answers success model content) = record {
    node_id = node.id;
    status = status_of success;
    success = success;
    output = content;
    payload = [];
    error = if success then "" else content;
    attempts = 1;
  }

  run_tool_node : WorkflowNode → Context → W → Raises NodeResult × Context × W
  unfolding tool_answer resolve_fields to_str dict_field
  run_tool_node node ctx w = elim services.execute_tool [
    | none ↦ (ok (failure node.id "Tool executor not configured"), ctx, w)
    | some execute ↦ elim (dict_field py (get_or node.config "arguments" null)) [
      | raised e ↦ (raised e, ctx, w)
      | ok arguments ↦
          let (outcome, w') =
            execute (to_str py (get_or node.config "tool_name" (str "")))
              (resolve_fields arguments ctx.shared_context) w in
          (ok (tool_answer node outcome), ctx, w')
    ]
  ]

  run_human_approval_node : WorkflowNode → Context → NodeResult
  unfolding evaluate from_workflow_node
  run_human_approval_node node ctx = evaluate py (from_workflow_node py node) ctx.shared_context

  run_conditional_node : WorkflowNode → Context → NodeResult × Context
  unfolding get_path value_eq to_str
  run_conditional_node node ctx =
      let actual =
        get_path ctx.shared_context (to_str py (get_or node.config "source_key" (str ""))) in
      let branch =
        if value_eq actual (get_or node.config "equals" (bool true)) then "true" else "false" in
      (
        record {
          node_id = node.id;
          status = NodeStatus.completed;
          success = true;
          output = str_append "branch=" branch;
          payload = ("branch", str branch) ∷ ("actual", actual) ∷ [];
          error = "";
          attempts = 1;
        },
        record ctx { shared_context = insert "__branch__" (str branch) ctx.shared_context },
      )

  -- `_execute_node`; its last case, an unknown type, has no member of `NodeType`.
  unfoldable pub execute_node : WorkflowNode → Context → W → Raises NodeResult × Context × W
  unfolding run_agent_node run_tool_node run_human_approval_node run_conditional_node
  execute_node node ctx w = elim node.type [
    | agent ↦ run_agent_node node ctx w
    | tool ↦ run_tool_node node ctx w
    | human_approval ↦ (ok (run_human_approval_node node ctx), ctx, w)
    | conditional ↦ let (result, ctx') = run_conditional_node node ctx in (ok result, ctx', w)
  ]

  -- The loop of `_execute_node_with_recovery`: `left` attempts may follow the one that is made.
  unfoldable pub attempt :
      (left attempts : ℕ) → WorkflowNode → Context → W → Raises NodeResult × Context × W
  unfolding execute_node
  attempt zero attempts node ctx w =
      let (result, ctx', w') = execute_node node ctx w in
      elim result [
        | raised e ↦ (raised e, ctx', w')
        | ok r ↦ (ok (record r { attempts = suc attempts }), ctx', w')
      ]
  attempt (suc left) attempts node ctx w =
      let (result, ctx', w') = execute_node node ctx w in
      let again = attempt left (suc attempts) node ctx' w' in
      elim result [
        | raised e ↦ (raised e, ctx', w')
        | ok r ↦
            if is_failed r.status
            then again
            else (ok (record r { attempts = suc attempts }), ctx', w')
      ]

  unfoldable pub execute_with_recovery :
      WorkflowNode → Context → W → Raises NodeResult × Context × W
  unfolding attempt retries_of
  execute_with_recovery node ctx w = attempt (retries_of node.max_retries) 0 node ctx w
