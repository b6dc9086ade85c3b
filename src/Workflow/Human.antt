-- ===== src/Workflow/Human.antt =====
-- `HumanApprovalNode` of backend/app/workflow/human_node.py.
pub mod Decision
use Prim.Native.String.{◌++◌ as str_append}
use enterprise_ai_agent.Prelude.{
  ℕ, Bool, true, false, ◌&&◌, not, Option, none, some, List, [], ◌∷◌, String, if◌then◌else◌,
}
use enterprise_ai_agent.Prelude.Int.{ℤ, pos}
use enterprise_ai_agent.Prelude.Text.{str_eq}
use enterprise_ai_agent.Prelude.TextDict.{TextDict, lookup, insert, known}
use enterprise_ai_agent.Workflow.Node.{
  Value, null, bool, str, arr, obj, Items, nil, cons, WorkflowNode, human_approval, or_text,
}
use enterprise_ai_agent.Workflow.Value.{Python, truthy, to_str, to_fields, set_default}
use enterprise_ai_agent.Workflow.Context.{NodeResult, NodeStatus, Context}

abbrev pub context_key : String → String
context_key node_id = str_append "approval:" node_id

abbrev pub flag_key : String → String
flag_key node_id = str_append (context_key node_id) ":approved"

abbrev pub prompt_key : String → String
prompt_key node_id = str_append (context_key node_id) ":modified_prompt"

abbrev pub comment_key : String → String
comment_key node_id = str_append (context_key node_id) ":comment"

pub record HumanNode : Type 0 where
  pub node_id : String
  pub prompt : String
  pub name : String
  pub allow_modify_prompt : Bool
  pub context_prompt_key : String

unfoldable pub to_workflow_node : HumanNode → WorkflowNode
to_workflow_node h = record {
  id = h.node_id;
  type = human_approval;
  name = h.name;
  config =
      ("prompt", str h.prompt)
      ∷ ("allow_modify_prompt", bool h.allow_modify_prompt)
      ∷ ("context_prompt_key", str h.context_prompt_key)
      ∷ [];
  max_retries = pos 0;
  on_failure = "fail";
}

-- `WorkflowNode.human_approval` of node.py and `human_approval_workflow_node`.
unfoldable pub human_approval_node :
    (node_id prompt name : String) → (allow_modify_prompt : Bool) → WorkflowNode
unfolding to_workflow_node
human_approval_node node_id prompt name allow_modify_prompt = to_workflow_node (record {
  node_id = node_id;
  prompt = prompt;
  name = name;
  allow_modify_prompt = allow_modify_prompt;
  context_prompt_key = "human_modified_prompt";
})

-- `d.get(k, default)`
abbrev pub get_or : TextDict Value → String → Value → Value
get_or d k default = elim (lookup k d) [ none ↦ default | some v ↦ v ]

-- `from_workflow_node`, for a node of the right type.
unfoldable pub from_workflow_node : Python → WorkflowNode → HumanNode
unfolding to_str truthy or_text
from_workflow_node py node = record {
  node_id = node.id;
  prompt = to_str py (get_or node.config "prompt" (str "Approval required"));
  name = or_text node.name "Human Approval";
  allow_modify_prompt = truthy (get_or node.config "allow_modify_prompt" (bool true));
  context_prompt_key =
      to_str py (get_or node.config "context_prompt_key" (str "human_modified_prompt"));
}

abbrev pub if_absent : String → Value → TextDict Value → TextDict Value
if_absent k v d = if known (lookup k d) then d else insert k v d

-- `a or b` on values.
abbrev pub or_value : Value → Value → Value
or_value a b = if truthy a then a else b

-- The text of the field `action`, lowered and stripped.
unfoldable pub action_of : Python → TextDict Value → String
unfolding to_str
action_of py payload = py.strip (py.lower (to_str py (get_or payload "action" (str ""))))

-- The branches on the action, in `normalize_payload`.
unfoldable pub by_action : String → TextDict Value → TextDict Value
by_action action payload =
    if str_eq action "reject"
    then insert "approved" (bool false) payload
    else if str_eq action "approve"
    then insert "approved" (bool true) payload
    else if str_eq action "modify"
    then insert "approved" (get_or payload "approved" (bool true)) payload
    else payload

-- `if "approved" not in data and "approve" in data`
unfoldable pub by_approve : TextDict Value → TextDict Value
by_approve d = elim (lookup "approve" d) [
  | none ↦ d
  | some v ↦ if_absent "approved" (bool (truthy v)) d
]

-- `if modified and action_raw != "reject"`
unfoldable pub by_modified : Python → String → TextDict Value → TextDict Value
unfolding to_str
by_modified py action d =
    let modified = or_value (get_or d "modified_prompt" null) (get_or d "modified_message" null) in
    if truthy modified && not (str_eq action "reject")
    then insert "modified_prompt" (str (to_str py modified)) (if_absent "approved" (bool true) d)
    else d

unfoldable pub normalize_payload : Python → TextDict Value → TextDict Value
unfolding action_of by_action by_approve by_modified
normalize_payload py payload =
    let action = action_of py payload in
    by_modified py action (by_approve (by_action action payload))

-- The writes of `apply_payload` for the normalized payload.
unfoldable pub write_decision :
    Python → String → String → TextDict Value → TextDict Value → TextDict Value
unfolding truthy to_str set_default to_fields
write_decision py node_id context_prompt_key normalized shared =
    let approved = truthy (get_or normalized "approved" (bool false)) in
    let modified = get_or normalized "modified_prompt" null in
    let comment = get_or normalized "comment" null in
    let noted = insert (context_key node_id) (obj (to_fields normalized)) shared in
    let flagged = insert (flag_key node_id) (bool approved) noted in
    let prompted =
      if truthy modified
      then insert context_prompt_key (str (to_str py modified))
          (insert (prompt_key node_id) modified flagged)
      else if approved
      then set_default context_prompt_key (str "Proceed with standard review.") flagged
      else flagged in
    if truthy comment
    then insert (comment_key node_id) (str (to_str py comment)) prompted
    else prompted

unfoldable pub apply_payload : Python → String → TextDict Value → String → Context → Context
unfolding normalize_payload write_decision
apply_payload py node_id payload context_prompt_key ctx = record ctx {
  shared_context =
      write_decision py node_id context_prompt_key (normalize_payload py payload)
        ctx.shared_context;
}

-- `evaluate` reads the context and changes nothing. A payload of None is as good as none.
abbrev is_none : Option Value → Bool
is_none none = true
is_none (some null) = true
is_none (some v) = false

unfoldable pub evaluate : Python → HumanNode → TextDict Value → NodeResult
unfolding truthy to_str
evaluate py h shared =
    let modified = get_or shared (prompt_key h.node_id) (str "") in
    let comment = get_or shared (comment_key h.node_id) (str "") in
    if is_none (lookup (context_key h.node_id) shared)
    then record {
      node_id = h.node_id;
      status = NodeStatus.waiting_approval;
      success = false;
      output = h.prompt;
      payload =
          ("awaiting", bool true)
          ∷ ("allow_modify_prompt", bool h.allow_modify_prompt)
          ∷ ("actions", arr (cons (str "approve") (cons (str "reject") (cons (str "modify") nil))))
          ∷ [];
      error = "";
      attempts = 1;
    }
    else if truthy (get_or shared (flag_key h.node_id) (bool false))
    then record {
      node_id = h.node_id;
      status = NodeStatus.completed;
      success = true;
      output =
          if truthy modified
          then str_append "Approved with modified prompt: " (to_str py modified)
          else "Approved";
      payload = ("approved", bool true) ∷ ("modified_prompt", modified) ∷ [];
      error = "";
      attempts = 1;
    }
    else record {
      node_id = h.node_id;
      status = NodeStatus.failed;
      success = false;
      output =
          if truthy comment
          then str_append "Rejected by human reviewer" (str_append ": " (to_str py comment))
          else "Rejected by human reviewer";
      payload = ("approved", bool false) ∷ [];
      error = "approval_rejected";
      attempts = 1;
    }
