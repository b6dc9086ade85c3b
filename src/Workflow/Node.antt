-- ===== src/Workflow/Node.antt =====
-- `Any` values, and node.py, edge.py of backend/app/workflow.
use enterprise_ai_agent.Prelude.{
  Bool, true, false, Option, none, some, [], ◌∷◌, String, if◌then◌else◌,
}
use enterprise_ai_agent.Prelude.Int.{ℤ, pos}
use enterprise_ai_agent.Prelude.Text.{str_eq}
use enterprise_ai_agent.Prelude.TextDict.{TextDict, insert}

-- The values of the program's `Any`: of the numbers only the integers.
mutual
  pub data Value : Type 0 where
    null : Value
    bool : Bool → Value
    int : ℤ → Value
    str : String → Value
    arr : Items → Value
    obj : Fields → Value

  pub data Fields : Type 0 where
    blank : Fields
    entry : String → Value → Fields → Fields

  pub data Items : Type 0 where
    nil : Items
    cons : Value → Items → Items

pub data NodeType : Type 0 where
  agent tool human_approval conditional : NodeType

pub record WorkflowNode : Type 0 where
  pub id : String
  pub type : NodeType
  pub name : String
  pub config : TextDict Value
  pub max_retries : ℤ
  pub on_failure : String

pub record WorkflowEdge : Type 0 where
  pub from_id : String
  pub to_id : String
  pub condition : Option String

-- `==` on `str | None`
unfoldable pub same_label : Option String → Option String → Bool
same_label none none = true
same_label none (some b) = false
same_label (some a) none = false
same_label (some a) (some b) = str_eq a b

unfoldable pub matches_branch : WorkflowEdge → Option String → Bool
unfolding same_label
matches_branch e branch = elim e.condition [
  | none ↦ elim branch [ none ↦ true | some b ↦ false ]
  | some c ↦ same_label (some c) branch
]

-- Python's `a or b` on texts.
unfoldable pub or_text : String → String → String
or_text a b = if str_eq a "" then b else a

-- The class methods that make nodes. An empty dictionary of metadata is left out, as None is.
unfoldable pub agent_node :
    (node_id agent_name name message_template : String) (max_retries : ℤ) (on_failure : String)
    → Fields
    → WorkflowNode
unfolding or_text
agent_node node_id agent_name name message_template max_retries on_failure extra_metadata =
    let base = ("agent_name", str agent_name) ∷ ("message_template", str message_template) ∷ [] in
    record {
      id = node_id;
      type = agent;
      name = or_text name agent_name;
      config = elim extra_metadata [
        | blank ↦ base
        | entry k v fs ↦ insert "metadata" (obj (entry k v fs)) base
      ];
      max_retries = max_retries;
      on_failure = on_failure;
    }

unfoldable pub tool_node : (node_id tool_name : String) → Fields → String → WorkflowNode
unfolding or_text
tool_node node_id tool_name arguments name = record {
  id = node_id;
  type = tool;
  name = or_text name tool_name;
  config = ("tool_name", str tool_name) ∷ ("arguments", obj arguments) ∷ [];
  max_retries = pos 0;
  on_failure = "fail";
}

unfoldable pub conditional_node : (node_id source_key : String) → Value → String → WorkflowNode
conditional_node node_id source_key equals name = record {
  id = node_id;
  type = conditional;
  name = name;
  config = ("source_key", str source_key) ∷ ("equals", equals) ∷ [];
  max_retries = pos 0;
  on_failure = "fail";
}
