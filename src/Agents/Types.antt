-- ===== src/Agents/Types.antt =====
-- The data of the agents: `Message`, `ToolCall` and `ChatResult` of backend/app/llm/types.py,
-- `ToolResult` of backend/app/tools/types.py, `AgentResult` and `AgentContext` of
-- backend/app/agents/types.py, and plans, of backend/app/agents/executor/plan/types.py.
use enterprise_ai_agent.Prelude.{Bool, Option, List, String, ◌≡◌, refl, ◌⊎◌, inl, inr}
use enterprise_ai_agent.Prelude.TextDict.{TextDict}
use enterprise_ai_agent.Workflow.Node.{Value}

pub record ToolCall : Type 0 where
  pub id : String
  pub name : String
  pub arguments : TextDict Value

pub record Message : Type 0 where
  pub role : String
  pub content : Option String
  pub tool_call_id : Option String
  pub name : Option String
  pub tool_calls : Option (List ToolCall)

pub record ChatResult : Type 0 where
  pub model : String
  pub content : Option String
  pub tool_calls : List ToolCall

pub record ToolResult : Type 0 where
  pub success : Bool
  pub content : String

-- `Observation` is a parameter: observations are only collected.
pub record AgentResult (Observation : Type 0) : Type 0 where
  pub success : Bool
  pub model : String
  pub content : String
  pub observations : List Observation

pub data PlanStatus : Type 0 where
  pending running completed failed aborted : PlanStatus

pub data StepStatus : Type 0 where
  pending running completed failed skipped : StepStatus

pub record PlanStep : Type 0 where
  pub id : String
  pub description : String
  pub tool : Option String
  pub status : StepStatus
  pub result : String

pub record Plan : Type 0 where
  pub goal : String
  pub steps : List PlanStep
  pub status : PlanStatus
  pub metadata : TextDict Value

pub record MemoryRecord : Type 0 where
  pub role : String
  pub content : String
  pub metadata : TextDict Value

pub record AgentContext : Type 0 where
  pub session_id : String
  pub user_message : String
  pub history : List MemoryRecord
  pub plan : Option Plan
  pub current_step : Option PlanStep
  pub metadata : TextDict Value
  pub agent_name : String
  pub agent_role : String
  pub shared_context : TextDict Value

-- A call of code outside of the program: it gives a value, or raises with a message.
pub data Call (A : Type 0) : Type 0 where
  gave : A → Call A
  raised : String → Call A

pub Call-cases :
    {A : Type 0} (c : Call A) → ((e : String) × (c ≡ raised e)) ⊎ ((a : A) × (c ≡ gave a))
Call-cases (gave a) = inr (a, refl)
Call-cases (raised e) = inl (e, refl)
