-- ===== src/Workflow/Execute/Refused.antt =====
-- When a node of backend/app/workflow/executor.py raises.
use enterprise_ai_agent.Prelude.{
  ℕ, zero, suc, ◌≡◌, some, String, ◌∙◌, ap, refl, arith, Bool-cases, Option-cases, inl, inr,
}
use enterprise_ai_agent.Prelude.Text.{str_eq}
use enterprise_ai_agent.Prelude.TextDict.{lookup}
use enterprise_ai_agent.Workflow.Node.{
  null, str, agent, tool, human_approval, conditional, WorkflowNode, NodeType,
}
use enterprise_ai_agent.Workflow.Value.{Python, dict_field, to_str}
use enterprise_ai_agent.Workflow.Graph.{WorkflowGraph, Raises, raised, Raises-cases}
use enterprise_ai_agent.Workflow.Human.{get_or}
use enterprise_ai_agent.Workflow.Context.{NodeResult, Context, is_failed}
use enterprise_ai_agent.Workflow.Execute.{
  Services, retries_of, run_agent_node, run_tool_node, execute_node, attempt, execute_with_recovery,
}

-- The field that has to be a dictionary is none, and Python refuses to make one of it.
pub data Refused (py : Python) (node : WorkflowNode) (e : String) : Type 0 where
  metadata :
      node.type ≡ agent
      → dict_field py (get_or node.config "metadata" null) ≡ raised e
      → Refused py node e
  arguments :
      node.type ≡ tool
      → dict_field py (get_or node.config "arguments" null) ≡ raised e
      → Refused py node e

-- A node of the graph is refused.
pub record Refuses (py : Python) (g : WorkflowGraph) (e : String) : Type 0 where
  pub id : String
  pub node : WorkflowNode
  pub known : lookup id g.nodes ≡ some node
  pub refused : Refused py node e

raised-inj : {x e : String} → ◌≡◌ {A = Raises NodeResult} (raised x) (raised e) → x ≡ e
raised-inj h = cc

module _ {W : Type 0} (py : Python) (services : Services W) where
  run_agent_node-raised :
      (node : WorkflowNode) (ctx : Context) (w : W) (e : String)
      → (run_agent_node py services node ctx w).0 ≡ raised e
      → dict_field py (get_or node.config "metadata" null) ≡ raised e
  unfolding run_agent_node
  run_agent_node-raised node ctx w e h =
      elim (Bool-cases
        (str_eq (py.strip (to_str py (get_or node.config "agent_name" (str "")))) "")) [
          | inl t ↦ absurd (ground (arith, h, t))
          | inr t ↦ elim (Raises-cases (dict_field py (get_or node.config "metadata" null))) [
            | inl (x, f) ↦
                f ∙ ap (λ (m : String). raised m) (raised-inj (rw (t, f, run_agent_node) at h))
            | inr (fs, f) ↦ absurd (ground (arith, h, t, f))
          ]
        ]

  run_tool_node-raised :
      (node : WorkflowNode) (ctx : Context) (w : W) (e : String)
      → (run_tool_node py services node ctx w).0 ≡ raised e
      → dict_field py (get_or node.config "arguments" null) ≡ raised e
  unfolding run_tool_node
  run_tool_node-raised node ctx w e h = elim (Option-cases services.execute_tool) [
    | inl t ↦ absurd (ground (arith, h, t))
    | inr (run_tool, t) ↦
        elim (Raises-cases (dict_field py (get_or node.config "arguments" null))) [
          | inl (x, f) ↦
              f ∙ ap (λ (m : String). raised m) (raised-inj (rw (t, f, run_tool_node) at h))
          | inr (fs, f) ↦ absurd (ground (arith, h, t, f))
        ]
  ]

  refused_as :
      (node : WorkflowNode) (ctx : Context) (w : W) (e : String) (type : NodeType)
      → node.type ≡ type
      → (execute_node py services node ctx w).0 ≡ raised e
      → Refused py node e
  unfolding execute_node
  refused_as node ctx w e agent k h =
      metadata k (run_agent_node-raised node ctx w e (rw (k, execute_node) at h))
  refused_as node ctx w e tool k h =
      arguments k (run_tool_node-raised node ctx w e (rw (k, execute_node) at h))
  refused_as node ctx w e human_approval k h = absurd (ground (arith, h, k))
  refused_as node ctx w e conditional k h = absurd (ground (arith, h, k))

  attempt-Refused :
      (left made : ℕ) (node : WorkflowNode) (ctx : Context) (w : W) (e : String)
      → (attempt py services left made node ctx w).0 ≡ raised e
      → Refused py node e
  unfolding attempt
  attempt-Refused zero made node ctx w e h =
      elim (Raises-cases (execute_node py services node ctx w).0) [
        | inl (x, f) ↦ refused_as node ctx w e node.type refl (f ∙ (rw (f, attempt) at h))
        | inr (r, f) ↦ absurd (ground (arith, h, f))
      ]
  attempt-Refused (suc left) made node ctx w e h =
      let run = execute_node py services node ctx w in
      elim (Raises-cases (execute_node py services node ctx w).0) [
        | inl (x, f) ↦ refused_as node ctx w e node.type refl (f ∙ (rw (f, attempt) at h))
        | inr (r, f) ↦ elim (Bool-cases (is_failed r.status)) [
          | inl t ↦ attempt-Refused left (suc made) node run.1 run.2 e (rw (f, t, attempt) at h)
          | inr t ↦ absurd (ground (arith, h, f, t))
        ]
      ]

  pub execute_with_recovery-Refused :
      (node : WorkflowNode) (ctx : Context) (w : W) (e : String)
      → (execute_with_recovery py services node ctx w).0 ≡ raised e
      → Refused py node e
  unfolding execute_with_recovery
  execute_with_recovery-Refused node ctx w e h =
      attempt-Refused (retries_of node.max_retries) 0 node ctx w e h
