-- ===== src/Agents/Tests.antt =====
-- Runs of the agent loop and of a plan of backend/app/agents/executor.
use enterprise_ai_agent.Prelude.{
  ℕ, zero, suc, ◌≡◌, refl, true, false, Option, none, some, List, [], ◌∷◌, String, arith,
}
use enterprise_ai_agent.Agents.Types.{
  ToolCall, ChatResult, AgentResult, PlanStatus, StepStatus, PlanStep, Plan, AgentContext, Call,
  gave, raised,
}
use enterprise_ai_agent.Agents.Loop.{Services, run_agent_loop}
use enterprise_ai_agent.Agents.Loop.Rounds.{Ending}
use enterprise_ai_agent.Agents.Build.{RawStep, build_plan}
use enterprise_ai_agent.Agents.Step.{Setting}
use enterprise_ai_agent.Agents.Plan.{run_plan, run_request}
use enterprise_ai_agent.Agents.Plan.Steps.{Done, Ran, run_plan-Ran, run_request-Ending}
use enterprise_ai_agent.Agents.Plan.Built.{run_plan-build_plan}

abbrev search_call : ToolCall
search_call = record { id = "c1"; name = "search"; arguments = [] }

-- A model that asks for a tool first, then answers; the state counts the calls.
abbrev reply : ℕ → ChatResult
reply zero = record { model = "m"; content = none; tool_calls = search_call ∷ [] }
reply (suc n) = record { model = "m"; content = some "done"; tool_calls = [] }

abbrev services : Services ℕ String
services = record {
  chat = λ messages w. (gave (reply w), suc w);
  is_llm_exception = λ w error. false;
  execute_tool = λ name arguments w. (gave (record { success = true; content = "found" }), w);
  observe = none;
}

abbrev setting : Setting ℕ String
setting = record {
  services = services;
  build_prompt = λ context completed w. [];
  max_iterations = 3;
  max_plan_steps = 2;
  max_retries = 1;
}

abbrev step : String → Option String → PlanStep
step id tool = record {
  id = id;
  description = "look";
  tool = tool;
  status = StepStatus.pending;
  result = "";
}

abbrev three_steps : Plan
three_steps = record {
  goal = "find it";
  steps = step "1" none ∷ step "2" (some "search") ∷ step "3" none ∷ [];
  status = PlanStatus.pending;
  metadata = [];
}

abbrev context : AgentContext
context = record {
  session_id = "s";
  user_message = "find it";
  history = [];
  plan = none;
  current_step = none;
  metadata = [];
  agent_name = "";
  agent_role = "";
  shared_context = [];
}

run_plan-Ran_example : Ran setting three_steps (run_plan setting three_steps context [] 0)
run_plan-Ran_example = run_plan-Ran setting three_steps context [] 0

abbrev planner : AgentContext → ℕ → Call Plan × ℕ
planner c w = (gave three_steps, w)

run_request-Ending_example :
    (r : Call (AgentResult String)) × (w : ℕ) × (run_request setting true planner context [] 0
      ≡ some (r, w))
    × Ending services Unit r
run_request-Ending_example = run_request-Ending setting true planner context [] 0

abbrev raw_steps : List RawStep
raw_steps =
    (record { id = none; description = some "look"; tool = none })
    ∷ (record { id = some "b"; description = none; tool = some "search" })
    ∷ []

abbrev decimal : ℕ → String
decimal n = "n"

run_plan-build_plan_example :
    (r : Call (AgentResult String)) × (ended : Plan) × (w : ℕ) × (run_plan setting
        (build_plan decimal "find it" raw_steps 2)
        context
        []
        0
      ≡ some (r, ended, w))
    × Ending services Unit r
    × Done (build_plan decimal "find it" raw_steps 2).steps ended.steps
run_plan-build_plan_example =
    run_plan-build_plan setting decimal "find it" raw_steps context [] 0 (omega arith)

-- A planner that raises: the request is answered without a plan.
planner_down :
    run_request setting true (λ c w. (raised "down", w)) context [] 0
    ≡ some (gave (record { success = true; model = "m"; content = "done"; observations = [] }), 2)
unfolding run_request run_agent_loop
planner_down = refl

-- The tool's answer is no observation: the exception of the embodied helper leaves the loop.
abbrev embodied : Services ℕ String
embodied = record services { observe = some (λ calls results. raised "no JSON") }

helper_raises : (run_agent_loop embodied 3 [] 0).0 ≡ raised "no JSON"
unfolding run_agent_loop
helper_raises = refl
