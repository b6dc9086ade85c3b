-- ===== src/Agents/Loop.antt =====
-- `AgentExecutor` of backend/app/agents/executor/agent_executor.py, with `ToolMessageBuilder` and
-- `ObservationBuilder`.
--
-- The language model, the tools and the embodied helper are parameters: they answer anything, or
-- raise, and (but for the helper) change a state `W` of their own. The tracer and the log only record and are left out.
pub mod Rounds
use Prim.Native.String.{◌++◌ as str_append}
use enterprise_ai_agent.Prelude.{
  ℕ, zero, suc, Bool, true, false, Option, none, some, List, [], ◌∷◌, ◌++◌, String, if◌then◌else◌,
}
use enterprise_ai_agent.Prelude.TextDict.{TextDict}
use enterprise_ai_agent.Workflow.Node.{Value}
use enterprise_ai_agent.Agents.Types.{
  ToolCall, Message, ChatResult, ToolResult, AgentResult, Call, gave, raised,
}

-- `is_llm_exception error` says whether the error is an `LLMException`; the error is its message.
pub record Services (W Observation : Type 0) : Type 0 where
  pub chat : List Message → W → Call ChatResult × W
  pub is_llm_exception : W → String → Bool
  pub execute_tool : String → TextDict Value → W → Call ToolResult × W
  pub observe : Option (List ToolCall → List ToolResult → Call (List Observation))

-- `text or ""`
abbrev pub text_of : Option String → String
text_of none = ""
text_of (some t) = t

unfoldable pub format_content : ToolResult → String
format_content r = if r.success then r.content else str_append "[Tool Error] " r.content

-- `ObservationBuilder.build`
unfoldable pub build_observation : ToolResult → ToolCall → Message
unfolding format_content
build_observation r call = record {
  role = "tool";
  content = some (format_content r);
  tool_call_id = some call.id;
  name = some call.name;
  tool_calls = none;
}

unfoldable pub build_assistant_tool_call : List ToolCall → Option String → Message
build_assistant_tool_call calls content = record {
  role = "assistant";
  content = some (text_of content);
  tool_call_id = none;
  name = none;
  tool_calls = some calls;
}

-- The loop over `zip`, which is strict: it raises if the lists differ in length.
unfoldable pub build_observations : List ToolCall → List ToolResult → Option (List Message)
unfolding build_observation
build_observations [] [] = some []
build_observations (call ∷ calls) (r ∷ results) = elim (build_observations calls results) [
  | none ↦ none
  | some ms ↦ some (build_observation r call ∷ ms)
]
build_observations _ _ = none

unfoldable pub build_tool_round :
    List ToolCall → List ToolResult → Option String → Option (List Message)
unfolding build_assistant_tool_call build_observations
build_tool_round calls results content = elim (build_observations calls results) [
  | none ↦ none
  | some ms ↦ some (build_assistant_tool_call calls content ∷ ms)
]

module _ {W Observation : Type 0} (services : Services W Observation) where
  handle_llm_error : W → String → AgentResult Observation
  handle_llm_error w error = record {
    success = false;
    model = "";
    content =
        if services.is_llm_exception w error
        then str_append "LLM service error: " error
        else str_append "Unexpected LLM error: " error;
    observations = [];
  }

  -- `handle_tool_error`: a tool that raises has failed.
  tool_result_of : Call ToolResult → ToolResult
  tool_result_of (gave r) = r
  tool_result_of (raised error) = record { success = false; content = error }

  -- `_execute_tool_calls`
  unfoldable pub execute_tool_calls : List ToolCall → W → List ToolResult × W
  unfolding tool_result_of
  execute_tool_calls [] w = ([], w)
  execute_tool_calls (call ∷ calls) w =
      let (answer, w') = services.execute_tool call.name call.arguments w in
      let (results, w'') = execute_tool_calls calls w' in (tool_result_of answer ∷ results, w'')

  -- `collect_observations` of the embodied helper, if there is one. It stands outside of every `try`.
  observations_of : List ToolCall → List ToolResult → Call (List Observation)
  observations_of calls results = elim services.observe [
    | none ↦ gave []
    | some observe ↦ observe calls results
  ]

  final_answer : ChatResult → List Observation → AgentResult Observation
  final_answer r collected = record {
    success = true;
    model = r.model;
    content = text_of r.content;
    observations = collected;
  }

  exceeded : List Observation → AgentResult Observation
  exceeded collected = record {
    success = false;
    model = "";
    content = "The agent exceeded the maximum number of tool-calling iterations.";
    observations = collected;
  }

  -- The loop of `run`, with the iterations that are left. The list of messages is the caller's, which
  -- is extended in place.
  unfoldable pub iterate :
      ℕ → List Observation → List Message → W → Call (AgentResult Observation) × List Message × W
  unfolding handle_llm_error execute_tool_calls observations_of final_answer exceeded
      build_tool_round
  iterate zero collected messages w = (gave (exceeded collected), messages, w)
  iterate (suc left) collected messages w =
      let (reply, w') = services.chat messages w in
      elim reply [
        | raised error ↦ (gave (handle_llm_error w' error), messages, w')
        | gave result ↦ elim result.tool_calls [
          | [] ↦ (gave (final_answer result collected), messages, w')
          | call ∷ calls ↦
              let (results, w'') = execute_tool_calls (call ∷ calls) w' in
              elim (observations_of (call ∷ calls) results) [
                | raised error ↦ (raised error, messages, w'')
                | gave observed ↦ elim (build_tool_round (call ∷ calls) results result.content) [
                  | none ↦ (raised "zip() arguments differ in length", messages, w'')
                  | some round ↦ iterate left (collected ++ observed) (messages ++ round) w''
                ]
              ]
        ]
      ]

  unfoldable pub run_agent_loop :
      ℕ → List Message → W → Call (AgentResult Observation) × List Message × W
  unfolding iterate
  run_agent_loop max_iterations messages w = iterate max_iterations [] messages w
