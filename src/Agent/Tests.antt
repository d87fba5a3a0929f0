-- ===== src/Agent/Tests.antt =====
-- Runs of agent-loop.ts and tool-call-repair.ts at concrete inputs.
use crabbykit.Prelude.{
  units, ℕ, ◌+◌, ◌≤◌, String, ◌≡◌, refl, string_eq, false, none, some, [], ◌∷◌, arith,
  if◌then◌else◌, nat_beq,
}
use crabbykit.Agent.{
  ToolCall, text, tool_call, AssistantMessage, user, proceed, valid, Config, Run, Response, start,
  done, assistant, error, stop, tool_use, sequential, parallel, ToolExecutionMode,
}
use mathlib.Core.List.{Perm}
use crabbykit.Agent.Names.{levenshtein, find_closest_tool, repair_tool_name}
use crabbykit.Agent.Names.Distance.{Edits, levenshtein-Edits}
use crabbykit.Agent.Tools.{execute_tool_calls, tool_calls, create_error_tool_result}
use crabbykit.Agent.Tools.Answers.{answered, called, execute_tool_calls-answered}
use crabbykit.Agent.Loop.{run_agent_loop, start_loop, returned}
use crabbykit.Agent.Loop.Ends.{start_loop_total}
use crabbykit.Agent.Loop.Context.{IsEnded, run_agent_loop-IsEnded}
use crabbykit.Agent.Class.{AgentState, run_prompts}

run : Unit {0}
unfolding execute_tool_calls run_agent_loop run_prompts create_error_tool_result tool_calls
    levenshtein units find_closest_tool repair_tool_name
run = tt

abbrev call_of : String → String → ToolCall
call_of id name = record { id = id; name = name; arguments = "{}" }

-- Two calls: of a tool that is there, after one of a tool that is not.
abbrev asks : AssistantMessage
asks = record {
  content =
      text "Let me see." ∷ tool_call (call_of "a" "Read") ∷ tool_call (call_of "b" "raed") ∷ [];
  stop_reason = tool_use;
  error_message = none;
  timestamp = 1;
}

abbrev says : AssistantMessage
says = record {
  content = text "Done." ∷ [];
  stop_reason = stop;
  error_message = none;
  timestamp = 2;
}

-- The world counts the responses: the first asks for tools.
abbrev response : ℕ → Response
response n =
    let m = (if nat_beq n 0 then asks else says) in
    record { events = start m ∷ done ∷ []; result = m }

abbrev config : ToolExecutionMode → Config ℕ
config mode = record {
  tools = record { name = "write" } ∷ record { name = "read" } ∷ [];
  tool_execution = mode;
  max_iterations = none;
  max_stream_retries = none;
  base_retry_delay_ms = none;
  get_steering_messages = λ n. ([], n);
  get_follow_up_messages = λ n. ([], n);
  transform_context = λ ms n. (ms, n);
  convert_to_llm = λ ms n. (ms, n);
  stream_fn = λ ms n. (response n, n + 1);
  validate_tool_arguments = λ t call. valid call.arguments;
  before_tool_call = λ m call a ms n. (proceed, n);
  execute = λ t a call n. (
    record { updates = "half" ∷ []; outcome = some (create_error_tool_result t.name); thrown = "" },
    n,
  );
  after_tool_call = λ m call r e n. (none, n);
  is_aborted = λ n. false;
  wait = λ d n. n;
  now = λ n. n;
}

-- A model that is overloaded at first, and then answers.
abbrev overloaded : AssistantMessage
overloaded = record says { content = []; stop_reason = error; error_message = some "overloaded" }

abbrev flaky : Config ℕ
flaky = record (config parallel) {
  stream_fn = λ ms n. (
    let m = (if nat_beq n 0 then overloaded else says) in
        record { events = start m ∷ done ∷ []; result = m },
    n + 1,
  );
}

abbrev at_start : Run ℕ
at_start = record { context = user "hi" ∷ []; new_messages = []; events = []; world = 0 }

-- A batch puts the errors of what it could not prepare before the results of what it ran.
abbrev swapped : AssistantMessage
swapped = record asks {
  content =
      tool_call (call_of "a" "read")
      ∷ tool_call (call_of "b" "raed")
      ∷ tool_call (call_of "c" "write")
      ∷ [];
}

in_order :
    answered (execute_tool_calls (config sequential) swapped at_start).0 ≡ "a" ∷ "b" ∷ "c" ∷ []
unfolding run
in_order = refl

errors_first :
    answered (execute_tool_calls (config parallel) swapped at_start).0 ≡ "b" ∷ "a" ∷ "c" ∷ []
unfolding run
errors_first = refl

suggests : find_closest_tool "raed" (config parallel).tools ≡ some "read"
unfolding run
suggests = refl

execute_tool_calls-answered_example :
    Perm
      (answered (execute_tool_calls (config parallel) swapped at_start).0)
      (called (tool_calls swapped.content))
execute_tool_calls-answered_example = execute_tool_calls-answered (config parallel) swapped at_start

start_loop_total_example : (start_loop (config parallel) at_start).0 ≡ returned
start_loop_total_example = start_loop_total (config parallel) at_start

run_agent_loop-IsEnded_example :
    ((run_agent_loop (config sequential) (user "read it" ∷ []) [] 0).0 ≡ returned)
    × IsEnded [] (run_agent_loop (config sequential) (user "read it" ∷ []) [] 0).1
run_agent_loop-IsEnded_example =
    run_agent_loop-IsEnded (config sequential) (user "read it" ∷ []) [] 0 (λ ms n. omega arith)

abbrev idle : AgentState
idle = record {
  messages = user "before" ∷ [];
  is_streaming = false;
  stream_message = none;
  pending_tool_calls = [];
  error = none;
}

-- The agent keeps the response that was streamed again, which the loop's context has no more.
kept_by_agent :
    (run_prompts flaky (user "read it" ∷ []) idle 0).0.messages
    ≡ user "before" ∷ user "read it" ∷ assistant overloaded ∷ assistant says ∷ []
unfolding run
kept_by_agent = refl

dropped_by_loop :
    (run_agent_loop flaky (user "read it" ∷ []) (user "before" ∷ []) 0).1.context
    ≡ user "before" ∷ user "read it" ∷ assistant says ∷ []
unfolding run
dropped_by_loop = refl

levenshtein-Edits_example :
    Edits (units "raed") (units "read") (levenshtein (units "raed") (units "read"))
    × ((n : ℕ)
        → Edits (units "raed") (units "read") n
        → levenshtein (units "raed") (units "read") ≤ n)
levenshtein-Edits_example = levenshtein-Edits (units "raed") (units "read")

two_edits : levenshtein (units "raed") (units "read") ≡ 2
unfolding run
two_edits = refl
