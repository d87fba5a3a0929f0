-- ===== src/Agent/Tools.antt =====
-- The tool calls of agent-loop.ts: their preparation, execution and outcome, one by one or in a
-- batch. The executions of a batch run here one after another, in the order in which the source
-- starts them.
pub mod Quiet
pub mod Answers
use crabbykit.Prelude.{
  ℕ, String, Bool, true, false, Option, none, some, List, [], ◌∷◌, ◌++◌, ◌==◌, string_eq,
  if◌then◌else◌, get_or_else, truthy,
}
use crabbykit.Agent.{
  ToolCall, Content, text, thinking, image, tool_call, AssistantMessage, ToolResult,
  ToolResultMessage, Message, tool_result, AgentEvent, message_start, message_end,
  tool_execution_start, tool_execution_update, tool_execution_end, Tool, proceed, block, throws,
  Validation, valid, invalid, BeforeToolCall, AfterToolCall, Execution, Config, Run,
  ToolExecutionMode, sequential, parallel,
}
use crabbykit.Agent.Names.{repair_tool_name, build_tool_not_found_error}

-- `message.content.filter((c) => c.type === "toolCall")`
unfoldable pub tool_calls : List Content → List ToolCall
tool_calls [] = []
tool_calls (tool_call c ∷ content) = c ∷ tool_calls content
tool_calls (text _ ∷ content) = tool_calls content
tool_calls (thinking _ ∷ content) = tool_calls content
tool_calls (image _ ∷ content) = tool_calls content

-- `tools.find((t) => t.name === toolCall.name)`
unfoldable pub find_tool : String → List Tool → Option Tool
find_tool name [] = none
find_tool name (t ∷ tools) =
    let rest = find_tool name tools in if t.name == name then some t else rest

unfoldable pub resolve_tool : String → List Tool → Option Tool
unfolding find_tool
resolve_tool name tools = elim (find_tool name tools) [
  | some t ↦ some t
  | none ↦ repair_tool_name name tools
]

unfoldable pub create_error_tool_result : String → ToolResult
create_error_tool_result message = record { content = text message ∷ []; details = "{}" }

pub record PreparedToolCall : Type 0 where
  pub call : ToolCall
  pub tool : Tool
  pub arguments : String

pub data Preparation : Type 0 where
  prepared : PreparedToolCall → Preparation
  immediate : ToolResult → Preparation

module _ {W : Type 0} where
  abbrev pub emit : AgentEvent → Run W → Run W
  emit e s = record s { events = s.events ++ e ∷ [] }

  abbrev pub with_world : W → Run W → Run W
  with_world w s = record s { world = w }

  unfoldable pub emit_tool_call_outcome :
      Config W → ToolCall → ToolResult → Bool → Run W → ToolResultMessage × Run W
  emit_tool_call_outcome c call result is_error s =
      let message : ToolResultMessage = record {
        tool_call_id = call.id;
        tool_name = call.name;
        content = result.content;
        details = result.details;
        is_error = is_error;
        timestamp = c.now s.world;
      } in
      (
        message,
        emit (message_end (tool_result message)) (
            emit (message_start (tool_result message))
              (emit (tool_execution_end call result is_error) s)),
      )

module _ {W : Type 0} (c : Config W) where
  unfoldable pub after_before : ToolCall → Tool → String → BeforeToolCall → Preparation
  unfolding create_error_tool_result
  after_before call tool arguments proceed =
      prepared (record { call = call; tool = tool; arguments = arguments })
  after_before call tool arguments (block reason) =
      immediate
        (create_error_tool_result (get_or_else (truthy reason) "Tool execution was blocked"))
  after_before call tool arguments (throws message) = immediate (create_error_tool_result message)

  -- The `try` of `prepareToolCall`.
  unfoldable pub after_validation :
      AssistantMessage → ToolCall → Tool → Validation → Run W → Preparation × Run W
  unfolding after_before create_error_tool_result
  after_validation m call tool (invalid message) s =
      (immediate (create_error_tool_result message), s)
  after_validation m call tool (valid arguments) s =
      let (before, w) = c.before_tool_call m call arguments s.context s.world in
      (after_before call tool arguments before, with_world w s)

  unfoldable pub prepare_with :
      AssistantMessage → ToolCall → Option Tool → Run W → Preparation × Run W
  unfolding after_validation create_error_tool_result
  prepare_with m call none s =
      (immediate (create_error_tool_result (build_tool_not_found_error call.name c.tools)), s)
  prepare_with m call (some tool) s =
      after_validation m call tool (c.validate_tool_arguments tool call) s

  unfoldable pub prepare_tool_call : AssistantMessage → ToolCall → Run W → Preparation × Run W
  unfolding prepare_with resolve_tool
  prepare_tool_call m call s = prepare_with m call (resolve_tool call.name c.tools) s

  abbrev pub updates_of : ToolCall → List String → List AgentEvent
  updates_of call [] = []
  updates_of call (u ∷ updates) = tool_execution_update call u ∷ updates_of call updates

  -- The result of an execution, and whether it is an error.
  abbrev pub outcome_of : Execution → ToolResult × Bool
  outcome_of x = elim x.outcome [
    | none ↦ (create_error_tool_result x.thrown, true)
    | some result ↦ (result, false)
  ]

  unfoldable pub execute_prepared_tool_call : PreparedToolCall → Run W → (ToolResult × Bool) × Run W
  unfolding create_error_tool_result
  execute_prepared_tool_call p s =
      let (x, w) = c.execute p.tool p.arguments p.call s.world in
      (outcome_of x, record s { events = s.events ++ updates_of p.call x.updates; world = w })

  -- `afterResult.content ?? result.content`, and so on.
  abbrev pub overridden : ToolResult → Bool → Option AfterToolCall → ToolResult × Bool
  overridden result is_error none = (result, is_error)
  overridden result is_error (some after) = (
    record {
      content = get_or_else after.content result.content;
      details = get_or_else after.details result.details;
    },
    get_or_else after.is_error is_error,
  )

  unfoldable pub finalize_executed_tool_call :
      AssistantMessage → PreparedToolCall → ToolResult → Bool → Run W → ToolResultMessage × Run W
  unfolding emit_tool_call_outcome
  finalize_executed_tool_call m p executed failed s =
      let (after, w) = c.after_tool_call m p.call executed failed s.world in
      let (result, is_error) = overridden executed failed after in
      emit_tool_call_outcome c p.call result is_error (with_world w s)

  unfoldable pub run_prepared :
      AssistantMessage → PreparedToolCall → Run W → ToolResultMessage × Run W
  unfolding execute_prepared_tool_call finalize_executed_tool_call
  run_prepared m p s =
      let ((result, is_error), s1) = execute_prepared_tool_call p s in
      finalize_executed_tool_call m p result is_error s1

  unfoldable pub run_preparation :
      AssistantMessage → ToolCall → Preparation → Run W → ToolResultMessage × Run W
  unfolding emit_tool_call_outcome run_prepared
  run_preparation m call (immediate result) s = emit_tool_call_outcome c call result true s
  run_preparation m call (prepared p) s = run_prepared m p s

  -- One round of the loop of `executeToolCallsSequential`.
  unfoldable pub run_call : AssistantMessage → ToolCall → Run W → ToolResultMessage × Run W
  unfolding prepare_tool_call run_preparation
  run_call m call s =
      let (preparation, s1) = prepare_tool_call m call (emit (tool_execution_start call) s) in
      run_preparation m call preparation s1

  unfoldable pub execute_tool_calls_sequential :
      AssistantMessage → List ToolCall → Run W → List ToolResultMessage × Run W
  unfolding run_call
  execute_tool_calls_sequential m [] s = ([], s)
  execute_tool_calls_sequential m (call ∷ calls) s =
      let (r, s1) = run_call m call s in
      let (results, s2) = execute_tool_calls_sequential m calls s1 in (r ∷ results, s2)

  -- What a preparation adds to the immediate results and to the runnable calls.
  unfoldable pub sort_preparation :
      ToolCall → Preparation → Run W → (List ToolResultMessage × List PreparedToolCall) × Run W
  unfolding emit_tool_call_outcome
  sort_preparation call (immediate result) s =
      let (r, s1) = emit_tool_call_outcome c call result true s in ((r ∷ [], []), s1)
  sort_preparation call (prepared p) s = (([], p ∷ []), s)

  -- The first loop of `executeToolCallsParallel`.
  unfoldable pub prepare_all :
      AssistantMessage
      → List ToolCall
      → Run W
      → (List ToolResultMessage × List PreparedToolCall) × Run W
  unfolding prepare_tool_call sort_preparation
  prepare_all m [] s = (([], []), s)
  prepare_all m (call ∷ calls) s =
      let (preparation, s1) = prepare_tool_call m call (emit (tool_execution_start call) s) in
      let ((results, runnable), s2) = sort_preparation call preparation s1 in
      let ((more_results, more_runnable), s3) = prepare_all m calls s2 in
      ((results ++ more_results, runnable ++ more_runnable), s3)

  unfoldable pub run_all_prepared :
      AssistantMessage → List PreparedToolCall → Run W → List ToolResultMessage × Run W
  unfolding run_prepared
  run_all_prepared m [] s = ([], s)
  run_all_prepared m (p ∷ runnable) s =
      let (r, s1) = run_prepared m p s in
      let (results, s2) = run_all_prepared m runnable s1 in (r ∷ results, s2)

  unfoldable pub execute_tool_calls_parallel :
      AssistantMessage → List ToolCall → Run W → List ToolResultMessage × Run W
  unfolding prepare_all run_all_prepared
  execute_tool_calls_parallel m calls s =
      let ((results, runnable), s1) = prepare_all m calls s in
      let (more, s2) = run_all_prepared m runnable s1 in (results ++ more, s2)

  unfoldable pub execute_in :
      ToolExecutionMode → AssistantMessage → Run W → List ToolResultMessage × Run W
  unfolding execute_tool_calls_sequential execute_tool_calls_parallel tool_calls
  execute_in sequential m s = execute_tool_calls_sequential m (tool_calls m.content) s
  execute_in parallel m s = execute_tool_calls_parallel m (tool_calls m.content) s

  unfoldable pub execute_tool_calls : AssistantMessage → Run W → List ToolResultMessage × Run W
  unfolding execute_in
  execute_tool_calls m s = execute_in c.tool_execution m s
