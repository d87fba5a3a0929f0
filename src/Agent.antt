-- ===== src/Agent.antt =====
-- The agent loop, packages/runtime/agent-core/src: the messages, events and configuration of
-- types.ts. Of an assistant message and a content block the model has what the loop reads; what
-- JSON values and images hold is their text.
pub mod Names
pub mod Transient
pub mod Tools
pub mod Loop
pub mod Class
mod Tests
use crabbykit.Prelude.{ℕ, String, Bool, Option, List}

pub data ToolExecutionMode : Type 0 where
  sequential parallel : ToolExecutionMode

pub data StopReason : Type 0 where
  stop length tool_use error aborted : StopReason

pub record ToolCall : Type 0 where
  pub id : String
  pub name : String
  pub arguments : String

pub data Content : Type 0 where
  text thinking image : String → Content
  tool_call : ToolCall → Content

pub record AssistantMessage : Type 0 where
  pub content : List Content
  pub stop_reason : StopReason
  pub error_message : Option String
  pub timestamp : ℕ

pub record ToolResult : Type 0 where
  pub content : List Content
  pub details : String

pub record ToolResultMessage : Type 0 where
  pub tool_call_id : String
  pub tool_name : String
  pub content : List Content
  pub details : String
  pub is_error : Bool
  pub timestamp : ℕ

pub data Message : Type 0 where
  user custom : String → Message
  assistant : AssistantMessage → Message
  tool_result : ToolResultMessage → Message

pub data AgentEvent : Type 0 where
  agent_start turn_start : AgentEvent
  agent_end : List Message → AgentEvent
  turn_end : AssistantMessage → List ToolResultMessage → AgentEvent
  message_start message_update message_end : Message → AgentEvent
  tool_execution_start : ToolCall → AgentEvent
  tool_execution_update : ToolCall → String → AgentEvent
  tool_execution_end : ToolCall → ToolResult → Bool → AgentEvent

-- What the stream of a response yields: its start, a change, or its end. Each of the first two
-- carries the message so far.
pub data StreamEvent : Type 0 where
  start delta : AssistantMessage → StreamEvent
  done : StreamEvent

pub record Response : Type 0 where
  pub events : List StreamEvent
  pub result : AssistantMessage

-- A tool's name is what the loop reads; `execute` is a field of the configuration below.
pub record Tool : Type 0 where
  pub name : String

pub data BeforeToolCall : Type 0 where
  proceed : BeforeToolCall
  block : Option String → BeforeToolCall
  throws : String → BeforeToolCall

pub record AfterToolCall : Type 0 where
  pub content : Option (List Content)
  pub details : Option String
  pub is_error : Option Bool

-- What `validateToolArguments` returns or throws.
pub data Validation : Type 0 where
  valid invalid : String → Validation

-- What a tool does: the updates that it reports, and its result or the message of what it throws.
pub record Execution : Type 0 where
  pub updates : List String
  pub outcome : Option ToolResult
  pub thrown : String

-- `AgentLoopConfig` and what the loop is given with it. `W` is the state of everything around the
-- loop, which each callback may change; none of them rejects, as their contracts say.
pub record Config (W : Type 0) : Type 0 where
  pub tools : List Tool
  pub tool_execution : ToolExecutionMode
  pub max_iterations : Option ℕ
  pub max_stream_retries : Option ℕ
  pub base_retry_delay_ms : Option ℕ
  pub get_steering_messages : W → List Message × W
  pub get_follow_up_messages : W → List Message × W
  pub transform_context : List Message → W → List Message × W
  pub convert_to_llm : List Message → W → List Message × W
  pub stream_fn : List Message → W → Response × W
  pub validate_tool_arguments : Tool → ToolCall → Validation
  pub before_tool_call :
      AssistantMessage → ToolCall → String → List Message → W → BeforeToolCall × W
  pub execute : Tool → String → ToolCall → W → Execution × W
  pub after_tool_call :
      AssistantMessage → ToolCall → ToolResult → Bool → W → Option AfterToolCall × W
  pub is_aborted : W → Bool
  pub wait : ℕ → W → W
  pub now : W → ℕ

-- The variables of a run: `currentContext.messages`, `newMessages`, what has been emitted, and the
-- world.
pub record Run (W : Type 0) : Type 0 where
  pub context : List Message
  pub new_messages : List Message
  pub events : List AgentEvent
  pub world : W
