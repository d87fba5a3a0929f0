-- ===== src/Agent/Class.antt =====
-- The `Agent` class of agent.ts: its queues, and how it follows a run's events. The options that it
-- only hands on to the loop, and its getters and setters, are left out.
pub mod Follows
use crabbykit.Prelude.{
  ℕ, String, Bool, true, false, not, Option, none, some, List, [], ◌∷◌, ◌++◌, ◌==◌, string_eq,
  if◌then◌else◌, filter, nat_beq, length, truthy, any,
}
use crabbykit.Agent.{
  Content, text, AssistantMessage, Message, user, custom, assistant, tool_result, AgentEvent,
  agent_start, turn_start, agent_end, turn_end, message_start, message_update, message_end,
  tool_execution_start, tool_execution_update, tool_execution_end, Config, Run, ToolCall,
  StopReason, error, aborted,
}
use crabbykit.Agent.Loop.{Exit, run_agent_loop, run_agent_loop_continue, ends_with_assistant}

pub data QueueMode : Type 0 where
  all one_at_a_time : QueueMode

pub record AgentState : Type 0 where
  pub messages : List Message
  pub is_streaming : Bool
  pub stream_message : Option Message
  pub pending_tool_calls : List String
  pub error : Option String

pub record Queues : Type 0 where
  pub steering_queue : List Message
  pub follow_up_queue : List Message
  pub steering_mode : QueueMode
  pub follow_up_mode : QueueMode

unfoldable pub steer : Message → Queues → Queues
steer m q = record q { steering_queue = q.steering_queue ++ m ∷ [] }

unfoldable pub follow_up : Message → Queues → Queues
follow_up m q = record q { follow_up_queue = q.follow_up_queue ++ m ∷ [] }

unfoldable pub clear_all_queues : Queues → Queues
clear_all_queues q = record q { steering_queue = []; follow_up_queue = [] }

unfoldable pub has_queued_messages : Queues → Bool
has_queued_messages q = elim q.steering_queue [
  | _ ∷ _ ↦ true
  | [] ↦ elim q.follow_up_queue [ _ ∷ _ ↦ true | [] ↦ false ]
]

-- What a queue gives in its mode, and what stays in it.
unfoldable pub dequeue : QueueMode → List Message → List Message × List Message
dequeue one_at_a_time [] = ([], [])
dequeue one_at_a_time (m ∷ queue) = (m ∷ [], queue)
dequeue all queue = (queue, [])

unfoldable pub dequeue_steering_messages : Queues → List Message × Queues
unfolding dequeue
dequeue_steering_messages q =
    let (messages, rest) = dequeue q.steering_mode q.steering_queue in
    (messages, record q { steering_queue = rest })

unfoldable pub dequeue_follow_up_messages : Queues → List Message × Queues
unfolding dequeue
dequeue_follow_up_messages q =
    let (messages, rest) = dequeue q.follow_up_mode q.follow_up_queue in
    (messages, record q { follow_up_queue = rest })

-- `new Set(…)` with one id more, or without one.
abbrev add_id : String → List String → List String
add_id id ids = if any (λ k. k == id) ids then ids else ids ++ id ∷ []

abbrev remove_id : String → List String → List String
remove_id id ids = filter (λ k. not (k == id)) ids

abbrev error_after : Option String → Option String → Option String
error_after none e = e
error_after (some m) e = some m

unfoldable pub process_loop_event : AgentEvent → AgentState → AgentState
process_loop_event (message_start m) a = record a { stream_message = some m }
process_loop_event (message_update m) a = record a { stream_message = some m }
process_loop_event (message_end m) a = record a {
  stream_message = none;
  messages = a.messages ++ m ∷ [];
}
process_loop_event (tool_execution_start call) a = record a {
  pending_tool_calls = add_id call.id a.pending_tool_calls;
}
process_loop_event (tool_execution_end call _ _) a = record a {
  pending_tool_calls = remove_id call.id a.pending_tool_calls;
}
process_loop_event (turn_end m _) a = record a {
  error = error_after (truthy m.error_message) a.error;
}
process_loop_event (agent_end _) a = record a { is_streaming = false; stream_message = none }
process_loop_event agent_start a = a
process_loop_event turn_start a = a
process_loop_event (tool_execution_update _ _) a = a

unfoldable pub process_loop_events : List AgentEvent → AgentState → AgentState
unfolding process_loop_event
process_loop_events [] a = a
process_loop_events (e ∷ events) a = process_loop_events events (process_loop_event e a)

unfoldable pub reset : AgentState × Queues → AgentState × Queues
unfolding clear_all_queues
reset (a, q) = (
  record {
    messages = [];
    is_streaming = false;
    stream_message = none;
    pending_tool_calls = [];
    error = none;
  },
  clear_all_queues q,
)

-- The state as `_runLoop` begins, and its `finally`.
abbrev pub begin_run : AgentState → AgentState
begin_run a = record a { is_streaming = true; stream_message = none; error = none }

abbrev pub end_run : AgentState → AgentState
end_run a = record a { is_streaming = false; stream_message = none; pending_tool_calls = [] }

module _ {W : Type 0} (c : Config W) where
  -- `_runLoop` from prompts, where the loop does not reject: the events change the agent as they
  -- come, and only what the loop does not read.
  unfoldable pub run_prompts : List Message → AgentState → W → AgentState × W
  unfolding process_loop_events run_agent_loop
  run_prompts prompts a w =
      let r = (run_agent_loop c prompts a.messages w).1 in
      (end_run (process_loop_events r.events (begin_run a)), r.world)

  -- `none` is the error that a prompt is being processed.
  unfoldable pub prompt : List Message → AgentState → W → Option (AgentState × W)
  unfolding run_prompts
  prompt prompts a w = if a.is_streaming then none else some (run_prompts prompts a w)

-- The config that `_runLoop` builds: its world has the queues, and whether the first poll for
-- steering messages is to be skipped.
pub record World (V : Type 0) : Type 0 where
  pub queues : Queues
  pub skip_initial_steering_poll : Bool
  pub rest : V

module _ {V : Type 0} where
  unfoldable pub poll_steering : World V → List Message × World V
  unfolding dequeue_steering_messages
  poll_steering w =
      let (messages, q) = dequeue_steering_messages w.queues in
      if w.skip_initial_steering_poll
      then ([], record w { skip_initial_steering_poll = false })
      else (messages, record w { queues = q })

  unfoldable pub poll_follow_up : World V → List Message × World V
  unfolding dequeue_follow_up_messages
  poll_follow_up w =
      let (messages, q) = dequeue_follow_up_messages w.queues in (messages, record w { queues = q })

  -- `continue` at an assistant message: what is queued becomes the prompts, and only steering
  -- messages skip the first poll. `none` is the error that nothing is there to continue with.
  unfoldable pub continue_prompts : World V → Option (List Message × World V)
  unfolding dequeue_steering_messages dequeue_follow_up_messages
  continue_prompts w =
      let (steering, q) = dequeue_steering_messages w.queues in
      let (queued, q') = dequeue_follow_up_messages q in
      elim steering [
        | m ∷ more ↦ some (m ∷ more, record w { queues = q; skip_initial_steering_poll = true })
        | [] ↦ elim queued [
          | m ∷ more ↦ some (m ∷ more, record w { queues = q'; skip_initial_steering_poll = false })
          | [] ↦ none
        ]
      ]

module _ {V : Type 0} (c : Config (World V)) where
  -- `_runLoop` without prompts.
  unfoldable pub run_continue : AgentState → World V → Option (AgentState × World V)
  unfolding process_loop_events run_agent_loop_continue
  run_continue a w = elim (run_agent_loop_continue c a.messages w) [
    | none ↦ none
    | some (_, r) ↦ some (end_run (process_loop_events r.events (begin_run a)), r.world)
  ]

  abbrev run_queued : AgentState → Option (List Message × World V) → Option (AgentState × World V)
  run_queued a none = none
  run_queued a (some (prompts, w)) = some (run_prompts c prompts a w)

  -- `continue`; `none` are the errors that a prompt is being processed, that there are no messages,
  -- and that nothing is queued after an assistant message.
  unfoldable pub continue_agent : AgentState → World V → Option (AgentState × World V)
  unfolding run_continue continue_prompts run_prompts
  continue_agent a w =
      if a.is_streaming
      then none
      else (if nat_beq (length a.messages) 0
          then none
          else (if ends_with_assistant c a.messages
              then run_queued a (continue_prompts w)
              else run_continue a w))
