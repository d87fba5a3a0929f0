-- ===== src/Agent/Loop.antt =====
-- `runLoop` of agent-loop.ts, with the streaming of a response and its retries, and the two ways
-- to start it. The loop runs on fuel, of which it takes one unit for each iteration.
pub mod Ends
pub mod Context
pub mod Retried
pub mod Said
use Prim.Native.Nat.{◌^◌}
use Prim.Native.String
use crabbykit.Prelude.{
  ℕ, zero, suc, ◌+◌, ◌*◌, String, Bool, true, false, ◌||◌, not, Option, none, some, List, [], ◌∷◌,
  ◌++◌, map, if◌then◌else◌, ltb, get_or_else, nat_beq, length, truthy, decimal,
}
use crabbykit.Agent.{
  Content, text, AssistantMessage, ToolResultMessage, Message, user, custom, assistant, tool_result,
  AgentEvent, agent_start, turn_start, agent_end, turn_end, message_start, message_update,
  message_end, StreamEvent, start, delta, done, Response, Config, Run, stop, length as length_stop,
  tool_use, error, aborted,
}
use crabbykit.Agent.Transient.{is_transient}
use crabbykit.Agent.Tools.{emit, with_world, tool_calls, execute_tool_calls}

-- `messages[messages.length - 1] = m`
unfoldable pub set_last : Message → List Message → List Message
set_last m [] = []
set_last m (x ∷ []) = m ∷ []
set_last m (x ∷ y ∷ messages) = x ∷ set_last m (y ∷ messages)

-- `messages.pop()`
unfoldable pub drop_last : List Message → List Message
drop_last [] = []
drop_last (x ∷ []) = []
drop_last (x ∷ y ∷ messages) = x ∷ drop_last (y ∷ messages)

abbrev pub default_max_iterations : ℕ
default_max_iterations = 100

abbrev is_error : AssistantMessage → Bool
is_error m = elim m.stop_reason [ error ↦ true | _ ↦ false ]

abbrev pub ends_run : AssistantMessage → Bool
ends_run m = elim m.stop_reason [ error ↦ true | aborted ↦ true | _ ↦ false ]

-- The message of a run that exceeds its iterations.
unfoldable pub exceeded : ℕ → ℕ → AssistantMessage
unfolding decimal
exceeded limit now = record {
  content =
      text (
        String.◌++◌ "Agent loop terminated: exceeded maximum iterations ("
          (String.◌++◌ (decimal limit) ")."))
      ∷ [];
  stop_reason = error;
  error_message =
      some (String.◌++◌ "Maximum loop iterations (" (String.◌++◌ (decimal limit) ") exceeded"));
  timestamp = now;
}

unfoldable pub is_transient_error : Option String → Bool
unfolding is_transient
is_transient_error message = elim (truthy message) [ none ↦ false | some m ↦ is_transient m ]

unfoldable pub wants_retry : AssistantMessage → Bool
unfolding is_transient_error
wants_retry m = elim (is_error m) [ true ↦ is_transient_error m.error_message | false ↦ false ]

module _ {W : Type 0} where
  abbrev pub push_context : Message → Run W → Run W
  push_context m s = record s { context = s.context ++ m ∷ [] }

  -- The end of a response: its message replaces the partial one, or is added.
  unfoldable pub finish_response : Bool → AssistantMessage → Run W → AssistantMessage × Run W
  unfolding set_last
  finish_response true m s = (
    m,
    emit (message_end (assistant m)) (record s { context = set_last (assistant m) s.context }),
  )
  finish_response false m s = (
    m,
    emit (message_end (assistant m))
        (emit (message_start (assistant m)) (push_context (assistant m) s)),
  )

  -- The `for await` of `streamAssistantResponse`; the flag is `addedPartial`.
  unfoldable pub read_events :
      List StreamEvent → Bool → AssistantMessage → Run W → AssistantMessage × Run W
  unfolding finish_response
  read_events [] added m s = finish_response added m s
  read_events (start p ∷ events) added m s =
      read_events events true m (emit (message_start (assistant p)) (push_context (assistant p) s))
  read_events (delta p ∷ events) true m s = read_events events true m (
      emit (message_update (assistant p)) (record s { context = set_last (assistant p) s.context }))
  read_events (delta p ∷ events) false m s = read_events events false m s
  read_events (done ∷ events) added m s = finish_response added m s

  -- The injection of pending messages.
  unfoldable pub inject : List Message → Run W → Run W
  inject [] s = s
  inject (m ∷ pending) s =
      inject pending (record (emit (message_end m) (emit (message_start m) s)) {
        context = s.context ++ m ∷ [];
        new_messages = s.new_messages ++ m ∷ [];
      })

  -- Tool results are pushed to both lists.
  unfoldable pub push_results : List ToolResultMessage → Run W → Run W
  push_results results s = record s {
    context = s.context ++ map tool_result results;
    new_messages = s.new_messages ++ map tool_result results;
  }

  unfoldable pub exceed : ℕ → ℕ → Run W → Run W
  unfolding exceeded
  exceed limit now s =
      let m = assistant (exceeded limit now) in
      let s1 = record s {
        context = s.context ++ m ∷ [];
        new_messages = s.new_messages ++ m ∷ [];
      } in
      emit (agent_end s1.new_messages)
        (emit (turn_end (exceeded limit now) []) (emit (message_end m) (emit (message_start m) s1)))

-- What a turn leads to.
pub data Next : Type 0 where
  over : Next
  turn_again : List Message → Next

pub data Exit : Type 0 where
  returned out_of_fuel : Exit

-- Where an iteration ends the run, and where the loop goes on with its pending messages.
abbrev pub after_iteration :
    {W : Type 0} → (List Message → Run W → Exit × Run W) → Next → Run W → Exit × Run W
after_iteration go_on over s = (returned, s)
after_iteration go_on (turn_again pending) s = go_on pending s

module _ {W : Type 0} (c : Config W) where
  unfoldable pub stream_assistant_response : Run W → AssistantMessage × Run W
  unfolding read_events
  stream_assistant_response s =
      let (messages, w1) = c.transform_context s.context s.world in
      let (llm_messages, w2) = c.convert_to_llm messages w1 in
      let (response, w3) = c.stream_fn llm_messages w2 in
      read_events response.events false response.result (with_world w3 s)

  -- The loop over the attempts that are left. The last message of the context is the failed one,
  -- which `streamAssistantResponse` has put there.
  unfoldable pub retry : ℕ → ℕ → AssistantMessage → Run W → AssistantMessage × Run W
  unfolding stream_assistant_response drop_last wants_retry
  retry zero attempt m s = (m, s)
  retry (suc left) attempt m s =
      let delay = get_or_else c.base_retry_delay_ms 1000 * 2 ^ attempt in
      let s1 = with_world (c.wait delay s.world) s in
      let again = stream_assistant_response (record s1 { context = drop_last s1.context }) in
      let rest = retry left (attempt + 1) again.0 again.1 in
      if c.is_aborted s.world
      then (m, s)
      else (if c.is_aborted s1.world
          then (m, s1)
          else (if wants_retry again.0 then rest else again))

  unfoldable pub respond : Run W → AssistantMessage × Run W
  unfolding stream_assistant_response retry
  respond s =
      let first = stream_assistant_response s in
      let retried = retry (get_or_else c.max_stream_retries 2) 0 first.0 first.1 in
      if wants_retry first.0 then retried else first

  abbrev pub some_more : Bool → List Message → Bool
  some_more has_more [] = has_more
  some_more has_more (_ ∷ _) = true

  -- The end of an inner round, and the check for follow-up messages where the inner loop stops.
  unfoldable pub after_turn : Bool → Run W → Next × Run W
  after_turn has_more s =
      let (pending, w1) = c.get_steering_messages s.world in
      let (follow_up, w2) = c.get_follow_up_messages w1 in
      if some_more has_more pending
      then (turn_again pending, with_world w1 s)
      else (if some_more false follow_up
          then (turn_again follow_up, with_world w2 s)
          else (over, emit (agent_end s.new_messages) (with_world w2 s)))

  abbrev pub has_calls : AssistantMessage → Bool
  has_calls m = not (nat_beq (length (tool_calls m.content)) 0)

  unfoldable pub run_tools : AssistantMessage → Run W → List ToolResultMessage × Run W
  unfolding execute_tool_calls tool_calls
  run_tools m s = if has_calls m then execute_tool_calls c m s else ([], s)

  -- What follows a response.
  unfoldable pub after_response : AssistantMessage → Run W → Next × Run W
  unfolding run_tools push_results after_turn
  after_response m s =
      let (results, s1) = run_tools m s in
      if ends_run m
      then (over, emit (agent_end s.new_messages) (emit (turn_end m []) s))
      else after_turn (has_calls m) (emit (turn_end m results) (push_results results s1))

  -- One iteration of the inner loop, below the limit.
  unfoldable pub turn : Bool → List Message → Run W → Next × Run W
  unfolding inject respond after_response
  turn first pending s =
      let s1 = inject pending (if first then s else emit turn_start s) in
      let (m, s2) = respond s1 in
      after_response m (record s2 { new_messages = s2.new_messages ++ assistant m ∷ [] })

  abbrev pub max_iterations_of : ℕ
  max_iterations_of = get_or_else c.max_iterations default_max_iterations

  unfoldable pub run_loop : ℕ → Bool → ℕ → List Message → Run W → Exit × Run W
  unfolding turn exceed
  run_loop zero first count pending s = (out_of_fuel, s)
  run_loop (suc fuel) first count pending s =
      let (next, s1) = turn first pending s in
      let rest = after_iteration (run_loop fuel false (count + 1)) next s1 in
      if ltb max_iterations_of (count + 1)
      then (returned, exceed max_iterations_of (c.now s.world) s)
      else rest

  -- `runLoop`, which polls for steering messages first. An iteration takes one unit of fuel, and
  -- the one that exceeds the limit is the last.
  unfoldable pub start_loop : Run W → Exit × Run W
  unfolding run_loop
  start_loop s =
      let (pending, w) = c.get_steering_messages s.world in
      run_loop (suc max_iterations_of) true 0 pending (with_world w s)

  abbrev pub prompt_events : List Message → List AgentEvent
  prompt_events [] = []
  prompt_events (m ∷ prompts) = message_start m ∷ message_end m ∷ prompt_events prompts

  unfoldable pub run_agent_loop : List Message → List Message → W → Exit × Run W
  unfolding start_loop
  run_agent_loop prompts context w = start_loop (record {
    context = context ++ prompts;
    new_messages = prompts;
    events = agent_start ∷ turn_start ∷ prompt_events prompts;
    world = w;
  })

  abbrev pub ends_with_assistant : List Message → Bool
  ends_with_assistant [] = false
  ends_with_assistant (assistant _ ∷ []) = true
  ends_with_assistant (user _ ∷ []) = false
  ends_with_assistant (custom _ ∷ []) = false
  ends_with_assistant (tool_result _ ∷ []) = false
  ends_with_assistant (_ ∷ m ∷ messages) = ends_with_assistant (m ∷ messages)

  -- `none` is the error that there is nothing to continue from.
  unfoldable pub run_agent_loop_continue : List Message → W → Option (Exit × Run W)
  unfolding start_loop
  run_agent_loop_continue context w =
      if nat_beq (length context) 0
      then none
      else (if ends_with_assistant context
          then none
          else some (
              start_loop (record {
                context = context;
                new_messages = [];
                events = agent_start ∷ turn_start ∷ [];
                world = w;
              })))
