-- ===== src/Agent/Loop/Context.antt =====
-- `runLoop` of agent-loop.ts: the context, the new messages and the events of a run.
pub mod Response
use mathlib.Core.List.{append-nil, append_assoc}
use crabbykit.Prelude.{
  ℕ, zero, suc, ◌+◌, ◌≤◌, ◌≡◌, refl, sym, ◌∙◌, ap, subst, Bool, true, false, not, Option, none,
  some, List, [], ◌∷◌, ◌++◌, map, arith, inl, inr, Bool-cases, if◌then◌else◌, ltb,
}
use crabbykit.Agent.{
  AssistantMessage, Message, assistant, tool_result, ToolResultMessage, AgentEvent, agent_start,
  turn_start, agent_end, turn_end, message_start, message_end, StreamEvent, Config, Run, Content,
}
use crabbykit.Agent.Tools.{emit, with_world, execute_tool_calls}
use crabbykit.Agent.Tools.Quiet.{
  ended, ended_of, run_ends, ends_of, run_ends-snoc, ended-snoc, Tells, execute_tool_calls-Tells,
  Tells-refl,
}
use crabbykit.Agent.Loop.{
  inject, push_results, exceed, exceeded, respond, has_calls, run_tools, some_more, after_turn,
  after_response, ends_run, turn, Next, over, turn_again, Exit, returned, out_of_fuel,
  after_iteration, run_loop, max_iterations_of, start_loop, run_agent_loop, prompt_events,
}
use crabbykit.Agent.Loop.Ends.{start_loop_total}
use crabbykit.Agent.Loop.Context.Response.{StartsOnce, respond-context, respond-quiet}

-- Between two steps of a run: the context is that of before with the new messages, and the run's
-- end has not been emitted.
pub record InStep {W : Type 0} (base : List Message) (s : Run W) : Type 0 where
  pub context : s.context ≡ base ++ s.new_messages
  pub running : run_ends s.events ≡ 0

-- After a run: its end is the last event, and the only one of its kind, and carries the messages.
pub record IsEnded {W : Type 0} (base : List Message) (s : Run W) : Type 0 where
  pub context : s.context ≡ base ++ s.new_messages
  pub front : List AgentEvent
  pub last_event : s.events ≡ front ++ agent_end s.new_messages ∷ []
  pub only : run_ends front ≡ 0

-- What holds after a turn.
abbrev Keeps : {W : Type 0} → List Message → Next → Run W → Type 0
Keeps base over s = IsEnded base s
Keeps base (turn_again _) s = InStep base s

-- Messages that are added to both lists.
pub add-context :
    (base context new ms : List Message)
    → context ≡ base ++ new
    → context ++ ms ≡ base ++ (new ++ ms)
add-context base context new ms h = ap (λ xs. xs ++ ms) h ∙ append_assoc base new ms

module _ {W : Type 0} (base : List Message) where
  emit-InStep :
      (e : AgentEvent) (s : Run W) → ends_of e ≡ 0 → InStep base s → InStep base (emit e s)
  emit-InStep e s quiet h = record {
    context = h.context;
    running = omega (arith, run_ends-snoc s.events e, quiet, h.running);
  }

  end-IsEnded : (s : Run W) → InStep base s → IsEnded base (emit (agent_end s.new_messages) s)
  end-IsEnded s h = record {
    context = h.context;
    front = s.events;
    last_event = refl;
    only = h.running;
  }

  inject-InStep :
      (pending : List Message) (s : Run W) → InStep base s → InStep base (inject pending s)
  unfolding inject
  inject-InStep [] s h = h
  inject-InStep (m ∷ pending) s h =
      inject-InStep pending
        (record (emit (message_end m) (emit (message_start m) s)) {
          context = s.context ++ m ∷ [];
          new_messages = s.new_messages ++ m ∷ [];
        })
        (record {
          context = add-context base s.context s.new_messages (m ∷ []) h.context;
          running =
              (emit-InStep (message_end m) (emit (message_start m) s) refl
                (emit-InStep (message_start m) s refl h)).running;
        })

  exceed-IsEnded : (limit now : ℕ) (s : Run W) → InStep base s → IsEnded base (exceed limit now s)
  unfolding exceed
  exceed-IsEnded limit now s h =
      let m = assistant (exceeded limit now) in
      let s1 : Run W = record s {
        context = s.context ++ m ∷ [];
        new_messages = s.new_messages ++ m ∷ [];
      } in
      let h1 : InStep base s1 = record {
        context = add-context base s.context s.new_messages (m ∷ []) h.context;
        running = h.running;
      } in
      end-IsEnded
        (emit (turn_end (exceeded limit now) []) (emit (message_end m) (emit (message_start m) s1)))
        (emit-InStep (turn_end (exceeded limit now) [])
          (emit (message_end m) (emit (message_start m) s1)) refl
          (emit-InStep (message_end m) (emit (message_start m) s1) refl
            (emit-InStep (message_start m) s1 refl h1)))

module _ {W : Type 0} (c : Config W) (base : List Message) where
  pub run_tools-Tells :
      (m : AssistantMessage) (s : Run W)
      → Tells s (run_tools c m s).1 (map tool_result (run_tools c m s).0)
  unfolding run_tools
  run_tools-Tells m s = elim (Bool-cases (has_calls c m)) [
    | inl calls ↦ rw calls (execute_tool_calls-Tells c m s)
    | inr no_calls ↦ rw no_calls (Tells-refl s)
  ]

  after_turn-Keeps :
      (has_more : Bool) (s : Run W)
      → InStep base s
      → Keeps base (after_turn c has_more s).0 (after_turn c has_more s).1
  unfolding after_turn
  after_turn-Keeps has_more s h =
      let (pending, w1) = c.get_steering_messages s.world in
      let (follow_up, w2) = c.get_follow_up_messages w1 in
      elim (Bool-cases (some_more c has_more pending)) [
        | inl more ↦ rw more (record { context = h.context; running = h.running })
        | inr no_more ↦ elim (Bool-cases (some_more c false follow_up)) [
          | inl more ↦ rw (no_more, more) (record { context = h.context; running = h.running })
          | inr none_left ↦
              rw (no_more, none_left)
                (end-IsEnded base (with_world w2 s)
                  (record { context = h.context; running = h.running }))
        ]
      ]

  after_response-Keeps :
      (m : AssistantMessage) (s : Run W)
      → InStep base s
      → Keeps base (after_response c m s).0 (after_response c m s).1
  unfolding after_response push_results
  after_response-Keeps m s h =
      let (results, s1) = run_tools c m s in
      let told = run_tools-Tells m s in
      elim (Bool-cases (ends_run m)) [
        | inl ends ↦
            rw ends (
              end-IsEnded base (emit (turn_end m []) s) (emit-InStep base (turn_end m []) s refl h))
        | inr goes_on ↦ rw goes_on (
            after_turn-Keeps (has_calls c m) (emit (turn_end m results) (push_results results s1)) (
              emit-InStep base (turn_end m results) (push_results results s1) refl (record {
                context =
                    add-context base s1.context s1.new_messages (map tool_result results)
                      (told.same_context ∙ h.context ∙ ap (λ xs. base ++ xs) (sym told.same_new));
                running = told.running ∙ h.running;
              })))
      ]

  module _ (once : (messages : List Message) (w : W) → StartsOnce (c.stream_fn messages w).0) where
    turn-Keeps :
        (first : Bool) (pending : List Message) (s : Run W)
        → InStep base s
        → Keeps base (turn c first pending s).0 (turn c first pending s).1
    unfolding turn
    turn-Keeps first pending s h =
        let s0 : Run W = if first then s else emit turn_start s in
        let h0 : InStep base s0 = elim (Bool-cases first) [
          | inl is_first ↦ rw is_first h
          | inr later ↦ rw later (emit-InStep base turn_start s refl h)
        ] in
        let h1 = inject-InStep base pending s0 h0 in
        let s1 = inject pending s0 in
        let (m, s2) = respond c s1 in
        let (quiet, same_new) = respond-quiet c s1 in
        after_response-Keeps m (record s2 { new_messages = s2.new_messages ++ assistant m ∷ [] })
          (record {
            context =
                respond-context c once s1.context s1 refl
                ∙ add-context base s1.context s1.new_messages (assistant m ∷ []) h1.context
                ∙ ap (λ xs. base ++ (xs ++ assistant m ∷ [])) (sym same_new);
            running = quiet ∙ h1.running;
          })

    after_iteration-IsEnded :
        (go_on : List Message → Run W → Exit × Run W) (next : Next) (s : Run W)
        → Keeps base next s
        → ((pending : List Message) (t : Run W)
            → InStep base t
            → (go_on pending t).0 ≡ returned
            → IsEnded base (go_on pending t).1)
        → (after_iteration go_on next s).0 ≡ returned
        → IsEnded base (after_iteration go_on next s).1
    after_iteration-IsEnded go_on over s h ih ends = h
    after_iteration-IsEnded go_on (turn_again pending) s h ih ends = ih pending s h ends

    run_loop-IsEnded :
        (fuel : ℕ) (first : Bool) (count : ℕ) (pending : List Message) (s : Run W)
        → InStep base s
        → (run_loop c fuel first count pending s).0 ≡ returned
        → IsEnded base (run_loop c fuel first count pending s).1
    unfolding run_loop
    run_loop-IsEnded zero first count pending s h ends = cc
    run_loop-IsEnded (suc fuel) first count pending s h ends =
        elim (Bool-cases (ltb (max_iterations_of c) (count + 1))) [
          | inl past ↦ rw past (exceed-IsEnded base (max_iterations_of c) (c.now s.world) s h)
          | inr below ↦ rw below (
              after_iteration-IsEnded (run_loop c fuel false (count + 1)) (turn c first pending s).0
                (turn c first pending s).1 (turn-Keeps first pending s h)
                (λ more t k. run_loop-IsEnded fuel false (count + 1) more t k)
                (rw (below, run_loop) at ends))
        ]

    start_loop-IsEnded : (s : Run W) → InStep base s → IsEnded base (start_loop c s).1
    unfolding start_loop
    start_loop-IsEnded s h =
        run_loop-IsEnded (suc (max_iterations_of c)) true 0 (c.get_steering_messages s.world).0
          (with_world (c.get_steering_messages s.world).1 s)
          (record { context = h.context; running = h.running }) (start_loop_total c s)

prompt_events-run_ends :
    {W : Type 0} (c : Config W) (prompts : List Message) → run_ends (prompt_events c prompts) ≡ 0
unfolding run_ends
prompt_events-run_ends c [] = refl
prompt_events-run_ends c (m ∷ prompts) = omega (arith, prompt_events-run_ends c prompts)

-- Where each streamed response starts at most once, a run from prompts returns, the context is the
-- one of before and then the new messages, and the last event is the run's end, which is emitted
-- once and carries the new messages.
pub run_agent_loop-IsEnded :
    {W : Type 0} (c : Config W) (prompts context : List Message) (w : W)
    → ((messages : List Message) (v : W) → StartsOnce (c.stream_fn messages v).0)
    → ((run_agent_loop c prompts context w).0 ≡ returned)
      × IsEnded context (run_agent_loop c prompts context w).1
unfolding run_agent_loop run_ends
run_agent_loop-IsEnded c prompts context w once =
    let s : Run _ = record {
      context = context ++ prompts;
      new_messages = prompts;
      events = agent_start ∷ turn_start ∷ prompt_events c prompts;
      world = w;
    } in
    (
      start_loop_total c s,
      start_loop-IsEnded c context once s
          (record { context = refl; running = omega (arith, prompt_events-run_ends c prompts) }),
    )
