-- ===== src/Agent/Loop/Said.antt =====
-- The messages whose end `runLoop` of agent-loop.ts emits, against its new messages.
use mathlib.Core.List.{append-nil}
use crabbykit.Prelude.{
  ℕ, zero, suc, ◌+◌, ◌≡◌, refl, sym, ◌∙◌, ap, subst, Bool, true, false, List, [], ◌∷◌, ◌++◌, map,
  on_branches, if◌then◌else◌, ltb,
}
use crabbykit.Agent.{
  AssistantMessage, Message, assistant, tool_result, AgentEvent, agent_start, turn_start, agent_end,
  turn_end, message_start, message_end, Config, Run,
}
use crabbykit.Agent.Tools.{emit}
use crabbykit.Agent.Tools.Quiet.{ended, ended_of, ended-snoc}
use crabbykit.Agent.Loop.{
  inject, push_results, exceed, exceeded, respond, has_calls, run_tools, some_more, after_turn,
  after_response, ends_run, turn, Next, over, turn_again, Exit, after_iteration, run_loop,
  max_iterations_of, start_loop, run_agent_loop, prompt_events,
}
use crabbykit.Agent.Loop.Context.{run_tools-Tells}
use crabbykit.Agent.Loop.Context.Response.{respond-quiet}
use crabbykit.Agent.Loop.Retried.{
  SkipsRetried, SkipsRetried-refl, SkipsRetried-append, respond-Tells,
}

-- The messages that ended are the new ones, and among them responses that were streamed again.
abbrev pub HasSaid : {W : Type 0} → Run W → Type 0
HasSaid s = SkipsRetried (ended s.events) s.new_messages

ended_silent :
    (events : List AgentEvent) (e : AgentEvent)
    → ended_of e ≡ []
    → ended (events ++ e ∷ []) ≡ ended events
ended_silent events e silent =
    ended-snoc events e ∙ ap (λ ms. ended events ++ ms) silent ∙ append-nil (ended events)

module _ {W : Type 0} where
  emit-HasSaid : (e : AgentEvent) (s : Run W) → ended_of e ≡ [] → HasSaid s → HasSaid (emit e s)
  emit-HasSaid e s silent h =
      subst (λ ms. SkipsRetried ms s.new_messages) (sym (ended_silent s.events e silent)) h

  -- A message that is added, and whose start and end are emitted.
  add-HasSaid :
      (m : Message) (context : List Message) (s : Run W)
      → HasSaid s
      → HasSaid (
          emit (message_end m) (
            emit
              (message_start m)
              (record s { context = context; new_messages = s.new_messages ++ m ∷ [] })))
  add-HasSaid m context s h =
      subst (λ ms. SkipsRetried ms (s.new_messages ++ m ∷ []))
        (sym (
          ended-snoc (s.events ++ message_start m ∷ []) (message_end m)
          ∙ ap (λ ms. ms ++ m ∷ []) (ended_silent s.events (message_start m) refl)))
        (SkipsRetried-append h (SkipsRetried-refl (m ∷ [])))

  inject-HasSaid : (pending : List Message) (s : Run W) → HasSaid s → HasSaid (inject pending s)
  unfolding inject
  inject-HasSaid [] s h = h
  inject-HasSaid (m ∷ pending) s h =
      inject-HasSaid pending
        (record (emit (message_end m) (emit (message_start m) s)) {
          context = s.context ++ m ∷ [];
          new_messages = s.new_messages ++ m ∷ [];
        })
        (add-HasSaid m (s.context ++ m ∷ []) s h)

  exceed-HasSaid : (limit now : ℕ) (s : Run W) → HasSaid s → HasSaid (exceed limit now s)
  unfolding exceed
  exceed-HasSaid limit now s h =
      let m = assistant (exceeded limit now) in
      let s1 : Run W = record s {
        context = s.context ++ m ∷ [];
        new_messages = s.new_messages ++ m ∷ [];
      } in
      let s2 = emit (message_end m) (emit (message_start m) s1) in
      emit-HasSaid (agent_end s1.new_messages) (emit (turn_end (exceeded limit now) []) s2) refl (
        emit-HasSaid (turn_end (exceeded limit now) []) s2 refl
          (add-HasSaid m (s.context ++ m ∷ []) s h))

module _ {W : Type 0} (c : Config W) where
  after_turn-HasSaid :
      (has_more : Bool) (s : Run W) → HasSaid s → HasSaid (after_turn c has_more s).1
  unfolding after_turn
  after_turn-HasSaid has_more s h =
      let (pending, w1) = c.get_steering_messages s.world in
      let (follow_up, w2) = c.get_follow_up_messages w1 in
      on_branches (λ (r : Next × Run W). HasSaid r.1) (some_more c has_more pending) h
        (on_branches (λ (r : Next × Run W). HasSaid r.1) (some_more c false follow_up) h
          (emit-HasSaid (agent_end s.new_messages) s refl h))

  after_response-HasSaid :
      (m : AssistantMessage) (s : Run W) → HasSaid s → HasSaid (after_response c m s).1
  unfolding after_response push_results
  after_response-HasSaid m s h =
      let (results, s1) = run_tools c m s in
      let told = run_tools-Tells c [] m s in
      let s2 = push_results results s1 in
      let said : HasSaid s2 =
        subst (λ ms. SkipsRetried ms (s1.new_messages ++ map tool_result results)) (sym told.said)
          (subst
            (λ ns.
              SkipsRetried (ended s.events ++ map tool_result results)
                (ns ++ map tool_result results))
            (sym told.same_new)
            (SkipsRetried-append h (SkipsRetried-refl (map tool_result results)))) in
      on_branches (λ (r : Next × Run W). HasSaid r.1) (ends_run m)
        (emit-HasSaid (agent_end s.new_messages) (emit (turn_end m []) s) refl
          (emit-HasSaid (turn_end m []) s refl h))
        (after_turn-HasSaid (has_calls c m) (emit (turn_end m results) s2)
          (emit-HasSaid (turn_end m results) s2 refl said))

  turn-HasSaid :
      (first : Bool) (pending : List Message) (s : Run W)
      → HasSaid s
      → HasSaid (turn c first pending s).1
  unfolding turn
  turn-HasSaid first pending s h =
      let s0 : Run W = if first then s else emit turn_start s in
      let h1 =
        inject-HasSaid pending s0
          (on_branches (λ (r : Run W). HasSaid r) first h (emit-HasSaid turn_start s refl h)) in
      let s1 = inject pending s0 in
      let (m, s2) = respond c s1 in
      let (failed, skips, said) = respond-Tells c s1 in
      after_response-HasSaid m (record s2 { new_messages = s2.new_messages ++ assistant m ∷ [] })
        (subst (λ ms. SkipsRetried ms (s2.new_messages ++ assistant m ∷ [])) (sym said)
          (subst
            (λ ns.
              SkipsRetried (ended s1.events ++ (failed ++ assistant m ∷ []))
                (ns ++ assistant m ∷ []))
            (sym (respond-quiet c s1).1)
            (SkipsRetried-append h1
              (SkipsRetried-append skips (SkipsRetried-refl (assistant m ∷ []))))))

  after_iteration-HasSaid :
      (go_on : List Message → Run W → Exit × Run W) (next : Next) (s : Run W)
      → HasSaid s
      → ((pending : List Message) (t : Run W) → HasSaid t → HasSaid (go_on pending t).1)
      → HasSaid (after_iteration go_on next s).1
  after_iteration-HasSaid go_on over s h ih = h
  after_iteration-HasSaid go_on (turn_again pending) s h ih = ih pending s h

  run_loop-HasSaid :
      (fuel : ℕ) (first : Bool) (count : ℕ) (pending : List Message) (s : Run W)
      → HasSaid s
      → HasSaid (run_loop c fuel first count pending s).1
  unfolding run_loop
  run_loop-HasSaid zero first count pending s h = h
  run_loop-HasSaid (suc fuel) first count pending s h =
      on_branches (λ (r : Exit × Run W). HasSaid r.1) (ltb (max_iterations_of c) (count + 1))
        (exceed-HasSaid (max_iterations_of c) (c.now s.world) s h)
        (after_iteration-HasSaid (run_loop c fuel false (count + 1)) (turn c first pending s).0
          (turn c first pending s).1 (turn-HasSaid first pending s h)
          (λ more t k. run_loop-HasSaid fuel false (count + 1) more t k))

  prompt_events-ended : (prompts : List Message) → ended (prompt_events c prompts) ≡ prompts
  unfolding ended
  prompt_events-ended [] = refl
  prompt_events-ended (m ∷ prompts) = ap (λ xs. m ∷ xs) (prompt_events-ended prompts)

  -- The messages whose end a run emits are its new messages, in their order, and among them responses
  -- that failed transiently and were streamed again.
  pub run_agent_loop-HasSaid :
      (prompts context : List Message) (w : W) → HasSaid (run_agent_loop c prompts context w).1
  unfolding run_agent_loop start_loop ended
  run_agent_loop-HasSaid prompts context w =
      run_loop-HasSaid (suc (max_iterations_of c)) true 0 (c.get_steering_messages w).0
        (record {
          context = context ++ prompts;
          new_messages = prompts;
          events = agent_start ∷ turn_start ∷ prompt_events c prompts;
          world = (c.get_steering_messages w).1;
        })
        (subst (λ ms. SkipsRetried ms prompts) (sym (prompt_events-ended prompts))
          (SkipsRetried-refl prompts))
