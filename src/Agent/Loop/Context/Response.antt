-- ===== src/Agent/Loop/Context/Response.antt =====
-- `streamAssistantResponse` of agent-loop.ts and its retries: the message that they leave last in
-- the context.
use mathlib.Core.List.{append-nil}
use Prim.Native.Nat.{◌^◌}
use crabbykit.Prelude.{
  ℕ, zero, suc, ◌+◌, ◌≤◌, ◌≡◌, refl, ◌∙◌, ap, Bool, true, false, List, [], ◌∷◌, ◌++◌, arith,
  on_branches, get_or_else, ◌*◌,
}
use crabbykit.Agent.{
  AssistantMessage, Message, assistant, AgentEvent, message_start, message_update, message_end,
  StreamEvent, start, delta, done, Response, Config, Run,
}
use crabbykit.Agent.Tools.{emit, with_world}
use crabbykit.Agent.Tools.Quiet.{ended, ended_of, run_ends, ends_of, run_ends-snoc, ended-snoc}
use crabbykit.Agent.Loop.{
  set_last, drop_last, push_context, finish_response, read_events, stream_assistant_response, retry,
  respond, wants_retry,
}

-- How often a response starts. The protocol of the streams has one start, before any change.
abbrev starts : List StreamEvent → ℕ
starts [] = 0
starts (start _ ∷ events) = suc (starts events)
starts (_ ∷ events) = starts events

abbrev pub StartsOnce : Response → Type 0
StartsOnce r = starts r.events ≤ 1

set_last-snoc : (m x : Message) (b : List Message) → set_last m (b ++ x ∷ []) ≡ b ++ m ∷ []
unfolding set_last
set_last-snoc m x [] = refl
set_last-snoc m x (y ∷ []) = refl
set_last-snoc m x (y ∷ z ∷ b) = ap (λ xs. y ∷ xs) (set_last-snoc m x (z ∷ b))

drop_last-snoc : (x : Message) (b : List Message) → drop_last (b ++ x ∷ []) ≡ b
unfolding drop_last
drop_last-snoc x [] = refl
drop_last-snoc x (y ∷ []) = refl
drop_last-snoc x (y ∷ z ∷ b) = ap (λ xs. y ∷ xs) (drop_last-snoc x (z ∷ b))

module _ {W : Type 0} where
  read_events-started :
      (events : List StreamEvent) (m : AssistantMessage) (b : List Message) (x : Message)
      (s : Run W)
      → starts events ≤ 0
      → s.context ≡ b ++ x ∷ []
      → (read_events events true m s).1.context
        ≡ b ++ assistant (read_events events true m s).0 ∷ []
  unfolding read_events finish_response
  read_events-started [] m b x s none_left h =
      ap (set_last (assistant m)) h ∙ set_last-snoc (assistant m) x b
  read_events-started (start p ∷ events) m b x s none_left h = absurd (omega arith)
  read_events-started (delta p ∷ events) m b x s none_left h =
      read_events-started events m b (assistant p)
        (emit (message_update (assistant p))
          (record s { context = set_last (assistant p) s.context }))
        none_left (ap (set_last (assistant p)) h ∙ set_last-snoc (assistant p) x b)
  read_events-started (done ∷ events) m b x s none_left h =
      ap (set_last (assistant m)) h ∙ set_last-snoc (assistant m) x b

  read_events-context :
      (events : List StreamEvent) (m : AssistantMessage) (b : List Message) (s : Run W)
      → starts events ≤ 1
      → s.context ≡ b
      → (read_events events false m s).1.context
        ≡ b ++ assistant (read_events events false m s).0 ∷ []
  unfolding read_events finish_response
  read_events-context [] m b s once h = ap (λ xs. xs ++ assistant m ∷ []) h
  read_events-context (start p ∷ events) m b s once h =
      read_events-started events m b (assistant p)
        (emit (message_start (assistant p)) (push_context (assistant p) s)) (omega arith)
        (ap (λ xs. xs ++ assistant p ∷ []) h)
  read_events-context (delta p ∷ events) m b s once h = read_events-context events m b s once h
  read_events-context (done ∷ events) m b s once h = ap (λ xs. xs ++ assistant m ∷ []) h

  -- A response ends one message, and does not end the run.
  pub record Says (s t : Run W) (m : AssistantMessage) : Type 0 where
    pub said : ended t.events ≡ ended s.events ++ assistant m ∷ []
    pub quiet : run_ends t.events ≡ run_ends s.events
    pub same_new : t.new_messages ≡ s.new_messages

  Says-after :
      (e : AgentEvent) (context : List Message) (s t : Run W) (m : AssistantMessage)
      → ended_of e ≡ []
      → ends_of e ≡ 0
      → Says (emit e (record s { context = context })) t m
      → Says s t m
  Says-after e context s t m silent calm h = record {
    said =
        h.said
        ∙ ap (λ xs. xs ++ assistant m ∷ [])
            (ended-snoc s.events e
              ∙ ap (λ xs. ended s.events ++ xs) silent
              ∙ append-nil (ended s.events));
    quiet = h.quiet ∙ omega (arith, run_ends-snoc s.events e, calm);
    same_new = h.same_new;
  }

  end-Says :
      (m : AssistantMessage) (context : List Message) (s : Run W)
      → Says s (emit (message_end (assistant m)) (record s { context = context })) m
  end-Says m context s = record {
    said = ended-snoc s.events (message_end (assistant m));
    quiet = omega (arith, run_ends-snoc s.events (message_end (assistant m)));
    same_new = refl;
  }

  finish_response-Says :
      (added : Bool) (m : AssistantMessage) (s : Run W)
      → Says s (finish_response added m s).1 (finish_response added m s).0
  unfolding finish_response
  finish_response-Says true m s = end-Says m (set_last (assistant m) s.context) s
  finish_response-Says false m s =
      Says-after (message_start (assistant m)) (s.context ++ assistant m ∷ []) s
        (finish_response false m s).1 m refl refl
        (end-Says m (s.context ++ assistant m ∷ [])
          (emit (message_start (assistant m)) (push_context (assistant m) s)))

  read_events-Says :
      (events : List StreamEvent) (added : Bool) (m : AssistantMessage) (s : Run W)
      → Says s (read_events events added m s).1 (read_events events added m s).0
  unfolding read_events
  read_events-Says [] added m s = finish_response-Says added m s
  read_events-Says (start p ∷ events) added m s =
      Says-after (message_start (assistant p)) (s.context ++ assistant p ∷ []) s
        (read_events (start p ∷ events) added m s).1 (read_events (start p ∷ events) added m s).0
        refl refl
        (read_events-Says events true m
          (emit (message_start (assistant p)) (push_context (assistant p) s)))
  read_events-Says (delta p ∷ events) true m s =
      Says-after (message_update (assistant p)) (set_last (assistant p) s.context) s
        (read_events (delta p ∷ events) true m s).1 (read_events (delta p ∷ events) true m s).0 refl
        refl
        (read_events-Says events true m (
          emit (message_update (assistant p))
            (record s { context = set_last (assistant p) s.context })))
  read_events-Says (delta p ∷ events) false m s = read_events-Says events false m s
  read_events-Says (done ∷ events) added m s = finish_response-Says added m s

module _ {W : Type 0} (c : Config W) where
  pub stream_assistant_response-Says :
      (s : Run W) → Says s (stream_assistant_response c s).1 (stream_assistant_response c s).0
  unfolding stream_assistant_response
  stream_assistant_response-Says s =
      let (messages, w1) = c.transform_context s.context s.world in
      let (llm_messages, w2) = c.convert_to_llm messages w1 in
      let (response, w3) = c.stream_fn llm_messages w2 in
      let h = read_events-Says response.events false response.result (with_world w3 s) in
      record { said = h.said; quiet = h.quiet; same_new = h.same_new }

  abbrev IsQuiet : Run W → AssistantMessage × Run W → Type 0
  IsQuiet s r = (run_ends r.1.events ≡ run_ends s.events) × (r.1.new_messages ≡ s.new_messages)

  retry-quiet :
      (left attempt : ℕ) (m : AssistantMessage) (s : Run W)
      → (run_ends (retry c left attempt m s).1.events ≡ run_ends s.events)
        × ((retry c left attempt m s).1.new_messages ≡ s.new_messages)
  unfolding retry
  retry-quiet zero attempt m s = (refl, refl)
  retry-quiet (suc left) attempt m s =
      let w = c.wait (get_or_else c.base_retry_delay_ms 1000 * 2 ^ attempt) s.world in
      let s1 : Run W = record s { context = drop_last s.context; world = w } in
      let again = stream_assistant_response c s1 in
      let h = stream_assistant_response-Says s1 in
      let (quiet, same_new) = retry-quiet left (attempt + 1) again.0 again.1 in
      on_branches (IsQuiet s) (c.is_aborted s.world) (refl, refl)
        (on_branches (IsQuiet s) (c.is_aborted w) (refl, refl)
          (on_branches (IsQuiet s) (wants_retry again.0) (quiet ∙ h.quiet, same_new ∙ h.same_new)
            (h.quiet, h.same_new)))

  pub respond-quiet :
      (s : Run W)
      → (run_ends (respond c s).1.events ≡ run_ends s.events)
        × ((respond c s).1.new_messages ≡ s.new_messages)
  unfolding respond
  respond-quiet s =
      let first = stream_assistant_response c s in
      let h = stream_assistant_response-Says s in
      let (quiet, same_new) = retry-quiet (get_or_else c.max_stream_retries 2) 0 first.0 first.1 in
      on_branches (IsQuiet s) (wants_retry first.0) (quiet ∙ h.quiet, same_new ∙ h.same_new)
        (h.quiet, h.same_new)

  module _ (once : (messages : List Message) (w : W) → StartsOnce (c.stream_fn messages w).0) where
    stream_assistant_response-context :
        (b : List Message) (s : Run W)
        → s.context ≡ b
        → (stream_assistant_response c s).1.context
          ≡ b ++ assistant (stream_assistant_response c s).0 ∷ []
    unfolding stream_assistant_response
    stream_assistant_response-context b s h =
        let (messages, w1) = c.transform_context s.context s.world in
        let (llm_messages, w2) = c.convert_to_llm messages w1 in
        let (response, w3) = c.stream_fn llm_messages w2 in
        read_events-context response.events response.result b (with_world w3 s)
          (once llm_messages w2) h

    abbrev IsLast : List Message → AssistantMessage × Run W → Type 0
    IsLast b r = r.1.context ≡ b ++ assistant r.0 ∷ []

    retry-context :
        (left attempt : ℕ) (m : AssistantMessage) (b : List Message) (s : Run W)
        → s.context ≡ b ++ assistant m ∷ []
        → (retry c left attempt m s).1.context ≡ b ++ assistant (retry c left attempt m s).0 ∷ []
    unfolding retry
    retry-context zero attempt m b s h = h
    retry-context (suc left) attempt m b s h =
        let w = c.wait (get_or_else c.base_retry_delay_ms 1000 * 2 ^ attempt) s.world in
        let s1 : Run W = record s { context = drop_last s.context; world = w } in
        let again = stream_assistant_response c s1 in
        let next =
          stream_assistant_response-context b s1
            (ap drop_last h ∙ drop_last-snoc (assistant m) b) in
        on_branches (IsLast b) (c.is_aborted s.world) h (
          on_branches (IsLast b) (c.is_aborted w) h (
            on_branches (IsLast b) (wants_retry again.0)
              (retry-context left (attempt + 1) again.0 b again.1 next) next))

    pub respond-context :
        (b : List Message) (s : Run W)
        → s.context ≡ b
        → (respond c s).1.context ≡ b ++ assistant (respond c s).0 ∷ []
    unfolding respond
    respond-context b s h =
        let first = stream_assistant_response c s in
        let next = stream_assistant_response-context b s h in
        on_branches (IsLast b) (wants_retry first.0)
          (retry-context (get_or_else c.max_stream_retries 2) 0 first.0 b first.1 next) next
