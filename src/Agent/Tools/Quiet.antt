-- ===== src/Agent/Tools/Quiet.antt =====
-- What the tool calls of agent-loop.ts emit: the ends of messages, and of the run.
use mathlib.Core.List.{append-nil, append_assoc, map-append}
use crabbykit.Prelude.{
  ℕ, ◌+◌, String, ◌≡◌, refl, sym, ◌∙◌, ap, subst, Bool, true, Option, none, some, List, [], ◌∷◌,
  ◌++◌, map, arith,
}
use crabbykit.Agent.{
  ToolCall, AssistantMessage, ToolResult, ToolResultMessage, Message, tool_result, AgentEvent,
  agent_end, message_start, message_end, tool_execution_start, tool_execution_end, Tool, Validation,
  valid, invalid, Config, Run, sequential, parallel,
}
use crabbykit.Agent.Tools.{
  emit, with_world, emit_tool_call_outcome, prepared, immediate, PreparedToolCall, Preparation,
  after_validation, run_preparation, sort_preparation, overridden, tool_calls, execute_in,
  resolve_tool, prepare_with, prepare_tool_call, updates_of, execute_prepared_tool_call,
  finalize_executed_tool_call, run_prepared, run_call, execute_tool_calls_sequential, prepare_all,
  run_all_prepared, execute_tool_calls_parallel, execute_tool_calls,
}

-- The messages whose end is emitted.
abbrev pub ended_of : AgentEvent → List Message
ended_of (message_end m) = m ∷ []
ended_of _ = []

unfoldable pub ended : List AgentEvent → List Message
ended [] = []
ended (e ∷ events) = ended_of e ++ ended events

-- How often the end of the run is emitted.
abbrev pub ends_of : AgentEvent → ℕ
ends_of (agent_end _) = 1
ends_of _ = 0

unfoldable pub run_ends : List AgentEvent → ℕ
run_ends [] = 0
run_ends (e ∷ events) = ends_of e + run_ends events

pub ended-append : (xs ys : List AgentEvent) → ended (xs ++ ys) ≡ ended xs ++ ended ys
unfolding ended
ended-append [] ys = refl
ended-append (e ∷ xs) ys =
    ap (λ ms. ended_of e ++ ms) (ended-append xs ys)
    ∙ sym (append_assoc (ended_of e) (ended xs) (ended ys))

pub run_ends-append : (xs ys : List AgentEvent) → run_ends (xs ++ ys) ≡ run_ends xs + run_ends ys
unfolding run_ends
run_ends-append [] ys = omega arith
run_ends-append (e ∷ xs) ys = omega (arith, run_ends-append xs ys)

pub ended-snoc :
    (xs : List AgentEvent) (e : AgentEvent) → ended (xs ++ e ∷ []) ≡ ended xs ++ ended_of e
unfolding ended
ended-snoc xs e = ended-append xs (e ∷ []) ∙ ap (λ ms. ended xs ++ ms) (append-nil (ended_of e))

pub run_ends-snoc :
    (xs : List AgentEvent) (e : AgentEvent) → run_ends (xs ++ e ∷ []) ≡ run_ends xs + ends_of e
unfolding run_ends
run_ends-snoc xs e = omega (arith, run_ends-append xs (e ∷ []))

-- A part of a run ends just these messages, and neither the run nor the lists of messages change.
pub record Tells {W : Type 0} (s t : Run W) (ms : List Message) : Type 0 where
  pub said : ended t.events ≡ ended s.events ++ ms
  pub running : run_ends t.events ≡ run_ends s.events
  pub same_context : t.context ≡ s.context
  pub same_new : t.new_messages ≡ s.new_messages

module _ {W : Type 0} where
  pub Tells-trans :
      {s t u : Run W} {ms ns : List Message} → Tells s t ms → Tells t u ns → Tells s u (ms ++ ns)
  Tells-trans {s} {t} {u} {ms} {ns} p q = record {
    said = q.said ∙ ap (λ xs. xs ++ ns) p.said ∙ append_assoc (ended s.events) ms ns;
    running = q.running ∙ p.running;
    same_context = q.same_context ∙ p.same_context;
    same_new = q.same_new ∙ p.same_new;
  }

  pub emit-Tells : (e : AgentEvent) (s : Run W) → ends_of e ≡ 0 → Tells s (emit e s) (ended_of e)
  emit-Tells e s quiet = record {
    said = ended-snoc s.events e;
    running = omega (arith, run_ends-snoc s.events e, quiet);
    same_context = refl;
    same_new = refl;
  }

  pub Tells-world :
      (w : W) {s t : Run W} {ms : List Message} → Tells s t ms → Tells s (with_world w t) ms
  Tells-world w p = record {
    said = p.said;
    running = p.running;
    same_context = p.same_context;
    same_new = p.same_new;
  }

  pub Tells-refl : (s : Run W) → Tells s s []
  Tells-refl s = record {
    said = sym (append-nil (ended s.events));
    running = refl;
    same_context = refl;
    same_new = refl;
  }

module _ {W : Type 0} (c : Config W) where
  pub emit_tool_call_outcome-Tells :
      (call : ToolCall) (result : ToolResult) (is_error : Bool) (s : Run W)
      → Tells s
          (emit_tool_call_outcome c call result is_error s).1
          (tool_result (emit_tool_call_outcome c call result is_error s).0 ∷ [])
  unfolding emit_tool_call_outcome
  emit_tool_call_outcome-Tells call result is_error s =
      let message = tool_result (emit_tool_call_outcome c call result is_error s).0 in
      let s1 = emit (tool_execution_end call result is_error) s in
      Tells-trans (emit-Tells (tool_execution_end call result is_error) s refl) (
        Tells-trans (emit-Tells (message_start message) s1 refl)
          (emit-Tells (message_end message) (emit (message_start message) s1) refl))

  after_validation-Tells :
      (m : AssistantMessage) (call : ToolCall) (tool : Tool) (v : Validation) (s : Run W)
      → Tells s (after_validation c m call tool v s).1 []
  unfolding after_validation
  after_validation-Tells m call tool (invalid _) s = Tells-refl s
  after_validation-Tells m call tool (valid a) s =
      Tells-world (c.before_tool_call m call a s.context s.world).1 (Tells-refl s)

  prepare_with-Tells :
      (m : AssistantMessage) (call : ToolCall) (tool : Option Tool) (s : Run W)
      → Tells s (prepare_with c m call tool s).1 []
  unfolding prepare_with
  prepare_with-Tells m call none s = Tells-refl s
  prepare_with-Tells m call (some tool) s =
      after_validation-Tells m call tool (c.validate_tool_arguments tool call) s

  prepare_tool_call-Tells :
      (m : AssistantMessage) (call : ToolCall) (s : Run W)
      → Tells s (prepare_tool_call c m call (emit (tool_execution_start call) s)).1 []
  unfolding prepare_tool_call
  prepare_tool_call-Tells m call s = Tells-trans (emit-Tells (tool_execution_start call) s refl) (
      prepare_with-Tells m call (resolve_tool call.name c.tools)
        (emit (tool_execution_start call) s))

  updates_of-ended :
      (call : ToolCall) (updates : List String) → ended (updates_of c call updates) ≡ []
  unfolding ended
  updates_of-ended call [] = refl
  updates_of-ended call (u ∷ updates) = updates_of-ended call updates

  updates_of-run_ends :
      (call : ToolCall) (updates : List String) → run_ends (updates_of c call updates) ≡ 0
  unfolding run_ends
  updates_of-run_ends call [] = refl
  updates_of-run_ends call (u ∷ updates) = omega (arith, updates_of-run_ends call updates)

  execute_prepared_tool_call-Tells :
      (p : PreparedToolCall) (s : Run W) → Tells s (execute_prepared_tool_call c p s).1 []
  unfolding execute_prepared_tool_call
  execute_prepared_tool_call-Tells p s =
      let updates = updates_of c p.call (c.execute p.tool p.arguments p.call s.world).0.updates in
      record {
        said =
            ended-append s.events updates
            ∙ ap (λ ms. ended s.events ++ ms)
                (updates_of-ended p.call (c.execute p.tool p.arguments p.call s.world).0.updates);
        running = omega (
          arith,
          run_ends-append s.events updates,
          updates_of-run_ends p.call (c.execute p.tool p.arguments p.call s.world).0.updates,
        );
        same_context = refl;
        same_new = refl;
      }

  pub run_prepared-Tells :
      (m : AssistantMessage) (p : PreparedToolCall) (s : Run W)
      → Tells s (run_prepared c m p s).1 (tool_result (run_prepared c m p s).0 ∷ [])
  unfolding run_prepared finalize_executed_tool_call
  run_prepared-Tells m p s =
      let ((result, failed), s1) = execute_prepared_tool_call c p s in
      let (after, w) = c.after_tool_call m p.call result failed s1.world in
      let (final, is_error) = overridden c result failed after in
      Tells-trans (Tells-world w (execute_prepared_tool_call-Tells p s))
        (emit_tool_call_outcome-Tells p.call final is_error (with_world w s1))

  run_preparation-Tells :
      (m : AssistantMessage) (call : ToolCall) (p : Preparation) (s : Run W)
      → Tells s (run_preparation c m call p s).1 (tool_result (run_preparation c m call p s).0 ∷ [])
  unfolding run_preparation
  run_preparation-Tells m call (immediate result) s =
      emit_tool_call_outcome-Tells call result true s
  run_preparation-Tells m call (prepared p) s = run_prepared-Tells m p s

  execute_tool_calls_sequential-Tells :
      (m : AssistantMessage) (calls : List ToolCall) (s : Run W)
      → Tells s
          (execute_tool_calls_sequential c m calls s).1
          (map tool_result (execute_tool_calls_sequential c m calls s).0)
  unfolding execute_tool_calls_sequential run_call
  execute_tool_calls_sequential-Tells m [] s = Tells-refl s
  execute_tool_calls_sequential-Tells m (call ∷ calls) s =
      let (preparation, s1) = prepare_tool_call c m call (emit (tool_execution_start call) s) in
      let (r, s2) = run_preparation c m call preparation s1 in
      Tells-trans (prepare_tool_call-Tells m call s) (
        Tells-trans (run_preparation-Tells m call preparation s1)
          (execute_tool_calls_sequential-Tells m calls s2))

  sort_preparation-Tells :
      (call : ToolCall) (p : Preparation) (s : Run W)
      → Tells s (sort_preparation c call p s).1 (map tool_result (sort_preparation c call p s).0.0)
  unfolding sort_preparation
  sort_preparation-Tells call (immediate result) s = emit_tool_call_outcome-Tells call result true s
  sort_preparation-Tells call (prepared p) s = Tells-refl s

  -- Messages told one part after another are those of the parts' results.
  Tells-append :
      {s t u : Run W} (xs ys : List ToolResultMessage)
      → Tells s t (map tool_result xs)
      → Tells t u (map tool_result ys)
      → Tells s u (map tool_result (xs ++ ys))
  Tells-append {s} {t} {u} xs ys p q =
      subst (Tells s u) (sym (map-append tool_result xs ys)) (Tells-trans p q)

  prepare_all-Tells :
      (m : AssistantMessage) (calls : List ToolCall) (s : Run W)
      → Tells s (prepare_all c m calls s).1 (map tool_result (prepare_all c m calls s).0.0)
  unfolding prepare_all
  prepare_all-Tells m [] s = Tells-refl s
  prepare_all-Tells m (call ∷ calls) s =
      let (preparation, s1) = prepare_tool_call c m call (emit (tool_execution_start call) s) in
      let ((results, _), s2) = sort_preparation c call preparation s1 in
      Tells-append results (prepare_all c m calls s2).0.0
        (Tells-trans (prepare_tool_call-Tells m call s)
          (sort_preparation-Tells call preparation s1))
        (prepare_all-Tells m calls s2)

  run_all_prepared-Tells :
      (m : AssistantMessage) (runnable : List PreparedToolCall) (s : Run W)
      → Tells s
          (run_all_prepared c m runnable s).1
          (map tool_result (run_all_prepared c m runnable s).0)
  unfolding run_all_prepared
  run_all_prepared-Tells m [] s = Tells-refl s
  run_all_prepared-Tells m (p ∷ runnable) s =
      Tells-trans (run_prepared-Tells m p s)
        (run_all_prepared-Tells m runnable (run_prepared c m p s).1)

  -- The calls of a message end just the messages of their results.
  pub execute_tool_calls-Tells :
      (m : AssistantMessage) (s : Run W)
      → Tells s (execute_tool_calls c m s).1 (map tool_result (execute_tool_calls c m s).0)
  unfolding execute_tool_calls execute_in execute_tool_calls_parallel
  execute_tool_calls-Tells m s =
      elim c.tool_execution
        as (λ mode. Tells s (execute_in c mode m s).1 (map tool_result (execute_in c mode m s).0)) [
          | sequential ↦ execute_tool_calls_sequential-Tells m (tool_calls m.content) s
          | parallel ↦
              let ((results, runnable), s1) = prepare_all c m (tool_calls m.content) s in
              Tells-append results (run_all_prepared c m runnable s1).0
                (prepare_all-Tells m (tool_calls m.content) s)
                (run_all_prepared-Tells m runnable s1)
        ]
