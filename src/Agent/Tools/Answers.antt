-- ===== src/Agent/Tools/Answers.antt =====
-- The results of the tool calls of agent-loop.ts, by the calls that they answer.
use mathlib.Core.List.{map-append, Perm, perm_middle, perm-cons}
use mathlib.Core.List.Perm
use crabbykit.Prelude.{
  String, ◌≡◌, refl, sym, ◌∙◌, ap, subst, Option, none, some, List, [], ◌∷◌, ◌++◌, map,
}
use crabbykit.Agent.{
  ToolCall, AssistantMessage, ToolResultMessage, Tool, Validation, valid, invalid, proceed, block,
  throws, BeforeToolCall, Config, Run, sequential, parallel, tool_execution_start,
  ToolExecutionMode,
}
use crabbykit.Agent.Tools.{
  emit, emit_tool_call_outcome, prepared, immediate, Preparation, PreparedToolCall, after_before,
  after_validation, prepare_with, prepare_tool_call, resolve_tool, run_prepared,
  finalize_executed_tool_call, run_preparation, run_call, sort_preparation,
  execute_tool_calls_sequential, prepare_all, run_all_prepared, execute_tool_calls_parallel,
  execute_in, execute_tool_calls, tool_calls,
}

abbrev pub answered : List ToolResultMessage → List String
answered results = map (λ (r : ToolResultMessage). r.tool_call_id) results

abbrev pub called : List ToolCall → List String
called calls = map (λ (t : ToolCall). t.id) calls

abbrev prepared_for : List PreparedToolCall → List String
prepared_for runnable = map (λ (p : PreparedToolCall). p.call.id) runnable

-- A call that is prepared is the one that was asked for.
abbrev IsFor : ToolCall → Preparation → Type 0
IsFor call (immediate _) = Unit
IsFor call (prepared p) = p.call.id ≡ call.id

module _ {W : Type 0} (c : Config W) where
  after_before-IsFor :
      (call : ToolCall) (tool : Tool) (a : String) (b : BeforeToolCall)
      → IsFor call (after_before c call tool a b)
  unfolding after_before
  after_before-IsFor call tool a proceed = refl
  after_before-IsFor call tool a (block _) = tt
  after_before-IsFor call tool a (throws _) = tt

  after_validation-IsFor :
      (m : AssistantMessage) (call : ToolCall) (tool : Tool) (v : Validation) (s : Run W)
      → IsFor call (after_validation c m call tool v s).0
  unfolding after_validation
  after_validation-IsFor m call tool (invalid _) s = tt
  after_validation-IsFor m call tool (valid a) s =
      after_before-IsFor call tool a (c.before_tool_call m call a s.context s.world).0

  prepare_with-IsFor :
      (m : AssistantMessage) (call : ToolCall) (tool : Option Tool) (s : Run W)
      → IsFor call (prepare_with c m call tool s).0
  unfolding prepare_with
  prepare_with-IsFor m call none s = tt
  prepare_with-IsFor m call (some tool) s =
      after_validation-IsFor m call tool (c.validate_tool_arguments tool call) s

  prepare_tool_call-IsFor :
      (m : AssistantMessage) (call : ToolCall) (s : Run W)
      → IsFor call (prepare_tool_call c m call s).0
  unfolding prepare_tool_call
  prepare_tool_call-IsFor m call s = prepare_with-IsFor m call (resolve_tool call.name c.tools) s

  run_prepared-id :
      (m : AssistantMessage) (p : PreparedToolCall) (s : Run W)
      → (run_prepared c m p s).0.tool_call_id ≡ p.call.id
  unfolding run_prepared finalize_executed_tool_call emit_tool_call_outcome
  run_prepared-id m p s = refl

  run_preparation-id :
      (m : AssistantMessage) (call : ToolCall) (p : Preparation) (s : Run W)
      → IsFor call p
      → (run_preparation c m call p s).0.tool_call_id ≡ call.id
  unfolding run_preparation emit_tool_call_outcome
  run_preparation-id m call (immediate r) s h = refl
  run_preparation-id m call (prepared p) s h = run_prepared-id m p s ∙ h

  pub execute_tool_calls_sequential-answered :
      (m : AssistantMessage) (calls : List ToolCall) (s : Run W)
      → answered (execute_tool_calls_sequential c m calls s).0 ≡ called calls
  unfolding execute_tool_calls_sequential run_call
  execute_tool_calls_sequential-answered m [] s = refl
  execute_tool_calls_sequential-answered m (call ∷ calls) s =
      let s0 = emit (tool_execution_start call) s in
      let (preparation, s1) = prepare_tool_call c m call s0 in
      let (r, s2) = run_preparation c m call preparation s1 in
      let head = run_preparation-id m call preparation s1 (prepare_tool_call-IsFor m call s0) in
      λ i. head i ∷ execute_tool_calls_sequential-answered m calls s2 i

  run_all_prepared-answered :
      (m : AssistantMessage) (runnable : List PreparedToolCall) (s : Run W)
      → answered (run_all_prepared c m runnable s).0 ≡ prepared_for runnable
  unfolding run_all_prepared
  run_all_prepared-answered m [] s = refl
  run_all_prepared-answered m (p ∷ runnable) s =
      λ i. run_prepared-id m p s i ∷ run_all_prepared-answered m runnable (run_prepared c m p s).1 i

  sort_preparation-Perm :
      (call : ToolCall) (p : Preparation) (s : Run W) (results : List ToolResultMessage)
      (runnable : List PreparedToolCall) (ids : List String)
      → IsFor call p
      → Perm (answered results ++ prepared_for runnable) ids
      → Perm
          (answered ((sort_preparation c call p s).0.0 ++ results)
            ++ prepared_for ((sort_preparation c call p s).0.1 ++ runnable))
          (call.id ∷ ids)
  unfolding sort_preparation emit_tool_call_outcome
  sort_preparation-Perm call (immediate _) s results runnable ids same h = (perm-cons call.id).1 h
  sort_preparation-Perm call (prepared p) s results runnable ids same h =
      Perm.trans (perm_middle (answered results) (prepared_for runnable)) (
        subst (λ x. Perm (x ∷ (answered results ++ prepared_for runnable)) (call.id ∷ ids))
          (sym same) ((perm-cons call.id).1 h))

  -- The immediate results and the runnable calls together answer the calls.
  prepare_all-Perm :
      (m : AssistantMessage) (calls : List ToolCall) (s : Run W)
      → Perm
          (answered (prepare_all c m calls s).0.0 ++ prepared_for (prepare_all c m calls s).0.1)
          (called calls)
  unfolding prepare_all
  prepare_all-Perm m [] s = Perm.refl []
  prepare_all-Perm m (call ∷ calls) s =
      let s0 = emit (tool_execution_start call) s in
      let (preparation, s1) = prepare_tool_call c m call s0 in
      let (_, s2) = sort_preparation c call preparation s1 in
      let ((results, runnable), _) = prepare_all c m calls s2 in
      sort_preparation-Perm call preparation s1 results runnable (called calls)
        (prepare_tool_call-IsFor m call s0) (prepare_all-Perm m calls s2)

  execute_tool_calls_parallel-answered :
      (m : AssistantMessage) (calls : List ToolCall) (s : Run W)
      → Perm (answered (execute_tool_calls_parallel c m calls s).0) (called calls)
  unfolding execute_tool_calls_parallel
  execute_tool_calls_parallel-answered m calls s =
      let ((results, runnable), s1) = prepare_all c m calls s in
      subst (λ ids. Perm ids (called calls))
        (sym (
          map-append (λ (r : ToolResultMessage). r.tool_call_id) results
            (run_all_prepared c m runnable s1).0
          ∙ ap (λ ids. answered results ++ ids) (run_all_prepared-answered m runnable s1)))
        (prepare_all-Perm m calls s)

  execute_in-answered :
      (mode : ToolExecutionMode) (m : AssistantMessage) (s : Run W)
      → Perm (answered (execute_in c mode m s).0) (called (tool_calls m.content))
  unfolding execute_in
  execute_in-answered sequential m s =
      subst (λ ids. Perm ids (called (tool_calls m.content)))
        (sym (execute_tool_calls_sequential-answered m (tool_calls m.content) s))
        (Perm.refl (called (tool_calls m.content)))
  execute_in-answered parallel m s = execute_tool_calls_parallel-answered m (tool_calls m.content) s

  -- In either mode the results of a message's tool calls answer just these calls, each as often as
  -- it was made, also where a tool is missing, is blocked, refuses its arguments or throws.
  pub execute_tool_calls-answered :
      (m : AssistantMessage) (s : Run W)
      → Perm (answered (execute_tool_calls c m s).0) (called (tool_calls m.content))
  unfolding execute_tool_calls
  execute_tool_calls-answered m s = execute_in-answered c.tool_execution m s
