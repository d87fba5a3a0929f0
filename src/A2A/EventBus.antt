-- ===== src/A2A/EventBus.antt =====
-- packages/federation/a2a/src/server/event-bus.ts: the events of the bus and the generator that streams
-- those of a task. The generator subscribes when its first value is asked for, and gets what is
-- dispatched afterwards. Events come in bursts, each all that is dispatched before the generator
-- looks at its buffer again.
use crabbykit.Prelude.{
  String, Bool, true, false, ◌||◌, Option, List, [], ◌∷◌, ◌++◌, ◌==◌, string_eq, if◌then◌else◌,
}
use crabbykit.Sessions.{SessionError}
use crabbykit.A2A.{
  TaskStatus, Artifact, Task, StreamEvent, status_update, artifact_update, task_update,
  is_terminal_state, is_interrupted_state,
}

pub data BusEvent : Type 0 where
  status_event : (task_id context_id : String) → TaskStatus → Bool → BusEvent
  artifact_event : (task_id context_id : String) → Artifact → (append last_chunk : Bool) → BusEvent
  complete_event : String → Option Task → BusEvent
  error_event : String → SessionError → BusEvent

abbrev pub event_task_id : BusEvent → String
event_task_id (status_event task_id context_id status final) = task_id
event_task_id (artifact_event task_id context_id artifact append last_chunk) = task_id
event_task_id (complete_event task_id task) = task_id
event_task_id (error_event task_id e) = task_id

-- What an event pushes to the buffer, and whether the stream ends with it.
abbrev pub stream_event : BusEvent → List StreamEvent
stream_event (status_event task_id context_id status final) =
    status_update
      (record { task_id = task_id; context_id = context_id; status = status; final = final })
    ∷ []
stream_event (artifact_event task_id context_id artifact append last_chunk) =
    artifact_update (record {
      task_id = task_id;
      context_id = context_id;
      artifact = artifact;
      append = append;
      last_chunk = last_chunk;
    })
    ∷ []
stream_event (complete_event task_id task) = task_update task ∷ []
stream_event (error_event task_id e) = []

abbrev pub is_last : BusEvent → Bool
is_last (status_event task_id context_id status final) =
    final || (is_terminal_state status.state || is_interrupted_state status.state)
is_last (artifact_event task_id context_id artifact append last_chunk) = false
is_last (complete_event task_id task) = true
is_last (error_event task_id e) = true

-- The buffer and `done`.
pub record Queue : Type 0 where
  pub buffer : List StreamEvent
  pub is_done : Bool

abbrev pub receive : String → BusEvent → Queue → Queue
receive task_id e q =
    if event_task_id e == task_id
    then record { buffer = q.buffer ++ stream_event e; is_done = q.is_done || is_last e }
    else q

unfoldable pub receive_all : String → List BusEvent → Queue → Queue
receive_all task_id [] q = q
receive_all task_id (e ∷ burst) q = receive_all task_id burst (receive task_id e q)

-- What is yielded, and whether the generator returns; it waits where nothing more is dispatched.
unfoldable pub drain : String → List (List BusEvent) → Queue → List StreamEvent × Bool
unfolding receive_all
drain task_id [] q = (q.buffer, q.is_done)
drain task_id (burst ∷ bursts) q =
    let (more, returned) =
      drain task_id bursts (receive_all task_id burst (record { buffer = []; is_done = false })) in
    if q.is_done then (q.buffer, true) else (q.buffer ++ more, returned)

unfoldable pub event_queue : String → List (List BusEvent) → List StreamEvent × Bool
unfolding drain
event_queue task_id bursts = drain task_id bursts (record { buffer = []; is_done = false })
