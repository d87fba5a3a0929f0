-- ===== src/A2A/Stream.antt =====
-- What message/stream of handler.ts streams, from the events of claw-executor.ts through event-bus.ts.
use mathlib.Core.List.{append-nil, append_assoc}
use crabbykit.Prelude.{
  ℕ, String, ◌≡◌, refl, sym, ◌∙◌, ap, subst, Bool, true, false, ◌||◌, Option, none, some, List, [],
  ◌∷◌, ◌++◌, inl, inr, any, Bool-cases, if◌then◌else◌, string_eq, ◌==◌, ==_refl,
}
use crabbykit.Sessions as Sessions
use crabbykit.Sessions.{Outcome, ok, err}
use crabbykit.A2A.{working, Message, MessageSendConfiguration, StreamEvent, Task}
use crabbykit.A2A.Store.{TaskDb, get_task, update_status}
use crabbykit.A2A.EventBus.{
  BusEvent, error_event, event_task_id, stream_event, is_last, Queue, receive_all, drain,
  event_queue,
}
use crabbykit.A2A.Executor.{
  Run, Execution, refused, waiting, detached, thrown, Server, plain_status, execute, execute_text,
  with_session, started,
}
use crabbykit.A2A.Settle.{
  Prompted, responded, failed_with, Settled, settle, settle_blocking, settle_detached,
  complete_blocking, fail_blocking,
}
use crabbykit.A2A.Handler.{streamed}

abbrev pub flat : List BusEvent → List StreamEvent
flat [] = []
flat (e ∷ events) = stream_event e ++ flat events

-- The events of the end of an execution's prompt.
abbrev pub end_events : (ℕ → String) → Execution → Prompted → TaskDb → List BusEvent
end_events clock (refused task) outcome db = []
end_events clock (waiting run) outcome db = (settle clock run outcome db).events
end_events clock (detached run task) outcome db = (settle clock run outcome db).events
end_events clock (thrown e) outcome db = []

-- Whether the stream ends: not where no prompt runs, and not where one fails that is not waited for.
abbrev pub does_end : Execution → Prompted → Bool
does_end (refused task) outcome = false
does_end (waiting run) outcome = true
does_end (detached run task) (responded response) = true
does_end (detached run task) (failed_with message) = false
does_end (thrown e) outcome = true

abbrev AreOf : String → List BusEvent → Type 0
AreOf task_id [] = Unit
AreOf task_id (e ∷ events) = (event_task_id e ≡ task_id) × AreOf task_id events

or_assoc : (a b c : Bool) → (a || b) || c ≡ a || (b || c)
or_assoc true b c = refl
or_assoc false b c = refl

or_false : (a : Bool) → a || false ≡ a
or_false true = refl
or_false false = refl

queue_eq :
    {b c : List StreamEvent} {d e : Bool}
    → b ≡ c
    → d ≡ e
    → Path Queue (record { buffer = b; is_done = d }) (record { buffer = c; is_done = e })
queue_eq p q = cc

receive_all-AreOf :
    (task_id : String) (events : List BusEvent)
    → AreOf task_id events
    → (q : Queue)
    → receive_all task_id events q
      ≡ record { buffer = q.buffer ++ flat events; is_done = q.is_done || any is_last events }
unfolding receive_all
receive_all-AreOf task_id [] own q = queue_eq (sym (append-nil q.buffer)) (sym (or_false q.is_done))
receive_all-AreOf task_id (e ∷ events) (same, own) q =
    rw (ap (λ id. id == task_id) same ∙ ==_refl task_id) (
      receive_all-AreOf task_id events own
        (record { buffer = q.buffer ++ stream_event e; is_done = q.is_done || is_last e })
      ∙ queue_eq (append_assoc q.buffer (stream_event e) (flat events))
          (or_assoc q.is_done (is_last e) (any is_last events)))

-- The events of an execution are of its task.
abbrev IsOf : String → Execution → Type 0
IsOf task_id (refused task) = Unit
IsOf task_id (waiting run) = (run.task_id ≡ task_id) × (run.blocking ≡ true)
IsOf task_id (detached run task) = (run.task_id ≡ task_id) × (run.blocking ≡ false)
IsOf task_id (thrown e) = Unit

abbrev EndsWith : String → Settled → Type 0
EndsWith task_id settled = AreOf task_id settled.events × (any is_last settled.events ≡ true)

complete_blocking-EndsWith :
    (clock : ℕ → String) (run : Run) (e : BusEvent) (task : Option Task) (db : TaskDb)
    → event_task_id e ≡ run.task_id
    → is_last e ≡ true
    → EndsWith run.task_id (complete_blocking clock run e task db)
unfolding complete_blocking fail_blocking
complete_blocking-EndsWith clock run e none db same last =
    ((same, (refl, (refl, tt))), rw last refl)
complete_blocking-EndsWith clock run e (some task) db same last = ((same, (refl, tt)), rw last refl)

settle_blocking-EndsWith :
    (clock : ℕ → String) (run : Run) (outcome : Prompted) (db : TaskDb)
    → EndsWith run.task_id (settle_blocking clock run outcome db)
unfolding settle_blocking fail_blocking
settle_blocking-EndsWith clock run (responded response) db =
    complete_blocking-EndsWith clock run _ _ _ refl refl
settle_blocking-EndsWith clock run (failed_with message) db = ((refl, (refl, tt)), refl)

-- One burst of a task's own events.
one_burst :
    (task_id : String) (events : List BusEvent)
    → AreOf task_id events
    → event_queue task_id (events ∷ []) ≡ (flat events, any is_last events)
unfolding event_queue drain
one_burst task_id events own =
    ap (λ (q : Queue). (q.buffer, q.is_done))
      (receive_all-AreOf task_id events own (record { buffer = []; is_done = false }))

-- The same, where the events are only equal to some of which it is known.
known_burst :
    (task_id : String) (run : Run) (events known : List BusEvent) (last : Bool)
    → run.task_id ≡ task_id
    → events ≡ known
    → AreOf run.task_id known
    → any is_last known ≡ last
    → event_queue task_id (events ∷ []) ≡ (flat events, last)
known_burst task_id run events known last same equal own ends =
    one_burst task_id events
      (subst (λ id. AreOf id events) same (subst (AreOf run.task_id) (sym equal) own))
    ∙ ap (λ b. (flat events, b)) (ap (any is_last) equal ∙ ends)

settle-events :
    (clock : ℕ → String) (run : Run) (outcome : Prompted) (db : TaskDb) (blocking : Bool)
    → run.blocking ≡ blocking
    → (settle clock run outcome db).events
      ≡ (if blocking
          then settle_blocking clock run outcome db
          else settle_detached clock run outcome db).events
unfolding settle
settle-events clock run outcome db blocking same =
    ap
      (λ b.
        (if b
          then settle_blocking clock run outcome db
          else settle_detached clock run outcome db).events)
      same

streamed-does_end :
    (clock : ℕ → String) (task_id : String) (x : Execution) (outcome : Prompted) (db : TaskDb)
    → IsOf task_id x
    → streamed task_id x (end_events clock x outcome db)
      ≡ (flat (end_events clock x outcome db), does_end x outcome)
unfolding streamed settle_detached event_queue drain
streamed-does_end clock task_id (refused task) outcome db own = refl
streamed-does_end clock task_id (waiting run) outcome db (same, blocking) =
    let (own, last) = settle_blocking-EndsWith clock run outcome db in
    known_burst task_id run (settle clock run outcome db).events
      (settle_blocking clock run outcome db).events true same
      (settle-events clock run outcome db true blocking) own last
streamed-does_end clock task_id (detached run task) (responded response) db (same, blocking) =
    known_burst task_id run (settle clock run (responded response) db).events
      (settle_detached clock run (responded response) db).events true same
      (settle-events clock run (responded response) db false blocking) (refl, tt) refl
streamed-does_end clock task_id (detached run task) (failed_with message) db (same, blocking) =
    known_burst task_id run (settle clock run (failed_with message) db).events [] false same
      (settle-events clock run (failed_with message) db false blocking) tt refl
streamed-does_end clock task_id (thrown e) outcome db own =
    one_burst task_id (error_event task_id e ∷ []) (refl, tt)

started-IsOf : (run : Run) (tasks : TaskDb) → IsOf run.task_id (started run tasks)
unfolding started
started-IsOf run tasks = elim (Bool-cases run.blocking) [
  | inl waits ↦
      subst (IsOf run.task_id)
        (sym (ap (λ b. if b then waiting run else detached run (get_task tasks run.task_id)) waits))
        (refl, waits)
  | inr detaches ↦
      subst (IsOf run.task_id)
        (sym
          (ap (λ b. if b then waiting run else detached run (get_task tasks run.task_id)) detaches))
        (refl, detaches)
]

with_session-IsOf :
    (clock : ℕ → String) (task_id context_id text : String) (blocking : Bool)
    (r : Outcome String × Sessions.Db) (s : Server)
    → IsOf task_id (with_session clock task_id context_id text blocking r s).0.0
unfolding with_session
with_session-IsOf clock task_id context_id text blocking (err e, sessions) s = tt
with_session-IsOf clock task_id context_id text blocking (ok session_id, sessions) s =
    started-IsOf
      (record {
        task_id = task_id;
        context_id = context_id;
        session_id = session_id;
        text = text;
        blocking = blocking;
      })
      (update_status task_id (plain_status working (clock 2)) (clock 3) s.tasks)

execute_text-IsOf :
    (env : Sessions.Env) (clock : ℕ → String) (task_id : String) (text : Option String)
    (m : Message) (configuration : Option MessageSendConfiguration) (s : Server)
    → IsOf task_id (execute_text env clock task_id text m configuration s).0.0
unfolding execute_text
execute_text-IsOf env clock task_id none m configuration s = tt
execute_text-IsOf env clock task_id (some text) m configuration s =
    with_session-IsOf clock task_id _ text _ _ s

-- A message's stream has what the end of its prompt emits, all and in order, for every outcome of the
-- prompt and whatever the tasks are by then; and it returns just where the execution waits for its
-- prompt, has thrown, or has left a prompt running that is responded to.
pub execute-streamed :
    (env : Sessions.Env) (clock later : ℕ → String) (task_id : String) (m : Message)
    (configuration : Option MessageSendConfiguration) (s : Server) (outcome : Prompted)
    (db : TaskDb)
    → streamed task_id
        (execute env clock task_id m configuration s).0.0
        (end_events later (execute env clock task_id m configuration s).0.0 outcome db)
      ≡ (
        flat (end_events later (execute env clock task_id m configuration s).0.0 outcome db),
        does_end (execute env clock task_id m configuration s).0.0 outcome,
      )
unfolding execute
execute-streamed env clock later task_id m configuration s outcome db =
    streamed-does_end later task_id _ outcome db
      (execute_text-IsOf env clock task_id _ m configuration s)
