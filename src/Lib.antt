-- ===== src/Lib.antt =====
-- Verification of the core of crabbykit, a library for AI agents on Cloudflare Durable Objects: its
-- stores, its schedules, its agent loop and its checks on bundles.
--
-- An agent keeps its state in a SQL database of its own and runs its calls one at a time, so a
-- store's method is one step from tables to tables. A store is modelled as such steps: the
-- tables are lists of records, a method is a function from the tables to its answer and the tables
-- after it, and what a method throws is a value of an outcome or option type. What a method takes
-- from nanoid, the clocks and the hash function is an argument of its model.
--
--   Tasks      packages/capabilities/task-tracker/src (types.ts, task-store.ts): `TaskStore`. Tasks.Graph
--              is the cycle search of `assertNoCycle`, Tasks.Db the tables and the checks, Tasks.Store
--              the methods that write, Tasks.Queries `list`, `getDeps` and `ready`. `authChecker` is a
--              function that the class receives, and a parameter here.
--   Sessions   packages/runtime/agent-runtime/src/session (types.ts, session-store.ts): `SessionStore`.
--              Sessions.Store has the methods that read and write rows, Sessions.Tree those that walk
--              the parent chain (`buildContext`, `branch`, `gc`), Sessions.Invariant the well-formed
--              tables and what keeps them so.
--   Schedules  packages/runtime/agent-runtime/src/scheduling (types.ts, schedule-store.ts):
--              `ScheduleStore`; the runtime sets its alarm to `getEarliestFireTime` and fires what
--              `getDueSchedules` answers.
--   Alarm      packages/runtime/agent-runtime/src/agent-runtime.ts: `handleAlarmFired`, which fires the due
--              schedules, and the cleanup of their sessions; callbacks, hooks and prompts are arguments
--              that may change the stores.
--   Cron       packages/runtime/agent-runtime/src/scheduling/cron.ts: Cron.Parse reads a field of an
--              expression, Cron.Expressions a whole one or an interval, Cron searches the next fire
--              time. What the platform's calendar says of a day's number is a parameter.
--   Compaction packages/runtime/agent-runtime/src/compaction/compaction.ts: the token estimates, the
--              cut point, the chunks and the emergency truncation; Compaction.Stages has
--              `summarizeInStages` and `compactSession`, Compaction.Truncate `truncateToolResult`.
--              The cut's entry becomes the boundary that `buildContext` resolves.
--   RateLimit  packages/runtime/agent-runtime/src/rate-limit (types.ts, sliding-window.ts):
--              `consume` as one step over the table of buckets.
--   Budget     packages/runtime/bundle-host/src/budget-tracker.ts: the counts of RPC calls per nonce.
--   Bundles    packages/runtime/bundle-host/src/in-memory-registry.ts, validate-routes.ts and
--              validate-config.ts, and packages/runtime/bundle-registry/src/validate.ts: versions,
--              the promotion checks, the pointers of agents. Bundles.D1 is the registry on tables,
--              packages/runtime/bundle-registry/src/d1-registry.ts, and Bundles.Dispatcher the class of
--              packages/runtime/bundle-host/src/dispatcher.ts, which takes a registry through
--              Bundles.Interface; what a version's worker does with a turn is an argument.
--   Agent      packages/runtime/agent-core/src (types.ts, agent-loop.ts, tool-call-repair.ts, agent.ts):
--              the loop of model responses and tool calls. Agent.Names repairs the name of a tool,
--              Agent.Transient tests an error's text, Agent.Tools runs the tool calls of a message,
--              Agent.Loop is `runLoop` with its retries, Agent.Class the `Agent` class that follows
--              the loop's events. A run is a value that passes through the loop: the context, the new
--              messages, the events emitted so far, and the world, which the model's stream, the
--              tools and the callbacks read and change.
--   A2A        packages/federation/a2a/src (types.ts, errors.ts and, in server, task-store.ts, event-bus.ts,
--              claw-executor.ts, handler.ts, push-notifications.ts): the server of the A2A protocol.
--              A2A.Store is `TaskStore`, A2A.EventBus `A2AEventBus` and `eventQueue`, A2A.Executor
--              and A2A.Settle `ClawExecutor` before and after a prompt, with sessions in the session
--              store of Sessions, and A2A.Handler `A2AHandler`. A request runs until its first wait, the
--              prompt's, and the end of a prompt, with any outcome, is a step of its own: A2A.Reachable
--              has the servers that any order of these leads to. What `sendPrompt` comes to is an
--              argument.
--   Prelude    tests, lists, association lists in place of `Map`, sorting in place of ORDER BY, and the
--              order of SQLite's text columns.
--
-- Types: numbers are natural numbers, since sequence numbers, counts, limits and times are; texts
-- are native texts, and lists of UTF-16 code units where their length counts. ISO times are compared
-- as texts, as SQLite does. `x ? … : …` on a text is `truthy`: the empty text counts as absent.
--
-- Loops: those over a list recurse on it. The cycle search runs on fuel of one round per dependency
-- row and one more, and the walks of the session tree on fuel of one more than the largest sequence
-- number of the session. A model that spends its fuel answers so.
-- The agent loop runs on fuel of one unit for each iteration that its limit allows and one more, for
-- the iteration that exceeds it.
-- The search for a fire time runs on the source's own bound of rounds as its fuel, and a loop over the
-- values of a field on one more than their maximum.
-- A round of the cycle search visits a task for the first time or drops an edge, and a parent's sequence
-- number is smaller than its child's in well-formed tables, so this fuel is enough.
-- The alarm's loop is over the schedules that were due when it fired.
--
-- Not modelled: what Intl answers for a time zone, JSON text and its parsing, schema creation
-- and migrations, and the order in which SQLite answers tied rows (the table's, here).
-- Date.now() reads the same in one call. Compaction's products and quotients are exact where
-- the source's are doubles. The tools of a batch run in the order in which they start. No callback
-- of the loop rejects: of most their contracts say so, and afterToolCall, of which they say nothing, is
-- taken to be one that does not. In task-store.ts a read of a missing row throws, as TaskNotFoundError or
-- as the error of `.one()`. Outside these parts are the rest of
-- the runtime class, the Durable Object shell, model providers, sandboxes, HTTP transports,
-- channels and the user interface, which are mostly asynchronous glue around platform services.
pub mod Prelude
pub mod RateLimit
pub mod Budget
pub mod Tasks
pub mod Sessions
pub mod Schedules
pub mod Compaction
pub mod Cron
pub mod Bundles
pub mod A2A
pub mod Agent
pub mod Alarm
