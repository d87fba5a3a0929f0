-- ===== src/Agent/Class/Follows.antt =====
-- The messages of the `Agent` class of agent.ts, against those of the loop that it runs.
use crabbykit.Prelude.{List}
