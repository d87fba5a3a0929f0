-- ===== src/Agent/Loop/Ends.antt =====
-- The iterations of `runLoop` in agent-loop.ts, against its limit.
use crabbykit.Prelude.{
  ℕ, zero, suc, ◌+◌, ◌≤◌, ◌<◌, ◌≡◌, refl, Bool, true, false, List, arith, inl, inr, Bool-cases, ltb,
}
use crabbykit.Agent.{Message, Config, Run}
use crabbykit.Agent.Loop.{
  after_iteration, Next, over, turn_again, Exit, returned, turn, max_iterations_of, run_loop,
  start_loop,
}

module _ {W : Type 0} (c : Config W) where
  after_iteration_total :
      (go_on : List Message → Run W → Exit × Run W) (next : Next) (s : Run W)
      → ((pending : List Message) (t : Run W) → (go_on pending t).0 ≡ returned)
      → (after_iteration go_on next s).0 ≡ returned
  after_iteration_total go_on over s ih = refl
  after_iteration_total go_on (turn_again pending) s ih = ih pending s

  run_loop_total :
      (fuel : ℕ) (first : Bool) (count : ℕ) (pending : List Message) (s : Run W)
      → count ≤ max_iterations_of c
      → max_iterations_of c < count + fuel
      → (run_loop c fuel first count pending s).0 ≡ returned
  unfolding run_loop
  run_loop_total zero first count pending s low enough = absurd (omega arith)
  run_loop_total (suc fuel) first count pending s low enough =
      elim (Bool-cases (ltb (max_iterations_of c) (count + 1))) [
        | inl past ↦ rw past refl
        | inr below ↦
            let next_low : count + 1 ≤ max_iterations_of c = ground (arith, below) in
            rw below (
              after_iteration_total (run_loop c fuel false (count + 1)) (turn c first pending s).0
                (turn c first pending s).1
                (λ more t. run_loop_total fuel false (count + 1) more t next_low (omega arith)))
      ]

  -- Whatever the model answers and the callbacks do, a run returns: the iteration that exceeds the
  -- limit is its last.
  pub start_loop_total : (s : Run W) → (start_loop c s).0 ≡ returned
  unfolding start_loop
  start_loop_total s =
      run_loop_total (suc (max_iterations_of c)) true 0 (c.get_steering_messages s.world).0
        (record s { world = (c.get_steering_messages s.world).1 }) (omega arith) (omega arith)
