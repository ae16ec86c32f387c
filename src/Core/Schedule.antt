-- ===== src/Core/Schedule.antt =====
-- The threads of a pool and the thread that owns it, interleaved in any order: a schedule is a list of
-- actions. An action that has to wait, or that is not due, changes nothing.
pub mod Weights
pub mod Graceful
pub mod Draining
pub mod Leaving
pub mod Bag
pub mod Refines
pub mod Deleted
pub mod Load
pub mod Owing
pub mod Intake
pub mod Path
pub mod Tame
pub mod Fair
pub mod Turns
pub mod Waiting
pub mod Round
pub mod Terminating
pub mod Cycle
pub mod Destroying
pub mod Stuck
pub mod Hard
pub mod Stopping
pub mod Exactly
pub mod Bounds
pub mod Conservation
use mini_rts.Base.{ℕ, Bool, true, false, List, [], ◌∷◌, ◌++◌, ltb, if◌then◌else◌}
use mini_rts.Core.Constants.{ShutdownMode}
use mini_rts.Core.Queues.{Deque, Spsc}
use mini_rts.Core.Worker.{Submit}
use mini_rts.Core.Pool.{Pool, launch_step, submit_step, finalize_step, join_step, destroy_step}
use mini_rts.Core.Thread.{Event, submitted, worker_step}

-- `does` is what the task that the worker calls will submit while it runs, and `raced` whether
-- another thread is faster at a steal: both are the environment's choice.
pub data Action (T : Type 0) : Type 0 where
  work : (i : ℕ) (raced : Bool) (does : List (Submit T)) → Action T
  launch : Action T
  submit : T → Action T
  finalize : ShutdownMode → Action T
  join : Action T
  destroy : Action T

abbrev pub shown : {T : Type 0} → T → Bool → List (Event T)
shown x true = submitted x ∷ []
shown x false = []

module _ {T : Type 0} (d : Deque T) (s : Spsc T) (num_threads : ℕ) where
  unfoldable pub act : Pool d s num_threads → Action T → Pool d s num_threads × List (Event T)
  unfolding launch_step submit_step finalize_step join_step destroy_step
  act p (work i raced does) =
      if ltb i num_threads
      then worker_step d s num_threads p i raced does (p.workers i) (p.workers i).pc
      else (p, [])
  act p launch = (launch_step d s num_threads p p.phase, [])
  act p (submit x) = let (p', done) = submit_step d s num_threads p x p.phase in (p', shown x done)
  act p (finalize mode) = (finalize_step d s num_threads p mode p.phase, [])
  act p join = (join_step d s num_threads p p.phase, [])
  act p destroy = (destroy_step d s num_threads p p.phase, [])

  -- A schedule: the actions in the order in which they happen, with what they show.
  unfoldable pub run :
      Pool d s num_threads → List (Action T) → Pool d s num_threads × List (Event T)
  run p [] = (p, [])
  run p (a ∷ rest) = let (p', e) = act p a in let (p'', es) = run p' rest in (p'', e ++ es)
