-- ===== src/Core/Schedule/Load.antt =====
-- src/core/default_thread_pool.h: what `compute_saturation` measures in any schedule, while the workers
-- go on.
use mini_rts.Base.{ℕ, zero, suc, ◌-◌, List, ◌++◌}
use mini_rts.Core.Queues.{Deque, Spsc}
use mini_rts.Core.Pool.{Pool, construct_pool}
use mini_rts.Core.Schedule.{Action, run}
use mini_rts.Core.Schedule.Weights.{weigh_submitted, weigh_finished}

abbrev pub each : {T : Type 0} → T → ℕ
each t = 1

-- What has happened when the worker `k` is read: the schedule, and what came between the reads.
abbrev pub so_far : {T : Type 0} → List (Action T) → (ℕ → List (Action T)) → ℕ → List (Action T)
so_far schedule between zero = schedule
so_far schedule between (suc k) = so_far schedule between k ++ between k

module _ {T : Type 0} (d : Deque T) (s : Spsc T) (n : ℕ) where
  abbrev pub submitted_by : Pool d s n → List (Action T) → ℕ
  submitted_by p a = weigh_submitted each (run d s n p a).1

  abbrev pub finished_by : Pool d s n → List (Action T) → ℕ
  finished_by p a = weigh_finished each (run d s n p a).1

  module _ (queue_capacity : ℕ) (schedule : List (Action T)) (between : ℕ → List (Action T)) where
    -- The pool when the worker `k` is read.
    abbrev pub view : ℕ → Pool d s n
    view k = (run d s n (construct_pool d s n queue_capacity) (so_far schedule between k)).0

    abbrev begun : Pool d s n
    begun = construct_pool d s n queue_capacity

    -- The tasks submitted when the loop ends, less those finished when it begins.
    abbrev pub around : ℕ
    around = submitted_by begun (so_far schedule between n) - finished_by begun schedule
