-- ===== src/Samples/Endings.antt =====
-- A hard shutdown, and a destructor, that are brought to their end, on a concrete schedule.
use mini_rts.Base.{ℕ, ◌≡◌, refl, false, List, [], ◌∷◌, All, arith}
use mini_rts.Core.Constants.{hard_shutdown}
use mini_rts.Core.Worker.{local}
use mini_rts.Core.Worker
use mini_rts.Core.Worker.Victim
use mini_rts.Core.Thread
use mini_rts.Core.Pool.{serving, joined, destroyed, construct_pool}
use mini_rts.Core.Schedule.{Action, work, launch, submit, finalize, destroy, run, act}
use mini_rts.Core.Schedule
use mini_rts.Core.Schedule.Tame.{IsTame}
use mini_rts.Core.Schedule.Cycle.{cycle, cycle-IsFair}
use mini_rts.Core.Schedule.Fair.{at_time}
use mini_rts.Core.Schedule.Terminating.{hard_shutdown_terminates}
use mini_rts.Core.Schedule.Destroying.{destructor_terminates}
use mini_rts.Samples.Workers.{d, s, start}

-- The first worker is in a task that has submitted another one, the second has not begun its loop.
abbrev halfway : List (Action ℕ)
halfway =
    launch
    ∷ launch
    ∷ launch
    ∷ submit 7
    ∷ submit 8
    ∷ work 0 false []
    ∷ work 0 false []
    ∷ work 0 false []
    ∷ work 0 false []
    ∷ work 0 false []
    ∷ work 0 false []
    ∷ work 0 false (local 9 ∷ [])
    ∷ work 0 false []
    ∷ []

halfway-serving : (run d s 2 start halfway).0.phase ≡ serving
unfolding run construct_pool Schedule.act Thread.worker_step Worker.enqueue Victim.pick_victim
halfway-serving = refl

halfway-IsTame : All IsTame halfway
halfway-IsTame =
    (tt, (tt, (tt, (tt, (tt, (tt, (tt, (tt, (tt, (tt, (tt, ((tt, tt), (tt, tt)))))))))))))

hard_shutdown_terminates_example :
    (t : ℕ) × ((at_time d s 2
        (act d s 2 (run d s 2 start halfway).0 (finalize hard_shutdown)).0
        (cycle ℕ 2)
        t).phase
      ≡ joined)
hard_shutdown_terminates_example =
    hard_shutdown_terminates d s 2 4 halfway (cycle ℕ 2) (omega arith) halfway-IsTame
      halfway-serving (cycle-IsFair ℕ 2)

destructor_terminates_example :
    (t : ℕ) × ((at_time d s 2 (act d s 2 (run d s 2 start halfway).0 destroy).0 (cycle ℕ 2) t).phase
      ≡ destroyed)
destructor_terminates_example =
    destructor_terminates d s 2 4 halfway (cycle ℕ 2) (omega arith) halfway-IsTame halfway-serving
      (cycle-IsFair ℕ 2)
