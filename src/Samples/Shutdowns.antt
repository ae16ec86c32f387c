-- ===== src/Samples/Shutdowns.antt =====
-- Shutdowns, a worker that waits for itself, and the bag of tasks, on concrete schedules.
use mini_rts.Base.{ℕ, ◌≤◌, ◌≡◌, ◌≢◌, refl, zero, suc, false, some, List, [], ◌∷◌, ◌++◌, arith}
use native.Mathlib.Decide.{ℕ_discrete}
use mini_rts.Base.Family.{total}
use mini_rts.Core.Constants.{hard_shutdown, soft_shutdown}
use mini_rts.Core.Worker.{Submit, global, running}
use mini_rts.Core.Worker
use mini_rts.Core.Worker.Victim
use mini_rts.Core.Thread
use mini_rts.Core.Pool.{joined, destroyed, construct_pool}
use mini_rts.Core.Schedule.{Action, work, launch, submit, finalize, join, destroy, run, act}
use mini_rts.Core.Schedule
use mini_rts.Core.Schedule.Bag.{bag, replay}
use mini_rts.Core.Schedule.Deleted.{destroyed_quiet}
use mini_rts.Core.Schedule.Hard.{round_of, one, hard_shutdown_bound}
use mini_rts.Core.Schedule.Refines.{contents, run_refines}
use mini_rts.Core.Schedule.Stuck.{IsStuck, the_worker, own_queue_deadlock}
use mini_rts.Core.Schedule.Weights.{weigh_finished}
use mini_rts.Samples.Workers.{works, busy, whole, d, s, start}

run_refines_example :
    (l : List ℕ) × (replay ℕ_discrete (run d s 2 start busy).1 [] ≡ some l)
    × (bag l ≡ contents ℕ_discrete d s 2 (run d s 2 start busy).0)
run_refines_example = run_refines ℕ_discrete d s 2 4 busy (omega arith)

abbrev halted : List (Action ℕ)
halted = busy ++ finalize hard_shutdown ∷ []

halted-flag : (run d s 2 start halted).0.stop_flag ≡ 1
unfolding run construct_pool Schedule.act Thread.worker_step Worker.enqueue Victim.pick_victim
halted-flag = refl

hard_shutdown_bound_example :
    (weigh_finished one (run d s 2 (run d s 2 start halted).0 (works 0 9)).1
      ≤ total (round_of d s 2) 2 (run d s 2 start halted).0.workers)
    × (total (round_of d s 2) 2 (run d s 2 start halted).0.workers ≤ 2)
hard_shutdown_bound_example =
    hard_shutdown_bound d s 2 4 halted (works 0 9) (omega arith) (omega arith) halted-flag

abbrev freed : List (Action ℕ)
freed = whole ++ destroy ∷ []

freed-destroyed : (run d s 2 start freed).0.phase ≡ destroyed
unfolding run construct_pool Schedule.act Thread.worker_step Worker.enqueue Victim.pick_victim
freed-destroyed = refl

destroyed_quiet_example :
    act d s 2 (run d s 2 start freed).0 (work 1 false []) ≡ ((run d s 2 start freed).0, [])
destroyed_quiet_example =
    destroyed_quiet d s 2 4 freed (work 1 false []) (omega arith) (omega arith) freed-destroyed

-- A worker goes on between the two reads.
abbrev one_step : ℕ → List (Action ℕ)
one_step k = work 0 false [] ∷ []

-- One worker with room for one task: the first task submits another, and the owner fills the queue.
abbrev blocked : List (Action ℕ)
blocked = launch ∷ launch ∷ submit 5 ∷ works 0 6 ++ work 0 false (global 9 ∷ []) ∷ submit 6 ∷ []

blocked-IsStuck : IsStuck d s 5 9 [] (run d s 1 (construct_pool d s 1 1) blocked).0
unfolding run construct_pool Schedule.act Thread.worker_step Worker.enqueue Victim.pick_victim
blocked-IsStuck = record { place = refl; full = omega arith; unjoined = refl }

abbrev later : List (Action ℕ)
later = works 0 3 ++ finalize soft_shutdown ∷ works 0 3

own_queue_deadlock_example :
    ((run d s 1 (run d s 1 (construct_pool d s 1 1) blocked).0 later).1 ≡ [])
    × ((the_worker d s (run d s 1 (run d s 1 (construct_pool d s 1 1) blocked).0 later).0).pc
        ≡ running 5 (global 9 ∷ []))
    × ((run d s 1 (run d s 1 (construct_pool d s 1 1) blocked).0 later).0.phase ≢ joined)
own_queue_deadlock_example = own_queue_deadlock d s 5 9 [] 1 blocked later blocked-IsStuck

-- A soft shutdown. Worker 0 has run its tasks and marked itself inactive, and then steals a task from
-- worker 1. Worker 1 runs its own, marks itself, and leaves, since none is active. The stolen task
-- submits a task through the pool, to worker 1: when `finalize` has returned it still is in that
-- queue.
abbrev stealing_round : ℕ → List (Action ℕ)
stealing_round zero = []
stealing_round (suc k) = work 0 false (global 9 ∷ []) ∷ stealing_round k

abbrev seven : List (Action ℕ)
seven = submit 1 ∷ submit 2 ∷ submit 3 ∷ submit 4 ∷ submit 5 ∷ submit 6 ∷ submit 7 ∷ []

abbrev losing : List (Action ℕ)
losing =
    launch ∷ launch ∷ launch ∷ seven
    ++ finalize soft_shutdown ∷ works 0 60
    ++ (works 1 8 ++ (stealing_round 13 ++ (works 1 60 ++ (works 0 60 ++ join ∷ join ∷ join ∷ []))))

losing-joined : (run d s 2 start losing).0.phase ≡ joined
unfolding run construct_pool Schedule.act Thread.worker_step Worker.enqueue Victim.pick_victim
losing-joined = refl

losing-lost : s.to_list ((run d s 2 start losing).0.workers 1).spscq ≡ 9 ∷ []
unfolding run construct_pool Schedule.act Thread.worker_step Worker.enqueue Victim.pick_victim
losing-lost = refl
