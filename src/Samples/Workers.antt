-- ===== src/Samples/Workers.antt =====
-- The threads of a small pool, run on concrete schedules with lists as queues.
use mini_rts.Base.{
  ℕ, zero, suc, ◌+◌, ◌≡◌, ◌≢◌, refl, false, List, [], ◌∷◌, ◌++◌, All, All-append, arith,
}
use mini_rts.Base.Family.{total}
use mini_rts.Core.Constants.{soft_shutdown}
use mini_rts.Core.Queues.{Deque, Spsc}
use mini_rts.Core.Queues.Listed.{list_deque, list_spsc}
use mini_rts.Core.Worker.{Submit, local, global, exited}
use mini_rts.Core.Pool.{Pool, joined, construct_pool}
use mini_rts.Core.Schedule.{Action, work, launch, submit, finalize, join, run}
use mini_rts.Core.Schedule.Draining.{IsGraceful}
use mini_rts.Core.Schedule
use mini_rts.Core.Worker
use mini_rts.Core.Worker.Victim
use mini_rts.Core.Thread
use mini_rts.Core.Schedule.Weights.{pending, weigh_submitted, weigh_finished}
use mini_rts.Core.Schedule.Stopping.{counted}
use mini_rts.Core.Schedule.Leaving.{active_workers_counts, finalize_joins, leaves_when_inactive}
use mini_rts.Core.Schedule.Exactly.{tasks_conserved}
use mini_rts.Core.Schedule.Graceful.{soft_shutdown_drains}

abbrev pub works : ℕ → ℕ → List (Action ℕ)
works i zero = []
works i (suc k) = work i false [] ∷ works i k

-- Two workers; the first task submits another one locally.
abbrev pub busy : List (Action ℕ)
busy =
    launch ∷ launch ∷ launch ∷ submit 7 ∷ submit 8 ∷ submit 9 ∷ works 0 7
    ++ work 0 false (local 10 ∷ []) ∷ works 0 3

abbrev joins : List (Action ℕ)
joins = join ∷ join ∷ join ∷ []

abbrev turns : List (Action ℕ)
turns = works 0 60 ++ (works 1 60 ++ (works 0 60 ++ joins))

abbrev closing : List (Action ℕ)
closing = finalize soft_shutdown ∷ turns

abbrev pub whole : List (Action ℕ)
whole = busy ++ closing

abbrev one : ℕ → ℕ
one x = x

abbrev pub d : Deque ℕ
d = list_deque ℕ

abbrev pub s : Spsc ℕ
s = list_spsc ℕ

abbrev pub start : Pool d s 2
start = construct_pool d s 2 4

works-IsGraceful : (i k : ℕ) → All IsGraceful (works i k)
works-IsGraceful i zero = tt
works-IsGraceful i (suc k) = (tt, works-IsGraceful i k)

busy-IsGraceful : All IsGraceful busy
busy-IsGraceful = (
  tt,
  (
    tt,
    (
      tt,
      (tt, (tt, (tt, (tt, (tt, (tt, (tt, (tt, (tt, (tt, ((tt, tt), (tt, (tt, (tt, tt)))))))))))))),
    ),
  ),
)

closing-IsGraceful : All IsGraceful closing
closing-IsGraceful = (
  refl,
  All-append IsGraceful (works 0 60) (works 1 60 ++ (works 0 60 ++ joins)) (works-IsGraceful 0 60) (
      All-append IsGraceful (works 1 60) (works 0 60 ++ joins) (works-IsGraceful 1 60)
        (All-append IsGraceful (works 0 60) joins (works-IsGraceful 0 60) (tt, (tt, (tt, tt))))),
)

pub whole-joined : (run d s 2 start whole).0.phase ≡ joined
unfolding run construct_pool Schedule.act Thread.worker_step Worker.enqueue Victim.pick_victim
whole-joined = refl

whole-exited : ((run d s 2 start whole).0.workers 0).pc ≡ exited
unfolding run construct_pool Schedule.act Thread.worker_step Worker.enqueue Victim.pick_victim
whole-exited = refl

whole-flag : (run d s 2 start whole).0.stop_flag ≡ 2
unfolding run construct_pool Schedule.act Thread.worker_step Worker.enqueue Victim.pick_victim
whole-flag = refl

whole-soft : (run d s 2 start whole).0.stop_flag ≢ 1
whole-soft = ground (arith, whole-flag)

soft_shutdown_drains_example :
    (pending d s 2 one (run d s 2 start whole).0 ≡ 0)
    × (weigh_submitted one (run d s 2 start whole).1 ≡ weigh_finished one (run d s 2 start whole).1)
soft_shutdown_drains_example =
    soft_shutdown_drains d s 2 (omega arith) one 4 whole (omega arith)
      (All-append IsGraceful busy closing busy-IsGraceful closing-IsGraceful) whole-joined

tasks_conserved_example :
    weigh_submitted one (run d s 2 start busy).1
    ≡ weigh_finished one (run d s 2 start busy).1 + pending d s 2 one (run d s 2 start busy).0
tasks_conserved_example = tasks_conserved d s 2 one 4 busy (omega arith)

active_workers_counts_example :
    (run d s 2 start busy).0.active_workers
    ≡ total (counted d s 2) 2 (run d s 2 start busy).0.workers
active_workers_counts_example = active_workers_counts d s 2 (omega arith) 4 busy (omega arith)

finalize_joins_example : ((run d s 2 start whole).0.workers 1).pc ≡ exited
finalize_joins_example =
    finalize_joins d s 2 (omega arith) 4 whole (omega arith) 1 whole-joined (omega arith)

leaves_when_inactive_example : counted d s 2 ((run d s 2 start whole).0.workers 1) ≡ 0
leaves_when_inactive_example =
    leaves_when_inactive d s 2 (omega arith) 4 whole (omega arith) 0 1 whole-exited whole-soft
      (omega arith)
