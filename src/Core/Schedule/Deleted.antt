-- ===== src/Core/Schedule/Deleted.antt =====
-- The pool is freed after its threads have left: nothing happens to it from then on.
use mini_rts.Base.{ℕ, ◌^◌, ◌<◌, ◌≡◌, refl, Bool, List, [], arith, ltb, ltb→lt, if_cases}
use mini_rts.Core.Queues.{Deque, Spsc}
use mini_rts.Core.Worker.{Submit, Pc, exited}
use mini_rts.Core.Pool.{
  Pool, destroyed, construct_pool, launch_step, submit_step, finalize_step, join_step, destroy_step,
}
use mini_rts.Core.Thread.{Event, worker_step}
use mini_rts.Core.Schedule.{Action, work, act, run}
use mini_rts.Core.Schedule
use mini_rts.Core.Schedule.Bounds.{construct_pool-Bounds}
use mini_rts.Core.Schedule.Leaving.{run-Inv, construct_pool-Inv}

module _ {T : Type 0} (d : Deque T) (s : Spsc T) (n : ℕ) where
  exited_stays :
      (p : Pool d s n) (i : ℕ) (raced : Bool) (does : List (Submit T)) (pc : Pc T)
      → pc ≡ exited
      → worker_step d s n p i raced does (p.workers i) pc ≡ (p, [])
  unfolding worker_step
  exited_stays p i raced does exited e = refl
  exited_stays p i raced does _ e = cc

  -- In every schedule of a pool of fewer than 2^32 threads, at least one: once the destructor has run,
  -- no action, of a thread or of the owner, reads on or changes anything.
  pub destroyed_quiet :
      (queue_capacity : ℕ) (schedule : List (Action T)) (a : Action T)
      → n < 2 ^ 32
      → 0 < n
      → (run d s n (construct_pool d s n queue_capacity) schedule).0.phase ≡ destroyed
      → act d s n (run d s n (construct_pool d s n queue_capacity) schedule).0 a
        ≡ ((run d s n (construct_pool d s n queue_capacity) schedule).0, [])
  unfolding act launch_step submit_step finalize_step join_step destroy_step
  destroyed_quiet c schedule (work i raced does) small positive gone =
      let p = (run d s n (construct_pool d s n c) schedule).0 in
      let v =
        run-Inv d s n small _ schedule (construct_pool-Bounds d s n c positive)
          (construct_pool-Inv d s n c) in
      if_cases (λ (r : Pool d s n × List (Event T)). r ≡ (p, [])) (ltb i n) _ _
        (λ inside.
          exited_stays p i raced does (p.workers i).pc
            (v.joined_exited i (ground (arith, ltb→lt i n inside))))
        (λ _. refl)
  destroyed_quiet c schedule Schedule.launch small positive gone = rw gone refl
  destroyed_quiet c schedule (Schedule.submit x) small positive gone = rw gone refl
  destroyed_quiet c schedule (Schedule.finalize m) small positive gone = rw gone refl
  destroyed_quiet c schedule Schedule.join small positive gone = rw gone refl
  destroyed_quiet c schedule Schedule.destroy small positive gone = rw gone refl
