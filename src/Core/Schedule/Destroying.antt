-- ===== src/Core/Schedule/Destroying.antt =====
-- src/core/default_thread_pool.h: the destructor of a pool that was not finalized comes to its end.
use mini_rts.Base.{ℕ, ◌<◌, ◌≡◌, refl, ap, ◌∙◌, false, List, All, arith, ◌==◌}
use mini_rts.Core.Queues.{Deque, Spsc}
use mini_rts.Core.Pool.{Pool, serving, dying, destroyed, construct_pool, destroy_step}
use mini_rts.Core.Schedule.{Action, destroy, act, run}
use mini_rts.Core.Schedule.Stopping.{is_open}
use mini_rts.Core.Schedule.Tame.{IsTame}
use mini_rts.Core.Schedule.Fair.{IsFair, at_time}
use mini_rts.Core.Schedule.Waiting.{dying-Loop}
use mini_rts.Core.Schedule.Terminating.{loop_ends, asked-Keep}

module _ {T : Type 0} (d : Deque T) (s : Spsc T) (n : ℕ) where
  destroy-asks :
      (p : Pool d s n)
      → 0 < n
      → p.phase ≡ serving
      → ((act d s n p destroy).0.stop_flag ≡ 1) × ((act d s n p destroy).0.phase ≡ dying 0)
  unfolding act destroy_step
  destroy-asks p positive at =
      let on : (n == 0) ≡ false = ground arith in
      let once : destroy_step d s n p serving ≡ record p { stop_flag = 1; phase = dying 0 } =
        rw on refl in
      let same = ap (destroy_step d s n p) at ∙ once in
      (ap (λ (q : Pool d s n). q.stop_flag) same, ap (λ (q : Pool d s n). q.phase) same)

  -- From any schedule of a pool with at least one thread, in which tasks submit only locally and which
  -- leaves the pool serving, the destructor comes to its end although nothing was finalized: in every
  -- schedule without an end that follows, in which tasks submit only locally and every worker and the
  -- owner have their turn again and again, the pool is destroyed at some time.
  pub destructor_terminates :
      (queue_capacity : ℕ) (schedule : List (Action T)) (future : ℕ → Action T)
      → 0 < n
      → All IsTame schedule
      → (run d s n (construct_pool d s n queue_capacity) schedule).0.phase ≡ serving
      → IsFair n future
      → (t : ℕ) × ((at_time d s n
            (act d s n (run d s n (construct_pool d s n queue_capacity) schedule).0 destroy).0
            future
            t).phase
          ≡ destroyed)
  destructor_terminates c schedule future positive tame at fair =
      let p = (run d s n (construct_pool d s n c) schedule).0 in
      let (flag, phase) = destroy-asks p positive at in
      loop_ends d s n (dying-Loop d s n) (act d s n p destroy).0 future fair
        (asked-Keep d s n c schedule destroy positive tame tt flag (ap is_open phase)) phase
