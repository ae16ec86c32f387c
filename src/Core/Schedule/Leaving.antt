-- ===== src/Core/Schedule/Leaving.antt =====
-- The counter of active workers in every schedule, and what that says of `finalize`.
use mini_rts.Base.{
  ℕ, ◌^◌, ◌<◌, ◌≡◌, ◌≢◌, refl, sym, ap, inl, inr, true, List, [], ◌∷◌, arith, ltb, ltb→lt, ◌==◌,
  if_cases, Option-cases,
}
use mini_rts.Base.Family.{update, total, total-update, total-le, le-total, total-eq-zero}
use mini_rts.Core.Constants.{ShutdownMode}
use mini_rts.Core.Queues.{Deque, Spsc}
use mini_rts.Core.Worker.{Pc, starting, exited, Worker}
use mini_rts.Core.Pool.{
  Pool, Phase, launching, serving, joining, joined, dying, enqueue, has_exited, construct_pool,
  launch_step, submit_step, finalize_step, join_step, destroy_step,
}
use mini_rts.Core.Thread.{Event}
use mini_rts.Core.Thread.Moves.{worker_step-Move}
use mini_rts.Core.Schedule.{Action, work, act, run}
use mini_rts.Core.Schedule
use mini_rts.Core.Schedule.Bounds.{Bounds, act-Bounds, construct_pool-Bounds}
use mini_rts.Core.Schedule.Stopping.{counted, counted-le, is_open, Inv, enqueue-Inv, Move-Inv}

has_exited→exited : {T : Type 0} (pc : Pc T) → has_exited pc ≡ true → pc ≡ exited
has_exited→exited exited e = refl
has_exited→exited _ e = cc

module _ {T : Type 0} (d : Deque T) (s : Spsc T) (n : ℕ) where
  pub construct_pool-Inv : (queue_capacity : ℕ) → Inv d s n (construct_pool d s n queue_capacity)
  unfolding construct_pool
  construct_pool-Inv c = record {
    count = sym (total-eq-zero (counted d s n) n _ (λ i _. refl));
    alive = λ j b f. cc;
    open_flag = λ o. (refl, refl);
    quiet = λ z j. refl;
    joined_exited = λ j f. absurd (omega arith);
    left = λ j f. cc;
  }

  submit_step-Inv :
      (p : Pool d s n) (x : T) (ph : Phase) → Inv d s n p → Inv d s n (submit_step d s n p x ph).0
  unfolding submit_step
  submit_step-Inv p x serving v = elim (Option-cases (enqueue d s n p x)) [
    | inl full ↦ rw (full, submit_step) v
    | inr (q, room) ↦ rw (room, submit_step) (enqueue-Inv d s n p q x room v)
  ]
  submit_step-Inv p x _ v = v

  finalize_step-Inv :
      (p : Pool d s n) (m : ShutdownMode) (ph : Phase)
      → p.phase ≡ ph
      → Inv d s n p
      → Inv d s n (finalize_step d s n p m ph)
  unfolding finalize_step
  finalize_step-Inv p m serving at v = record {
    count = v.count;
    alive = v.alive;
    open_flag = λ o. cc;
    quiet = λ z j. ground (arith, v.quiet (v.open_flag (ap is_open at)).0 j);
    joined_exited = λ j f. absurd (omega arith);
    left = λ j f. ground (arith, v.quiet (v.open_flag (ap is_open at)).0 j);
  }
  finalize_step-Inv p m _ at v = v

  join_step-Inv :
      (p : Pool d s n) (ph : Phase) → p.phase ≡ ph → Inv d s n p → Inv d s n (join_step d s n p ph)
  unfolding join_step
  join_step-Inv p (joining k) at v =
      if_cases (Inv d s n) (k == n) _ _
        (λ e. record {
          count = v.count;
          alive = v.alive;
          open_flag = λ o. cc;
          quiet = v.quiet;
          joined_exited = λ j f. ground (arith, v.joined_exited j);
          left = v.left;
        })
        (λ _.
          if_cases (Inv d s n) (has_exited (p.workers k).pc) _ _
            (λ gone. record {
              count = v.count;
              alive = v.alive;
              open_flag = λ o. cc;
              quiet = v.quiet;
              joined_exited =
                  λ j f. ground (arith, v.joined_exited j, has_exited→exited (p.workers k).pc gone);
              left = v.left;
            })
            (λ _. v))
  join_step-Inv p (dying k) at v =
      if_cases (Inv d s n) (k == n) _ _
        (λ e. record {
          count = v.count;
          alive = λ j b f. ground (arith, v.joined_exited j);
          open_flag = λ o. cc;
          quiet = v.quiet;
          joined_exited = λ j f. ground (arith, v.joined_exited j);
          left = v.left;
        })
        (λ _.
          if_cases (Inv d s n) (has_exited (p.workers k).pc) _ _
            (λ gone. record {
              count = v.count;
              alive = v.alive;
              open_flag = λ o. cc;
              quiet = v.quiet;
              joined_exited =
                  λ j f. ground (arith, v.joined_exited j, has_exited→exited (p.workers k).pc gone);
              left = v.left;
            })
            (λ _. v))
  join_step-Inv p _ at v = v

  destroy_step-Inv :
      (p : Pool d s n) (ph : Phase)
      → p.phase ≡ ph
      → Inv d s n p
      → Inv d s n (destroy_step d s n p ph)
  unfolding destroy_step
  destroy_step-Inv p joined at v =
      if_cases (Inv d s n) (n == 0) _ _
        (λ e. record {
          count = v.count;
          alive = λ j b f. absurd (ground arith);
          open_flag = λ o. cc;
          quiet = v.quiet;
          joined_exited = λ j f. ground (arith, v.joined_exited j);
          left = v.left;
        })
        (λ _. record {
          count = v.count;
          alive = λ j b f. ground (arith, v.joined_exited j);
          open_flag = λ o. cc;
          quiet = λ z j. absurd (omega arith);
          joined_exited = λ j f. ground (arith, v.joined_exited j);
          left = λ j f. inl refl;
        })
  destroy_step-Inv p serving at v =
      if_cases (Inv d s n) (n == 0) _ _
        (λ e. record {
          count = v.count;
          alive = λ j b f. absurd (ground arith);
          open_flag = λ o. cc;
          quiet = v.quiet;
          joined_exited = λ j f. absurd (ground arith);
          left = v.left;
        })
        (λ _. record {
          count = v.count;
          alive = v.alive;
          open_flag = λ o. cc;
          quiet = λ z j. absurd (omega arith);
          joined_exited = λ j f. absurd (omega arith);
          left = λ j f. inl refl;
        })
  destroy_step-Inv p _ at v = v

  launch_step-Inv :
      n < 2 ^ 32
      → (p : Pool d s n) (ph : Phase) → p.phase ≡ ph
      → Bounds d s n p
      → Inv d s n p
      → Inv d s n (launch_step d s n p ph)
  unfolding launch_step
  launch_step-Inv small p (launching i) at b v =
      if_cases (Inv d s n) (i == n) _ _
        (λ e. record {
          count = v.count;
          alive = v.alive;
          open_flag = λ o. v.open_flag (ap is_open at);
          quiet = v.quiet;
          joined_exited = λ j f. absurd (omega arith);
          left = v.left;
        })
        (λ more.
          let inside : i < n = ground (arith, b.launched i at) in
          let started : Worker d s = record (p.workers i) { pc = starting } in
          let before : counted d s n (p.workers i) ≡ 0 = ground (arith, b.fresh i i at) in
          let is_zero = v.open_flag (ap is_open at) in
          record {
            count = omega (
              arith,
              before,
              v.count,
              total-le (counted d s n) (counted-le d s n) n (update p.workers i started),
              total-update (counted d s n) n p.workers i started inside,
            );
            alive = λ j b f. is_zero.1;
            open_flag = λ o. is_zero;
            quiet = λ z j. ground (arith, v.quiet z j);
            joined_exited = λ j f. absurd (omega arith);
            left = λ j f. ground (arith, v.left j, v.quiet is_zero.0 j);
          })
  launch_step-Inv small p _ at b v = v

module _ {T : Type 0} (d : Deque T) (s : Spsc T) (n : ℕ) (small : n < 2 ^ 32) where
  pub act-Inv :
      (p : Pool d s n) (a : Action T) → Bounds d s n p → Inv d s n p → Inv d s n (act d s n p a).0
  unfolding act
  act-Inv p (work i raced does) b v =
      if_cases (λ (r : Pool d s n × List (Event T)). Inv d s n r.0) (ltb i n) _ _
        (λ inside.
          Move-Inv d s n small (ltb→lt i n inside)
            (worker_step-Move d s n p i raced does (p.workers i).pc (b.victims i)) refl v)
        (λ _. v)
  act-Inv p Schedule.launch b v = launch_step-Inv d s n small p p.phase refl b v
  act-Inv p (Schedule.submit x) b v = submit_step-Inv d s n p x p.phase v
  act-Inv p (Schedule.finalize m) b v = finalize_step-Inv d s n p m p.phase refl v
  act-Inv p Schedule.join b v = join_step-Inv d s n p p.phase refl v
  act-Inv p Schedule.destroy b v = destroy_step-Inv d s n p p.phase refl v

  pub run-Inv :
      (p : Pool d s n) (schedule : List (Action T))
      → Bounds d s n p
      → Inv d s n p
      → Inv d s n (run d s n p schedule).0
  unfolding run
  run-Inv p [] b v = v
  run-Inv p (a ∷ rest) b v =
      run-Inv (act d s n p a).0 rest (act-Bounds d s n p a b) (act-Inv p a b v)

  module _ (queue_capacity : ℕ) (schedule : List (Action T)) (positive : 0 < n) where
    abbrev reached : Pool d s n
    reached = (run d s n (construct_pool d s n queue_capacity) schedule).0

    reached-Inv : Inv d s n reached
    reached-Inv =
        run-Inv _ schedule (construct_pool-Bounds d s n queue_capacity positive)
          (construct_pool-Inv d s n queue_capacity)

    -- In every schedule of a pool of fewer than 2^32 threads, at least one, the counter holds the
    -- number of workers that were launched and have not marked themselves inactive: it never wraps.
    pub active_workers_counts : reached.active_workers ≡ total (counted d s n) n reached.workers
    active_workers_counts = reached-Inv.count

    -- In every schedule of a pool of fewer than 2^32 threads, at least one: when `finalize` has
    -- returned, whatever the mode, every thread of the pool has left its loop.
    pub finalize_joins : (j : ℕ) → reached.phase ≡ joined → j < n → (reached.workers j).pc ≡ exited
    finalize_joins j at inside = reached-Inv.joined_exited j (ground arith)

    -- In every schedule of a pool of fewer than 2^32 threads, at least one: where some worker has left
    -- its loop and the flag does not ask for a hard shutdown, no worker of the pool counts as active.
    pub leaves_when_inactive :
        (j k : ℕ)
        → (reached.workers j).pc ≡ exited
        → reached.stop_flag ≢ 1
        → k < n
        → counted d s n (reached.workers k) ≡ 0
    leaves_when_inactive j k gone not_hard inside = ground (
      arith,
      reached-Inv.left j gone,
      reached-Inv.count,
      le-total (counted d s n) n reached.workers k inside,
    )
