-- ===== src/Core/Schedule/Graceful.antt =====
-- A soft shutdown finishes what was submitted, in every graceful schedule.
use mini_rts.Base.{
  ℕ, ◌^◌, ◌<◌, ◌≡◌, ◌≢◌, refl, sym, ap, subst, inl, inr, Bool, List, [], ◌∷◌, All, weigh, arith,
  ltb, ltb→lt, ◌==◌, if_cases, Option-cases,
}
use mini_rts.Base.Family.{total-eq-zero}
use mini_rts.Core.Constants.{ShutdownMode, soft_shutdown, flag_of}
use mini_rts.Core.Queues.{Deque, Spsc}
use mini_rts.Core.Worker.{Pc, exited}
use mini_rts.Core.Pool.{
  Pool, Phase, launching, serving, joining, dying, joined, enqueue, has_exited, construct_pool,
  launch_step, submit_step, finalize_step, join_step,
}
use mini_rts.Core.Pool.Enqueue.{enqueued, enqueued-worker, enqueue-some}
use mini_rts.Core.Thread.{Event}
use mini_rts.Core.Thread.Moves.{worker_step-Move}
use mini_rts.Core.Schedule.{Action, work, act, run}
use mini_rts.Core.Schedule
use mini_rts.Core.Schedule.Bounds.{Bounds, act-Bounds, construct_pool-Bounds}
use mini_rts.Core.Schedule.Draining.{IsGraceful, past_wsq, past_spsc, HasLocal, Drain, Move-Drain}
use mini_rts.Core.Schedule.Exactly.{tasks_conserved}
use mini_rts.Core.Schedule.Leaving.{act-Inv, construct_pool-Inv}
use mini_rts.Core.Schedule.Stopping.{is_open, is_late, Inv}
use mini_rts.Core.Schedule.Weights.{hand, weigh_submitted, weigh_finished, worker_weight, pending}

soft_flag_ne : (m : ShutdownMode) → m ≡ soft_shutdown → flag_of m ≢ 1
soft_flag_ne ShutdownMode.hard_shutdown e = cc
soft_flag_ne soft_shutdown e = ground arith

past_is_late :
    {T : Type 0} (pc : Pc T)
    → is_late pc ≡ Bool.false
    → (past_wsq pc ≡ Bool.false) × (past_spsc pc ≡ Bool.false)
past_is_late pc e = ground arith

module _ {T : Type 0} (d : Deque T) (s : Spsc T) (n : ℕ) where
  pub construct_pool-Drain :
      (queue_capacity : ℕ) → Drain d s n (construct_pool d s n queue_capacity)
  unfolding construct_pool
  construct_pool-Drain c = record {
    locals = λ j. tt;
    wsq_done = λ j f. cc;
    spsc_done = λ j f. cc;
    hard_exited = λ h j b. absurd (omega arith);
  }

  enqueued-Drain :
      (p : Pool d s n) (x : T) (r : s.Q)
      → p.stop_flag ≡ 0
      → Inv d s n p
      → Drain d s n p
      → Drain d s n (enqueued d s n p x r)
  enqueued-Drain p x r z v g =
      let at = λ (j : ℕ). (enqueued-worker d s n p x r j).1 in
      let early = λ (j : ℕ). past_is_late (p.workers j).pc (v.quiet z j) in
      record {
        locals = λ j. subst HasLocal (sym (at j)) (g.locals j);
        wsq_done = λ j f. cc ((early j).0, ap past_wsq (at j));
        spsc_done = λ j f. cc ((early j).1, ap past_spsc (at j));
        hard_exited = λ h j b. cc;
      }

  -- While the pool serves, no worker is on its way out, so a task may come in anywhere.
  submit_step-Drain :
      (p : Pool d s n) (x : T) (ph : Phase)
      → p.phase ≡ ph
      → Inv d s n p
      → Drain d s n p
      → Drain d s n (submit_step d s n p x ph).0
  unfolding submit_step
  submit_step-Drain p x serving at v g = elim (Option-cases (enqueue d s n p x)) [
    | inl full ↦ rw (full, submit_step) g
    | inr (q, room) ↦
        let (r, _, same) = enqueue-some d s n p x q room in
        rw (room, submit_step)
          (subst (Drain d s n) (sym same)
            (enqueued-Drain p x r (v.open_flag (ap is_open at)).0 v g))
  ]
  submit_step-Drain p x _ at v g = g

  launch_step-Drain :
      (p : Pool d s n) (ph : Phase)
      → p.phase ≡ ph
      → Inv d s n p
      → Drain d s n p
      → Drain d s n (launch_step d s n p ph)
  unfolding launch_step
  launch_step-Drain p (launching i) at v g =
      let z = (v.open_flag (ap is_open at)).0 in
      if_cases (Drain d s n) (i == n) _ _
        (λ _. record {
          locals = g.locals;
          wsq_done = g.wsq_done;
          spsc_done = g.spsc_done;
          hard_exited = g.hard_exited;
        })
        (λ _. record {
          locals = λ j. ground (arith, g.locals j);
          wsq_done = λ j f. ground (arith, g.wsq_done j);
          spsc_done = λ j f. ground (arith, g.spsc_done j);
          hard_exited = λ h j b. cc;
        })
  launch_step-Drain p _ at v g = g

  finalize_step-Drain :
      (p : Pool d s n) (m : ShutdownMode) (ph : Phase)
      → m ≡ soft_shutdown
      → Drain d s n p
      → Drain d s n (finalize_step d s n p m ph)
  unfolding finalize_step
  finalize_step-Drain p m serving soft g = record {
    locals = g.locals;
    wsq_done = g.wsq_done;
    spsc_done = g.spsc_done;
    hard_exited = λ h j b. absurd (soft_flag_ne m soft h);
  }
  finalize_step-Drain p m _ soft g = g

  join_step-Drain :
      (p : Pool d s n) (ph : Phase) → Drain d s n p → Drain d s n (join_step d s n p ph)
  unfolding join_step
  join_step-Drain p (joining k) g =
      if_cases (Drain d s n) (k == n) _ _
        (λ _. record {
          locals = g.locals;
          wsq_done = g.wsq_done;
          spsc_done = g.spsc_done;
          hard_exited = g.hard_exited;
        })
        (λ _.
          if_cases (Drain d s n) (has_exited (p.workers k).pc) _ _
            (λ _. record {
              locals = g.locals;
              wsq_done = g.wsq_done;
              spsc_done = g.spsc_done;
              hard_exited = g.hard_exited;
            })
            (λ _. g))
  join_step-Drain p (dying k) g =
      if_cases (Drain d s n) (k == n) _ _
        (λ _. record {
          locals = g.locals;
          wsq_done = g.wsq_done;
          spsc_done = g.spsc_done;
          hard_exited = g.hard_exited;
        })
        (λ _.
          if_cases (Drain d s n) (has_exited (p.workers k).pc) _ _
            (λ _. record {
              locals = g.locals;
              wsq_done = g.wsq_done;
              spsc_done = g.spsc_done;
              hard_exited = g.hard_exited;
            })
            (λ _. g))
  join_step-Drain p _ g = g

  act-Drain :
      (p : Pool d s n) (a : Action T)
      → IsGraceful a
      → Bounds d s n p
      → Inv d s n p
      → Drain d s n p
      → Drain d s n (act d s n p a).0
  unfolding act
  act-Drain p (work i raced does) ls b v g =
      if_cases (λ (r : Pool d s n × List (Event T)). Drain d s n r.0) (ltb i n) _ _
        (λ inside.
          Move-Drain d s n (ltb→lt i n inside)
            (worker_step-Move d s n p i raced does (p.workers i).pc (b.victims i)) refl ls v g)
        (λ _. g)
  act-Drain p Schedule.launch ls b v g = launch_step-Drain p p.phase refl v g
  act-Drain p (Schedule.submit x) ls b v g = submit_step-Drain p x p.phase refl v g
  act-Drain p (Schedule.finalize m) ls b v g = finalize_step-Drain p m p.phase ls g
  act-Drain p Schedule.join ls b v g = join_step-Drain p p.phase g
  act-Drain p Schedule.destroy ls b v g = absurd ls

  -- With all threads gone from the pool and their queues empty, nothing is pending.
  pub exited-pending :
      (w : T → ℕ) (p : Pool d s n)
      → ((j : ℕ) → j < n → (p.workers j).pc ≡ exited)
      → Drain d s n p
      → pending d s n w p ≡ 0
  unfolding pending
  exited-pending w p gone g = total-eq-zero (worker_weight d s n w) n p.workers λ j b.
      let at = gone j b in
      let wsq = g.wsq_done j (ap past_wsq at) in
      let spsc = g.spsc_done j (ap past_spsc at) in
      omega (arith, ap (weigh w) wsq, ap (weigh w) spsc, ap (hand w) at)

  module _ (small : n < 2 ^ 32) where
    pub run-Drain :
        (p : Pool d s n) (schedule : List (Action T))
        → All IsGraceful schedule
        → Bounds d s n p
        → Inv d s n p
        → Drain d s n p
        → Inv d s n (run d s n p schedule).0 × Drain d s n (run d s n p schedule).0
    unfolding run
    run-Drain p [] gs b v g = (v, g)
    run-Drain p (a ∷ rest) (ga, gs) b v g =
        run-Drain (act d s n p a).0 rest gs (act-Bounds d s n p a b) (act-Inv d s n small p a b v)
          (act-Drain p a ga b v g)

    -- In every schedule of a pool of fewer than 2^32 threads, at least one, in which tasks submit only
    -- locally and the shutdown asked for is the soft one, once `finalize` has returned nothing is
    -- pending: the tasks that were submitted are those that have finished, each as often, under every
    -- weight.
    pub soft_shutdown_drains :
        (w : T → ℕ) (queue_capacity : ℕ) (schedule : List (Action T))
        → 0 < n
        → All IsGraceful schedule
        → (run d s n (construct_pool d s n queue_capacity) schedule).0.phase ≡ joined
        → (pending d s n w (run d s n (construct_pool d s n queue_capacity) schedule).0 ≡ 0)
          × (weigh_submitted w (run d s n (construct_pool d s n queue_capacity) schedule).1
              ≡ weigh_finished w (run d s n (construct_pool d s n queue_capacity) schedule).1)
    soft_shutdown_drains w c schedule positive gs at =
        let (v, g) =
          run-Drain (construct_pool d s n c) schedule gs (construct_pool-Bounds d s n c positive)
            (construct_pool-Inv d s n c) (construct_pool-Drain c) in
        let done = exited-pending w _ (λ j b. v.joined_exited j (ground arith)) g in
        (done, omega (arith, done, tasks_conserved d s n w c schedule positive))
