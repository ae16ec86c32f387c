-- ===== src/Core/Schedule/Exactly.antt =====
-- Every schedule keeps account of the tasks: what was submitted has finished, or is pending, once.
use mini_rts.Base.{
  ℕ, ◌+◌, ◌<◌, ◌≡◌, refl, ap, inl, inr, List, [], ◌∷◌, ◌++◌, arith, ltb, ltb→lt, if_cases,
  Option-cases, ◌==◌,
}
use mini_rts.Base.Family.{total-eq-zero}
use mini_rts.Core.Queues.{Deque, Spsc}
use mini_rts.Core.Queues.Weights.{weight-make, spsc_weight-make}
use mini_rts.Core.Worker.{starting}
use mini_rts.Core.Pool.{
  Pool, Phase, launching, serving, goto, enqueue, run_worker, launch_step, submit_step,
  construct_pool,
}
use mini_rts.Core.Pool.Owner.{SameWorkers, finalize_step-keeps, join_step-keeps, destroy_step-keeps}
use mini_rts.Core.Thread.{Event, submitted, finished}
use mini_rts.Core.Thread.Moves.{worker_step-Move}
use mini_rts.Core.Schedule.{Action, work, shown, act, run}
use mini_rts.Core.Schedule
use mini_rts.Core.Schedule.Bounds.{Bounds, act-Bounds, construct_pool-Bounds}
use mini_rts.Core.Schedule.Conservation.{Move-Conserves}
use mini_rts.Core.Schedule.Weights.{
  hand, weigh_submitted, weigh_finished, pending, Conserves, pending-goto, pending-workers,
  pending-enqueue,
}

module _ {T : Type 0} (w : T → ℕ) where
  weigh_submitted-append :
      (e f : List (Event T))
      → weigh_submitted w (e ++ f) ≡ weigh_submitted w e + weigh_submitted w f
  weigh_submitted-append [] f = omega arith
  weigh_submitted-append (submitted t ∷ e) f = omega (arith, weigh_submitted-append e f)
  weigh_submitted-append (finished t ∷ e) f = weigh_submitted-append e f

  pub weigh_finished-append :
      (e f : List (Event T)) → weigh_finished w (e ++ f) ≡ weigh_finished w e + weigh_finished w f
  weigh_finished-append [] f = omega arith
  weigh_finished-append (submitted t ∷ e) f = weigh_finished-append e f
  weigh_finished-append (finished t ∷ e) f = omega (arith, weigh_finished-append e f)

module _ {T : Type 0} (d : Deque T) (s : Spsc T) (n : ℕ) (w : T → ℕ) where
  SameWorkers-Conserves : (p q : Pool d s n) → SameWorkers d s n p q → Conserves d s n w p (q, [])
  SameWorkers-Conserves p q same = omega (arith, pending-workers d s n w p q same.workers)

  -- The worker that `init` starts has nothing in hand.
  launch_step-Conserves :
      (p : Pool d s n) (ph : Phase)
      → p.phase ≡ ph
      → Bounds d s n p
      → Conserves d s n w p (launch_step d s n p ph, [])
  unfolding launch_step
  launch_step-Conserves p (launching i) at b =
      if_cases (λ q. Conserves d s n w p (q, [])) (i == n) _ _
        (λ _. omega (arith, pending-workers d s n w p (record p { phase = serving }) refl))
        (λ more.
          let inside : i < n = ground (arith, b.launched i at) in
          omega (
            arith,
            pending-goto d s n w p i inside starting,
            ap (hand w) (b.fresh i i at (omega arith)),
            pending-workers d s n w (record (run_worker d s n p i) { phase = launching (i + 1) })
                (goto d s n p i starting) refl,
          ))
  launch_step-Conserves p _ at b = refl

  submit_step-Conserves :
      (p : Pool d s n) (x : T) (ph : Phase)
      → p.round_robin < n
      → Conserves d s n w p ((submit_step d s n p x ph).0, shown x (submit_step d s n p x ph).1)
  unfolding submit_step
  submit_step-Conserves p x serving turn = elim (Option-cases (enqueue d s n p x)) [
    | inl full ↦ rw (full, submit_step) refl
    | inr (q, room) ↦
        rw (room, submit_step) (omega (arith, pending-enqueue d s n w p q x turn room))
  ]
  submit_step-Conserves p x _ turn = refl

  pub act-Conserves :
      (p : Pool d s n) (a : Action T) → Bounds d s n p → Conserves d s n w p (act d s n p a)
  unfolding act
  act-Conserves p (work i raced does) b =
      if_cases (Conserves d s n w p) (ltb i n) _ _
        (λ inside.
          Move-Conserves d s n w p i (ltb→lt i n inside)
            (worker_step-Move d s n p i raced does (p.workers i).pc (b.victims i)) refl b.turn
            (b.victims i))
        (λ _. refl)
  act-Conserves p Schedule.launch b = launch_step-Conserves p p.phase refl b
  act-Conserves p (Schedule.submit x) b = submit_step-Conserves p x p.phase b.turn
  act-Conserves p (Schedule.finalize m) b =
      SameWorkers-Conserves p _ (finalize_step-keeps d s n p m p.phase)
  act-Conserves p Schedule.join b = SameWorkers-Conserves p _ (join_step-keeps d s n p p.phase)
  act-Conserves p Schedule.destroy b =
      SameWorkers-Conserves p _ (destroy_step-keeps d s n p p.phase)

  run-Conserves :
      (p : Pool d s n) (schedule : List (Action T))
      → Bounds d s n p
      → Conserves d s n w p (run d s n p schedule)
  unfolding run
  run-Conserves p [] b = refl
  run-Conserves p (a ∷ rest) b =
      let (p', e) = act d s n p a in
      let (p'', es) = run d s n p' rest in
      omega (
        arith,
        act-Conserves p a b,
        run-Conserves p' rest (act-Bounds d s n p a b),
        weigh_submitted-append w e es,
        weigh_finished-append w e es,
      )

  pub construct_pool-pending :
      (queue_capacity : ℕ) → pending d s n w (construct_pool d s n queue_capacity) ≡ 0
  unfolding construct_pool pending
  construct_pool-pending c =
      total-eq-zero _ n _ (λ i _. omega (arith, weight-make d w c, spsc_weight-make s w c))

  -- From the construction of a pool with at least one thread, whatever the interleaving, the tasks
  -- submitted are those finished and those still pending, each as often, under every weight.
  pub tasks_conserved :
      (queue_capacity : ℕ) (schedule : List (Action T))
      → 0 < n
      → weigh_submitted w (run d s n (construct_pool d s n queue_capacity) schedule).1
        ≡ weigh_finished w (run d s n (construct_pool d s n queue_capacity) schedule).1
          + pending d s n w (run d s n (construct_pool d s n queue_capacity) schedule).0
  tasks_conserved c schedule h = omega (
    arith,
    construct_pool-pending c,
    run-Conserves (construct_pool d s n c) schedule (construct_pool-Bounds d s n c h),
  )
