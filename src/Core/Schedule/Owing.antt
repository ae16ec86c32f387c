-- ===== src/Core/Schedule/Owing.antt =====
-- What a pool has still to call: the tasks in its queues and hands that have not begun, and what the
-- tasks that run have still to submit.
use mini_rts.Base.{
  ℕ, ◌+◌, ◌<◌, ◌≤◌, ◌≡◌, ◌≢◌, refl, ap, Bool, true, false, List, [], weigh, arith, ltb, ltb→lt,
  ◌==◌, if_cases,
}
use mini_rts.Base.Family.{total, total-update, total_but_one, total_mono}
use mini_rts.Core.Queues.{Deque, Spsc}
use mini_rts.Core.Worker.{Submit, task_of, Pc, starting, called, running, Worker}
use mini_rts.Core.Pool.{Pool, Phase, launching, launch_step}
use mini_rts.Core.Pool.Enqueue.{enqueued-worker, enqueue-some}
use mini_rts.Core.Pool.Owner.{SameWorkers, finalize_step-keeps, join_step-keeps, destroy_step-keeps}
use mini_rts.Core.Thread.{Event}
use mini_rts.Core.Thread.Moves
use mini_rts.Core.Thread.Moves.{Move, worker_step-Move}
use mini_rts.Core.Schedule.{Action, work, shown, act}
use mini_rts.Core.Schedule
use mini_rts.Core.Schedule.Bounds.{Bounds}
use mini_rts.Core.Schedule.Exactly.{act-Conserves}
use mini_rts.Core.Schedule.Weights.{
  hand, weigh_submitted, weigh_finished, worker_weight, Conserves, pending,
}

abbrev pub is_called : {T : Type 0} → Pc T → Bool
is_called (called t) = true
is_called _ = false

module _ {T : Type 0} (w : T → ℕ) where
  -- The task that runs, and what it has still to submit.
  abbrev pub runs : Pc T → ℕ
  runs (running t left) = w t
  runs _ = 0

  abbrev pub owes : Pc T → ℕ
  owes (running t left) = weigh (λ x. w (task_of x)) left
  owes _ = 0

  runs-le : (pc : Pc T) → runs pc ≤ hand w pc
  runs-le pc = ground arith

module _ {T : Type 0} (d : Deque T) (s : Spsc T) (n : ℕ) where
  abbrev pub places : (Pc T → ℕ) → Pool d s n → ℕ
  places f p = total (λ (x : Worker d s). f x.pc) n p.workers

  pub others_stay :
      {p : Pool d s n} {i : ℕ} {does : List (Submit T)} {pc : Pc T}
      {r : Pool d s n × List (Event T)}
      → Move d s n p i does pc r
      → (j : ℕ) → j ≢ i
      → (r.0.workers j).pc ≡ (p.workers j).pc
  others_stay Moves.stay j other = refl
  others_stay {p} (Moves.sends {t} {x} q e) j other =
      let (r, _, same) = enqueue-some d s n p x q e in
      ground (arith, same, (enqueued-worker d s n p x r j).1)
  others_stay mv j other = ground arith

  -- Neither a submission nor the call of a task.
  abbrev pub IsQuiet : Pool d s n → Action T → Type 0
  IsQuiet p (work i raced does) = is_called (p.workers i).pc ≡ false
  IsQuiet p (Schedule.submit x) = ⊥
  IsQuiet p _ = Unit

  module _ (w : T → ℕ) where
    -- These are tasks that wait to be called, by weight.
    abbrev pub Owing : Pool d s n → ℕ → Type 0
    Owing p k = k + places (runs w) p ≡ pending d s n w p + places (owes w) p

    Move-balance :
        {p : Pool d s n} {i : ℕ} {does : List (Submit T)} {pc : Pc T}
        {r : Pool d s n × List (Event T)}
        → Move d s n p i does pc r
        → (p.workers i).pc ≡ pc
        → is_called pc ≡ false
        → weigh_submitted w r.1 + owes w (r.0.workers i).pc + runs w pc
          ≡ weigh_finished w r.1 + owes w pc + runs w (r.0.workers i).pc
    Move-balance Moves.stay at quiet = ground arith
    Move-balance Moves.calls at quiet = cc
    Move-balance mv at quiet = ground arith

    Move-Owing :
        {p : Pool d s n} {i : ℕ} {does : List (Submit T)} {pc : Pc T}
        {r : Pool d s n × List (Event T)} (k : ℕ)
        → i < n
        → Move d s n p i does pc r
        → (p.workers i).pc ≡ pc
        → is_called pc ≡ false
        → Conserves d s n w p r
        → Owing p k
        → Owing r.0 k
    Move-Owing {p} {i} {does} {pc} {r} k inside mv at quiet conserves h = omega (
      arith,
      h,
      conserves,
      Move-balance mv at quiet,
      ap (runs w) at,
      ap (owes w) at,
      total_but_one (λ (x : Worker d s). runs w x.pc) n p.workers r.0.workers i inside
          (λ j other. ap (runs w) (others_stay mv j other)),
      total_but_one (λ (x : Worker d s). owes w x.pc) n p.workers r.0.workers i inside
          (λ j other. ap (owes w) (others_stay mv j other)),
    )

    pub places-le : (p : Pool d s n) → places (runs w) p ≤ pending d s n w p
    unfolding pending
    places-le p =
        total_mono (λ (x : Worker d s). runs w x.pc) (worker_weight d s n w)
          (λ x. omega (arith, runs-le w x.pc)) n p.workers

    SameWorkers-Owing :
        (p q : Pool d s n) (k : ℕ)
        → SameWorkers d s n p q
        → Conserves d s n w p (q, [])
        → Owing p k
        → Owing q k
    SameWorkers-Owing p q k same conserves h = omega (
      arith,
      h,
      conserves,
      ap (λ f. total (λ (x : Worker d s). runs w x.pc) n f) same.workers,
      ap (λ f. total (λ (x : Worker d s). owes w x.pc) n f) same.workers,
    )

    launch_step-Owing :
        (p : Pool d s n) (ph : Phase) (k : ℕ)
        → p.phase ≡ ph
        → Bounds d s n p
        → Conserves d s n w p (launch_step d s n p ph, [])
        → Owing p k
        → Owing (launch_step d s n p ph) k
    unfolding launch_step
    launch_step-Owing p (launching i) k at b =
        if_cases (λ q. Conserves d s n w p (q, []) → Owing p k → Owing q k) (i == n) _ _
          (λ _ conserves h. omega (arith, h, conserves))
          (λ more conserves h.
            let inside : i < n = ground (arith, b.launched i at) in
            let x : Worker d s = record (p.workers i) { pc = starting } in
            let idle = b.fresh i i at (omega arith) in
            omega (
              arith,
              h,
              conserves,
              total-update (λ (y : Worker d s). runs w y.pc) n p.workers i x inside,
              total-update (λ (y : Worker d s). owes w y.pc) n p.workers i x inside,
              ap (runs w) idle,
              ap (owes w) idle,
            ))
    launch_step-Owing p _ k at b = λ _ h. h

    -- No other action of the pool changes what it has to call.
    pub act-Owing :
        (p : Pool d s n) (a : Action T) (k : ℕ)
        → IsQuiet p a
        → Bounds d s n p
        → Owing p k
        → Owing (act d s n p a).0 k
    unfolding act
    act-Owing p (work i raced does) k quiet b =
        if_cases
          (λ (r : Pool d s n × List (Event T)). Conserves d s n w p r → Owing p k → Owing r.0 k)
          (ltb i n) _ _
          (λ inside.
            Move-Owing k (ltb→lt i n inside)
              (worker_step-Move d s n p i raced does (p.workers i).pc (b.victims i)) refl quiet)
          (λ _ _ h. h) (act-Conserves d s n w p (work i raced does) b)
    act-Owing p Schedule.launch k quiet b =
        launch_step-Owing p p.phase k refl b (act-Conserves d s n w p Schedule.launch b)
    act-Owing p (Schedule.submit x) k quiet b = absurd quiet
    act-Owing p (Schedule.finalize m) k quiet b =
        SameWorkers-Owing p _ k (finalize_step-keeps d s n p m p.phase)
          (act-Conserves d s n w p (Schedule.finalize m) b)
    act-Owing p Schedule.join k quiet b =
        SameWorkers-Owing p _ k (join_step-keeps d s n p p.phase)
          (act-Conserves d s n w p Schedule.join b)
    act-Owing p Schedule.destroy k quiet b =
        SameWorkers-Owing p _ k (destroy_step-keeps d s n p p.phase)
          (act-Conserves d s n w p Schedule.destroy b)
