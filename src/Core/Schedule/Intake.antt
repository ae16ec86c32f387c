-- ===== src/Core/Schedule/Intake.antt =====
-- src/core/worker.cpp, src/core/default_thread_pool.h: a task joins those that wait to be called when
-- it is submitted, and leaves them when it is called.
use mini_rts.Base.{
  ℕ, ◌+◌, ◌<◌, ◌≤◌, ◌≡◌, refl, ap, ◌∙◌, inl, inr, Bool, true, false, List, weigh, arith,
  Option-cases,
}
use mini_rts.Base.Family.{total-congr, total-update}
use mini_rts.Core.Queues.{Deque, Spsc}
use mini_rts.Core.Worker.{Submit, task_of, Pc, called, running, Worker}
use mini_rts.Core.Pool.{Pool, Phase, serving, goto, enqueue, submit_step}
use mini_rts.Core.Pool.Enqueue.{enqueued-worker, enqueue-some}
use mini_rts.Core.Schedule.{Action, work, shown, act}
use mini_rts.Core.Schedule
use mini_rts.Core.Schedule.Bounds.{Bounds}
use mini_rts.Core.Schedule.Exactly.{act-Conserves}
use mini_rts.Core.Schedule.Weights.{hand, weigh_submitted, weigh_finished, pending, pending-goto}
use mini_rts.Core.Schedule.Owing.{Owing, runs, owes, places, places-le}

module _ {T : Type 0} (d : Deque T) (s : Spsc T) (n : ℕ) (w : T → ℕ) where
  submit_step-places :
      (f : Pc T → ℕ) (p : Pool d s n) (x : T) (ph : Phase)
      → places d s n f (submit_step d s n p x ph).0 ≡ places d s n f p
  unfolding submit_step
  submit_step-places f p x serving = elim (Option-cases (enqueue d s n p x)) [
    | inl full ↦ rw (full, submit_step)
    | inr (q, room) ↦
        let (r, _, same) = enqueue-some d s n p x q room in
        rw (room, submit_step)
          (ap (places d s n f) same
            ∙ total-congr _ n _ _ (λ j. ap f (enqueued-worker d s n p x r j).1))
  ]
  submit_step-places f p x _ = refl

  shown-finished : (x : T) (done : Bool) → weigh_finished w (shown x done) ≡ 0
  shown-finished x true = refl
  shown-finished x false = refl

  -- A task that the owner submits is one more.
  pub submit-Owing :
      (p : Pool d s n) (x : T) (k : ℕ)
      → Bounds d s n p
      → Owing d s n w p k
      → Owing d s n w
          (act d s n p (Schedule.submit x)).0
          (k + weigh_submitted w (act d s n p (Schedule.submit x)).1)
  unfolding act
  submit-Owing p x k b h = omega (
    arith,
    h,
    act-Conserves d s n w p (Schedule.submit x) b,
    shown-finished x (submit_step d s n p x p.phase).1,
    submit_step-places (runs w) p x p.phase,
    submit_step-places (owes w) p x p.phase,
  )

  -- A worker calls a task: it is one of those that wait, and what it submits joins them.
  pub called-Owing :
      (p : Pool d s n) (i : ℕ) (t : T) (does : List (Submit T)) (k : ℕ)
      → i < n
      → (p.workers i).pc ≡ called t
      → Owing d s n w p k
      → (w t ≤ k)
        × ((k' : ℕ)
            → k' + w t ≡ k + weigh (λ x. w (task_of x)) does
            → Owing d s n w (goto d s n p i (running t does)) k')
  called-Owing p i t does k inside at h =
      let x : Worker d s = record (p.workers i) { pc = running t does } in
      let q = goto d s n p i (running t does) in
      let ran = total-update (λ (y : Worker d s). runs w y.pc) n p.workers i x inside in
      let owed = total-update (λ (y : Worker d s). owes w y.pc) n p.workers i x inside in
      let same = pending-goto d s n w p i inside (running t does) in
      let most : places d s n (runs w) q ≤ pending d s n w q = places-le d s n w q in
      (
        omega (arith, h, ran, same, most, ap (runs w) at, ap (owes w) at, ap (hand w) at),
        λ k' e.
            omega (arith, h, e, ran, owed, same, ap (runs w) at, ap (owes w) at, ap (hand w) at),
      )
