-- ===== src/Core/Schedule/Stuck.antt =====
-- A pool of one worker whose queue is full, and whose task submits through the pool: the worker waits
-- for itself.
use mini_rts.Base.{
  ℕ, ◌<◌, ◌≤◌, ◌≡◌, ◌≢◌, refl, ap, sym, subst, ◌∙◌, Bool, false, none, List, [], ◌∷◌, length, arith,
  ltb, ltb→lt, ◌==◌, if_cases, inl, inr,
}
use mini_rts.Core.Queues.{Deque, Spsc}
use mini_rts.Core.Worker.{Submit, local, global, Pc, running, exited, Worker}
use mini_rts.Core.Worker
use mini_rts.Core.Constants.{ShutdownMode}
use mini_rts.Core.Pool.{
  Pool, Phase, launching, serving, joining, dying, joined, has_exited, enqueue, construct_pool,
  launch_step, submit_step, finalize_step, join_step, destroy_step,
}
use mini_rts.Core.Thread.{Event, worker_step, task_step}
use mini_rts.Core.Schedule.{Action, work, act, run}
use mini_rts.Core.Schedule
use mini_rts.Core.Schedule.Bounds.{Bounds, act-Bounds, run-Bounds, construct_pool-Bounds}
use mini_rts.Core.Schedule.Stopping.{joined_below}

module _ {T : Type 0} (d : Deque T) (s : Spsc T) where
  abbrev pub the_worker : Pool d s 1 → Worker d s
  the_worker p = p.workers 0

  -- The worker runs a task that submits next, its queue is full, and the owner has joined no thread.
  pub record IsStuck (t x : T) (left : List (Submit T)) (p : Pool d s 1) : Type 0 where
    pub place : (the_worker p).pc ≡ running t (global x ∷ left)
    pub full : s.capacity (the_worker p).spscq ≤ length (s.to_list (the_worker p).spscq)
    pub unjoined : joined_below 1 p.phase ≡ 0

  module _ (t x : T) (left : List (Submit T)) where
    waits :
        (p : Pool d s 1) (y : T) → p.round_robin < 1 → IsStuck t x left p → enqueue d s 1 p y ≡ none
    unfolding enqueue Worker.enqueue
    waits p y turn h =
        let zeroth : p.round_robin ≡ 0 = omega arith in
        elim (s.emplace_lem (p.workers p.round_robin).spscq y) [
          | inl (_, blocked) ↦ ground arith
          | inr (r, _, room, _, _) ↦ absurd (
              omega (
                arith,
                room,
                h.full,
                ap (λ (k : ℕ). length (s.to_list (p.workers k).spscq)) zeroth,
                ap (λ (k : ℕ). s.capacity (p.workers k).spscq) zeroth,
              ))
        ]

    -- What an action leaves: the same, and nothing shown.
    abbrev Stays : Pool d s 1 × List (Event T) → Type 0
    Stays r = IsStuck t x left r.0 × (r.1 ≡ [])

    worker_step-Stays :
        (p : Pool d s 1) (i : ℕ) (raced : Bool) (does : List (Submit T)) (pc : Pc T)
        → i < 1
        → (p.workers i).pc ≡ pc
        → p.round_robin < 1
        → IsStuck t x left p
        → Stays (worker_step d s 1 p i raced does (p.workers i) pc)
    unfolding worker_step task_step
    worker_step-Stays p i raced does pc inside at turn h =
        let zeroth : i ≡ 0 = omega arith in
        let here : running t (global x ∷ left) ≡ pc =
          sym h.place ∙ ap (λ (k : ℕ). (p.workers k).pc) (sym zeroth) ∙ at in
        subst (λ z. Stays (worker_step d s 1 p i raced does (p.workers i) z)) here
          (rw (waits p x turn h, task_step) (h, refl))

    launch_step-Stays :
        (p : Pool d s 1) (ph : Phase)
        → p.phase ≡ ph
        → Bounds d s 1 p
        → IsStuck t x left p
        → Stays (launch_step d s 1 p ph, [])
    unfolding launch_step
    launch_step-Stays p (launching i) at b h =
        if_cases (λ q. Stays (q, [])) (i == 1) _ _
          (λ _. (record { place = h.place; full = h.full; unjoined = refl }, refl))
          (λ more.
            let none_yet = b.fresh i 0 at (ground (arith, b.launched i at)) in
            absurd (cc (h.place, none_yet)))
    launch_step-Stays p _ at b h = (h, refl)

    submit_step-Stays :
        (p : Pool d s 1) (y : T) (ph : Phase)
        → p.round_robin < 1
        → IsStuck t x left p
        → Stays ((submit_step d s 1 p y ph).0, Schedule.shown y (submit_step d s 1 p y ph).1)
    unfolding submit_step
    submit_step-Stays p y serving turn h = rw (waits p y turn h, submit_step) (h, refl)
    submit_step-Stays p y _ turn h = (h, refl)

    finalize_step-Stays :
        (p : Pool d s 1) (m : ShutdownMode) (ph : Phase)
        → IsStuck t x left p
        → Stays (finalize_step d s 1 p m ph, [])
    unfolding finalize_step
    finalize_step-Stays p m serving h =
        (record { place = h.place; full = h.full; unjoined = refl }, refl)
    finalize_step-Stays p m _ h = (h, refl)

    join_step-Stays :
        (p : Pool d s 1) (ph : Phase)
        → p.phase ≡ ph
        → IsStuck t x left p
        → Stays (join_step d s 1 p ph, [])
    unfolding join_step
    join_step-Stays p (joining k) at h =
        let zeroth : k ≡ 0 = sym (ap (joined_below 1) at) ∙ h.unjoined in
        let lives : has_exited (p.workers k).pc ≡ false =
          ap (λ (j : ℕ). has_exited (p.workers j).pc) zeroth ∙ ap has_exited h.place in
        let short : (k == 1) ≡ false = ground arith in rw (short, lives) (h, refl)
    join_step-Stays p (dying k) at h =
        let zeroth : k ≡ 0 = sym (ap (joined_below 1) at) ∙ h.unjoined in
        let lives : has_exited (p.workers k).pc ≡ false =
          ap (λ (j : ℕ). has_exited (p.workers j).pc) zeroth ∙ ap has_exited h.place in
        let short : (k == 1) ≡ false = ground arith in rw (short, lives) (h, refl)
    join_step-Stays p _ at h = (h, refl)

    destroy_step-Stays :
        (p : Pool d s 1) (ph : Phase)
        → p.phase ≡ ph
        → IsStuck t x left p
        → Stays (destroy_step d s 1 p ph, [])
    unfolding destroy_step
    destroy_step-Stays p joined at h = absurd (omega (arith, ap (joined_below 1) at, h.unjoined))
    destroy_step-Stays p serving at h =
        (record { place = h.place; full = h.full; unjoined = refl }, refl)
    destroy_step-Stays p _ at h = (h, refl)

    act-Stays :
        (p : Pool d s 1) (a : Action T)
        → Bounds d s 1 p
        → IsStuck t x left p
        → Stays (act d s 1 p a)
    unfolding act
    act-Stays p (work i raced does) b h =
        if_cases Stays (ltb i 1) _ _
          (λ inside.
            worker_step-Stays p i raced does (p.workers i).pc (ltb→lt i 1 inside) refl b.turn h)
          (λ _. (h, refl))
    act-Stays p Schedule.launch b h = launch_step-Stays p p.phase refl b h
    act-Stays p (Schedule.submit y) b h = submit_step-Stays p y p.phase b.turn h
    act-Stays p (Schedule.finalize m) b h = finalize_step-Stays p m p.phase h
    act-Stays p Schedule.join b h = join_step-Stays p p.phase refl h
    act-Stays p Schedule.destroy b h = destroy_step-Stays p p.phase refl h

    run-Stays :
        (p : Pool d s 1) (schedule : List (Action T))
        → Bounds d s 1 p
        → IsStuck t x left p
        → Stays (run d s 1 p schedule)
    unfolding run
    run-Stays p [] b h = (h, refl)
    run-Stays p (a ∷ rest) b h =
        let (h', quiet) = act-Stays p a b h in
        let (h'', quiet') = run-Stays (act d s 1 p a).0 rest (act-Bounds d s 1 p a b) h' in
        (h'', rw (quiet, quiet') refl)

    -- A pool of one worker, in every schedule: where the worker's queue is full, the task that it runs
    -- is about to submit a task through the pool, and the owner has joined no thread, then whatever
    -- happens after that, no task is submitted or finished, the worker stays where it is, and
    -- `finalize` does not return.
    pub own_queue_deadlock :
        (queue_capacity : ℕ) (before after : List (Action T))
        → IsStuck t x left (run d s 1 (construct_pool d s 1 queue_capacity) before).0
        → ((run d s 1 (run d s 1 (construct_pool d s 1 queue_capacity) before).0 after).1 ≡ [])
          × ((the_worker
                (run d s 1 (run d s 1 (construct_pool d s 1 queue_capacity) before).0 after).0).pc
              ≡ running t (global x ∷ left))
          × ((run d s 1 (run d s 1 (construct_pool d s 1 queue_capacity) before).0 after).0.phase
              ≢ joined)
    own_queue_deadlock c before after h =
        let p = (run d s 1 (construct_pool d s 1 c) before).0 in
        let b = run-Bounds d s 1 _ before (construct_pool-Bounds d s 1 c (omega arith)) in
        let (h', quiet) = run-Stays p after b h in
        (quiet, h'.place, λ e. omega (arith, ap (joined_below 1) e, h'.unjoined))
