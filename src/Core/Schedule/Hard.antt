-- ===== src/Core/Schedule/Hard.antt =====
-- The hard shutdown: a worker ends the round of its loop that it is in, and starts no other.
use mini_rts.Base.{
  ℕ, ◌+◌, ◌^◌, ◌<◌, ◌≤◌, ◌≡◌, ◌≢◌, refl, ap, ◌∙◌, false, List, [], ◌∷◌, arith, ltb, ltb→lt, ◌==◌,
  if_cases, Bool-cases, inl, inr,
}
use mini_rts.Base.Family.{total, total_but_one, total-le}
use mini_rts.Core.Constants.{ShutdownMode}
use mini_rts.Core.Queues.{Deque, Spsc}
use mini_rts.Core.Worker.{Submit, Pc, check, drain, take, called, running, Worker}
use mini_rts.Core.Pool.{
  Pool, Phase, launching, serving, joining, dying, joined, has_exited, construct_pool, launch_step,
  submit_step, finalize_step, join_step, destroy_step,
}
use mini_rts.Core.Pool.Enqueue.{enqueued-worker, enqueue-some}
use mini_rts.Core.Thread.{Event}
use mini_rts.Core.Thread.Moves
use mini_rts.Core.Thread.Moves.{Move, found, worker_step-Move}
use mini_rts.Core.Schedule.{Action, work, act, run}
use mini_rts.Core.Schedule
use mini_rts.Core.Schedule.Bounds.{Bounds, act-Bounds, run-Bounds, construct_pool-Bounds}
use mini_rts.Core.Schedule.Exactly.{weigh_finished-append}
use mini_rts.Core.Schedule.Leaving.{run-Inv, construct_pool-Inv}
use mini_rts.Core.Schedule.Stopping.{is_open}
use mini_rts.Core.Schedule.Weights.{weigh_finished}

abbrev pub one : {T : Type 0} → T → ℕ
one t = 1

-- The places of a round at which a task is taken, or may yet be.
abbrev pub in_round : {T : Type 0} → Pc T → ℕ
in_round check = 1
in_round drain = 1
in_round take = 1
in_round (called t) = 1
in_round (running t left) = 1
in_round _ = 0

module _ {T : Type 0} (d : Deque T) (s : Spsc T) (n : ℕ) where
  abbrev pub round_of : Worker d s → ℕ
  round_of w = in_round w.pc

  -- A hard shutdown is on: nothing asks for another mode, and no task comes from the owner.
  abbrev pub IsHard : Pool d s n → Type 0
  IsHard p = (p.stop_flag ≡ 1) × (is_open p.phase ≡ false)

  -- What finishes is paid for by the rounds that were going on.
  abbrev pub Pays : Pool d s n → Pool d s n × List (Event T) → Type 0
  Pays p r =
      IsHard r.0
      × (weigh_finished one r.1 + total round_of n r.0.workers ≤ total round_of n p.workers)

  module _ {i : ℕ} (inside : i < n) where
    -- Only the thread that moves changes its place, and it begins no round.
    pub Move-place :
        {p : Pool d s n} {does : List (Submit T)} {pc : Pc T} {r : Pool d s n × List (Event T)}
        → Move d s n p i does pc r
        → (p.workers i).pc ≡ pc
        → p.stop_flag ≡ 1
        → ((j : ℕ) → j ≢ i → round_of (r.0.workers j) ≡ round_of (p.workers j))
          × (weigh_finished one r.1 + round_of (r.0.workers i) ≤ round_of (p.workers i))
          × (r.0.stop_flag ≡ p.stop_flag)
          × (r.0.phase ≡ p.phase)
    Move-place {p} (Moves.sends {t} {x} {left} q e) at hard =
        let (r, _, same) = enqueue-some d s n p x q e in
        let keeps = λ (j : ℕ).
          ap (λ (z : Pool d s n). round_of (z.workers j)) same
          ∙ ap in_round (enqueued-worker d s n p x r j).1 in
        (
          λ j other. ground (arith, keeps j),
          ground arith,
          ap (λ (z : Pool d s n). z.stop_flag) same,
          ap (λ (z : Pool d s n). z.phase) same,
        )
    Move-place {p} (Moves.goes_on free) at hard = absurd (free hard)
    Move-place {p} mv at hard = (λ j other. ground arith, ground arith, ground arith, ground arith)

    Move-Pays :
        {p : Pool d s n} {does : List (Submit T)} {pc : Pc T} {r : Pool d s n × List (Event T)}
        → Move d s n p i does pc r
        → (p.workers i).pc ≡ pc
        → IsHard p
        → Pays p r
    Move-Pays {p} {does} {pc} {r} mv at (hard, closed) =
        let (others, here, flag, phase) = Move-place mv at hard in
        (
          (flag ∙ hard, ap is_open phase ∙ closed),
          omega (arith, here, total_but_one round_of n p.workers r.0.workers i inside others),
        )

  stays : (p : Pool d s n) → IsHard p → Pays p (p, [])
  stays p h = (h, omega arith)

  launch_step-Pays :
      (p : Pool d s n) (ph : Phase) → p.phase ≡ ph → IsHard p → Pays p (launch_step d s n p ph, [])
  unfolding launch_step
  launch_step-Pays p (launching i) at h = absurd (cc (ap is_open at))
  launch_step-Pays p _ at h = stays p h

  submit_step-Pays :
      (p : Pool d s n) (x : T) (ph : Phase)
      → p.phase ≡ ph
      → IsHard p
      → Pays p ((submit_step d s n p x ph).0, Schedule.shown x (submit_step d s n p x ph).1)
  unfolding submit_step
  submit_step-Pays p x serving at h = absurd (cc (ap is_open at))
  submit_step-Pays p x _ at h = stays p h

  finalize_step-Pays :
      (p : Pool d s n) (m : ShutdownMode) (ph : Phase)
      → p.phase ≡ ph
      → IsHard p
      → Pays p (finalize_step d s n p m ph, [])
  unfolding finalize_step
  finalize_step-Pays p m serving at h = absurd (cc (ap is_open at))
  finalize_step-Pays p m _ at h = stays p h

  join_step-Pays : (p : Pool d s n) (ph : Phase) → IsHard p → Pays p (join_step d s n p ph, [])
  unfolding join_step
  join_step-Pays p (joining k) h =
      if_cases (λ q. Pays p (q, [])) (k == n) _ _ (λ _. ((h.0, refl), omega arith))
        (λ _.
          if_cases (λ q. Pays p (q, [])) (has_exited (p.workers k).pc) _ _
            (λ _. ((h.0, refl), omega arith)) (λ _. stays p h))
  join_step-Pays p (dying k) h =
      if_cases (λ q. Pays p (q, [])) (k == n) _ _ (λ _. ((h.0, refl), omega arith))
        (λ _.
          if_cases (λ q. Pays p (q, [])) (has_exited (p.workers k).pc) _ _
            (λ _. ((h.0, refl), omega arith)) (λ _. stays p h))
  join_step-Pays p _ h = stays p h

  destroy_step-Pays :
      (p : Pool d s n) (ph : Phase) → p.phase ≡ ph → IsHard p → Pays p (destroy_step d s n p ph, [])
  unfolding destroy_step
  destroy_step-Pays p joined at h =
      if_cases (λ q. Pays p (q, [])) (n == 0) _ _ (λ _. ((h.0, refl), omega arith))
        (λ _. ((refl, refl), omega arith))
  destroy_step-Pays p serving at h = absurd (cc (ap is_open at))
  destroy_step-Pays p _ at h = stays p h

  pub act-Pays :
      (p : Pool d s n) (a : Action T) → Bounds d s n p → IsHard p → Pays p (act d s n p a)
  unfolding act
  act-Pays p (work i raced does) b h =
      if_cases (Pays p) (ltb i n) _ _
        (λ inside.
          Move-Pays (ltb→lt i n inside)
            (worker_step-Move d s n p i raced does (p.workers i).pc (b.victims i)) refl h)
        (λ _. stays p h)
  act-Pays p Schedule.launch b h = launch_step-Pays p p.phase refl h
  act-Pays p (Schedule.submit x) b h = submit_step-Pays p x p.phase refl h
  act-Pays p (Schedule.finalize m) b h = finalize_step-Pays p m p.phase refl h
  act-Pays p Schedule.join b h = join_step-Pays p p.phase h
  act-Pays p Schedule.destroy b h = destroy_step-Pays p p.phase refl h

  run-Pays :
      (p : Pool d s n) (schedule : List (Action T))
      → Bounds d s n p
      → IsHard p
      → Pays p (run d s n p schedule)
  unfolding run
  run-Pays p [] b h = stays p h
  run-Pays p (a ∷ rest) b h =
      let (p', e) = act d s n p a in
      let (h', first) = act-Pays p a b h in
      let (h'', others) = run-Pays p' rest (act-Bounds d s n p a b) h' in
      (h'', omega (arith, first, others, weigh_finished-append one e (run d s n p' rest).1))

  -- In every schedule of a pool of fewer than 2^32 threads, at least one: once the flag asks for a hard
  -- shutdown, no more tasks finish than there are workers in a round of their loop in which
  -- they take a task or may take one, so at most one task for each worker.
  pub hard_shutdown_bound :
      (queue_capacity : ℕ) (before after : List (Action T))
      → n < 2 ^ 32
      → 0 < n
      → (run d s n (construct_pool d s n queue_capacity) before).0.stop_flag ≡ 1
      → (weigh_finished one
            (run d s n (run d s n (construct_pool d s n queue_capacity) before).0 after).1
          ≤ total round_of n (run d s n (construct_pool d s n queue_capacity) before).0.workers)
        × (total round_of n (run d s n (construct_pool d s n queue_capacity) before).0.workers ≤ n)
  hard_shutdown_bound c before after small positive hard =
      let p = (run d s n (construct_pool d s n c) before).0 in
      let b = run-Bounds d s n _ before (construct_pool-Bounds d s n c positive) in
      let v =
        run-Inv d s n small _ before (construct_pool-Bounds d s n c positive)
          (construct_pool-Inv d s n c) in
      let closed : is_open p.phase ≡ false = elim (Bool-cases (is_open p.phase)) [
        | inl opened ↦ absurd (omega (arith, hard, (v.open_flag opened).0))
        | inr shut ↦ shut
      ] in
      let (_, paid) = run-Pays p after b (hard, closed) in
      (omega (arith, paid), total-le round_of (λ w. ground arith) n p.workers)
