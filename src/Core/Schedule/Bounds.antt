-- ===== src/Core/Schedule/Bounds.antt =====
-- The indices of a pool stay within its vector of workers: the round robin, and each thief's victim.
-- A worker that `init` has not come to has not started.
use mini_rts.Base.{
  ℕ, ◌<◌, ◌≤◌, ◌∙◌, ◌≡◌, refl, sym, subst, some, List, [], ◌∷◌, arith, ltb, ◌==◌, if_cases,
  Option-cases, inl, inr,
}
use mini_rts.Core.Queues.{Deque, Spsc}
use mini_rts.Core.Worker.{Submit, Pc, unstarted}
use mini_rts.Core.Pool.{
  Pool, Phase, enqueue, next_round, launch_step, submit_step, launching, serving, construct_pool,
}
use mini_rts.Core.Pool.Enqueue.{enqueued-worker, enqueue-some}
use mini_rts.Core.Pool.Owner.{SameWorkers, finalize_step-keeps, join_step-keeps, destroy_step-keeps}
use mini_rts.Core.Thread.{Event}
use mini_rts.Core.Thread.Moves
use mini_rts.Core.Thread.Moves.{Move, worker_step-Move}
use mini_rts.Core.Schedule.{Action, work, act, run}
use mini_rts.Core.Schedule

pub record Bounds {T : Type 0} (d : Deque T) (s : Spsc T) (n : ℕ) (p : Pool d s n) : Type 0 where
  pub turn : p.round_robin < n
  pub victims : (i : ℕ) → (p.workers i).next_victim < n
  pub launched : (i : ℕ) → p.phase ≡ launching i → i ≤ n
  pub fresh : (i j : ℕ) → p.phase ≡ launching i → i ≤ j → (p.workers j).pc ≡ unstarted

module _ {T : Type 0} (d : Deque T) (s : Spsc T) (n : ℕ) where
  pub construct_pool-Bounds :
      (queue_capacity : ℕ) → 0 < n → Bounds d s n (construct_pool d s n queue_capacity)
  unfolding construct_pool
  construct_pool-Bounds c h = record {
    turn = h;
    victims = λ i. h;
    launched = λ i e. ground arith;
    fresh = λ i j _ _. refl;
  }

  next_round-lt : (r : ℕ) → r < n → next_round d s n r < n
  next_round-lt r h = ground arith

  enqueue-Bounds :
      (p q : Pool d s n) (x : T) → enqueue d s n p x ≡ some q → Bounds d s n p → Bounds d s n q
  enqueue-Bounds p q x e b =
      let (r, _, same) = enqueue-some d s n p x q e in
      subst (Bounds d s n) (sym same) (record {
        turn = next_round-lt p.round_robin b.turn;
        victims = λ j. ground (arith, b.victims j, (enqueued-worker d s n p x r j).3);
        launched = b.launched;
        fresh = λ k j e le. (enqueued-worker d s n p x r j).1 ∙ b.fresh k j e le;
      })

  Move-Bounds :
      {p : Pool d s n} {i : ℕ} {does : List (Submit T)} {pc : Pc T}
      {r : Pool d s n × List (Event T)}
      → Move d s n p i does pc r
      → (p.workers i).pc ≡ pc
      → Bounds d s n p
      → Bounds d s n r.0
  Move-Bounds Moves.stay at b = b
  Move-Bounds {p} {i} (Moves.sends {x} q e) at b =
      let b' = enqueue-Bounds p q x e b in
      let (r, _, same) = enqueue-some d s n p x q e in
      record {
        turn = b'.turn;
        victims = λ j. ground (arith, b'.victims j, b'.victims i);
        launched = b'.launched;
        fresh = λ k j f le. ground (
          arith,
          b.fresh k j,
          same,
          b'.fresh k j f le,
          b'.fresh k i f,
          (enqueued-worker d s n p x r i).1,
        );
      }
  Move-Bounds {p} {i} (Moves.chooses v below other) at b = record {
    turn = b.turn;
    victims = λ j. ground (arith, b.victims j);
    launched = b.launched;
    fresh = λ k j f le. ground (arith, b.fresh k j, b.fresh k i);
  }
  Move-Bounds {p} {i} mv at b = record {
    turn = b.turn;
    victims =
        λ j. ground (arith, b.turn, b.victims j, b.victims i, b.victims (p.workers i).next_victim);
    launched = b.launched;
    fresh = λ k j f le. ground (arith, b.fresh k j, b.fresh k i);
  }

  SameWorkers-Bounds : (p q : Pool d s n) → SameWorkers d s n p q → Bounds d s n p → Bounds d s n q
  SameWorkers-Bounds p q same b = record {
    turn = rw (← same.turn) b.turn;
    victims = λ i. rw (← same.workers) (b.victims i);
    launched = λ i e. b.launched i (same.launching_still i e);
    fresh = λ i j e le. rw (← same.workers) (b.fresh i j (same.launching_still i e) le);
  }

  launch_step-Bounds :
      (p : Pool d s n) (ph : Phase)
      → p.phase ≡ ph
      → Bounds d s n p
      → Bounds d s n (launch_step d s n p ph)
  unfolding launch_step
  launch_step-Bounds p (launching i) at b =
      if_cases (Bounds d s n) (i == n) _ _
        (λ _. record {
          turn = b.turn;
          victims = b.victims;
          launched = λ k e. cc;
          fresh = λ k j e le. cc;
        })
        (λ more. record {
          turn = b.turn;
          victims = λ j. ground (arith, b.victims j, b.victims i);
          launched = λ k e. ground (arith, b.launched i at);
          fresh = λ k j e le. ground (arith, b.fresh i j at);
        })
  launch_step-Bounds p _ at b = b

  submit_step-Bounds :
      (p : Pool d s n) (x : T) (ph : Phase)
      → Bounds d s n p
      → Bounds d s n (submit_step d s n p x ph).0
  unfolding submit_step
  submit_step-Bounds p x serving b = elim (Option-cases (enqueue d s n p x)) [
    | inl full ↦ rw (full, submit_step) b
    | inr (q, room) ↦ rw (room, submit_step) (enqueue-Bounds p q x room b)
  ]
  submit_step-Bounds p x _ b = b

  pub act-Bounds : (p : Pool d s n) (a : Action T) → Bounds d s n p → Bounds d s n (act d s n p a).0
  unfolding act
  act-Bounds p (work i raced does) b =
      if_cases (λ (r : Pool d s n × List (Event T)). Bounds d s n r.0) (ltb i n) _ _
        (λ _.
          Move-Bounds (worker_step-Move d s n p i raced does (p.workers i).pc (b.victims i)) refl b)
        (λ _. b)
  act-Bounds p Schedule.launch b = launch_step-Bounds p p.phase refl b
  act-Bounds p (Schedule.submit x) b = submit_step-Bounds p x p.phase b
  act-Bounds p (Schedule.finalize m) b =
      SameWorkers-Bounds p _ (finalize_step-keeps d s n p m p.phase) b
  act-Bounds p Schedule.join b = SameWorkers-Bounds p _ (join_step-keeps d s n p p.phase) b
  act-Bounds p Schedule.destroy b = SameWorkers-Bounds p _ (destroy_step-keeps d s n p p.phase) b

  -- They do so in every schedule.
  pub run-Bounds :
      (p : Pool d s n) (schedule : List (Action T))
      → Bounds d s n p
      → Bounds d s n (run d s n p schedule).0
  unfolding run
  run-Bounds p [] b = b
  run-Bounds p (a ∷ rest) b = run-Bounds (act d s n p a).0 rest (act-Bounds p a b)
