-- ===== src/Core/Pool/Enqueue.antt =====
-- src/core/default_thread_pool.h: what `enqueue` does to the queues and to the round robin.
use mini_rts.Base.{ℕ, ◌≡◌, inl, inr, some, arith, Option-cases}
use mini_rts.Core.Queues.{Deque, Spsc}
use mini_rts.Core.Worker.{Worker}
use mini_rts.Core.Worker
use mini_rts.Core.Pool.{Pool, put, next_round, enqueue}

module _ {T : Type 0} (d : Deque T) (s : Spsc T) (n : ℕ) (p : Pool d s n) (x : T) where
  abbrev turn : Worker d s
  turn = p.workers p.round_robin

  -- The pool after an enqueue that found this queue with the task in it.
  abbrev pub enqueued : s.Q → Pool d s n
  enqueued r = record (put d s n p p.round_robin (record turn { spscq = r })) {
    round_robin = next_round d s n p.round_robin;
  }

  pub enqueue-some :
      (q : Pool d s n)
      → enqueue d s n p x ≡ some q
      → (r : s.Q) × (s.emplace turn.spscq x ≡ some r) × (q ≡ enqueued r)
  unfolding enqueue Worker.enqueue
  enqueue-some q e = elim (Option-cases (s.emplace turn.spscq x)) [
    | inl blocked ↦ ground arith
    | inr (r, room) ↦ (r, room, ground arith)
  ]

  -- Only the queue of one worker is written: every other field of a worker, and of the pool, stays.
  pub enqueued-worker :
      (r : s.Q) (j : ℕ)
      → (((enqueued r).workers j).wsq ≡ (p.workers j).wsq)
        × (((enqueued r).workers j).pc ≡ (p.workers j).pc)
        × (((enqueued r).workers j).active ≡ (p.workers j).active)
        × (((enqueued r).workers j).next_victim ≡ (p.workers j).next_victim)
  enqueued-worker r j = ground arith
