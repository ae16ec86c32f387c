-- ===== src/Core/Pool/Owner.antt =====
-- src/core/default_thread_pool.h: what `finalize` and the destructor leave alone.
use mini_rts.Base.{ℕ, ◌≡◌, refl, if_cases, ◌==◌}
use mini_rts.Core.Constants.{ShutdownMode}
use mini_rts.Core.Queues.{Deque, Spsc}
use mini_rts.Core.Pool.{
  Pool, Phase, launching, serving, joining, joined, dying, has_exited, finalize_step, join_step,
  destroy_step,
}

-- The same workers with the same queues, and the same turn; no worker is left to start that was not
-- before.
pub record SameWorkers {T : Type 0} (d : Deque T) (s : Spsc T) (n : ℕ) (p q : Pool d s n)
    : Type 0 where
  pub workers : p.workers ≡ q.workers
  pub turn : p.round_robin ≡ q.round_robin
  pub launching_still : (i : ℕ) → q.phase ≡ launching i → p.phase ≡ launching i

module _ {T : Type 0} (d : Deque T) (s : Spsc T) (n : ℕ) (p : Pool d s n) where
  pub finalize_step-keeps :
      (m : ShutdownMode) (ph : Phase) → SameWorkers d s n p (finalize_step d s n p m ph)
  unfolding finalize_step
  finalize_step-keeps m serving = record {
    workers = refl;
    turn = refl;
    launching_still = λ i e. cc;
  }
  finalize_step-keeps m _ = record { workers = refl; turn = refl; launching_still = λ i e. cc }

  pub join_step-keeps : (ph : Phase) → SameWorkers d s n p (join_step d s n p ph)
  unfolding join_step
  join_step-keeps (joining i) =
      if_cases (SameWorkers d s n p) (i == n) _ _
        (λ _. record { workers = refl; turn = refl; launching_still = λ i e. cc })
        (λ _.
          if_cases (SameWorkers d s n p) (has_exited (p.workers i).pc) _ _
            (λ _. record { workers = refl; turn = refl; launching_still = λ i e. cc })
            (λ _. record { workers = refl; turn = refl; launching_still = λ i e. cc }))
  join_step-keeps (dying i) =
      if_cases (SameWorkers d s n p) (i == n) _ _
        (λ _. record { workers = refl; turn = refl; launching_still = λ i e. cc })
        (λ _.
          if_cases (SameWorkers d s n p) (has_exited (p.workers i).pc) _ _
            (λ _. record { workers = refl; turn = refl; launching_still = λ i e. cc })
            (λ _. record { workers = refl; turn = refl; launching_still = λ i e. cc }))
  join_step-keeps _ = record { workers = refl; turn = refl; launching_still = λ i e. cc }

  pub destroy_step-keeps : (ph : Phase) → SameWorkers d s n p (destroy_step d s n p ph)
  unfolding destroy_step
  destroy_step-keeps joined =
      if_cases (SameWorkers d s n p) (n == 0) _ _
        (λ _. record { workers = refl; turn = refl; launching_still = λ i e. cc })
        (λ _. record { workers = refl; turn = refl; launching_still = λ i e. cc })
  destroy_step-keeps serving =
      if_cases (SameWorkers d s n p) (n == 0) _ _
        (λ _. record { workers = refl; turn = refl; launching_still = λ i e. cc })
        (λ _. record { workers = refl; turn = refl; launching_still = λ i e. cc })
  destroy_step-keeps _ = record { workers = refl; turn = refl; launching_still = λ i e. cc }
