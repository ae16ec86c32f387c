-- ===== src/Core/Pool/Saturation.antt =====
-- src/core/default_thread_pool.h: the two integers that `compute_saturation` divides as floating-point
-- numbers. The loop reads the queue of one worker after the other, and the pool goes on between:
-- `views i` is the pool when the worker `i` is read.
use mini_rts.Base.{ℕ, zero, suc, ◌+◌, ◌*◌, ◌%◌, ◌^◌, Option, some, not, ◌==◌}
use mini_rts.Core.Task.{assert, ◌>>◌}
use mini_rts.Core.Queues.{Deque, Spsc}
use mini_rts.Core.Worker.{wsq_size}
use mini_rts.Core.Pool.{Pool}

module _ {T : Type 0} (d : Deque T) (s : Spsc T) (num_threads : ℕ) where
  -- The loop over the first `k` workers: `size_t` arithmetic wraps.
  unfoldable pub sum_sizes : (k : ℕ) → (views : ℕ → Pool d s num_threads) → ℕ
  unfolding wsq_size
  sum_sizes zero views = 0
  sum_sizes (suc k) views = (sum_sizes k views + wsq_size d s ((views k).workers k)) % 2 ^ 64

  -- The dividend and the divisor; `none` is an assertion on the number of workers or on the divisor.
  unfoldable pub compute_saturation :
      (queue_capacity : ℕ) → (views : ℕ → Pool d s num_threads) → Option (ℕ × ℕ)
  unfolding sum_sizes
  compute_saturation queue_capacity views = do
    assert (not (num_threads == 0))
    let sum = sum_sizes num_threads views
    let total = (num_threads * queue_capacity) % 2 ^ 64
    assert (not (total == 0))
    some (sum, total)
