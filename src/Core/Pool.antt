-- ===== src/Core/Pool.antt =====
-- src/core/default_thread_pool.h: the state of a pool and the operations of its owner. A call that has
-- to wait, or that is not due, changes nothing.
-- `num_threads_` is a constant of a pool, and so a parameter here.
pub mod Enqueue
pub mod RoundRobin
pub mod Dealing
pub mod Saturation
pub mod Owner
use mini_rts.Base.{
  ℕ, ◌+◌, ◌-◌, ◌%◌, ◌^◌, Option, none, some, Bool, true, false, ltb, leb, ◌==◌, if◌then◌else◌,
}
use mini_rts.Base.Family.{update}
use mini_rts.Core.Constants.{ShutdownMode, hard_shutdown, flag_of}
use mini_rts.Core.Queues.{Deque, Spsc}
use mini_rts.Core.Worker.{Pc, starting, exited, Worker, construct}
use mini_rts.Core.Worker

-- Where the owner of the pool stands: in the second loop of `init`, between calls, in the loop of
-- `finalize` that joins the workers, after it, in the loop of the destructor of a pool that was not
-- finalized, or after the destructor.
pub data Phase : Type 0 where
  launching : (i : ℕ) → Phase
  serving : Phase
  joining : (i : ℕ) → Phase
  joined : Phase
  dying : (i : ℕ) → Phase
  destroyed : Phase

-- `std::atomic<int>`, as a bit pattern
abbrev pub fetch_add : ℕ → ℕ
fetch_add n = (n + 1) % 2 ^ 32

abbrev pub fetch_sub : ℕ → ℕ
fetch_sub n = (n + 2 ^ 32 - 1) % 2 ^ 32

-- `round_robin_ >= static_cast<int>(num_threads_)`, where `round_robin_` is not negative
abbrev pub reaches_end : (round_robin num_threads : ℕ) → Bool
reaches_end r n = let m = n % 2 ^ 32 in if ltb m (2 ^ 31) then leb m r else true

abbrev pub has_exited : {T : Type 0} → Pc T → Bool
has_exited exited = true
has_exited _ = false

module _ {T : Type 0} (d : Deque T) (s : Spsc T) (num_threads : ℕ) where
  pub record Pool : Type 0 where
    pub workers : ℕ → Worker d s
    pub stop_flag : ℕ
    pub active_workers : ℕ
    pub round_robin : ℕ
    pub vector_alive : Bool
    pub phase : Phase

  abbrev pub put : Pool → ℕ → Worker d s → Pool
  put p i w = record p { workers = update p.workers i w }

  abbrev pub goto : Pool → ℕ → Pc T → Pool
  goto p i pc = put p i (record (p.workers i) { pc = pc })

  -- The constructor, and the first loop of `init`, which constructs the workers in place.
  unfoldable pub construct_pool : (queue_capacity : ℕ) → Pool
  unfolding construct
  construct_pool queue_capacity = record {
    workers = λ i. construct d s i queue_capacity;
    stop_flag = 0;
    active_workers = 0;
    round_robin = 0;
    vector_alive = true;
    phase = launching 0;
  }

  -- `Worker::run`, as far as the calling thread executes it.
  unfoldable pub run_worker : Pool → ℕ → Pool
  run_worker p i = goto (record p { active_workers = fetch_add p.active_workers }) i starting

  -- `round_robin_++; if (round_robin_ >= …) round_robin_ = 0;`
  abbrev pub next_round : ℕ → ℕ
  next_round r = if reaches_end (r + 1) num_threads then 0 else r + 1

  -- `none` is a call that waits for room in the queue of the worker whose turn it is.
  unfoldable pub enqueue : Pool → T → Option Pool
  enqueue p task = elim (Worker.enqueue d s (p.workers p.round_robin) task) [
    | none ↦ none
    | some w ↦ some (record (put p p.round_robin w) { round_robin = next_round p.round_robin })
  ]

  -- `init`: a round of the loop that starts the workers, or its end.
  unfoldable pub launch_step : Pool → Phase → Pool
  unfolding run_worker
  launch_step p (launching i) =
      if i == num_threads
      then record p { phase = serving }
      else record (run_worker p i) { phase = launching (i + 1) }
  launch_step p _ = p

  -- `enqueue`, as the owner calls it between `init` and `finalize`
  unfoldable pub submit_step : Pool → T → Phase → Pool × Bool
  unfolding enqueue
  submit_step p x serving = elim (enqueue p x) [ none ↦ (p, false) | some p' ↦ (p', true) ]
  submit_step p x _ = (p, false)

  -- `finalize`, up to its loop. A second call, which src/core/runtime.h never makes, is left out.
  unfoldable pub finalize_step : Pool → ShutdownMode → Phase → Pool
  finalize_step p mode serving = record p { stop_flag = flag_of mode; phase = joining 0 }
  finalize_step p mode _ = p

  -- A round of the loop of `finalize`, or of that of the destructor: `join` waits for the thread.
  unfoldable pub join_step : Pool → Phase → Pool
  join_step p (joining i) =
      if i == num_threads
      then record p { phase = joined }
      else if has_exited (p.workers i).pc
      then record p { phase = joining (i + 1) }
      else p
  join_step p (dying i) =
      if i == num_threads
      then record p { vector_alive = false; phase = destroyed }
      else if has_exited (p.workers i).pc
      then record p { phase = dying (i + 1) }
      else p
  join_step p _ = p

  -- The destructor, up to its loop. After `finalize` the threads are joined already, and `join` returns
  -- at once.
  unfoldable pub destroy_step : Pool → Phase → Pool
  destroy_step p joined =
      if num_threads == 0
      then record p { vector_alive = false; phase = destroyed }
      else record p { stop_flag = flag_of hard_shutdown; vector_alive = false; phase = destroyed }
  destroy_step p serving =
      if num_threads == 0
      then record p { vector_alive = false; phase = destroyed }
      else record p { stop_flag = flag_of hard_shutdown; phase = dying 0 }
  destroy_step p _ = p
