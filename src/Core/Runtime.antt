-- ===== src/Core/Runtime.antt =====
-- src/core/runtime.h: the global state of the runtime, and the functions that the user calls, over any
-- type of pool that meets the concept of src/core/thread_pool.h. `none` is an assertion that fails, or
-- a call that does not return.
pub mod Session
use mini_rts.Base.{ℕ, Option, none, some, Bool, true, false, not, ◌&&◌, is_some, if◌then◌else◌}
use mini_rts.Core.Constants.{ShutdownMode, hard_shutdown, soft_shutdown}
use mini_rts.Core.Task.{Task, to_bool, assert, ◌>>=◌, ◌>>◌}

-- The concept `ThreadPool`, with the destructor that `delete` calls. `none` is an assertion of the pool
-- that fails, or a call that does not return.
pub record ThreadPool : Type 1 where
  pub State : Type 0
  pub make : (num_threads queue_capacity : ℕ) → Option State
  pub init : State → Option State
  pub finalize : ShutdownMode → State → Option State
  pub enqueue : Task → State → Option State
  pub delete : State → Option State

module _ (pool : ThreadPool) where
  -- The function pointers are null, or bound to the functions of this type of pool.
  pub record Globals : Type 0 where
    pub running : Bool
    pub active_thread_pool : Option pool.State
    pub enqueue_fn : Bool
    pub finalize_fn : Bool

  abbrev pub inactive : Globals
  inactive = record {
    running = false;
    active_thread_pool = none;
    enqueue_fn = false;
    finalize_fn = false;
  }

  abbrev pub active : pool.State → Globals
  active p = record {
    running = true;
    active_thread_pool = some p;
    enqueue_fn = true;
    finalize_fn = true;
  }

  -- The result, and the globals after the call.
  unfoldable pub initialize_runtime :
      (num_threads queue_capacity : ℕ) → Globals → Option (Bool × Globals)
  initialize_runtime num_threads queue_capacity g = if g.running then some (false, g) else do
    assert (not (is_some g.active_thread_pool))
    assert (not g.enqueue_fn && not g.finalize_fn)
    p ← pool.make num_threads queue_capacity
    p' ← pool.init p
    some (true, active p')

  -- The lambda that `finalize_fn` is bound to. It shows the pool as `delete` leaves it.
  pub finalize_with : ShutdownMode → Globals → Option (pool.State × Globals)
  finalize_with mode g = do
    p ← g.active_thread_pool
    p' ← pool.finalize mode p
    p'' ← pool.delete p'
    some (p'', inactive)

  unfoldable pub finalize_hard : Globals → Option (pool.State × Globals)
  unfolding finalize_with
  finalize_hard g = do assert g.finalize_fn; finalize_with hard_shutdown g

  unfoldable pub finalize_soft : Globals → Option (pool.State × Globals)
  unfolding finalize_with
  finalize_soft g = do assert g.finalize_fn; finalize_with soft_shutdown g

  -- The lambda that `enqueue_fn` is bound to.
  pub enqueue_with : Task → Globals → Option Globals
  enqueue_with task g = do
    p ← g.active_thread_pool
    assert (to_bool task)
    p' ← pool.enqueue task p
    some (record g { active_thread_pool = some p' })

  unfoldable pub enqueue : Task → Globals → Option Globals
  unfolding enqueue_with
  enqueue task g = do
    assert g.running
    assert g.enqueue_fn
    assert (to_bool task)
    enqueue_with task g
