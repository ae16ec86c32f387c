-- ===== src/Core/Worker.antt =====
-- src/core/worker.h: a worker's data, its query and submission operations, and the choice of a victim.
pub mod Victim
use mini_rts.Base.{ℕ, zero, suc, ◌+◌, Option, none, some, Bool, List, ◌==◌, if◌then◌else◌}
use mini_rts.Core.Queues.{Deque, Spsc}

-- What a task may do to the queues while it runs: `enqueue_local` on the worker that runs it, or
-- `rts::enqueue` through the pool.
pub data Submit (T : Type 0) : Type 0 where
  local : T → Submit T
  global : T → Submit T

abbrev pub task_of : {T : Type 0} → Submit T → T
task_of (local x) = x
task_of (global x) = x

-- Where the thread of a worker stands in `run`, with the local variables that are live there.
pub data Pc (T : Type 0) : Type 0 where
  unstarted : Pc T
  starting : Pc T  -- the thread begins
  top : Pc T  -- the test of the outer `while`
  check : Pc T  -- `if (wsq_->empty())`
  drain : Pc T  -- the test of the inner `while`, and its body
  take : Pc T  -- `wsq_->pop()`
  called : (t : T) → Pc T  -- before `t.value()()`
  running : (t : T) → (left : List (Submit T)) → Pc T  -- in the call, then `destroy`
  choose : Pc T  -- the victim and the size of its queue
  stealing : (rounds : ℕ) → Pc T  -- the head of the `for`
  holding : (stolen_task : T) → (rounds : ℕ) → Pc T  -- before `enqueue_local`
  soft_flag : Pc T  -- the three tests of the soft shutdown
  soft_wsq : Pc T
  soft_spsc : Pc T
  soft_mark : Pc T  -- `if (active)`
  soft_count : Pc T  -- `active_workers_->load() == 0`
  exited : Pc T

module _ {T : Type 0} (d : Deque T) (s : Spsc T) where
  -- The shared pointers of the class lead to fields of the pool, which all workers share.
  pub record Worker : Type 0 where
    pub wsq : d.Q
    pub spscq : s.Q
    pub core_affinity : ℕ
    pub pc : Pc T
    pub active : Bool
    pub next_victim : ℕ

  -- The constructor. `active` and `next_victim` are locals of `run`, set when the thread begins.
  unfoldable pub construct : (core_affinity queue_capacity : ℕ) → Worker
  construct core_affinity queue_capacity = record {
    wsq = d.make queue_capacity;
    spscq = s.make queue_capacity;
    core_affinity = core_affinity;
    pc = unstarted;
    active = Bool.false;
    next_victim = 0;
  }

  unfoldable pub wsq_size : Worker → ℕ
  wsq_size w = d.size w.wsq

  -- `steal` on a victim: what was stolen, and the victim after it.
  unfoldable pub steal : (raced : Bool) → Worker → Option T × Worker
  steal raced w = let (t, q) = d.steal raced w.wsq in (t, record w { wsq = q })

  -- `none` is a call that waits for room in the queue.
  unfoldable pub enqueue : Worker → T → Option Worker
  enqueue w task = elim (s.emplace w.spscq task) [
    | none ↦ none
    | some q ↦ some (record w { spscq = q })
  ]

  unfoldable pub enqueue_local : Worker → T → Worker
  enqueue_local w task = record w { wsq = d.emplace w.wsq task }
