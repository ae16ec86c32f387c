-- ===== src/Lib.antt =====
-- MiniRTS: a work-stealing task runtime with futures.
--
-- The program. A user starts the runtime (src/core/runtime.h), which builds a pool of worker threads
-- (src/core/default_thread_pool.h) and binds the global functions that submit tasks and shut it down.
-- A task is a type-erased callable (src/core/task.h). The pool deals submitted tasks out to the
-- workers in turn; each worker (src/core/worker.h, src/core/worker.cpp) has a queue that the pool
-- fills and a deque of its own, from which other workers steal. Over this, src/async has `spawn`, which
-- submits a function and gives a future, and `then`, which registers a continuation with the shared
-- state of a future or submits it if the future is ready.
--
-- The files.
--   Base: library names, Boolean tests, lists with weights, families indexed by numbers and their sums.
--   Core/Constants: src/core/constants.h.
--   Core/Task: `Task` of src/core/task.h on a heap of objects; `make` is the constructor from a
--     callable, `invoke` is `operator()`, `consume` is what a worker does with a task it has popped.
--     Life has its theorems.
--   Core/Queues: the interfaces of the two queues of external/, which are parameters: operations and
--     documented laws; Listed has lists that meet them, for the tests.
--   Core/Worker: the data and the operations of `Worker`; `Pc` is the place of its thread in `run`.
--     Victim is the loop of `run` that picks whom to steal from.
--   Core/Pool: `DefaultThreadPool`, its owner's operations cut at the points where they wait;
--     RoundRobin and Dealing are about `enqueue`, Saturation is `compute_saturation`.
--   Core/Thread: `Worker::run`, one step per shared access (`worker_step`); Moves is the same as a
--     relation with what each branch has found, over which the invariants are proved.
--   Core/Schedule: a pool, its workers and its owner interleaved in any order. Exactly is the
--     conservation of tasks, Stopping and Leaving the counter of active workers and the way out,
--     Draining and Graceful the soft shutdown, Hard the hard one, Deleted the time after the destructor.
--     Fair has schedules without an end, in which each thread gets its turn again and again; with Tame,
--     Round, Turns and Waiting it leads to Terminating and Destroying, the end of a hard shutdown and of
--     a destructor. Cycle is such a schedule. Owing and Intake are
--     what a pool has still to call, and Path puts schedules together.
--     Bag is the abstract pool, which Refines compares it with; Load is about `compute_saturation`, and
--     Stuck about a worker that waits for itself.
--   Core/Runtime: the globals and the calls of src/core/runtime.h over any pool that meets the concept
--     of src/core/thread_pool.h; Session has sequences of calls, beside a runtime
--     that is just one pool or none.
--   Async/State, Async/Promise: src/async/shared_state.h, promise.h, future.h and spawn.h. A shared
--     state is named by a number, a closure is data: `spawned` is the lambda of `spawn`, `continuation`
--     that of `then`. What a user's function does is a parameter.
--   Async/Handle: the variables that hold a `Promise` or a `Future`, with moves, copies and `detach`.
--     Accepted says which operations fail, Kept and Named what stays, Results what a program gets.
--   Async/Program: the main thread makes futures and workers run tasks in any order. `denote` is what a
--     future is meant to come to, given only the operations that made the futures. Invariant is what
--     holds between steps, Running, Settling, Making, Handing and Steps keep it, Determined and
--     Finishing are about the results.
--   Async/WhenAll: the branch of src/async/when_all.h for inputs that are not all void: the counter and
--     the slots that the continuations share.
--   Async/WhenAny: the same branch of src/async/when_any.h: the flag that decides which input wins;
--     Winner says who does.
--   Async/Countdown: the other branch of both, a counter.
--   Async/Combine: the two over the futures of a program. `attach_act` chains the continuation of an
--     input by `then`, `exec_act` runs a task, and `report` is what that continuation is called with.
--     Reports and Counting are about what is told in the end, Invariant about what holds on the way,
--     which Logging, Unready, Attaching and Steps keep; Idle is the end of the workers, and Arrivals,
--     Joining and Racing lead to the results of `when_all` and of `when_any`.
--   System: src/async over the pool of src/core. `work_act` calls a closure where the worker calls a task,
--     `main_act` is the main thread, which hands its tasks to the pool by `offer`. Its Invariant ties
--     the queues of the pool to the queue of Async/Program; Finding, Offering, Staying, Handing, Calling
--     and Steps keep it, Results has the futures. That functions can be compared is asked for there,
--     since the tasks are told apart by their closures.
--   Samples: the theorems at concrete inputs.
--
-- Conventions. `none` is an assertion that fails or undefined behaviour; in an enqueue it is a call
-- that has to wait, in a pool under Core/Runtime also a call that does not return, and an action that
-- has to wait changes nothing in a schedule. Counters of the source's `int` are bit patterns, with
-- the wrap-around written out. A schedule is a list of actions of any length. What a running task
-- submits and whether a steal is lost to another thread are choices of the schedule. The only fuel is
-- that of the loop that picks a victim; two rounds are enough.
--
-- What the model takes for granted. A function of the user that is called returns or throws. Every
-- access to shared memory is atomic and its effects are seen in the order of the schedule: the memory
-- orders of the atomics are not modelled, and neither are data races. The move of one item from a
-- worker's queue to its deque is one step. Calls of `enqueue` do not overlap. A pool is finalized
-- once: a second `finalize`, which src/core/runtime.h never makes, does nothing in the model. A
-- shared state's mutex makes each operation on it one step; the continuations of a promise are listed
-- in that step, and in System reach the queues one at a time. The runtime counts as active while a
-- task runs, and `then` is called by the main thread only. In Async/Program the waiting tasks may be
-- taken in any order; System has the pool's. In System a call of the main thread that comes while the
-- pool does not serve, or finds no room, is not done yet. The first overload's assertion on a fresh
-- future is made in both. In Async/Combine a continuation of `when_any` makes its three steps
-- together, which Async/WhenAny does not ask for, and the promise that is resolved there is a field
-- beside the shared states.
--
-- Not modelled: pinning, printing, processor hints and back-off (src/core/utils.h), which only call the
-- platform; the floating-point division of `compute_saturation`; when a shared pointer frees its state;
-- the constraints of src/core/concepts.h; tests, benchmarks and example.
pub mod Base
pub mod Core
pub mod Async
pub mod System
pub mod Samples
