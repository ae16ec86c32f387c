-- ===== src/System.antt =====
-- src/async over src/core: the tasks of the pool are the closures of spawns and continuations. The main
-- thread makes futures, the owner of the pool starts and stops it, and the workers run closures on the
-- shared states.
pub mod Finding
pub mod Offering
pub mod Invariant
pub mod Staying
pub mod Handing
pub mod Calling
pub mod Steps
pub mod Results
use mini_rts.Base.{
  ℕ, ◌<◌, Option, none, some, Bool, true, false, List, [], ◌∷◌, ltb, is_nil, if◌then◌else◌,
}
use mini_rts.Core.Constants.{ShutdownMode}
use mini_rts.Core.Queues.{Deque, Spsc}
use mini_rts.Core.Task.{◌>>=◌}
use mini_rts.Core.Worker.{Submit, Pc, called}
use mini_rts.Core.Pool.{Pool, construct_pool}
use mini_rts.Core.Schedule
use mini_rts.Async.State.{Outcome, Closure, SharedState, World, fresh_state}
use mini_rts.Async.Promise.{run_closure}
use mini_rts.Async.Program.{Op, main_step, add_op, closure_of}

pub data Action (F : Type 0) : Type 0 where
  main : Op F → Action F
  work : (i : ℕ) (raced : Bool) → Action F
  launch : Action F
  finalize : ShutdownMode → Action F
  join : Action F
  destroy : Action F

module _ {F : Type 0} (V E : Type 0) (d : Deque (Closure F)) (s : Spsc (Closure F)) (n : ℕ) where
  -- `log` is what the main thread has done, the newest operation first.
  pub record System : Type 0 where
    pub pool : Pool d s n
    pub states : ℕ → SharedState F V E
    pub next : ℕ
    pub log : List (Op F)

  -- The shared states, with these tasks on their way.
  abbrev pub world : System → List (Submit (Closure F)) → World F V E
  world y ts = record { states = y.states; next = y.next; queued = ts }

  abbrev pub construct_system : (queue_capacity : ℕ) → System
  construct_system queue_capacity = record {
    pool = construct_pool d s n queue_capacity;
    states = λ _. fresh_state true;
    next = 0;
    log = [];
  }

  abbrev pub act_pool : Schedule.Action (Closure F) → System → System
  act_pool a y = record y { pool = (Schedule.act d s n y.pool a).0 }

  module _ (call : F → Option V → Outcome V E) (result_void : F → Bool) where
    -- The main thread's operation on the shared states, and what it hands to the pool. A call that
    -- waits for room in a queue, or that comes while the pool does not serve, is not done yet.
    unfoldable pub offer : Op F → System → World F V E → List (Submit (Closure F)) → System
    offer op y w [] = record y { states = w.states; next = w.next; log = add_op op y.log }
    offer op y w (t ∷ ts) =
        let (p, es) = Schedule.act d s n y.pool (Schedule.submit (closure_of t)) in
        if is_nil es
        then y
        else record { pool = p; states = w.states; next = w.next; log = add_op op y.log }

    unfoldable pub main_act : Op F → System → Option System
    unfolding offer
    main_act op y = do w ← main_step call result_void op (world y []); some (offer op y w w.queued)

    -- The step of a worker; where it calls a task, the closure runs on the shared states, and what it
    -- submits is what the task submits.
    unfoldable pub work_act : ℕ → Bool → Pc (Closure F) → System → Option System
    work_act i raced (called c) y = do
      w ← run_closure call true true c (world y [])
      some (record (act_pool (Schedule.work i raced w.queued) y) { states = w.states })
    work_act i raced _ y = some (act_pool (Schedule.work i raced []) y)

    unfoldable pub act : Action F → System → Option System
    unfolding main_act work_act
    act (main op) y = main_act op y
    act (work i raced) y = if ltb i n then work_act i raced (y.pool.workers i).pc y else some y
    act launch y = some (act_pool Schedule.launch y)
    act (finalize mode) y = some (act_pool (Schedule.finalize mode) y)
    act join y = some (act_pool Schedule.join y)
    act destroy y = some (act_pool Schedule.destroy y)

    unfoldable pub run : List (Action F) → System → Option System
    run [] y = some y
    run (a ∷ rest) y = do y' ← act a y; run rest y'
