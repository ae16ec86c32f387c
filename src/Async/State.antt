-- ===== src/Async/State.antt =====
-- src/async/shared_state.h: what a promise and its futures share, and the callables that
-- src/async/spawn.h and src/async/future.h turn into tasks.
-- The types of the program's values, of its exceptions and of its functions are parameters.
use mini_rts.Base.{ℕ, Option, none, Bool, true, false, List, [], ◌∷◌, ◌++◌}
use mini_rts.Base.Family.{update}
use mini_rts.Core.Worker.{Submit}

-- What a call of a user's function comes to. A `void` function returns no value.
pub data Outcome (V E : Type 0) : Type 0 where
  returned : Option V → Outcome V E
  threw : E → Outcome V E

-- A shared state by its address. `spawned f p` is the lambda of `spawn`, with the function and its
-- arguments bound, and `continuation s f p` that of `then`; `p` is the promise that each captures.
pub data Closure (F : Type 0) : Type 0 where
  spawned : (f : F) (p : ℕ) → Closure F
  continuation : (s : ℕ) (f : F) (p : ℕ) → Closure F

-- `SharedState<T>`, and for a void `T` the specialisation, which never has a value. The mutex is not
-- a field: what it protects is done in one step.
pub record SharedState (F V E : Type 0) : Type 0 where
  pub is_void : Bool
  pub ready : Bool
  pub value : Option V
  pub exception : Option E
  pub continuations : List (Closure F)

-- The shared states that `make_shared` has given out, those below `next`, and the tasks that were
-- submitted and not yet run: locally, by `enqueue_local`, or globally, by `rts::enqueue`.
pub record World (F V E : Type 0) : Type 0 where
  pub states : ℕ → SharedState F V E
  pub next : ℕ
  pub queued : List (Submit (Closure F))

module _ {F V E : Type 0} where
  abbrev pub fresh_state : Bool → SharedState F V E
  fresh_state is_void = record {
    is_void = is_void;
    ready = false;
    value = none;
    exception = none;
    continuations = [];
  }

  abbrev pub init : World F V E
  init = record { states = λ _. fresh_state true; next = 0; queued = [] }

  abbrev pub put_state : World F V E → ℕ → SharedState F V E → World F V E
  put_state w p s = record w { states = update w.states p s }

  -- A new task goes behind those that wait.
  abbrev pub enqueue : World F V E → Submit (Closure F) → World F V E
  enqueue w t = record w { queued = w.queued ++ t ∷ [] }
