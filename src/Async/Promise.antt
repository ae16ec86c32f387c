-- ===== src/Async/Promise.antt =====
-- src/async/promise.h and src/async/future.h: `Promise` and `Future`, two handles on a shared state.
-- `none` is an assertion that fails.
use mini_rts.Base.{
  ℕ, ◌+◌, Option, none, some, Bool, true, not, List, [], ◌∷◌, ◌++◌, is_some, ◌||◌, if◌then◌else◌,
}
use mini_rts.Base.Family.{update}
use mini_rts.Core.Task.{assert, ◌>>◌}
use mini_rts.Core.Worker.{local, global}
use mini_rts.Async.State.{
  Outcome, returned, threw, Closure, spawned, continuation, SharedState, World, fresh_state,
  put_state, enqueue,
}

-- `get_future`: the future shares the state.
abbrev pub get_future : ℕ → ℕ
get_future p = p

-- What one look of `get` at a future comes to.
pub data Got (V E : Type 0) : Type 0 where
  waits : Got V E
  got : Outcome V E → Got V E

module _ {F V E : Type 0} where
  -- The constructor of `Promise<T>`: the address of a fresh shared state.
  unfoldable pub make_promise : (is_void : Bool) → World F V E → ℕ × World F V E
  make_promise is_void w = (
    w.next,
    record w { states = update w.states w.next (fresh_state is_void); next = w.next + 1 },
  )

  -- The loop of `set_value`: each continuation goes to the queue of the worker that runs this task.
  unfoldable pub schedule_locally :
      (tls_worker : Bool) → List (Closure F) → World F V E → Option (World F V E)
  schedule_locally tls_worker [] w = some w
  schedule_locally tls_worker (c ∷ cs) w = do
    assert tls_worker
    schedule_locally tls_worker cs (enqueue w (local c))

  -- The loop of `set_exception`: each continuation goes through the pool, if the runtime is active.
  unfoldable pub schedule_globally :
      (running : Bool) → List (Closure F) → World F V E → Option (World F V E)
  schedule_globally running [] w = some w
  schedule_globally running (c ∷ cs) w = do
    assert running
    schedule_globally running cs (enqueue w (global c))

  -- Both overloads of `set_value`; the one for `void` sets no value.
  unfoldable pub set_value : (tls_worker : Bool) → ℕ → Option V → World F V E → Option (World F V E)
  unfolding schedule_locally
  set_value tls_worker p v w = do
    let s = w.states p
    assert (not s.ready)
    schedule_locally tls_worker s.continuations
        (put_state w p (record s { value = v; ready = true }))

  -- `none` is a null `exception_ptr`.
  unfoldable pub set_exception :
      (running : Bool) → ℕ → Option E → World F V E → Option (World F V E)
  unfolding schedule_globally
  set_exception running p e w = do
    assert (is_some e)
    let s = w.states p
    assert (not s.ready)
    schedule_globally running s.continuations
        (put_state w p (record s { exception = e; ready = true }))

  abbrev pub is_ready : World F V E → ℕ → Bool
  is_ready w f = (w.states f).ready

  -- What a ready state comes to: an exception passes for the result.
  abbrev pub stored : SharedState F V E → Outcome V E
  stored s = elim s.exception [ some e ↦ threw e | none ↦ returned s.value ]

  -- `get`: it spins while the state is not ready, which `wait` is for, and then throws or returns.
  unfoldable pub get : World F V E → ℕ → Option (Got V E)
  get w f =
      if is_ready w f
      then (elim (w.states f).exception [
        | some e ↦ some (got (threw e))
        | none ↦ do
          assert ((w.states f).is_void || is_some (w.states f).value)
          some (got (returned (w.states f).value))
      ])
      else some waits

  -- `then`, both overloads: the new future, and the continuation registered with the state, or
  -- submitted if the state is ready already. `result_void` says whether the function returns `void`.
  unfoldable pub future_then :
      (running : Bool) → ℕ → F → (result_void : Bool) → World F V E → Option (ℕ × World F V E)
  unfolding make_promise
  future_then running s f result_void w = do
    let (p, w') = make_promise result_void w
    assert (not (is_ready w' p))
    let cont = continuation s f p
    let st = w'.states s
    if st.ready
        then (do assert running; some (p, enqueue w' (global cont)))
        else some (p, put_state w' s (record st { continuations = st.continuations ++ cont ∷ [] }))

  unfoldable pub spawn :
      (running : Bool) → F → (result_void : Bool) → World F V E → Option (ℕ × World F V E)
  unfolding make_promise
  spawn running f result_void w = do
    assert running
    let (p, w') = make_promise result_void w
    some (get_future p, enqueue w' (global (spawned f p)))

  -- The handlers of the two lambdas: the outcome of the call goes to the promise.
  unfoldable pub settle :
      (tls_worker running : Bool) → ℕ → Outcome V E → World F V E → Option (World F V E)
  settle tls_worker running p (returned v) w = set_value tls_worker p v w
  settle tls_worker running p (threw e) w = set_exception running p (some e) w

  module _ (call : F → Option V → Outcome V E) where
    -- A worker runs a task: the lambda of `spawn`, or that of `then`.
    unfoldable pub run_closure :
        (tls_worker running : Bool) → Closure F → World F V E → Option (World F V E)
    unfolding settle
    run_closure tls_worker running (spawned f p) w = settle tls_worker running p (call f none) w
    run_closure tls_worker running (continuation s f p) w = elim (w.states s).exception [
      | some e ↦ set_exception running p (some e) w
      | none ↦ do
        assert ((w.states s).is_void || is_some (w.states s).value)
        settle tls_worker running p (call f (w.states s).value) w
    ]
