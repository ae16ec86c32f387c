-- ===== src/Async/Handle.antt =====
-- src/async/promise.h and src/async/future.h: the variables that hold a `Promise` or a `Future`, each a
-- shared pointer to a shared state. `none` is an assertion that fails.
pub mod Accepted
pub mod Kept
pub mod Named
pub mod Results
use mini_rts.Base.{ℕ, Option, none, some, Bool, List, [], ◌∷◌, ◌==◌, if◌then◌else◌}
use mini_rts.Base.Family.{update}
use mini_rts.Core.Task.{◌>>=◌}
use mini_rts.Async.State.{Outcome, returned, threw, World, init}
use mini_rts.Async.Promise.{
  Got, get, get_future, make_promise, future_then, set_value, set_exception,
}
use mini_rts.Async.Promise

-- What each variable points to, `none` for a null pointer.
pub record Handles (F V E : Type 0) : Type 0 where
  pub world : World F V E
  pub vars : ℕ → Option ℕ

-- The first variable is the one that is written to, or that is used. A null `exception_ptr` is `none`.
pub data HandleOp (F V E : Type 0) : Type 0 where
  constructs : (v : ℕ) (is_void : Bool) → HandleOp F V E
  moves copies futures : (v other : ℕ) → HandleOp F V E
  detaches : (v : ℕ) → HandleOp F V E
  chains : (v other : ℕ) (f : F) (result_void : Bool) → HandleOp F V E
  sets_value : (v : ℕ) (x : Option V) → HandleOp F V E
  sets_exception : (v : ℕ) (e : Option E) → HandleOp F V E

-- A promise is given this outcome.
abbrev pub resolves : {F V E : Type 0} → ℕ → Outcome V E → HandleOp F V E
resolves v (returned x) = sets_value v x
resolves v (threw e) = sets_exception v (some e)

module _ {F V E : Type 0} where
  abbrev pub no_handles : Handles F V E
  no_handles = record { world = init; vars = λ _. none }

  abbrev pub point : Handles F V E → ℕ → Option ℕ → Handles F V E
  point h v to = record h { vars = update h.vars v to }

  -- `Promise()`
  abbrev pub construct_promise : ℕ → Bool → Handles F V E → Handles F V E
  construct_promise v is_void h =
      let (p, w) = make_promise is_void h.world in point (record h { world = w }) v (some p)

  -- The move constructor and the move assignment of `Promise`.
  abbrev pub move_promise : ℕ → ℕ → Handles F V E → Handles F V E
  move_promise v other h = if v == other then h else point (point h v (h.vars other)) other none

  -- `Future(s)`, which asserts that the pointer is not null.
  abbrev pub construct_future : ℕ → Option ℕ → Handles F V E → Option (Handles F V E)
  construct_future v none h = none
  construct_future v (some s) h = some (point h v (some s))

  abbrev pub get_future_of : ℕ → ℕ → Handles F V E → Option (Handles F V E)
  get_future_of v other h = do s ← h.vars other; construct_future v (some (get_future s)) h

  abbrev pub detach : ℕ → Handles F V E → Option (Handles F V E)
  detach v h = do s ← h.vars v; some (point h v none)

  -- `is_ready` and one look of `get`
  abbrev pub is_ready_of : ℕ → Handles F V E → Option Bool
  is_ready_of v h = do s ← h.vars v; some (Promise.is_ready h.world s)

  unfoldable pub get_of : ℕ → Handles F V E → Option (Got V E)
  get_of v h = do s ← h.vars v; get h.world s

  module _ (tls_worker running : Bool) where
    abbrev pub then_of : ℕ → ℕ → F → Bool → Handles F V E → Option (Handles F V E)
    then_of v other f result_void h = do
      s ← h.vars other
      (p, w) ← future_then running s f result_void h.world
      construct_future v (some p) (record h { world = w })

    abbrev pub set_value_of : ℕ → Option V → Handles F V E → Option (Handles F V E)
    set_value_of v x h = do
      s ← h.vars v
      w ← set_value tls_worker s x h.world
      some (record h { world = w })

    abbrev pub set_exception_of : ℕ → Option E → Handles F V E → Option (Handles F V E)
    set_exception_of v e h = do
      s ← h.vars v
      w ← set_exception running s e h.world
      some (record h { world = w })

    unfoldable pub handle_step : HandleOp F V E → Handles F V E → Option (Handles F V E)
    handle_step (constructs v is_void) h = some (construct_promise v is_void h)
    handle_step (moves v other) h = some (move_promise v other h)
    handle_step (copies v other) h = some (point h v (h.vars other))
    handle_step (futures v other) h = get_future_of v other h
    handle_step (detaches v) h = detach v h
    handle_step (chains v other f result_void) h = then_of v other f result_void h
    handle_step (sets_value v x) h = set_value_of v x h
    handle_step (sets_exception v e) h = set_exception_of v e h

    unfoldable pub handle_steps : List (HandleOp F V E) → Handles F V E → Option (Handles F V E)
    handle_steps [] h = some h
    handle_steps (op ∷ rest) h = do h' ← handle_step op h; handle_steps rest h'
