-- ===== src/Async/Program.antt =====
-- A program over src/async: the main thread spawns functions and chains continuations, and workers run
-- the queued tasks, in any order and interleaved with it, while the runtime is active. Beside it, what
-- each future is meant to come to, which no interleaving appears in.
pub mod Meaning
pub mod Resolve
pub mod Invariant
pub mod Path
pub mod Running
pub mod Making
pub mod Handing
pub mod Steps
pub mod Determined
pub mod Finishing
pub mod Settling
use mini_rts.Base.{
  ℕ, zero, suc, Option, none, some, Bool, true, false, List, [], ◌∷◌, length, ltb, ◌==◌,
  if◌then◌else◌,
}
use mini_rts.Core.Task.{◌>>=◌}
use mini_rts.Core.Worker.{Submit, task_of}
use mini_rts.Async.State.{Outcome, returned, threw, Closure, spawned, continuation, World}
use mini_rts.Async.Promise
use mini_rts.Async.Promise.{future_then, run_closure}

-- How the main thread makes a future. Futures are numbered in the order in which they are made.
pub data Op (F : Type 0) : Type 0 where
  spawns : (f : F) → Op F
  thens : (s : ℕ) (f : F) → Op F

-- `exec k` is a worker that takes the task at this place of those that wait.
pub data Action (F : Type 0) : Type 0 where
  main : Op F → Action F
  exec : (k : ℕ) → Action F

module _ {A : Type 0} where
  abbrev pub remove : ℕ → List A → Option (A × List A)
  remove k [] = none
  remove zero (x ∷ xs) = some (x, xs)
  remove (suc k) (x ∷ xs) = elim (remove k xs) [ none ↦ none | some (y, ys) ↦ some (y, x ∷ ys) ]

abbrev pub closure_of : {F : Type 0} → Submit (Closure F) → Closure F
closure_of t = task_of t

-- The operations, the newest first, with those that name a future which is not there left out.
abbrev pub add_op : {F : Type 0} → Op F → List (Op F) → List (Op F)
add_op (spawns f) ops = spawns f ∷ ops
add_op (thens s f) ops = if ltb s (length ops) then thens s f ∷ ops else ops

abbrev pub made : {F : Type 0} → List (Op F) → List (Action F) → List (Op F)
made ops [] = ops
made ops (main op ∷ rest) = made (add_op op ops) rest
made ops (exec k ∷ rest) = made ops rest

module _ {F V E : Type 0} (call : F → Option V → Outcome V E) (result_void : F → Bool) where
  unfoldable pub main_step : Op F → World F V E → Option (World F V E)
  main_step (spawns f) w = do (_, w') ← Promise.spawn true f (result_void f) w; some w'
  main_step (thens s f) w =
      if ltb s w.next
      then (do (_, w') ← future_then true s f (result_void f) w; some w')
      else some w

  unfoldable pub exec_step :
      Option (Submit (Closure F) × List (Submit (Closure F))) → World F V E → Option (World F V E)
  exec_step none w = some w
  exec_step (some (t, rest)) w =
      run_closure call true true (closure_of t) (record w { queued = rest })

  unfoldable pub act : Action F → World F V E → Option (World F V E)
  act (main op) w = main_step op w
  act (exec k) w = exec_step (remove k w.queued) w

  unfoldable pub run : List (Action F) → World F V E → Option (World F V E)
  run [] w = some w
  run (a ∷ rest) w = do w' ← act a w; run rest w'

module _ {F V E : Type 0} (call : F → Option V → Outcome V E) where
  -- A continuation is called with the value, and an exception passes it by.
  abbrev pub chain : Outcome V E → F → Outcome V E
  chain (threw e) f = threw e
  chain (returned v) f = call f v

  abbrev pub eval : Op F → (ℕ → Outcome V E) → Outcome V E
  eval (spawns f) m = call f none
  eval (thens s f) m = chain (m s) f

  -- What the future of each number is meant to come to.
  unfoldable pub denote : List (Op F) → ℕ → Outcome V E
  denote [] i = returned none
  denote (op ∷ older) i = let m = denote older in if i == length older then eval op m else m i
