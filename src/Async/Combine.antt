-- ===== src/Async/Combine.antt =====
-- src/async/when_all.h and src/async/when_any.h over the futures: each input gets a continuation by
-- `then`, which reports to what the combinator shares, and the future of which is dropped.
pub mod Reports
pub mod Invariant
pub mod Logging
pub mod Unready
pub mod Attaching
pub mod Steps
pub mod Idle
pub mod Counting
pub mod Arrivals
pub mod Joining
pub mod Racing
use mini_rts.Base.{ℕ, ◌+◌, Option, none, some, Bool, true, List, [], ◌∷◌, ltb, if◌then◌else◌}
use mini_rts.Core.Task.{◌>>=◌}
use mini_rts.Core.Worker.{Submit}
use mini_rts.Async.State.{
  Outcome, returned, Closure, spawned, continuation, SharedState, World, init,
}
use mini_rts.Async.Promise.{run_closure}
use mini_rts.Async.Program.{Op, spawns, thens, remove, closure_of, main_step, add_op}

-- What a task may call: a function of the user, or the lambda that `attach_one` chains to an input.
pub data Callee (F : Type 0) : Type 0 where
  user : F → Callee F
  attached : (input : ℕ) → Callee F

-- `attach s` is `attach_one` on the future `s`, which is the next input of the combinator.
pub data Action (F : Type 0) : Type 0 where
  main : Op F → Action F
  attach : (s : ℕ) → Action F
  exec : (k : ℕ) → Action F

abbrev pub user_op : {F : Type 0} → Op F → Op (Callee F)
user_op (spawns f) = spawns (user f)
user_op (thens s f) = thens s (user f)

abbrev pub callee_void : {F : Type 0} → (F → Bool) → Callee F → Bool
callee_void result_void (user f) = result_void f
callee_void result_void (attached i) = true

module _ {F V E : Type 0} where
  -- The lambda returns nothing, and throws nothing.
  abbrev pub callee : (F → Option V → Outcome V E) → Callee F → Option V → Outcome V E
  callee call (user f) v = call f v
  callee call (attached i) v = returned none

  -- The input that a task reports, with the value that it passes: none where the task is another one,
  -- or an exception passes the lambda by.
  unfoldable pub report :
      (ℕ → SharedState (Callee F) V E) → Closure (Callee F) → Option (ℕ × Option V)
  report states (spawned f p) = none
  report states (continuation s (user f) p) = none
  report states (continuation s (attached i) p) = elim (states s).exception [
    | some e ↦ none
    | none ↦ some (i, (states s).value)
  ]

-- The shared states, what the combinator shares, `none` where it has failed an assertion, the number of
-- inputs attached so far, and what the main thread has done, the newest first.
pub record Combined (F V E J : Type 0) : Type 0 where
  pub world : World (Callee F) V E
  pub shared : Option J
  pub attaches : ℕ
  pub log : List (Op (Callee F))

module _ {V J : Type 0} (react : ℕ → Option V → J → Option J) where
  abbrev pub reacts : Option (ℕ × Option V) → Option J → Option J
  reacts none j = j
  reacts (some (i, v)) j = do j' ← j; react i v j'

abbrev pub begin : {F V E J : Type 0} → J → Combined F V E J
begin first = record { world = init; shared = some first; attaches = 0; log = [] }

module _ {F V E J : Type 0} (call : F → Option V → Outcome V E) (result_void : F → Bool) where
  unfoldable pub main_act : Op (Callee F) → Combined F V E J → Option (Combined F V E J)
  main_act op c = do
    w ← main_step (callee call) (callee_void result_void) op c.world
    some (record c { world = w; log = add_op op c.log })

  -- `fut.then(…)` of `attach_one`
  unfoldable pub attach_act : (s : ℕ) → Combined F V E J → Option (Combined F V E J)
  unfolding main_act
  attach_act s c =
      if ltb s c.world.next
      then main_act (thens s (attached c.attaches)) (record c { attaches = c.attaches + 1 })
      else some c

  module _ (react : ℕ → Option V → J → Option J) where
    unfoldable pub exec_act :
        Option (Submit (Closure (Callee F)) × List (Submit (Closure (Callee F))))
        → Combined F V E J
        → Option (Combined F V E J)
    unfolding report
    exec_act none c = some c
    exec_act (some (t, rest)) c = do
      w ← run_closure (callee call) true true (closure_of t) (record c.world { queued = rest })
      some (record c {
        world = w;
        shared = reacts react (report c.world.states (closure_of t)) c.shared;
      })

    unfoldable pub act : Action F → Combined F V E J → Option (Combined F V E J)
    unfolding main_act attach_act exec_act
    act (main op) c = main_act (user_op op) c
    act (attach s) c = attach_act s c
    act (exec k) c = exec_act (remove k c.world.queued) c

    unfoldable pub run : List (Action F) → Combined F V E J → Option (Combined F V E J)
    run [] c = some c
    run (a ∷ rest) c = do c' ← act a c; run rest c'
