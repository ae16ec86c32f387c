-- ===== src/Async/Program/Invariant.antt =====
-- What holds of the shared states and of the queue between any two steps of a program.
use mini_rts.Base.{
  ℕ, ◌+◌, ◌<◌, ◌≤◌, ◌≡◌, Option, none, some, Bool, true, false, List, length, weigh, All, is_some,
  ◌||◌, ◌==◌, if◌then◌else◌,
}
use mini_rts.Base.Family.{total}
use mini_rts.Core.Worker.{Submit}
use mini_rts.Async.State.{Outcome, Closure, spawned, continuation, SharedState, World}
use mini_rts.Async.Promise.{stored}
use mini_rts.Async.Program.{Op, spawns, thens, closure_of, denote}
use mini_rts.Async.Program.Meaning.{op_at, IsProgram}

-- The promise that a task resolves, and whether it is this one.
abbrev pub target : {F : Type 0} → Closure F → ℕ
target (spawned f p) = p
target (continuation s f p) = p

abbrev pub aims : {F : Type 0} → ℕ → Closure F → ℕ
aims q c = if target c == q then 1 else 0

abbrev pub aims_queued : {F : Type 0} → ℕ → Submit (Closure F) → ℕ
aims_queued q t = aims q (closure_of t)

abbrev pub op_of : {F : Type 0} → Closure F → Op F
op_of (spawned f p) = spawns f
op_of (continuation s f p) = thens s f

abbrev pub function_of : {F : Type 0} → Op F → F
function_of (spawns f) = f
function_of (thens s f) = f

abbrev pub IsRegistered : {F : Type 0} → List (Op F) → ℕ → Closure F → Type 0
IsRegistered ops i (spawned f p) = ⊥
IsRegistered ops i (continuation s f p) = (op_at ops p ≡ some (thens s f)) × (s ≡ i)

abbrev pub one_if : Bool → ℕ
one_if b = if b then 1 else 0

module _ {F V E : Type 0} where
  abbrev pub is_ready : (ℕ → SharedState F V E) → ℕ → Bool
  is_ready states i = (states i).ready

  -- The tasks that a state keeps until it is ready, as far as they resolve the promise `q`.
  abbrev pub kept : ℕ → SharedState F V E → ℕ
  kept q st = if st.ready then 0 else weigh (aims q) st.continuations

  -- The task does what the program says of its promise, and what it reads is ready.
  abbrev pub IsDue : List (Op F) → (ℕ → SharedState F V E) → Closure F → Type 0
  IsDue ops states (spawned f p) = op_at ops p ≡ some (spawns f)
  IsDue ops states (continuation s f p) =
      (op_at ops p ≡ some (thens s f)) × (is_ready states s ≡ true)

  abbrev pub IsQueued : List (Op F) → (ℕ → SharedState F V E) → Submit (Closure F) → Type 0
  IsQueued ops states t = IsDue ops states (closure_of t)

  module _ (call : F → Option V → Outcome V E) (result_void : F → Bool) where
    -- `running q` counts the task that a worker holds, if it resolves the promise `q`.
    pub record Inv (ops : List (Op F)) (running : ℕ → ℕ) (w : World F V E) : Type 0 where
      pub program : IsProgram ops
      pub size : w.next ≡ length ops
      pub right :
          (i : ℕ)
          → i < w.next
          → is_ready w.states i ≡ true
          → stored (w.states i) ≡ denote call ops i
      pub beyond : (i : ℕ) → w.next ≤ i → is_ready w.states i ≡ false
      pub filled :
          (i : ℕ)
          → is_ready w.states i ≡ true
          → (w.states i).exception ≡ none
          → ((w.states i).is_void || is_some (w.states i).value) ≡ true
      pub blank : (i : ℕ) → is_ready w.states i ≡ false → (w.states i).exception ≡ none
      pub voids :
          (i : ℕ) (op : Op F)
          → op_at ops i ≡ some op
          → (w.states i).is_void ≡ result_void (function_of op)
      pub queued : All (IsQueued ops w.states) w.queued
      pub registered :
          (i : ℕ)
          → i < w.next
          → is_ready w.states i ≡ false
          → All (IsRegistered ops i) (w.states i).continuations
      pub once :
          (q : ℕ)
          → q < w.next
          → weigh (aims_queued q) w.queued
              + total (kept q) w.next w.states
              + running q
              + one_if (is_ready w.states q)
            ≡ 1
