-- ===== src/Samples/Handles.antt =====
-- A promise that is moved and resolved, and a copy of its future.
use mini_rts.Base.{ℕ, ◌≡◌, refl, Option, none, some, true, false, List, [], ◌∷◌, is_some}
use mini_rts.Async.State.{Outcome, returned}
use mini_rts.Async.Promise
use mini_rts.Async.Promise.{got}
use mini_rts.Async.Handle
use mini_rts.Async.Handle.{
  Handles, HandleOp, constructs, moves, copies, futures, detaches, resolves, handle_step,
  handle_steps, no_handles, get_of,
}
use mini_rts.Async.Handle.Accepted.{accepted}
use mini_rts.Async.Handle.Results.{fits, handle_step_lem, promise_to_future}

abbrev before : List (HandleOp ℕ ℕ ℕ)
before = constructs 0 false ∷ futures 1 0 ∷ moves 2 0 ∷ []

abbrev after : List (HandleOp ℕ ℕ ℕ)
after = copies 3 1 ∷ detaches 1 ∷ constructs 4 true ∷ []

abbrev seven : Outcome ℕ ℕ
seven = returned (some 7)

abbrev or_no_handles : Option (Handles ℕ ℕ ℕ) → Handles ℕ ℕ ℕ
or_no_handles none = no_handles
or_no_handles (some h) = h

abbrev first : Handles ℕ ℕ ℕ
first = or_no_handles (handle_steps true true before no_handles)

abbrev next : Handles ℕ ℕ ℕ
next = or_no_handles (handle_step true true (resolves 2 seven) first)

abbrev last : Handles ℕ ℕ ℕ
last = or_no_handles (handle_steps true true after next)

first-runs : handle_steps true true before no_handles ≡ some first
unfolding handle_steps Handle.handle_step Promise.make_promise
first-runs = refl

next-runs : handle_step true true (resolves 2 seven) first ≡ some next
unfolding handle_steps Handle.handle_step Promise.make_promise Promise.settle Promise.set_value
next-runs = refl

last-runs : handle_steps true true after next ≡ some last
unfolding handle_steps Handle.handle_step Promise.make_promise Promise.settle Promise.set_value
last-runs = refl

first-names : first.vars 2 ≡ some 0
unfolding handle_steps Handle.handle_step Promise.make_promise
first-names = refl

first-is_void : (first.world.states 0).is_void ≡ false
unfolding handle_steps Handle.handle_step Promise.make_promise
first-is_void = refl

last-names : last.vars 3 ≡ some 0
unfolding handle_steps Handle.handle_step Promise.make_promise Promise.settle Promise.set_value
last-names = refl

fit : fits (first.world.states 0).is_void seven ≡ true
unfolding handle_steps Handle.handle_step Promise.make_promise
fit = refl

handle_step_lem_example :
    is_some (handle_step true true (futures 3 0) first) ≡ accepted true true (futures 3 0) first
handle_step_lem_example = handle_step_lem true true before first first-runs (futures 3 0)

promise_to_future_example : get_of 3 last ≡ some (got seven)
promise_to_future_example =
    promise_to_future true true before after first next last 2 3 0 seven first-runs first-names fit
      next-runs last-runs last-names
