-- ===== src/Samples/Futures.antt =====
-- A small program of futures: two functions that are spawned, of which one throws, and continuations.
use mini_rts.Base.{
  ℕ, ◌+◌, ◌≡◌, ◌⊎◌, refl, Option, none, some, Bool, true, false, List, [], ◌∷◌, ◌++◌, length, arith,
  ◌==◌, if◌then◌else◌,
}
use mini_rts.Async.State.{Outcome, returned, threw, World, init}
use mini_rts.Async.Promise.{waits, got, get, settle}
use mini_rts.Async.Promise
use mini_rts.Async.Program.{Op, spawns, thens, Action, main, exec, made, run, denote}
use mini_rts.Async.Program
use mini_rts.Async.Program.Meaning.{denote_lem}
use mini_rts.Async.Program.Resolve.{resolved, may_resolve, settle_lem}
use mini_rts.Async.Program.Running.{IsTyped}
use mini_rts.Async.Program.Determined.{futures_determined, idle_get}
use mini_rts.Async.Program.Finishing.{takes, takes_finish}

-- A spawned `f` returns `f`, or throws where it is 0; a continuation adds.
abbrev pub call : ℕ → Option ℕ → Outcome ℕ ℕ
call f none = if f == 0 then threw 1 else returned (some f)
call f (some v) = returned (some (f + v))

abbrev pub no_void : ℕ → Bool
no_void f = false

pub typed : IsTyped call no_void
typed f none o e = ground (arith, e)
typed f (some v) o e = ground (arith, e)

-- Two chains, the continuations made before and after the functions have run.
abbrev plan : List (Action ℕ)
plan =
    main (spawns 5)
    ∷ main (thens 0 2)
    ∷ exec 0
    ∷ main (spawns 0)
    ∷ main (thens 0 3)
    ∷ main (thens 2 4)
    ∷ []

abbrev finish : List (Action ℕ)
finish = plan ++ exec 2 ∷ exec 0 ∷ exec 0 ∷ exec 0 ∷ []

futures_determined_example :
    (w : World ℕ ℕ ℕ) × (run call no_void plan init ≡ some w)
    × (w.next ≡ length (made [] plan))
    × ((get w 3 ≡ some waits) ⊎ (get w 3 ≡ some (got (denote call (made [] plan) 3))))
futures_determined_example = futures_determined call no_void typed plan 3 (omega arith)

takes_finish_example :
    (w : World ℕ ℕ ℕ) × (run call no_void (plan ++ takes (length (made [] plan))) init ≡ some w)
    × (w.queued ≡ [])
    × (get w 4 ≡ some (got (denote call (made [] plan) 4)))
takes_finish_example = takes_finish call no_void typed plan 4 (omega arith)

abbrev or_init : Option (World ℕ ℕ ℕ) → World ℕ ℕ ℕ
or_init none = init
or_init (some w) = w

abbrev finished : World ℕ ℕ ℕ
finished = or_init (run call no_void finish init)

finish-runs : run call no_void finish init ≡ some finished
unfolding run Program.act Program.main_step Promise.spawn Promise.future_then Program.exec_step
    Promise.run_closure Promise.set_value Promise.set_exception
finish-runs = refl

finish-idle : finished.queued ≡ []
unfolding run Program.act Program.main_step Promise.spawn Promise.future_then Program.exec_step
    Promise.run_closure Promise.set_value Promise.set_exception
finish-idle = refl

finish-next : finished.next ≡ 5
unfolding run Program.act Program.main_step Promise.spawn Promise.future_then Program.exec_step
    Promise.run_closure Promise.set_value Promise.set_exception
finish-next = refl

idle_get_example : get finished 4 ≡ some (got (denote call (made [] finish) 4))
idle_get_example =
    idle_get call no_void typed finish finished finish-runs finish-idle 4
      (omega (arith, finish-next))

-- The chain on the function that throws has its exception, and the other the sum.
chains :
    (denote call (made [] finish) 4 ≡ threw 1)
    × (denote call (made [] finish) 3 ≡ returned (some 8))
unfolding denote
chains = (refl, refl)

denote_lem_example :
    denote call (made [] plan) 4 ≡ Program.eval call (thens 2 4) (denote call (made [] plan))
denote_lem_example =
    denote_lem call (made [] plan) 4 (thens 2 4) (omega arith, (omega arith, (omega arith, tt)))
      refl

abbrev waiting : World ℕ ℕ ℕ
waiting =
    or_init (run call no_void (main (spawns 5) ∷ main (thens 0 2) ∷ main (thens 0 3) ∷ []) init)

-- The future has two continuations, which nobody can take where the thread is no worker's.
settle_lem_example : settle false true 0 (returned (some 5)) waiting ≡ (
    if may_resolve false (waiting.states 0)
    then some (resolved 0 (returned (some 5)) waiting)
    else none)
settle_lem_example = settle_lem false true 0 (returned (some 5)) waiting
