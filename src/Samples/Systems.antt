-- ===== src/Samples/Systems.antt =====
-- Two workers and a main thread that makes futures, on a concrete schedule.
use mini_rts.Base.{
  ℕ, zero, suc, ◌+◌, ◌≤◌, ◌≡◌, ◌⊎◌, refl, Option, none, some, is_some, true, false, List, [], ◌∷◌,
  ◌++◌, length, weigh, All, All-append, arith,
}
use native.Mathlib.Decide.{ℕ_discrete}
use mini_rts.Core.Constants.{soft_shutdown}
use mini_rts.Core.Queues.{Deque, Spsc}
use mini_rts.Core.Queues.Listed.{list_deque, list_spsc}
use mini_rts.Core.Worker.{Submit, task_of}
use mini_rts.Core.Worker
use mini_rts.Core.Worker.Victim
use mini_rts.Core.Thread
use mini_rts.Core.Pool.{joined, construct_pool}
use mini_rts.Core.Schedule
use mini_rts.Core.Schedule.Owing.{places, runs, owes}
use mini_rts.Core.Schedule.Weights.{pending}
use mini_rts.Async.State.{Outcome, returned, Closure, init}
use mini_rts.Async.Promise.{waits, got, get}
use mini_rts.Async.Promise
use mini_rts.Async.Program.{spawns, thens, made, denote}
use mini_rts.Async.Program
use mini_rts.Async.Program.Running.{IsTyped}
use mini_rts.System
use mini_rts.System.{
  Action, main, work, launch, finalize, join, System, world, construct_system, run,
}
use mini_rts.System.Invariant.{NeverThrows, IsGentle}
use mini_rts.System.Results.{system_refines, system_determined, soft_shutdown_resolves}
use mini_rts.Samples.Futures.{call, no_void, typed}

abbrev d : Deque (Closure ℕ)
d = list_deque (Closure ℕ)

abbrev s : Spsc (Closure ℕ)
s = list_spsc (Closure ℕ)

abbrev works : ℕ → ℕ → List (Action ℕ)
works i zero = []
works i (suc k) = work i false ∷ works i k

abbrev start : System ℕ ℕ d s 2
start = construct_system ℕ ℕ d s 2 4

abbrev made_later : List (Action ℕ)
made_later = main (thens 0 3) ∷ main (thens 2 4) ∷ []

abbrev joins : List (Action ℕ)
joins = join ∷ join ∷ join ∷ []

-- A continuation is made before its future is ready, and another one after it.
abbrev busy : List (Action ℕ)
busy =
    launch ∷ launch ∷ launch ∷ main (spawns 5) ∷ main (thens 0 2) ∷ main (spawns 0) ∷ works 0 40
    ++ made_later

abbrev closing : List (Action ℕ)
closing = finalize soft_shutdown ∷ works 0 60 ++ (works 1 60 ++ (works 0 60 ++ joins))

abbrev whole : List (Action ℕ)
whole = busy ++ closing

abbrev measure : Closure ℕ → ℕ
measure c = 1

system_determined_example :
    (y : System ℕ ℕ d s 2) × (run ℕ ℕ d s 2 call no_void busy start ≡ some y)
    × (y.next ≡ length y.log)
    × ((y.next ≤ 1)
        ⊎ ((get (world ℕ ℕ d s 2 y []) 1 ≡ some waits)
            ⊎ (get (world ℕ ℕ d s 2 y []) 1 ≡ some (got (denote call y.log 1)))))
system_determined_example =
    system_determined d s 2 call no_void ℕ_discrete typed 4 busy 1 (omega arith)

system_refines_example :
    (y : System ℕ ℕ d s 2) × (waiting : List (Submit (Closure ℕ))) × (run ℕ ℕ d s 2 call no_void
        busy start
      ≡ some y)
    × ((program : List (Program.Action ℕ)) × (made [] program ≡ y.log)
        × (Program.run call no_void program init ≡ some (world ℕ ℕ d s 2 y waiting)))
    × ((actions : List (Schedule.Action (Closure ℕ))) × (y.pool
          ≡ (Schedule.run d s 2 (construct_pool d s 2 4) actions).0))
    × (weigh (λ t. measure (task_of t)) waiting + places d s 2 (runs measure) y.pool
        ≡ pending d s 2 measure y.pool + places d s 2 (owes measure) y.pool)
system_refines_example =
    system_refines d s 2 call no_void ℕ_discrete typed 4 busy measure (omega arith)

-- Functions that do not throw.
abbrev adds : ℕ → Option ℕ → Outcome ℕ ℕ
adds f none = returned (some f)
adds f (some v) = returned (some (f + v))

adds-IsTyped : IsTyped adds no_void
adds-IsTyped f none o e = ground (arith, e)
adds-IsTyped f (some v) o e = ground (arith, e)

adds-NeverThrows : NeverThrows adds
adds-NeverThrows f none = (some f, refl)
adds-NeverThrows f (some v) = (some (f + v), refl)

abbrev or_start : Option (System ℕ ℕ d s 2) → System ℕ ℕ d s 2
or_start none = start
or_start (some y) = y

abbrev end : System ℕ ℕ d s 2
end = or_start (run ℕ ℕ d s 2 adds no_void whole start)

IsGentle-works :
    (i k : ℕ) (rest : List (Action ℕ)) → All IsGentle rest → All IsGentle (works i k ++ rest)
IsGentle-works i zero rest g = g
IsGentle-works i (suc k) rest g = (tt, IsGentle-works i k rest g)

joins-IsGentle : All IsGentle joins
joins-IsGentle = (tt, (tt, (tt, tt)))

closing-IsGentle : All IsGentle closing
closing-IsGentle = (
  refl,
  IsGentle-works 0 60 (works 1 60 ++ (works 0 60 ++ joins))
      (IsGentle-works 1 60 (works 0 60 ++ joins) (IsGentle-works 0 60 joins joins-IsGentle)),
)

made_later-IsGentle : All IsGentle made_later
made_later-IsGentle = (tt, (tt, tt))

whole-IsGentle : All IsGentle whole
whole-IsGentle =
    All-append IsGentle busy closing
      (tt, (tt, (tt, (tt, (tt, (tt, IsGentle-works 0 40 made_later made_later-IsGentle))))))
      closing-IsGentle

some-or_start : (o : Option (System ℕ ℕ d s 2)) → is_some o ≡ true → o ≡ some (or_start o)
some-or_start none e = cc
some-or_start (some y) e = refl

whole-runs : run ℕ ℕ d s 2 adds no_void whole start ≡ some end
unfolding run System.act Schedule.act Thread.worker_step Worker.enqueue Victim.pick_victim
    Promise.run_closure Program.main_step Promise.spawn Promise.future_then construct_pool
    Promise.set_value
whole-runs = some-or_start (run ℕ ℕ d s 2 adds no_void whole start) refl

end-joined : end.pool.phase ≡ joined
unfolding run System.act Schedule.act Thread.worker_step Worker.enqueue Victim.pick_victim
    Promise.run_closure Program.main_step Promise.spawn Promise.future_then construct_pool
    Promise.set_value
end-joined = refl

end-made : end.next ≡ 5
unfolding run System.act Schedule.act Thread.worker_step Worker.enqueue Victim.pick_victim
    Promise.run_closure Program.main_step Promise.spawn Promise.future_then construct_pool
    Promise.set_value
end-made = refl

soft_shutdown_resolves_example : get (world ℕ ℕ d s 2 end []) 3 ≡ some (got (denote adds end.log 3))
soft_shutdown_resolves_example =
    soft_shutdown_resolves d s 2 adds no_void ℕ_discrete adds-IsTyped 4 whole end 3 (omega arith)
      (omega arith) adds-NeverThrows whole-IsGentle whole-runs end-joined (omega (arith, end-made))
