-- ===== src/Samples/Combines.antt =====
-- `when_all` and `when_any` over the futures of two functions that are spawned.
use mini_rts.Base.{
  ℕ, ◌≡◌, refl, Option, none, some, List, [], ◌∷◌, is_some, arith, ◌==◌, if◌then◌else◌,
}
use mini_rts.Async.Promise
use mini_rts.Async.Program
use mini_rts.Async.Program.{spawns}
use mini_rts.Async.WhenAll
use mini_rts.Async.WhenAll.{Joined, arrive}
use mini_rts.Async.WhenAny
use mini_rts.Async.WhenAny.{Race}
use mini_rts.Async.Combine
use mini_rts.Async.Combine.{Combined, Action, main, attach, exec, begin, run}
use mini_rts.Async.Combine.Idle.{takes}
use mini_rts.Async.Combine.Counting.{heard, all_returned}
use mini_rts.Async.Combine.Joining.{tuple, when_all_resolves, when_all_result}
use mini_rts.Async.Combine.Racing
use mini_rts.Async.Combine.Racing.{race, any_returned, IsOfInput, when_any_result}
use mini_rts.Samples.Futures.{call, no_void, typed}

abbrev default : ℕ → Option ℕ
default i = none

-- The second input is attached to after the function of the first has run.
abbrev plan : List (Action ℕ)
plan = main (spawns 5) ∷ main (spawns 7) ∷ attach 0 ∷ exec 0 ∷ exec 1 ∷ attach 1 ∷ []

abbrev all_first : Combined ℕ ℕ ℕ (Joined (Option ℕ))
all_first = begin (WhenAll.start default 2)

abbrev any_first : Combined ℕ ℕ ℕ (Race (Option ℕ))
any_first = begin (WhenAny.start (λ _. none))

abbrev or_else : {A : Type 0} → A → Option A → A
or_else a none = a
or_else a (some b) = b

abbrev all_reached : Combined ℕ ℕ ℕ (Joined (Option ℕ))
all_reached = or_else all_first (run call no_void (arrive default) plan all_first)

abbrev any_reached : Combined ℕ ℕ ℕ (Race (Option ℕ))
any_reached = or_else any_first (run call no_void race plan any_first)

all-runs : run call no_void (arrive default) plan all_first ≡ some all_reached
unfolding run Combine.act Combine.main_act Combine.attach_act Combine.exec_act Combine.report
    Program.main_step Promise.spawn Promise.future_then Promise.run_closure Promise.set_value
    Promise.set_exception WhenAll.arrive
all-runs = refl

any-runs : run call no_void race plan any_first ≡ some any_reached
unfolding run Combine.act Combine.main_act Combine.attach_act Combine.exec_act Combine.report
    Program.main_step Promise.spawn Promise.future_then Promise.run_closure Promise.set_value
    Promise.set_exception Racing.race
any-runs = refl

all-attaches : all_reached.attaches ≡ 2
unfolding run Combine.act Combine.main_act Combine.attach_act Combine.exec_act Combine.report
    Program.main_step Promise.spawn Promise.future_then Promise.run_closure Promise.set_value
    Promise.set_exception WhenAll.arrive
all-attaches = refl

when_all_resolves_example :
    (c : Combined ℕ ℕ ℕ (Joined (Option ℕ))) × (j : Joined (Option ℕ)) × (run call no_void
        (arrive default)
        plan
        (begin (WhenAll.start default 2))
      ≡ some c)
    × (c.shared ≡ some j)
    × (is_some j.result ≡ (heard call c.log c.world.states == 2))
when_all_resolves_example =
    when_all_resolves call default no_void typed 2 (omega arith) (omega arith) plan (omega arith)

when_all_result_example :
    (c : Combined ℕ ℕ ℕ (Joined (Option ℕ))) × (run call no_void
        (arrive default)
        (takes all_reached.world.next)
        all_reached
      ≡ some c)
    × (c.world.queued ≡ [])
    × (j : Joined (Option ℕ)) × (c.shared ≡ some j)
    × (j.result ≡ (
        if all_returned call all_reached.log 2
        then some (tuple call default all_reached.log 2)
        else none))
when_all_result_example =
    when_all_result call default no_void typed 2 (omega arith) (omega arith) plan all_reached
      all-runs all-attaches

when_any_result_example :
    (c : Combined ℕ ℕ ℕ (Race (Option ℕ))) × (run call no_void race
        (takes any_reached.world.next)
        any_reached
      ≡ some c)
    × (c.world.queued ≡ [])
    × (r : Race (Option ℕ)) × (c.shared ≡ some r)
    × (is_some r.result ≡ any_returned call any_reached.log any_reached.attaches)
    × IsOfInput call any_reached.log any_reached.attaches r.result
when_any_result_example = when_any_result call no_void typed plan any_reached any-runs
