-- ===== src/System/Steps.antt =====
-- Every step of the whole system succeeds and keeps the invariant.
use mini_rts.Base.{ℕ, ◌≡◌, Option, Bool, List, ltb, if_cases}
use mini_rts.Core.Constants.{soft_shutdown}
use mini_rts.Core.Queues.{Deque, Spsc}
use mini_rts.Core.Worker.{Submit}
use mini_rts.Core.Schedule
use mini_rts.Async.State.{Outcome, Closure}
use mini_rts.Async.Program.Running.{IsTyped}
use mini_rts.System.{Action, main, work, launch, finalize, join, destroy, System, act}
use mini_rts.System.Invariant.{IsGentle, Holds, Goes}
use mini_rts.System.Staying.{pool-Goes, stays-Goes}
use mini_rts.System.Handing.{main-Goes}
use mini_rts.System.Calling.{work-Goes}

module _ {F V E : Type 0} (d : Deque (Closure F)) (s : Spsc (Closure F)) (n : ℕ)
    (call : F → Option V → Outcome V E) (result_void : F → Bool) where
  module _ (y : System V E d s n) (waiting : List (Submit (Closure F)))
      (h : Holds d s n call result_void y waiting) where
    -- An action of the pool in which no task is called.
    pub act-Goes :
        Discrete F
        → IsTyped call result_void
        → (a : Action F)
        → Goes d s n call result_void y waiting (IsGentle a) (act V E d s n call result_void a y)
    unfolding act
    act-Goes dec typed (main op) = main-Goes d s n call result_void y waiting h op
    act-Goes dec typed (work i raced) =
        if_cases (Goes d s n call result_void y waiting Unit) (ltb i n) _ _
          (work-Goes d s n call result_void y waiting h dec typed i raced)
          (λ _. stays-Goes d s n call result_void y waiting h Unit)
    act-Goes dec typed launch =
        pool-Goes d s n call result_void y waiting h Unit Schedule.launch tt (λ _ _. tt)
    act-Goes dec typed (finalize mode) =
        pool-Goes d s n call result_void y waiting h (mode ≡ soft_shutdown) (Schedule.finalize mode)
          tt (λ soft _. soft)
    act-Goes dec typed join =
        pool-Goes d s n call result_void y waiting h Unit Schedule.join tt (λ _ _. tt)
    act-Goes dec typed destroy =
        pool-Goes d s n call result_void y waiting h ⊥ Schedule.destroy tt (λ never _. never)
