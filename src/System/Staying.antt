-- ===== src/System/Staying.antt =====
-- Steps in which the workers and the owner of the pool leave the shared states alone.
use mini_rts.Base.{ℕ, refl, Option, some, Bool, List, [], ◌∷◌}
use mini_rts.Core.Queues.{Deque, Spsc}
use mini_rts.Core.Worker.{Submit}
use mini_rts.Core.Schedule
use mini_rts.Core.Schedule.Bounds.{act-Bounds}
use mini_rts.Core.Schedule.Draining.{IsGraceful}
use mini_rts.Core.Schedule.Owing.{IsQuiet, act-Owing}
use mini_rts.Async.State.{Outcome, Closure}
use mini_rts.System.{System, world, act_pool}
use mini_rts.System.Invariant.{NeverThrows, Holds, Fits, Goes}
use mini_rts.Core.Schedule.Path.{is_called_cases, act-called, submit-shown}
use mini_rts.Async.Program.Path.{run_nil}

module _ {F V E : Type 0} (d : Deque (Closure F)) (s : Spsc (Closure F)) (n : ℕ)
    (call : F → Option V → Outcome V E) (result_void : F → Bool) where
  module _ (y : System V E d s n) (waiting : List (Submit (Closure F)))
      (h : Holds d s n call result_void y waiting) where
    -- An action of the pool in which no task is called.
    pub pool-Goes :
        (Gentle : Type 0) (a : Schedule.Action (Closure F))
        → IsQuiet d s n y.pool a
        → (Gentle → NeverThrows call → IsGraceful a)
        → Goes d s n call result_void y waiting Gentle (some (act_pool V E d s n a y))
    pool-Goes Gentle a quiet graceful = (
      act_pool V E d s n a y,
      refl,
      record {
        after = waiting;
        holds = record {
          bounds = act-Bounds d s n y.pool a h.bounds;
          owing = λ w. act-Owing d s n w y.pool a _ quiet h.bounds (h.owing w);
          shared = h.shared;
        };
        schedule = a ∷ [];
        path = Schedule.Path.run_one d s n y.pool a;
        graceful = λ g never. (graceful g never, tt);
        program = [];
        program_path = run_nil call result_void (world V E d s n y waiting);
        program_log = refl;
      },
    )

    pub stays-Fits : (Gentle : Type 0) → Fits d s n call result_void y waiting Gentle y
    stays-Fits Gentle = record {
      after = waiting;
      holds = h;
      schedule = [];
      path = Schedule.Path.run_nil d s n y.pool;
      graceful = λ _ _. tt;
      program = [];
      program_path = run_nil call result_void (world V E d s n y waiting);
      program_log = refl;
    }

    pub stays-Goes : (Gentle : Type 0) → Goes d s n call result_void y waiting Gentle (some y)
    stays-Goes Gentle = (y, refl, stays-Fits Gentle)
