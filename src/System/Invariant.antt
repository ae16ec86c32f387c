-- ===== src/System/Invariant.antt =====
-- What holds between the steps of the whole system: the tasks that the pool has still to call are,
-- each as often, the queued tasks of a program.
use mini_rts.Base.{ℕ, ◌<◌, ◌≡◌, refl, some, Bool, List, [], weigh, All, arith, Option}
use mini_rts.Base.Family.{total-eq-zero}
use mini_rts.Core.Constants.{soft_shutdown}
use mini_rts.Core.Queues.{Deque, Spsc}
use mini_rts.Core.Worker.{Submit, task_of, Worker}
use mini_rts.Core.Pool.{construct_pool}
use mini_rts.Core.Schedule
use mini_rts.Core.Schedule.Bounds.{Bounds, construct_pool-Bounds}
use mini_rts.Core.Schedule.Draining.{IsGraceful}
use mini_rts.Core.Schedule.Exactly.{construct_pool-pending}
use mini_rts.Core.Schedule.Owing.{Owing, runs, owes}
use mini_rts.Async.State.{Outcome, returned, Closure}
use mini_rts.Async.Program
use mini_rts.Async.Program.Invariant.{Inv}
use mini_rts.Async.Program.Steps.{init-Inv}
use mini_rts.System.{Action, System, world, construct_system, finalize, destroy}

-- No function throws.
abbrev pub NeverThrows : {F V E : Type 0} → (F → Option V → Outcome V E) → Type 0
NeverThrows {F} {V} call = (f : F) (v : Option V) → (o : Option V) × (call f v ≡ returned o)

-- Of the shutdowns only the soft one is asked for.
abbrev pub IsGentle : {F : Type 0} → Action F → Type 0
IsGentle (finalize mode) = mode ≡ soft_shutdown
IsGentle destroy = ⊥
IsGentle _ = Unit

module _ {F V E : Type 0} (d : Deque (Closure F)) (s : Spsc (Closure F)) (n : ℕ)
    (call : F → Option V → Outcome V E) (result_void : F → Bool) where
  pub record Holds (y : System V E d s n) (waiting : List (Submit (Closure F))) : Type 0 where
    pub bounds : Bounds d s n y.pool
    pub owing : (w : Closure F → ℕ) → Owing d s n w y.pool (weigh (λ x. w (task_of x)) waiting)
    pub shared : Inv call result_void y.log (λ _. 0) (world V E d s n y waiting)

  -- What comes out of a system with these tasks waiting: the invariant holds, the pool has come there
  -- by a schedule of its own, and the shared states by a schedule of the program.
  pub record Fits (y : System V E d s n) (waiting : List (Submit (Closure F))) (Gentle : Type 0)
      (y' : System V E d s n) : Type 0 where
    pub after : List (Submit (Closure F))
    pub holds : Holds y' after
    pub schedule : List (Schedule.Action (Closure F))
    pub path : y'.pool ≡ (Schedule.run d s n y.pool schedule).0
    pub graceful : Gentle → NeverThrows call → All IsGraceful schedule
    pub program : List (Program.Action F)
    pub program_path :
        Program.run call result_void program (world V E d s n y waiting)
        ≡ some (world V E d s n y' after)
    pub program_log : Program.made y.log program ≡ y'.log

  abbrev pub Goes :
      System V E d s n → List (Submit (Closure F)) → Type 0 → Option (System V E d s n) → Type 0
  Goes y waiting Gentle r = (y' : System V E d s n) × (r ≡ some y') × Fits y waiting Gentle y'

  pub construct_system-Holds :
      (queue_capacity : ℕ) → 0 < n → Holds (construct_system V E d s n queue_capacity) []
  unfolding construct_pool
  construct_system-Holds c positive = record {
    bounds = construct_pool-Bounds d s n c positive;
    owing = λ w. omega (
      arith,
      construct_pool-pending d s n w c,
      total-eq-zero (λ (x : Worker d s). runs w x.pc) n (construct_pool d s n c).workers
          (λ j _. refl),
      total-eq-zero (λ (x : Worker d s). owes w x.pc) n (construct_pool d s n c).workers
          (λ j _. refl),
    );
    shared = init-Inv call result_void;
  }
