-- ===== src/System/Results.antt =====
-- What the futures of the whole system come to.
use mini_rts.Base.{
  ℕ, ◌+◌, ◌^◌, ◌<◌, ◌≤◌, ◌≡◌, ◌⊎◌, refl, sym, ap, subst, ◌∙◌, Option, some, Bool, List, [], ◌∷◌,
  ◌++◌, length, weigh, All, All-append, arith, ltb, Bool-cases, inl, inr,
}
use mini_rts.Base.Family.{total-eq-zero}
use mini_rts.Core.Queues.{Deque, Spsc}
use mini_rts.Core.Worker.{Submit, task_of, exited, Worker}
use mini_rts.Core.Pool.{joined, construct_pool}
use mini_rts.Core.Schedule
use mini_rts.Core.Schedule.Bounds.{construct_pool-Bounds}
use mini_rts.Core.Schedule.Draining.{IsGraceful, Drain}
use mini_rts.Core.Schedule.Graceful.{construct_pool-Drain, exited-pending, run-Drain}
use mini_rts.Core.Schedule.Leaving.{construct_pool-Inv}
use mini_rts.Core.Schedule.Stopping
use mini_rts.Core.Schedule.Owing.{places, runs, owes}
use mini_rts.Core.Schedule.Weights.{pending}
use mini_rts.Async.State.{Outcome, Closure, init}
use mini_rts.Async.Promise.{waits, got, get}
use mini_rts.Async.Program.{made, denote}
use mini_rts.Async.Program
use mini_rts.Async.Program.Path.{run-append, run_nil, made-append}
use mini_rts.Async.Program.Running.{IsTyped}
use mini_rts.Async.Program.Determined.{get_cases, idle_ready}
use mini_rts.System.{Action, System, world, construct_system, run}
use mini_rts.System.Invariant.{NeverThrows, IsGentle, Holds, Goes, construct_system-Holds}
use mini_rts.System.Steps.{act-Goes}

nothing_left : {A : Type 0} (l : List A) → weigh (λ _. 1) l ≡ 0 → l ≡ []
nothing_left [] e = refl
nothing_left (x ∷ xs) e = absurd (omega arith)

module _ {F V E : Type 0} (d : Deque (Closure F)) (s : Spsc (Closure F)) (n : ℕ)
    (call : F → Option V → Outcome V E) (result_void : F → Bool) (dec : Discrete F)
    (typed : IsTyped call result_void) where
  run-Goes :
      (schedule : List (Action F)) (y : System V E d s n) (waiting : List (Submit (Closure F)))
      → Holds d s n call result_void y waiting
      → Goes d s n call result_void y waiting
          (All IsGentle schedule)
          (run V E d s n call result_void schedule y)
  unfolding run
  run-Goes [] y waiting h = (
    y,
    refl,
    record {
      after = waiting;
      holds = h;
      schedule = [];
      path = Schedule.Path.run_nil d s n y.pool;
      graceful = λ _ _. tt;
      program = [];
      program_path = run_nil call result_void (world V E d s n y waiting);
      program_log = refl;
    },
  )
  run-Goes (a ∷ rest) y waiting h =
      let (y', steps, f) = act-Goes d s n call result_void y waiting h dec typed a in
      let (y'', runs, g) = run-Goes rest y' f.after f.holds in
      (
        y'',
        rw steps runs,
        record {
          after = g.after;
          holds = g.holds;
          schedule = f.schedule ++ g.schedule;
          path =
              g.path
              ∙ ap (λ p. (Schedule.run d s n p g.schedule).0) f.path
              ∙ sym (Schedule.Path.run-append d s n y.pool f.schedule g.schedule y.pool);
          graceful = λ (one, later) never.
              All-append IsGraceful f.schedule g.schedule (f.graceful one never)
                (g.graceful later never);
          program = f.program ++ g.program;
          program_path =
              run-append call result_void f.program g.program (world V E d s n y waiting)
                (world V E d s n y' f.after) f.program_path
              ∙ g.program_path;
          program_log =
              made-append f.program g.program y.log
              ∙ ap (λ ops. made ops g.program) f.program_log
              ∙ g.program_log;
        },
      )

  all_called :
      (y : System V E d s n) (waiting : List (Submit (Closure F)))
      → Holds d s n call result_void y waiting
      → ((j : ℕ) → j < n → (y.pool.workers j).pc ≡ exited)
      → Drain d s n y.pool
      → waiting ≡ []
  all_called y waiting h gone g = nothing_left waiting (
      omega (
        arith,
        h.owing (λ _. 1),
        exited-pending d s n (λ _. 1) y.pool gone g,
        total-eq-zero (λ (x : Worker d s). owes (λ _. 1) x.pc) n y.pool.workers
            (λ j b. ap (owes (λ _. 1)) (gone j b)),
      ))

  -- Every schedule of the whole system, over a pool with at least one thread, succeeds, and is a
  -- schedule of a program and a schedule of a pool at once: the program comes to the same shared
  -- states by the operations that were carried out, the pool comes to the same workers, and what the
  -- program has queued is, by any weight, what the pool has still to call. The conditions are that
  -- functions can be compared, and that a function returns a value exactly if it is not `void`.
  pub system_refines :
      (queue_capacity : ℕ) (schedule : List (Action F)) (w : Closure F → ℕ)
      → 0 < n
      → (y : System V E d s n) × (waiting : List (Submit (Closure F))) × (run V E d s n call
            result_void schedule
            (construct_system V E d s n queue_capacity)
          ≡ some y)
        × ((program : List (Program.Action F)) × (made [] program ≡ y.log)
            × (Program.run call result_void program init ≡ some (world V E d s n y waiting)))
        × ((actions : List (Schedule.Action (Closure F))) × (y.pool
              ≡ (Schedule.run d s n (construct_pool d s n queue_capacity) actions).0))
        × (weigh (λ t. w (task_of t)) waiting + places d s n (runs w) y.pool
            ≡ pending d s n w y.pool + places d s n (owes w) y.pool)
  system_refines c schedule w positive =
      let (y, runs, f) =
        run-Goes schedule (construct_system V E d s n c) []
          (construct_system-Holds d s n call result_void c positive) in
      (
        y,
        f.after,
        runs,
        (f.program, f.program_log, f.program_path),
        (f.schedule, f.path),
        f.holds.owing w,
      )

  -- Over any pool with at least one thread and any queues that keep their laws, in every interleaving
  -- of the main thread's operations, the workers' steps and the pool's start and shutdown, no
  -- assertion of the promises fails, there are as many futures as operations that were carried out,
  -- and `get` on a future either still waits or gives the meaning of the future, in which the
  -- interleaving has no part. The conditions are that functions can be compared, and that a function
  -- returns a value exactly if it is not `void`.
  pub system_determined :
      (queue_capacity : ℕ) (schedule : List (Action F)) (i : ℕ)
      → 0 < n
      → (y : System V E d s n) × (run V E d s n call result_void schedule
            (construct_system V E d s n queue_capacity)
          ≡ some y)
        × (y.next ≡ length y.log)
        × ((y.next ≤ i)
            ⊎ ((get (world V E d s n y []) i ≡ some waits)
                ⊎ (get (world V E d s n y []) i ≡ some (got (denote call y.log i)))))
  unfolding get
  system_determined c schedule i positive =
      let (y, runs, f) =
        run-Goes schedule (construct_system V E d s n c) []
          (construct_system-Holds d s n call result_void c positive) in
      let h = f.holds in
      (
        y,
        runs,
        f.holds.shared.size,
        elim (Bool-cases (ltb i y.next)) [
          | inl below ↦
              elim (get_cases call result_void y.log (world V E d s n y f.after) i h.shared
                (ground arith)) [
                  | inl (open_still, looks) ↦ inr (inl looks)
                  | inr (ready, looks) ↦ inr (inr looks)
                ]
          | inr past ↦ inl (ground arith)
        ],
      )

  -- From the construction of a pool of fewer than 2^32 threads, at least one, in every schedule in
  -- which the only shutdown is the soft one and no function throws, once `finalize` has returned every
  -- future that was made is ready, and `get` gives its meaning: the soft shutdown leaves no future
  -- waiting. The conditions are that functions can be compared, and that a function returns a value
  -- exactly if it is not `void`.
  pub soft_shutdown_resolves :
      (queue_capacity : ℕ) (schedule : List (Action F)) (y : System V E d s n) (i : ℕ)
      → 0 < n
      → n < 2 ^ 32
      → NeverThrows call
      → All IsGentle schedule
      → run V E d s n call result_void schedule (construct_system V E d s n queue_capacity) ≡ some y
      → y.pool.phase ≡ joined
      → i < y.next
      → get (world V E d s n y []) i ≡ some (got (denote call y.log i))
  unfolding get
  soft_shutdown_resolves c schedule y i positive small never gentle runs at below =
      let start = construct_system V E d s n c in
      let (u, runs', f) =
        run-Goes schedule start [] (construct_system-Holds d s n call result_void c positive) in
      let same : u ≡ y = cc in
      let (waiting, h) =
        subst (λ z. (l : List (Submit (Closure F))) × Holds d s n call result_void z l) same
          (f.after, f.holds) in
      let on_path = ap (λ (z : System V E d s n). z.pool) (sym same) ∙ f.path in
      let (v, g) =
        subst (λ p. Stopping.Inv d s n p × Drain d s n p) (sym on_path)
          (run-Drain d s n small start.pool f.schedule (f.graceful gentle never)
            (construct_pool-Bounds d s n c positive) (construct_pool-Inv d s n c)
            (construct_pool-Drain d s n c)) in
      let idle = all_called y waiting h (λ j b. v.joined_exited j (ground arith)) g in
      elim (get_cases call result_void y.log (world V E d s n y waiting) i h.shared below) [
        | inl (open_still, looks) ↦ cc (
          idle_ready call result_void y.log (world V E d s n y waiting) h.shared idle (i + 1) i
              (omega arith) below,
          open_still,
        )
        | inr (ready, looks) ↦ looks
      ]
