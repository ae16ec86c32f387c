-- ===== src/System/Handing.antt =====
-- src/async/spawn.h and src/async/future.h: an operation of the main thread, and the pool it submits
-- to.
use mini_rts.Base.{
  ℕ, ◌≡◌, refl, ap, sym, subst, ◌∙◌, Option, some, Bool, List, [], ◌∷◌, ◌++◌, weigh-append, is_nil,
  arith, inl, inr, if_cases,
}
use mathlib.Core.List.{append-nil}
use mini_rts.Core.Task.{◌>>=◌}
use mini_rts.Core.Queues.{Deque, Spsc}
use mini_rts.Core.Worker.{Submit, global, task_of}
use mini_rts.Core.Schedule
use mini_rts.Core.Schedule.Bounds.{act-Bounds}
use mini_rts.Core.Schedule.Intake.{submit-Owing}
use mini_rts.Async.State.{Outcome, Closure, World}
use mini_rts.Async.Program.{
  Op, spawns, thens, add_op, chain, eval, denote, main_step, exec_step, remove, closure_of,
}
use mini_rts.Async.Program.Steps.{main_step-Goes}
use mini_rts.Async.Program.Invariant.{Inv}
use mini_rts.System.{System, world, offer, main_act}
use mini_rts.System.Offering.{main_step-Hands}
use mini_rts.System.Invariant.{Holds, Fits, Goes}
use mini_rts.Core.Schedule.Path.{is_called_cases, act-called, submit-shown}
use mini_rts.Async.Program
use mini_rts.Async.Program.Path.{run_one}
use mini_rts.System.Staying.{stays-Fits}

module _ {F V E : Type 0} (d : Deque (Closure F)) (s : Spsc (Closure F)) (n : ℕ)
    (call : F → Option V → Outcome V E) (result_void : F → Bool) where
  module _ (y : System V E d s n) (waiting : List (Submit (Closure F)))
      (h : Holds d s n call result_void y waiting) where
    -- An action of the pool in which no task is called.
    main_runs :
        (op : Op F) (u : World F V E)
        → main_step call result_void op (world V E d s n y waiting) ≡ some u
        → Program.run call result_void (Program.main op ∷ []) (world V E d s n y waiting) ≡ some u
    unfolding Program.act
    main_runs op u e =
        sym (run_one call result_void (Program.main op) (world V E d s n y waiting)) ∙ e

    -- The step of the program, with these tasks queued after it.
    abbrev Leads : Op F → World F V E → List (Submit (Closure F)) → Type 0
    Leads op w ts =
        (main_step call result_void op (world V E d s n y waiting)
          ≡ some (record w { queued = ts }))
        × Inv call result_void (add_op op y.log) (λ _. 0) (record w { queued = ts })

    offer-Fits :
        (op : Op F) (w : World F V E) (c : Closure F)
        → Leads op w (waiting ++ global c ∷ [])
        → Fits d s n call result_void y waiting Unit
            (offer V E d s n call result_void op y w (global c ∷ []))
    unfolding offer
    offer-Fits op w c (steps, v) =
        let a : Schedule.Action (Closure F) = Schedule.submit c in
        if_cases (Fits d s n call result_void y waiting Unit)
          (is_nil (Schedule.act d s n y.pool a).1) _ _
          (λ _. stays-Fits d s n call result_void y waiting h Unit)
          (λ shows. record {
            after = waiting ++ global c ∷ [];
            holds = record {
              bounds = act-Bounds d s n y.pool a h.bounds;
              owing = λ m.
                  let owing' = submit-Owing d s n m y.pool c _ h.bounds (h.owing m) in
                  omega (
                    arith,
                    owing',
                    submit-shown d s n y.pool m c shows,
                    weigh-append (λ x. m (task_of x)) waiting (global c ∷ []),
                  );
              shared = v;
            };
            schedule = a ∷ [];
            path = Schedule.Path.run_one d s n y.pool a;
            graceful = λ _ _. (tt, tt);
            program = Program.main op ∷ [];
            program_path = main_runs op _ steps;
            program_log = refl;
          })

    main-Leads :
        (op : Op F) (w : World F V E)
        → main_step call result_void op (world V E d s n y waiting)
          ≡ some (record w { queued = waiting ++ w.queued })
        → Leads op w (waiting ++ w.queued)
    main-Leads op w behind =
        let (u, runs, v) =
          main_step-Goes call result_void y.log (world V E d s n y waiting) h.shared op in
        let twice : some u ≡ some (record w { queued = waiting ++ w.queued }) = sym runs ∙ behind in
        let same : u ≡ record w { queued = waiting ++ w.queued } = cc in
        (behind, subst (Inv call result_void (add_op op y.log) (λ _. 0)) same v)

    none-Fits :
        (op : Op F) (w : World F V E)
        → Leads op w waiting
        → Fits d s n call result_void y waiting Unit (offer V E d s n call result_void op y w [])
    unfolding offer
    none-Fits op w (steps, v) = record {
      after = waiting;
      holds = record { bounds = h.bounds; owing = h.owing; shared = v };
      schedule = [];
      path = Schedule.Path.run_nil d s n y.pool;
      graceful = λ _ _. tt;
      program = Program.main op ∷ [];
      program_path = main_runs op _ steps;
      program_log = refl;
    }

    pub main-Goes :
        (op : Op F)
        → Goes d s n call result_void y waiting Unit (main_act V E d s n call result_void op y)
    unfolding main_act
    main-Goes op =
        let (w, alone, hands, behind) =
          main_step-Hands call result_void op (world V E d s n y waiting) in
        let leads = main-Leads op w (behind waiting) in
        let offers =
          ap
            (λ (r : Option (World F V E)). do
              w' ← r
              some (offer V E d s n call result_void op y w' w'.queued))
            alone in
        elim hands [
          | inl e ↦ (
            offer V E d s n call result_void op y w [],
            offers ∙ ap (λ q. some (offer V E d s n call result_void op y w q)) e,
            none-Fits op w
                (subst (Leads op w) (ap (λ q. waiting ++ q) e ∙ append-nil waiting) leads),
          )
          | inr (c, e) ↦ (
            offer V E d s n call result_void op y w (global c ∷ []),
            offers ∙ ap (λ q. some (offer V E d s n call result_void op y w q)) e,
            offer-Fits op w c (subst (Leads op w) (ap (λ q. waiting ++ q) e) leads),
          )
        ]
