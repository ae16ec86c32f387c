-- ===== src/System/Calling.antt =====
-- src/core/worker.cpp: a worker calls a task, which is a closure of src/async.
use mini_rts.Base.{
  ℕ, ◌+◌, ◌≡◌, refl, ap, sym, subst, ◌∙◌, Option, none, some, Bool, true, false, List, [], ◌∷◌,
  ◌++◌, map, weigh, weigh-append, All, arith, inl, inr, ltb, ltb→lt, if_cases, length, ◌==◌,
}
use mini_rts.Core.Task.{◌>>=◌}
use mini_rts.Core.Queues.{Deque, Spsc}
use mini_rts.Core.Worker.{Submit, task_of, called, Pc}
use mini_rts.Core.Schedule
use mini_rts.Core.Schedule.Bag.{is, is_self}
use mini_rts.Core.Schedule.Bounds.{act-Bounds}
use mini_rts.Core.Schedule.Draining.{IsLocal}
use mini_rts.Core.Schedule.Intake.{called-Owing}
use mini_rts.Core.Schedule.Owing.{Owing, is_called}
use mini_rts.Async.State.{Outcome, returned, threw, Closure, World}
use mini_rts.Async.Program.{
  Op, spawns, thens, add_op, chain, eval, denote, main_step, exec_step, remove, closure_of,
}
use mini_rts.Async.Program.Resolve.{tag, resolved, settle_open}
use mini_rts.Async.Program.Running.{IsTyped, run_closure-due}
use mini_rts.Async.Program.Steps.{taken}
use mini_rts.Async.Program.Invariant.{target, IsQueued}
use mini_rts.System.{System, world, act_pool, work_act}
use mini_rts.System.Finding.{closure_discrete, find_out}
use mini_rts.System.Invariant.{NeverThrows, Holds, Goes}
use mini_rts.Core.Schedule.Path.{is_called_cases, act-called, submit-shown}
use mini_rts.Async.Program
use mini_rts.Async.Program.Path.{run_one}
use mini_rts.System.Staying.{pool-Goes}

module _ {F V E : Type 0} (call : F → Option V → Outcome V E) (never : NeverThrows call) where
  chain-returned :
      (m : Outcome V E) (f : F)
      → (v : Option V) × (m ≡ returned v)
      → (v : Option V) × (chain call m f ≡ returned v)
  chain-returned (returned v) f h = never f v
  chain-returned (threw e) f (v, h) = cc

  eval-returned :
      (op : Op F) (m : ℕ → Outcome V E)
      → ((i : ℕ) → (v : Option V) × (m i ≡ returned v))
      → (v : Option V) × (eval call op m ≡ returned v)
  eval-returned (spawns f) m h = never f none
  eval-returned (thens s f) m h = chain-returned (m s) f (h s)

  -- Where no function throws, no future comes to an exception.
  denote-returned : (ops : List (Op F)) (i : ℕ) → (v : Option V) × (denote call ops i ≡ returned v)
  unfolding denote
  denote-returned [] i = (none, refl)
  denote-returned (op ∷ older) i =
      if_cases (λ (m : Outcome V E). (v : Option V) × (m ≡ returned v)) (i == length older) _ _
        (λ _. eval-returned op (denote call older) (denote-returned older))
        (λ _. denote-returned older i)

module _ {F V E : Type 0} where
  map-tag-IsLocal :
      (o : Outcome V E) (cs : List (Closure F))
      → (v : Option V) × (o ≡ returned v)
      → All IsLocal (map (tag o) cs)
  map-tag-IsLocal (returned v) [] h = tt
  map-tag-IsLocal (returned v) (c ∷ cs) h = (tt, map-tag-IsLocal (returned v) cs h)
  map-tag-IsLocal (threw e) cs (v, h) = absurd (cc h)

module _ {F : Type 0} (V E : Type 0) (d : Deque (Closure F)) (s : Spsc (Closure F)) (n : ℕ)
    (call : F → Option V → Outcome V E) (result_void : F → Bool) where
  work_act-quiet :
      (i : ℕ) (raced : Bool) (y : System V E d s n) (pc : Pc (Closure F))
      → is_called pc ≡ false
      → work_act V E d s n call result_void i raced pc y
        ≡ some (act_pool V E d s n (Schedule.work i raced []) y)
  unfolding work_act
  work_act-quiet i raced y (called c) quiet = cc
  work_act-quiet i raced y _ quiet = refl

module _ {F V E : Type 0} (d : Deque (Closure F)) (s : Spsc (Closure F)) (n : ℕ)
    (call : F → Option V → Outcome V E) (result_void : F → Bool) where
  module _ (y : System V E d s n) (waiting : List (Submit (Closure F)))
      (h : Holds d s n call result_void y waiting) where
    -- An action of the pool in which no task is called.
    task-Goes :
        IsTyped call result_void
        → (i : ℕ) (raced : Bool) (t : Submit (Closure F)) (rest : List (Submit (Closure F)))
        → ltb i n ≡ true
        → (y.pool.workers i).pc ≡ called (task_of t)
        → (k : ℕ) → remove k waiting ≡ some (t, rest)
        → IsQueued y.log y.states t
        → All (IsQueued y.log y.states) rest
        → ((m : Submit (Closure F) → ℕ) → weigh m waiting ≡ m t + weigh m rest)
        → Goes d s n call result_void y waiting Unit
            (work_act V E d s n call result_void i raced (called (task_of t)) y)
    unfolding work_act Program.act exec_step
    task-Goes typed i raced t rest inside at k out due others weight =
        let p = target (closure_of t) in
        let o = denote call y.log p in
        let (open_still, runs, v) =
          taken call result_void y.log (world V E d s n y waiting) h.shared typed t rest due others
            weight in
        let alone =
          run_closure-due call result_void y.log (λ _. 0) (world V E d s n y waiting) (closure_of t)
            h.shared due []
          ∙ settle_open p o (world V E d s n y []) open_still in
        let does = map (tag o) (y.states p).continuations in
        let a : Schedule.Action (Closure F) = Schedule.work i raced does in
        (
          record (act_pool V E d s n a y) { states = (resolved p o (world V E d s n y [])).states },
          ap
              (λ (r : Option (World F V E)). do
                w ← r
                some (record (act_pool V E d s n (Schedule.work i raced w.queued) y) {
                  states = w.states;
                }))
              alone,
          record {
            after = rest ++ does;
            holds = record {
              bounds = act-Bounds d s n y.pool a h.bounds;
              owing = λ m.
                  subst (λ q. Owing d s n m q (weigh (λ x. m (task_of x)) (rest ++ does)))
                    (sym (act-called d s n y.pool i raced does (task_of t) inside at))
                    ((called-Owing d s n m y.pool i (task_of t) does _ (ltb→lt i n inside) at
                        (h.owing m)).1
                      _
                      (omega (
                        arith,
                        weight (λ x. m (task_of x)),
                        weigh-append (λ x. m (task_of x)) rest does,
                      )));
              shared = v;
            };
            schedule = a ∷ [];
            path = Schedule.Path.run_one d s n y.pool a;
            graceful = λ _ never. (
              map-tag-IsLocal o (y.states p).continuations (denote-returned call never y.log p),
              tt,
            );
            program = Program.exec k ∷ [];
            program_path =
                sym (run_one call result_void (Program.exec k) (world V E d s n y waiting))
                ∙ ap (λ q. exec_step call result_void q (world V E d s n y waiting)) out
                ∙ runs;
            program_log = refl;
          },
        )

    called-Goes :
        Discrete F
        → IsTyped call result_void
        → (i : ℕ) (raced : Bool) (c : Closure F) → ltb i n ≡ true
        → (y.pool.workers i).pc ≡ called c
        → Goes d s n call result_void y waiting Unit
            (work_act V E d s n call result_void i raced (called c) y)
    unfolding work_act
    called-Goes dec typed i raced c inside at =
        let same_closure = closure_discrete dec in
        let (enough, _) =
          called-Owing d s n (is same_closure c) y.pool i c [] _ (ltb→lt i n inside) at
            (h.owing (is same_closure c)) in
        let (k, t, rest, out, same, due, others, weight) =
          find_out same_closure (IsQueued y.log y.states) c waiting h.shared.queued
            (omega (arith, enough, is_self same_closure c)) in
        subst
          (λ x.
            Goes d s n call result_void y waiting Unit
              (work_act V E d s n call result_void i raced (called x) y))
          same
          (task-Goes typed i raced t rest inside (at ∙ ap called (sym same)) k out due others
            weight)

    pub work-Goes :
        Discrete F
        → IsTyped call result_void
        → (i : ℕ) (raced : Bool) → ltb i n ≡ true
        → Goes d s n call result_void y waiting Unit
            (work_act V E d s n call result_void i raced (y.pool.workers i).pc y)
    work-Goes dec typed i raced inside = elim (is_called_cases d s n y.pool (y.pool.workers i).pc) [
      | inl quiet ↦
          subst (Goes d s n call result_void y waiting Unit)
            (sym (work_act-quiet V E d s n call result_void i raced y (y.pool.workers i).pc quiet))
            (pool-Goes d s n call result_void y waiting h Unit (Schedule.work i raced []) quiet
              (λ _ _. tt))
      | inr (c, at) ↦
          subst
            (λ pc.
              Goes d s n call result_void y waiting Unit
                (work_act V E d s n call result_void i raced pc y))
            (sym at) (called-Goes dec typed i raced c inside at)
    ]
