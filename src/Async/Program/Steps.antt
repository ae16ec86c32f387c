-- ===== src/Async/Program/Steps.antt =====
-- Every step of a program succeeds, whatever its order, and keeps the invariant.
use mini_rts.Base.{
  ℕ, zero, suc, ◌+◌, ◌<◌, ◌≡◌, ◌⊎◌, refl, ap, sym, ◌∙◌, Option, none, some, Bool, true, false, List,
  [], ◌∷◌, ◌++◌, length, weigh, All, ltb, arith, Bool-cases, inl, inr,
}
use mini_rts.Base.Family.{update_self}
use mini_rts.Core.Task.{◌>>=◌}
use mini_rts.Core.Worker.{Submit, global}
use mini_rts.Async.State.{
  Outcome, Closure, spawned, continuation, SharedState, World, init, fresh_state, put_state,
  enqueue,
}
use mini_rts.Async.Promise.{future_then, make_promise, spawn, run_closure}
use mini_rts.Async.Program.{
  Op, spawns, thens, Action, main, exec, remove, closure_of, add_op, made, main_step, exec_step,
  act, run, denote,
}
use mini_rts.Async.Program.Meaning.{op_at}
use mini_rts.Async.Program.Resolve.{resolved, settle_open}
use mini_rts.Async.Program.Running.{IsTyped, run_closure-due}
use mini_rts.Async.Program.Settling.{still_open, resolved-Inv}
use mini_rts.Async.Program.Making.{with_state, grown-Inv}
use mini_rts.Async.Program.Handing.{queued-Inv, registered-Inv}
use mini_rts.Async.Program.Invariant.{target, aims, aims_queued, is_ready, IsQueued, Inv}

module _ {A : Type 0} where
  -- What a removal takes out and leaves behind, for a property and for a measure of the members.
  abbrev pub Removes : (A → Type 0) → List A → Option (A × List A) → Type 0
  Removes P xs r =
      (r ≡ none)
      ⊎ ((x : A) × (rest : List A) × (r ≡ some (x, rest))
          × P x
          × All P rest
          × ((w : A → ℕ) → weigh w xs ≡ w x + weigh w rest))

  pub remove_lem : (P : A → Type 0) (k : ℕ) (xs : List A) → All P xs → Removes P xs (remove k xs)
  remove_lem P k [] g = inl refl
  remove_lem P zero (y ∷ xs) g = inr (y, xs, refl, g.0, g.1, λ w. refl)
  remove_lem P (suc k) (y ∷ xs) g = elim (remove_lem P k xs g.1) [
    | inl e ↦ inl (rw e)
    | inr (x, rest, e, here, others, same) ↦
        inr (x, y ∷ rest, rw e, here, (g.0, others), λ w. omega (arith, same w))
  ]

module _ {F V E : Type 0} (call : F → Option V → Outcome V E) (result_void : F → Bool) where
  -- The step succeeds, and the invariant holds of the result.
  abbrev pub Goes : List (Op F) → Option (World F V E) → Type 0
  Goes ops r = (w' : World F V E) × (r ≡ some w') × Inv call result_void ops (λ _. 0) w'

  module _ (ops : List (Op F)) (w : World F V E) (v : Inv call result_void ops (λ _. 0) w) where
    spawns-Goes : (f : F) → Goes (spawns f ∷ ops) (main_step call result_void (spawns f) w)
    unfolding main_step spawn make_promise
    spawns-Goes f =
        let grown = with_state result_void (spawns f) w in
        let c : Closure F = spawned f w.next in
        (
          enqueue grown (global c),
          refl,
          queued-Inv call result_void (spawns f ∷ ops) grown c
              (grown-Inv call result_void (spawns f) ops w v v.program) (ground (arith, v.size)),
        )

    thens-Goes :
        (s : ℕ) (f : F)
        → s < w.next
        → Goes (thens s f ∷ ops) (do (_, w') ← future_then true s f (result_void f) w; some w')
    unfolding future_then make_promise
    thens-Goes s f below =
        let grown = with_state result_void (thens s f) w in
        let c : Closure F = continuation s f w.next in
        let open_state : (grown.states w.next).ready ≡ false =
          ap (λ (x : SharedState F V E). x.ready)
            (update_self w.states w.next (fresh_state (result_void f))) in
        let inv =
          grown-Inv call result_void (thens s f) ops w v (ground (arith, v.size), v.program) in
        let at : op_at (thens s f ∷ ops) w.next ≡ some (thens s f) = ground (arith, v.size) in
        elim (Bool-cases (is_ready grown.states s)) [
          | inl ready ↦ (
            enqueue grown (global c),
            rw (open_state, ready),
            queued-Inv call result_void (thens s f ∷ ops) grown c inv (at, ready),
          )
          | inr waiting ↦ (
            put_state grown s (record (grown.states s) {
              continuations = (grown.states s).continuations ++ c ∷ [];
            }),
            rw (open_state, waiting),
            registered-Inv call result_void (thens s f ∷ ops) grown s w.next f inv (omega arith)
                waiting at,
          )
        ]

    pub main_step-Goes : (op : Op F) → Goes (add_op op ops) (main_step call result_void op w)
    unfolding main_step
    main_step-Goes (spawns f) = spawns-Goes f
    main_step-Goes (thens s f) = elim (Bool-cases (ltb s w.next)) [
      | inl below ↦
          let known : ltb s (length ops) ≡ true = ap (ltb s) (sym v.size) ∙ below in
          rw (below, known) (thens-Goes s f (ground arith))
      | inr unknown ↦
          let unknown' : ltb s (length ops) ≡ false = ap (ltb s) (sym v.size) ∙ unknown in
          rw (unknown, unknown') (w, refl, v)
    ]

    -- The task that a worker took counts as the one in its hand.
    pub taken :
        IsTyped call result_void
        → (t : Submit (Closure F)) (rest : List (Submit (Closure F))) → IsQueued ops w.states t
        → All (IsQueued ops w.states) rest
        → ((m : Submit (Closure F) → ℕ) → weigh m w.queued ≡ m t + weigh m rest)
        → (is_ready w.states (target (closure_of t)) ≡ false)
          × (run_closure call true true (closure_of t) (record w { queued = rest })
              ≡ some (
                  resolved
                    (target (closure_of t))
                    (denote call ops (target (closure_of t)))
                    (record w { queued = rest })))
          × Inv call result_void ops
              (λ _. 0)
              (resolved
                (target (closure_of t))
                (denote call ops (target (closure_of t)))
                (record w { queued = rest }))
    taken typed t rest due others same =
        let c = closure_of t in
        let w' : World F V E = record w { queued = rest } in
        let inv : Inv call result_void ops (λ q. aims q c) w' = record {
          program = v.program;
          size = v.size;
          right = v.right;
          beyond = v.beyond;
          filled = v.filled;
          blank = v.blank;
          voids = v.voids;
          queued = others;
          registered = v.registered;
          once = λ q b. omega (arith, v.once q b, same (aims_queued q));
        } in
        (
          still_open call result_void typed ops w' c inv due,
          run_closure-due call result_void ops (λ q. aims q c) w' c inv due rest
              ∙ settle_open (target c) (denote call ops (target c)) w'
                  (still_open call result_void typed ops w' c inv due),
          resolved-Inv call result_void typed ops w' c inv due,
        )

    exec_step-Goes :
        IsTyped call result_void
        → (k : ℕ) → Goes ops (exec_step call result_void (remove k w.queued) w)
    unfolding exec_step
    exec_step-Goes typed k = elim (remove_lem (IsQueued ops w.states) k w.queued v.queued) [
      | inl e ↦ rw e (w, refl, v)
      | inr (t, rest, e, due, others, same) ↦
          let (_, runs, v') = taken typed t rest due others same in
          rw e (
            resolved (target (closure_of t)) (denote call ops (target (closure_of t)))
                (record w { queued = rest }),
            runs,
            v',
          )
    ]

    act-Goes :
        IsTyped call result_void
        → (a : Action F) → Goes (made ops (a ∷ [])) (act call result_void a w)
    unfolding act
    act-Goes typed (main op) = main_step-Goes op
    act-Goes typed (exec k) = exec_step-Goes typed k

  pub run-Goes :
      IsTyped call result_void
      → (schedule : List (Action F)) (ops : List (Op F)) (w : World F V E)
      → Inv call result_void ops (λ _. 0) w
      → Goes (made ops schedule) (run call result_void schedule w)
  unfolding run
  run-Goes typed [] ops w v = (w, refl, v)
  run-Goes typed (main op ∷ rest) ops w v =
      let (w', e, v') = act-Goes ops w v typed (main op) in
      rw e (run-Goes typed rest (add_op op ops) w' v')
  run-Goes typed (exec k ∷ rest) ops w v =
      let (w', e, v') = act-Goes ops w v typed (exec k) in rw e (run-Goes typed rest ops w' v')

  pub init-Inv : Inv call result_void [] (λ _. 0) init
  init-Inv = record {
    program = tt;
    size = refl;
    right = λ i b. absurd (omega arith);
    beyond = λ i far. refl;
    filled = λ i e. cc;
    blank = λ i e. refl;
    voids = λ i o e. cc;
    queued = tt;
    registered = λ i b. absurd (omega arith);
    once = λ q b. absurd (omega arith);
  }
