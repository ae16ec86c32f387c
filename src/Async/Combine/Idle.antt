-- ===== src/Async/Combine/Idle.antt =====
-- Workers that go on taking tasks come to an end, and then the combinator has been told all inputs that
-- come to a value.
use mini_rts.Base.{
  ℕ, zero, suc, ◌+◌, ◌<◌, ◌≤◌, ◌≡◌, refl, ap, sym, ◌∙◌, Option, none, some, Bool, true, List, [],
  ◌∷◌, length, weigh, arith, Option-cases, inl, inr,
}
use mini_rts.Base.Family.{total}
use mini_rts.Core.Worker.{Submit}
use mini_rts.Async.State.{Outcome, Closure, SharedState, World}
use mini_rts.Async.Promise.{run_closure}
use mini_rts.Async.Program
use mini_rts.Async.Program.{Op, remove, exec_step, closure_of, denote}
use mini_rts.Async.Program.Finishing
use mini_rts.Async.Program.Finishing.{Finishes, takes-Finishes}
use mini_rts.Async.Program.Running.{IsTyped}
use mini_rts.Async.Program.Determined.{idle_ready}
use mini_rts.Async.Program.Invariant.{is_ready}
use mini_rts.Async.Combine.{Callee, callee, callee_void, Combined, Action, exec, exec_act, act, run}
use mini_rts.Async.Combine.Reports.{reported, expected}
use mini_rts.Async.Combine.Invariant.{Holds, input_report}
use mini_rts.Async.Combine.Steps.{callee-IsTyped, run-Goes}

-- Workers take the task at the front, this many times.
abbrev pub takes : {F : Type 0} → ℕ → List (Action F)
takes zero = []
takes (suc n) = exec 0 ∷ takes n

module _ {F V E : Type 0} (call : F → Option V → Outcome V E) where
  reported-ready :
      (m : ℕ × Option V → ℕ) (log : List (Op (Callee F))) (states : ℕ → SharedState (Callee F) V E)
      → ((i : ℕ) → i < length log → is_ready states i ≡ true)
      → reported call m log states ≡ expected call m log
  unfolding reported expected
  reported-ready m [] states ready = refl
  reported-ready m (op ∷ older) states ready =
      let here = ready (length older) (omega arith) in
      rw here (omega (arith, reported-ready m older states (λ i b. ready i (omega (arith, b)))))

  -- What has been reported is among what will be.
  pub reported-le :
      (m : ℕ × Option V → ℕ) (log : List (Op (Callee F))) (states : ℕ → SharedState (Callee F) V E)
      → reported call m log states ≤ expected call m log
  unfolding reported expected
  reported-le m [] states = omega arith
  reported-le m (op ∷ older) states = ground (arith, reported-le m older states)

module _ {F V E J : Type 0} (call : F → Option V → Outcome V E) (result_void : F → Bool)
    (react : ℕ → Option V → J → Option J) where
  -- What a worker does to the combinator is, for the futures, what it does without one.
  SameStep : Combined F V E J → Combined F V E J → Option (World (Callee F) V E) → Type 0
  SameStep c c' r = (r ≡ some c'.world) × (c'.log ≡ c.log) × (c'.attaches ≡ c.attaches)

  exec-SameStep :
      (r : Option (Submit (Closure (Callee F)) × List (Submit (Closure (Callee F)))))
      (c c' : Combined F V E J)
      → exec_act call result_void react r c ≡ some c'
      → SameStep c c' (exec_step (callee call) (callee_void result_void) r c.world)
  unfolding SameStep exec_act exec_step
  exec-SameStep none c c' e =
      let same : c ≡ c' = cc in
      (ap (λ x. some x.world) same, ap (λ x. x.log) (sym same), ap (λ x. x.attaches) (sym same))
  exec-SameStep (some (t, rest)) c c' e =
      elim (Option-cases
        (run_closure (callee call) true true (closure_of t) (record c.world { queued = rest }))) [
          | inl fails ↦ cc (rw fails at e)
          | inr (w, runs) ↦
              let e' = rw runs at e in
              (
                runs
                    ∙ ap
                        (λ (o : Option (Combined F V E J)). elim o [
                          | none ↦ none
                          | some x ↦ some x.world
                        ])
                        e',
                ap (λ (o : Option (Combined F V E J)). elim o [ none ↦ c'.log | some x ↦ x.log ])
                    (sym e'),
                ap
                    (λ (o : Option (Combined F V E J)). elim o [
                      | none ↦ c'.attaches
                      | some x ↦ x.attaches
                    ])
                    (sym e'),
              )
        ]

  takes-SameStep :
      (n : ℕ) (c c' : Combined F V E J)
      → run call result_void react (takes n) c ≡ some c'
      → SameStep c c'
          (Program.run (callee call) (callee_void result_void) (Finishing.takes n) c.world)
  unfolding SameStep run act Program.run Program.act
  takes-SameStep zero c c' e =
      let same : c ≡ c' = cc in
      (ap (λ x. some x.world) same, ap (λ x. x.log) (sym same), ap (λ x. x.attaches) (sym same))
  takes-SameStep (suc n) c c' e =
      elim (Option-cases (exec_act call result_void react (remove 0 c.world.queued) c)) [
        | inl fails ↦ cc (rw fails at e)
        | inr (d, goes) ↦
            let (first, log, attaches) = exec-SameStep (remove 0 c.world.queued) c d goes in
            let (others, log', attaches') = takes-SameStep n d c' (rw goes at e) in
            (rw first others, log' ∙ log, attaches' ∙ attaches)
      ]

  module _ (first : J) (typed : IsTyped call result_void) where
    -- The workers have come to an end, and the reports are those of the inputs that come to a value.
    abbrev pub Ends : Combined F V E J → Option (Combined F V E J) → Type 0
    Ends c r =
        (c' : Combined F V E J) × (r ≡ some c')
        × (h : Holds call result_void react first c') × (c'.log ≡ c.log)
        × (c'.attaches ≡ c.attaches)
        × (c'.world.queued ≡ [])
        × ((m : ℕ × Option V → ℕ)
            → weigh m h.reports ≡ total (λ (x : ℕ). x) c'.attaches (input_report call m c'.log))

    pub takes-Ends :
        (c : Combined F V E J)
        → Holds call result_void react first c
        → Ends c (run call result_void react (takes c.world.next) c)
    unfolding Finishes SameStep
    takes-Ends c h =
        let typed' = callee-IsTyped call result_void typed in
        let (c', e, h') = run-Goes call result_void react first typed (takes c.world.next) c h in
        let (worlds, log, attaches) = takes-SameStep c.world.next c c' e in
        let (w, finishes, idle, _) =
          takes-Finishes (callee call) (callee_void result_void) typed' c.log c.world.next c.world
            c.world.queued refl h.program (omega arith) in
        let same : w ≡ c'.world = cc in
        let idle' : c'.world.queued ≡ [] =
          ap (λ (x : World (Callee F) V E). x.queued) (sym same) ∙ idle in
        let ready : (i : ℕ) → i < length c'.log → is_ready c'.world.states i ≡ true = λ i b.
          idle_ready (callee call) (callee_void result_void) c'.log c'.world h'.program idle'
            (i + 1) i (omega arith) (omega (arith, b, h'.program.size)) in
        (
          c',
          e,
          h',
          log,
          attaches,
          idle',
          λ m. h'.once m ∙ reported-ready call m c'.log c'.world.states ready ∙ h'.counted m,
        )
