-- ===== src/Async/Combine/Steps.antt =====
-- A worker runs a task, and the combinator is told: every step of a schedule succeeds and keeps what
-- holds.
use mini_rts.Base.{
  ℕ, ◌+◌, ◌<◌, ◌≡◌, ◌⊎◌, refl, ap, sym, subst, ◌∙◌, Option, none, some, Bool, true, List, [], ◌∷◌,
  ◌++◌, weigh-append, All-append, ◌==◌, if◌then◌else◌, arith, inl, inr, Option-cases,
}
use mini_rts.Async.State.{Outcome, returned, threw, Closure, spawned, continuation, World}
use mini_rts.Async.Promise.{stored}
use mini_rts.Async.Program.{Op, thens, denote, closure_of, remove}
use mini_rts.Async.Program.Meaning.{op_at-lt, thens-lt}
use mini_rts.Async.Program.Resolve.{resolved}
use mini_rts.Async.Program.Running.{IsTyped, settled-ready}
use mini_rts.Async.Program.Settling.{IsDue-op}
use mini_rts.Async.Program.Steps.{taken, remove_lem}
use mini_rts.Async.Program.Invariant.{target, op_of, is_ready, IsDue, IsQueued, Inv}
use mini_rts.Async.Combine.{
  Callee, user, attached, callee, callee_void, Combined, Action, main, attach, exec, report, reacts,
  begin, exec_act, act, run,
}
use mini_rts.Async.Combine.Reports.{outcome_report, op_report, reported, reported-resolved, input}
use mini_rts.Async.Combine.Invariant.{IsNumbered, Holds, replay, begin-Holds}
use mini_rts.Async.Combine.Attaching.{Goes, main_act-Goes, attach_act-Goes}

module _ {V J : Type 0} (react : ℕ → Option V → J → Option J) where
  replay-append :
      (rs : List (ℕ × Option V)) (r : ℕ × Option V) (j : Option J)
      → replay react (rs ++ r ∷ []) j ≡ reacts react (some r) (replay react rs j)
  unfolding replay
  replay-append [] r j = refl
  replay-append (q ∷ rs) r j = replay-append rs r (reacts react (some q) j)

module _ {F V E : Type 0} (call : F → Option V → Outcome V E) (result_void : F → Bool) where
  pub callee-IsTyped : IsTyped call result_void → IsTyped (callee call) (callee_void result_void)
  callee-IsTyped typed (user f) v o e = typed f v o e
  callee-IsTyped typed (attached i) v o e = cc

  module _ (log : List (Op (Callee F))) (w : World (Callee F) V E) (attaches : ℕ)
      (v : Inv (callee call) (callee_void result_void) log (λ _. 0) w)
      (numbered : IsNumbered call log attaches) where
    -- What a task that is due reports is what its operation is counted for.
    Tells : Closure (Callee F) → Option (ℕ × Option V) → Type 0
    Tells c r =
        ((r ≡ none)
          × ((m : ℕ × Option V → ℕ) → op_report m (op_of c) (denote (callee call) log) ≡ 0))
        ⊎ ((i : ℕ) × (x : Option V) × (r ≡ some (i, x))
            × ((m : ℕ × Option V → ℕ) → op_report m (op_of c) (denote (callee call) log) ≡ m (i, x))
            × (i < attaches)
            × (input call log i ≡ returned x))

    due-Tells : (c : Closure (Callee F)) → IsDue log w.states c → Tells c (report w.states c)
    unfolding Tells report
    due-Tells (spawned f p) due = inl (refl, λ m. refl)
    due-Tells (continuation s (user f) p) due = inl (refl, λ m. refl)
    due-Tells (continuation s (attached i) p) (at, ready) =
        let below : s < w.next = omega (
          arith,
          v.size,
          op_at-lt log p (thens s (attached i)) at,
          thens-lt log p s (attached i) v.program at,
        ) in
        let (index, means) = numbered p s i at in
        let right : stored (w.states s) ≡ denote (callee call) log s = v.right s below ready in
        elim (Option-cases (w.states s).exception) [
          | inl fine ↦
              let value : denote (callee call) log s ≡ returned (w.states s).value =
                sym (rw fine at right) in
              inr (
                i,
                (w.states s).value,
                rw (report, fine),
                λ m. ap (outcome_report m i) value,
                index,
                means ∙ value,
              )
          | inr (e, failed) ↦
              let value : denote (callee call) log s ≡ threw e = sym (rw failed at right) in
              inl (rw (report, failed), λ m. ap (outcome_report m i) value)
        ]

module _ {F V E J : Type 0} (call : F → Option V → Outcome V E) (result_void : F → Bool)
    (react : ℕ → Option V → J → Option J) (first : J) (typed : IsTyped call result_void) where
  module _ (c : Combined F V E J) (h : Holds call result_void react first c) where
    -- A task has run and has made its promise ready, and this is what it reported.
    module _ (t : Closure (Callee F)) (w' : World (Callee F) V E)
        (v : Inv (callee call) (callee_void result_void) c.log (λ _. 0) w')
        (grows : (m : ℕ × Option V → ℕ)
          → reported call m c.log w'.states
            ≡ reported call m c.log c.world.states
              + op_report m (op_of t) (denote (callee call) c.log)) where
      abbrev hears : Option (ℕ × Option V) → Combined F V E J
      hears r = record c { world = w'; shared = reacts react r c.shared }

      told-Holds :
          (r : Option (ℕ × Option V))
          → Tells call result_void c.log c.world c.attaches h.program h.numbered t r
          → Holds call result_void react first (hears r)
      unfolding Tells
      told-Holds r (inl (silent, nothing)) =
          subst (λ z. Holds call result_void react first (hears z)) (sym silent)
            (record {
              reports = h.reports;
              program = v;
              told = h.told;
              once = λ m. omega (arith, h.once m, grows m, nothing m);
              sound = h.sound;
              numbered = h.numbered;
              counted = h.counted;
            })
      told-Holds r (inr (i, x, told, counts, index, means)) =
          subst (λ z. Holds call result_void react first (hears z)) (sym told)
            (record {
              reports = h.reports ++ (i, x) ∷ [];
              program = v;
              told =
                  ap (reacts react (some (i, x))) h.told
                  ∙ sym (replay-append react h.reports (i, x) (some first));
              once = λ m.
                  omega
                    (arith, h.once m, grows m, counts m, weigh-append m h.reports ((i, x) ∷ []));
              sound = All-append _ h.reports ((i, x) ∷ []) h.sound ((index, means), tt);
              numbered = h.numbered;
              counted = h.counted;
            })

    exec_act-Goes :
        (k : ℕ)
        → Goes call result_void react first
            (exec_act call result_void react (remove k c.world.queued) c)
    unfolding exec_act
    exec_act-Goes k =
        elim (remove_lem (IsQueued c.log c.world.states) k c.world.queued h.program.queued) [
          | inl e ↦ rw e (c, refl, h)
          | inr (t, rest, e, due, others, same) ↦
              let task = closure_of t in
              let (open_still, runs, v) =
                taken (callee call) (callee_void result_void) c.log c.world h.program
                  (callee-IsTyped call result_void typed) t rest due others same in
              let o = denote (callee call) c.log (target task) in
              let w' = resolved (target task) o (record c.world { queued = rest }) in
              let now : (i : ℕ)
                  → is_ready w'.states i
                    ≡ (if target task == i then true else is_ready c.world.states i) =
                λ i. ground (arith, settled-ready (c.world.states (target task)) o) in
              let grows = λ (m : ℕ × Option V → ℕ).
                reported-resolved call m c.log (target task) (op_of task) c.world.states w'.states
                  h.program.program
                  (IsDue-op (callee call) (callee_void result_void) c.log c.world.states task due)
                  open_still now in
              (
                hears task w' v grows (report c.world.states task),
                rw (e, runs),
                told-Holds task w' v grows (report c.world.states task) (
                    due-Tells call result_void c.log c.world c.attaches h.program h.numbered task
                      due),
              )
        ]

    act-Goes : (a : Action F) → Goes call result_void react first (act call result_void react a c)
    unfolding act
    act-Goes (main op) = main_act-Goes call result_void react first c h op
    act-Goes (attach s) = attach_act-Goes call result_void react first c h s
    act-Goes (exec k) = exec_act-Goes k

  pub run-Goes :
      (schedule : List (Action F)) (c : Combined F V E J)
      → Holds call result_void react first c
      → Goes call result_void react first (run call result_void react schedule c)
  unfolding run
  run-Goes [] c h = (c, refl, h)
  run-Goes (a ∷ rest) c h = let (c', e, h') = act-Goes c h a in rw e (run-Goes rest c' h')

  pub reached-Holds :
      (schedule : List (Action F)) (c : Combined F V E J)
      → run call result_void react schedule (begin first) ≡ some c
      → Holds call result_void react first c
  reached-Holds schedule c reached =
      let (d, e, h) = run-Goes schedule (begin first) (begin-Holds call result_void react first) in
      let same : d ≡ c = cc in subst (Holds call result_void react first) same h
