-- ===== src/Async/Handle/Kept.antt =====
-- No operation on promises and futures changes a state that is resolved.
use mini_rts.Base.{
  ℕ, ◌+◌, ◌<◌, ◌≤◌, ◌≡◌, refl, ap, sym, subst, ◌∙◌, Option, none, some, Bool, true, false, List, [],
  ◌∷◌, ◌++◌, arith, Bool-cases, inl, inr,
}
use mini_rts.Base.Family.{update, update_self, update_ne, update_cases}
use mini_rts.Core.Worker.{global}
use mini_rts.Async.State.{
  Outcome, returned, threw, Closure, continuation, SharedState, World, fresh_state, put_state,
  enqueue,
}
use mini_rts.Async.Promise.{
  schedule_locally, schedule_globally, set_value, set_exception, settle, future_then, make_promise,
}
use mini_rts.Async.Program.Resolve.{schedule_locally-runs, schedule_globally-runs, settled}
use mini_rts.Async.Program.Running.{settled-ready}

module _ {F V E : Type 0} where
  -- Submitting the continuations changes no state.
  schedule_locally-states :
      (here : Bool) (cs : List (Closure F)) (w w' : World F V E)
      → schedule_locally here cs w ≡ some w'
      → (w'.states ≡ w.states) × (w'.next ≡ w.next)
  unfolding schedule_locally
  schedule_locally-states true cs w w' e =
      let same = sym (schedule_locally-runs cs w) ∙ e in
      (
        ap (λ (o : Option (World F V E)). elim o [ none ↦ w'.states | some u ↦ u.states ])
            (sym same),
        ap (λ (o : Option (World F V E)). elim o [ none ↦ w'.next | some u ↦ u.next ]) (sym same),
      )
  schedule_locally-states false [] w w' e =
      let same : w ≡ w' = cc in (ap (λ u. u.states) (sym same), ap (λ u. u.next) (sym same))
  schedule_locally-states false (c ∷ cs) w w' e = cc

  schedule_globally-states :
      (here : Bool) (cs : List (Closure F)) (w w' : World F V E)
      → schedule_globally here cs w ≡ some w'
      → (w'.states ≡ w.states) × (w'.next ≡ w.next)
  unfolding schedule_globally
  schedule_globally-states true cs w w' e =
      let same = sym (schedule_globally-runs cs w) ∙ e in
      (
        ap (λ (o : Option (World F V E)). elim o [ none ↦ w'.states | some u ↦ u.states ])
            (sym same),
        ap (λ (o : Option (World F V E)). elim o [ none ↦ w'.next | some u ↦ u.next ]) (sym same),
      )
  schedule_globally-states false [] w w' e =
      let same : w ≡ w' = cc in (ap (λ u. u.states) (sym same), ap (λ u. u.next) (sym same))
  schedule_globally-states false (c ∷ cs) w w' e = cc

  -- Resolving a promise, where no assertion fails, settles a state that was not ready, and only that one.
  unfoldable pub Settles : ℕ → Outcome V E → World F V E → World F V E → Type 0
  Settles p o w w' =
      ((w.states p).ready ≡ false)
      × (w'.states ≡ update w.states p (settled (w.states p) o))
      × (w'.next ≡ w.next)

  pub settle-Settles :
      (t r : Bool) (p : ℕ) (o : Outcome V E) (w w' : World F V E)
      → settle t r p o w ≡ some w'
      → Settles p o w w'
  unfolding Settles settle set_value set_exception
  settle-Settles t r p (returned v) w w' e = elim (Bool-cases (w.states p).ready) [
    | inl closed ↦ cc (rw closed at e)
    | inr open_still ↦
        let (states, next) =
          schedule_locally-states t (w.states p).continuations _ w' (rw open_still at e) in
        (open_still, states, next)
  ]
  settle-Settles t r p (threw x) w w' e = elim (Bool-cases (w.states p).ready) [
    | inl closed ↦ cc (rw closed at e)
    | inr open_still ↦
        let (states, next) =
          schedule_globally-states r (w.states p).continuations _ w' (rw open_still at e) in
        (open_still, states, next)
  ]

  -- States are made, and those that are ready stay what they are.
  pub record Grows (w w' : World F V E) : Type 0 where
    pub next : w.next ≤ w'.next
    pub stays : (p : ℕ) → p < w.next → (w.states p).ready ≡ true → w'.states p ≡ w.states p
    pub blank :
        ((p : ℕ) → (w.states p).ready ≡ false → (w.states p).exception ≡ none)
        → (p : ℕ) → (w'.states p).ready ≡ false
        → (w'.states p).exception ≡ none

  pub Settles-Grows : (p : ℕ) (o : Outcome V E) (w w' : World F V E) → Settles p o w w' → Grows w w'
  unfolding Settles
  Settles-Grows p o w w' (open_still, states, next) = record {
    next = omega (arith, next);
    stays = λ q below ready.
        ap (λ f. f q) states ∙ update_ne w.states p q _ (λ e. cc (ap (λ k. (w.states k).ready) e));
    blank = λ empty q.
        subst (λ (st : SharedState F V E). st.ready ≡ false → st.exception ≡ none)
          (sym (ap (λ f. f q) states))
          (update_cases (λ (st : SharedState F V E). st.ready ≡ false → st.exception ≡ none)
            w.states p q (settled (w.states p) o) (λ _ e. cc (settled-ready (w.states p) o))
            (λ _ e. empty q e));
  }

  pub make_promise-Grows : (is_void : Bool) (w : World F V E) → Grows w (make_promise is_void w).1
  unfolding make_promise
  make_promise-Grows is_void w = record {
    next = omega arith;
    stays = λ q below ready. update_ne w.states w.next q _ (λ e. omega (arith, below, e));
    blank = λ empty q.
        update_cases (λ (st : SharedState F V E). st.ready ≡ false → st.exception ≡ none) w.states
          w.next q (fresh_state is_void) (λ _ e. refl) (λ _ e. empty q e);
  }

  pub Grows-trans : {u v w : World F V E} → Grows u v → Grows v w → Grows u w
  Grows-trans {u} {v} {w} g h = record {
    next = omega (arith, g.next, h.next);
    stays = λ p below ready.
        let first = g.stays p below ready in
        h.stays p (omega (arith, below, g.next))
          (ap (λ (st : SharedState F V E). st.ready) first ∙ ready)
        ∙ first;
    blank = λ empty. h.blank (g.blank empty);
  }

  -- A continuation is registered with a state that is not ready.
  registers-Grows :
      (s : ℕ) (c : Closure F) (w : World F V E)
      → (w.states s).ready ≡ false
      → Grows w (record w {
        states =
            update w.states s
              (record (w.states s) { continuations = (w.states s).continuations ++ c ∷ [] });
      })
  registers-Grows s c w waiting = record {
    next = omega arith;
    stays = λ q below ready. update_ne w.states s q _ (λ e. cc (ap (λ k. (w.states k).ready) e));
    blank = λ empty q.
        update_cases (λ (st : SharedState F V E). st.ready ≡ false → st.exception ≡ none) w.states s
          q _ (λ _ e. empty s e) (λ _ e. empty q e);
  }

  abbrev Made : World F V E → Option (ℕ × World F V E) → Type 0
  Made w none = Unit
  Made w (some (p, u)) = Grows w u × (p < u.next)

  pub then-Grows :
      (r : Bool) (s : ℕ) (f : F) (result_void : Bool) (w w' : World F V E) (p : ℕ)
      → future_then r s f result_void w ≡ some (p, w')
      → Grows w w' × (p < w'.next)
  unfolding future_then make_promise
  then-Grows r s f result_void w w' p e =
      let states = update w.states w.next (fresh_state result_void) in
      let made : World F V E = record w { states = states; next = w.next + 1 } in
      let grown : Grows w made = make_promise-Grows result_void w in
      let new : (states w.next).ready ≡ false =
        ap (λ (st : SharedState F V E). st.ready) (update_self w.states w.next _) in
      elim (Bool-cases (states s).ready) [
        | inl ready ↦ elim (Bool-cases r) [
          | inl runs ↦
              let u : World F V E = enqueue made (global (continuation s f w.next)) in
              let goes : future_then r s f result_void w ≡ some (w.next, u) =
                rw (new, ready, runs) in
              let queued : Grows made u = record {
                next = omega arith;
                stays = λ q below done. refl;
                blank = λ empty q. empty q;
              } in
              subst (Made w) (sym goes ∙ e) (Grows-trans grown queued, omega arith)
          | inr stopped ↦ cc (rw (new, ready, stopped) at e)
        ]
        | inr waiting ↦
            let c = continuation s f w.next in
            let u : World F V E =
              put_state made s
                (record (states s) { continuations = (states s).continuations ++ c ∷ [] }) in
            let goes : future_then r s f result_void w ≡ some (w.next, u) = rw (new, waiting) in
            subst (Made w) (sym goes ∙ e)
              (Grows-trans grown (registers-Grows s c made waiting), omega arith)
      ]
