-- ===== src/Async/Handle/Accepted.antt =====
-- Which operations on a handle fail an assertion.
use mini_rts.Base.{
  ℕ, ◌<◌, ◌≡◌, refl, ap, ◌∙◌, Option, none, some, Bool, true, false, not, ◌&&◌, ◌||◌, is_some,
  arith, Bool-cases, Option-cases, inl, inr,
}
use mini_rts.Base.Family.{update, update_self, update_ne}
use mini_rts.Core.Task.{◌>>=◌}
use mini_rts.Async.State.{returned, threw, SharedState, World, fresh_state}
use mini_rts.Async.Promise.{set_value, set_exception, settle, future_then, make_promise}
use mini_rts.Async.Program.Resolve.{may_resolve, settle_lem}
use mini_rts.Async.Handle.{
  Handles, HandleOp, constructs, moves, copies, futures, detaches, chains, sets_value,
  sets_exception, handle_step,
}

-- Every variable that is not null points to a state that has been made.
abbrev pub IsNamed : {F V E : Type 0} → Handles F V E → Type 0
IsNamed h = (v s : ℕ) → h.vars v ≡ some s → s < h.world.next

module _ {F V E : Type 0} (tls_worker running : Bool) where
  -- What the assertions of an operation ask for.
  unfoldable pub accepted : HandleOp F V E → Handles F V E → Bool
  accepted (constructs v is_void) h = true
  accepted (moves v other) h = true
  accepted (copies v other) h = true
  accepted (futures v other) h = is_some (h.vars other)
  accepted (detaches v) h = is_some (h.vars v)
  accepted (chains v other f result_void) h = elim (h.vars other) [
    | none ↦ false
    | some s ↦ not (h.world.states s).ready || running
  ]
  accepted (sets_value v x) h = elim (h.vars v) [
    | none ↦ false
    | some s ↦ may_resolve tls_worker (h.world.states s)
  ]
  accepted (sets_exception v e) h = elim (h.vars v) [
    | none ↦ false
    | some s ↦ is_some e && may_resolve running (h.world.states s)
  ]

-- What comes after the last assertion does not fail.
bound-is_some :
    {A B : Type 0} (o : Option A) (k : A → Option B)
    → ((a : A) → is_some (k a) ≡ true)
    → is_some (do a ← o; k a) ≡ is_some o
bound-is_some none k never = refl
bound-is_some (some a) k never = never a

module _ {F V E : Type 0} where
  set_value-is_some :
      (tls_worker : Bool) (p : ℕ) (x : Option V) (w : World F V E)
      → is_some (set_value tls_worker p x w) ≡ may_resolve tls_worker (w.states p)
  unfolding settle
  set_value-is_some t p x w = ap is_some (settle_lem t true p (returned x) w) ∙ ground arith

  -- A null pointer is turned down.
  set_exception-is_some :
      (running : Bool) (p : ℕ) (e : Option E) (w : World F V E)
      → is_some (set_exception running p e w) ≡ (is_some e && may_resolve running (w.states p))
  unfolding settle set_exception
  set_exception-is_some r p none w = refl
  set_exception-is_some r p (some e) w = ap is_some (settle_lem true r p (threw e) w) ∙ ground arith

  then-is_some :
      (running : Bool) (s : ℕ) (f : F) (result_void : Bool) (w : World F V E)
      → s < w.next
      → is_some (future_then running s f result_void w) ≡ (not (w.states s).ready || running)
  unfolding future_then make_promise
  then-is_some r s f result_void w below =
      let states = update w.states w.next (fresh_state result_void) in
      let new : (states w.next).ready ≡ false =
        ap (λ (st : SharedState F V E). st.ready) (update_self w.states w.next _) in
      let old : states s ≡ w.states s =
        update_ne w.states w.next s _ (λ e. omega (arith, below, e)) in
      elim (Bool-cases (w.states s).ready) [
        | inl ready ↦
            let there : (states s).ready ≡ true =
              ap (λ (st : SharedState F V E). st.ready) old ∙ ready in
            elim (Bool-cases r) [
              | inl runs ↦ rw (new, there, runs, ready)
              | inr stopped ↦ rw (new, there, stopped, ready)
            ]
        | inr waiting ↦
            let there : (states s).ready ≡ false =
              ap (λ (st : SharedState F V E). st.ready) old ∙ waiting in
            rw (new, there, waiting)
      ]

  module _ (tls_worker running : Bool) where
    pub step-accepted :
        (op : HandleOp F V E) (h : Handles F V E)
        → IsNamed h
        → is_some (handle_step tls_worker running op h) ≡ accepted tls_worker running op h
    unfolding handle_step accepted
    step-accepted (constructs v is_void) h named = refl
    step-accepted (moves v other) h named = refl
    step-accepted (copies v other) h named = refl
    step-accepted (futures v other) h named = elim (Option-cases (h.vars other)) [
      | inl null ↦ rw null
      | inr (s, at) ↦ rw at
    ]
    step-accepted (detaches v) h named = elim (Option-cases (h.vars v)) [
      | inl null ↦ rw null
      | inr (s, at) ↦ rw at
    ]
    step-accepted (chains v other f result_void) h named = elim (Option-cases (h.vars other)) [
      | inl null ↦ rw (accepted, null)
      | inr (s, at) ↦
          rw (accepted, at)
            (bound-is_some _ _ (λ _. refl)
              ∙ then-is_some running s f result_void h.world (named other s at))
    ]
    step-accepted (sets_value v x) h named = elim (Option-cases (h.vars v)) [
      | inl null ↦ rw (accepted, null)
      | inr (s, at) ↦
          rw (accepted, at)
            (bound-is_some _ _ (λ _. refl) ∙ set_value-is_some tls_worker s x h.world)
    ]
    step-accepted (sets_exception v e) h named = elim (Option-cases (h.vars v)) [
      | inl null ↦ rw (accepted, null)
      | inr (s, at) ↦
          rw (accepted, at)
            (bound-is_some _ _ (λ _. refl) ∙ set_exception-is_some running s e h.world)
    ]
