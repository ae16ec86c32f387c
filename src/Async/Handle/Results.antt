-- ===== src/Async/Handle/Results.antt =====
-- What a program gets from its handles.
use mini_rts.Base.{
  ℕ, ◌≡◌, refl, ap, sym, subst, ◌∙◌, none, some, Bool, true, ◌||◌, List, [], ◌∷◌, is_some, arith,
  Option-cases, inl, inr,
}
use mini_rts.Base.Family.{update_self}
use mini_rts.Core.Task.{◌>>=◌}
use mini_rts.Async.State.{Outcome, returned, threw, SharedState, World}
use mini_rts.Async.Promise.{got, get, is_ready, settle}
use mini_rts.Async.Program.Resolve.{settled}
use mini_rts.Async.Program.Running.{settled-ready}
use mini_rts.Async.Handle.{
  Handles, HandleOp, resolves, handle_step, handle_steps, no_handles, get_of,
}
use mini_rts.Async.Handle.Accepted.{accepted, step-accepted}
use mini_rts.Async.Handle.Kept.{Settles, settle-Settles}
use mini_rts.Async.Handle.Named.{no_handles-Sound, steps-Keeps}

-- A promise that is not `void` is resolved with a value.
abbrev pub fits : {V E : Type 0} → Bool → Outcome V E → Bool
fits is_void (returned v) = is_void || is_some v
fits is_void (threw e) = true

module _ {F V E : Type 0} where
  get-settled :
      (w : World F V E) (p : ℕ) (st : SharedState F V E) (o : Outcome V E)
      → w.states p ≡ settled st o
      → st.exception ≡ none
      → fits st.is_void o ≡ true
      → get w p ≡ some (got o)
  unfolding get
  get-settled w p st (returned v) same empty fit =
      let ready : is_ready w p ≡ true = ap (λ (x : SharedState F V E). x.ready) same in
      let fine : (w.states p).exception ≡ none =
        ap (λ (x : SharedState F V E). x.exception) same ∙ empty in
      let filled : ((w.states p).is_void || is_some (w.states p).value) ≡ true =
        ap (λ (x : SharedState F V E). x.is_void || is_some x.value) same ∙ fit in
      rw (ready, fine, filled) (ap (λ (x : SharedState F V E). some (got (returned x.value))) same)
  get-settled w p st (threw e) same empty fit =
      let ready : is_ready w p ≡ true = ap (λ (x : SharedState F V E). x.ready) same in
      let failed : (w.states p).exception ≡ some e =
        ap (λ (x : SharedState F V E). x.exception) same in
      rw (ready, failed)

  module _ (tls_worker running : Bool) where
    -- After any operations on handles from none, an operation fails an assertion exactly if it is not
    -- accepted: if its handle is null, if it resolves a promise that is ready or has a continuation that
    -- cannot be submitted from where it is called, if it gives a promise a null exception, or if it
    -- chains to a future that is ready while the runtime is not active.
    pub handle_step_lem :
        (ops : List (HandleOp F V E)) (h : Handles F V E)
        → handle_steps tls_worker running ops no_handles ≡ some h
        → (op : HandleOp F V E)
        → is_some (handle_step tls_worker running op h) ≡ accepted tls_worker running op h
    handle_step_lem ops h reached op =
        let (sound, _) = steps-Keeps tls_worker running ops no_handles h no_handles-Sound reached in
        step-accepted tls_worker running op h sound.named

    resolves_lem :
        (v : ℕ) (o : Outcome V E) (h : Handles F V E)
        → handle_step tls_worker running (resolves v o) h ≡ (do
          s ← h.vars v
          w ← settle tls_worker running s o h.world
          some (record h { world = w }))
    unfolding handle_step settle
    resolves_lem v (returned x) h = refl
    resolves_lem v (threw e) h = refl

    resolves-Settles :
        (v : ℕ) (o : Outcome V E) (h h' : Handles F V E) (p : ℕ)
        → h.vars v ≡ some p
        → handle_step tls_worker running (resolves v o) h ≡ some h'
        → Settles p o h.world h'.world
    resolves-Settles v o h h' p at e =
        let e' = sym (resolves_lem v o h) ∙ e in
        elim (Option-cases (settle tls_worker running p o h.world)) [
          | inl fails ↦ cc (rw (at, fails) at e')
          | inr (w, goes) ↦
              let same : record h { world = w } ≡ h' = cc (rw (at, goes) at e') in
              subst (λ u. Settles p o h.world u.world) same
                (settle-Settles tls_worker running p o h.world w goes)
        ]

    -- Handles are made, copied, moved, detached and used in any way from none, a promise is resolved
    -- through one of them, and more of that follows, where no assertion fails. Then `get` through any
    -- handle on the same state gives the value or the exception that the promise was resolved with. The
    -- condition is that a promise that is not `void` is given a value, or an exception.
    pub promise_to_future :
        (before after : List (HandleOp F V E)) (h h' last : Handles F V E) (v g p : ℕ)
        (o : Outcome V E)
        → handle_steps tls_worker running before no_handles ≡ some h
        → h.vars v ≡ some p
        → fits (h.world.states p).is_void o ≡ true
        → handle_step tls_worker running (resolves v o) h ≡ some h'
        → handle_steps tls_worker running after h' ≡ some last
        → last.vars g ≡ some p
        → get_of g last ≡ some (got o)
    unfolding get_of Settles handle_steps
    promise_to_future before after h h' last v g p o reached at fit resolved goes_on there =
        let (sound, _) =
          steps-Keeps tls_worker running before no_handles h no_handles-Sound reached in
        let (open_still, states, next) = resolves-Settles v o h h' p at resolved in
        let here : h'.world.states p ≡ settled (h.world.states p) o =
          ap (λ f. f p) states ∙ update_self h.world.states p _ in
        let one : handle_steps tls_worker running (resolves v o ∷ []) h ≡ some h' = rw resolved in
        let (sound', _) = steps-Keeps tls_worker running (resolves v o ∷ []) h h' sound one in
        let (_, grows) = steps-Keeps tls_worker running after h' last sound' goes_on in
        let ready : (h'.world.states p).ready ≡ true =
          ap (λ (st : SharedState F V E). st.ready) here ∙ settled-ready (h.world.states p) o in
        let stays = grows.stays p (omega (arith, sound.named v p at, next)) ready in
        let result =
          get-settled last.world p (h.world.states p) o (stays ∙ here) (sound.blank p open_still)
            fit in
        rw there result
