-- ===== src/System/Offering.antt =====
-- src/async/spawn.h and src/async/future.h: what the main thread's operations hand to the pool does not
-- depend on what is queued already.
use mini_rts.Base.{
  ℕ, ◌≡◌, ◌⊎◌, refl, ap, Option, some, Bool, true, false, List, [], ◌∷◌, ◌++◌, ltb, inl, inr,
}
use mathlib.Core.List.{append-nil}
use mini_rts.Base.Family.{update_self}
use mini_rts.Core.Worker.{Submit, global}
use mini_rts.Async.State.{
  Outcome, Closure, continuation, SharedState, World, fresh_state, put_state,
}
use mini_rts.Async.Promise.{future_then, make_promise, spawn}
use mini_rts.Async.Program.{Op, spawns, thens, main_step}
use mini_rts.Async.Program.Making.{with_state}
use mini_rts.Async.Program.Invariant.{is_ready}

module _ {F V E : Type 0} (call : F → Option V → Outcome V E) (result_void : F → Bool) where
  -- The operation hands over at most one task, and does the same on its own as behind other tasks.
  abbrev pub Hands : Op F → World F V E → Type 0
  Hands op w =
      (w' : World F V E) × (main_step call result_void op (record w { queued = [] }) ≡ some w')
      × ((w'.queued ≡ []) ⊎ ((c : Closure F) × (w'.queued ≡ global c ∷ [])))
      × ((ts : List (Submit (Closure F)))
          → main_step call result_void op (record w { queued = ts })
            ≡ some (record w' { queued = ts ++ w'.queued }))

  thens-Hands :
      (s : ℕ) (f : F) (w : World F V E) (ready known : Bool)
      → is_ready (with_state result_void (thens s f) w).states s ≡ ready
      → ltb s w.next ≡ known
      → Hands (thens s f) w
  unfolding main_step future_then make_promise
  thens-Hands s f w ready false r k =
      (record w { queued = [] }, rw k, inl refl, λ ts. rw (k, append-nil ts))
  thens-Hands s f w true true r k =
      let grown = with_state result_void (thens s f) w in
      let open_state : (grown.states w.next).ready ≡ false =
        ap (λ (x : SharedState F V E). x.ready)
          (update_self w.states w.next (fresh_state (result_void f))) in
      let c : Closure F = continuation s f w.next in
      (
        record grown { queued = global c ∷ [] },
        rw (k, open_state, r),
        inr (c, refl),
        λ ts. rw (k, open_state, r),
      )
  thens-Hands s f w false true r k =
      let grown = with_state result_void (thens s f) w in
      let open_state : (grown.states w.next).ready ≡ false =
        ap (λ (x : SharedState F V E). x.ready)
          (update_self w.states w.next (fresh_state (result_void f))) in
      let st = record (grown.states s) {
        continuations = (grown.states s).continuations ++ continuation s f w.next ∷ [];
      } in
      (
        put_state (record grown { queued = [] }) s st,
        rw (k, open_state, r),
        inl refl,
        λ ts. rw (k, open_state, r, append-nil ts),
      )

  pub main_step-Hands : (op : Op F) (w : World F V E) → Hands op w
  unfolding main_step spawn make_promise
  main_step-Hands (spawns f) w = (_, refl, inr (_, refl), λ ts. refl)
  main_step-Hands (thens s f) w =
      thens-Hands s f w (is_ready (with_state result_void (thens s f) w).states s) (ltb s w.next)
        refl refl
