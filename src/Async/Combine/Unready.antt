-- ===== src/Async/Combine/Unready.antt =====
-- Nothing that the main thread does makes a future ready: the workers do that.
use mini_rts.Base.{
  ℕ, ◌≡◌, refl, ap, sym, ◌∙◌, Option, some, Bool, false, [], ◌∷◌, ◌++◌, ltb, Bool-cases, inl, inr,
}
use mini_rts.Base.Family.{update, update_self, update_cases}
use mini_rts.Async.State.{Outcome, continuation, SharedState, World, fresh_state}
use mini_rts.Async.Promise.{future_then, make_promise, spawn}
use mini_rts.Async.Program.{Op, spawns, thens, main_step}
use mini_rts.Async.Program.Invariant.{is_ready}

module _ {F V E : Type 0} (call : F → Option V → Outcome V E) (result_void : F → Bool) where
  abbrev IsSame : (ℕ → SharedState F V E) → Option (World F V E) → Type 0
  IsSame states r =
      (w' : World F V E) → r ≡ some w' → (i : ℕ) → is_ready w'.states i ≡ is_ready states i

  made_ready :
      (w : World F V E)
      → is_ready w.states w.next ≡ false
      → (v : Bool) (i : ℕ)
      → is_ready (update w.states w.next (fresh_state v)) i ≡ is_ready w.states i
  made_ready w fresh v i =
      update_cases (λ (x : SharedState F V E). x.ready ≡ is_ready w.states i) w.states w.next i
        (fresh_state v) (λ here. sym fresh ∙ ap (is_ready w.states) here) (λ _. refl)

  -- The main thread makes no future ready.
  pub main_step-IsSame :
      (w : World F V E)
      → is_ready w.states w.next ≡ false
      → (op : Op F) → IsSame w.states (main_step call result_void op w)
  unfolding main_step spawn make_promise future_then
  main_step-IsSame w fresh (spawns f) w' e i = cc (made_ready w fresh (result_void f) i)
  main_step-IsSame w fresh (thens s f) w' e i = elim (Bool-cases (ltb s w.next)) [
    | inl below ↦
        let grown = update w.states w.next (fresh_state (result_void f)) in
        let open_state : (grown w.next).ready ≡ false =
          ap (λ (x : SharedState F V E). x.ready) (update_self w.states w.next _) in
        let same = made_ready w fresh (result_void f) i in
        elim (Bool-cases (is_ready grown s)) [
          | inl ready ↦ cc (rw (below, open_state, ready) at e)
          | inr waiting ↦
              let st : SharedState F V E = record (grown s) {
                continuations = (grown s).continuations ++ continuation s f w.next ∷ [];
              } in
              let kept =
                update_cases (λ (x : SharedState F V E). x.ready ≡ is_ready grown i) grown s i st
                  (λ here. ap (is_ready grown) here) (λ _. refl) in
              cc (rw (below, open_state, waiting) at e)
        ]
    | inr unknown ↦ cc (rw unknown at e)
  ]
