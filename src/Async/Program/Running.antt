-- ===== src/Async/Program/Running.antt =====
-- A worker runs a task that is due: it settles the task's promise with what the program means, and the
-- invariant holds again.
use mini_rts.Base.{
  ℕ, ◌<◌, ◌≡◌, refl, ap, sym, ◌∙◌, Option, none, Bool, true, not, List, [], ◌∷◌, map, weigh,
  is_some, ◌||◌, arith, Option-cases, inl, inr,
}
use mini_rts.Core.Worker.{Submit}
use mini_rts.Async.State.{
  Outcome, returned, threw, Closure, spawned, continuation, SharedState, World,
}
use mini_rts.Async.Promise.{stored, settle, run_closure}
use mini_rts.Async.Program.{Op, spawns, thens, chain, denote}
use mini_rts.Async.Program.Meaning.{op_at-lt, thens-lt, denote_lem}
use mini_rts.Async.Program.Resolve.{tag, settled}
use mini_rts.Async.Program.Invariant.{target, aims, aims_queued, IsDue, Inv}

-- A function returns a value exactly if it is not `void`: what the compiler checks.
abbrev pub IsTyped : {F V E : Type 0} → (F → Option V → Outcome V E) → (F → Bool) → Type 0
IsTyped {F} {V} call result_void =
    (f : F) (v o : Option V) → call f v ≡ returned o → is_some o ≡ not (result_void f)

module _ {F V E : Type 0} where
  pub stored-settled :
      (st : SharedState F V E) (o : Outcome V E) → st.exception ≡ none → stored (settled st o) ≡ o
  stored-settled st (returned v) e = ground arith
  stored-settled st (threw x) e = refl

  pub settled-ready : (st : SharedState F V E) (o : Outcome V E) → (settled st o).ready ≡ true
  settled-ready st (returned v) = refl
  settled-ready st (threw e) = refl

  pub settled-is_void :
      (st : SharedState F V E) (o : Outcome V E) → (settled st o).is_void ≡ st.is_void
  settled-is_void st (returned v) = refl
  settled-is_void st (threw e) = refl

  pub aims-map-tag :
      (o : Outcome V E) (q : ℕ) (cs : List (Closure F))
      → weigh (aims_queued q) (map (tag o) cs) ≡ weigh (aims q) cs
  aims-map-tag o q [] = refl
  aims-map-tag (returned v) q (c ∷ cs) = omega (arith, aims-map-tag (returned v) q cs)
  aims-map-tag (threw e) q (c ∷ cs) = omega (arith, aims-map-tag (threw e) q cs)

module _ {F V E : Type 0} (call : F → Option V → Outcome V E) (result_void : F → Bool) where
  continues :
      (w : World F V E) (s p : ℕ) (f : F)
      → ((w.states s).exception ≡ none
          → ((w.states s).is_void || is_some (w.states s).value) ≡ true)
      → run_closure call true true (continuation s f p) w
        ≡ settle true true p (chain call (stored (w.states s)) f) w
  unfolding run_closure settle
  continues w s p f full = elim (Option-cases (w.states s).exception) [
    | inl fine ↦ ground (arith, full fine)
    | inr (e, failed) ↦ ground arith
  ]

  -- Running a task that is due settles its promise with the meaning of the promise's future, whatever
  -- else is queued.
  pub run_closure-due :
      (ops : List (Op F)) (running : ℕ → ℕ) (w : World F V E) (c : Closure F)
      → Inv call result_void ops running w
      → IsDue ops w.states c
      → (ts : List (Submit (Closure F)))
      → run_closure call true true c (record w { queued = ts })
        ≡ settle true true (target c) (denote call ops (target c)) (record w { queued = ts })
  unfolding run_closure
  run_closure-due ops running w (spawned f p) v due ts =
      ap (λ o. settle true true p o (record w { queued = ts }))
        (sym (denote_lem call ops p (spawns f) v.program due))
  run_closure-due ops running w (continuation s f p) v (due, ready) ts =
      let below : s < w.next =
        omega (arith, v.size, op_at-lt ops p (thens s f) due, thens-lt ops p s f v.program due) in
      continues (record w { queued = ts }) s p f (v.filled s ready)
      ∙ ap (λ m. settle true true p (chain call m f) (record w { queued = ts }))
          (v.right s below ready)
      ∙ ap (λ o. settle true true p o (record w { queued = ts }))
          (sym (denote_lem call ops p (thens s f) v.program due))
