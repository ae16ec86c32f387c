-- ===== src/Async/Program/Making.antt =====
-- The main thread makes a future: the program grows by an operation, and the invariant holds of it.
use mini_rts.Base.{
  ℕ, ◌+◌, ◌<◌, ◌≤◌, ◌≡◌, refl, ap, sym, ◌∙◌, Option, none, some, Bool, true, false, List, [], ◌∷◌,
  length, weigh, All, is_some, ◌||◌, ◌==◌, if◌then◌else◌, arith, Bool-cases, inl, inr,
}
use mini_rts.Base.Family.{
  update, update_self, update_cases, total, total-update_of_le, total_more, total-eq-zero,
}
use mini_rts.Core.Worker.{Submit}
use mini_rts.Async.State.{Outcome, Closure, spawned, continuation, SharedState, World, fresh_state}
use mini_rts.Async.Promise.{stored}
use mini_rts.Async.Program.{Op, thens, closure_of, denote}
use mini_rts.Async.Program.Meaning.{op_at, op_at-lt, op_at-older, denote-older, IsProgram}
use mini_rts.Async.Program.Settling.{IsDue-op, IsQueued-mono}
use mini_rts.Async.Program.Invariant.{
  target, aims, aims_queued, op_of, function_of, is_ready, kept, IsRegistered, IsQueued, one_if,
  Inv,
}

-- The world with a fresh state for the operation's future.
abbrev pub with_state : {F V E : Type 0} → (F → Bool) → Op F → World F V E → World F V E
with_state result_void op w = record w {
  states = update w.states w.next (fresh_state (result_void (function_of op)));
  next = w.next + 1;
}

module _ {F V E : Type 0} (call : F → Option V → Outcome V E) (result_void : F → Bool) where
  -- No task is for a promise that is not made yet.
  aims_queued-far :
      (ops : List (Op F)) (states : ℕ → SharedState F V E) (q : ℕ)
      → length ops ≤ q
      → (ts : List (Submit (Closure F))) → All (IsQueued ops states) ts
      → weigh (aims_queued q) ts ≡ 0
  aims_queued-far ops states q far [] g = refl
  aims_queued-far ops states q far (t ∷ ts) (due, g) =
      let at =
        op_at-lt ops (target (closure_of t)) (op_of (closure_of t))
          (IsDue-op call result_void ops states (closure_of t) due) in
      ground (arith, at, aims_queued-far ops states q far ts g)

  aims-far :
      (ops : List (Op F)) (q i : ℕ)
      → length ops ≤ q
      → (cs : List (Closure F)) → All (IsRegistered ops i) cs
      → weigh (aims q) cs ≡ 0
  aims-far ops q i far [] g = refl
  aims-far ops q i far (spawned f p ∷ cs) (bad, g) = absurd bad
  aims-far ops q i far (continuation s f p ∷ cs) (due, g) =
      ground (arith, op_at-lt ops p (thens s f) due.0, aims-far ops q i far cs g)

  IsRegistered-mono :
      (op : Op F) (ops : List (Op F)) (i : ℕ) (cs : List (Closure F))
      → All (IsRegistered ops i) cs
      → All (IsRegistered (op ∷ ops) i) cs
  IsRegistered-mono op ops i [] g = tt
  IsRegistered-mono op ops i (spawned f p ∷ cs) (bad, g) = absurd bad
  IsRegistered-mono op ops i (continuation s f p ∷ cs) (due, g) = (
    (op_at-older op ops p (op_at-lt ops p (thens s f) due.0) ∙ due.0, due.1),
    IsRegistered-mono op ops i cs g,
  )

  module _ (op : Op F) (ops : List (Op F)) (w : World F V E)
      (v : Inv call result_void ops (λ _. 0) w) (grows : IsProgram (op ∷ ops)) where
    abbrev pub grown : World F V E
    grown = with_state result_void op w

    abbrev new : SharedState F V E
    new = fresh_state (result_void (function_of op))

    kept_zero : (q : ℕ) → w.next ≤ q → total (kept q) w.next w.states ≡ 0
    kept_zero q far = total-eq-zero (kept q) w.next w.states λ i b.
        elim (Bool-cases (is_ready w.states i)) [
          | inl done ↦ ground arith
          | inr open_still ↦ ground (
            arith,
            aims-far ops q i (omega (arith, v.size)) (w.states i).continuations
                (v.registered i b open_still),
          )
        ]

    -- The new state keeps nothing.
    kept_more : (q : ℕ) → total (kept q) (w.next + 1) grown.states ≡ total (kept q) w.next w.states
    kept_more q =
        let last : kept q (grown.states w.next) ≡ 0 =
          ap (kept q) (update_self w.states w.next new) in
        omega (
          arith,
          total_more (kept q) w.next grown.states,
          total-update_of_le (kept q) w.next w.states w.next new (omega arith),
          last,
        )

    once_grown :
        (q : ℕ)
        → q < w.next + 1
        → weigh (aims_queued q) w.queued
            + total (kept q) (w.next + 1) grown.states
            + (if w.next == q then 1 else 0)
            + one_if (is_ready grown.states q)
          ≡ 1
    once_grown q b =
        update_cases
          (λ (st : SharedState F V E).
            weigh (aims_queued q) w.queued
              + total (kept q) (w.next + 1) grown.states
              + (if w.next == q then 1 else 0)
              + one_if st.ready
            ≡ 1)
          w.states w.next q new
          (λ here.
            let far = aims_queued-far ops w.states q (omega (arith, v.size)) w.queued v.queued in
            ground (arith, kept_more q, far, kept_zero q (omega arith)))
          (λ other. ground (arith, kept_more q, v.once q (omega arith)))

    ready_grown : (i : ℕ) → is_ready w.states i ≡ true → is_ready grown.states i ≡ true
    ready_grown i e =
        update_cases (λ (st : SharedState F V E). st.ready ≡ true) w.states w.next i new
          (λ here. cc (v.beyond i (omega arith))) (λ other. e)

    pub grown-Inv : Inv call result_void (op ∷ ops) (λ q. if w.next == q then 1 else 0) grown
    grown-Inv = record {
      program = grows;
      size = omega (arith, v.size);
      right = λ i b.
          update_cases
            (λ (st : SharedState F V E). st.ready ≡ true → stored st ≡ denote call (op ∷ ops) i)
            w.states w.next i new (λ _ e. cc)
            (λ other e.
              v.right i (omega arith) e ∙ sym (denote-older call op ops i (omega (arith, v.size))));
      beyond = λ i far.
          update_cases (λ (st : SharedState F V E). st.ready ≡ false) w.states w.next i new
            (λ _. refl) (λ other. v.beyond i (omega arith));
      filled = λ i.
          update_cases
            (λ (st : SharedState F V E).
              st.ready ≡ true → st.exception ≡ none → (st.is_void || is_some st.value) ≡ true)
            w.states w.next i new (λ _ e. cc) (λ _. v.filled i);
      blank = λ i.
          update_cases (λ (st : SharedState F V E). st.ready ≡ false → st.exception ≡ none) w.states
            w.next i new (λ _ _. refl) (λ _. v.blank i);
      voids = λ i o at.
          update_cases (λ (st : SharedState F V E). st.is_void ≡ result_void (function_of o))
            w.states w.next i new
            (λ here.
              let same : op ≡ o = ground (arith, v.size) in
              ap (λ z. result_void (function_of z)) same)
            (λ other.
              let older : op_at ops i ≡ some o = ground (arith, v.size) in v.voids i o older);
      queued =
          IsQueued-mono call result_void ops (op ∷ ops) w.states grown.states
            (λ i o e. op_at-older op ops i (op_at-lt ops i o e) ∙ e) ready_grown w.queued v.queued;
      registered = λ i b.
          update_cases
            (λ (st : SharedState F V E).
              st.ready ≡ false → All (IsRegistered (op ∷ ops) i) st.continuations)
            w.states w.next i new (λ _ _. tt)
            (λ other e.
              IsRegistered-mono op ops i (w.states i).continuations
                (v.registered i (omega arith) e));
      once = once_grown;
    }
