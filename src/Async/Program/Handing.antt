-- ===== src/Async/Program/Handing.antt =====
-- The continuation or task of a new future is handed over: to the queue, or to the state that it waits
-- for. The invariant counts it there from then on.
use mini_rts.Base.{
  ℕ, ◌+◌, ◌<◌, ◌≡◌, refl, ap, ◌∙◌, subst, Option, none, some, Bool, true, false, List, [], ◌∷◌,
  ◌++◌, weigh, weigh-append, All, All-append, is_some, ◌||◌, arith,
}
use mini_rts.Base.Family.{update_cases, total, total-update}
use mini_rts.Core.Worker.{global}
use mini_rts.Async.State.{Outcome, Closure, continuation, SharedState, World, put_state, enqueue}
use mini_rts.Async.Promise.{stored}
use mini_rts.Async.Program.{Op, thens, denote}
use mini_rts.Async.Program.Meaning.{op_at}
use mini_rts.Async.Program.Settling.{IsQueued-mono}
use mini_rts.Async.Program.Invariant.{
  aims, aims_queued, function_of, is_ready, kept, IsDue, IsRegistered, IsQueued, one_if, Inv,
}

module _ {F V E : Type 0} (call : F → Option V → Outcome V E) (result_void : F → Bool) where
  pub queued-Inv :
      (ops : List (Op F)) (w : World F V E) (c : Closure F)
      → Inv call result_void ops (λ q. aims q c) w
      → IsDue ops w.states c
      → Inv call result_void ops (λ _. 0) (enqueue w (global c))
  queued-Inv ops w c v due = record {
    program = v.program;
    size = v.size;
    right = v.right;
    beyond = v.beyond;
    filled = v.filled;
    blank = v.blank;
    voids = v.voids;
    queued = All-append (IsQueued ops w.states) w.queued (global c ∷ []) v.queued (due, tt);
    registered = v.registered;
    once = λ q b. omega (arith, v.once q b, weigh-append (aims_queued q) w.queued (global c ∷ []));
  }

  module _ (ops : List (Op F)) (w : World F V E) (s p : ℕ) (f : F)
      (v : Inv call result_void ops (λ q. aims q (continuation s f p)) w) (below : s < w.next)
      (waiting : is_ready w.states s ≡ false) (made : op_at ops p ≡ some (thens s f)) where
    abbrev c : Closure F
    c = continuation s f p

    abbrev st : SharedState F V E
    st = record (w.states s) { continuations = (w.states s).continuations ++ c ∷ [] }

    abbrev pub registered_world : World F V E
    registered_world = put_state w s st

    kept_here : (q : ℕ) → kept q st ≡ kept q (w.states s) + aims q c
    kept_here q = ground (arith, waiting, weigh-append (aims q) (w.states s).continuations (c ∷ []))

    same_ready : (i : ℕ) → is_ready registered_world.states i ≡ is_ready w.states i
    same_ready i =
        update_cases (λ (x : SharedState F V E). x.ready ≡ is_ready w.states i) w.states s i st
          (λ here. ap (is_ready w.states) here) (λ _. refl)

    once_here :
        (q : ℕ)
        → q < w.next
        → weigh (aims_queued q) w.queued
            + total (kept q) w.next registered_world.states
            + 0
            + one_if (is_ready registered_world.states q)
          ≡ 1
    once_here q b = omega (
      arith,
      v.once q b,
      kept_here q,
      ap one_if (same_ready q),
      total-update (kept q) w.next w.states s st below,
    )

    pub registered-Inv : Inv call result_void ops (λ _. 0) registered_world
    registered-Inv = record {
      program = v.program;
      size = v.size;
      right = λ i b.
          update_cases (λ (x : SharedState F V E). x.ready ≡ true → stored x ≡ denote call ops i)
            w.states s i st (λ _ e. cc) (λ _. v.right i b);
      beyond = λ i far. same_ready i ∙ v.beyond i far;
      filled = λ i.
          update_cases
            (λ (x : SharedState F V E).
              x.ready ≡ true → x.exception ≡ none → (x.is_void || is_some x.value) ≡ true)
            w.states s i st (λ _. v.filled s) (λ _. v.filled i);
      blank = λ i.
          update_cases (λ (x : SharedState F V E). x.ready ≡ false → x.exception ≡ none) w.states s
            i st (λ _. v.blank s) (λ _. v.blank i);
      voids = λ i o at.
          update_cases (λ (x : SharedState F V E). x.is_void ≡ result_void (function_of o)) w.states
            s i st (λ here. ap (λ k. (w.states k).is_void) here ∙ v.voids i o at)
            (λ _. v.voids i o at);
      queued =
          IsQueued-mono call result_void ops ops w.states registered_world.states (λ i o e. e)
            (λ i e. same_ready i ∙ e) w.queued v.queued;
      registered = λ i b.
          update_cases
            (λ (x : SharedState F V E). x.ready ≡ false → All (IsRegistered ops i) x.continuations)
            w.states s i st
            (λ here e.
              subst (λ k. All (IsRegistered ops k) st.continuations) here
                (All-append (IsRegistered ops s) (w.states s).continuations (c ∷ [])
                  (v.registered s below waiting) ((made, refl), tt)))
            (λ _. v.registered i b);
      once = once_here;
    }
