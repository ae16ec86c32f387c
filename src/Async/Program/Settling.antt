-- ===== src/Async/Program/Settling.antt =====
-- Settling a promise with its meaning keeps the invariant: the task in the worker's hand is used up,
-- and the continuations of the state move to the queue.
use mini_rts.Base.{
  ℕ, ◌+◌, ◌<◌, ◌≤◌, ◌≡◌, refl, ap, sym, ◌∙◌, Option, none, some, Bool, true, false, not, List, [],
  ◌∷◌, map, weigh, weigh-append, All, All-append, is_some, ◌||◌, arith,
}
use mini_rts.Base.Family.{update_self, update_cases, total, total-update}
use mini_rts.Core.Worker.{Submit, local, global}
use mini_rts.Async.State.{
  Outcome, returned, threw, Closure, spawned, continuation, SharedState, World,
}
use mini_rts.Async.Promise.{stored}
use mini_rts.Async.Program.{Op, spawns, thens, chain, eval, denote}
use mini_rts.Async.Program.Meaning.{op_at, op_at-lt, denote_lem}
use mini_rts.Async.Program.Resolve.{tag, settled, resolved}
use mini_rts.Async.Program.Running.{
  IsTyped, stored-settled, settled-ready, settled-is_void, aims-map-tag,
}
use mini_rts.Async.Program.Invariant.{
  target, aims, aims_queued, op_of, function_of, is_ready, kept, IsDue, IsRegistered, IsQueued,
  one_if, Inv,
}

module _ {F V E : Type 0} (call : F → Option V → Outcome V E) (result_void : F → Bool) where
  pub IsDue-op :
      (ops : List (Op F)) (states : ℕ → SharedState F V E) (c : Closure F)
      → IsDue ops states c
      → op_at ops (target c) ≡ some (op_of c)
  IsDue-op ops states (spawned f p) due = due
  IsDue-op ops states (continuation s f p) due = due.0

  -- What is due stays due while states become ready and operations are added.
  pub IsQueued-mono :
      (ops ops' : List (Op F)) (a b : ℕ → SharedState F V E)
      → ((i : ℕ) (op : Op F) → op_at ops i ≡ some op → op_at ops' i ≡ some op)
      → ((i : ℕ) → is_ready a i ≡ true → is_ready b i ≡ true)
      → (ts : List (Submit (Closure F))) → All (IsQueued ops a) ts
      → All (IsQueued ops' b) ts
  IsQueued-mono ops ops' a b g h [] q = tt
  IsQueued-mono ops ops' a b g h (local (spawned f p) ∷ ts) (due, q) =
      (g p (spawns f) due, IsQueued-mono ops ops' a b g h ts q)
  IsQueued-mono ops ops' a b g h (local (continuation s f p) ∷ ts) (due, q) =
      ((g p (thens s f) due.0, h s due.1), IsQueued-mono ops ops' a b g h ts q)
  IsQueued-mono ops ops' a b g h (global (spawned f p) ∷ ts) (due, q) =
      (g p (spawns f) due, IsQueued-mono ops ops' a b g h ts q)
  IsQueued-mono ops ops' a b g h (global (continuation s f p) ∷ ts) (due, q) =
      ((g p (thens s f) due.0, h s due.1), IsQueued-mono ops ops' a b g h ts q)

  -- The continuations of a state are due once it is ready.
  registered_due :
      (ops : List (Op F)) (states : ℕ → SharedState F V E) (i : ℕ) (o : Outcome V E)
      → is_ready states i ≡ true
      → (cs : List (Closure F)) → All (IsRegistered ops i) cs
      → All (IsQueued ops states) (map (tag o) cs)
  registered_due ops states i o ready [] g = tt
  registered_due ops states i (returned v) ready (spawned f p ∷ cs) (bad, g) = absurd bad
  registered_due ops states i (returned v) ready (continuation s f p ∷ cs) ((due, at), g) =
      ((due, ap (is_ready states) at ∙ ready), registered_due ops states i (returned v) ready cs g)
  registered_due ops states i (threw e) ready (spawned f p ∷ cs) (bad, g) = absurd bad
  registered_due ops states i (threw e) ready (continuation s f p ∷ cs) ((due, at), g) =
      ((due, ap (is_ready states) at ∙ ready), registered_due ops states i (threw e) ready cs g)

  chain-IsTyped :
      IsTyped call result_void
      → (o : Outcome V E) (f : F) (x : Option V) → chain call o f ≡ returned x
      → is_some x ≡ not (result_void f)
  chain-IsTyped typed (returned y) f x e = typed f y x e
  chain-IsTyped typed (threw z) f x e = cc

  eval-IsTyped :
      IsTyped call result_void
      → (op : Op F) (m : ℕ → Outcome V E) (x : Option V) → eval call op m ≡ returned x
      → is_some x ≡ not (result_void (function_of op))
  eval-IsTyped typed (spawns f) m x e = typed f none x e
  eval-IsTyped typed (thens s f) m x e = chain-IsTyped typed (m s) f x e

  module _ (typed : IsTyped call result_void) (ops : List (Op F)) (w : World F V E) (c : Closure F)
      (v : Inv call result_void ops (λ q. aims q c) w) (due : IsDue ops w.states c) where
    abbrev p : ℕ
    p = target c

    abbrev meaning : Outcome V E
    meaning = denote call ops p

    abbrev after : World F V E
    after = resolved p meaning w

    below : p < w.next
    below = omega (arith, v.size, op_at-lt ops p (op_of c) (IsDue-op ops w.states c due))

    aims_self : aims p c ≡ 1
    aims_self = ground arith

    -- The only task for a promise is in hand, so the promise is not resolved.
    pub still_open : is_ready w.states p ≡ false
    still_open = ground (arith, aims_self, v.once p below)

    ready_after : (i : ℕ) → is_ready w.states i ≡ true → is_ready after.states i ≡ true
    ready_after i h = ground (arith, settled-ready (w.states p) meaning)

    right_after :
        (i : ℕ)
        → i < w.next
        → is_ready after.states i ≡ true
        → stored (after.states i) ≡ denote call ops i
    right_after i b =
        update_cases (λ (st : SharedState F V E). st.ready ≡ true → stored st ≡ denote call ops i)
          w.states p i (settled (w.states p) meaning)
          (λ here _.
            stored-settled (w.states p) meaning (v.blank p still_open) ∙ ap (denote call ops) here)
          (λ _ h. v.right i b h)

    beyond_after : (i : ℕ) → w.next ≤ i → is_ready after.states i ≡ false
    beyond_after i far =
        update_cases (λ (st : SharedState F V E). st.ready ≡ false) w.states p i
          (settled (w.states p) meaning) (λ here. absurd (omega (arith, below)))
          (λ _. v.beyond i far)

    filled_after :
        (i : ℕ)
        → is_ready after.states i ≡ true
        → (after.states i).exception ≡ none
        → ((after.states i).is_void || is_some (after.states i).value) ≡ true
    filled_after i =
        update_cases
          (λ (st : SharedState F V E).
            st.ready ≡ true → st.exception ≡ none → (st.is_void || is_some st.value) ≡ true)
          w.states p i (settled (w.states p) meaning) (λ _ _ e. full meaning refl e)
          (λ _ h e. v.filled i h e)
      where
        full :
            (o : Outcome V E)
            → denote call ops p ≡ o
            → (settled (w.states p) o).exception ≡ none
            → ((settled (w.states p) o).is_void || is_some (settled (w.states p) o).value) ≡ true
        full (returned x) m e =
            let at = IsDue-op ops w.states c due in
            let value =
              eval-IsTyped typed (op_of c) (denote call ops) x
                (sym (denote_lem call ops p (op_of c) v.program at) ∙ m) in
            ground (arith, value, v.voids p (op_of c) at)
        full (threw x) m e = cc

    blank_after : (i : ℕ) → is_ready after.states i ≡ false → (after.states i).exception ≡ none
    blank_after i =
        update_cases (λ (st : SharedState F V E). st.ready ≡ false → st.exception ≡ none) w.states p
          i (settled (w.states p) meaning) (λ _ e. cc (settled-ready (w.states p) meaning))
          (λ _ e. v.blank i e)

    voids_after :
        (i : ℕ) (op : Op F)
        → op_at ops i ≡ some op
        → (after.states i).is_void ≡ result_void (function_of op)
    voids_after i op at =
        update_cases (λ (st : SharedState F V E). st.is_void ≡ result_void (function_of op))
          w.states p i (settled (w.states p) meaning)
          (λ here.
            settled-is_void (w.states p) meaning
            ∙ ap (λ k. (w.states k).is_void) here
            ∙ v.voids i op at)
          (λ _. v.voids i op at)

    queued_after : All (IsQueued ops after.states) after.queued
    queued_after =
        All-append (IsQueued ops after.states) w.queued
          (map (tag meaning) (w.states p).continuations)
          (IsQueued-mono ops ops w.states after.states (λ i op e. e) ready_after w.queued v.queued)
          (registered_due ops after.states p meaning
            (ap (λ (st : SharedState F V E). st.ready) (update_self w.states p _)
              ∙ settled-ready (w.states p) meaning)
            (w.states p).continuations (v.registered p below still_open))

    IsRegistered-after :
        (i : ℕ)
        → i < w.next
        → is_ready after.states i ≡ false
        → All (IsRegistered ops i) (after.states i).continuations
    IsRegistered-after i b =
        update_cases
          (λ (st : SharedState F V E). st.ready ≡ false → All (IsRegistered ops i) st.continuations)
          w.states p i (settled (w.states p) meaning)
          (λ _ e. cc (settled-ready (w.states p) meaning)) (λ _ e. v.registered i b e)

    kept_open : (q : ℕ) → kept q (w.states p) ≡ weigh (aims q) (w.states p).continuations
    kept_open q = ground (arith, still_open)

    kept_after : (q : ℕ) → kept q (settled (w.states p) meaning) ≡ 0
    kept_after q = ground (arith, settled-ready (w.states p) meaning)

    flag_after :
        (q : ℕ) → one_if (is_ready after.states q) ≡ one_if (is_ready w.states q) + aims q c
    flag_after q =
        update_cases
          (λ (st : SharedState F V E). one_if st.ready ≡ one_if (is_ready w.states q) + aims q c)
          w.states p q (settled (w.states p) meaning)
          (λ here. ground (arith, settled-ready (w.states p) meaning, still_open))
          (λ other. ground arith)

    -- The task in hand becomes the readiness of its promise, and what the state kept is queued.
    once_after :
        (q : ℕ)
        → q < w.next
        → weigh (aims_queued q) after.queued
            + total (kept q) w.next after.states
            + 0
            + one_if (is_ready after.states q)
          ≡ 1
    once_after q b = omega (
      arith,
      v.once q b,
      flag_after q,
      kept_open q,
      kept_after q,
      weigh-append (aims_queued q) w.queued (map (tag meaning) (w.states p).continuations),
      aims-map-tag meaning q (w.states p).continuations,
      total-update (kept q) w.next w.states p (settled (w.states p) meaning) below,
    )

    pub resolved-Inv : Inv call result_void ops (λ _. 0) after
    resolved-Inv = record {
      program = v.program;
      size = v.size;
      right = right_after;
      beyond = beyond_after;
      filled = filled_after;
      blank = blank_after;
      voids = voids_after;
      queued = queued_after;
      registered = IsRegistered-after;
      once = once_after;
    }
