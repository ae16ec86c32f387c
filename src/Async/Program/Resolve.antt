-- ===== src/Async/Program/Resolve.antt =====
-- src/async/promise.h: resolving a promise, on any thread.
use mini_rts.Base.{
  ℕ, ◌≡◌, refl, none, some, Bool, true, false, List, [], ◌∷◌, ◌++◌, map, not, ◌&&◌, ◌||◌, is_nil,
  arith, Bool-cases, inl, inr, if◌then◌else◌, ◌∙◌,
}
use mathlib.Core.List.{append_assoc, append-nil}
use mini_rts.Base.Family.{update}
use mini_rts.Core.Worker.{Submit, local, global}
use mini_rts.Async.State.{Outcome, returned, threw, Closure, SharedState, World, put_state, enqueue}
use mini_rts.Async.Promise.{schedule_locally, schedule_globally, set_value, set_exception, settle}

module _ {V E : Type 0} (tls_worker running : Bool) where
  -- Where the continuations go: to the worker of this thread, or through the pool.
  abbrev pub may_submit : Outcome V E → Bool
  may_submit (returned v) = tls_worker
  may_submit (threw e) = running

module _ {F V E : Type 0} where
  pub schedule_locally-runs :
      (cs : List (Closure F)) (w : World F V E)
      → schedule_locally true cs w ≡ some (record w { queued = w.queued ++ map local cs })
  unfolding schedule_locally
  schedule_locally-runs [] w = rw (append-nil w.queued)
  schedule_locally-runs (c ∷ cs) w = rw (
    schedule_locally-runs cs (enqueue w (local c)),
    append_assoc w.queued (local c ∷ []) (map local cs),
  )

  pub schedule_globally-runs :
      (cs : List (Closure F)) (w : World F V E)
      → schedule_globally true cs w ≡ some (record w { queued = w.queued ++ map global cs })
  unfolding schedule_globally
  schedule_globally-runs [] w = rw (append-nil w.queued)
  schedule_globally-runs (c ∷ cs) w = rw (
    schedule_globally-runs cs (enqueue w (global c)),
    append_assoc w.queued (global c ∷ []) (map global cs),
  )

  -- A value sends the continuations to the worker's own queue, an exception through the pool.
  abbrev pub tag : Outcome V E → Closure F → Submit (Closure F)
  tag (returned v) = local
  tag (threw e) = global

  abbrev pub settled : SharedState F V E → Outcome V E → SharedState F V E
  settled s (returned v) = record s { value = v; ready = true }
  settled s (threw e) = record s { exception = some e; ready = true }

  abbrev pub resolved : ℕ → Outcome V E → World F V E → World F V E
  resolved p o w = record w {
    states = update w.states p (settled (w.states p) o);
    queued = w.queued ++ map (tag o) (w.states p).continuations;
  }

  schedule_locally_lem :
      (here : Bool) (cs : List (Closure F)) (w : World F V E)
      → schedule_locally here cs w ≡ (
          if is_nil cs || here then some (record w { queued = w.queued ++ map local cs }) else none)
  unfolding schedule_locally
  schedule_locally_lem here [] w = rw (append-nil w.queued)
  schedule_locally_lem true (c ∷ cs) w = schedule_locally-runs (c ∷ cs) w
  schedule_locally_lem false (c ∷ cs) w = refl

  schedule_globally_lem :
      (running : Bool) (cs : List (Closure F)) (w : World F V E)
      → schedule_globally running cs w ≡ (
          if is_nil cs || running
          then some (record w { queued = w.queued ++ map global cs })
          else none)
  unfolding schedule_globally
  schedule_globally_lem running [] w = rw (append-nil w.queued)
  schedule_globally_lem true (c ∷ cs) w = schedule_globally-runs (c ∷ cs) w
  schedule_globally_lem false (c ∷ cs) w = refl

  -- A promise is resolved once, and its continuations must find where to go.
  abbrev pub may_resolve : (may_submit : Bool) → SharedState F V E → Bool
  may_resolve may_submit st = not st.ready && (is_nil st.continuations || may_submit)

  -- On whatever thread and whether or not the runtime is active: resolving a promise fails an assertion
  -- if the promise is ready, or if it has continuations and they cannot be submitted, after a value
  -- because the thread is no worker's, after an exception because the runtime is not active. Otherwise
  -- the outcome is stored and every registered continuation is submitted once, in the order of
  -- registration: after a value to the worker's own queue, after an exception through the pool.
  pub settle_lem :
      (tls_worker running : Bool) (p : ℕ) (o : Outcome V E) (w : World F V E)
      → settle tls_worker running p o w ≡ (
          if may_resolve (may_submit tls_worker running o) (w.states p)
          then some (resolved p o w)
          else none)
  unfolding settle set_value set_exception
  settle_lem t r p (returned v) w = elim (Bool-cases (w.states p).ready) [
    | inl closed ↦ rw closed
    | inr open_still ↦ rw open_still (
        schedule_locally_lem t (w.states p).continuations
          (put_state w p (record (w.states p) { value = v; ready = true })))
  ]
  settle_lem t r p (threw e) w = elim (Bool-cases (w.states p).ready) [
    | inl closed ↦ rw closed
    | inr open_still ↦ rw open_still (
        schedule_globally_lem r (w.states p).continuations
          (put_state w p (record (w.states p) { exception = some e; ready = true })))
  ]

  -- On a worker's thread of an active runtime only a promise that is ready cannot be resolved.
  pub settle_open :
      (p : ℕ) (o : Outcome V E) (w : World F V E)
      → (w.states p).ready ≡ false
      → settle true true p o w ≡ some (resolved p o w)
  settle_open p (returned v) w open_still =
      settle_lem true true p (returned v) w ∙ ground (arith, open_still)
  settle_open p (threw e) w open_still =
      settle_lem true true p (threw e) w ∙ ground (arith, open_still)
