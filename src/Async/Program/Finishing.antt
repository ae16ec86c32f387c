-- ===== src/Async/Program/Finishing.antt =====
-- Workers that go on taking tasks come to an end, and then every future is ready.
use mini_rts.Base.{
  ℕ, zero, suc, ◌+◌, ◌<◌, ◌≤◌, ◌≡◌, refl, ap, subst, ◌∙◌, Option, some, Bool, true, false, List, [],
  ◌∷◌, ◌++◌, length, weigh, All, ◌==◌, if◌then◌else◌, arith, inl, inr,
}
use mini_rts.Base.Family.{total, total-update, total-le}
use mini_rts.Core.Task.{◌>>=◌}
use mini_rts.Core.Worker.{Submit}
use mini_rts.Async.State.{Outcome, Closure, SharedState, World, init}
use mini_rts.Async.Promise.{got, get}
use mini_rts.Async.Program.{Op, Action, exec, closure_of, made, act, remove, exec_step, run, denote}
use mini_rts.Async.Program.Meaning.{op_at-lt}
use mini_rts.Async.Program.Path.{run-append}
use mini_rts.Async.Program.Resolve.{resolved, settled}
use mini_rts.Async.Program.Settling.{IsDue-op}
use mini_rts.Async.Program.Running.{IsTyped, settled-ready}
use mini_rts.Async.Program.Steps.{run-Goes, init-Inv, taken}
use mini_rts.Async.Program.Determined.{get_cases, idle_ready}
use mini_rts.Async.Program.Invariant.{target, op_of, is_ready, IsQueued, one_if, Inv}

-- Workers take the task at the front, this many times.
abbrev pub takes : {F : Type 0} → ℕ → List (Action F)
takes zero = []
takes (suc n) = exec 0 ∷ takes n

module _ {F V E : Type 0} where
  abbrev pub done : SharedState F V E → ℕ
  done st = one_if st.ready

  -- The futures that are ready.
  abbrev pub ready_count : World F V E → ℕ
  ready_count w = total done w.next w.states

  done-le : (st : SharedState F V E) → done st ≤ 1
  done-le st = ground arith

  ready_count-lt :
      (w : World F V E) (p : ℕ) → p < w.next → is_ready w.states p ≡ false → ready_count w < w.next
  ready_count-lt w p b open_still =
      let st : SharedState F V E = record (w.states p) { ready = true } in
      ground (
        arith,
        total-update done w.next w.states p st b,
        total-le done done-le w.next (λ i. if p == i then st else w.states i),
      )

  module _ (call : F → Option V → Outcome V E) (result_void : F → Bool)
      (typed : IsTyped call result_void) where
    idle_takes :
        (n : ℕ) (w : World F V E) → w.queued ≡ [] → run call result_void (takes n) w ≡ some w
    unfolding run act exec_step
    idle_takes zero w idle = refl
    idle_takes (suc n) w idle =
        ap
          (λ q. do
            w' ← exec_step call result_void (remove 0 q) w
            run call result_void (takes n) w')
          idle
        ∙ idle_takes n w idle

    unfoldable pub Finishes : List (Op F) → Option (World F V E) → Type 0
    Finishes ops r =
        (w : World F V E) × (r ≡ some w) × (w.queued ≡ []) × Inv call result_void ops (λ _. 0) w

    -- A task that is taken makes one more future ready.
    Advances : List (Op F) → World F V E → Type 0
    Advances ops w =
        (u : World F V E) × (exec_step call result_void (remove 0 w.queued) w ≡ some u)
        × Inv call result_void ops (λ _. 0) u
        × (u.next ≡ w.next)
        × (ready_count u ≡ ready_count w + 1)
        × (ready_count w < w.next)

    take-Advances :
        (ops : List (Op F)) (w : World F V E) (t : Submit (Closure F))
        (ts : List (Submit (Closure F)))
        → w.queued ≡ t ∷ ts
        → Inv call result_void ops (λ _. 0) w
        → All (IsQueued ops w.states) (t ∷ ts)
        → Advances ops w
    unfolding Advances exec_step
    take-Advances ops w t ts waits v (due, others) =
        let p = target (closure_of t) in
        let o = denote call ops p in
        let (open_still, runs, v') =
          taken call result_void ops w v typed t ts due others (λ m. ap (weigh m) waits) in
        let below : p < w.next = omega (
          arith,
          v.size,
          op_at-lt ops p (op_of (closure_of t))
              (IsDue-op call result_void ops w.states (closure_of t) due),
        ) in
        (
          resolved p o (record w { queued = ts }),
          ap (λ q. exec_step call result_void (remove 0 q) w) waits ∙ runs,
          v',
          refl,
          ground (
            arith,
            total-update done w.next w.states p (settled (w.states p) o) below,
            settled-ready (w.states p) o,
            open_still,
          ),
          ready_count-lt w p below open_still,
        )

    pub takes-Finishes :
        (ops : List (Op F)) (n : ℕ) (w : World F V E) (ts : List (Submit (Closure F)))
        → w.queued ≡ ts
        → Inv call result_void ops (λ _. 0) w
        → w.next ≤ ready_count w + n
        → Finishes ops (run call result_void (takes n) w)
    unfolding Finishes Advances run act
    takes-Finishes ops n w [] idle v enough = (w, idle_takes n w idle, idle, v)
    takes-Finishes ops zero w (t ∷ ts) waits v enough =
        let (u, _, _, _, _, fewer) =
          take-Advances ops w t ts waits v (subst (All (IsQueued ops w.states)) waits v.queued) in
        absurd (omega (arith, fewer))
    takes-Finishes ops (suc n) w (t ∷ ts) waits v enough =
        let (u, goes, v', same, more, _) =
          take-Advances ops w t ts waits v (subst (All (IsQueued ops w.states)) waits v.queued) in
        rw goes (takes-Finishes ops n u u.queued refl v' (omega (arith, same, more)))

    -- After any schedule from the initial state, if workers go on to take the task at the front as
    -- many times as there are futures, no assertion of the sources fails, no task is left queued, and
    -- `get` on every future gives its meaning. The condition is that a function returns a value
    -- exactly if it is not `void`.
    pub takes_finish :
        (schedule : List (Action F)) (i : ℕ)
        → i < length (made [] schedule)
        → (w : World F V E) × (run call result_void
              (schedule ++ takes (length (made [] schedule)))
              init
            ≡ some w)
          × (w.queued ≡ [])
          × (get w i ≡ some (got (denote call (made [] schedule) i)))
    unfolding Finishes
    takes_finish schedule i b =
        let ops = made [] schedule in
        let (u, starts, v) =
          run-Goes call result_void typed schedule [] init (init-Inv call result_void) in
        let (w, ends, idle, v') =
          takes-Finishes ops (length ops) u u.queued refl v (omega (arith, v.size)) in
        let below : i < w.next = omega (arith, v'.size) in
        (
          w,
          run-append call result_void schedule (takes (length ops)) init u starts ∙ ends,
          idle,
          elim (get_cases call result_void ops w i v' below) [
            | inl (waiting, looks) ↦
                cc (idle_ready call result_void ops w v' idle (i + 1) i (omega arith) below)
            | inr (ready, looks) ↦ looks
          ],
        )
