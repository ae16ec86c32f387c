-- ===== src/Async/Program/Determined.antt =====
-- What the futures of a program come to: the same in every interleaving of the main thread and the
-- workers.
use mini_rts.Base.{
  ℕ, zero, suc, ◌+◌, ◌<◌, ◌≡◌, ◌⊎◌, refl, ap, sym, subst, ◌∙◌, Option, some, Bool, true, false,
  List, [], ◌∷◌, length, weigh, All, ◌==◌, arith, Bool-cases, Option-cases, inl, inr,
}
use mini_rts.Base.Family.{total, total-eq-zero}
use mini_rts.Async.State.{Outcome, Closure, spawned, continuation, World, init}
use mini_rts.Async.Promise.{waits, got, get, stored}
use mini_rts.Async.Program.{Op, thens, Action, made, run, denote}
use mini_rts.Async.Program.Meaning.{op_at, thens-lt}
use mini_rts.Async.Program.Running.{IsTyped}
use mini_rts.Async.Program.Steps.{run-Goes, init-Inv}
use mini_rts.Async.Program.Invariant.{aims, is_ready, kept, IsRegistered, Inv}

module _ {F V E : Type 0} (call : F → Option V → Outcome V E) (result_void : F → Bool) where
  aims-zero :
      (ops : List (Op F)) (i j : ℕ)
      → ((f : F) → ¬ (op_at ops i ≡ some (thens j f)))
      → (cs : List (Closure F)) → All (IsRegistered ops j) cs
      → weigh (aims i) cs ≡ 0
  aims-zero ops i j never [] g = refl
  aims-zero ops i j never (spawned f p ∷ cs) (bad, g) = absurd bad
  aims-zero ops i j never (continuation s f p ∷ cs) ((at, same), g) = elim (Bool-cases (p == i)) [
    | inl here ↦
        let here' : p ≡ i = ground arith in
        absurd (never f (ap (op_at ops) (sym here') ∙ at ∙ ap (λ k. some (thens k f)) same))
    | inr other ↦ ground (arith, aims-zero ops i j never cs g)
  ]

  pub get_cases :
      (ops : List (Op F)) (w : World F V E) (i : ℕ)
      → Inv call result_void ops (λ _. 0) w
      → i < w.next
      → ((is_ready w.states i ≡ false) × (get w i ≡ some waits))
        ⊎ ((is_ready w.states i ≡ true) × (get w i ≡ some (got (denote call ops i))))
  unfolding get
  get_cases ops w i v b = elim (Bool-cases (is_ready w.states i)) [
    | inl ready ↦
        let means : stored (w.states i) ≡ denote call ops i = v.right i b ready in
        inr (
          ready,
          elim (Option-cases (w.states i).exception) [
            | inl fine ↦
                rw (ready, fine, v.filled i ready fine) (ap (λ o. some (got o)) (rw fine at means))
            | inr (e, failed) ↦ rw (ready, failed) (ap (λ o. some (got o)) (rw failed at means))
          ],
        )
    | inr open_still ↦ inl (open_still, rw open_still)
  ]

  -- With no task left, every future is ready: it could only wait for an older one.
  pub idle_ready :
      (ops : List (Op F)) (w : World F V E)
      → Inv call result_void ops (λ _. 0) w
      → w.queued ≡ []
      → (n i : ℕ) → i < n
      → i < w.next
      → is_ready w.states i ≡ true
  idle_ready ops w v idle zero i l b = absurd (omega arith)
  idle_ready ops w v idle (suc n) i l b = elim (Bool-cases (is_ready w.states i)) [
    | inl ready ↦ ready
    | inr waiting ↦
        let none_kept : total (kept i) w.next w.states ≡ 0 =
          total-eq-zero (kept i) w.next w.states λ j below.
            elim (Bool-cases (is_ready w.states j)) [
              | inl done ↦ ground arith
              | inr open_still ↦
                  let never : (f : F) → ¬ (op_at ops i ≡ some (thens j f)) = λ f at. cc (
                    open_still,
                    idle_ready ops w v idle n j (omega (arith, thens-lt ops i j f v.program at))
                        below,
                  ) in
                  ground (
                    arith,
                    aims-zero ops i j never (w.states j).continuations
                        (v.registered j below open_still),
                  )
            ] in
        absurd (ground (arith, v.once i b, none_kept, idle))
  ]

  -- Under any schedule of the main thread's operations and the workers' tasks, from the initial state,
  -- no assertion of the sources fails, there is one future for each operation that was carried out, and
  -- `get` on any of them either still waits or gives the meaning of the future, in which the
  -- interleaving with the workers has no part. The condition is that a function returns a value
  -- exactly if it is not `void`.
  pub futures_determined :
      IsTyped call result_void
      → (schedule : List (Action F)) (i : ℕ) → i < length (made [] schedule)
      → (w : World F V E) × (run call result_void schedule init ≡ some w)
        × (w.next ≡ length (made [] schedule))
        × ((get w i ≡ some waits) ⊎ (get w i ≡ some (got (denote call (made [] schedule) i))))
  futures_determined typed schedule i b =
      let (w, e, v) =
        run-Goes call result_void typed schedule [] init (init-Inv call result_void) in
      let below : i < w.next = omega (arith, v.size) in
      (
        w,
        e,
        v.size,
        elim (get_cases (made [] schedule) w i v below) [
          | inl (open_still, looks) ↦ inl looks
          | inr (ready, looks) ↦ inr looks
        ],
      )

  -- After any schedule from the initial state that leaves no task queued, `get` on every future that
  -- was made gives the meaning of the future, and does not wait. The condition is that a function
  -- returns a value exactly if it is not `void`.
  pub idle_get :
      IsTyped call result_void
      → (schedule : List (Action F)) (w : World F V E) → run call result_void schedule init ≡ some w
      → w.queued ≡ []
      → (i : ℕ) → i < w.next
      → get w i ≡ some (got (denote call (made [] schedule) i))
  idle_get typed schedule w e idle i b =
      let (u, e', v) =
        run-Goes call result_void typed schedule [] init (init-Inv call result_void) in
      let same : u ≡ w = cc in
      let v' = subst (λ x. Inv call result_void (made [] schedule) (λ _. 0) x) same v in
      elim (get_cases (made [] schedule) w i v' b) [
        | inl (waiting, looks) ↦
            cc (idle_ready (made [] schedule) w v' idle (i + 1) i (omega arith) b)
        | inr (ready, looks) ↦ looks
      ]
