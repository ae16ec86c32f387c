-- ===== src/Core/Schedule/Turns.antt =====
-- In a fair schedule that comes after a hard shutdown was asked for, every worker leaves.
use mini_rts.Base.{
  ℕ, zero, suc, ◌+◌, ◌-◌, ◌<◌, ◌≤◌, ◌≡◌, refl, ap, subst, ◌∙◌, Bool, true, false, inl, inr, List,
  [], arith, lt→ltb, ◌==◌, Bool-cases, if◌then◌else◌,
}
use mini_rts.Core.Queues.{Deque, Spsc}
use mini_rts.Core.Worker.{Submit, Pc, exited}
use mini_rts.Core.Pool.{Pool}
use mini_rts.Core.Thread.{worker_step}
use mini_rts.Core.Schedule.{Action, work, act}
use mini_rts.Core.Schedule
use mini_rts.Core.Schedule.Tame.{started}
use mini_rts.Core.Schedule.Fair.{
  turn_of, IsFair, first_time, at_time, Keep, act-Keep, SamePlace, act-SamePlace,
}
use mini_rts.Core.Schedule.Round.{round-Ends}

module _ {T : Type 0} (d : Deque T) (s : Spsc T) (n : ℕ) (p : Pool d s n) (future : ℕ → Action T)
    (fair : IsFair n future) (kept : Keep d s n p) where
  abbrev x : ℕ → Pool d s n
  x = at_time d s n p future

  pub time-Keep : (k : ℕ) → Keep d s n (x k)
  time-Keep zero = kept
  time-Keep (suc k) = act-Keep d s n (x k) (future k) (fair.tame k) (time-Keep k)

  -- A worker stays where it is until its turn comes.
  stays :
      (i k gap : ℕ)
      → ((j : ℕ) → k ≤ j → j < k + gap → turn_of i (future j) ≡ false)
      → SamePlace d s n i (x k) (x (k + gap))
  stays i k zero none_yet =
      let same : k ≡ k + 0 = omega arith in
      subst (λ j. SamePlace d s n i (x k) (x j)) same (refl, refl)
  stays i k (suc gap) none_yet =
      let (pc, queue) = stays i k gap (λ j a b. none_yet j a (omega arith)) in
      let (pc', queue') =
        act-SamePlace d s n i (x (k + gap)) (future (k + gap)) (time-Keep (k + gap))
          (none_yet (k + gap) (omega arith) (omega arith)) in
      let same : suc (k + gap) ≡ k + suc gap = omega arith in
      subst (λ j. SamePlace d s n i (x k) (x j)) same (pc' ∙ pc, queue' ∙ queue)

  module _ (i : ℕ) (inside : i < n) where
    -- The next turn of the worker.
    step-of :
        (q : Pool d s n) (a : Action T)
        → turn_of i a ≡ true
        → (raced : Bool) × (does : List (Submit T)) × ((act d s n q a).0
            ≡ (worker_step d s n q i raced does (q.workers i) (q.workers i).pc).0)
    unfolding act
    step-of q (work j raced does) mine =
        let same : i ≡ j = ground arith in
        let goes : (act d s n q (work i raced does)).0
            ≡ (worker_step d s n q i raced does (q.workers i) (q.workers i).pc).0 =
          ap
            (λ yes.
              (if yes
                then worker_step d s n q i raced does (q.workers i) (q.workers i).pc
                else (q, [])).0)
            (lt→ltb i n inside) in
        (
          raced,
          does,
          subst
              (λ j'.
                (act d s n q (work j' raced does)).0
                ≡ (worker_step d s n q i raced does (q.workers i) (q.workers i).pc).0)
              same goes,
        )
    step-of q Schedule.launch mine = cc
    step-of q (Schedule.submit t) mine = cc
    step-of q (Schedule.finalize m) mine = cc
    step-of q Schedule.join mine = cc
    step-of q Schedule.destroy mine = cc

    -- From whatever time the pool is this one, the worker leaves.
    abbrev Leaves : Pool d s n → Type 0
    Leaves u = (k : ℕ) → x k ≡ u → (m : ℕ) × (k ≤ m) × (((x m).workers i).pc ≡ exited)

    after :
        (u : Pool d s n) (pc : Pc T)
        → (u.workers i).pc ≡ pc
        → Keep d s n u
        → ((y q : Pool d s n) (raced : Bool) (does : List (Submit T))
            → SamePlace d s n i u y
            → Keep d s n y
            → (y.workers i).pc ≡ pc
            → q ≡ (worker_step d s n y i raced does (y.workers i) pc).0
            → Keep d s n q
            → Leaves q)
        → Leaves u
    after u pc at keep next k here =
        let (late, le, mine) = fair.turns i k inside in
        let (m, le', now, before) =
          first_time (λ j. turn_of i (future j)) (late - k) k
            (ap (λ j. turn_of i (future j)) (omega (arith, le)) ∙ mine) in
        let gap : k + (m - k) ≡ m = omega (arith, le') in
        let same : SamePlace d s n i u (x m) =
          subst (λ v. SamePlace d s n i v (x m)) here
            (subst (λ j. SamePlace d s n i (x k) (x j)) gap
              (stays i k (m - k) (λ j a b. before j a (omega (arith, b, gap))))) in
        let (raced, does, steps) = step-of (x m) (future m) now in
        let at' = same.0 ∙ at in
        let (m', far, gone) =
          next (x m) (x (suc m)) raced does same (time-Keep m) at'
            (steps ∙ ap (λ c. (worker_step d s n (x m) i raced does ((x m).workers i) c).0) at')
            (time-Keep (suc m)) (suc m) refl in
        (m', omega (arith, far, le'), gone)

    leaves : started n p.phase ≡ n → (m : ℕ) × (((x m).workers i).pc ≡ exited)
    leaves all_begun =
        let (m, _, gone) =
          round-Ends d s n i Leaves
            (λ u gone k here.
              (k, omega arith, ap (λ (v : Pool d s n). (v.workers i).pc) here ∙ gone))
            after (p.workers i).pc p kept (kept.tame.begun i (omega (arith, inside, all_begun)))
            refl 0 refl in
        (m, gone)

    -- It stays away after that.
    gone-on : (k gap : ℕ) → ((x k).workers i).pc ≡ exited → ((x (k + gap)).workers i).pc ≡ exited
    unfolding worker_step
    gone-on k zero gone =
        let same : k ≡ k + 0 = omega arith in subst (λ j. ((x j).workers i).pc ≡ exited) same gone
    gone-on k (suc gap) gone =
        let before = gone-on k gap gone in
        let q = x (k + gap) in
        let next : ((x (suc (k + gap))).workers i).pc ≡ exited =
          elim (Bool-cases (turn_of i (future (k + gap)))) [
            | inl mine ↦
                let (raced, does, steps) = step-of q (future (k + gap)) mine in
                let still = ap (λ c. (worker_step d s n q i raced does (q.workers i) c).0) before in
                ap (λ (u : Pool d s n). (u.workers i).pc) (steps ∙ still) ∙ before
            | inr other ↦
                (act-SamePlace d s n i q (future (k + gap)) (time-Keep (k + gap)) other).0 ∙ before
          ] in
        let time : suc (k + gap) ≡ k + suc gap = omega arith in
        subst (λ j. ((x j).workers i).pc ≡ exited) time next

  -- At some time all have left.
  pub all_leave :
      (count : ℕ)
      → count ≤ n
      → started n p.phase ≡ n
      → (m : ℕ) × ((j g : ℕ) → j < count → ((x (m + g)).workers j).pc ≡ exited)
  all_leave zero le all_begun = (0, λ j g b. absurd (omega arith))
  all_leave (suc count) le all_begun =
      let below : count < n = omega arith in
      let (m, gone) = all_leave count (omega arith) all_begun in
      let (m', left) = leaves count below all_begun in
      (
        m + m',
        λ j g b. elim (Bool-cases (j == count)) [
          | inl here ↦
              let same : count ≡ j = ground arith in
              let late = gone-on count below m' (m + g) left in
              let time : m' + (m + g) ≡ m + m' + g = omega arith in
              subst (λ j'. ((x (m + m' + g)).workers j').pc ≡ exited) same
                (subst (λ t. ((x t).workers count).pc ≡ exited) time late)
          | inr other ↦
              let time : m + (m' + g) ≡ m + m' + g = omega arith in
              subst (λ t. ((x t).workers j).pc ≡ exited) time (gone j (m' + g) (ground arith))
        ],
      )
