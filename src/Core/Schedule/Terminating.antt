-- ===== src/Core/Schedule/Terminating.antt =====
-- After a hard shutdown was asked for, the owner's loop ends in every fair schedule.
use mini_rts.Base.{
  ℕ, zero, suc, ◌+◌, ◌-◌, ◌<◌, ◌≤◌, ◌≡◌, ◌⊎◌, refl, ap, subst, ◌∙◌, true, false, inl, inr, List,
  All, arith, ◌==◌, Bool-cases,
}
use mini_rts.Core.Constants.{hard_shutdown}
use mini_rts.Core.Queues.{Deque, Spsc}
use mini_rts.Core.Worker.{exited}
use mini_rts.Core.Pool.{Pool, Phase, serving, joining, joined, construct_pool, finalize_step}
use mini_rts.Core.Schedule.{Action, finalize, join, act, run}
use mini_rts.Core.Schedule.Bounds.{act-Bounds, run-Bounds, construct_pool-Bounds}
use mini_rts.Core.Schedule.Stopping.{is_open}
use mini_rts.Core.Schedule.Tame.{IsTame, started, construct_pool-Tame, act-Tame, run-Tame}
use mini_rts.Core.Schedule.Fair.{is_join, IsFair, first_time, at_time, Keep}
use mini_rts.Core.Schedule.Turns.{time-Keep, all_leave}
use mini_rts.Core.Schedule.Waiting.{Loop, joining-Loop}

module _ {T : Type 0} (d : Deque T) (s : Spsc T) (n : ℕ) {place : ℕ → Phase} {final : Phase}
    (loop : Loop d s n place final) (p : Pool d s n) (future : ℕ → Action T)
    (fair : IsFair n future) (kept : Keep d s n p) (at : p.phase ≡ place 0) where
  abbrev x : ℕ → Pool d s n
  x = at_time d s n p future

  is_join-lem : (a : Action T) → is_join a ≡ true → a ≡ join
  is_join-lem join e = refl
  is_join-lem _ e = cc

  -- The loop has ended, or is at one of the workers.
  abbrev Within : ℕ → Type 0
  Within g = ((t : ℕ) × ((x t).phase ≡ final)) ⊎ ((k : ℕ) × (k ≤ n) × ((x g).phase ≡ place k))

  joins-Within : (g k : ℕ) → k ≤ n → (x g).phase ≡ place k → future g ≡ join → Within (suc g)
  joins-Within g k le here now = elim (Bool-cases (k == n)) [
    | inl last ↦
        let same : k ≡ n = ground arith in
        inl (
          suc g,
          ap (λ a. (act d s n (x g) a).0.phase) now ∙ loop.last (x g) (here ∙ ap place same),
        )
    | inr more ↦ elim (loop.tries (x g) k here (ground arith)) [
      | inl still ↦ inr (k, le, ap (λ a. (act d s n (x g) a).0.phase) now ∙ still)
      | inr next ↦ inr (k + 1, ground arith, ap (λ a. (act d s n (x g) a).0.phase) now ∙ next)
    ]
  ]

  progress : (g : ℕ) → Within g
  progress zero = inr (0, omega arith, at)
  progress (suc g) = elim (progress g) [
    | inl ended ↦ inl ended
    | inr (k, le, here) ↦ elim (Bool-cases (is_join (future g))) [
      | inl now ↦ joins-Within g k le here (is_join-lem (future g) now)
      | inr other ↦
          inr
            (k, le, loop.waits (x g) (future g) k other (time-Keep d s n p future fair kept g) here)
    ]
  ]

  holds :
      (g k gap : ℕ)
      → (x g).phase ≡ place k
      → ((j : ℕ) → g ≤ j → j < g + gap → is_join (future j) ≡ false)
      → (x (g + gap)).phase ≡ place k
  holds g k zero here none_yet =
      let same : g ≡ g + 0 = omega arith in subst (λ j. (x j).phase ≡ place k) same here
  holds g k (suc gap) here none_yet =
      let before = holds g k gap here (λ j a b. none_yet j a (omega arith)) in
      let time : suc (g + gap) ≡ g + suc gap = omega arith in
      subst (λ j. (x j).phase ≡ place k) time
        (loop.waits (x (g + gap)) (future (g + gap)) k
          (none_yet (g + gap) (omega arith) (omega arith))
          (time-Keep d s n p future fair kept (g + gap)) before)

  -- The owner's next turn.
  next_join :
      (g k : ℕ)
      → (x g).phase ≡ place k
      → (m : ℕ) × (g ≤ m) × (future m ≡ join) × ((x m).phase ≡ place k)
  next_join g k here =
      let (late, le, it_is) = fair.joins g in
      let (m, le', now, before) =
        first_time (λ j. is_join (future j)) (late - g) g
          (ap (λ j. is_join (future j)) (omega (arith, le)) ∙ it_is) in
      let gap : g + (m - g) ≡ m = omega (arith, le') in
      (
        m,
        le',
        is_join-lem (future m) now,
        subst (λ j. (x j).phase ≡ place k) gap
            (holds g k (m - g) here (λ j a b. before j a (omega (arith, b, gap)))),
      )

  finish :
      (rounds g k : ℕ)
      → k + rounds ≡ n
      → (x g).phase ≡ place k
      → ((j h : ℕ) → j < n → g ≤ h → ((x h).workers j).pc ≡ exited)
      → (t : ℕ) × ((x t).phase ≡ final)
  finish zero g k all here gone =
      let (m, le, now, there) = next_join g k here in
      let same : k ≡ n = omega (arith, all) in
      (suc m, ap (λ a. (act d s n (x m) a).0.phase) now ∙ loop.last (x m) (there ∙ ap place same))
  finish (suc rounds) g k all here gone =
      let (m, le, now, there) = next_join g k here in
      let below : k < n = omega (arith, all) in
      finish rounds (suc m) (k + 1) (omega (arith, all))
        (ap (λ a. (act d s n (x m) a).0.phase) now
          ∙ loop.next (x m) k there below (gone k m below le))
        (λ j h b le'. gone j h b (omega (arith, le, le')))

  pub loop_ends : (t : ℕ) × ((x t).phase ≡ final)
  loop_ends =
      let (g, gone) =
        all_leave d s n p future fair kept n (omega arith) (ap (started n) at ∙ loop.begun 0) in
      elim (progress g) [
        | inl ended ↦ ended
        | inr (k, le, here) ↦ finish (n - k) g k (omega (arith, le)) here (λ j h b le'.
            let time : g + (h - g) ≡ h = omega (arith, le') in
            subst (λ t. ((x t).workers j).pc ≡ exited) time (gone j (h - g) b))
      ]

module _ {T : Type 0} (d : Deque T) (s : Spsc T) (n : ℕ) where
  pub finalize-asks :
      (p : Pool d s n)
      → p.phase ≡ serving
      → ((act d s n p (finalize hard_shutdown)).0.stop_flag ≡ 1)
        × ((act d s n p (finalize hard_shutdown)).0.phase ≡ joining 0)
  unfolding act finalize_step
  finalize-asks p at =
      let same = ap (finalize_step d s n p hard_shutdown) at in
      (ap (λ (q : Pool d s n). q.stop_flag) same, ap (λ (q : Pool d s n). q.phase) same)

  -- What holds once the owner has asked for a hard shutdown.
  pub asked-Keep :
      (queue_capacity : ℕ) (schedule : List (Action T)) (a : Action T)
      → 0 < n
      → All IsTame schedule
      → IsTame a
      → (act d s n (run d s n (construct_pool d s n queue_capacity) schedule).0 a).0.stop_flag ≡ 1
      → is_open (act d s n (run d s n (construct_pool d s n queue_capacity) schedule).0 a).0.phase
        ≡ false
      → Keep d s n (act d s n (run d s n (construct_pool d s n queue_capacity) schedule).0 a).0
  asked-Keep c schedule a positive tame tame_too flag shut =
      let start = construct_pool d s n c in
      let p = (run d s n start schedule).0 in
      let b = run-Bounds d s n start schedule (construct_pool-Bounds d s n c positive) in
      let g =
        run-Tame d s n start schedule tame (construct_pool-Bounds d s n c positive)
          (construct_pool-Tame d s n c) in
      record {
        bounds = act-Bounds d s n p a b;
        tame = act-Tame d s n p a tame_too b g;
        hard = flag;
        closed = shut;
      }

  -- From any schedule of a pool with at least one thread, in which tasks submit only locally and which
  -- leaves the pool serving, a hard shutdown comes to its end: in every schedule without an end that
  -- follows, in which tasks submit only locally and every worker and the owner have their turn again
  -- and again, `finalize` has returned at some time.
  pub hard_shutdown_terminates :
      (queue_capacity : ℕ) (schedule : List (Action T)) (future : ℕ → Action T)
      → 0 < n
      → All IsTame schedule
      → (run d s n (construct_pool d s n queue_capacity) schedule).0.phase ≡ serving
      → IsFair n future
      → (t : ℕ) × ((at_time d s n
            (act d s n
              (run d s n (construct_pool d s n queue_capacity) schedule).0
              (finalize hard_shutdown)).0
            future
            t).phase
          ≡ joined)
  hard_shutdown_terminates c schedule future positive tame at fair =
      let p = (run d s n (construct_pool d s n c) schedule).0 in
      let (flag, phase) = finalize-asks p at in
      loop_ends d s n (joining-Loop d s n) (act d s n p (finalize hard_shutdown)).0 future fair
        (asked-Keep c schedule (finalize hard_shutdown) positive tame tt flag (ap is_open phase))
        phase
