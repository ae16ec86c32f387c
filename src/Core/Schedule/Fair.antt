-- ===== src/Core/Schedule/Fair.antt =====
-- Schedules without an end, in which the worker threads and the owner get their turn again and again.
use mini_rts.Base.{
  ℕ, zero, suc, ◌+◌, ◌<◌, ◌≤◌, ◌≡◌, ◌≢◌, refl, sym, ap, subst, ◌∙◌, Bool, true, false, inl, inr,
  List, arith, ltb, ◌==◌, if_cases, Bool-cases,
}
use mini_rts.Core.Queues.{Deque, Spsc}
use mini_rts.Core.Worker.{Submit, Pc}
use mini_rts.Core.Pool.{Pool, Phase, launching, serving, launch_step, submit_step}
use mini_rts.Core.Pool.Owner.{SameWorkers, finalize_step-keeps, join_step-keeps, destroy_step-keeps}
use mini_rts.Core.Thread.{Event}
use mini_rts.Core.Thread.Moves
use mini_rts.Core.Thread.Moves.{Move, worker_step-Move}
use mini_rts.Core.Schedule.{Action, work, join, act}
use mini_rts.Core.Schedule
use mini_rts.Core.Schedule.Bounds.{Bounds, act-Bounds}
use mini_rts.Core.Schedule.Draining.{HasLocal}
use mini_rts.Core.Schedule.Hard.{act-Pays}
use mini_rts.Core.Schedule.Stopping.{is_open}
use mini_rts.Core.Schedule.Tame.{Tame, IsTame, act-Tame}

abbrev pub turn_of : {T : Type 0} → ℕ → Action T → Bool
turn_of i (work j raced does) = j == i
turn_of i _ = false

abbrev pub is_join : {T : Type 0} → Action T → Bool
is_join join = true
is_join _ = false

-- Whatever has happened, each worker has another turn, and the owner goes on with its loop.
pub record IsFair {T : Type 0} (num_threads : ℕ) (future : ℕ → Action T) : Type 0 where
  pub tame : (k : ℕ) → IsTame (future k)
  pub turns : (i k : ℕ) → i < num_threads → (m : ℕ) × (k ≤ m) × (turn_of i (future m) ≡ true)
  pub joins : (k : ℕ) → (m : ℕ) × (k ≤ m) × (is_join (future m) ≡ true)

-- The first time from `k` on at which a test succeeds, that does by `k + gap`.
pub first_time :
    (test : ℕ → Bool) (gap k : ℕ)
    → test (k + gap) ≡ true
    → (m : ℕ) × (k ≤ m) × (test m ≡ true) × ((j : ℕ) → k ≤ j → j < m → test j ≡ false)
first_time test zero k now =
    (k, omega arith, ap test (omega arith) ∙ now, λ j a b. absurd (omega arith))
first_time test (suc gap) k later = elim (Bool-cases (test k)) [
  | inl now ↦ (k, omega arith, now, λ j a b. absurd (omega arith))
  | inr not_yet ↦
      let (m, le, hit, before) = first_time test gap (k + 1) (ap test (omega arith) ∙ later) in
      (m, omega (arith, le), hit, λ j a b. ground (arith, before j))
]

module _ {T : Type 0} (d : Deque T) (s : Spsc T) (n : ℕ) where
  -- The pool after so many actions.
  abbrev pub at_time : Pool d s n → (ℕ → Action T) → ℕ → Pool d s n
  at_time p future zero = p
  at_time p future (suc k) = (act d s n (at_time p future k) (future k)).0

  -- A hard shutdown of a pool whose tasks submit locally.
  pub record Keep (p : Pool d s n) : Type 0 where
    pub bounds : Bounds d s n p
    pub tame : Tame d s n p
    pub hard : p.stop_flag ≡ 1
    pub closed : is_open p.phase ≡ false

  pub act-Keep : (p : Pool d s n) (a : Action T) → IsTame a → Keep p → Keep (act d s n p a).0
  act-Keep p a t k =
      let ((flag, shut), _) = act-Pays d s n p a k.bounds (k.hard, k.closed) in
      record {
        bounds = act-Bounds d s n p a k.bounds;
        tame = act-Tame d s n p a t k.bounds k.tame;
        hard = flag;
        closed = shut;
      }

  -- The place of a worker and the queue that the pool fills are those they were.
  abbrev pub SamePlace : ℕ → Pool d s n → Pool d s n → Type 0
  SamePlace i p q =
      ((q.workers i).pc ≡ (p.workers i).pc) × ((q.workers i).spscq ≡ (p.workers i).spscq)

  Move-SamePlace :
      {p : Pool d s n} {j : ℕ} {does : List (Submit T)} {pc : Pc T}
      {r : Pool d s n × List (Event T)}
      → Move d s n p j does pc r
      → (p.workers j).pc ≡ pc
      → HasLocal (p.workers j).pc
      → (i : ℕ) → i ≢ j
      → SamePlace i p r.0
  Move-SamePlace Moves.stay at ls i other = (refl, refl)
  Move-SamePlace (Moves.sends {t} {x} q e) at ls i other = absurd (subst HasLocal at ls).0
  Move-SamePlace mv at ls i other = (ground arith, ground arith)

  launch_step-closed :
      (p : Pool d s n) (ph : Phase) → is_open ph ≡ false → launch_step d s n p ph ≡ p
  unfolding launch_step
  launch_step-closed p (launching k) shut = cc
  launch_step-closed p _ shut = refl

  submit_step-closed :
      (p : Pool d s n) (x : T) (ph : Phase) → is_open ph ≡ false → (submit_step d s n p x ph).0 ≡ p
  unfolding submit_step
  submit_step-closed p x serving shut = cc
  submit_step-closed p x _ shut = refl

  SameWorkers-SamePlace : (i : ℕ) (p q : Pool d s n) → SameWorkers d s n p q → SamePlace i p q
  SameWorkers-SamePlace i p q same =
      (ap (λ f. (f i).pc) (sym same.workers), ap (λ f. (f i).spscq) (sym same.workers))

  equal-SamePlace : (i : ℕ) (p q : Pool d s n) → q ≡ p → SamePlace i p q
  equal-SamePlace i p q same = (
    ap (λ (u : Pool d s n). (u.workers i).pc) same,
    ap (λ (u : Pool d s n). (u.workers i).spscq) same,
  )

  -- What is not a worker's turn leaves it where it is.
  pub act-SamePlace :
      (i : ℕ) (p : Pool d s n) (a : Action T)
      → Keep p
      → turn_of i a ≡ false
      → SamePlace i p (act d s n p a).0
  unfolding act
  act-SamePlace i p (work j raced does) k other =
      if_cases (λ (r : Pool d s n × List (Event T)). SamePlace i p r.0) (ltb j n) _ _
        (λ inside.
          Move-SamePlace
            (worker_step-Move d s n p j raced does (p.workers j).pc (k.bounds.victims j)) refl
            (k.tame.locals j) i (ground arith))
        (λ _. (refl, refl))
  act-SamePlace i p Schedule.launch k other =
      equal-SamePlace i p _ (launch_step-closed p p.phase k.closed)
  act-SamePlace i p (Schedule.submit x) k other =
      equal-SamePlace i p _ (submit_step-closed p x p.phase k.closed)
  act-SamePlace i p (Schedule.finalize m) k other =
      SameWorkers-SamePlace i p _ (finalize_step-keeps d s n p m p.phase)
  act-SamePlace i p Schedule.join k other =
      SameWorkers-SamePlace i p _ (join_step-keeps d s n p p.phase)
  act-SamePlace i p Schedule.destroy k other =
      SameWorkers-SamePlace i p _ (destroy_step-keeps d s n p p.phase)
