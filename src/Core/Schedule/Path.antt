-- ===== src/Core/Schedule/Path.antt =====
-- Schedules put together, and single actions of a pool.
use mini_rts.Base.{
  ℕ, ◌≡◌, ◌⊎◌, refl, Bool, true, false, List, [], ◌∷◌, ◌++◌, is_nil, arith, inl, inr, ltb,
  Bool-cases,
}
use mini_rts.Core.Queues.{Deque, Spsc}
use mini_rts.Core.Worker.{Submit, Pc, called, running}
use mini_rts.Core.Pool.{Pool, goto, submit_step}
use mini_rts.Core.Thread.{worker_step}
use mini_rts.Core.Schedule
use mini_rts.Core.Schedule.Owing.{is_called}
use mini_rts.Core.Schedule.Weights.{weigh_submitted}

module _ {T : Type 0} (d : Deque T) (s : Spsc T) (n : ℕ) (p : Pool d s n) where
  pub run-append :
      (a b : List (Schedule.Action T)) (q : Pool d s n)
      → (Schedule.run d s n q (a ++ b)).0 ≡ (Schedule.run d s n (Schedule.run d s n q a).0 b).0
  unfolding Schedule.run
  run-append [] b q = refl
  run-append (x ∷ a) b q = run-append a b (Schedule.act d s n q x).0

  pub run_one :
      (a : Schedule.Action T) → (Schedule.act d s n p a).0 ≡ (Schedule.run d s n p (a ∷ [])).0
  unfolding Schedule.run
  run_one a = refl

  pub run_nil : p ≡ (Schedule.run d s n p []).0
  unfolding Schedule.run
  run_nil = refl

  pub is_called_cases : (pc : Pc T) → (is_called pc ≡ false) ⊎ ((t : T) × (pc ≡ called t))
  is_called_cases (called t) = inr (t, refl)
  is_called_cases _ = inl refl

  pub act-called :
      (i : ℕ) (raced : Bool) (does : List (Submit T)) (t : T)
      → ltb i n ≡ true
      → (p.workers i).pc ≡ called t
      → (Schedule.act d s n p (Schedule.work i raced does)).0 ≡ goto d s n p i (running t does)
  unfolding Schedule.act worker_step
  act-called i raced does t inside at = rw (inside, at)

  -- A submission that succeeds shows its task.
  pub submit-shown :
      (w : T → ℕ) (x : T)
      → is_nil (Schedule.act d s n p (Schedule.submit x)).1 ≡ false
      → weigh_submitted w (Schedule.act d s n p (Schedule.submit x)).1 ≡ w x
  unfolding Schedule.act
  submit-shown w x shows = elim (Bool-cases (submit_step d s n p x p.phase).1) [
    | inl done ↦ rw done (omega arith)
    | inr full ↦ let bad : is_nil (Schedule.shown x false) ≡ false = rw full at shows in cc
  ]
