-- ===== src/Core/Schedule/Cycle.antt =====
-- One schedule that is fair: the workers and the owner have their turn one after the other, and the tasks
-- that are called submit nothing.
use mini_rts.Base.{
  ℕ, ◌+◌, ◌*◌, ◌%◌, ◌≤◌, ◌≡◌, ap, ◌∙◌, false, [], arith, ◌==◌, if◌then◌else◌, if_cases,
}
use native.Mathlib.Nat.{mul-add-mod_self_left, mul-le-mul_right, mod-eq_of_lt}
use mini_rts.Core.Schedule.{Action, work, join}
use mini_rts.Core.Schedule.Tame.{IsTame}
use mini_rts.Core.Schedule.Fair.{turn_of, is_join, IsFair}

module _ (T : Type 0) (n : ℕ) where
  abbrev in_turn : ℕ → Action T
  in_turn r = if r == n then join else work r false []

  -- The owner comes after the last worker.
  unfoldable pub cycle : ℕ → Action T
  cycle k = in_turn (k % (n + 1))

  cycle-IsTame : (k : ℕ) → IsTame (cycle k)
  unfolding cycle
  cycle-IsTame k = if_cases IsTame (k % (n + 1) == n) join _ (λ _. tt) (λ _. tt)

  -- In each round of the cycle there is one turn for each.
  cycle-at : (k r : ℕ) → r ≤ n → cycle ((n + 1) * k + r) ≡ in_turn r
  unfolding cycle
  cycle-at k r le =
      let small : r % (n + 1) ≡ r = mod-eq_of_lt (omega (arith, le)) in
      ap in_turn (mul-add-mod_self_left (n + 1) k r ∙ small)

  far : (k r : ℕ) → k ≤ (n + 1) * k + r
  far k r = let one : 1 ≤ n + 1 = omega arith in omega (arith, mul-le-mul_right k one)

  pub cycle-IsFair : IsFair n cycle
  cycle-IsFair = record {
    tame = cycle-IsTame;
    turns = λ i k below. (
      (n + 1) * k + i,
      far k i,
      ap (turn_of i) (cycle-at k i (omega (arith, below))) ∙ ground (arith, below),
    );
    joins = λ k. ((n + 1) * k + n, far k n, ap is_join (cycle-at k n (omega arith)) ∙ ground arith);
  }
