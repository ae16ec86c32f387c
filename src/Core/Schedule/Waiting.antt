-- ===== src/Core/Schedule/Waiting.antt =====
-- src/core/default_thread_pool.h: the loops of `finalize` and of the destructor that join the workers.
use mini_rts.Base.{
  ℕ, ◌+◌, ◌<◌, ◌≡◌, ◌⊎◌, refl, ◌∙◌, Bool, false, inl, inr, List, arith, ltb, ltb→lt, if_cases,
  Bool-cases,
}
use mini_rts.Core.Queues.{Deque, Spsc}
use mini_rts.Core.Worker.{Submit, exited}
use mini_rts.Core.Pool.{
  Pool, Phase, joining, joined, dying, destroyed, has_exited, launch_step, submit_step,
  finalize_step, join_step, destroy_step,
}
use mini_rts.Core.Thread.{Event}
use mini_rts.Core.Thread.Moves.{worker_step-Move}
use mini_rts.Core.Schedule.{Action, work, join, act}
use mini_rts.Core.Schedule
use mini_rts.Core.Schedule.Hard.{Move-place}
use mini_rts.Core.Schedule.Tame.{started}
use mini_rts.Core.Schedule.Fair.{is_join, Keep}

module _ {T : Type 0} (d : Deque T) (s : Spsc T) (n : ℕ) where
  -- A loop that waits for the workers in turn, and what it comes to.
  pub record Loop (place : ℕ → Phase) (final : Phase) : Type 0 where
    pub begun : (k : ℕ) → started n (place k) ≡ n
    pub last : (p : Pool d s n) → p.phase ≡ place n → (act d s n p join).0.phase ≡ final
    pub next :
        (p : Pool d s n) (k : ℕ)
        → p.phase ≡ place k
        → k < n
        → (p.workers k).pc ≡ exited
        → (act d s n p join).0.phase ≡ place (k + 1)
    pub tries :
        (p : Pool d s n) (k : ℕ)
        → p.phase ≡ place k
        → k < n
        → ((act d s n p join).0.phase ≡ place k) ⊎ ((act d s n p join).0.phase ≡ place (k + 1))
    pub waits :
        (p : Pool d s n) (a : Action T) (k : ℕ)
        → is_join a ≡ false
        → Keep d s n p
        → p.phase ≡ place k
        → (act d s n p a).0.phase ≡ place k

  -- A worker's step leaves the owner where it is.
  work-phase :
      (p : Pool d s n) (i : ℕ) (raced : Bool) (does : List (Submit T))
      → Keep d s n p
      → (act d s n p (work i raced does)).0.phase ≡ p.phase
  unfolding act
  work-phase p i raced does k =
      if_cases (λ (r : Pool d s n × List (Event T)). r.0.phase ≡ p.phase) (ltb i n) _ _
        (λ inside.
          let (_, _, _, same) =
            Move-place d s n (ltb→lt i n inside)
              (worker_step-Move d s n p i raced does (p.workers i).pc (k.bounds.victims i)) refl
              k.hard in
          same)
        (λ _. refl)

  joining-waits :
      (p : Pool d s n) (a : Action T) (k : ℕ)
      → is_join a ≡ false
      → Keep d s n p
      → p.phase ≡ joining k
      → (act d s n p a).0.phase ≡ joining k
  unfolding act launch_step submit_step finalize_step destroy_step
  joining-waits p (work i raced does) k other keep at = work-phase p i raced does keep ∙ at
  joining-waits p Schedule.launch k other keep at = ground (arith, at)
  joining-waits p (Schedule.submit x) k other keep at = ground (arith, at)
  joining-waits p (Schedule.finalize m) k other keep at = ground (arith, at)
  joining-waits p Schedule.join k other keep at = cc
  joining-waits p Schedule.destroy k other keep at = ground (arith, at)

  dying-waits :
      (p : Pool d s n) (a : Action T) (k : ℕ)
      → is_join a ≡ false
      → Keep d s n p
      → p.phase ≡ dying k
      → (act d s n p a).0.phase ≡ dying k
  unfolding act launch_step submit_step finalize_step destroy_step
  dying-waits p (work i raced does) k other keep at = work-phase p i raced does keep ∙ at
  dying-waits p Schedule.launch k other keep at = ground (arith, at)
  dying-waits p (Schedule.submit x) k other keep at = ground (arith, at)
  dying-waits p (Schedule.finalize m) k other keep at = ground (arith, at)
  dying-waits p Schedule.join k other keep at = cc
  dying-waits p Schedule.destroy k other keep at = ground (arith, at)

  pub joining-Loop : Loop joining joined
  unfolding act join_step
  joining-Loop = record {
    begun = λ k. refl;
    last = λ p at. ground (arith, at);
    next = λ p k at below gone. ground (arith, at, gone);
    tries = λ p k at below. elim (Bool-cases (has_exited (p.workers k).pc)) [
      | inl gone ↦ inr (ground (arith, at))
      | inr still ↦ inl (ground (arith, at))
    ];
    waits = joining-waits;
  }

  pub dying-Loop : Loop dying destroyed
  unfolding act join_step
  dying-Loop = record {
    begun = λ k. refl;
    last = λ p at. ground (arith, at);
    next = λ p k at below gone. ground (arith, at, gone);
    tries = λ p k at below. elim (Bool-cases (has_exited (p.workers k).pc)) [
      | inl gone ↦ inr (ground (arith, at))
      | inr still ↦ inl (ground (arith, at))
    ];
    waits = dying-waits;
  }
