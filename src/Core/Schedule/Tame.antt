-- ===== src/Core/Schedule/Tame.antt =====
-- What holds of the places of the workers while tasks submit only to the worker that runs them: what a
-- task has still to submit is local, only a worker of several chooses a victim, and `init` has started
-- the workers that it has come to.
use mini_rts.Base.{
  ℕ, ◌<◌, ◌≤◌, ◌≡◌, refl, sym, ap, subst, ◌∙◌, Bool, true, false, inl, inr, List, [], ◌∷◌, All,
  arith, ltb, ◌==◌, if_cases, Option-cases,
}
use mini_rts.Core.Constants.{ShutdownMode}
use mini_rts.Core.Queues.{Deque, Spsc}
use mini_rts.Core.Worker.{Submit, Pc, unstarted, choose}
use mini_rts.Core.Pool.{
  Pool, Phase, launching, serving, joining, dying, joined, enqueue, construct_pool, launch_step,
  submit_step, finalize_step, join_step, destroy_step,
}
use mini_rts.Core.Pool.Enqueue.{enqueued-worker, enqueue-some}
use mini_rts.Core.Pool.Owner.{SameWorkers, finalize_step-keeps, join_step-keeps, destroy_step-keeps}
use mini_rts.Core.Thread.{Event}
use mini_rts.Core.Thread.Moves
use mini_rts.Core.Thread.Moves.{Move, worker_step-Move}
use mini_rts.Core.Schedule.{Action, work, act, run}
use mini_rts.Core.Schedule
use mini_rts.Core.Schedule.Bounds.{Bounds, act-Bounds}
use mini_rts.Core.Schedule.Draining.{IsLocal, HasLocal}

-- A task that is called submits only locally.
abbrev pub IsTame : {T : Type 0} → Action T → Type 0
IsTame (work i raced does) = All IsLocal does
IsTame _ = Unit

abbrev pub is_unstarted : {T : Type 0} → Pc T → Bool
is_unstarted unstarted = true
is_unstarted _ = false

abbrev pub is_choose : {T : Type 0} → Pc T → Bool
is_choose choose = true
is_choose _ = false

-- The workers that `init` has started.
abbrev pub started : (num_threads : ℕ) → Phase → ℕ
started n (launching i) = i
started n _ = n

module _ {T : Type 0} (d : Deque T) (s : Spsc T) (n : ℕ) where
  pub record Tame (p : Pool d s n) : Type 0 where
    pub locals : (j : ℕ) → HasLocal (p.workers j).pc
    pub thieves : (j : ℕ) → is_choose (p.workers j).pc ≡ true → 2 ≤ n
    pub begun : (j : ℕ) → j < started n p.phase → is_unstarted (p.workers j).pc ≡ false

  pub construct_pool-Tame : (queue_capacity : ℕ) → Tame (construct_pool d s n queue_capacity)
  unfolding construct_pool
  construct_pool-Tame c = record {
    locals = λ j. tt;
    thieves = λ j e. cc;
    begun = λ j b. absurd (omega arith);
  }

  Move-Tame :
      {p : Pool d s n} {i : ℕ} {does : List (Submit T)} {pc : Pc T}
      {r : Pool d s n × List (Event T)}
      → Move d s n p i does pc r
      → (p.workers i).pc ≡ pc
      → All IsLocal does
      → Tame p
      → Tame r.0
  Move-Tame Moves.stay at ls g = g
  Move-Tame {p} {i} (Moves.sends {t} {x} {left} q e) at ls g =
      absurd (subst HasLocal at (g.locals i)).0
  Move-Tame {p} {i} (Moves.starves q e several) at ls g = record {
    locals = λ j. ground (arith, g.locals j);
    thieves = λ j f. several;
    begun = λ j b. ground (arith, g.begun j);
  }
  Move-Tame {p} {i} mv at ls g = record {
    locals = λ j. ground (arith, g.locals j, g.locals i);
    thieves = λ j f. ground (arith, g.thieves j);
    begun = λ j b. ground (arith, g.begun j, g.begun i);
  }

  -- A step that leaves the places of the workers alone, and starts none.
  places-Tame :
      (p q : Pool d s n)
      → ((j : ℕ) → (q.workers j).pc ≡ (p.workers j).pc)
      → ((j : ℕ) → j < started n q.phase → is_unstarted (p.workers j).pc ≡ false)
      → Tame p
      → Tame q
  places-Tame p q at begun g = record {
    locals = λ j. subst HasLocal (sym (at j)) (g.locals j);
    thieves = λ j e. g.thieves j (ap is_choose (sym (at j)) ∙ e);
    begun = λ j b. ap is_unstarted (at j) ∙ begun j b;
  }

  launch_step-Tame :
      (p : Pool d s n) (ph : Phase) → p.phase ≡ ph → Tame p → Tame (launch_step d s n p ph)
  unfolding launch_step
  launch_step-Tame p (launching i) at g =
      if_cases Tame (i == n) _ _
        (λ last.
          places-Tame p (record p { phase = serving }) (λ j. refl) (λ j b. g.begun j (ground arith))
            g)
        (λ more. record {
          locals = λ j. ground (arith, g.locals j);
          thieves = λ j e. ground (arith, g.thieves j);
          begun = λ j b. ground (arith, g.begun j);
        })
  launch_step-Tame p _ at g = g

  submit_step-Tame :
      (p : Pool d s n) (x : T) (ph : Phase) → Tame p → Tame (submit_step d s n p x ph).0
  unfolding submit_step
  submit_step-Tame p x serving g = elim (Option-cases (enqueue d s n p x)) [
    | inl full ↦ rw (full, submit_step) g
    | inr (q, room) ↦
        let (r, _, same) = enqueue-some d s n p x q room in
        rw (room, submit_step)
          (subst Tame (sym same)
            (places-Tame p _ (λ j. (enqueued-worker d s n p x r j).1) g.begun g))
  ]
  submit_step-Tame p x _ g = g

  -- The owner's other steps start no worker either.
  SameWorkers-Tame :
      (p q : Pool d s n)
      → SameWorkers d s n p q
      → started n q.phase ≤ started n p.phase
      → Tame p
      → Tame q
  SameWorkers-Tame p q same le g =
      places-Tame p q (λ j. ap (λ f. (f j).pc) (sym same.workers))
        (λ j b. g.begun j (omega (arith, le, b))) g

  finalize_step-started :
      (p : Pool d s n) (m : ShutdownMode) (ph : Phase)
      → p.phase ≡ ph
      → started n (finalize_step d s n p m ph).phase ≤ started n p.phase
  unfolding finalize_step
  finalize_step-started p m serving at = ground (arith, at)
  finalize_step-started p m _ at = omega arith

  join_step-started :
      (p : Pool d s n) (ph : Phase)
      → p.phase ≡ ph
      → started n (join_step d s n p ph).phase ≤ started n p.phase
  unfolding join_step
  join_step-started p (joining k) at = ground (arith, at)
  join_step-started p (dying k) at = ground (arith, at)
  join_step-started p _ at = omega arith

  destroy_step-started :
      (p : Pool d s n) (ph : Phase)
      → p.phase ≡ ph
      → started n (destroy_step d s n p ph).phase ≤ started n p.phase
  unfolding destroy_step
  destroy_step-started p joined at = ground (arith, at)
  destroy_step-started p serving at = ground (arith, at)
  destroy_step-started p _ at = omega arith

  pub act-Tame :
      (p : Pool d s n) (a : Action T) → IsTame a → Bounds d s n p → Tame p → Tame (act d s n p a).0
  unfolding act
  act-Tame p (work i raced does) ls b g =
      if_cases (λ (r : Pool d s n × List (Event T)). Tame r.0) (ltb i n) _ _
        (λ inside.
          Move-Tame (worker_step-Move d s n p i raced does (p.workers i).pc (b.victims i)) refl ls
            g)
        (λ _. g)
  act-Tame p Schedule.launch ls b g = launch_step-Tame p p.phase refl g
  act-Tame p (Schedule.submit x) ls b g = submit_step-Tame p x p.phase g
  act-Tame p (Schedule.finalize m) ls b g =
      SameWorkers-Tame p _ (finalize_step-keeps d s n p m p.phase)
        (finalize_step-started p m p.phase refl) g
  act-Tame p Schedule.join ls b g =
      SameWorkers-Tame p _ (join_step-keeps d s n p p.phase) (join_step-started p p.phase refl) g
  act-Tame p Schedule.destroy ls b g =
      SameWorkers-Tame p _ (destroy_step-keeps d s n p p.phase)
        (destroy_step-started p p.phase refl) g

  pub run-Tame :
      (p : Pool d s n) (schedule : List (Action T))
      → All IsTame schedule
      → Bounds d s n p
      → Tame p
      → Tame (run d s n p schedule).0
  unfolding run
  run-Tame p [] ts b g = g
  run-Tame p (a ∷ rest) (t, ts) b g =
      run-Tame (act d s n p a).0 rest ts (act-Bounds d s n p a b) (act-Tame p a t b g)
