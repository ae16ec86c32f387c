-- ===== src/Core/Schedule/Round.antt =====
-- src/core/worker.cpp: after a hard shutdown a worker leaves its loop, from every place of its program,
-- in whatever way its next steps are found.
use mini_rts.Base.{
  ℕ, zero, suc, ◌/◌, ◌≤◌, ◌≡◌, ◌⊎◌, ap, subst, false, inl, inr, List, [], ◌∷◌, length, arith, leb,
  ◌==◌, Option-cases, Bool-cases, sym, ◌∙◌, Bool,
}
use mini_rts.Core.Queues.{Deque, Spsc}
use mini_rts.Core.Worker.{
  Submit, local, global, Pc, unstarted, starting, top, check, drain, take, called, running, choose,
  stealing, holding, soft_flag, soft_wsq, soft_spsc, soft_mark, soft_count, exited,
}
use mini_rts.Core.Worker.Victim.{pick_victim_lem}
use mini_rts.Core.Pool.{Pool}
use mini_rts.Core.Thread.{
  worker_step, drain_step, take_step, choose_step, steal_step, task_step, mark_step,
}
use mini_rts.Core.Schedule.Draining.{HasLocal}
use mini_rts.Core.Schedule.Tame.{is_choose, is_unstarted}
use mini_rts.Core.Schedule.Fair.{Keep, SamePlace}

-- `Ends p` is what is to be shown of a pool `p`; it is enough to show it where the worker has left, and
-- after the next step of the worker, which finds it at the place and with the queue of the pool that `p` has.
module _ {T : Type 0} (d : Deque T) (s : Spsc T) (n i : ℕ) (Ends : Pool d s n → Type 0)
    (exits : (p : Pool d s n) → (p.workers i).pc ≡ exited → Ends p)
    (after : (p : Pool d s n) (pc : Pc T)
      → (p.workers i).pc ≡ pc
      → Keep d s n p
      → ((y q : Pool d s n) (raced : Bool) (does : List (Submit T))
          → SamePlace d s n i p y
          → Keep d s n y
          → (y.workers i).pc ≡ pc
          → q ≡ (worker_step d s n y i raced does (y.workers i) pc).0
          → Keep d s n q
          → Ends q)
      → Ends p) where
  top-Ends : (p : Pool d s n) → Keep d s n p → (p.workers i).pc ≡ top → Ends p
  unfolding worker_step
  top-Ends p k at =
      after p top at k λ y q raced does same l at' e k'. exits q (ground (arith, e, l.hard))

  -- The places from which the worker goes out or back to the head of its loop.
  out_or_top :
      (p : Pool d s n)
      → Keep d s n p
      → ((p.workers i).pc ≡ exited) ⊎ ((p.workers i).pc ≡ top)
      → Ends p
  out_or_top p k (inl gone) = exits p gone
  out_or_top p k (inr back) = top-Ends p k back

  soft_flag-Ends : (p : Pool d s n) → Keep d s n p → (p.workers i).pc ≡ soft_flag → Ends p
  unfolding worker_step
  soft_flag-Ends p k at =
      after p soft_flag at k
        λ y q raced does same l at' e k'. top-Ends q k' (ground (arith, e, l.hard))

  soft_count-Ends : (p : Pool d s n) → Keep d s n p → (p.workers i).pc ≡ soft_count → Ends p
  unfolding worker_step
  soft_count-Ends p k at = after p soft_count at k λ y q raced does same l at' e k'.
      out_or_top q k' (elim (Bool-cases (y.active_workers == 0)) [
        | inl none_left ↦ inl (ground (arith, e))
        | inr others ↦ inr (ground (arith, e))
      ])

  soft_mark-Ends : (p : Pool d s n) → Keep d s n p → (p.workers i).pc ≡ soft_mark → Ends p
  unfolding worker_step mark_step
  soft_mark-Ends p k at =
      after p soft_mark at k
        λ y q raced does same l at' e k'. soft_count-Ends q k' (ground (arith, e))

  soft_spsc-Ends : (p : Pool d s n) → Keep d s n p → (p.workers i).pc ≡ soft_spsc → Ends p
  unfolding worker_step
  soft_spsc-Ends p k at = after p soft_spsc at k λ y q raced does same l at' e k'.
      elim (Bool-cases (s.is_empty (y.workers i).spscq)) [
        | inl idle ↦ soft_mark-Ends q k' (ground (arith, e))
        | inr more ↦ top-Ends q k' (ground (arith, e))
      ]

  soft_wsq-Ends : (p : Pool d s n) → Keep d s n p → (p.workers i).pc ≡ soft_wsq → Ends p
  unfolding worker_step
  soft_wsq-Ends p k at = after p soft_wsq at k λ y q raced does same l at' e k'.
      elim (Bool-cases (d.is_empty (y.workers i).wsq)) [
        | inl idle ↦ soft_spsc-Ends q k' (ground (arith, e))
        | inr more ↦ top-Ends q k' (ground (arith, e))
      ]

  -- The loop of the thief: each round takes a task, or ends the loop.
  stealing-Ends :
      (rounds : ℕ) (p : Pool d s n) → Keep d s n p → (p.workers i).pc ≡ stealing rounds → Ends p
  unfolding worker_step steal_step
  stealing-Ends zero p k at =
      after p (stealing zero) at k
        λ y q raced does same l at' e k'. soft_flag-Ends q k' (ground (arith, e))
  stealing-Ends (suc rounds) p k at =
      after p (stealing (suc rounds)) at k λ y q raced does same l at' e k'.
        elim (Option-cases (d.steal raced (y.workers (y.workers i).next_victim).wsq).0) [
          | inl missed ↦ soft_flag-Ends q k' (ground (arith, e))
          | inr (t, got_it) ↦
              after q (holding t rounds) (ground (arith, e)) k'
                λ y' u raced' does' same' l' at'' f k''.
                  stealing-Ends rounds u k'' (ground (arith, f))
        ]

  choose-Ends : (p : Pool d s n) → Keep d s n p → (p.workers i).pc ≡ choose → Ends p
  unfolding worker_step choose_step
  choose-Ends p k at =
      let several = k.tame.thieves i (ap is_choose at) in
      after p choose at k λ y q raced does same l at' e k'.
        let (v, found, _, _, _) =
          pick_victim_lem n i (y.workers i).next_victim several (l.bounds.victims i) in
        stealing-Ends (d.size (y.workers v).wsq / 2) q k' (ground (arith, e, found))

  -- What a task has still to submit is local, and so does not wait.
  running-Ends :
      (t : T) (left : List (Submit T)) (p : Pool d s n)
      → Keep d s n p
      → (p.workers i).pc ≡ running t left
      → Ends p
  unfolding worker_step task_step
  running-Ends t [] p k at =
      after p (running t []) at k
        λ y q raced does same l at' e k'. soft_flag-Ends q k' (ground (arith, e))
  running-Ends t (local x ∷ left) p k at =
      after p (running t (local x ∷ left)) at k
        λ y q raced does same l at' e k'. running-Ends t left q k' (ground (arith, e))
  running-Ends t (global x ∷ left) p k at = absurd (subst HasLocal at (k.tame.locals i)).0

  called-Ends : (t : T) (p : Pool d s n) → Keep d s n p → (p.workers i).pc ≡ called t → Ends p
  unfolding worker_step
  called-Ends t p k at =
      after p (called t) at k
        λ y q raced does same l at' e k'. running-Ends t does q k' (ground (arith, e))

  take-Ends : (p : Pool d s n) → Keep d s n p → (p.workers i).pc ≡ take → Ends p
  unfolding worker_step take_step
  take-Ends p k at = after p take at k λ y q raced does same l at' e k'.
      elim (Option-cases (d.pop (y.workers i).wsq).0) [
        | inl nothing ↦ elim (Bool-cases (leb 2 n)) [
          | inl several ↦ choose-Ends q k' (ground (arith, e))
          | inr alone ↦ soft_flag-Ends q k' (ground (arith, e))
        ]
        | inr (t, found) ↦ called-Ends t q k' (ground (arith, e))
      ]

  -- A step of the inner loop leaves it, or makes the queue of the pool shorter.
  drain-after :
      (p : Pool d s n)
      → Keep d s n p
      → (p.workers i).pc ≡ drain
      → ((q : Pool d s n) (x : T)
          → Keep d s n q
          → (q.workers i).pc ≡ drain
          → s.to_list (p.workers i).spscq ≡ x ∷ s.to_list (q.workers i).spscq
          → Ends q)
      → Ends p
  unfolding worker_step drain_step
  drain-after p k at next = after p drain at k λ y q raced does same l at' e k'.
      let w = y.workers i in
      elim (Bool-cases (s.is_empty w.spscq)) [
        | inl idle ↦ take-Ends q k' (ground (arith, e))
        | inr more ↦ elim (Bool-cases (d.size w.wsq == d.capacity w.wsq)) [
          | inl full ↦ take-Ends q k' (ground (arith, e))
          | inr room ↦ elim (s.front_lem w.spscq) [
            | inl (empty, _) ↦ absurd (cc ((s.is_empty_iff w.spscq).1 empty, more))
            | inr (x, is_first, found, _) ↦
                let shorter : s.to_list w.spscq ≡ x ∷ s.to_list (q.workers i).spscq =
                  ground (arith, e, found, is_first) in
                next q x k' (ground (arith, e, found)) (ap s.to_list (sym same.1) ∙ shorter)
          ]
        ]
      ]

  -- So the inner loop ends.
  drain-Ends :
      (bound : ℕ) (p : Pool d s n)
      → Keep d s n p
      → length (s.to_list (p.workers i).spscq) ≤ bound
      → (p.workers i).pc ≡ drain
      → Ends p
  drain-Ends zero p k le at =
      drain-after p k at λ q x k' at' shorter. absurd (omega (arith, le, ap length shorter))
  drain-Ends (suc bound) p k le at =
      drain-after p k at
        λ q x k' at' shorter. drain-Ends bound q k' (omega (arith, le, ap length shorter)) at'

  check-Ends : (p : Pool d s n) → Keep d s n p → (p.workers i).pc ≡ check → Ends p
  unfolding worker_step
  check-Ends p k at = after p check at k λ y q raced does same l at' e k'.
      elim (Bool-cases (d.is_empty (y.workers i).wsq)) [
        | inl idle ↦
            drain-Ends (length (s.to_list (q.workers i).spscq)) q k' (omega arith)
              (ground (arith, e))
        | inr more ↦ take-Ends q k' (ground (arith, e))
      ]

  starting-Ends : (p : Pool d s n) → Keep d s n p → (p.workers i).pc ≡ starting → Ends p
  unfolding worker_step
  starting-Ends p k at = after p starting at k λ y q raced does same l at' e k'.
      elim (Bool-cases y.vector_alive) [
        | inl alive ↦ out_or_top q k' (inr (ground (arith, e)))
        | inr gone ↦ out_or_top q k' (inl (ground (arith, e)))
      ]

  holding-Ends :
      (t : T) (rounds : ℕ) (p : Pool d s n)
      → Keep d s n p
      → (p.workers i).pc ≡ holding t rounds
      → Ends p
  unfolding worker_step
  holding-Ends t rounds p k at =
      after p (holding t rounds) at k
        λ y q raced does same l at' e k'. stealing-Ends rounds q k' (ground (arith, e))

  -- So it does from every place of its program.
  pub round-Ends :
      (pc : Pc T) (p : Pool d s n)
      → Keep d s n p
      → is_unstarted (p.workers i).pc ≡ false
      → (p.workers i).pc ≡ pc
      → Ends p
  round-Ends unstarted p k begun at = cc
  round-Ends starting p k begun at = starting-Ends p k at
  round-Ends top p k begun at = top-Ends p k at
  round-Ends check p k begun at = check-Ends p k at
  round-Ends drain p k begun at =
      drain-Ends (length (s.to_list (p.workers i).spscq)) p k (omega arith) at
  round-Ends take p k begun at = take-Ends p k at
  round-Ends (called t) p k begun at = called-Ends t p k at
  round-Ends (running t left) p k begun at = running-Ends t left p k at
  round-Ends choose p k begun at = choose-Ends p k at
  round-Ends (stealing rounds) p k begun at = stealing-Ends rounds p k at
  round-Ends (holding t rounds) p k begun at = holding-Ends t rounds p k at
  round-Ends soft_flag p k begun at = soft_flag-Ends p k at
  round-Ends soft_wsq p k begun at = soft_wsq-Ends p k at
  round-Ends soft_spsc p k begun at = soft_spsc-Ends p k at
  round-Ends soft_mark p k begun at = soft_mark-Ends p k at
  round-Ends soft_count p k begun at = soft_count-Ends p k at
  round-Ends exited p k begun at = exits p at
