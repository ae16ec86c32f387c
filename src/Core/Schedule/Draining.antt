-- ===== src/Core/Schedule/Draining.antt =====
-- The soft shutdown. While tasks submit only to the worker that runs them, a worker that has found
-- its queues empty keeps them empty until it leaves.
use mini_rts.Base.{
  ℕ, ◌<◌, ◌≡◌, sym, ap, subst, ◌∙◌, inl, inr, Bool, true, false, some, none, Option, List, [], All,
  arith,
}
use mini_rts.Core.Constants.{soft_shutdown}
use mini_rts.Core.Queues.{Deque, Spsc}
use mini_rts.Core.Worker.{
  Submit, local, global, Pc, running, soft_spsc, soft_mark, soft_count, exited,
}
use mini_rts.Core.Pool.{Pool}
use mini_rts.Core.Thread.{Event}
use mini_rts.Core.Thread.Moves
use mini_rts.Core.Thread.Moves.{Move, Found, found, worker_step-Move}
use mini_rts.Core.Schedule.{Action, work, act, run}
use mini_rts.Core.Schedule
use mini_rts.Core.Schedule.Stopping.{Inv}

abbrev pub IsLocal : {T : Type 0} → Submit T → Type 0
IsLocal (local x) = Unit
IsLocal (global x) = ⊥

abbrev pub HasLocal : {T : Type 0} → Pc T → Type 0
HasLocal (running t left) = All IsLocal left
HasLocal _ = Unit

-- The places past the test of a queue, on the way out.
abbrev pub past_wsq : {T : Type 0} → Pc T → Bool
past_wsq soft_spsc = true
past_wsq soft_mark = true
past_wsq soft_count = true
past_wsq exited = true
past_wsq _ = false

abbrev pub past_spsc : {T : Type 0} → Pc T → Bool
past_spsc soft_mark = true
past_spsc soft_count = true
past_spsc exited = true
past_spsc _ = false

-- Tasks submit locally, and the shutdown that is asked for is the soft one. A destructor may ask for
-- the hard one.
abbrev pub IsGraceful : {T : Type 0} → Action T → Type 0
IsGraceful (work i raced does) = All IsLocal does
IsGraceful (Schedule.finalize mode) = mode ≡ soft_shutdown
IsGraceful Schedule.destroy = ⊥
IsGraceful _ = Unit

module _ {T : Type 0} (d : Deque T) (s : Spsc T) (n : ℕ) where
  pub record Drain (p : Pool d s n) : Type 0 where
    pub locals : (j : ℕ) → HasLocal (p.workers j).pc
    pub wsq_done : (j : ℕ) → past_wsq (p.workers j).pc ≡ true → d.to_list (p.workers j).wsq ≡ []
    pub spsc_done : (j : ℕ) → past_spsc (p.workers j).pc ≡ true → s.to_list (p.workers j).spscq ≡ []
    pub hard_exited : p.stop_flag ≡ 1 → (j : ℕ) → j < n → (p.workers j).pc ≡ exited

  -- Nothing is stolen from an empty queue.
  steal_nil :
      (raced : Bool) (q q' : d.Q) (o : Option T)
      → d.to_list q ≡ []
      → d.steal raced q ≡ (o, q')
      → d.to_list q' ≡ []
  steal_nil raced q q' o empty e = elim (d.steal_lem raced q) [
    | inl (_, _, same) ↦ ap (λ (r : Option T × d.Q). d.to_list r.1) (sym e) ∙ same ∙ empty
    | inr (a, xs, full, _, _) ↦ cc
  ]

  module _ {i : ℕ} (inside : i < n) where
    pub Move-Drain :
        {p : Pool d s n} {does : List (Submit T)} {pc : Pc T} {r : Pool d s n × List (Event T)}
        → Move d s n p i does pc r
        → (p.workers i).pc ≡ pc
        → All IsLocal does
        → Inv d s n p
        → Drain p
        → Drain r.0
    Move-Drain Moves.stay at ls v g = g
    Move-Drain {p} (Moves.sends {t} {x} {left} q e) at ls v g =
        absurd (subst HasLocal at (g.locals i)).0
    Move-Drain (Moves.stopped hard) at ls v g = absurd (cc (g.hard_exited hard i inside))
    Move-Drain {p} (Moves.steals raced t q e) at ls v g = record {
      locals = λ j. ground (arith, g.locals j);
      wsq_done = λ j f. ground (
        arith,
        g.wsq_done j,
        g.wsq_done (p.workers i).next_victim,
        steal_nil raced (p.workers (p.workers i).next_victim).wsq q (some t),
      );
      spsc_done = λ j f. ground (arith, g.spsc_done j, g.spsc_done i);
      hard_exited = λ h j b. ground (arith, g.hard_exited h j b);
    }
    Move-Drain {p} (Moves.misses raced q e) at ls v g = record {
      locals = λ j. ground (arith, g.locals j);
      wsq_done = λ j f. ground (
        arith,
        g.wsq_done j,
        g.wsq_done (p.workers i).next_victim,
        steal_nil raced (p.workers (p.workers i).next_victim).wsq q none,
      );
      spsc_done = λ j f. ground (arith, g.spsc_done j, g.spsc_done i);
      hard_exited = λ h j b. ground (arith, g.hard_exited h j b);
    }
    Move-Drain {p} mv at ls v g = record {
      locals = λ j. ground (arith, g.locals j, g.locals i);
      wsq_done = λ j f. ground (arith, found d s n p i mv, v.alive i, g.wsq_done j);
      spsc_done = λ j f. ground (arith, found d s n p i mv, v.alive i, g.spsc_done j);
      hard_exited = λ h j b. ground (arith, g.hard_exited h j b);
    }
