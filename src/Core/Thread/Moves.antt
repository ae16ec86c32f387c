-- ===== src/Core/Thread/Moves.antt =====
-- src/core/worker.cpp: the thread of a worker as a step relation, with what each branch has found.
-- `worker_step` follows it.
use mini_rts.Base.{
  ℕ, zero, suc, ◌/◌, ◌<◌, ◌≤◌, ◌≡◌, ◌≢◌, refl, ◌⊎◌, inl, inr, Option, none, some, Bool, true, false,
  List, [], ◌∷◌, if_cases, arith, leb, ◌==◌, Bool-cases, Option-cases,
}
use mini_rts.Core.Queues.{Deque, Spsc}
use mini_rts.Core.Worker.{
  Submit, local, global, Pc, unstarted, starting, top, check, drain, take, called, running, choose,
  stealing, holding, soft_flag, soft_wsq, soft_spsc, soft_mark, soft_count, exited, Worker,
}
use mini_rts.Core.Worker.Victim.{pick_victim, pick_victim-other}
use mini_rts.Core.Pool.{Pool, put, goto, enqueue, fetch_sub}
use mini_rts.Core.Thread.{
  Event, submitted, finished, drain_step, take_step, choose_step, steal_step, task_step, mark_step,
  worker_step,
}

module _ {T : Type 0} (d : Deque T) (s : Spsc T) (n : ℕ) (p : Pool d s n) (i : ℕ) where
  abbrev pub self : Worker d s
  self = p.workers i

  abbrev pub to : Pc T → Pool d s n × List (Event T)
  to pc = (goto d s n p i pc, [])

  abbrev pub with_queue : d.Q → Pc T → Pool d s n × List (Event T)
  with_queue q pc = (put d s n p i (record self { wsq = q; pc = pc }), [])

  -- The victim's queue is written first, and then the thief's place.
  abbrev pub robbed : (v : ℕ) → d.Q → Pc T → Pool d s n × List (Event T)
  robbed v q pc = (goto d s n (put d s n p v (record (p.workers v) { wsq = q })) i pc, [])

  pub data Move (does : List (Submit T)) : Pc T → Pool d s n × List (Event T) → Type 0 where
    stay : {pc : Pc T} → Move does pc (p, [])
    begin :
        p.vector_alive ≡ true
        → Move does starting
            (put d s n p i (record self { active = true; next_victim = 0; pc = top }), [])
    orphaned : p.vector_alive ≡ false → Move does starting (to exited)
    stopped : p.stop_flag ≡ 1 → Move does top (to exited)
    goes_on : p.stop_flag ≢ 1 → Move does top (to check)
    refills : d.to_list self.wsq ≡ [] → Move does check (to drain)
    has_work : d.to_list self.wsq ≢ [] → Move does check (to take)
    transfers :
        (t : T)
        → s.front self.spscq ≡ some t
        → Move does drain (
          put d s n p i (record self { wsq = d.emplace self.wsq t; spscq = s.pop self.spscq }),
          [],
        )
    drained :
        (s.to_list self.spscq ≡ []) ⊎ (d.size self.wsq ≡ d.capacity self.wsq)
        → Move does drain (to take)
    takes :
        (t : T) (q : d.Q) → d.pop self.wsq ≡ (some t, q) → Move does take (with_queue q (called t))
    calls : {t : T} → Move does (called t) (to (running t does))
    starves : (q : d.Q) → d.pop self.wsq ≡ (none, q) → 2 ≤ n → Move does take (with_queue q choose)
    starves_alone :
        (q : d.Q) → d.pop self.wsq ≡ (none, q) → n < 2 → Move does take (with_queue q soft_flag)
    finishes : {t : T} → Move does (running t []) (goto d s n p i soft_flag, finished t ∷ [])
    pushes :
        {t x : T} {left : List (Submit T)}
        → Move does (running t (local x ∷ left)) (
          put d s n p i (record self { wsq = d.emplace self.wsq x; pc = running t left }),
          submitted x ∷ [],
        )
    sends :
        {t x : T} {left : List (Submit T)} (q : Pool d s n)
        → enqueue d s n p x ≡ some q
        → Move does
            (running t (global x ∷ left))
            (goto d s n q i (running t left), submitted x ∷ [])
    chooses :
        (v : ℕ)
        → v < n
        → v ≢ i
        → Move does choose (
          put d s n p i
              (record self { next_victim = v; pc = stealing (d.size (p.workers v).wsq / 2) }),
          [],
        )
    gives_up : Move does (stealing zero) (to soft_flag)
    steals :
        {k : ℕ} (raced : Bool) (t : T) (q : d.Q)
        → d.steal raced (p.workers self.next_victim).wsq ≡ (some t, q)
        → Move does (stealing (suc k)) (robbed self.next_victim q (holding t k))
    misses :
        {k : ℕ} (raced : Bool) (q : d.Q)
        → d.steal raced (p.workers self.next_victim).wsq ≡ (none, q)
        → Move does (stealing (suc k)) (robbed self.next_victim q soft_flag)
    queues :
        {t : T} {k : ℕ}
        → Move does
            (holding t k)
            (put d s n p i (record self { wsq = d.emplace self.wsq t; pc = stealing k }), [])
    soft : p.stop_flag ≡ 2 → Move does soft_flag (to soft_wsq)
    not_soft : Move does soft_flag (to top)
    wsq_empty : d.to_list self.wsq ≡ [] → Move does soft_wsq (to soft_spsc)
    wsq_filled : Move does soft_wsq (to top)
    spsc_empty : s.to_list self.spscq ≡ [] → Move does soft_spsc (to soft_mark)
    spsc_filled : Move does soft_spsc (to top)
    marks :
        self.active ≡ true
        → Move does soft_mark (
          put d s n
              (record p { active_workers = fetch_sub p.active_workers })
              i
              (record self { active = false; pc = soft_count }),
          [],
        )
    marked : self.active ≡ false → Move does soft_mark (to soft_count)
    leaves : p.active_workers ≡ 0 → Move does soft_count (to exited)
    waits : Move does soft_count (to top)

  drain_step-Move : (does : List (Submit T)) → Move does drain (drain_step d s n p i self, [])
  unfolding drain_step
  drain_step-Move does = elim (Bool-cases (s.is_empty self.spscq)) [
    | inl none_left ↦ rw none_left (drained (inl ((s.is_empty_iff self.spscq).0 none_left)))
    | inr more ↦ elim (Bool-cases (d.size self.wsq == d.capacity self.wsq)) [
      | inl full ↦ rw (more, full) (drained (inr (ground arith)))
      | inr room ↦ elim (Option-cases (s.front self.spscq)) [
        | inl gone ↦ rw (more, room, gone) stay
        | inr (t, found) ↦ rw (more, room, found) (transfers t found)
      ]
    ]
  ]

  take_step-Move :
      (does : List (Submit T)) (r : Option T × d.Q)
      → d.pop self.wsq ≡ r
      → Move does take (take_step d s n p i r, [])
  unfolding take_step
  take_step-Move does (some t, q) e = takes t q e
  take_step-Move does (none, q) e = elim (Bool-cases (leb 2 n)) [
    | inl many ↦ rw many (starves q e (ground arith))
    | inr alone ↦ rw alone (starves_alone q e (ground arith))
  ]

  choose_step-Move :
      (does : List (Submit T))
      → self.next_victim < n
      → Move does choose (choose_step d s n p i self, [])
  unfolding choose_step
  choose_step-Move does inside = elim (Option-cases (pick_victim 2 n i self.next_victim)) [
    | inl none_found ↦ rw (none_found, choose_step) stay
    | inr (v, found) ↦
        let (below, other) = pick_victim-other 2 n i self.next_victim v inside found in
        rw (found, choose_step) (chooses v below other)
  ]

  steal_step-Move :
      (does : List (Submit T)) (k : ℕ) (raced : Bool) (r : Option T × d.Q)
      → d.steal raced (p.workers self.next_victim).wsq ≡ r
      → Move does (stealing (suc k)) (
        steal_step d s n p i self.next_victim k
            (r.0, record (p.workers self.next_victim) { wsq = r.1 }),
        [],
      )
  unfolding steal_step
  steal_step-Move does k raced (some t, q) e = steals raced t q e
  steal_step-Move does k raced (none, q) e = misses raced q e

  task_step-Move :
      (does : List (Submit T)) (t : T) (left : List (Submit T)) (x : Submit T)
      → Move does (running t (x ∷ left)) (task_step d s n p i t left x)
  unfolding task_step
  task_step-Move does t left (local x) = pushes
  task_step-Move does t left (global x) = elim (Option-cases (enqueue d s n p x)) [
    | inl full ↦ rw (full, task_step) stay
    | inr (q, room) ↦ rw (room, task_step) (sends q room)
  ]

  mark_step-Move : (does : List (Submit T)) → Move does soft_mark (mark_step d s n p i self, [])
  unfolding mark_step
  mark_step-Move does = if_cases (λ q. Move does soft_mark (q, [])) self.active _ _ marks marked

  -- The thread does what the relation allows, and nothing else.
  pub worker_step-Move :
      (raced : Bool) (does : List (Submit T)) (pc : Pc T)
      → self.next_victim < n
      → Move does pc (worker_step d s n p i raced does self pc)
  unfolding worker_step
  worker_step-Move raced does unstarted inside = stay
  worker_step-Move raced does starting inside =
      if_cases (Move does starting) p.vector_alive _ _ begin orphaned
  worker_step-Move raced does top inside =
      if_cases (λ pc. Move does top (to pc)) (p.stop_flag == 1) exited check
        (λ stop. stopped (ground arith)) (λ go. goes_on (ground arith))
  worker_step-Move raced does check inside =
      if_cases (λ pc. Move does check (to pc)) (d.is_empty self.wsq) drain take
        (λ e. refills ((d.is_empty_iff self.wsq).0 e))
        (λ e. has_work (λ f. cc ((d.is_empty_iff self.wsq).1 f)))
  worker_step-Move raced does drain inside = drain_step-Move does
  worker_step-Move raced does take inside = take_step-Move does (d.pop self.wsq) refl
  worker_step-Move raced does (called t) inside = calls
  worker_step-Move raced does (running t []) inside = finishes
  worker_step-Move raced does (running t (x ∷ left)) inside = task_step-Move does t left x
  worker_step-Move raced does choose inside = choose_step-Move does inside
  worker_step-Move raced does (stealing zero) inside = gives_up
  worker_step-Move raced does (stealing (suc k)) inside =
      steal_step-Move does k raced (d.steal raced (p.workers self.next_victim).wsq) refl
  worker_step-Move raced does (holding t k) inside = queues
  worker_step-Move raced does soft_flag inside =
      if_cases (λ pc. Move does soft_flag (to pc)) (p.stop_flag == 2) soft_wsq top
        (λ stop. soft (ground arith)) (λ _. not_soft)
  worker_step-Move raced does soft_wsq inside =
      if_cases (λ pc. Move does soft_wsq (to pc)) (d.is_empty self.wsq) soft_spsc top
        (λ e. wsq_empty ((d.is_empty_iff self.wsq).0 e)) (λ _. wsq_filled)
  worker_step-Move raced does soft_spsc inside =
      if_cases (λ pc. Move does soft_spsc (to pc)) (s.is_empty self.spscq) soft_mark top
        (λ e. spsc_empty ((s.is_empty_iff self.spscq).0 e)) (λ _. spsc_filled)
  worker_step-Move raced does soft_mark inside = mark_step-Move does
  worker_step-Move raced does soft_count inside =
      if_cases (λ pc. Move does soft_count (to pc)) (p.active_workers == 0) exited top
        (λ e. leaves (ground arith)) (λ _. waits)
  worker_step-Move raced does exited inside = stay

  -- What a branch has found out about the flag and the count, as one function of the step.
  abbrev pub Found :
      {does : List (Submit T)} {pc : Pc T} {r : Pool d s n × List (Event T)}
      → Move does pc r
      → Type 0
  Found (orphaned _) = p.vector_alive ≡ false
  Found (stopped _) = p.stop_flag ≡ 1
  Found (soft _) = p.stop_flag ≡ 2
  Found (leaves _) = p.active_workers ≡ 0
  Found (wsq_empty _) = d.to_list self.wsq ≡ []
  Found (spsc_empty _) = s.to_list self.spscq ≡ []
  Found _ = Unit

  pub found :
      {does : List (Submit T)} {pc : Pc T} {r : Pool d s n × List (Event T)}
      → (mv : Move does pc r) → Found mv
  found (orphaned e) = e
  found (stopped e) = e
  found (soft e) = e
  found (leaves e) = e
  found (wsq_empty e) = e
  found (spsc_empty e) = e
  found _ = tt
