-- ===== src/Core/Schedule/Conservation.antt =====
-- No step of a thread loses a task or makes one up.
use mini_rts.Base.{Bool, ℕ, ◌<◌, ◌≡◌, refl, ap, ◌∙◌, some, Option, List, [], ◌∷◌, arith}
use mini_rts.Core.Queues.{Deque, Spsc}
use mini_rts.Core.Queues.Weights.{
  weigh_option, weight, weight-emplace, weight-pop, weight-steal, spsc_weight-pop,
}
use mini_rts.Core.Worker.{Submit, Pc, running, soft_flag, Worker}
use mini_rts.Core.Pool.{Pool, put, goto, enqueue}
use mini_rts.Core.Pool.Enqueue.{enqueued-worker, enqueue-some}
use mini_rts.Core.Thread.{Event, submitted}
use mini_rts.Core.Thread.Moves
use mini_rts.Core.Thread.Moves.{Move, robbed, with_queue, to}
use mini_rts.Core.Schedule.Weights.{
  hand, worker_weight, Conserves, pending-put, pending-goto, pending-workers, pending-enqueue,
}

module _ {T : Type 0} (d : Deque T) (s : Spsc T) (n : ℕ) (w : T → ℕ) (p : Pool d s n) (i : ℕ)
    (inside : i < n) where
  abbrev self : Worker d s
  self = p.workers i

  -- A step between two places with the same weight in hand.
  to-Conserves :
      (pc pc' : Pc T)
      → self.pc ≡ pc
      → hand w pc ≡ hand w pc'
      → Conserves d s n w p (to d s n p i pc')
  to-Conserves pc pc' at same = omega (arith, pending-goto d s n w p i inside pc', ap (hand w) at)

  put-Conserves :
      (x : Worker d s)
      → worker_weight d s n w x ≡ worker_weight d s n w self
      → Conserves d s n w p (put d s n p i x, [])
  put-Conserves x same = omega (arith, pending-put d s n w p i inside x)

  with_queue-Conserves :
      (q : d.Q) (o : Option T) (pc pc' : Pc T)
      → d.pop self.wsq ≡ (o, q)
      → self.pc ≡ pc
      → hand w pc ≡ 0
      → hand w pc' ≡ weigh_option w o
      → Conserves d s n w p (with_queue d s n p i q pc')
  with_queue-Conserves q o pc pc' e at empty full = omega (
    arith,
    pending-put d s n w p i inside (record self { wsq = q; pc = pc' }),
    weight-pop d w self.wsq,
    ap (hand w) at,
    ap (λ (r : Option T × d.Q). weight d w r.1) e,
    ap (λ (r : Option T × d.Q). weigh_option w r.0) e,
  )

  rob-pc :
      (v : ℕ) (q : d.Q) (j : ℕ)
      → ((put d s n p v (record (p.workers v) { wsq = q })).workers j).pc ≡ (p.workers j).pc
  rob-pc v q j = ground arith

  sends-Conserves :
      (q : Pool d s n) (t x : T) (left : List (Submit T))
      → enqueue d s n p x ≡ some q
      → p.round_robin < n
      → hand w self.pc ≡ w t
      → Conserves d s n w p (goto d s n q i (running t left), submitted x ∷ [])
  sends-Conserves q t x left e rr at =
      let (r, _, same) = enqueue-some d s n p x q e in
      omega (
        arith,
        pending-enqueue d s n w p q x rr e,
        pending-goto d s n w q i inside (running t left),
        ap (λ (z : Pool d s n). hand w (z.workers i).pc) same,
        ap (hand w) (enqueued-worker d s n p x r i).1,
      )

  -- The last active worker's count, and all else but the workers, carries no weight.
  marks-Conserves :
      (count : ℕ) (x : Worker d s)
      → worker_weight d s n w x ≡ worker_weight d s n w self
      → Conserves d s n w p (put d s n (record p { active_workers = count }) i x, [])
  marks-Conserves count x same = omega (
    arith,
    put-Conserves x same,
    pending-workers d s n w (put d s n (record p { active_workers = count }) i x) (put d s n p i x)
        refl,
  )

  robbed-Conserves :
      (v : ℕ) (raced : Bool) (q : d.Q) (o : Option T) (pc pc' : Pc T)
      → v < n
      → d.steal raced (p.workers v).wsq ≡ (o, q)
      → self.pc ≡ pc
      → hand w pc ≡ 0
      → hand w pc' ≡ weigh_option w o
      → Conserves d s n w p (robbed d s n p i v q pc')
  robbed-Conserves v raced q o pc pc' below e at empty full =
      let x : Worker d s = record (p.workers v) { wsq = q } in
      omega (
        arith,
        pending-put d s n w p v below x,
        pending-goto d s n w (put d s n p v x) i inside pc',
        ap (hand w) (rob-pc v q i ∙ at),
        weight-steal d w raced (p.workers v).wsq,
        ap (λ (r : Option T × d.Q). weight d w r.1) e,
        ap (λ (r : Option T × d.Q). weigh_option w r.0) e,
      )

  pub Move-Conserves :
      {does : List (Submit T)} {pc : Pc T} {r : Pool d s n × List (Event T)}
      → Move d s n p i does pc r
      → self.pc ≡ pc
      → p.round_robin < n
      → self.next_victim < n
      → Conserves d s n w p r
  Move-Conserves Moves.stay at rr nv = refl
  Move-Conserves (Moves.begin _) at rr nv = put-Conserves _ (omega (arith, ap (hand w) at))
  Move-Conserves (Moves.orphaned _) at rr nv = to-Conserves _ _ at refl
  Move-Conserves (Moves.stopped _) at rr nv = to-Conserves _ _ at refl
  Move-Conserves (Moves.goes_on _) at rr nv = to-Conserves _ _ at refl
  Move-Conserves (Moves.refills _) at rr nv = to-Conserves _ _ at refl
  Move-Conserves (Moves.has_work _) at rr nv = to-Conserves _ _ at refl
  Move-Conserves (Moves.transfers t e) at rr nv = put-Conserves _ (
      omega
        (arith, weight-emplace d w self.wsq t, spsc_weight-pop s w self.spscq t e, ap (hand w) at))
  Move-Conserves (Moves.drained _) at rr nv = to-Conserves _ _ at refl
  Move-Conserves (Moves.takes t q e) at rr nv = with_queue-Conserves q _ _ _ e at refl refl
  Move-Conserves Moves.calls at rr nv = to-Conserves _ _ at refl
  Move-Conserves (Moves.starves q e _) at rr nv = with_queue-Conserves q _ _ _ e at refl refl
  Move-Conserves (Moves.starves_alone q e _) at rr nv = with_queue-Conserves q _ _ _ e at refl refl
  Move-Conserves Moves.finishes at rr nv =
      omega (arith, pending-goto d s n w p i inside soft_flag, ap (hand w) at)
  Move-Conserves (Moves.pushes {t} {x} {left}) at rr nv = omega (
    arith,
    pending-put d s n w p i inside
        (record self { wsq = d.emplace self.wsq x; pc = running t left }),
    weight-emplace d w self.wsq x,
    ap (hand w) at,
  )
  Move-Conserves (Moves.sends {t} {x} {left} q e) at rr nv =
      sends-Conserves q t x left e rr (ap (hand w) at)
  Move-Conserves (Moves.chooses v _ _) at rr nv = put-Conserves _ (omega (arith, ap (hand w) at))
  Move-Conserves Moves.gives_up at rr nv = to-Conserves _ _ at refl
  Move-Conserves (Moves.steals raced t q e) at rr nv =
      robbed-Conserves _ raced q _ _ _ nv e at refl refl
  Move-Conserves (Moves.misses raced q e) at rr nv =
      robbed-Conserves _ raced q _ _ _ nv e at refl refl
  Move-Conserves (Moves.queues {t}) at rr nv =
      put-Conserves _ (omega (arith, weight-emplace d w self.wsq t, ap (hand w) at))
  Move-Conserves (Moves.soft _) at rr nv = to-Conserves _ _ at refl
  Move-Conserves Moves.not_soft at rr nv = to-Conserves _ _ at refl
  Move-Conserves (Moves.wsq_empty _) at rr nv = to-Conserves _ _ at refl
  Move-Conserves Moves.wsq_filled at rr nv = to-Conserves _ _ at refl
  Move-Conserves (Moves.spsc_empty _) at rr nv = to-Conserves _ _ at refl
  Move-Conserves Moves.spsc_filled at rr nv = to-Conserves _ _ at refl
  Move-Conserves (Moves.marks _) at rr nv = marks-Conserves _ _ (omega (arith, ap (hand w) at))
  Move-Conserves (Moves.marked _) at rr nv = to-Conserves _ _ at refl
  Move-Conserves (Moves.leaves _) at rr nv = to-Conserves _ _ at refl
  Move-Conserves Moves.waits at rr nv = to-Conserves _ _ at refl
