-- ===== src/Core/Schedule/Weights.antt =====
-- The tasks of a pool, by weight: what its queues hold and what its workers have in hand.
use mini_rts.Base.{ℕ, ◌+◌, ◌<◌, ◌≡◌, refl, ap, some, List, [], ◌∷◌, arith}
use mini_rts.Base.Family.{total, total-update}
use mini_rts.Core.Queues.{Deque, Spsc}
use mini_rts.Core.Queues.Weights.{weight, spsc_weight, spsc_weight-emplace}
use mini_rts.Core.Worker.{Pc, called, running, holding, Worker}
use mini_rts.Core.Pool.{Pool, put, goto, enqueue}
use mini_rts.Core.Pool.Enqueue.{enqueued, enqueue-some}
use mini_rts.Core.Thread.{Event, submitted, finished}

-- A task that runs, or that was stolen and not yet queued, is in its worker's hand.
abbrev pub hand : {T : Type 0} → (T → ℕ) → Pc T → ℕ
hand w (called t) = w t
hand w (running t left) = w t
hand w (holding t k) = w t
hand w _ = 0

abbrev pub weigh_submitted : {T : Type 0} → (T → ℕ) → List (Event T) → ℕ
weigh_submitted w [] = 0
weigh_submitted w (submitted t ∷ es) = w t + weigh_submitted w es
weigh_submitted w (finished t ∷ es) = weigh_submitted w es

abbrev pub weigh_finished : {T : Type 0} → (T → ℕ) → List (Event T) → ℕ
weigh_finished w [] = 0
weigh_finished w (submitted t ∷ es) = weigh_finished w es
weigh_finished w (finished t ∷ es) = w t + weigh_finished w es

module _ {T : Type 0} (d : Deque T) (s : Spsc T) (n : ℕ) (w : T → ℕ) where
  -- What a worker holds.
  abbrev pub worker_weight : Worker d s → ℕ
  worker_weight x = weight d w x.wsq + spsc_weight s w x.spscq + hand w x.pc

  unfoldable pub pending : Pool d s n → ℕ
  pending p = total worker_weight n p.workers

  -- An action changes the pending weight by what it submits and what it finishes.
  abbrev pub Conserves : Pool d s n → Pool d s n × List (Event T) → Type 0
  Conserves p r = pending p + weigh_submitted w r.1 ≡ pending r.0 + weigh_finished w r.1

  module _ (p : Pool d s n) (i : ℕ) (inside : i < n) where
    pub pending-put :
        (x : Worker d s)
        → pending (put d s n p i x) + worker_weight (p.workers i) ≡ pending p + worker_weight x
    unfolding pending
    pending-put x = total-update worker_weight n p.workers i x inside

    pub pending-goto :
        (pc : Pc T) → pending (goto d s n p i pc) + hand w (p.workers i).pc ≡ pending p + hand w pc
    pending-goto pc = omega (arith, pending-put (record (p.workers i) { pc = pc }))

  -- The other fields of a pool carry no weight.
  pub pending-workers : (p q : Pool d s n) → p.workers ≡ q.workers → pending p ≡ pending q
  unfolding pending
  pending-workers p q e = ap (total worker_weight n) e

  -- An enqueue through the pool adds its task to the worker whose turn it is.
  pub pending-enqueue :
      (p q : Pool d s n) (x : T)
      → p.round_robin < n
      → enqueue d s n p x ≡ some q
      → pending q ≡ pending p + w x
  pending-enqueue p q x inside e =
      let (r, room, same) = enqueue-some d s n p x q e in
      omega (
        arith,
        ap pending same,
        pending-put p p.round_robin inside (record (p.workers p.round_robin) { spscq = r }),
        pending-workers (enqueued d s n p x r)
            (put d s n p p.round_robin (record (p.workers p.round_robin) { spscq = r })) refl,
        spsc_weight-emplace s w (p.workers p.round_robin).spscq r x room,
      )
