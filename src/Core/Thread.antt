-- ===== src/Core/Thread.antt =====
-- src/core/worker.cpp: the thread of a worker, a shared access at a time.
pub mod Moves
use mini_rts.Base.{
  ℕ, zero, suc, ◌/◌, Option, none, some, Bool, true, false, not, ◌&&◌, List, [], ◌∷◌, leb, ◌==◌,
  if◌then◌else◌,
}
use mini_rts.Core.Constants.{ShutdownMode, hard_shutdown, flag_of}
use mini_rts.Core.Queues.{Deque, Spsc}
use mini_rts.Core.Worker.{
  Submit, local, global, Pc, unstarted, starting, top, check, drain, take, called, running, choose,
  stealing, holding, soft_flag, soft_wsq, soft_spsc, soft_mark, soft_count, exited, Worker,
  wsq_size, steal, enqueue_local,
}
use mini_rts.Core.Worker.Victim.{pick_victim}
use mini_rts.Core.Pool.{Pool, put, goto, enqueue, fetch_sub}

-- What an observer of the pool sees of an action.
pub data Event (T : Type 0) : Type 0 where
  submitted : T → Event T
  finished : T → Event T

module _ {T : Type 0} (d : Deque T) (s : Spsc T) (num_threads : ℕ) where
  -- One step of the inner `while`. The front of a non-empty queue is there; were it not, the source
  -- would read through a null pointer.
  unfoldable pub drain_step : Pool d s num_threads → ℕ → Worker d s → Pool d s num_threads
  drain_step p i w =
      if not (s.is_empty w.spscq) && not (d.size w.wsq == d.capacity w.wsq)
      then (elim (s.front w.spscq) [
        | none ↦ p
        | some t ↦
            put d s num_threads p i (record w { wsq = d.emplace w.wsq t; spscq = s.pop w.spscq })
      ])
      else goto d s num_threads p i take

  unfoldable pub take_step : Pool d s num_threads → ℕ → Option T × d.Q → Pool d s num_threads
  take_step p i (some t, q) =
      put d s num_threads p i (record (p.workers i) { wsq = q; pc = called t })
  take_step p i (none, q) =
      put d s num_threads p i
        (record (p.workers i) { wsq = q; pc = if leb 2 num_threads then choose else soft_flag })

  unfoldable pub choose_step : Pool d s num_threads → ℕ → Worker d s → Pool d s num_threads
  unfolding wsq_size
  choose_step p i w = elim (pick_victim 2 num_threads i w.next_victim) [
    | none ↦ p
    | some v ↦
        put d s num_threads p i
          (record w { next_victim = v; pc = stealing (wsq_size d s (p.workers v) / 2) })
  ]

  unfoldable pub steal_step :
      Pool d s num_threads → (i victim rounds : ℕ) → Option T × Worker d s → Pool d s num_threads
  steal_step p i v k (some t, w) = goto d s num_threads (put d s num_threads p v w) i (holding t k)
  steal_step p i v k (none, w) = goto d s num_threads (put d s num_threads p v w) i soft_flag

  unfoldable pub task_step :
      Pool d s num_threads
      → ℕ
      → T
      → List (Submit T)
      → Submit T
      → Pool d s num_threads × List (Event T)
  unfolding enqueue_local
  task_step p i t left (local x) = (
    put d s num_threads p i (record (enqueue_local d s (p.workers i) x) { pc = running t left }),
    submitted x ∷ [],
  )
  task_step p i t left (global x) = elim (enqueue d s num_threads p x) [
    | none ↦ (p, [])
    | some p' ↦ (goto d s num_threads p' i (running t left), submitted x ∷ [])
  ]

  unfoldable pub mark_step : Pool d s num_threads → ℕ → Worker d s → Pool d s num_threads
  mark_step p i w =
      if w.active
      then put d s num_threads (record p { active_workers = fetch_sub p.active_workers }) i
          (record w { active = false; pc = soft_count })
      else goto d s num_threads p i soft_count

  -- The thread of worker `i`, at a place of its program.
  unfoldable pub worker_step :
      Pool d s num_threads
      → ℕ
      → Bool
      → List (Submit T)
      → Worker d s
      → Pc T
      → Pool d s num_threads × List (Event T)
  unfolding drain_step take_step choose_step steal_step task_step mark_step steal
  worker_step p i raced does w unstarted = (p, [])
  worker_step p i raced does w starting =
      if p.vector_alive
      then (put d s num_threads p i (record w { active = true; next_victim = 0; pc = top }), [])
      else (goto d s num_threads p i exited, [])
  worker_step p i raced does w top = (
    goto d s num_threads p i (if p.stop_flag == flag_of hard_shutdown then exited else check),
    [],
  )
  worker_step p i raced does w check =
      (goto d s num_threads p i (if d.is_empty w.wsq then drain else take), [])
  worker_step p i raced does w drain = (drain_step p i w, [])
  worker_step p i raced does w take = (take_step p i (d.pop w.wsq), [])
  worker_step p i raced does w (called t) = (goto d s num_threads p i (running t does), [])
  worker_step p i raced does w (running t []) =
      (goto d s num_threads p i soft_flag, finished t ∷ [])
  worker_step p i raced does w (running t (x ∷ left)) = task_step p i t left x
  worker_step p i raced does w choose = (choose_step p i w, [])
  worker_step p i raced does w (stealing zero) = (goto d s num_threads p i soft_flag, [])
  worker_step p i raced does w (stealing (suc k)) =
      (steal_step p i w.next_victim k (steal d s raced (p.workers w.next_victim)), [])
  worker_step p i raced does w (holding t k) =
      (put d s num_threads p i (record (enqueue_local d s w t) { pc = stealing k }), [])
  worker_step p i raced does w soft_flag = (
    goto d s num_threads p i
        (if p.stop_flag == flag_of ShutdownMode.soft_shutdown then soft_wsq else top),
    [],
  )
  worker_step p i raced does w soft_wsq =
      (goto d s num_threads p i (if d.is_empty w.wsq then soft_spsc else top), [])
  worker_step p i raced does w soft_spsc =
      (goto d s num_threads p i (if s.is_empty w.spscq then soft_mark else top), [])
  worker_step p i raced does w soft_mark = (mark_step p i w, [])
  worker_step p i raced does w soft_count =
      (goto d s num_threads p i (if p.active_workers == 0 then exited else top), [])
  worker_step p i raced does w exited = (p, [])
