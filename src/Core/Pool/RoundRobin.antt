-- ===== src/Core/Pool/RoundRobin.antt =====
-- src/core/default_thread_pool.h: `enqueue` deals the tasks out in turn.
use mini_rts.Base.{
  ℕ, ◌+◌, ◌%◌, ◌^◌, ◌<◌, ◌≤◌, ◌≡◌, ap, ◌∙◌, ◌⊎◌, inl, inr, Option, none, some, List, [], ◌∷◌, ◌++◌,
  length, ◌==◌, if◌then◌else◌, arith, Bool-cases, Option-cases,
}
use mathlib.Core.List.{append-nil}
use native.Mathlib.Decide.{dec_lt}
use native.Mathlib.Nat.{mod-eq_of_lt, mod_self, mod-add-mod, mod-lt}
use mini_rts.Core.Queues.{Deque, Spsc}
use mini_rts.Core.Worker
use mini_rts.Core.Worker.{Worker}
use mini_rts.Core.Pool.{Pool, next_round, enqueue}
use mini_rts.Core.Pool.Enqueue.{enqueued, enqueue-some}

module _ {T : Type 0} (d : Deque T) (s : Spsc T) (n : ℕ) where
  next_round_mod : (r : ℕ) → n < 2 ^ 31 → r < n → next_round d s n r ≡ (r + 1) % n
  next_round_mod r small inside = elim (dec_lt (r + 1) n) [
    | yes more ↦ ground (arith, mod-eq_of_lt more)
    | no last ↦ let e : r + 1 ≡ n = omega arith in ground (arith, mod_self n)
  ]

  -- The queue of the worker whose turn it is, before the call.
  abbrev pub queue_in_turn : Pool d s n → s.Q
  queue_in_turn p = (p.workers p.round_robin).spscq

  -- An enqueue waits exactly while the queue of the worker whose turn it is is full. Otherwise the
  -- task goes to the back of that queue, every other worker keeps its own, and the turn passes to
  -- the next worker round the pool, for fewer than 2^31 workers.
  pub enqueue_lem :
      (p : Pool d s n) (x : T)
      → n < 2 ^ 31
      → p.round_robin < n
      → ((s.capacity (queue_in_turn p) ≤ length (s.to_list (queue_in_turn p)))
          × (enqueue d s n p x ≡ none))
        ⊎ ((q : Pool d s n) × (enqueue d s n p x ≡ some q)
            × (length (s.to_list (queue_in_turn p)) < s.capacity (queue_in_turn p))
            × ((j : ℕ)
                → s.to_list (q.workers j).spscq
                  ≡ s.to_list (p.workers j).spscq ++ (if p.round_robin == j then x ∷ [] else []))
            × (q.round_robin ≡ (p.round_robin + 1) % n))
  unfolding enqueue Worker.enqueue
  enqueue_lem p x small inside = elim (s.emplace_lem (queue_in_turn p) x) [
    | inl (full, blocked) ↦ inl (full, ground arith)
    | inr (r, room, less, holds, _) ↦ inr (
      enqueued d s n p x r,
      ground arith,
      less,
      λ j. elim (Bool-cases (p.round_robin == j)) [
        | inl here ↦ ground (arith, holds)
        | inr other ↦ ground (arith, append-nil (s.to_list (p.workers j).spscq))
      ],
      next_round_mod p.round_robin small inside,
    )
  ]

  -- Several calls in a row, none of which has to wait.
  unfoldable pub enqueue_all : Pool d s n → List T → Option (Pool d s n)
  enqueue_all p [] = some p
  enqueue_all p (x ∷ xs) = elim (enqueue d s n p x) [ none ↦ none | some q ↦ enqueue_all q xs ]

  enqueue-turn :
      (p q : Pool d s n) (x : T)
      → n < 2 ^ 31
      → p.round_robin < n
      → enqueue d s n p x ≡ some q
      → q.round_robin ≡ (p.round_robin + 1) % n
  enqueue-turn p q x small inside e =
      let (r, _, same) = enqueue-some d s n p x q e in
      ap (λ (z : Pool d s n). z.round_robin) same ∙ next_round_mod p.round_robin small inside

  -- After several enqueues, none of which waited, the turn has moved on by as many workers round
  -- the pool.
  pub enqueue_all-turn :
      (p q : Pool d s n) (xs : List T)
      → n < 2 ^ 31
      → p.round_robin < n
      → enqueue_all p xs ≡ some q
      → q.round_robin ≡ (p.round_robin + length xs) % n
  unfolding enqueue_all
  enqueue_all-turn p q [] small inside e = ground (arith, mod-eq_of_lt inside)
  enqueue_all-turn p q (x ∷ xs) small inside e = elim (Option-cases (enqueue d s n p x)) [
    | inl blocked ↦ ground arith
    | inr (p', first) ↦
        let turn = enqueue-turn p p' x small inside first in
        let below : p'.round_robin < n = rw turn (mod-lt (p.round_robin + 1) (omega arith)) in
        enqueue_all-turn p' q xs small below (rw (first, enqueue_all) at e)
        ∙ ap (λ (k : ℕ). (k + length xs) % n) turn
        ∙ mod-add-mod (p.round_robin + 1) n (length xs)
        ∙ ap (λ (k : ℕ). k % n) (omega arith)
  ]
