-- ===== src/Samples/Queueing.antt =====
-- The turn of the pool, and the choice of a victim, at concrete inputs.
use mini_rts.Base.{
  ℕ, ◌+◌, ◌%◌, ◌<◌, ◌≤◌, ◌≡◌, ◌≢◌, ◌⊎◌, refl, Option, none, some, List, [], ◌∷◌, ◌++◌, length, ◌==◌,
  if◌then◌else◌, arith,
}
use mini_rts.Core.Queues.{Deque, Spsc}
use mini_rts.Core.Queues.Listed.{list_deque, list_spsc}
use mini_rts.Core.Worker
use mini_rts.Core.Worker.Victim.{pick_victim, pick_victim_lem}
use mini_rts.Core.Pool.{Pool, construct_pool, enqueue}
use mini_rts.Core.Pool.RoundRobin.{queue_in_turn, enqueue_lem, enqueue_all, enqueue_all-turn}

abbrev pub d : Deque ℕ
d = list_deque ℕ

abbrev pub s : Spsc ℕ
s = list_spsc ℕ

abbrev pub fresh : Pool d s 3
fresh = construct_pool d s 3 2

pub fresh-turn : fresh.round_robin ≡ 0
unfolding construct_pool
fresh-turn = refl

enqueue_lem_example :
    ((s.capacity (queue_in_turn d s 3 fresh) ≤ length (s.to_list (queue_in_turn d s 3 fresh)))
      × (enqueue d s 3 fresh 7 ≡ none))
    ⊎ ((q : Pool d s 3) × (enqueue d s 3 fresh 7 ≡ some q)
        × (length (s.to_list (queue_in_turn d s 3 fresh)) < s.capacity (queue_in_turn d s 3 fresh))
        × ((j : ℕ)
            → s.to_list (q.workers j).spscq
              ≡ s.to_list (fresh.workers j).spscq
                ++ (if fresh.round_robin == j then 7 ∷ [] else []))
        × (q.round_robin ≡ (fresh.round_robin + 1) % 3))
enqueue_lem_example = enqueue_lem d s 3 fresh 7 (omega arith) (omega (arith, fresh-turn))

abbrev pub four : List ℕ
four = 7 ∷ 8 ∷ 9 ∷ 10 ∷ []

abbrev pub filled : Option (Pool d s 3)
filled = enqueue_all d s 3 fresh four

abbrev pub at_four : Pool d s 3
at_four = elim filled [ none ↦ fresh | some q ↦ q ]

pub four-fit : enqueue_all d s 3 fresh four ≡ some at_four
unfolding enqueue_all enqueue construct_pool Worker.enqueue
four-fit = refl

enqueue_all-turn_example : at_four.round_robin ≡ (fresh.round_robin + length four) % 3
enqueue_all-turn_example =
    enqueue_all-turn d s 3 fresh at_four four (omega arith) (omega (arith, fresh-turn)) four-fit

pick_victim_lem_example :
    (v' : ℕ) × (pick_victim 2 4 3 2 ≡ some v')
    × (v' ≡ (if (2 + 1) % 4 == 3 then (2 + 2) % 4 else (2 + 1) % 4))
    × (v' < 4)
    × (v' ≢ 3)
pick_victim_lem_example = pick_victim_lem 4 3 2 (omega arith) (omega arith)
