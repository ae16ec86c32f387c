-- ===== src/Core/Pool/Dealing.antt =====
-- src/core/default_thread_pool.h: what several calls of `enqueue` put into each queue, against dealing
-- a list out round a table.
use mini_rts.Base.{
  ℕ, ◌+◌, ◌%◌, ◌^◌, ◌<◌, ◌≡◌, refl, ap, sym, ◌∙◌, some, List, [], ◌∷◌, ◌++◌, ◌==◌, if◌then◌else◌,
  arith, inl, inr,
}
use mathlib.Core.List.{append_assoc, append-nil}
use native.Mathlib.Nat.{mod-eq_of_lt, mod-add-mod, mod-lt}
use mini_rts.Core.Queues.{Deque, Spsc}
use mini_rts.Core.Pool.{Pool}
use mini_rts.Core.Pool.RoundRobin.{enqueue_lem, enqueue_all}

module _ {T : Type 0} where
  -- What the seat `j` of `n` gets if the first item goes to the seat `r`, counted round the table.
  abbrev pub dealt : (n r j : ℕ) → List T → List T
  dealt n r j [] = []
  dealt n r j (x ∷ xs) = (if r % n == j then x ∷ [] else []) ++ dealt n (r + 1) j xs

  dealt_mod : (n a b j : ℕ) (xs : List T) → a % n ≡ b % n → dealt n a j xs ≡ dealt n b j xs
  dealt_mod n a b j [] e = refl
  dealt_mod n a b j (x ∷ xs) e =
      let next : (a + 1) % n ≡ (b + 1) % n =
        sym (mod-add-mod a n 1) ∙ ap (λ (k : ℕ). (k + 1) % n) e ∙ mod-add-mod b n 1 in
      rw (e, dealt_mod n (a + 1) (b + 1) j xs next) refl

module _ {T : Type 0} (d : Deque T) (s : Spsc T) (n : ℕ) where
  -- After several enqueues, none of which waited, for fewer than 2^31 workers, the queue of each
  -- worker holds what it held and then its share of the tasks, dealt out from the worker whose turn it
  -- was.
  pub enqueue_all-dealt :
      (p q : Pool d s n) (xs : List T) (j : ℕ)
      → n < 2 ^ 31
      → p.round_robin < n
      → enqueue_all d s n p xs ≡ some q
      → s.to_list (q.workers j).spscq ≡ s.to_list (p.workers j).spscq ++ dealt n p.round_robin j xs
  unfolding enqueue_all
  enqueue_all-dealt p q [] j small inside e =
      let same : p ≡ q = ground arith in
      ap (λ (z : Pool d s n). s.to_list (z.workers j).spscq) (sym same)
      ∙ sym (append-nil (s.to_list (p.workers j).spscq))
  enqueue_all-dealt p q (x ∷ xs) j small inside e = elim (enqueue_lem d s n p x small inside) [
    | inl (_, blocked) ↦ ground arith
    | inr (p', first, _, holds, turn) ↦
        let below : p'.round_robin < n = rw turn (mod-lt (p.round_robin + 1) (omega arith)) in
        let share : List T = if p.round_robin == j then x ∷ [] else [] in
        let rest : dealt n p'.round_robin j xs ≡ dealt n (p.round_robin + 1) j xs =
          ap (λ (r : ℕ). dealt n r j xs) turn
          ∙ dealt_mod n ((p.round_robin + 1) % n) (p.round_robin + 1) j xs
              (mod-eq_of_lt (mod-lt (p.round_robin + 1) (omega arith))) in
        let own : p.round_robin % n ≡ p.round_robin = mod-eq_of_lt inside in
        enqueue_all-dealt p' q xs j small below (rw (first, enqueue_all) at e)
        ∙ ap (λ l. l ++ dealt n p'.round_robin j xs) (holds j)
        ∙ append_assoc (s.to_list (p.workers j).spscq) share (dealt n p'.round_robin j xs)
        ∙ ap (λ l. s.to_list (p.workers j).spscq ++ (share ++ l)) rest
        ∙ ap
            (λ (r : ℕ).
              s.to_list (p.workers j).spscq
              ++ ((if r == j then x ∷ [] else []) ++ dealt n (p.round_robin + 1) j xs))
            (sym own)
  ]
