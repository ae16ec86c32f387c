-- ===== src/Core/Schedule/Stopping.antt =====
-- The counter of active workers, and when a worker leaves its loop.
use mini_rts.Base.{
  ℕ, ◌^◌, ◌<◌, ◌≤◌, ◌≡◌, sym, ap, ◌∙◌, ◌⊎◌, Bool, true, false, some, List, arith, subst,
}
use mini_rts.Base.Family.{total, total-update, total-congr, total-le, le-total}
use mini_rts.Core.Queues.{Deque, Spsc}
use mini_rts.Core.Worker.{
  Submit, Pc, unstarted, starting, soft_wsq, soft_spsc, soft_mark, soft_count, exited, Worker,
}
use mini_rts.Core.Pool.{Pool, Phase, launching, serving, joining, joined, dying, destroyed, enqueue}
use mini_rts.Core.Pool.Enqueue.{enqueued-worker, enqueue-some}
use mini_rts.Core.Thread.{Event}
use mini_rts.Core.Thread.Moves
use mini_rts.Core.Thread.Moves.{Move, Found, found}

-- A worker counts from its launch until it clears `active`.
abbrev pub share : {T : Type 0} → Pc T → Bool → ℕ
share unstarted active = 0
share starting active = 1
share _ true = 1
share _ false = 0

-- The places of a thread that are reached only after a shutdown was requested.
abbrev pub is_late : {T : Type 0} → Pc T → Bool
is_late soft_wsq = true
is_late soft_spsc = true
is_late soft_mark = true
is_late soft_count = true
is_late exited = true
is_late _ = false

abbrev pub is_open : Phase → Bool
is_open (launching _) = true
is_open serving = true
is_open _ = false

-- How many threads the owner has joined.
abbrev pub joined_below : ℕ → Phase → ℕ
joined_below n (joining k) = k
joined_below n joined = n
joined_below n (dying k) = k
joined_below n destroyed = n
joined_below n _ = 0

module _ {T : Type 0} (d : Deque T) (s : Spsc T) (n : ℕ) where
  abbrev pub counted : Worker d s → ℕ
  counted w = share w.pc w.active

  pub record Inv (p : Pool d s n) : Type 0 where
    pub count : p.active_workers ≡ total counted n p.workers
    pub alive : (j : ℕ) → j < n → (p.workers j).pc ≡ starting → p.vector_alive ≡ true
    pub open_flag : is_open p.phase ≡ true → (p.stop_flag ≡ 0) × (p.vector_alive ≡ true)
    pub quiet : p.stop_flag ≡ 0 → (j : ℕ) → is_late (p.workers j).pc ≡ false
    pub joined_exited : (j : ℕ) → j < joined_below n p.phase → (p.workers j).pc ≡ exited
    pub left : (j : ℕ) → (p.workers j).pc ≡ exited → (p.stop_flag ≡ 1) ⊎ (p.active_workers ≡ 0)

  pub counted-le : (w : Worker d s) → counted w ≤ 1
  counted-le w = ground arith

  -- The invariant is about places and flags, and not about queues.
  pub enqueue-Inv : (p q : Pool d s n) (x : T) → enqueue d s n p x ≡ some q → Inv p → Inv q
  enqueue-Inv p q x e v =
      let (r, _, same) = enqueue-some d s n p x q e in
      let at = λ (j : ℕ). (enqueued-worker d s n p x r j).1 in
      subst Inv (sym same) (record {
        count =
            v.count
            ∙ total-congr counted n _ _ (λ j. ground (arith, enqueued-worker d s n p x r j));
        alive = λ j b f. v.alive j b (sym (at j) ∙ f);
        open_flag = v.open_flag;
        quiet = λ z j. ground (arith, at j, v.quiet z j);
        joined_exited = λ j f. at j ∙ v.joined_exited j f;
        left = λ j f. v.left j (sym (at j) ∙ f);
      })

  sends-pc :
      (p q : Pool d s n) (x : T)
      → enqueue d s n p x ≡ some q
      → (j : ℕ)
      → ((q.workers j).pc ≡ (p.workers j).pc) × ((q.workers j).active ≡ (p.workers j).active)
  sends-pc p q x e j =
      let (r, _, same) = enqueue-some d s n p x q e in
      let at = enqueued-worker d s n p x r j in
      (
        ap (λ (z : Pool d s n). (z.workers j).pc) same ∙ at.1,
        ap (λ (z : Pool d s n). (z.workers j).active) same ∙ at.2,
      )

  module _ (small : n < 2 ^ 32) {i : ℕ} (inside : i < n) where
    pub Move-Inv :
        {p : Pool d s n} {does : List (Submit T)} {pc : Pc T} {r : Pool d s n × List (Event T)}
        → Move d s n p i does pc r
        → (p.workers i).pc ≡ pc
        → Inv p
        → Inv r.0
    Move-Inv Moves.stay at v = v
    Move-Inv {p} (Moves.sends {t} {x} {left} q e) at v =
        let v' = enqueue-Inv p q x e v in
        let here = sends-pc p q x e i in
        record {
          count = v'.count ∙ total-congr counted n _ _ (λ j. ground (arith, here));
          alive = λ j b f. ground (arith, v'.alive j);
          open_flag = v'.open_flag;
          quiet = λ z j. ground (arith, v'.quiet z j);
          joined_exited = λ j f. ground (arith, v'.joined_exited j f, here);
          left = λ j f. ground (arith, v'.left j);
        }
    Move-Inv {p} (Moves.marks yet) at v =
        let self = p.workers i in
        let one : counted self ≡ 1 = ground arith in
        let positive = le-total counted n p.workers i inside in
        record {
          count = omega (
            arith,
            one,
            v.count,
            total-le counted counted-le n p.workers,
            total-update counted n p.workers i (record self { active = false; pc = soft_count })
                inside,
          );
          alive = λ j b f. ground (arith, v.alive j);
          open_flag = v.open_flag;
          quiet = λ z j. ground (arith, v.quiet z j, v.quiet z i);
          joined_exited = λ j f. ground (arith, v.joined_exited j f);
          left = λ j f. ground (arith, v.left j, v.count, one, positive);
        }
    Move-Inv {p} mv at v = record {
      count =
          v.count ∙ total-congr counted n _ _ (λ j. ground (arith, found d s n p i mv, v.alive i));
      alive = λ j b f. ground (arith, v.alive j, v.alive i);
      open_flag = v.open_flag;
      quiet = λ z j. ground (arith, found d s n p i mv, v.alive i, v.quiet z j, v.quiet z i);
      joined_exited = λ j f. ground (arith, v.joined_exited j f);
      left = λ j f. ground (arith, found d s n p i mv, v.alive i, v.left j);
    }
