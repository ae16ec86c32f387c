-- ===== src/Core/Schedule/Refines.antt =====
-- Every schedule of a pool does what the bag of tasks allows, and the pool holds what is in the bag.
use mini_rts.Base.{
  ℕ, zero, suc, ◌<◌, ◌≤◌, ◌≡◌, refl, sym, ◌∙◌, inl, inr, Bool, none, some, List, [], ◌∷◌, ◌++◌,
  length, weigh, weigh-append, arith, ltb, if_cases, Option-cases,
}
use mathlib.Core.Quot
use mini_rts.Base.Family.{total}
use mini_rts.Core.Queues.{Deque, Spsc}
use mini_rts.Core.Worker.{Submit, Pc, called, running, holding, Worker}
use mini_rts.Core.Pool.{Pool, construct_pool, submit_step}
use mini_rts.Core.Thread.{Event, submitted, finished}
use mini_rts.Core.Thread.Moves
use mini_rts.Core.Thread.Moves.{Move, worker_step-Move}
use mini_rts.Core.Schedule.{Action, work, shown, act, run}
use mini_rts.Core.Schedule
use mini_rts.Core.Schedule.Bag.{Bag, bag, is, is_self, replay, take_out, take_out_lem}
use mini_rts.Core.Schedule.Bounds.{Bounds, act-Bounds, construct_pool-Bounds}
use mini_rts.Core.Schedule.Exactly.{act-Conserves, construct_pool-pending}
use mini_rts.Core.Schedule.Weights.{hand, worker_weight, pending, Conserves}

abbrev pub in_hand : {T : Type 0} → Pc T → List T
in_hand (called t) = t ∷ []
in_hand (running t left) = t ∷ []
in_hand (holding t k) = t ∷ []
in_hand _ = []

hand-weigh : {T : Type 0} (w : T → ℕ) (pc : Pc T) → weigh w (in_hand pc) ≡ hand w pc
hand-weigh w pc = ground arith

module _ {T : Type 0} (d : Deque T) (s : Spsc T) where
  abbrev pub held_by : Worker d s → List T
  held_by x = d.to_list x.wsq ++ (s.to_list x.spscq ++ in_hand x.pc)

  -- All that the first `n` workers hold.
  pub held : ℕ → (ℕ → Worker d s) → List T
  held zero f = []
  held (suc k) f = held_by (f k) ++ held k f

  weigh-held :
      (m : ℕ) (w : T → ℕ) (n : ℕ) (f : ℕ → Worker d s)
      → weigh w (held n f) ≡ total (worker_weight d s m w) n f
  unfolding held total
  weigh-held m w zero f = refl
  weigh-held m w (suc k) f =
      let x = f k in
      omega (
        arith,
        weigh-append w (held_by x) (held k f),
        weigh-append w (d.to_list x.wsq) (s.to_list x.spscq ++ in_hand x.pc),
        weigh-append w (s.to_list x.spscq) (in_hand x.pc),
        hand-weigh w x.pc,
        weigh-held m w k f,
      )

module _ {T : Type 0} (dec : Discrete T) (d : Deque T) (s : Spsc T) (n : ℕ) where
  -- The tasks that a pool holds, in no order.
  abbrev pub contents : Pool d s n → Bag T
  contents p = bag (held d s n p.workers)

  -- The list holds what the pool holds.
  abbrev Mirrors : List T → Pool d s n → Type 0
  Mirrors l p = (w : T → ℕ) → weigh w l ≡ pending d s n w p

  abbrev Follows : List T → Pool d s n × List (Event T) → Type 0
  Follows l r = (l' : List T) × (replay dec r.1 l ≡ some l') × Mirrors l' r.0

  -- An action shows one event at most.
  Move-short :
      {p : Pool d s n} {i : ℕ} {does : List (Submit T)} {pc : Pc T}
      {r : Pool d s n × List (Event T)}
      → Move d s n p i does pc r
      → length r.1 ≤ 1
  Move-short Moves.finishes = omega arith
  Move-short _ = ground arith

  submit_step-short : (p : Pool d s n) (x : T) (b : Bool) → length (shown x b) ≤ 1
  submit_step-short p x b = ground arith

  act-short : (p : Pool d s n) (a : Action T) → Bounds d s n p → length (act d s n p a).1 ≤ 1
  unfolding act
  act-short p (work i raced does) b =
      if_cases (λ (r : Pool d s n × List (Event T)). length r.1 ≤ 1) (ltb i n) _ _
        (λ _. Move-short (worker_step-Move d s n p i raced does (p.workers i).pc (b.victims i)))
        (λ _. omega arith)
  act-short p Schedule.launch b = omega arith
  act-short p (Schedule.submit x) b = submit_step-short p x (submit_step d s n p x p.phase).1
  act-short p (Schedule.finalize m) b = omega arith
  act-short p Schedule.join b = omega arith
  act-short p Schedule.destroy b = omega arith

  follows :
      (l : List T) (p q : Pool d s n) (es : List (Event T))
      → length es ≤ 1
      → Mirrors l p
      → ((w : T → ℕ) → Conserves d s n w p (q, es))
      → Follows l (q, es)
  unfolding replay
  follows l p q [] short m c = (l, refl, λ w. omega (arith, m w, c w))
  follows l p q (submitted t ∷ []) short m c = (t ∷ l, refl, λ w. omega (arith, m w, c w))
  follows l p q (finished t ∷ []) short m c =
      let (rest, found, same) =
        take_out_lem dec t l (omega (arith, m (is dec t), c (is dec t), is_self dec t)) in
      (rest, rw found refl, λ w. omega (arith, m w, c w, same w))
  follows l p q (e ∷ f ∷ es) short m c = absurd (omega arith)

  replay-append :
      (es fs : List (Event T)) (l l' : List T)
      → replay dec es l ≡ some l'
      → replay dec (es ++ fs) l ≡ replay dec fs l'
  unfolding replay
  replay-append [] fs l l' e = ground arith
  replay-append (submitted t ∷ es) fs l l' e = replay-append es fs (t ∷ l) l' e
  replay-append (finished t ∷ es) fs l l' e = elim (Option-cases (take_out dec t l)) [
    | inl missing ↦ let bad : none ≡ some l' = rw missing at e in cc
    | inr (rest, found) ↦ rw found (replay-append es fs rest l' (rw found at e))
  ]

  run-Follows :
      (schedule : List (Action T)) (p : Pool d s n) (l : List T)
      → Bounds d s n p
      → Mirrors l p
      → Follows l (run d s n p schedule)
  unfolding run replay
  run-Follows [] p l b m = (l, refl, m)
  run-Follows (a ∷ rest) p l b m =
      let (p', e) = act d s n p a in
      let (l', first, m') =
        follows l p p' e (act-short p a b) m (λ w. act-Conserves d s n w p a b) in
      let (l'', others, m'') = run-Follows rest p' l' (act-Bounds d s n p a b) m' in
      (l'', replay-append e (run d s n p' rest).1 l l' first ∙ others, m'')

  -- From the construction of a pool with at least one worker, in every schedule: what the pool shows
  -- is what the bag allows, so a task finishes only after it was submitted, and not more often; and
  -- the bag that the events lead to is what the queues and the hands of the workers hold.
  pub run_refines :
      (queue_capacity : ℕ) (schedule : List (Action T))
      → 0 < n
      → (l : List T) × (replay dec (run d s n (construct_pool d s n queue_capacity) schedule).1 []
          ≡ some l)
        × (bag l ≡ contents (run d s n (construct_pool d s n queue_capacity) schedule).0)
  unfolding pending
  run_refines c schedule positive =
      let p = construct_pool d s n c in
      let (l, e, m) =
        run-Follows schedule p [] (construct_pool-Bounds d s n c positive)
          (λ w. sym (construct_pool-pending d s n w c)) in
      (l, e, Quot.sound (λ w. m w ∙ sym (weigh-held d s n w n (run d s n p schedule).0.workers)))
