-- ===== src/Core/Queues/Weights.antt =====
-- What the laws of the queues say about weights: an operation moves items and loses none.
use mini_rts.Base.{
  ℕ, ◌+◌, ◌≡◌, ap, inl, inr, Bool, Option, none, some, [], ◌∷◌, weigh, weigh-append, arith,
}
use mini_rts.Core.Queues.{Deque, Spsc}

abbrev pub weigh_option {ℓ} : {A : Type ℓ} → (A → ℕ) → Option A → ℕ
weigh_option w none = 0
weigh_option w (some a) = w a

module _ {T : Type 0} (d : Deque T) (w : T → ℕ) where
  open d use {
    Q, make, is_empty, emplace, pop, steal, to_list, emplace_lem, pop_lem, steal_lem, make_lem,
  }

  abbrev pub weight : Q → ℕ
  weight q = weigh w (to_list q)

  pub weight-make : (n : ℕ) → weight (make n) ≡ 0
  weight-make n = ap (weigh w) (make_lem n)

  pub weight-emplace : (q : Q) (a : T) → weight (emplace q a) ≡ weight q + w a
  weight-emplace q a = rw (emplace_lem q a, weigh-append w (to_list q) (a ∷ [])) (omega arith)

  pub weight-pop : (q : Q) → weight (pop q).1 + weigh_option w (pop q).0 ≡ weight q
  weight-pop q = elim (pop_lem q) [
    | inl (e, r, f) ↦ rw (e, r, f)
    | inr (a, xs, e, r, f) ↦ rw (e, r, f, weigh-append w xs (a ∷ [])) (omega arith)
  ]

  pub weight-steal :
      (raced : Bool) (q : Q)
      → weight (steal raced q).1 + weigh_option w (steal raced q).0 ≡ weight q
  weight-steal raced q = elim (steal_lem raced q) [
    | inl (_, r, f) ↦ rw (r, f) (omega arith)
    | inr (a, xs, e, r, f) ↦ rw (e, r, f) (omega arith)
  ]

module _ {T : Type 0} (s : Spsc T) (w : T → ℕ) where
  open s use {Q, make, emplace, front, pop, to_list, make_lem, emplace_lem, front_lem}

  abbrev pub spsc_weight : Q → ℕ
  spsc_weight q = weigh w (to_list q)

  pub spsc_weight-make : (n : ℕ) → spsc_weight (make n) ≡ 0
  spsc_weight-make n = ap (weigh w) (make_lem n)

  pub spsc_weight-emplace :
      (q q' : Q) (a : T) → emplace q a ≡ some q' → spsc_weight q' ≡ spsc_weight q + w a
  spsc_weight-emplace q q' a e = elim (emplace_lem q a) [
    | inl (_, blocked) ↦ cc
    | inr (q'', r, _, f, _) ↦
        let same : q' ≡ q'' = cc in rw (same, f, weigh-append w (to_list q) (a ∷ [])) (omega arith)
  ]

  pub spsc_weight-pop :
      (q : Q) (a : T) → front q ≡ some a → spsc_weight (pop q) + w a ≡ spsc_weight q
  spsc_weight-pop q a e = elim (front_lem q) [
    | inl (_, blocked) ↦ cc
    | inr (x, f, r, _) ↦ let same : a ≡ x = cc in rw (f, same) (omega arith)
  ]
