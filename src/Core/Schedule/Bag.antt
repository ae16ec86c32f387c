-- ===== src/Core/Schedule/Bag.antt =====
-- What a pool promises: a bag of tasks. A submission adds a task, and a task that finishes was in the
-- bag and is taken out, once. The order in which tasks wait is forgotten by a quotient.
use mini_rts.Base.{ℕ, ◌+◌, ◌<◌, ◌≡◌, refl, ap, Option, none, some, List, [], ◌∷◌, weigh, arith}
use mathlib.Core.Quot.{Quot}
use mini_rts.Core.Task.{◌>>=◌}
use mini_rts.Core.Thread.{Event, submitted, finished}

-- The same tasks, each as often: the same under every weight.
abbrev pub SameTasks : {T : Type 0} → List T → List T → Type 0
SameTasks {T} a b = (w : T → ℕ) → weigh w a ≡ weigh w b

abbrev pub Bag : Type 0 → Type 0
Bag T = Quot (λ (a b : List T). SameTasks a b)

abbrev one_if_yes : {P : Type 0} → Dec P → ℕ
one_if_yes (yes e) = 1
one_if_yes (no e) = 0

module _ {T : Type 0} where
  abbrev pub bag : List T → Bag T
  bag l = Quot.mk l

module _ {T : Type 0} (dec : Discrete T) where
  abbrev pub is : T → T → ℕ
  is t x = one_if_yes (dec t x)

  pub take_out : T → List T → Option (List T)
  take_out t [] = none
  take_out t (x ∷ xs) =
      let rest = take_out t xs in
      elim (dec t x) [ yes e ↦ some xs | no e ↦ (do others ← rest; some (x ∷ others)) ]

  -- What is in the bag after these events; `none` where a task finishes that was not in the bag.
  unfoldable pub replay : List (Event T) → List T → Option (List T)
  unfolding take_out
  replay [] l = some l
  replay (submitted t ∷ es) l = replay es (t ∷ l)
  replay (finished t ∷ es) l = do l' ← take_out t l; replay es l'

  pub is_self : (t : T) → is t t ≡ 1
  is_self t = elim (dec t t) as (λ (x : Dec (t ≡ t)). one_if_yes x ≡ 1) [
    | yes e ↦ refl
    | no e ↦ absurd (e refl)
  ]

  -- A task of the bag is taken out once.
  pub take_out_lem :
      (t : T) (l : List T)
      → 0 < weigh (is t) l
      → (rest : List T) × (take_out t l ≡ some rest)
        × ((w : T → ℕ) → weigh w l ≡ w t + weigh w rest)
  unfolding take_out
  take_out_lem t [] h = absurd (omega arith)
  take_out_lem t (x ∷ xs) h =
      elim (dec t x)
          as (λ (z : Dec (t ≡ x)).
            0 < one_if_yes z + weigh (is t) xs
            → (rest : List T) × ((elim z [
              | yes e ↦ some xs
              | no e ↦ (do others ← take_out t xs; some (x ∷ others))
            ])
                ≡ some rest)
              × ((w : T → ℕ) → w x + weigh w xs ≡ w t + weigh w rest)) [
                | yes e ↦ λ _. (xs, refl, λ w. omega (arith, ap w e))
                | no e ↦ λ h'.
                    let (rest, found, same) = take_out_lem t xs (omega (arith, h')) in
                    (x ∷ rest, rw found refl, λ w. omega (arith, same w))
              ]
        h
