-- ===== src/System/Finding.antt =====
-- A task in a list of tasks, found by the closure that it runs.
use mini_rts.Base.{ℕ, suc, some, ◌+◌, ◌<◌, ◌≡◌, refl, List, [], ◌∷◌, weigh, All, arith}
use native.Mathlib.Decide.{ℕ_discrete}
use mini_rts.Core.Worker.{Submit, task_of}
use mini_rts.Core.Schedule.Bag.{is}
use mini_rts.Async.State.{Closure}
use mini_rts.Async.Program.{remove}

module _ {T : Type 0} (dec : Discrete T) (P : Submit T → Type 0) where
  -- A task of the list that runs `c`, its place, and the list without it.
  abbrev pub Finds : T → List (Submit T) → Type 0
  Finds c l =
      (k : ℕ) × (t : Submit T) × (rest : List (Submit T)) × (remove k l ≡ some (t, rest))
      × (task_of t ≡ c)
      × P t
      × All P rest
      × ((m : Submit T → ℕ) → weigh m l ≡ m t + weigh m rest)

  pub find_out :
      (c : T) (l : List (Submit T)) → All P l → 0 < weigh (λ t. is dec c (task_of t)) l → Finds c l
  find_out c [] g h = absurd (omega arith)
  find_out c (x ∷ xs) (here, g) h = elim (dec c (task_of x)) [
    | yes e ↦ (0, x, xs, refl, cc, here, g, λ m. refl)
    | no e ↦
        let (k, t, rest, out, same, holds, others, weight) = find_out c xs g (ground arith) in
        (suc k, t, x ∷ rest, rw out refl, same, holds, (here, others), λ m. omega (arith, weight m))
  ]

pub closure_discrete : {F : Type 0} → Discrete F → Discrete (Closure F)
closure_discrete dec = hlevel (dec, ℕ_discrete)
