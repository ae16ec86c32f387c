-- ===== src/Core/Worker/Victim.antt =====
-- src/core/worker.cpp: the loop that picks the next worker to steal from.
use mini_rts.Base.{
  ℕ, zero, suc, ap, ◌∙◌, ◌+◌, ◌%◌, ◌≤◌, ◌<◌, ◌≡◌, ◌≢◌, Option, none, some, ◌==◌, if◌then◌else◌,
  arith,
}
use native.Mathlib.Decide.{dec_lt}
use native.Mathlib.Nat.{mod-eq_of_lt, mod_self, mod-add-mod}

-- `++next_victim; if (next_victim == workers_end) next_victim = workers_begin;`
unfoldable pub advance : (workers_end next_victim : ℕ) → ℕ
advance workers_end v = if v + 1 == workers_end then 0 else v + 1

-- `do … while (next_victim == this)`; `none` is out of fuel.
unfoldable pub pick_victim : (fuel workers_end self next_victim : ℕ) → Option ℕ
unfolding advance
pick_victim zero e self v = none
pick_victim (suc fuel) e self v =
    let v' = advance e v in
    let again = pick_victim fuel e self v' in if v' == self then again else some v'

advance_mod : (n v : ℕ) → v < n → advance n v ≡ (v + 1) % n
unfolding advance
advance_mod n v inside = elim (dec_lt (v + 1) n) [
  | yes more ↦ ground (arith, mod-eq_of_lt more)
  | no last ↦ let e : v + 1 ≡ n = omega arith in ground (arith, mod_self n)
]

advance-lt : (n v : ℕ) → v < n → advance n v < n
unfolding advance
advance-lt n v inside = ground arith

-- Two steps on from a worker is another worker than one step on.
advance-ne : (n v : ℕ) → 2 ≤ n → v < n → advance n (advance n v) ≢ advance n v
unfolding advance
advance-ne n v two inside = ground arith

abbrev pub next_other : (n self v : ℕ) → ℕ
next_other n self v = if advance n v == self then advance n (advance n v) else advance n v

pick_victim_runs :
    (n self v : ℕ) → 2 ≤ n → v < n → pick_victim 2 n self v ≡ some (next_other n self v)
unfolding pick_victim
pick_victim_runs n self v two inside = ground (arith, advance-ne n v two inside)

advance_twice_mod : (n v : ℕ) → v < n → advance n (advance n v) ≡ (v + 2) % n
advance_twice_mod n v inside =
    advance_mod n (advance n v) (advance-lt n v inside)
    ∙ ap (λ (k : ℕ). (k + 1) % n) (advance_mod n v inside)
    ∙ mod-add-mod (v + 1) n 1
    ∙ ap (λ (k : ℕ). k % n) (omega arith)

next_other_mod :
    (n self v : ℕ)
    → v < n
    → next_other n self v ≡ (if (v + 1) % n == self then (v + 2) % n else (v + 1) % n)
next_other_mod n self v inside = rw (advance_twice_mod n v inside, advance_mod n v inside)

-- With two workers or more, from a worker of the vector, the loop ends within two rounds. It picks the
-- next worker round the vector, and the one after it if that is the thief itself; so it stays in the
-- vector, and no worker steals from itself.
pub pick_victim_lem :
    (n self v : ℕ)
    → 2 ≤ n
    → v < n
    → (v' : ℕ) × (pick_victim 2 n self v ≡ some v')
      × (v' ≡ (if (v + 1) % n == self then (v + 2) % n else (v + 1) % n))
      × (v' < n)
      × (v' ≢ self)
pick_victim_lem n self v two inside = (
  next_other n self v,
  pick_victim_runs n self v two inside,
  next_other_mod n self v inside,
  ground (arith, advance-lt n v inside, advance-lt n (advance n v)),
  ground (arith, advance-ne n v two inside),
)

-- From a worker of the vector, whatever the fuel, a victim that is picked is another worker of the
-- pool.
pub pick_victim-other :
    (fuel n self v v' : ℕ) → v < n → pick_victim fuel n self v ≡ some v' → (v' < n) × (v' ≢ self)
unfolding pick_victim
pick_victim-other zero n self v v' inside e = cc
pick_victim-other (suc fuel) n self v v' inside e = ground (
  arith,
  advance-lt n v inside,
  pick_victim-other fuel n self (advance n v) v' (advance-lt n v inside),
)
