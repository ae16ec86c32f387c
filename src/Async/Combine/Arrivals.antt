-- ===== src/Async/Combine/Arrivals.antt =====
-- What the combinator is told, as runs of the continuations that src/async/when_all.h chains.
use mini_rts.Base.{
  ℕ, ◌<◌, ◌≤◌, ◌≡◌, refl, ap, sym, ◌∙◌, Option, none, some, true, false, List, [], ◌∷◌, map, length,
  weigh, All, arith, Bool-cases, inl, inr, ◌==◌, if◌then◌else◌,
}
use mini_rts.Core.Task.{◌>>=◌}
use mini_rts.Async.State.{Outcome, returned, threw}
use mini_rts.Async.Program.{Op}
use mini_rts.Async.WhenAll.{Joined, arrive, arrives, contains}
use mini_rts.Async.Combine.{Callee}
use mini_rts.Async.Combine.Reports.{input, outcome_report}
use mini_rts.Async.Combine.Invariant.{replay}
use mini_rts.Async.Combine.Counting.{value_of, has_value, one_each}

abbrev pub indices : {V : Type 0} → List (ℕ × V) → List ℕ
indices rs = map (λ r. r.0) rs

pub length-indices :
    {V : Type 0} (rs : List (ℕ × Option V)) → length (indices rs) ≡ weigh one_each rs
length-indices [] = refl
length-indices (r ∷ rs) = omega (arith, length-indices rs)

-- Whether a report of this input is among them.
abbrev pub names : {V : Type 0} → ℕ → ℕ × Option V → ℕ
names x r = if r.0 == x then 1 else 0

pub named-contains :
    {V W : Type 0} (default value : ℕ → W) (x : ℕ) (rs : List (ℕ × Option V))
    → 0 < weigh (names x) rs
    → contains default value x (indices rs) ≡ true
named-contains default value x [] some_of = absurd (omega arith)
named-contains default value x (r ∷ rs) some_of = elim (Bool-cases (r.0 == x)) [
  | inl here ↦ rw here
  | inr other ↦ rw other (named-contains default value x rs (ground arith))
]

pub not_named-contains :
    {V W : Type 0} (default value : ℕ → W) (n x : ℕ)
    → n ≤ x
    → (rs : List (ℕ × Option V)) → All (λ r. r.0 < n) rs
    → contains default value x (indices rs) ≡ false
not_named-contains default value n x past [] sound = refl
not_named-contains default value n x past (r ∷ rs) (here, rest) =
    let other : (r.0 == x) ≡ false = ground arith in
    rw other (not_named-contains default value n x past rs rest)

-- An input that has a value is counted where it is named.
pub named_report :
    {V E : Type 0} (x : ℕ) (o : Outcome V E) → has_value o ≡ true → outcome_report (names x) x o ≡ 1
named_report x (returned v) e = ground arith
named_report x (threw z) e = cc

module _ {F V E : Type 0} (call : F → Option V → Outcome V E) where
  -- The value of every input.
  abbrev pub values : List (Op (Callee F)) → ℕ → Option V
  values log i = value_of (input call log i)

module _ {F V E : Type 0} (call : F → Option V → Outcome V E) (default : ℕ → Option V) where
  -- The reports are runs of the continuations of `when_all`.
  pub replay-arrives :
      (log : List (Op (Callee F))) (rs : List (ℕ × Option V))
      → All (λ r. input call log r.0 ≡ returned r.1) rs
      → (o : Option (Joined (Option V)))
      → replay (arrive default) rs o ≡ (do j ← o; arrives default (values call log) (indices rs) j)
  unfolding replay arrives
  replay-arrives log [] sound none = refl
  replay-arrives log [] sound (some j) = refl
  replay-arrives log (r ∷ rs) (here, rest) none = replay-arrives log rs rest none
  replay-arrives log ((i, v) ∷ rs) (here, rest) (some j) =
      let same : values call log i ≡ v = ap value_of here in
      replay-arrives log rs rest (arrive default i v j)
      ∙ ap (λ x. do j' ← arrive default i x j; arrives default (values call log) (indices rs) j')
          (sym same)
