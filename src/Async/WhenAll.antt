-- ===== src/Async/WhenAll.antt =====
-- src/async/when_all.h: what the continuations that `when_all` chains to its inputs share, and what
-- they do when they run, each in one step. The inputs are numbered, and a value is of the type of its
-- input; a `void` input has the unit value, `std::monostate`.
use mini_rts.Base.{
  ℕ, ◌+◌, ◌-◌, ◌%◌, ◌^◌, ◌<◌, ◌≡◌, refl, ap, ◌∙◌, Option, none, some, Bool, true, false, not, ◌||◌,
  List, [], ◌∷◌, length, is_some, ◌==◌, if◌then◌else◌, arith, Bool-cases, inl, inr,
}
use mini_rts.Base.Family.{update}
use mini_rts.Core.Task.{assert, ◌>>=◌, ◌>>◌}

-- `remaining`, `state` and, for `prom`, the tuple that it was resolved with.
pub record Joined (V : Type 0) : Type 0 where
  pub remaining : ℕ
  pub slots : ℕ → Option V
  pub result : Option (ℕ → V)

module _ {V : Type 0} (default : ℕ → V) where
  abbrev pub start : (inputs : ℕ) → Joined V
  start inputs = record { remaining = inputs; slots = λ i. none; result = none }

  -- `opts ? std::move(*opts) : Ts{}`
  abbrev pub or_default : (ℕ → Option V) → ℕ → V
  or_default slots i = elim (slots i) [ none ↦ default i | some v ↦ v ]

  -- `fulfill`; `none` is a promise that is resolved twice.
  unfoldable pub fulfill : Joined V → Option (Joined V)
  fulfill j =
      let left = record j { remaining = (j.remaining + 2 ^ 64 - 1) % 2 ^ 64 } in
      if j.remaining == 1
      then (do
        assert (not (is_some j.result))
        some (record left { result = some (or_default j.slots) }))
      else some left

  -- The continuation of an input, which is called with the input's value.
  unfoldable pub arrive : ℕ → V → Joined V → Option (Joined V)
  unfolding fulfill
  arrive i v j = fulfill (record j { slots = update j.slots i (some v) })

  module _ (value : ℕ → V) where
    -- The continuations of these inputs run, in this order.
    unfoldable pub arrives : List ℕ → Joined V → Option (Joined V)
    arrives [] j = some j
    arrives (i ∷ rest) j = do j' ← arrive i (value i) j; arrives rest j'

    abbrev pub contains : ℕ → List ℕ → Bool
    contains x [] = false
    contains x (i ∷ rest) = (i == x) || contains x rest

    fulfill-more :
        (j : Joined V)
        → 1 < j.remaining
        → j.remaining < 2 ^ 64
        → fulfill j ≡ some (record j { remaining = j.remaining - 1 })
    unfolding fulfill
    fulfill-more j more small =
        let less : (j.remaining + 2 ^ 64 - 1) % 2 ^ 64 ≡ j.remaining - 1 = omega arith in
        let other : (j.remaining == 1) ≡ false = ground arith in rw (other, less)

    early :
        (order : List ℕ) (j : Joined V)
        → j.result ≡ none
        → length order < j.remaining
        → j.remaining < 2 ^ 64
        → (j' : Joined V) × (arrives order j ≡ some j') × (j'.result ≡ none)
    unfolding arrives arrive
    early [] j open_still fewer small = (j, refl, open_still)
    early (i ∷ rest) j open_still fewer small =
        let j' : Joined V = record j { slots = update j.slots i (some (value i)) } in
        rw (fulfill-more j' (omega arith) small) (
          early rest (record j' { remaining = j.remaining - 1 }) open_still (omega arith)
            (omega arith))

    fulfill-last :
        (j : Joined V)
        → j.remaining ≡ 1
        → j.result ≡ none
        → fulfill j ≡ some (record j { remaining = 0; result = some (or_default j.slots) })
    unfolding fulfill
    fulfill-last j last open_still =
        let zero_left : (j.remaining + 2 ^ 64 - 1) % 2 ^ 64 ≡ 0 = omega arith in
        let it_is : (j.remaining == 1) ≡ true = ground arith in rw (it_is, zero_left, open_still)

    or_default-update :
        (slots : ℕ → Option V) (i x : ℕ)
        → or_default (update slots i (some (value i))) x
          ≡ (if i == x then value x else or_default slots x)
    or_default-update slots i x = elim (Bool-cases (i == x)) [
      | inl here ↦
          let same : i ≡ x = ground arith in
          let at : update slots i (some (value i)) x ≡ some (value x) =
            ground (arith, ap value same) in
          rw here (ap (λ (o : Option V). elim o [ none ↦ default x | some v ↦ v ]) at)
      | inr other ↦
          let at : update slots i (some (value i)) x ≡ slots x = ground arith in
          rw other (ap (λ (o : Option V). elim o [ none ↦ default x | some v ↦ v ]) at)
    ]

    late :
        (i : ℕ) (rest : List ℕ) (j : Joined V)
        → j.result ≡ none
        → length rest + 1 ≡ j.remaining
        → j.remaining < 2 ^ 64
        → (j' : Joined V) × (r : ℕ → V) × (arrives (i ∷ rest) j ≡ some j')
          × (j'.result ≡ some r)
          × ((x : ℕ) → r x ≡ (if contains x (i ∷ rest) then value x else or_default j.slots x))
    unfolding arrives arrive
    late i [] j open_still all small =
        let j' : Joined V = record j { slots = update j.slots i (some (value i)) } in
        (
          record j' { remaining = 0; result = some (or_default j'.slots) },
          or_default j'.slots,
          rw (fulfill-last j' (omega arith) open_still),
          refl,
          λ x. or_default-update j.slots i x ∙ ground arith,
        )
    late i (k ∷ rest) j open_still all small =
        let j' : Joined V = record j { slots = update j.slots i (some (value i)) } in
        let (u, r, e, got, reads) =
          late k rest (record j' { remaining = j.remaining - 1 }) open_still (omega arith)
            (omega arith) in
        (
          u,
          r,
          rw (fulfill-more j' (omega arith) small) e,
          got,
          λ x. ground (arith, reads x, or_default-update j.slots i x),
        )

  -- Fewer runs of continuations than there are inputs, whichever ran and in whatever order, fail no
  -- assertion and leave the promise of `when_all` unresolved, for fewer than 2^64 inputs.
  pub arrives_early :
      (value : ℕ → V) (inputs : ℕ) (order : List ℕ)
      → length order < inputs
      → inputs < 2 ^ 64
      → (j : Joined V) × (arrives value order (start inputs) ≡ some j) × (j.result ≡ none)
  arrives_early value inputs order fewer small = early value order (start inputs) refl fewer small

  -- As many runs of continuations as there are inputs, at least one and fewer than 2^64, resolve the
  -- promise, and not twice. In whatever order they ran, each place of the tuple has the value of its
  -- input if the continuation of that input was among them, and a default value if not.
  pub arrives_all :
      (value : ℕ → V) (inputs : ℕ) (order : List ℕ)
      → 0 < inputs
      → length order ≡ inputs
      → inputs < 2 ^ 64
      → (j : Joined V) × (r : ℕ → V) × (arrives value order (start inputs) ≡ some j)
        × (j.result ≡ some r)
        × ((x : ℕ) → r x ≡ (if contains value x order then value x else default x))
  arrives_all value inputs [] positive all small = absurd (omega arith)
  arrives_all value inputs (i ∷ rest) positive all small =
      late value i rest (start inputs) refl (omega arith) small
