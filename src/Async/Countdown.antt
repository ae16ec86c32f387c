-- ===== src/Async/Countdown.antt =====
-- src/async/when_all.h and src/async/when_any.h, the branches for inputs that are all void: a counter
-- that each continuation takes one off, from the number of inputs in the one and from 1 in the other.
use mini_rts.Base.{
  ℕ, zero, suc, ◌+◌, ◌-◌, ◌%◌, ◌^◌, ◌<◌, ◌≡◌, ◌≢◌, refl, sym, ◌∙◌, Option, some, Bool, true, false,
  not, leb, ◌==◌, if◌then◌else◌, arith, Bool-cases, inl, inr,
}
use mini_rts.Core.Task.{assert, ◌>>=◌, ◌>>◌}

-- `remaining`, and whether `prom` is resolved.
pub record Countdown : Type 0 where
  pub remaining : ℕ
  pub resolved : Bool

abbrev pub all_of : (inputs : ℕ) → Countdown
all_of inputs = record { remaining = inputs; resolved = false }

abbrev pub any_of : Countdown
any_of = record { remaining = 1; resolved = false }

-- `fulfill`; `none` is a promise that is resolved twice.
unfoldable pub count_down : Countdown → Option Countdown
count_down c =
    let left = record c { remaining = (c.remaining + 2 ^ 64 - 1) % 2 ^ 64 } in
    if c.remaining == 1
    then (do assert (not c.resolved); some (record left { resolved = true }))
    else some left

-- So many continuations run.
unfoldable pub count_downs : ℕ → Countdown → Option Countdown
count_downs zero c = some c
count_downs (suc k) c = do c' ← count_downs k c; count_down c'

-- From a counter that is not zero, after fewer runs than take it to its start a second time: no
-- assertion fails, the counter has gone down by the runs, past zero with the wrap-around of its type,
-- and the promise is resolved exactly if the runs are at least as many as the counter began with.
pub count_downs_lem :
    (first k : ℕ)
    → 0 < first
    → first < 2 ^ 64
    → k < first + 2 ^ 64
    → count_downs k (record { remaining = first; resolved = false })
      ≡ some (record { remaining = (first + 2 ^ 64 - k) % 2 ^ 64; resolved = leb first k })
unfolding count_downs count_down
count_downs_lem first zero positive small few =
    let same : (first + 2 ^ 64 - 0) % 2 ^ 64 ≡ first = omega arith in
    let early : leb first 0 ≡ false = ground arith in rw (same, early) refl
count_downs_lem first (suc k) positive small few =
    let r : ℕ = (first + 2 ^ 64 - k) % 2 ^ 64 in
    let before = count_downs_lem first k positive small (omega arith) in
    rw before (step r (leb first k) refl refl)
  where
    step :
        (r : ℕ) (b : Bool)
        → (first + 2 ^ 64 - k) % 2 ^ 64 ≡ r
        → leb first k ≡ b
        → count_down (record { remaining = r; resolved = b })
          ≡ some (record {
            remaining = (first + 2 ^ 64 - suc k) % 2 ^ 64;
            resolved = leb first (suc k);
          })
    step r b at yet = elim (Bool-cases (suc k == first)) [
      | inl last ↦
          let it_is : suc k ≡ first = ground arith in
          let one_left : r ≡ 1 = omega (arith, at, it_is) in
          let hit : (r == 1) ≡ true = ground (arith, one_left) in
          let shut : b ≡ false = sym yet ∙ ground (arith, it_is) in
          let now : leb first (suc k) ≡ true = ground (arith, it_is) in
          let down : (r + 2 ^ 64 - 1) % 2 ^ 64 ≡ (first + 2 ^ 64 - suc k) % 2 ^ 64 =
            omega (arith, at, it_is, one_left) in
          rw (hit, shut, down, now) refl
      | inr other ↦
          let apart : suc k ≢ first = ground arith in
          let more : r ≢ 1 = λ e. omega (arith, at, apart, e) in
          let miss : (r == 1) ≡ false = ground (arith, more) in
          let same : b ≡ leb first (suc k) = sym yet ∙ ground (arith, apart) in
          let down : (r + 2 ^ 64 - 1) % 2 ^ 64 ≡ (first + 2 ^ 64 - suc k) % 2 ^ 64 =
            omega (arith, at, more) in
          rw (miss, down, same) refl
    ]
