-- ===== src/Async/WhenAny.antt =====
-- src/async/when_any.h: what the continuations that `when_any` chains to its inputs share. A
-- continuation loads the flag; if that is not set it exchanges the flag; and if it was the one to set it,
-- it resolves the promise: three steps, between which others may come.
pub mod Winner
use mini_rts.Base.{
  ℕ, Option, none, some, Bool, true, false, not, List, [], ◌∷◌, is_some, if◌then◌else◌,
}
use mini_rts.Base.Family.{update}
use mini_rts.Core.Task.{assert, ◌>>=◌, ◌>>◌}

-- `won`; the continuations that have found it unset; those whose exchange has set it, and that have not
-- called `set_value`; and what `prom` was resolved with: the variant's alternative and its value.
pub record Race (V : Type 0) : Type 0 where
  pub won : Bool
  pub passed : ℕ → Bool
  pub chosen : ℕ → Bool
  pub result : Option (ℕ × V)

pub data Turn : Type 0 where
  loads exchanges resolves : (i : ℕ) → Turn

module _ {V : Type 0} where
  -- `won->compare_exchange_strong(expected, true, …)`
  unfoldable pub exchange : ℕ → Race V → Race V
  exchange i r = if r.won then r else record r { won = true; chosen = update r.chosen i true }

module _ {V : Type 0} (value : ℕ → V) where
  abbrev pub start : Race V
  start = record { won = false; passed = λ i. false; chosen = λ i. false; result = none }

  -- `prom.set_value(…)`; `none` is a promise that is resolved twice.
  unfoldable pub set_result : ℕ → Race V → Option (Race V)
  set_result i r = do
    assert (not (is_some r.result))
    some (record r { result = some (i, value i) })

  -- A step that is not due changes nothing.
  unfoldable pub turn : Turn → Race V → Option (Race V)
  unfolding exchange set_result
  turn (loads i) r = some (record r { passed = update r.passed i (not r.won) })
  turn (exchanges i) r =
      if r.passed i
      then some (exchange i (record r { passed = update r.passed i false }))
      else some r
  turn (resolves i) r =
      if r.chosen i then set_result i (record r { chosen = update r.chosen i false }) else some r

  unfoldable pub turns : List Turn → Race V → Option (Race V)
  turns [] r = some r
  turns (t ∷ rest) r = do r' ← turn t r; turns rest r'
