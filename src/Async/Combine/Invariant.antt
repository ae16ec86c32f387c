-- ===== src/Async/Combine/Invariant.antt =====
-- What holds between the steps: the combinator has been told the inputs whose continuations have run, each
-- once and with the value of its future.
use mini_rts.Base.{ℕ, ◌<◌, ◌≡◌, refl, Option, some, Bool, List, [], ◌∷◌, weigh, All}
use mini_rts.Base.Family.{total}
use mini_rts.Async.State.{Outcome, returned}
use mini_rts.Async.Program.{Op, thens, denote}
use mini_rts.Async.Program.Invariant.{Inv}
use mini_rts.Async.Program.Meaning.{op_at}
use mini_rts.Async.Program.Steps.{init-Inv}
use mini_rts.Async.Combine.{Callee, attached, callee, callee_void, Combined, reacts, begin}
use mini_rts.Async.Combine.Reports.{outcome_report, reported, expected, input}

module _ {V J : Type 0} (react : ℕ → Option V → J → Option J) where
  -- These reports come in, in this order.
  unfoldable pub replay : List (ℕ × Option V) → Option J → Option J
  replay [] j = j
  replay (r ∷ rs) j = replay rs (reacts react (some r) j)

module _ {F V E : Type 0} (call : F → Option V → Outcome V E) where
  -- What an index measures, summed over the inputs that come to a value.
  abbrev pub input_report : (ℕ × Option V → ℕ) → List (Op (Callee F)) → ℕ → ℕ
  input_report m log i = outcome_report m i (input call log i)

  abbrev pub IsNumbered : List (Op (Callee F)) → ℕ → Type 0
  IsNumbered log attaches =
      (p s i : ℕ)
      → op_at log p ≡ some (thens s (attached i))
      → (i < attaches) × (input call log i ≡ denote (callee call) log s)

  abbrev pub IsCounted : List (Op (Callee F)) → ℕ → Type 0
  IsCounted log attaches =
      (m : ℕ × Option V → ℕ)
      → expected call m log ≡ total (λ (x : ℕ). x) attaches (input_report m log)

module _ {F V E J : Type 0} (call : F → Option V → Outcome V E) (result_void : F → Bool)
    (react : ℕ → Option V → J → Option J) (first : J) where
  pub record Holds (c : Combined F V E J) : Type 0 where
    pub reports : List (ℕ × Option V)
    pub program : Inv (callee call) (callee_void result_void) c.log (λ _. 0) c.world
    pub told : c.shared ≡ replay react reports (some first)
    pub once : (m : ℕ × Option V → ℕ) → weigh m reports ≡ reported call m c.log c.world.states
    pub sound : All (λ r. (r.0 < c.attaches) × (input call c.log r.0 ≡ returned r.1)) reports
    pub numbered : IsNumbered call c.log c.attaches
    pub counted : IsCounted call c.log c.attaches

  pub begin-Holds : Holds (begin first)
  unfolding replay reported expected total
  begin-Holds = record {
    reports = [];
    program = init-Inv (callee call) (callee_void result_void);
    told = refl;
    once = λ m. refl;
    sound = tt;
    numbered = λ p s i e. cc;
    counted = λ m. refl;
  }
