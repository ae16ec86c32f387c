-- ===== src/Async/Combine/Reports.antt =====
-- What the combinator is told, in the end: the inputs whose continuations have run and whose futures did
-- not come to an exception.
use mini_rts.Base.{
  ℕ, ◌+◌, ◌<◌, ◌≡◌, refl, ap, sym, ◌∙◌, Option, none, some, true, false, List, [], ◌∷◌, length,
  ◌==◌, if◌then◌else◌, arith, Bool-cases, inl, inr,
}
use mini_rts.Async.State.{Outcome, returned, threw, SharedState}
use mini_rts.Async.Program.{Op, spawns, thens, denote}
use mini_rts.Async.Program.Meaning.{
  op_at, op_at-lt, thens-lt, denote-older, IsProgram, IsProgram-tail, head_reads,
}
use mini_rts.Async.Program.Invariant.{is_ready}
use mini_rts.Async.Combine.{Callee, user, attached, callee}

-- What a measure of reports gives for an outcome.
abbrev pub outcome_report : {V E : Type 0} → (ℕ × Option V → ℕ) → ℕ → Outcome V E → ℕ
outcome_report m i (returned v) = m (i, v)
outcome_report m i (threw e) = 0

-- What it gives for an operation, where the futures come to these outcomes.
abbrev pub op_report : {F V E : Type 0} → (ℕ × Option V → ℕ) → Op (Callee F) → (ℕ → Outcome V E) → ℕ
op_report m (spawns f) outcomes = 0
op_report m (thens s (user f)) outcomes = 0
op_report m (thens s (attached i)) outcomes = outcome_report m i (outcomes s)

module _ {F V E : Type 0} (call : F → Option V → Outcome V E) where
  -- The reports of the tasks that have run.
  unfoldable pub reported :
      (ℕ × Option V → ℕ) → List (Op (Callee F)) → (ℕ → SharedState (Callee F) V E) → ℕ
  reported m [] states = 0
  reported m (op ∷ older) states =
      (if is_ready states (length older) then op_report m op (denote (callee call) older) else 0)
      + reported m older states

  -- The reports of all that the main thread has attached.
  unfoldable pub expected : (ℕ × Option V → ℕ) → List (Op (Callee F)) → ℕ
  expected m [] = 0
  expected m (op ∷ older) = op_report m op (denote (callee call) older) + expected m older

  -- The value of the future that is the input of this number.
  unfoldable pub input : List (Op (Callee F)) → ℕ → Outcome V E
  input [] i = returned none
  input (spawns f ∷ older) i = input older i
  input (thens s (user f) ∷ older) i = input older i
  input (thens s (attached k) ∷ older) i =
      if k == i then denote (callee call) older s else input older i

  -- A report reads no outcome but that of an older future.
  op_report-older :
      (m : ℕ × Option V → ℕ) (o op : Op (Callee F)) (older : List (Op (Callee F)))
      → ((s : ℕ) (f : Callee F) → op ≡ thens s f → s < length older)
      → op_report m op (denote (callee call) older)
        ≡ op_report m op (denote (callee call) (o ∷ older))
  op_report-older m o (spawns f) older reads = refl
  op_report-older m o (thens s (user f)) older reads = refl
  op_report-older m o (thens s (attached i)) older reads =
      ap (outcome_report m i)
        (sym (denote-older (callee call) o older s (reads s (attached i) refl)))

  pub reported-same :
      (m : ℕ × Option V → ℕ) (ops : List (Op (Callee F))) (a b : ℕ → SharedState (Callee F) V E)
      → ((i : ℕ) → i < length ops → is_ready a i ≡ is_ready b i)
      → reported m ops a ≡ reported m ops b
  unfolding reported
  reported-same m [] a b same = refl
  reported-same m (op ∷ older) a b same =
      let here = same (length older) (omega arith) in
      let there = reported-same m older a b (λ i le. same i (omega (arith, le))) in
      rw here (omega (arith, there))

  -- An operation reports nothing as long as its promise is not ready.
  pub reported-unready :
      (m : ℕ × Option V → ℕ) (op : Op (Callee F)) (ops : List (Op (Callee F)))
      (states : ℕ → SharedState (Callee F) V E)
      → is_ready states (length ops) ≡ false
      → reported m (op ∷ ops) states ≡ reported m ops states
  unfolding reported
  reported-unready m op ops states open_still = rw open_still (omega arith)

  -- A promise that becomes ready adds the report of its operation.
  pub reported-resolved :
      (m : ℕ × Option V → ℕ) (ops : List (Op (Callee F))) (p : ℕ) (op : Op (Callee F))
      (a b : ℕ → SharedState (Callee F) V E)
      → IsProgram ops
      → op_at ops p ≡ some op
      → is_ready a p ≡ false
      → ((i : ℕ) → is_ready b i ≡ (if p == i then true else is_ready a i))
      → reported m ops b ≡ reported m ops a + op_report m op (denote (callee call) ops)
  unfolding reported
  reported-resolved m [] p op a b prog e open_still now = cc
  reported-resolved m (o ∷ older) p op a b prog e open_still now =
      elim (Bool-cases (p == length older)) [
        | inl here ↦
            let place : p ≡ length older = ground arith in
            let same : o ≡ op = ground arith in
            let was : is_ready a (length older) ≡ false =
              ap (is_ready a) (sym place) ∙ open_still in
            let is_now : is_ready b (length older) ≡ true = now (length older) ∙ ground arith in
            let rest = reported-same m older b a (λ i le. now i ∙ ground arith) in
            let means = op_report-older m o o older (head_reads (callee call) o older prog) in
            rw (was, is_now)
              (omega (
                arith,
                rest,
                means,
                ap (λ z. op_report m z (denote (callee call) (o ∷ older))) same,
              ))
        | inr there ↦
            let e' : op_at older p ≡ some op = rw there at e in
            let prog' = IsProgram-tail o older prog in
            let below = op_at-lt older p op e' in
            let kept : is_ready b (length older) ≡ is_ready a (length older) =
              now (length older) ∙ ground arith in
            let rest = reported-resolved m older p op a b prog' e' open_still now in
            let means =
              op_report-older m o op older
                (λ s f q. omega (arith, below, thens-lt older p s f prog' (e' ∙ ap some q))) in
            rw kept (omega (arith, rest, means))
      ]
