-- ===== src/Async/Combine/Logging.antt =====
-- The log of the main thread grows: an operation of the user changes no input, and `attach_one` adds one.
use mini_rts.Base.{
  ℕ, ◌+◌, ◌<◌, ◌≡◌, ◌≢◌, refl, ap, sym, ◌∙◌, Option, some, List, ◌∷◌, length, arith, ◌==◌,
  Bool-cases, inl, inr,
}
use mini_rts.Base.Family.{total_ext, total_more}
use mini_rts.Async.State.{Outcome}
use mini_rts.Async.Program.{Op, spawns, thens, denote}
use mini_rts.Async.Program.Meaning.{op_at, op_at-lt, thens-lt, denote-older, IsProgram}
use mini_rts.Async.Combine.{Callee, attached, callee, user_op}
use mini_rts.Async.Combine.Reports.{outcome_report, expected, input}
use mini_rts.Async.Combine.Invariant.{input_report, IsNumbered, IsCounted}

module _ {F V E : Type 0} (call : F → Option V → Outcome V E) where
  pub user-input :
      (op : Op F) (log : List (Op (Callee F))) (i : ℕ)
      → input call (user_op op ∷ log) i ≡ input call log i
  unfolding input
  user-input (spawns f) log i = refl
  user-input (thens s f) log i = refl

  pub user-expected :
      (op : Op F) (log : List (Op (Callee F))) (m : ℕ × Option V → ℕ)
      → expected call m (user_op op ∷ log) ≡ expected call m log
  unfolding expected
  user-expected (spawns f) log m = omega arith
  user-expected (thens s f) log m = omega arith

  pub attach-input :
      (s k i : ℕ) (log : List (Op (Callee F)))
      → i ≢ k
      → input call (thens s (attached k) ∷ log) i ≡ input call log i
  unfolding input
  attach-input s k i log other = ground arith

  attached-input :
      (s k : ℕ) (log : List (Op (Callee F)))
      → input call (thens s (attached k) ∷ log) k ≡ denote (callee call) log s
  unfolding input
  attached-input s k log = ground arith

  -- An older `then` of the program is what it was.
  module _ (o : Op (Callee F)) (log : List (Op (Callee F))) (prog : IsProgram log) where
    pub denote-numbered :
        (p s i : ℕ)
        → op_at log p ≡ some (thens s (attached i))
        → denote (callee call) log s ≡ denote (callee call) (o ∷ log) s
    denote-numbered p s i e = sym (
        denote-older (callee call) o log s (
          omega
            (arith, thens-lt log p s (attached i) prog e, op_at-lt log p (thens s (attached i)) e)))

  pub user-IsNumbered :
      (op : Op F) (log : List (Op (Callee F))) (attaches : ℕ)
      → IsProgram log
      → IsNumbered call log attaches
      → IsNumbered call (user_op op ∷ log) attaches
  user-IsNumbered op log n prog h p s i e = elim (Bool-cases (p == length log)) [
    | inl here ↦ absurd (not_mine op (rw here at e))
    | inr there ↦
        let e' : op_at log p ≡ some (thens s (attached i)) = rw there at e in
        let (below, means) = h p s i e' in
        (below, user-input op log i ∙ means ∙ denote-numbered (user_op op) log prog p s i e')
  ]
    where
      not_mine : (o : Op F) → ¬ (some (user_op o) ≡ some (thens s (attached i)))
      not_mine (spawns f) q = cc
      not_mine (thens t f) q = cc

  pub attach-IsNumbered :
      (s : ℕ) (log : List (Op (Callee F))) (attaches : ℕ)
      → s < length log
      → IsProgram log
      → IsNumbered call log attaches
      → IsNumbered call (thens s (attached attaches) ∷ log) (attaches + 1)
  attach-IsNumbered s log n known prog h p t i e = elim (Bool-cases (p == length log)) [
    | inl here ↦
        let same : some (thens s (attached n)) ≡ some (thens t (attached i)) = rw here at e in
        let index : n ≡ i = cc in
        let state : s ≡ t = cc in
        let o : Op (Callee F) = thens s (attached n) in
        (
          omega (arith, index),
          ap (input call (o ∷ log)) (sym index)
              ∙ attached-input s n log
              ∙ sym (denote-older (callee call) o log s known)
              ∙ ap (denote (callee call) (o ∷ log)) state,
        )
    | inr there ↦
        let e' : op_at log p ≡ some (thens t (attached i)) = rw there at e in
        let (below, means) = h p t i e' in
        (
          omega (arith, below),
          attach-input s n i log (λ q. omega (arith, q, below))
              ∙ means
              ∙ denote-numbered (thens s (attached n)) log prog p t i e',
        )
  ]

  pub attach-IsCounted :
      (s : ℕ) (log : List (Op (Callee F))) (attaches : ℕ)
      → IsCounted call log attaches
      → IsCounted call (thens s (attached attaches) ∷ log) (attaches + 1)
  unfolding expected
  attach-IsCounted s log n h m =
      let new = thens s (attached n) ∷ log in
      omega (
        arith,
        h m,
        total_more (λ (x : ℕ). x) n (input_report call m new),
        total_ext (λ (x : ℕ). x) n (input_report call m new) (input_report call m log)
            (λ i below.
              ap (outcome_report m i) (attach-input s n i log (λ q. omega (arith, q, below)))),
        ap (outcome_report m n) (attached-input s n log),
      )
