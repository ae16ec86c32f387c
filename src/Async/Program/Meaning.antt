-- ===== src/Async/Program/Meaning.antt =====
-- The operation that made a future, and the equation that its meaning satisfies.
use mini_rts.Base.{
  ℕ, ◌<◌, ◌≡◌, refl, ap, sym, subst, ◌∙◌, Option, none, some, List, [], ◌∷◌, length, arith, ◌==◌,
  if◌then◌else◌, Bool-cases, inl, inr,
}
use mini_rts.Async.State.{Outcome}
use mini_rts.Async.Program.{Op, spawns, thens, chain, eval, denote}

module _ {F : Type 0} where
  abbrev pub op_at : List (Op F) → ℕ → Option (Op F)
  op_at [] i = none
  op_at (op ∷ older) i = if i == length older then some op else op_at older i

  -- A continuation is chained to a future that is older.
  abbrev pub IsProgram : List (Op F) → Type 0
  IsProgram [] = Unit
  IsProgram (spawns f ∷ older) = IsProgram older
  IsProgram (thens s f ∷ older) = (s < length older) × IsProgram older

  pub op_at-lt : (ops : List (Op F)) (i : ℕ) (op : Op F) → op_at ops i ≡ some op → i < length ops
  op_at-lt [] i op e = cc
  op_at-lt (o ∷ older) i op e = ground (arith, op_at-lt older i op)

  pub op_at-total :
      (ops : List (Op F)) (i : ℕ) → i < length ops → (op : Op F) × (op_at ops i ≡ some op)
  op_at-total [] i h = absurd (omega arith)
  op_at-total (o ∷ older) i h = elim (Bool-cases (i == length older)) [
    | inl here ↦ (o, rw here)
    | inr there ↦ let (op, e) = op_at-total older i (ground arith) in (op, rw there e)
  ]

  pub IsProgram-tail : (op : Op F) (ops : List (Op F)) → IsProgram (op ∷ ops) → IsProgram ops
  IsProgram-tail (spawns f) ops h = h
  IsProgram-tail (thens s f) ops h = h.1

  pub thens-lt :
      (ops : List (Op F)) (i s : ℕ) (f : F) → IsProgram ops → op_at ops i ≡ some (thens s f) → s < i
  thens-lt [] i s f h e = cc
  thens-lt (spawns g ∷ older) i s f h e = ground (arith, thens-lt older i s f h)
  thens-lt (thens t g ∷ older) i s f h e = ground (arith, thens-lt older i s f h.1)

  pub op_at-older :
      (op : Op F) (ops : List (Op F)) (i : ℕ) → i < length ops → op_at (op ∷ ops) i ≡ op_at ops i
  op_at-older op ops i h = ground arith

module _ {F V E : Type 0} (call : F → Option V → Outcome V E) where
  pub denote-older :
      (op : Op F) (ops : List (Op F)) (i : ℕ)
      → i < length ops
      → denote call (op ∷ ops) i ≡ denote call ops i
  unfolding denote
  denote-older op ops i h = ground arith

  -- An operation reads no meaning but that of an older future.
  eval-older :
      (o op : Op F) (older : List (Op F))
      → ((s : ℕ) (f : F) → op ≡ thens s f → s < length older)
      → eval call op (denote call older) ≡ eval call op (denote call (o ∷ older))
  eval-older o (spawns f) older h = refl
  eval-older o (thens s f) older h =
      ap (λ m. chain call m f) (sym (denote-older o older s (h s f refl)))

  pub head_reads :
      (o : Op F) (older : List (Op F))
      → IsProgram (o ∷ older)
      → (s : ℕ) (f : F) → o ≡ thens s f
      → s < length older
  head_reads (spawns g) older h s f e = cc
  head_reads (thens t g) older h s f e = ground (arith, h.0)

  -- The meaning of a future is that of its operation, over the meanings of the others.
  pub denote_lem :
      (ops : List (Op F)) (i : ℕ) (op : Op F)
      → IsProgram ops
      → op_at ops i ≡ some op
      → denote call ops i ≡ eval call op (denote call ops)
  unfolding denote
  denote_lem [] i op h e = cc
  denote_lem (o ∷ older) i op h e = elim (Bool-cases (i == length older)) [
    | inl here ↦
        let same : o ≡ op = ground arith in
        subst (λ z. denote call (o ∷ older) i ≡ eval call z (denote call (o ∷ older))) same
          (rw here (eval-older o o older (head_reads o older h)))
    | inr there ↦
        let e' : op_at older i ≡ some op = rw there at e in
        rw there (
          denote_lem older i op (IsProgram-tail o older h) e'
          ∙ eval-older o op older (λ s f q.
            let below = thens-lt older i s f (IsProgram-tail o older h) (e' ∙ ap some q) in
            omega (arith, op_at-lt older i op e')))
  ]
