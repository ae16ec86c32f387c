-- ===== src/Async/Combine/Counting.antt =====
-- How many inputs a combinator has, and how many reports it gets at most.
use mini_rts.Base.{
  ℕ, zero, suc, ◌+◌, ◌<◌, ◌≤◌, ◌≡◌, refl, ap, ◌∙◌, Option, none, some, Bool, true, false, List, [],
  ◌∷◌, ltb, arith, Option-cases, Bool-cases, inl, inr, ◌==◌, ◌&&◌, if◌then◌else◌,
}
use mini_rts.Base.Family.{total}
use mini_rts.Core.Worker.{Submit}
use mini_rts.Async.State.{Outcome, returned, threw, Closure, SharedState}
use mini_rts.Async.Promise.{run_closure}
use mini_rts.Async.Program.{Op, thens, remove, closure_of, main_step}
use mini_rts.Async.Combine.{
  Callee, attached, callee, callee_void, user_op, Combined, Action, main, attach, exec, main_act,
  attach_act, exec_act, act, run,
}
use mini_rts.Async.Combine.Reports.{reported, outcome_report, input}
use mini_rts.Async.Combine.Invariant.{input_report}

-- The inputs that a schedule attaches to, if all of them are there.
abbrev pub attach_count : {F : Type 0} → List (Action F) → ℕ
attach_count [] = 0
attach_count (main op ∷ rest) = attach_count rest
attach_count (attach s ∷ rest) = attach_count rest + 1
attach_count (exec k ∷ rest) = attach_count rest

abbrev pub one_each : {V : Type 0} → ℕ × Option V → ℕ
one_each r = 1

-- Whether there is a value, and which.
abbrev pub has_value : {V E : Type 0} → Outcome V E → Bool
has_value (returned v) = true
has_value (threw e) = false

abbrev pub value_of : {V E : Type 0} → Outcome V E → Option V
value_of (returned v) = v
value_of (threw e) = none

pub one_report :
    {V E : Type 0} (o : Outcome V E) (i : ℕ)
    → outcome_report one_each i o ≡ (if has_value o then 1 else 0)
one_report (returned v) i = refl
one_report (threw e) i = refl

module _ {F V E J : Type 0} (call : F → Option V → Outcome V E) (result_void : F → Bool) where
  abbrev attaches_of : Option (Combined F V E J) → ℕ
  attaches_of none = 0
  attaches_of (some c) = c.attaches

  -- At most this many inputs more.
  abbrev IsWithin : ℕ → Combined F V E J → Option (Combined F V E J) → Type 0
  IsWithin more c r = (c' : Combined F V E J) → r ≡ some c' → c'.attaches ≤ c.attaches + more

  main_act-IsWithin :
      (op : Op (Callee F)) (c : Combined F V E J) → IsWithin 0 c (main_act call result_void op c)
  unfolding main_act
  main_act-IsWithin op c c' e =
      elim (Option-cases (main_step (callee call) (callee_void result_void) op c.world)) [
        | inl fails ↦ cc (rw fails at e)
        | inr (w, steps) ↦ let same = ap attaches_of (rw steps at e) in omega (arith, same)
      ]

  attach_act-IsWithin :
      (s : ℕ) (c : Combined F V E J) → IsWithin 1 c (attach_act call result_void s c)
  unfolding attach_act
  attach_act-IsWithin s c c' e = elim (Bool-cases (ltb s c.world.next)) [
    | inl below ↦ omega (
      arith,
      main_act-IsWithin (thens s (attached c.attaches)) (record c { attaches = c.attaches + 1 }) c'
          (rw below at e),
    )
    | inr unknown ↦
        let same : c ≡ c' = cc (rw unknown at e) in omega (arith, ap (λ x. x.attaches) same)
  ]

  module _ (react : ℕ → Option V → J → Option J) where
    exec_act-IsWithin :
        (r : Option (Submit (Closure (Callee F)) × List (Submit (Closure (Callee F)))))
        (c : Combined F V E J)
        → IsWithin 0 c (exec_act call result_void react r c)
    unfolding exec_act
    exec_act-IsWithin none c c' e =
        let same : c ≡ c' = cc in omega (arith, ap (λ x. x.attaches) same)
    exec_act-IsWithin (some (t, rest)) c c' e =
        elim (Option-cases
          (run_closure (callee call) true true (closure_of t) (record c.world { queued = rest }))) [
            | inl fails ↦ cc (rw fails at e)
            | inr (w, runs) ↦ let same = ap attaches_of (rw runs at e) in omega (arith, same)
          ]

    act-IsWithin :
        (a : Action F) (c : Combined F V E J)
        → IsWithin (attach_count (a ∷ [])) c (act call result_void react a c)
    unfolding act
    act-IsWithin (main op) c = main_act-IsWithin (user_op op) c
    act-IsWithin (attach s) c = attach_act-IsWithin s c
    act-IsWithin (exec k) c = exec_act-IsWithin (remove k c.world.queued) c

    attach_count_cons :
        (a : Action F) (rest : List (Action F))
        → attach_count (a ∷ rest) ≡ attach_count (a ∷ []) + attach_count rest
    attach_count_cons (main op) rest = omega arith
    attach_count_cons (attach s) rest = omega arith
    attach_count_cons (exec k) rest = omega arith

    pub run-attaches :
        (schedule : List (Action F)) (c c' : Combined F V E J)
        → run call result_void react schedule c ≡ some c'
        → c'.attaches ≤ c.attaches + attach_count schedule
    unfolding run
    run-attaches [] c c' e = let same : c ≡ c' = cc in omega (arith, ap (λ x. x.attaches) same)
    run-attaches (a ∷ rest) c c' e = elim (Option-cases (act call result_void react a c)) [
      | inl fails ↦ cc (rw fails at e)
      | inr (d, goes) ↦ omega (
        arith,
        act-IsWithin a c d goes,
        run-attaches rest d c' (rw goes at e),
        attach_count_cons a rest,
      )
    ]

module _ {F V E : Type 0} (call : F → Option V → Outcome V E) where
  -- The continuations of inputs that have run and have passed on a value.
  unfoldable pub heard : List (Op (Callee F)) → (ℕ → SharedState (Callee F) V E) → ℕ
  heard log states = reported call one_each log states

  abbrev pub all_returned : List (Op (Callee F)) → ℕ → Bool
  all_returned log zero = true
  all_returned log (suc n) = has_value (input call log n) && all_returned log n

  -- There are as many values as inputs exactly if every input comes to a value.
  pub total_all :
      (log : List (Op (Callee F))) (n : ℕ)
      → (total (λ (x : ℕ). x) n (input_report call one_each log) ≤ n)
        × ((total (λ (x : ℕ). x) n (input_report call one_each log) == n) ≡ all_returned log n)
  unfolding total
  total_all log zero = (omega arith, refl)
  total_all log (suc n) =
      let (below, same) = total_all log n in
      let here = one_report (input call log n) n in
      elim (Bool-cases (has_value (input call log n))) [
        | inl value ↦ (ground arith, ground arith)
        | inr lost ↦ (ground arith, ground arith)
      ]

  pub all_returned-has_value :
      (log : List (Op (Callee F))) (n x : ℕ)
      → x < n
      → all_returned log n ≡ true
      → has_value (input call log x) ≡ true
  all_returned-has_value log zero x b all = absurd (omega arith)
  all_returned-has_value log (suc n) x b all = elim (Bool-cases (x == n)) [
    | inl here ↦
        let same : x ≡ n = ground arith in
        ap (λ k. has_value (input call log k)) same ∙ ground arith
    | inr other ↦ all_returned-has_value log n x (ground arith) (ground arith)
  ]
