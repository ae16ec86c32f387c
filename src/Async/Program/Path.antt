-- ===== src/Async/Program/Path.antt =====
-- Schedules of a program, put together.
use mini_rts.Base.{◌≡◌, refl, Option, none, some, Bool, List, [], ◌∷◌, ◌++◌, Option-cases, inl, inr}
use mini_rts.Async.State.{Outcome, World}
use mini_rts.Async.Program.{Op, Action, main, exec, add_op, made, act, run}

module _ {F V E : Type 0} (call : F → Option V → Outcome V E) (result_void : F → Bool) where
  pub run-append :
      (a b : List (Action F)) (w u : World F V E)
      → run call result_void a w ≡ some u
      → run call result_void (a ++ b) w ≡ run call result_void b u
  unfolding run
  run-append [] b w u e = cc
  run-append (x ∷ a) b w u e = elim (Option-cases (act call result_void x w)) [
    | inl fails ↦ let bad : none ≡ some u = rw fails at e in cc
    | inr (w', goes) ↦ rw goes (run-append a b w' u (rw goes at e))
  ]

  pub run_one :
      (a : Action F) (w : World F V E) → act call result_void a w ≡ run call result_void (a ∷ []) w
  unfolding run
  run_one a w = elim (Option-cases (act call result_void a w)) [
    | inl fails ↦ rw fails
    | inr (w', goes) ↦ rw goes
  ]

  pub run_nil : (w : World F V E) → run call result_void [] w ≡ some w
  unfolding run
  run_nil w = refl

pub made-append :
    {F : Type 0} (a b : List (Action F)) (ops : List (Op F))
    → made ops (a ++ b) ≡ made (made ops a) b
made-append [] b ops = refl
made-append (main op ∷ a) b ops = made-append a b (add_op op ops)
made-append (exec k ∷ a) b ops = made-append a b ops
