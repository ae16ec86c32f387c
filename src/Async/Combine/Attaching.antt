-- ===== src/Async/Combine/Attaching.antt =====
-- Every step of the main thread succeeds and keeps what holds of a combinator.
use mini_rts.Base.{
  ℕ, ◌+◌, ◌<◌, ◌≡◌, ◌⊎◌, refl, ap, sym, subst, ◌∙◌, Option, some, Bool, true, false, List, ◌∷◌,
  length, All-mono, ◌≤◌, ltb, arith, Bool-cases, inl, inr,
}
use mini_rts.Base.Family.{total_ext}
use mini_rts.Async.State.{Outcome, World}
use mini_rts.Async.Program.{Op, spawns, thens, add_op}
use mini_rts.Async.Program.Steps.{main_step-Goes}
use mini_rts.Async.Program.Invariant.{is_ready, Inv}
use mini_rts.Async.Combine.{
  Callee, attached, callee, callee_void, user_op, Combined, main_act, attach_act,
}
use mini_rts.Async.Combine.Reports.{outcome_report, reported-same, reported-unready, input}
use mini_rts.Async.Combine.Invariant.{input_report, IsNumbered, IsCounted, Holds}
use mini_rts.Async.Combine.Logging.{
  user-input, user-expected, user-IsNumbered, attach-input, attach-IsNumbered, attach-IsCounted,
}
use mini_rts.Async.Combine.Unready.{main_step-IsSame}

add_op_cases :
    {F : Type 0} (o : Op F) (log : List (Op F)) → (add_op o log ≡ log) ⊎ (add_op o log ≡ o ∷ log)
add_op_cases (spawns f) log = inr refl
add_op_cases (thens s f) log = elim (Bool-cases (ltb s (length log))) [
  | inl below ↦ inr (rw below)
  | inr unknown ↦ inl (rw unknown)
]

module _ {F V E J : Type 0} (call : F → Option V → Outcome V E) (result_void : F → Bool)
    (react : ℕ → Option V → J → Option J) (first : J) where
  -- The step succeeds, and what holds of the combinator holds again.
  abbrev pub Goes : Option (Combined F V E J) → Type 0
  Goes r = (c : Combined F V E J) × (r ≡ some c) × Holds call result_void react first c

  module _ (c : Combined F V E J) (h : Holds call result_void react first c) where
    -- The state for a new future is not ready.
    fresh : is_ready c.world.states c.world.next ≡ false
    fresh = h.program.beyond c.world.next (omega arith)

    -- What holds after a step of the main thread, whatever it has put into the log.
    abbrev Follows : World (Callee F) V E → ℕ → List (Op (Callee F)) → Type 0
    Follows w' attaches l =
        Inv (callee call) (callee_void result_void) l (λ _. 0) w'
        → Holds call result_void react first (record c { world = w'; attaches = attaches; log = l })

    -- The operation is in the log, and changes no input that was there.
    logged-Holds :
        (o : Op (Callee F)) (w' : World (Callee F) V E) (attaches : ℕ)
        → Inv (callee call) (callee_void result_void) (o ∷ c.log) (λ _. 0) w'
        → ((i : ℕ) → is_ready w'.states i ≡ is_ready c.world.states i)
        → c.attaches ≤ attaches
        → ((i : ℕ) → i < c.attaches → input call (o ∷ c.log) i ≡ input call c.log i)
        → IsNumbered call (o ∷ c.log) attaches
        → IsCounted call (o ∷ c.log) attaches
        → Holds call result_void react first
            (record c { world = w'; log = o ∷ c.log; attaches = attaches })
    logged-Holds o w' attaches v same more keeps numbered counted = record {
      reports = h.reports;
      program = v;
      told = h.told;
      once = λ m.
          let size : c.world.next ≡ length c.log = h.program.size in
          let others = reported-same call m c.log w'.states c.world.states (λ i _. same i) in
          let new =
            reported-unready call m o c.log w'.states
              (same (length c.log) ∙ ap (is_ready c.world.states) (sym size) ∙ fresh) in
          h.once m ∙ sym others ∙ sym new;
      sound =
          All-mono _ _ (λ r (below, means). (omega (arith, more, below), keeps r.0 below ∙ means))
            h.reports h.sound;
      numbered = numbered;
      counted = counted;
    }

    -- There is no future of this number, and nothing happens.
    unlogged-Holds :
        (w' : World (Callee F) V E)
        → Inv (callee call) (callee_void result_void) c.log (λ _. 0) w'
        → ((i : ℕ) → is_ready w'.states i ≡ is_ready c.world.states i)
        → Holds call result_void react first (record c { world = w' })
    unlogged-Holds w' v same = record {
      reports = h.reports;
      program = v;
      told = h.told;
      once =
          λ m. h.once m ∙ sym (reported-same call m c.log w'.states c.world.states (λ i _. same i));
      sound = h.sound;
      numbered = h.numbered;
      counted = h.counted;
    }

    pub main_act-Goes : (op : Op F) → Goes (main_act call result_void (user_op op) c)
    unfolding main_act
    main_act-Goes op =
        let o = user_op op in
        let (w', e, v) =
          main_step-Goes (callee call) (callee_void result_void) c.log c.world h.program o in
        let same = main_step-IsSame (callee call) (callee_void result_void) c.world fresh o w' e in
        (
          record c { world = w'; log = add_op o c.log },
          rw e,
          elim (add_op_cases o c.log) [
            | inl skips ↦
                subst (Follows w' c.attaches) (sym skips) (λ v'. unlogged-Holds w' v' same) v
            | inr adds ↦
                subst (Follows w' c.attaches) (sym adds)
                  (λ v'.
                    logged-Holds o w' c.attaches v' same (omega arith)
                      (λ i _. user-input call op c.log i)
                      (user-IsNumbered call op c.log c.attaches h.program.program h.numbered)
                      (λ m.
                        user-expected call op c.log m
                        ∙ h.counted m
                        ∙ total_ext (λ (x : ℕ). x) c.attaches (input_report call m c.log)
                            (input_report call m (o ∷ c.log))
                            (λ i _. ap (outcome_report m i) (sym (user-input call op c.log i)))))
                  v
          ],
        )

    pub attach_act-Goes : (s : ℕ) → Goes (attach_act call result_void s c)
    unfolding attach_act main_act
    attach_act-Goes s = elim (Bool-cases (ltb s c.world.next)) [
      | inl below ↦
          let o = thens s (attached c.attaches) in
          let (w', e, v) =
            main_step-Goes (callee call) (callee_void result_void) c.log c.world h.program o in
          let same =
            main_step-IsSame (callee call) (callee_void result_void) c.world fresh o w' e in
          let known : ltb s (length c.log) ≡ true = ap (ltb s) (sym h.program.size) ∙ below in
          let adds : add_op o c.log ≡ o ∷ c.log = rw known in
          (
            record c { world = w'; log = add_op o c.log; attaches = c.attaches + 1 },
            rw (below, e),
            subst (Follows w' (c.attaches + 1)) (sym adds)
                (λ v'.
                  logged-Holds o w' (c.attaches + 1) v' same (omega arith)
                    (λ i b. attach-input call s c.attaches i c.log (λ q. omega (arith, q, b)))
                    (attach-IsNumbered call s c.log c.attaches (ground arith) h.program.program
                      h.numbered)
                    (attach-IsCounted call s c.log c.attaches h.counted))
                v,
          )
      | inr unknown ↦ (c, rw unknown, h)
    ]
