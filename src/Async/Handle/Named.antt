-- ===== src/Async/Handle/Named.antt =====
-- Every handle that is not null names a state, after any operations on handles.
use mini_rts.Base.{
  ℕ, ◌<◌, ◌≡◌, refl, subst, ◌∙◌, Option, none, some, Bool, false, List, [], ◌∷◌, arith, ◌==◌,
  Bool-cases, Option-cases, inl, inr,
}
use mini_rts.Base.Family.{update_cases}
use mini_rts.Core.Task.{◌>>=◌}
use mini_rts.Async.State.{Outcome, returned, threw, World}
use mini_rts.Async.Promise.{set_exception, settle, future_then, make_promise}
use mini_rts.Async.Handle.{
  Handles, HandleOp, constructs, moves, copies, futures, detaches, chains, sets_value,
  sets_exception, handle_step, handle_steps, no_handles, point,
}
use mini_rts.Async.Handle.Accepted.{IsNamed}
use mini_rts.Async.Handle.Kept.{
  Grows, settle-Settles, Settles-Grows, make_promise-Grows, Grows-trans, then-Grows,
}

module _ {F V E : Type 0} where
  -- What holds between two operations on handles.
  pub record Sound (h : Handles F V E) : Type 0 where
    pub named : IsNamed h
    pub blank : (p : ℕ) → (h.world.states p).ready ≡ false → (h.world.states p).exception ≡ none

  pub no_handles-Sound : Sound no_handles
  no_handles-Sound = record { named = λ v s e. cc; blank = λ p e. refl }

  -- The step keeps what holds, and every state that is resolved.
  abbrev Keeps : Handles F V E → Handles F V E → Type 0
  Keeps h h' = Sound h' × Grows h.world h'.world

  same-Grows : (w : World F V E) → Grows w w
  same-Grows w = record {
    next = omega arith;
    stays = λ p below ready. refl;
    blank = λ empty. empty;
  }

  -- A variable is made to point to a state that is there, or to none.
  points-Sound :
      (h : Handles F V E) (v : ℕ) (to : Option ℕ)
      → ((s : ℕ) → to ≡ some s → s < h.world.next)
      → Sound h
      → Sound (point h v to)
  points-Sound h v to there sound = record {
    named = λ u.
        update_cases (λ (o : Option ℕ). (s : ℕ) → o ≡ some s → s < h.world.next) h.vars v u to
          (λ _. there) (λ _. sound.named u);
    blank = sound.blank;
  }

  Grows-Sound :
      (h : Handles F V E) (w : World F V E)
      → Grows h.world w
      → Sound h
      → Sound (record h { world = w })
  Grows-Sound h w g sound = record {
    named = λ v s e. omega (arith, sound.named v s e, g.next);
    blank = g.blank sound.blank;
  }

  module _ (tls_worker running : Bool) where
    abbrev KeepsAll : Handles F V E → Option (Handles F V E) → Type 0
    KeepsAll h none = Unit
    KeepsAll h (some h') = Keeps h h'

    settle-KeepsAll :
        (v : ℕ) (o : Outcome V E) (h : Handles F V E)
        → Sound h
        → KeepsAll h (do
          s ← h.vars v
          w ← settle tls_worker running s o h.world
          some (record h { world = w }))
    settle-KeepsAll v o h sound = elim (Option-cases (h.vars v)) [
      | inl null ↦ rw null tt
      | inr (s, at) ↦ elim (Option-cases (settle tls_worker running s o h.world)) [
        | inl fails ↦ rw (at, fails) tt
        | inr (w, goes) ↦
            let grows =
              Settles-Grows s o h.world w (settle-Settles tls_worker running s o h.world w goes) in
            rw (at, goes) (Grows-Sound h w grows sound, grows)
      ]
    ]

    step-KeepsAll :
        (op : HandleOp F V E) (h : Handles F V E)
        → Sound h
        → KeepsAll h (handle_step tls_worker running op h)
    unfolding handle_step make_promise settle set_exception
    step-KeepsAll (constructs v is_void) h sound =
        let grows = make_promise-Grows is_void h.world in
        let w = (make_promise is_void h.world).1 in
        (
          points-Sound (record h { world = w }) v (some h.world.next) (λ s e. ground (arith, e))
              (Grows-Sound h w grows sound),
          grows,
        )
    step-KeepsAll (moves v other) h sound = elim (Bool-cases (v == other)) [
      | inl itself ↦ rw itself (sound, same-Grows h.world)
      | inr differs ↦ rw differs (
        points-Sound (point h v (h.vars other)) other none (λ s e. cc)
            (points-Sound h v (h.vars other) (sound.named other) sound),
        same-Grows h.world,
      )
    ]
    step-KeepsAll (copies v other) h sound =
        (points-Sound h v (h.vars other) (sound.named other) sound, same-Grows h.world)
    step-KeepsAll (futures v other) h sound = elim (Option-cases (h.vars other)) [
      | inl null ↦ rw null tt
      | inr (s, at) ↦ rw at (
        points-Sound h v (some s) (λ q e. sound.named other q (at ∙ e)) sound,
        same-Grows h.world,
      )
    ]
    step-KeepsAll (detaches v) h sound = elim (Option-cases (h.vars v)) [
      | inl null ↦ rw null tt
      | inr (s, at) ↦ rw at (points-Sound h v none (λ q e. cc) sound, same-Grows h.world)
    ]
    step-KeepsAll (chains v other f result_void) h sound = elim (Option-cases (h.vars other)) [
      | inl null ↦ rw null tt
      | inr (s, at) ↦ elim (Option-cases (future_then running s f result_void h.world)) [
        | inl fails ↦ rw (at, fails) tt
        | inr ((p, w), goes) ↦
            let (grows, below) = then-Grows running s f result_void h.world w p goes in
            rw (at, goes)
              (
                points-Sound (record h { world = w }) v (some p) (λ q e. ground (arith, e, below))
                    (Grows-Sound h w grows sound),
                grows,
              )
      ]
    ]
    step-KeepsAll (sets_value v x) h sound = settle-KeepsAll v (returned x) h sound
    step-KeepsAll (sets_exception v none) h sound = elim (Option-cases (h.vars v)) [
      | inl null ↦ rw null tt
      | inr (s, at) ↦ rw at tt
    ]
    step-KeepsAll (sets_exception v (some e)) h sound = settle-KeepsAll v (threw e) h sound

    pub steps-Keeps :
        (ops : List (HandleOp F V E)) (h h' : Handles F V E)
        → Sound h
        → handle_steps tls_worker running ops h ≡ some h'
        → Keeps h h'
    unfolding handle_steps
    steps-Keeps [] h h' sound e = subst (KeepsAll h) e (sound, same-Grows h.world)
    steps-Keeps (op ∷ rest) h h' sound e =
        elim (Option-cases (handle_step tls_worker running op h)) [
          | inl fails ↦ cc (rw fails at e)
          | inr (u, goes) ↦
              let (sound', grows) = subst (KeepsAll h) goes (step-KeepsAll op h sound) in
              let (sound'', grows') = steps-Keeps rest u h' sound' (rw goes at e) in
              (sound'', Grows-trans grows grows')
        ]
