-- ===== src/Core/Runtime/Session.antt =====
-- src/core/runtime.h: any sequence of the user's calls, and a session, which passes its tasks to one pool,
-- in order.
use mini_rts.Base.{
  ℕ, ◌≡◌, refl, ap, ◌∙◌, Option, none, some, Bool, true, false, List, [], ◌∷◌, All, Bool-cases,
  Option-cases, inl, inr,
}
use mini_rts.Core.Constants.{ShutdownMode, hard_shutdown, soft_shutdown}
use mini_rts.Core.Task.{Task, to_bool, assert, ◌>>=◌, ◌>>◌}
use mini_rts.Core.Runtime.{
  ThreadPool, Globals, inactive, active, initialize_runtime, finalize_hard, finalize_soft, enqueue,
}

module _ (pool : ThreadPool) where
  -- The user's calls, and what they come to: the result of an initialisation, and the pool that a
  -- shutdown has freed, as `delete` leaves it.
  pub data Call : Type 0 where
    initializes : (num_threads queue_capacity : ℕ) → Call
    enqueues : Task → Call
    finalizes : ShutdownMode → Call

  pub data Reply : Type 0 where
    initialized : (done : Bool) → Reply
    enqueued : Reply
    freed : pool.State → Reply

  pub finalize : ShutdownMode → Globals pool → Option (pool.State × Globals pool)
  finalize hard_shutdown g = finalize_hard pool g
  finalize soft_shutdown g = finalize_soft pool g

  unfoldable pub step : Call → Globals pool → Option (Reply × Globals pool)
  unfolding finalize
  step (initializes n c) g = do
    (done, g') ← initialize_runtime pool n c g
    some (initialized done, g')
  step (enqueues t) g = do g' ← enqueue pool t g; some (enqueued, g')
  step (finalizes m) g = do (p, g') ← finalize m g; some (freed p, g')

  unfoldable pub calls : List Call → Globals pool → Option (List Reply × Globals pool)
  calls [] g = some ([], g)
  calls (c ∷ rest) g = do (r, g') ← step c g; (rs, g'') ← calls rest g'; some (r ∷ rs, g'')

  -- The runtime as it is meant: there is a pool, or there is none.
  unfoldable pub meant : Call → Option pool.State → Option (Reply × Option pool.State)
  meant (initializes n c) none = do
    p ← pool.make n c
    p' ← pool.init p
    some (initialized true, some p')
  meant (initializes n c) (some p) = some (initialized false, some p)
  meant (enqueues t) none = none
  meant (enqueues t) (some p) = do
    assert (to_bool t)
    p' ← pool.enqueue t p
    some (enqueued, some p')
  meant (finalizes m) none = none
  meant (finalizes m) (some p) = do
    p' ← pool.finalize m p
    p'' ← pool.delete p'
    some (freed p'', none)

  unfoldable pub all_meant : List Call → Option pool.State → Option (List Reply × Option pool.State)
  all_meant [] o = some ([], o)
  all_meant (c ∷ rest) o = do (r, o') ← meant c o; (rs, o'') ← all_meant rest o'; some (r ∷ rs, o'')

  -- The four globals, for a pool or none.
  abbrev pub globals_of : Option pool.State → Globals pool
  globals_of none = inactive pool
  globals_of (some p) = active pool p

  abbrev pub with_globals :
      {A : Type 0} → Option (A × Option pool.State) → Option (A × Globals pool)
  with_globals none = none
  with_globals (some (a, o)) = some (a, globals_of o)

  -- The end of a shutdown, whatever the pool's `finalize` came to.
  shutdown-meant :
      (o : Option pool.State)
      → (do
        (p, g) ← (do p' ← o; p'' ← pool.delete p'; some (p'', inactive pool))
        some (freed p, g))
        ≡ with_globals (do p' ← o; p'' ← pool.delete p'; some (freed p'', none))
  shutdown-meant none = refl
  shutdown-meant (some p) = elim (Option-cases (pool.delete p)) [
    | inl fails ↦ rw fails
    | inr (q, goes) ↦ rw goes
  ]

  step-meant : (c : Call) (o : Option pool.State) → step c (globals_of o) ≡ with_globals (meant c o)
  unfolding step meant initialize_runtime finalize_hard finalize_soft enqueue
  step-meant (initializes n c) none = elim (Option-cases (pool.make n c)) [
    | inl fails ↦ rw fails
    | inr (p, made) ↦ elim (Option-cases (pool.init p)) [
      | inl fails ↦ rw (made, fails)
      | inr (p', goes) ↦ rw (made, goes)
    ]
  ]
  step-meant (initializes n c) (some p) = refl
  step-meant (enqueues t) none = refl
  step-meant (enqueues t) (some p) = elim (Bool-cases (to_bool t)) [
    | inl full ↦ elim (Option-cases (pool.enqueue t p)) [
      | inl fails ↦ rw (full, fails)
      | inr (p', goes) ↦ rw (full, goes)
    ]
    | inr empty ↦ rw empty
  ]
  step-meant (finalizes hard_shutdown) none = refl
  step-meant (finalizes soft_shutdown) none = refl
  step-meant (finalizes hard_shutdown) (some p) = shutdown-meant (pool.finalize hard_shutdown p)
  step-meant (finalizes soft_shutdown) (some p) = shutdown-meant (pool.finalize soft_shutdown p)

  calls-all_meant :
      (cs : List Call) (o : Option pool.State)
      → calls cs (globals_of o) ≡ with_globals (all_meant cs o)
  unfolding calls all_meant
  calls-all_meant [] o = refl
  calls-all_meant (c ∷ rest) o = elim (Option-cases (meant c o)) [
    | inl fails ↦
        let stops : step c (globals_of o) ≡ none = step-meant c o ∙ ap with_globals fails in
        rw (stops, fails)
    | inr ((r, o'), goes) ↦
        let steps : step c (globals_of o) ≡ some (r, globals_of o') =
          step-meant c o ∙ ap with_globals goes in
        let later = calls-all_meant rest o' in
        elim (Option-cases (all_meant rest o')) [
          | inl fails ↦
              let stops : calls rest (globals_of o') ≡ none = later ∙ ap with_globals fails in
              rw (steps, stops, goes, fails)
          | inr ((rs, o''), goes') ↦
              let steps' : calls rest (globals_of o') ≡ some (rs, globals_of o'') =
                later ∙ ap with_globals goes' in
              rw (steps, steps', goes, goes')
        ]
  ]

  -- From an inactive runtime, any sequence of calls replies, fails and leaves the four globals as if there
  -- were only a pool or none: an initialisation makes and starts a pool if there is none and is turned
  -- down if there is one, an enqueue and a shutdown fail if there is none, and a shutdown finalizes and
  -- frees the pool that there is. A call fails as well where the pool fails an assertion of its own or
  -- does not return.
  pub calls_refine : (cs : List Call) → calls cs (inactive pool) ≡ with_globals (all_meant cs none)
  calls_refine cs = calls-all_meant cs none

  enqueue_all : List Task → Globals pool → Option (Globals pool)
  enqueue_all [] g = some g
  enqueue_all (t ∷ ts) g = do g' ← enqueue pool t g; enqueue_all ts g'

  -- What a pool goes through between its start and its shutdown.
  abbrev pub pool_enqueue_all : List Task → pool.State → Option pool.State
  pool_enqueue_all [] p = some p
  pool_enqueue_all (t ∷ ts) p = do p' ← pool.enqueue t p; pool_enqueue_all ts p'

  enqueue_all-active :
      (ts : List Task) (p : pool.State)
      → All (λ t. to_bool t ≡ true) ts
      → enqueue_all ts (active pool p) ≡ (do p' ← pool_enqueue_all ts p; some (active pool p'))
  unfolding enqueue_all enqueue
  enqueue_all-active [] p full = refl
  enqueue_all-active (t ∷ ts) p (full, fulls) = elim (Option-cases (pool.enqueue t p)) [
    | inl fails ↦ rw (full, fails)
    | inr (p', goes) ↦ rw (full, goes) (enqueue_all-active ts p' fulls)
  ]

  -- `initialize_runtime`, some calls of `enqueue`, and a shutdown.
  unfoldable pub session :
      (n c : ℕ) → List Task → ShutdownMode → Globals pool → Option (pool.State × Globals pool)
  unfolding enqueue_all finalize
  session n c ts mode g = do
    (_, g') ← initialize_runtime pool n c g
    g'' ← enqueue_all ts g'
    finalize mode g''

  finalize-active :
      (mode : ShutdownMode) (p : pool.State)
      → finalize mode (active pool p)
        ≡ (do p' ← pool.finalize mode p; p'' ← pool.delete p'; some (p'', inactive pool))
  unfolding finalize finalize_hard finalize_soft
  finalize-active hard_shutdown p = refl
  finalize-active soft_shutdown p = refl

  -- On an inactive runtime, a session of non-empty tasks builds one pool, starts it, hands it the
  -- tasks in order, shuts it down in the mode that is asked for and frees it; and it leaves the
  -- runtime inactive, ready for the next session. It fails only where one of these calls of the pool
  -- fails an assertion or does not return.
  pub session_lem :
      (n c : ℕ) (ts : List Task) (mode : ShutdownMode)
      → All (λ t. to_bool t ≡ true) ts
      → session n c ts mode (inactive pool) ≡ (do
        made ← pool.make n c
        started ← pool.init made
        served ← pool_enqueue_all ts started
        ended ← pool.finalize mode served
        gone ← pool.delete ended
        some (gone, inactive pool))
  unfolding session initialize_runtime
  session_lem n c ts mode full = elim (Option-cases (pool.make n c)) [
    | inl fails ↦ rw fails
    | inr (made, makes) ↦ elim (Option-cases (pool.init made)) [
      | inl fails ↦ rw (makes, fails)
      | inr (started, inits) ↦ elim (Option-cases (pool_enqueue_all ts started)) [
        | inl fails ↦ rw (makes, inits, enqueue_all-active ts started full, fails)
        | inr (served, serves) ↦
            rw (makes, inits, enqueue_all-active ts started full, serves)
              (finalize-active mode served)
      ]
    ]
  ]
