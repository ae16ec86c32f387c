-- ===== src/Async/Combine/Racing.antt =====
-- src/async/when_any.h over the futures: when the promise of `when_any` is resolved, and with what. Here
-- a continuation takes its three steps one after the other.
use mini_rts.Base.{
  ℕ, zero, suc, ◌<◌, ◌≡◌, refl, ap, sym, subst, ◌∙◌, Option, none, some, Bool, true, false, List,
  [], ◌∷◌, weigh, All, ltb, arith, Bool-cases, inl, inr, is_some, ◌||◌,
}
use mini_rts.Base.Family.{total, update}
use mini_rts.Async.State.{Outcome, returned}
use mini_rts.Async.Program.{Op}
use mini_rts.Async.Program.Running.{IsTyped}
use mini_rts.Async.WhenAny.{
  Race, loads, exchanges, resolves, start, exchange, set_result, turn, turns,
}
use mini_rts.Async.Combine.{Callee, Combined, Action, begin, run}
use mini_rts.Async.Combine.Reports.{input}
use mini_rts.Async.Combine.Invariant.{Holds, input_report, replay}
use mini_rts.Async.Combine.Steps.{reached-Holds}
use mini_rts.Async.Combine.Idle.{takes, takes-Ends}
use mini_rts.Async.Combine.Counting.{one_each, one_report, has_value}

module _ {V : Type 0} where
  -- The continuation of an input that has come to this value.
  unfoldable pub race : ℕ → V → Race V → Option (Race V)
  unfolding turns
  race i v r = turns (λ _. v) (loads i ∷ exchanges i ∷ resolves i ∷ []) r

  race-late :
      (i : ℕ) (v : V) (r : Race V)
      → r.won ≡ true
      → r.chosen i ≡ false
      → race i v r ≡ some (record r { passed = update r.passed i false })
  unfolding race turns turn exchange set_result
  race-late i v r late idle = ground arith

  race-first :
      (i : ℕ) (v : V) (r : Race V)
      → r.won ≡ false
      → r.result ≡ none
      → race i v r
        ≡ some (record r {
          passed = update (update r.passed i true) i false;
          chosen = update (update r.chosen i true) i false;
          won = true;
          result = some (i, v);
        })
  unfolding race turns turn exchange set_result
  race-first i v r first empty = ground arith

  abbrev head : List (ℕ × V) → Option (ℕ × V)
  head [] = none
  head (x ∷ xs) = some x

module _ {V : Type 0} where
  late-replay :
      (rs : List (ℕ × Option V)) (r : Race (Option V))
      → r.won ≡ true
      → ((j : ℕ) → r.chosen j ≡ false)
      → (r' : Race (Option V)) × (replay race rs (some r) ≡ some r') × (r'.result ≡ r.result)
  unfolding replay
  late-replay [] r late idle = (r, refl, refl)
  late-replay ((i, v) ∷ rs) r late idle =
      let (r', goes, same) =
        late-replay rs (record r { passed = update r.passed i false }) late idle in
      (r', rw (race-late i v r late (idle i)) goes, same)

  -- The promise has the first report, if there is one.
  replay-head :
      (rs : List (ℕ × Option V)) (r : Race (Option V))
      → r.won ≡ false
      → r.result ≡ none
      → ((j : ℕ) → r.chosen j ≡ false)
      → (r' : Race (Option V)) × (replay race rs (some r) ≡ some r') × (r'.result ≡ head rs)
  unfolding replay
  replay-head [] r first empty idle = (r, refl, empty)
  replay-head ((i, v) ∷ rs) r first empty idle =
      let (r', goes, same) =
        late-replay rs
          (record r {
            passed = update (update r.passed i true) i false;
            chosen = update (update r.chosen i true) i false;
            won = true;
            result = some (i, v);
          })
          refl (λ j. ground (arith, idle j)) in
      (r', rw (race-first i v r first empty) goes, same)

module _ {F V E : Type 0} (call : F → Option V → Outcome V E) where
  abbrev pub any_returned : List (Op (Callee F)) → ℕ → Bool
  any_returned log zero = false
  any_returned log (suc n) = has_value (input call log n) || any_returned log n

  -- There is a report exactly if some input comes to a value.
  total_any :
      (log : List (Op (Callee F))) (n : ℕ)
      → ltb 0 (total (λ (x : ℕ). x) n (input_report call one_each log)) ≡ any_returned log n
  unfolding total
  total_any log zero = refl
  total_any log (suc n) =
      let rest = total_any log n in
      let here = one_report (input call log n) n in
      elim (Bool-cases (has_value (input call log n))) [
        | inl value ↦ ground arith
        | inr lost ↦ ground arith
      ]

  -- What the promise is resolved with, if it is, is the value of an input.
  unfoldable pub IsOfInput : List (Op (Callee F)) → ℕ → Option (ℕ × Option V) → Type 0
  IsOfInput log attaches none = Unit
  IsOfInput log attaches (some (i, v)) = (i < attaches) × (input call log i ≡ returned v)

  head-IsOfInput :
      (log : List (Op (Callee F))) (attaches : ℕ) (rs : List (ℕ × Option V))
      → All (λ r. (r.0 < attaches) × (input call log r.0 ≡ returned r.1)) rs
      → IsOfInput log attaches (head rs)
  unfolding IsOfInput
  head-IsOfInput log attaches [] sound = tt
  head-IsOfInput log attaches (r ∷ rs) sound = sound.0

  head-is_some : (rs : List (ℕ × Option V)) → is_some (head rs) ≡ ltb 0 (weigh one_each rs)
  head-is_some [] = refl
  head-is_some (r ∷ rs) = ground arith

  module _ (result_void : F → Bool) (typed : IsTyped call result_void) where
    abbrev initial : Combined F V E (Race (Option V))
    initial = begin (start (λ _. none))

    abbrev Raced : Combined F V E (Race (Option V)) → Type 0
    Raced c = Holds call result_void race (start (λ _. none)) c

    abbrev Ended : Combined F V E (Race (Option V)) → List (Op (Callee F)) → ℕ → Type 0
    Ended c log attaches =
        (r : Race (Option V)) × (c.shared ≡ some r)
        × (is_some r.result ≡ any_returned log attaches)
        × IsOfInput log attaches r.result

    ends_result :
        (c : Combined F V E (Race (Option V))) (h : Raced c)
        → ((m : ℕ × Option V → ℕ)
            → weigh m h.reports ≡ total (λ (x : ℕ). x) c.attaches (input_report call m c.log))
        → Ended c c.log c.attaches
    ends_result c h counts =
        let (r, goes, first) = replay-head h.reports (start (λ _. none)) refl refl (λ j. refl) in
        (
          r,
          h.told ∙ goes,
          ap is_some first
              ∙ head-is_some h.reports
              ∙ ap (ltb 0) (counts one_each)
              ∙ total_any c.log c.attaches,
          subst (IsOfInput c.log c.attaches) (sym first)
              (head-IsOfInput c.log c.attaches h.reports h.sound),
        )

    -- From any state that a schedule reaches, if workers go on to take the task at the front as many
    -- times as there are futures, no assertion of the sources fails and no task is left queued. Then the
    -- promise of `when_any` is resolved exactly if some input that was attached to comes to a value, and
    -- it is resolved with the number of such an input and with its value. The condition is that a
    -- function returns a value exactly if it is not `void`.
    pub when_any_result :
        (schedule : List (Action F)) (c : Combined F V E (Race (Option V)))
        → run call result_void race schedule initial ≡ some c
        → (c' : Combined F V E (Race (Option V))) × (run call result_void race
              (takes c.world.next)
              c
            ≡ some c')
          × (c'.world.queued ≡ [])
          × (r : Race (Option V)) × (c'.shared ≡ some r)
          × (is_some r.result ≡ any_returned c.log c.attaches)
          × IsOfInput c.log c.attaches r.result
    when_any_result schedule c reached =
        let hc = reached-Holds call result_void race (start (λ _. none)) typed schedule c reached in
        let (c', e', h, log, attaches, idle, counts) =
          takes-Ends call result_void race (start (λ _. none)) typed c hc in
        let ended =
          subst (λ l. Ended c' l c.attaches) log
            (subst (Ended c' c'.log) attaches (ends_result c' h counts)) in
        (c', e', idle, ended.0, ended.1, ended.2, ended.3)
