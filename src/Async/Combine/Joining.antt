-- ===== src/Async/Combine/Joining.antt =====
-- src/async/when_all.h over the futures: when the promise of `when_all` is resolved, and with what.
use mini_rts.Base.{
  ℕ, ◌^◌, ◌<◌, ◌≤◌, ◌≡◌, ap, sym, subst, ◌∙◌, fun_ext, Option, none, some, Bool, true, List, [],
  length, weigh, All-mono, ltb, arith, Bool-cases, inl, inr, ◌==◌, is_some, if◌then◌else◌,
}
use mini_rts.Base.Family.{total, le-total}
use mini_rts.Async.State.{Outcome}
use mini_rts.Async.Program.{Op}
use mini_rts.Async.Program.Running.{IsTyped}
use mini_rts.Async.WhenAll.{Joined, start, arrive, arrives, contains, arrives_early, arrives_all}
use mini_rts.Async.Combine.{Callee, Combined, Action, begin, run}
use mini_rts.Async.Combine.Reports.{input}
use mini_rts.Async.Combine.Invariant.{Holds, input_report, begin-Holds}
use mini_rts.Async.Combine.Steps.{run-Goes, reached-Holds}
use mini_rts.Async.Combine.Idle.{takes, reported-le, takes-Ends}
use mini_rts.Async.Combine.Arrivals.{
  indices, length-indices, names, named-contains, not_named-contains, named_report, values,
  replay-arrives,
}
use mini_rts.Async.Combine.Counting.{
  attach_count, all_returned-has_value, heard, one_each, all_returned, total_all, run-attaches,
}

module _ {F V E : Type 0} (call : F → Option V → Outcome V E) (default : ℕ → Option V) where
  -- The tuple: the values of the inputs, of which there are this many.
  abbrev pub tuple : List (Op (Callee F)) → ℕ → ℕ → Option V
  tuple log inputs i = if ltb i inputs then values call log i else default i

  module _ (result_void : F → Bool) (typed : IsTyped call result_void) (inputs : ℕ)
      (positive : 0 < inputs) (small : inputs < 2 ^ 64) where
    abbrev Joins : Combined F V E (Joined (Option V)) → Type 0
    Joins c = Holds call result_void (arrive default) (start default inputs) c

    -- What the continuations share, given the number that have passed on a value.
    joined :
        (c : Combined F V E (Joined (Option V)))
        → (h : Joins c)
        → c.shared ≡ arrives default (values call c.log) (indices h.reports) (start default inputs)
    joined c h =
        h.told
        ∙ replay-arrives call default c.log h.reports
            (All-mono _ _ (λ r both. both.1) h.reports h.sound) (some (start default inputs))

    -- Under any schedule that attaches to no more inputs than there are, at least one and fewer than
    -- 2^64, no assertion of the sources fails, and at the end of the schedule the promise of `when_all`
    -- is resolved exactly if as many continuations have passed on a value as there are inputs. The
    -- condition is that a function returns a value exactly if it is not `void`.
    pub when_all_resolves :
        (schedule : List (Action F))
        → attach_count schedule ≤ inputs
        → (c : Combined F V E (Joined (Option V))) × (j : Joined (Option V)) × (run call result_void
              (arrive default)
              schedule
              (begin (start default inputs))
            ≡ some c)
          × (c.shared ≡ some j)
          × (is_some j.result ≡ (heard call c.log c.world.states == inputs))
    unfolding heard
    when_all_resolves schedule few =
        let (c, e, h) =
          run-Goes call result_void (arrive default) (start default inputs) typed schedule
            (begin (start default inputs))
            (begin-Holds call result_void (arrive default) (start default inputs)) in
        let attaches =
          run-attaches call result_void (arrive default) schedule (begin (start default inputs)) c
            e in
        let count : length (indices h.reports) ≡ heard call c.log c.world.states =
          length-indices h.reports ∙ h.once one_each in
        let most = reported-le call one_each c.log c.world.states in
        let (within, _) = total_all call c.log c.attaches in
        let bound : length (indices h.reports) ≤ inputs =
          omega (arith, count, most, h.counted one_each, within, attaches, few) in
        elim (Bool-cases (heard call c.log c.world.states == inputs)) [
          | inl all ↦
              let (j, r, goes, got, _) =
                arrives_all default (values call c.log) inputs (indices h.reports) positive
                  (ground (arith, count)) small in
              (c, j, e, joined c h ∙ goes, rw (got, all))
          | inr fewer ↦
              let (j, goes, open_still) =
                arrives_early default (values call c.log) inputs (indices h.reports)
                  (ground (arith, count, bound)) small in
              (c, j, e, joined c h ∙ goes, rw (open_still, fewer))
        ]

    -- In the end the reports name every input, and no other.
    ends_contains :
        (c : Combined F V E (Joined (Option V)))
        → (h : Joins c) → c.attaches ≡ inputs
        → ((m : ℕ × Option V → ℕ)
            → weigh m h.reports ≡ total (λ (x : ℕ). x) c.attaches (input_report call m c.log))
        → all_returned call c.log inputs ≡ true
        → (x : ℕ) → contains default (values call c.log) x (indices h.reports) ≡ ltb x inputs
    ends_contains c h size counts all x = elim (Bool-cases (ltb x inputs)) [
      | inl below ↦
          let value = all_returned-has_value call c.log inputs x (ground arith) all in
          let named = named_report x (input call c.log x) value in
          let share =
            le-total (λ (k : ℕ). k) c.attaches (input_report call (names x) c.log) x
              (ground arith) in
          named-contains default (values call c.log) x h.reports
            (omega (arith, counts (names x), named, share))
          ∙ sym below
      | inr past ↦
          not_named-contains default (values call c.log) c.attaches x (ground arith) h.reports
            (All-mono _ _ (λ r both. both.0) h.reports h.sound)
          ∙ sym past
    ]

    abbrev Ended : Combined F V E (Joined (Option V)) → List (Op (Callee F)) → Type 0
    Ended c log =
        (j : Joined (Option V)) × (c.shared ≡ some j)
        × (j.result ≡ (if all_returned call log inputs then some (tuple log inputs) else none))

    ends_result :
        (c : Combined F V E (Joined (Option V)))
        → (h : Joins c) → c.attaches ≡ inputs
        → ((m : ℕ × Option V → ℕ)
            → weigh m h.reports ≡ total (λ (x : ℕ). x) c.attaches (input_report call m c.log))
        → Ended c c.log
    ends_result c h size counts =
        let (most, exact) = total_all call c.log c.attaches in
        let count = length-indices h.reports ∙ counts one_each in
        let meant = ap (all_returned call c.log) size in
        elim (Bool-cases (all_returned call c.log inputs)) [
          | inl all ↦
              let (j, r, goes, got, reads) =
                arrives_all default (values call c.log) inputs (indices h.reports) positive
                  (ground (arith, count, exact, meant, all, size)) small in
              let is_tuple : r ≡ tuple c.log inputs = fun_ext λ x.
                reads x
                ∙ ap (λ b. if b then values call c.log x else default x)
                    (ends_contains c h size counts all x) in
              (j, joined c h ∙ goes, rw all (got ∙ ap some is_tuple))
          | inr lost ↦
              let (j, goes, open_still) =
                arrives_early default (values call c.log) inputs (indices h.reports)
                  (ground (arith, count, most, exact, meant, lost, size)) small in
              (j, joined c h ∙ goes, rw lost open_still)
        ]

    -- From any state that a schedule reaches in which all inputs are attached to, at least one and fewer
    -- than 2^64, if workers go on to take the task at the front as many times as there are futures, no
    -- assertion of the sources fails and no task is left queued. Then the promise of `when_all` is
    -- resolved with the tuple of the inputs' values if every input comes to a value, and is unresolved
    -- for good if one of them comes to an exception. The condition is that a function returns a value
    -- exactly if it is not `void`.
    pub when_all_result :
        (schedule : List (Action F)) (c : Combined F V E (Joined (Option V)))
        → run call result_void (arrive default) schedule (begin (start default inputs)) ≡ some c
        → c.attaches ≡ inputs
        → (c' : Combined F V E (Joined (Option V))) × (run call result_void
              (arrive default)
              (takes c.world.next)
              c
            ≡ some c')
          × (c'.world.queued ≡ [])
          × (j : Joined (Option V)) × (c'.shared ≡ some j)
          × (j.result
              ≡ (if all_returned call c.log inputs then some (tuple c.log inputs) else none))
    when_all_result schedule c reached size =
        let hc =
          reached-Holds call result_void (arrive default) (start default inputs) typed schedule c
            reached in
        let (c', e', h, log, attaches, idle, counts) =
          takes-Ends call result_void (arrive default) (start default inputs) typed c hc in
        let ended = subst (Ended c') log (ends_result c' h (attaches ∙ size) counts) in
        (c', e', idle, ended.0, ended.1, ended.2)
