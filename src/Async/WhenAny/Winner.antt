-- ===== src/Async/WhenAny/Winner.antt =====
-- Who wins the race, in any interleaving of the continuations of `when_any`.
use mini_rts.Base.{
  ℕ, ◌≡◌, ◌⊎◌, refl, ap, sym, subst, ◌∙◌, Option, none, some, Bool, true, false, not, ◌||◌, ◌&&◌,
  List, [], ◌∷◌, is_some, ◌==◌, if◌then◌else◌, arith, Bool-cases, inl, inr,
}
use mini_rts.Base.Family.{update}
use mini_rts.Async.WhenAny.{
  Race, Turn, loads, exchanges, resolves, start, exchange, set_result, turn, turns,
}

-- The continuation `i` calls `set_value` among these steps.
abbrev pub calls : ℕ → List Turn → Bool
calls i [] = false
calls i (resolves j ∷ rest) = (j == i) || calls i rest
calls i (_ ∷ rest) = calls i rest

calls_cons :
    (k : ℕ) (t : Turn) (ts : List Turn) (b : Bool)
    → (b || calls k (t ∷ []) || calls k ts) ≡ (b || calls k (t ∷ ts))
calls_cons k (loads i) ts b = ground arith
calls_cons k (exchanges i) ts b = ground arith
calls_cons k (resolves i) ts b = ground arith

module _ {V : Type 0} (value : ℕ → V) where
  -- Nobody has won.
  record Open (r : Race V) : Type 0 where
    pub unset : r.won ≡ false
    pub nobody : (i : ℕ) → r.chosen i ≡ false
    pub empty : r.result ≡ none

  -- This continuation has, and has called `set_value` or is about to.
  record Won (k : ℕ) (r : Race V) : Type 0 where
    pub set : r.won ≡ true
    pub only : (i : ℕ) → r.chosen i ≡ ((k == i) && not (is_some r.result))
    pub result : r.result ≡ (if is_some r.result then some (k, value k) else none)

  start-Open : Open (start value)
  start-Open = record { unset = refl; nobody = λ i. refl; empty = refl }

  -- The winner is the same ever after, and the promise is resolved once it has called `set_value`.
  WonAll : ℕ → Turn → Race V → Option (Race V) → Type 0
  WonAll k t r next =
      (r' : Race V) × (next ≡ some r')
      × Won k r'
      × (is_some r'.result ≡ (is_some r.result || calls k (t ∷ [])))

  Won-turn : (k : ℕ) (t : Turn) (r : Race V) → Won k r → WonAll k t r (turn value t r)
  unfolding WonAll turn exchange set_result
  Won-turn k (loads i) r w = (
    record r { passed = update r.passed i (not r.won) },
    refl,
    record { set = w.set; only = w.only; result = w.result },
    ground arith,
  )
  Won-turn k (exchanges i) r w = elim (Bool-cases (r.passed i)) [
    | inl did ↦ (
      record r { passed = update r.passed i false },
      rw (did, w.set),
      record { set = w.set; only = w.only; result = w.result },
      ground arith,
    )
    | inr not_yet ↦ (r, rw not_yet, w, ground arith)
  ]
  Won-turn k (resolves i) r w = elim (Bool-cases (r.chosen i)) [
    | inl mine ↦
        let due : ((k == i) && not (is_some r.result)) ≡ true = sym (w.only i) ∙ mine in
        let same : k ≡ i = ground arith in
        let empty : is_some r.result ≡ false = ground arith in
        (
          record r { chosen = update r.chosen i false; result = some (i, value i) },
          rw (mine, empty),
          record {
            set = w.set;
            only = λ j. ground (arith, w.only j);
            result = ap (λ j. some (j, value j)) (sym same);
          },
          ground arith,
        )
    | inr other ↦ (r, rw other, w, ground (arith, w.only i))
  ]

  Won-turns :
      (k : ℕ) (ts : List Turn) (r : Race V)
      → Won k r
      → (r' : Race V) × (turns value ts r ≡ some r')
        × Won k r'
        × (is_some r'.result ≡ (is_some r.result || calls k ts))
  unfolding WonAll turns
  Won-turns k [] r w = (r, refl, w, ground arith)
  Won-turns k (t ∷ ts) r w =
      let (r', goes, w', now) = Won-turn k t r w in
      let (r'', goes', w'', later) = Won-turns k ts r' w' in
      (
        r'',
        rw goes goes',
        w'',
        later ∙ ap (λ b. b || calls k ts) now ∙ calls_cons k t ts (is_some r.result),
      )

  -- Nobody has won yet, or one continuation has.
  Stands : Option (Race V) → Type 0
  Stands next = (r : Race V) × (next ≡ some r) × (Open r ⊎ ((k : ℕ) × Won k r))

  -- The exchange of a continuation that has found the flag unset.
  abbrev taking : ℕ → Race V → Race V
  taking i r = exchange i (record r { passed = update r.passed i false })

  wins-empty : (i : ℕ) (r : Race V) → Open r → is_some (taking i r).result ≡ false
  unfolding exchange
  wins-empty i r o = rw (o.unset, o.empty)

  wins-Won : (i : ℕ) (r : Race V) → Open r → Won i (taking i r)
  unfolding exchange
  wins-Won i r o = rw o.unset (record {
    set = refl;
    only = λ j. ground (arith, o.nobody j, o.empty);
    result = o.empty ∙ ground (arith, o.empty);
  })

  Open-turn : (t : Turn) (r : Race V) → Open r → Stands (turn value t r)
  unfolding Stands turn
  Open-turn (loads i) r o = (
    record r { passed = update r.passed i (not r.won) },
    refl,
    inl (record { unset = o.unset; nobody = o.nobody; empty = o.empty }),
  )
  Open-turn (exchanges i) r o = elim (Bool-cases (r.passed i)) [
    | inl did ↦ (taking i r, rw did, inr (i, wins-Won i r o))
    | inr not_yet ↦ (r, rw not_yet, inl o)
  ]
  Open-turn (resolves i) r o = (r, rw (o.nobody i), inl o)

  Open-turns : (ts : List Turn) (r : Race V) → Open r → Stands (turns value ts r)
  unfolding Stands turns
  Open-turns [] r o = (r, refl, inl o)
  Open-turns (t ∷ ts) r o =
      let (r', goes, stands) = Open-turn t r o in
      elim stands [
        | inl o' ↦ let (r'', goes', stands') = Open-turns ts r' o' in (r'', rw goes goes', stands')
        | inr (k, w) ↦
            let (r'', goes', w', _) = Won-turns k ts r' w in (r'', rw goes goes', inr (k, w'))
      ]

  -- In any interleaving of the continuations no assertion fails; the promise is resolved only after the
  -- flag is set; and what comes after it is resolved does not change the result.
  pub turns_once :
      (before after : List Turn)
      → (r : Race V) × (r' : Race V) × (turns value before (start value) ≡ some r)
        × (turns value after r ≡ some r')
        × ((is_some r.result && not r.won) ≡ false)
        × (r'.result ≡ (if is_some r.result then r.result else r'.result))
  unfolding Stands
  turns_once before after =
      let (r, goes, stands) = Open-turns before (start value) start-Open in
      elim stands [
        | inl o ↦
            let (r', goes', _) = Open-turns after r o in
            (r, r', goes, goes', ground (arith, o.empty), ground (arith, o.empty))
        | inr (k, w) ↦
            let (r', goes', w', now) = Won-turns k after r w in
            (r, r', goes, goes', ground (arith, w.set), ground (arith, now, w.result, w'.result))
      ]

  reached-Open :
      (before : List Turn) (r : Race V)
      → turns value before (start value) ≡ some r
      → r.won ≡ false
      → Open r
  unfolding Stands
  reached-Open before r reached unset =
      let (u, goes, stands) = Open-turns before (start value) start-Open in
      let same : u ≡ r = cc in
      elim stands [
        | inl o ↦ subst Open same o
        | inr (k, w) ↦ cc (ap (λ (x : Race V). x.won) same, w.set)
      ]

  -- In any interleaving, from where the flag is not set: the first continuation whose exchange comes,
  -- once it has found the flag unset, is the winner. The promise is resolved with its input, and not
  -- before it calls `set_value`, whatever the others do.
  pub turns_winner :
      (before after : List Turn) (i : ℕ) (r : Race V)
      → turns value before (start value) ≡ some r
      → r.won ≡ false
      → r.passed i ≡ true
      → (r' : Race V) × (turns value (exchanges i ∷ after) r ≡ some r')
        × (r'.won ≡ true)
        × (r'.result ≡ (if calls i after then some (i, value i) else none))
  unfolding turns turn
  turns_winner before after i r reached unset did =
      let o = reached-Open before r reached unset in
      let (r', goes, w, now) = Won-turns i after (taking i r) (wins-Won i r o) in
      let empty = wins-empty i r o in
      (
        r',
        rw did goes,
        w.set,
        w.result
            ∙ ap (λ b. if b then some (i, value i) else none)
                (now ∙ ap (λ b. b || calls i after) empty),
      )
