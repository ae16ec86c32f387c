-- ===== src/Samples/Races.antt =====
-- `when_any` over two inputs whose continuations interleave.
use mini_rts.Base.{
  ℕ, ◌*◌, ◌≡◌, refl, some, none, true, false, not, ◌&&◌, List, [], ◌∷◌, is_some, if◌then◌else◌,
}
use mini_rts.Base.Family.{update}
use mini_rts.Async.WhenAny
use mini_rts.Async.WhenAny.{Race, Turn, loads, exchanges, resolves, start, turns}
use mini_rts.Async.WhenAny.Winner.{calls, turns_once, turns_winner}

abbrev value : ℕ → ℕ
value i = 10 * i

abbrev both : List Turn
both = loads 0 ∷ loads 1 ∷ exchanges 1 ∷ []

turns_once_example :
    (r : Race ℕ) × (r' : Race ℕ) × (turns value both (start value) ≡ some r)
    × (turns value (resolves 1 ∷ exchanges 0 ∷ []) r ≡ some r')
    × ((is_some r.result && not r.won) ≡ false)
    × (r'.result ≡ (if is_some r.result then r.result else r'.result))
turns_once_example = turns_once value both (resolves 1 ∷ exchanges 0 ∷ [])

-- Both have found the flag unset.
abbrev entered : Race ℕ
entered = record (start value) { passed = λ i. update (update (λ _. false) 0 true) 1 true i }

entered-runs : turns value (loads 0 ∷ loads 1 ∷ []) (start value) ≡ some entered
unfolding turns WhenAny.turn
entered-runs = refl

abbrev rest : List Turn
rest = exchanges 0 ∷ resolves 0 ∷ resolves 1 ∷ []

turns_winner_example :
    (r' : Race ℕ) × (turns value (exchanges 1 ∷ rest) entered ≡ some r')
    × (r'.won ≡ true)
    × (r'.result ≡ (if calls 1 rest then some (1, value 1) else none))
turns_winner_example =
    turns_winner value (loads 0 ∷ loads 1 ∷ []) rest 1 entered entered-runs refl refl
