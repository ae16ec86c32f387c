-- ===== src/Samples/Joins.antt =====
-- `when_all` over three inputs.
use mini_rts.Base.{ℕ, ◌*◌, ◌≡◌, refl, none, some, List, [], ◌∷◌, if◌then◌else◌, arith}
use mini_rts.Async.WhenAll.{Joined, start, arrives, contains, arrives_early, arrives_all}

abbrev default : ℕ → ℕ
default i = 0

abbrev value : ℕ → ℕ
value i = 10 * i

abbrev order : List ℕ
order = 2 ∷ 0 ∷ 1 ∷ []

arrives_early_example :
    (j : Joined ℕ) × (arrives default value (2 ∷ 0 ∷ []) (start default 3) ≡ some j)
    × (j.result ≡ none)
arrives_early_example = arrives_early default value 3 (2 ∷ 0 ∷ []) (omega arith) (omega arith)

arrives_all_example :
    (j : Joined ℕ) × (r : ℕ → ℕ) × (arrives default value order (start default 3) ≡ some j)
    × (j.result ≡ some r)
    × ((x : ℕ) → r x ≡ (if contains default value x order then value x else default x))
arrives_all_example = arrives_all default value 3 order (omega arith) refl (omega arith)
