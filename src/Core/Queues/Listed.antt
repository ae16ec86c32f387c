-- ===== src/Core/Queues/Listed.antt =====
-- Lists as queues: concrete functions that meet the laws of the two interfaces, for the tests.
use mini_rts.Base.{
  ℕ, ◌≡◌, refl, inl, inr, Bool, true, false, Option, none, some, List, [], ◌∷◌, ◌++◌, length,
  is_nil, is_nil_iff, ltb, if◌then◌else◌, arith, Bool-cases,
}
use mini_rts.Core.Queues.{Deque, Spsc, PopsLast, StealsFirst, Emplaces, PopsFront}

-- The items, and the capacity.
abbrev Store : Type 0 → Type 0
Store T = List T × ℕ

module _ {T : Type 0} where
  abbrev items : Store T → List T
  items s = s.0

  abbrev split_last : T → List T → T × List T
  split_last a [] = (a, [])
  split_last a (b ∷ xs) = let (z, rest) = split_last b xs in (z, a ∷ rest)

  abbrev pop_bottom : List T → ℕ → Option T × Store T
  pop_bottom [] n = (none, ([], n))
  pop_bottom (a ∷ xs) n = let (z, rest) = split_last a xs in (some z, (rest, n))

  abbrev steal_top : Bool → List T → ℕ → Option T × Store T
  steal_top true xs n = (none, (xs, n))
  steal_top false [] n = (none, ([], n))
  steal_top false (a ∷ xs) n = (some a, (xs, n))

  split_last_lem : (a : T) (xs : List T) → a ∷ xs ≡ (split_last a xs).1 ++ (split_last a xs).0 ∷ []
  split_last_lem a [] = refl
  split_last_lem a (b ∷ xs) = cc (split_last_lem b xs)

  pub pop_bottom_lem : (s : Store T) → PopsLast items s (pop_bottom s.0 s.1)
  pop_bottom_lem ([], n) = inl (refl, refl, refl)
  pop_bottom_lem (a ∷ xs, n) =
      inr ((split_last a xs).0, (split_last a xs).1, split_last_lem a xs, refl, refl)

  pub steal_top_lem :
      (raced : Bool) (s : Store T) → StealsFirst items raced s (steal_top raced s.0 s.1)
  steal_top_lem true (xs, n) = inl (inl refl, refl, refl)
  steal_top_lem false ([], n) = inl (inr refl, refl, refl)
  steal_top_lem false (a ∷ xs, n) = inr (a, xs, refl, refl, refl)

  abbrev put_back : List T → ℕ → T → Option (Store T)
  put_back xs n a = if ltb (length xs) n then some (xs ++ a ∷ [], n) else none

  pub put_back_lem : (s : Store T) (a : T) → Emplaces items (λ s. s.1) s a (put_back s.0 s.1 a)
  put_back_lem (xs, n) a = elim (Bool-cases (ltb (length xs) n)) [
    | inl room ↦ inr ((xs ++ a ∷ [], n), ground arith, ground arith, refl, refl)
    | inr full ↦ inl (ground arith, ground arith)
  ]

  abbrev front_of : List T → Option T
  front_of [] = none
  front_of (a ∷ xs) = some a

  abbrev rest_of : List T → List T
  rest_of [] = []
  rest_of (a ∷ xs) = xs

  pub front_of_lem : (s : Store T) → PopsFront items (λ s. s.1) s (front_of s.0) (rest_of s.0, s.1)
  front_of_lem ([], n) = inl (refl, refl)
  front_of_lem (a ∷ xs, n) = inr (a, refl, refl, refl)

abbrev pub list_deque : (T : Type 0) → Deque T
list_deque T = record {
  Q = List T × ℕ;
  make = λ n. ([], n);
  size = λ q. length q.0;
  capacity = λ q. q.1;
  is_empty = λ q. is_nil q.0;
  emplace = λ q a. (q.0 ++ a ∷ [], q.1);
  pop = λ q. pop_bottom q.0 q.1;
  steal = λ raced q. steal_top raced q.0 q.1;
  to_list = λ q. q.0;
  make_lem = λ n. refl;
  size_lem = λ q. refl;
  is_empty_iff = λ q. is_nil_iff q.0;
  emplace_lem = λ q a. refl;
  capacity-emplace = λ q a h. refl;
  pop_lem = pop_bottom_lem;
  steal_lem = steal_top_lem;
}

abbrev pub list_spsc : (T : Type 0) → Spsc T
list_spsc T = record {
  Q = List T × ℕ;
  make = λ n. ([], n);
  size = λ q. length q.0;
  capacity = λ q. q.1;
  is_empty = λ q. is_nil q.0;
  emplace = λ q a. put_back q.0 q.1 a;
  front = λ q. front_of q.0;
  pop = λ q. (rest_of q.0, q.1);
  to_list = λ q. q.0;
  make_lem = λ n. refl;
  size_lem = λ q. refl;
  is_empty_iff = λ q. is_nil_iff q.0;
  emplace_lem = put_back_lem;
  front_lem = front_of_lem;
}
