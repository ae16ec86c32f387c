-- ===== src/Core/Queues.antt =====
-- The queues of the submodules: riften::Deque (external/ConcurrentDeque) and rigtorp::SPSCQueue
-- (external/SPSCQueue), of which src/core/worker.h owns one each. They are parameters of the model:
-- a record of the operations that the sources call, with the laws that their documentation states.
pub mod Weights
pub mod Listed
use mini_rts.Base.{
  ℕ, suc, ◌+◌, ◌≤◌, ◌<◌, ◌≡◌, ◌↔◌, ◌⊎◌, Bool, true, false, Option, none, some, List, [], ◌∷◌, ◌++◌,
  length,
}

-- The result of a removal at the bottom (the owner's `pop`): the last item, if there is one.
module _ {T Q : Type 0} where
  abbrev pub PopsLast : (Q → List T) → Q → Option T × Q → Type 0
  PopsLast to_list q r =
      ((to_list q ≡ []) × (r.0 ≡ none) × (to_list r.1 ≡ []))
      ⊎ ((a : T) × (xs : List T) × (to_list q ≡ xs ++ a ∷ []) × (r.0 ≡ some a) × (to_list r.1 ≡ xs))

-- The result of a removal at the top (a thief's `steal`): the first item, or nothing if there is
-- none or if another thread was faster.
module _ {T Q : Type 0} where
  abbrev pub StealsFirst : (Q → List T) → Bool → Q → Option T × Q → Type 0
  StealsFirst to_list raced q r =
      (((raced ≡ true) ⊎ (to_list q ≡ [])) × (r.0 ≡ none) × (to_list r.1 ≡ to_list q))
      ⊎ ((a : T) × (xs : List T) × (to_list q ≡ a ∷ xs) × (r.0 ≡ some a) × (to_list r.1 ≡ xs))

-- riften::Deque<T>. `to_list` is what the deque holds, the oldest item first.
pub record Deque (T : Type 0) : Type 1 where
  pub Q : Type 0
  pub make : ℕ → Q
  pub size : Q → ℕ
  pub capacity : Q → ℕ
  pub is_empty : Q → Bool
  -- The owner adds an item at the bottom; a full deque grows.
  pub emplace : Q → T → Q
  pub pop : Q → Option T × Q
  -- Whether another thread takes the item first is the environment's choice.
  pub steal : (raced : Bool) → Q → Option T × Q
  pub to_list : Q → List T
  pub make_lem : (n : ℕ) → to_list (make n) ≡ []
  pub size_lem : (q : Q) → size q ≡ length (to_list q)
  pub is_empty_iff : (q : Q) → (is_empty q ≡ true) ↔ (to_list q ≡ [])
  pub emplace_lem : (q : Q) (a : T) → to_list (emplace q a) ≡ to_list q ++ a ∷ []
  pub capacity-emplace : (q : Q) (a : T) → size q < capacity q → capacity (emplace q a) ≡ capacity q
  pub pop_lem : (q : Q) → PopsLast to_list q (pop q)
  pub steal_lem : (raced : Bool) (q : Q) → StealsFirst to_list raced q (steal raced q)

-- An addition at the back that waits while the queue is full: `none` is a call that has to wait.
module _ {T Q : Type 0} where
  abbrev pub Emplaces : (Q → List T) → (Q → ℕ) → Q → T → Option Q → Type 0
  Emplaces to_list capacity q a r =
      ((capacity q ≤ length (to_list q)) × (r ≡ none))
      ⊎ ((q' : Q) × (r ≡ some q')
          × (length (to_list q) < capacity q)
          × (to_list q' ≡ to_list q ++ a ∷ [])
          × (capacity q' ≡ capacity q))

-- The front of a queue is its oldest item, and `pop` drops that one.
module _ {T Q : Type 0} where
  abbrev pub PopsFront : (Q → List T) → (Q → ℕ) → Q → Option T → Q → Type 0
  PopsFront to_list capacity q a q' =
      ((to_list q ≡ []) × (a ≡ none))
      ⊎ ((x : T) × (to_list q ≡ x ∷ to_list q') × (a ≡ some x) × (capacity q' ≡ capacity q))

-- rigtorp::SPSCQueue<T>
pub record Spsc (T : Type 0) : Type 1 where
  pub Q : Type 0
  pub make : ℕ → Q
  pub size : Q → ℕ
  pub capacity : Q → ℕ
  pub is_empty : Q → Bool
  pub emplace : Q → T → Option Q
  pub front : Q → Option T
  pub pop : Q → Q
  pub to_list : Q → List T
  pub make_lem : (n : ℕ) → to_list (make n) ≡ []
  pub size_lem : (q : Q) → size q ≡ length (to_list q)
  pub is_empty_iff : (q : Q) → (is_empty q ≡ true) ↔ (to_list q ≡ [])
  pub emplace_lem : (q : Q) (a : T) → Emplaces to_list capacity q a (emplace q a)
  pub front_lem : (q : Q) → PopsFront to_list capacity q (front q) (pop q)
