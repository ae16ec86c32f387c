-- ===== src/Base/Family.antt =====
-- Families indexed by numbers: the vector of workers, a heap. A write at one index, and the sum of a
-- measure over the first `n` members.
use Prim.Native.Nat.{ℕ, zero, suc, ◌+◌, ◌≤◌, ◌<◌}
use mathlib.Core.Path.{◌≡◌, refl}
use mathlib.Core.Logic.{◌≢◌, inl, inr}
use native.Mathlib.Numerals.{add-one}
use native.Mathlib.Omega.{arith}
use mini_rts.Base.Tests.{Bool-cases, if_cases, ◌==◌, if◌then◌else◌}

abbrev pub update {ℓ} : {A : Type ℓ} → (ℕ → A) → ℕ → A → ℕ → A
update f i a j = if i == j then a else f j

module _ {ℓ} {A : Type ℓ} where
  pub update_self : (f : ℕ → A) (i : ℕ) (a : A) → update f i a i ≡ a
  update_self f i a = ground arith

  pub update_ne : (f : ℕ → A) (i j : ℕ) (a : A) → i ≢ j → update f i a j ≡ f j
  update_ne f i j a h = ground arith

  -- A property of a member, from those of the member that is written and of the others.
  pub update_cases {κ} :
      (P : A → Type κ) (f : ℕ → A) (i j : ℕ) (a : A)
      → (i ≡ j → P a)
      → (i ≢ j → P (f j))
      → P (update f i a j)
  update_cases P f i j a here other =
      if_cases P (i == j) a (f j) (λ e. here (ground arith)) (λ e. other (ground arith))

module _ {ℓ} {A : Type ℓ} (measure : A → ℕ) where
  unfoldable pub total : (count : ℕ) → (members : ℕ → A) → ℕ
  total zero members = 0
  total (suc k) members = measure (members k) + total k members

  -- Families whose members measure the same below `n` have the same sum.
  pub total_ext :
      (n : ℕ) (f g : ℕ → A)
      → ((j : ℕ) → j < n → measure (f j) ≡ measure (g j))
      → total n f ≡ total n g
  unfolding total
  total_ext zero f g same = refl
  total_ext (suc k) f g same =
      omega (arith, same k (omega arith), total_ext k f g λ j below. same j (omega arith))

  pub total-congr :
      (n : ℕ) (f g : ℕ → A) → ((j : ℕ) → measure (f j) ≡ measure (g j)) → total n f ≡ total n g
  total-congr n f g same = total_ext n f g λ j _. same j

  -- A write past the members that count changes nothing.
  pub total-update_of_le :
      (count : ℕ) (members : ℕ → A) (k : ℕ) (new : A)
      → count ≤ k
      → total count (update members k new) ≡ total count members
  total-update_of_le count members k new past =
      total_ext count (update members k new) members λ j below. ground arith

  -- Only the member that is written changes the sum.
  pub total-update :
      (count : ℕ) (members : ℕ → A) (k : ℕ) (new : A)
      → k < count
      → total count (update members k new) + measure (members k) ≡ total count members + measure new
  unfolding total
  total-update zero members k new below = absurd (omega arith)
  total-update (suc c) members k new below = elim (Bool-cases (k == c)) [
    | inl last ↦ ground (arith, total-update_of_le c members k new)
    | inr earlier ↦ ground (arith, total-update c members k new)
  ]

  -- Every member's share is within the sum.
  pub le-total :
      (count : ℕ) (members : ℕ → A) (k : ℕ) → k < count → measure (members k) ≤ total count members
  unfolding total
  le-total zero members k below = absurd (omega arith)
  le-total (suc c) members k below = elim (Bool-cases (k == c)) [
    | inl last ↦ ground arith
    | inr earlier ↦ ground (arith, le-total c members k)
  ]

  pub total-eq-zero :
      (count : ℕ) (members : ℕ → A)
      → ((j : ℕ) → j < count → measure (members j) ≡ 0)
      → total count members ≡ 0
  unfolding total
  total-eq-zero zero members nothing = refl
  total-eq-zero (suc c) members nothing =
      omega
        (arith, nothing c (omega arith), total-eq-zero c members λ j below. nothing j (omega arith))

  -- The sum of flags is at most their number.
  pub total-le :
      ((x : A) → measure x ≤ 1) → (count : ℕ) (members : ℕ → A) → total count members ≤ count
  unfolding total
  total-le flag zero members = omega arith
  total-le flag (suc c) members = omega (arith, total-le flag c members, flag (members c))

  pub total_more : (n : ℕ) (f : ℕ → A) → total (n + 1) f ≡ total n f + measure (f n)
  unfolding total
  total_more n f =
      let next : total (suc n) f ≡ measure (f n) + total n f = refl in
      rw add-one (omega (arith, next))

  -- Only one member changes, as far as the measure goes.
  pub total_but_one :
      (n : ℕ) (f g : ℕ → A) (k : ℕ)
      → k < n
      → ((j : ℕ) → j ≢ k → measure (g j) ≡ measure (f j))
      → total n g + measure (f k) ≡ total n f + measure (g k)
  unfolding total
  total_but_one zero f g k below same = absurd (omega arith)
  total_but_one (suc c) f g k below same = elim (Bool-cases (k == c)) [
    | inl last ↦ ground (arith, total_ext c g f λ j b. same j (ground arith))
    | inr earlier ↦ ground (arith, total_but_one c f g k (ground arith) same, same c (ground arith))
  ]

module _ {ℓ} {A : Type ℓ} (less more : A → ℕ) (within : (x : A) → less x ≤ more x) where
  pub total_mono : (n : ℕ) (f : ℕ → A) → total less n f ≤ total more n f
  unfolding total
  total_mono zero f = omega arith
  total_mono (suc c) f = omega (arith, within (f c), total_mono c f)
