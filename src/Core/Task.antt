-- ===== src/Core/Task.antt =====
-- src/core/task.h: `Task`, a handle of three pointers on a callable that it allocates.
-- `none` is an assertion that fails, a callable that throws out of a `noexcept` function, or
-- undefined behaviour, such as a call through a dangling pointer.
pub mod Life
use mini_rts.Base.{
  ℕ, Option, none, some, Bool, true, false, not, ◌&&◌, ◌==◌, if◌then◌else◌, is_some,
}
use mini_rts.Base.Family.{update}

abbrev pub Ptr : Type 0
Ptr = ℕ

abbrev pub null : Ptr
null = 0

-- The callable type `Fn` of an instance of the constructor's template, by a number.
abbrev pub Kind : Type 0
Kind = ℕ

-- An object on the heap: its type, and the state that the callable captured.
pub record Object {ℓ} (C : Type ℓ) : Type ℓ where
  pub kind : Kind
  pub captured : C

abbrev pub object {ℓ} : {C : Type ℓ} → Kind → C → Object C
object k c = record { kind = k; captured = c }

abbrev pub Heap {ℓ} : Type ℓ → Type ℓ
Heap C = Ptr → Option (Object C)

-- A function pointer is null, or the lambda that casts to `Fn *`.
pub record Task : Type 0 where
  pub callable_ptr : Ptr
  pub invoke_fn : Option Kind
  pub destroy_fn : Option Kind

abbrev pub empty : Task
empty = record { callable_ptr = null; invoke_fn = none; destroy_fn = none }

-- `explicit operator bool`
unfoldable pub to_bool : Task → Bool
to_bool t = not (t.callable_ptr == null) && is_some t.invoke_fn && is_some t.destroy_fn

abbrev pub ◌>>=◌ {ℓ κ} : {A : Type ℓ} {B : Type κ} → Option A → (A → Option B) → Option B
◌>>=◌ none f = none
◌>>=◌ (some a) f = f a

infixl 5 ◌>>=◌ ◌>>◌
abbrev pub ◌>>◌ {ℓ} : {B : Type ℓ} → Option (Unit {0}) → Option B → Option B
m >> k = m >>= λ _. k

-- `assert`, in a build that keeps it
abbrev pub assert : Bool → Option (Unit {0})
assert true = some tt
assert false = none

module _ {ℓ} {C : Type ℓ} where
  -- `*static_cast<Fn *>(p)`: the object must be there, and of that type.
  pub deref : Kind → Ptr → Heap C → Option C
  deref k p h = elim (h p) [ none ↦ none | some o ↦ if o.kind == k then some o.captured else none ]

  -- The constructor from a callable. `fresh` is what `new` returns.
  unfoldable pub make : (fresh : Ptr) → Kind → C → Heap C → Option (Task × Heap C)
  make fresh k c h = do
    assert (not (fresh == null))
    let t : Task = record { callable_ptr = fresh; invoke_fn = some k; destroy_fn = some k }
    assert (is_some t.invoke_fn && is_some t.destroy_fn)
    some (t, update h fresh (some (object k c)))

  -- The lambda behind `destroy_fn`: `delete static_cast<Fn *>(p)`.
  pub delete_as : Kind → Ptr → Heap C → Option (Heap C)
  unfolding deref
  delete_as k p h = do assert (not (p == null)); _ ← deref k p h; some (update h p none)

  -- `destroy()` frees the callable and resets this handle.
  unfoldable pub destroy : Task → Heap C → Option (Task × Heap C)
  unfolding delete_as to_bool
  destroy t h = do
    assert (to_bool t)
    k ← t.destroy_fn
    h' ← delete_as k t.callable_ptr h
    some (empty, h')

-- What running a callable does, its captured state and the heap included, is the caller's code.
module _ {ℓ κ} {C : Type ℓ} {S : Type κ} (call : C → Heap C × S → Option (C × (Heap C × S))) where
  abbrev World : Type (ℓ ⊔ κ)
  World = Heap C × S

  -- The lambda behind `invoke_fn`: the call may change what the callable captured.
  pub invoke_as : Kind → Ptr → World → Option World
  unfolding deref
  invoke_as k p (h, s) = do
    assert (not (p == null))
    c ← deref k p h
    (c', (h', s')) ← call c (h, s)
    some (update h' p (some (object k c')), s')

  -- `operator()()`
  unfoldable pub invoke : Task → World → Option World
  unfolding invoke_as
  invoke t w = do
    assert (is_some t.invoke_fn)
    assert (not (t.callable_ptr == null))
    k ← t.invoke_fn
    invoke_as k t.callable_ptr w

  -- What a worker does with a task that it has popped: `t.value()(); t.value().destroy();`.
  unfoldable pub consume : Task → World → Option (Task × World)
  consume t w = do
    assert (to_bool t)
    (h, s) ← invoke t w
    (t', h') ← destroy t h
    some (t', (h', s))
