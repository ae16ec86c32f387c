-- ===== src/Core/Task/Life.antt =====
-- src/core/task.h: the life of a task, from its construction to its destruction, and what becomes
-- of its copies, which share the callable.
use mini_rts.Base.{
  ◌≡◌, ◌≢◌, ◌==◌, if◌then◌else◌, Option, none, some, true, false, refl, fun_ext, arith,
}
use mini_rts.Base.Family.{update, update_self}
use mini_rts.Core.Task.{
  ◌>>=◌, Ptr, null, Kind, Object, object, Heap, Task, empty, to_bool, deref, make, destroy, invoke,
  consume,
}

-- The handle's three pointers lead to this object.
pub record IsLive {ℓ} {C : Type ℓ} (t : Task) (h : Heap C) (o : Object C) : Type ℓ where
  pub present : t.callable_ptr ≢ null
  pub points : h t.callable_ptr ≡ some o
  pub invokes : t.invoke_fn ≡ some o.kind
  pub destroys : t.destroy_fn ≡ some o.kind

module _ {ℓ} {C : Type ℓ} where
  -- Where `new` gives a pointer that is not null, a task that is built from a callable is non-empty and
  -- leads to the callable, and no cell but the new one changes.
  pub make-IsLive :
      (fresh : Ptr) (k : Kind) (c : C) (h : Heap C)
      → fresh ≢ null
      → (t : Task) × (h' : Heap C) × (make fresh k c h ≡ some (t, h'))
        × (to_bool t ≡ true)
        × IsLive t h' (object k c)
        × ((p : Ptr) → h' p ≡ (if fresh == p then some (object k c) else h p))
  unfolding make to_bool
  make-IsLive fresh k c h ne = (
    record { callable_ptr = fresh; invoke_fn = some k; destroy_fn = some k },
    update h fresh (some (object k c)),
    ground arith,
    ground arith,
    ground arith,
    λ p. ground arith,
  )

  pub to_bool-IsLive : (t : Task) (h : Heap C) (o : Object C) → IsLive t h o → to_bool t ≡ true
  unfolding to_bool
  to_bool-IsLive t h o live = ground arith

  -- A live task is destroyed once: the handle is empty, the cell is free and no other cell changes.
  pub destroy-IsLive :
      (t : Task) (h : Heap C) (o : Object C)
      → IsLive t h o
      → destroy t h ≡ some (empty, update h t.callable_ptr none)
  unfolding destroy deref
  destroy-IsLive t h o live = ground arith

  update-update :
      (h : Heap C) (p : Ptr) (x y : Option (Object C)) → update (update h p x) p y ≡ update h p y
  update-update h p x y = fun_ext λ q. ground arith

module _ {ℓ κ} {C : Type ℓ} {S : Type κ} (call : C → Heap C × S → Option (C × (Heap C × S))) where
  consume_stale :
      (t : Task) (h : Heap C) (s : S) → h t.callable_ptr ≡ none → consume call t (h, s) ≡ none
  unfolding consume invoke deref to_bool
  consume_stale t h s gone = ground arith

module _ {ℓ κ} {C : Type ℓ} {S : Type κ} (call : C → Heap C × S → Option (C × (Heap C × S)))
    (t : Task) (h : Heap C) (o : Object C) (s : S) (live : IsLive t h o) where
  -- A live task is invoked: the callable runs once, in the state that the caller has, and what it
  -- then holds is written back to its cell.
  pub invoke-IsLive :
      (c : C) (h' : Heap C) (s' : S)
      → call o.captured (h, s) ≡ some (c, (h', s'))
      → invoke call t (h, s) ≡ some (update h' t.callable_ptr (some (object o.kind c)), s')
  unfolding invoke deref
  invoke-IsLive c h' s' ran = ground arith

  written_back-IsLive :
      (h' : Heap C) (c : C)
      → IsLive t (update h' t.callable_ptr (some (object o.kind c))) (object o.kind c)
  written_back-IsLive h' c = record {
    present = live.present;
    points = update_self h' t.callable_ptr (some (object o.kind c));
    invokes = live.invokes;
    destroys = live.destroys;
  }

  consume-IsLive :
      (c : C) (h' : Heap C) (s' : S)
      → call o.captured (h, s) ≡ some (c, (h', s'))
      → consume call t (h, s) ≡ some (empty, (update h' t.callable_ptr none, s'))
  unfolding consume
  consume-IsLive c h' s' ran = rw (
    to_bool-IsLive t h o live,
    invoke-IsLive c h' s' ran,
    destroy-IsLive t _ (object o.kind c) (written_back-IsLive h' c),
    update-update h' t.callable_ptr (some (object o.kind c)) none,
  )

  -- A worker that consumes a live task, whose callable returns, calls it once in the state at hand and
  -- frees it: the handle is empty, the cell is free, and the call's own effects stay. A copy of the
  -- handle cannot be consumed after that, in whatever state.
  pub consume_once :
      (c : C) (h' : Heap C) (s' : S)
      → call o.captured (h, s) ≡ some (c, (h', s'))
      → (consume call t (h, s) ≡ some (empty, (update h' t.callable_ptr none, s')))
        × ((s'' : S) → consume call t (update h' t.callable_ptr none, s'') ≡ none)
  consume_once c h' s' ran = (
    consume-IsLive c h' s' ran,
    λ s''. consume_stale call t _ s'' (update_self h' t.callable_ptr none),
  )

module _ {ℓ κ} {C : Type ℓ} {S : Type κ} (call : C → Heap C × S → Option (C × (Heap C × S))) where
  -- A task that is built from a callable, at a pointer that is not null, and then consumed calls the
  -- callable once, where the call returns: the handle is empty, the new cell is free again, and what
  -- else the call did to the heap and to the state stays.
  pub make-consume :
      (fresh : Ptr) (k : Kind) (c c' : C) (h h' : Heap C) (s s' : S)
      → fresh ≢ null
      → call c (update h fresh (some (object k c)), s) ≡ some (c', (h', s'))
      → (do (t, grown) ← make fresh k c h; consume call t (grown, s))
        ≡ some (empty, (update h' fresh none, s'))
  unfolding make
  make-consume fresh k c c' h h' s s' ne ran =
      let t : Task = record { callable_ptr = fresh; invoke_fn = some k; destroy_fn = some k } in
      let full : (fresh == null) ≡ false = ground arith in
      let live : IsLive t (update h fresh (some (object k c))) (object k c) = record {
        present = ne;
        points = update_self h fresh (some (object k c));
        invokes = refl;
        destroys = refl;
      } in
      rw full (
        consume-IsLive call t (update h fresh (some (object k c))) (object k c) s live c' h' s' ran)
