-- ===== src/Samples/Sessions.antt =====
-- A task's life, and a session of the runtime, at concrete inputs. The pool lists what it is told.
use mini_rts.Base.{
  ℕ, ◌+◌, ◌≡◌, refl, ◌==◌, ◌||◌, if◌then◌else◌, Option, none, some, true, List, [], ◌∷◌, arith,
}
use mini_rts.Base.Family.{update}
use mini_rts.Core.Constants.{soft_shutdown, flag_of}
use mini_rts.Core.Task.{◌>>=◌, object, Heap, Task, empty, to_bool, make, consume}
use mini_rts.Core.Task.Life.{IsLive, consume_once, make-consume}
use mini_rts.Core.Runtime.{ThreadPool, inactive}
use mini_rts.Core.Runtime.Session.{
  Call, initializes, enqueues, finalizes, calls, all_meant, with_globals, calls_refine, session,
  session_lem, pool_enqueue_all,
}

abbrev empty_heap : Heap ℕ
empty_heap p = none

abbrev heap : Heap ℕ
heap = update empty_heap 5 (some (object 2 40))

abbrev task : Task
task = record { callable_ptr = 5; invoke_fn = some 2; destroy_fn = some 2 }

live : IsLive task heap (object 2 40)
live = record { present = omega arith; points = refl; invokes = refl; destroys = refl }

-- A callable adds what it captured to the state, and counts its calls.
abbrev call : ℕ → Heap ℕ × ℕ → Option (ℕ × (Heap ℕ × ℕ))
call c (h, total) = some (c + 1, (h, total + c))

consume_once_example :
    (consume call task (heap, 2) ≡ some (empty, (update heap 5 none, 42)))
    × ((s : ℕ) → consume call task (update heap 5 none, s) ≡ none)
consume_once_example = consume_once call task heap (object 2 40) 2 live 41 heap 42 refl

make-consume_example :
    (do (t, grown) ← make 5 2 40 empty_heap; consume call t (grown, 2))
    ≡ some (empty, (update heap 5 none, 42))
make-consume_example = make-consume call 5 2 40 41 empty_heap heap 2 42 (omega arith) refl

-- It turns down a size of zero, as src/core/default_thread_pool.h does.
abbrev pool : ThreadPool
pool = record {
  State = List ℕ;
  make = λ n c. if (n == 0) || (c == 0) then none else some (n ∷ c ∷ []);
  init = λ l. some (100 ∷ l);
  finalize = λ mode l. some (flag_of mode ∷ l);
  enqueue = λ t l. some (t.callable_ptr ∷ l);
  delete = λ l. some (0 ∷ l);
}

-- The second initialisation is turned down, and a second session follows.
abbrev some_calls : List (Call pool)
some_calls =
    initializes 4 16
    ∷ enqueues task
    ∷ initializes 2 8
    ∷ finalizes soft_shutdown
    ∷ initializes 2 8
    ∷ []

calls_refine_example :
    calls pool some_calls (inactive pool) ≡ with_globals pool (all_meant pool some_calls none)
calls_refine_example = calls_refine pool some_calls

task-full : to_bool task ≡ true
unfolding to_bool
task-full = refl

session_lem_example : session pool 4 16 (task ∷ task ∷ []) soft_shutdown (inactive pool) ≡ (do
  made ← pool.make 4 16
  started ← pool.init made
  served ← pool_enqueue_all pool (task ∷ task ∷ []) started
  ended ← pool.finalize soft_shutdown served
  gone ← pool.delete ended
  some (gone, inactive pool))
session_lem_example =
    session_lem pool 4 16 (task ∷ task ∷ []) soft_shutdown (task-full, (task-full, tt))
