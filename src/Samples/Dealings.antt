-- ===== src/Samples/Dealings.antt =====
-- Tasks dealt out by the pool, and countdowns, at concrete inputs.
use mini_rts.Base.{◌+◌, ◌-◌, ◌%◌, ◌^◌, ◌≡◌, some, false, leb, ◌++◌, arith}
use mini_rts.Core.Pool.Dealing.{dealt, enqueue_all-dealt}
use mini_rts.Async.Countdown.{count_downs, count_downs_lem}
use mini_rts.Samples.Queueing.{d, s, fresh, fresh-turn, four, at_four, four-fit}

enqueue_all-dealt_example :
    s.to_list (at_four.workers 0).spscq
    ≡ s.to_list (fresh.workers 0).spscq ++ dealt 3 fresh.round_robin 0 four
enqueue_all-dealt_example =
    enqueue_all-dealt d s 3 fresh at_four four 0 (omega arith) (omega (arith, fresh-turn)) four-fit

count_downs_lem_example :
    count_downs 5 (record { remaining = 3; resolved = false })
    ≡ some (record { remaining = (3 + 2 ^ 64 - 5) % 2 ^ 64; resolved = leb 3 5 })
count_downs_lem_example = count_downs_lem 3 5 (omega arith) (omega arith) (omega arith)
