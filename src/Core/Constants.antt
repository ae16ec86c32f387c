-- ===== src/Core/Constants.antt =====
-- src/core/constants.h: default sizes and the shutdown modes, with the values of the enumeration.
use mini_rts.Base.{ℕ, Option, ◌==◌, if◌then◌else◌, none, some}

abbrev pub default_capacity : ℕ
default_capacity = 1024

-- `hardware_concurrency()` is 0 where the library cannot tell.
pub default_worker_count : (hardware_concurrency : Option ℕ) → ℕ
default_worker_count none = 1
default_worker_count (some n) = if n == 0 then 1 else n

pub data ShutdownMode : Type 0 where
  hard_shutdown soft_shutdown : ShutdownMode

-- The value that is stored in the shared flag, which is 0 while the pool runs.
abbrev pub flag_of : ShutdownMode → ℕ
flag_of hard_shutdown = 1
flag_of soft_shutdown = 2
