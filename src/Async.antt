-- ===== src/Async.antt =====
-- src/async: promises, futures and their continuations, over the tasks of src/core.
pub mod State
pub mod Promise
pub mod Program
pub mod Handle
pub mod WhenAll
pub mod WhenAny
pub mod Countdown
pub mod Combine
