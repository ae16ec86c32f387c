-- ===== src/Core.antt =====
-- src/core: tasks, workers, the thread pool and the runtime's global state.
pub mod Constants
pub mod Task
pub mod Queues
pub mod Worker
pub mod Pool
pub mod Thread
pub mod Schedule
pub mod Runtime
