-- ===== src/Collect.antt =====
-- internal/collect: the scheduler that decides which collection task runs when.
mod Samples
pub mod Dispatcher
pub mod Backoff
pub mod Task
pub mod Due
pub mod Pending
pub mod Accrue
pub mod Eligible
pub mod Dispatch
pub mod TaskState
