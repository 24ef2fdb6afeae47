-- ===== src/Lockable/Invariant.antt =====
-- The invariant of Phase under the handlers of lockable.go.
pub mod Requests
pub mod Aborts
pub mod Errors
pub mod Full
pub mod Init
pub mod Process
pub mod Histories
pub mod Locking
pub mod Successes
pub mod Good
