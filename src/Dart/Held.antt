-- ===== src/Dart/Held.antt =====
-- script/dart.py: what every handler keeps true of the lock tables of the tasks.
pub mod Rules
pub mod Notes
pub mod Context
pub mod Locks
pub mod Sync
pub mod Async
pub mod Callbacks
pub mod Event
pub mod Memory
pub mod Exec
pub mod Race
pub mod Replay
