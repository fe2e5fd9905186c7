-- ===== src/Dart.antt =====
-- The trace analyzer of script/dart.py: a log of kernel events is replayed, and racing pairs of
-- memory accesses are found by happens-before and lock sets.
pub mod LogType
pub mod CtxtType
pub mod ExecUnit
pub mod Locks
pub mod Compdb
pub mod State
pub mod Context
pub mod Sync
pub mod Async
pub mod Event
pub mod Memory
pub mod Race
pub mod Exec
pub mod Replay
pub mod Held
pub mod Tests
