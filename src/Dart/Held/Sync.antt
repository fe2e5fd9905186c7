-- ===== src/Dart/Held/Sync.antt =====
-- script/dart.py: the handlers of locks keep the lock tables.
use krace.Prelude.{ℕ, Bool, true, false, String}
use krace.Dart.CtxtType.{LogMeta}
use krace.Dart.Held.Rules.{Keeps, keeps_rules}
use krace.Dart.Sync.{
  task_add_lock, task_del_lock, acquired, released, log_sync_gen_lock, log_sync_gen_unlock,
  seq_lock, log_sync_seq_lock, seq_unlock, log_sync_seq_unlock, log_sync_rcu_lock,
  log_sync_rcu_unlock,
}
use krace.Dart.Held.Notes.{notes_rules}
use krace.Dart.Held.Locks.{lock_rules}

pub task_add_lock-Keeps : (b : Bool) (meta : LogMeta) (lock : ℕ) → Keeps (task_add_lock b meta lock)
unfolding task_add_lock
task_add_lock-Keeps true meta lock = search (keeps_rules, lock_rules) depth 12
task_add_lock-Keeps false meta lock = search (keeps_rules, lock_rules) depth 12

pub task_del_lock-Keeps : (b : Bool) (meta : LogMeta) (lock : ℕ) → Keeps (task_del_lock b meta lock)
unfolding task_del_lock
task_del_lock-Keeps true meta lock = search (keeps_rules, lock_rules) depth 12
task_del_lock-Keeps false meta lock = search (keeps_rules, lock_rules) depth 12

pub acquired-Keeps :
    (meta : LogMeta) (dirch : String) (lock : ℕ) (kind : String)
    → Keeps (acquired meta dirch lock kind)
acquired-Keeps meta dirch lock kind = search (keeps_rules, notes_rules, lock_rules) depth 12

pub released-Keeps :
    (meta : LogMeta) (dirch : String) (lock : ℕ) (kind : String)
    → Keeps (released meta dirch lock kind)
released-Keeps meta dirch lock kind = search (keeps_rules, notes_rules, lock_rules) depth 12

pub log_sync_gen_lock-Keeps : (meta : LogMeta) (lock : ℕ) → Keeps (log_sync_gen_lock meta lock)
unfolding log_sync_gen_lock
log_sync_gen_lock-Keeps meta lock =
    search (keeps_rules, lock_rules, task_add_lock-Keeps, acquired-Keeps) depth 12

pub log_sync_gen_unlock-Keeps : (meta : LogMeta) (lock : ℕ) → Keeps (log_sync_gen_unlock meta lock)
unfolding log_sync_gen_unlock
log_sync_gen_unlock-Keeps meta lock =
    search (keeps_rules, lock_rules, task_del_lock-Keeps, released-Keeps) depth 12

pub seq_lock-Keeps : (b : Bool) (meta : LogMeta) (lock : ℕ) → Keeps (seq_lock b meta lock)
unfolding seq_lock
seq_lock-Keeps true meta lock =
    search (keeps_rules, notes_rules, lock_rules, acquired-Keeps) depth 12
seq_lock-Keeps false meta lock =
    search (keeps_rules, notes_rules, lock_rules, acquired-Keeps) depth 12

pub log_sync_seq_lock-Keeps : (meta : LogMeta) (lock : ℕ) → Keeps (log_sync_seq_lock meta lock)
unfolding log_sync_seq_lock
log_sync_seq_lock-Keeps meta lock =
    search (keeps_rules, lock_rules, acquired-Keeps, seq_lock-Keeps) depth 12

pub seq_unlock-Keeps : (b : Bool) (meta : LogMeta) (lock : ℕ) → Keeps (seq_unlock b meta lock)
unfolding seq_unlock
seq_unlock-Keeps true meta lock =
    search (keeps_rules, lock_rules, released-Keeps, seq_lock-Keeps) depth 12
seq_unlock-Keeps false meta lock =
    search (keeps_rules, lock_rules, released-Keeps, seq_lock-Keeps) depth 12

pub log_sync_seq_unlock-Keeps : (meta : LogMeta) (lock : ℕ) → Keeps (log_sync_seq_unlock meta lock)
unfolding log_sync_seq_unlock
log_sync_seq_unlock-Keeps meta lock =
    search (keeps_rules, lock_rules, released-Keeps, seq_unlock-Keeps) depth 12

pub log_sync_rcu_lock-Keeps : (meta : LogMeta) (lock : ℕ) → Keeps (log_sync_rcu_lock meta lock)
unfolding log_sync_rcu_lock
log_sync_rcu_lock-Keeps meta lock =
    search (keeps_rules, lock_rules, task_add_lock-Keeps, acquired-Keeps) depth 12

pub log_sync_rcu_unlock-Keeps : (meta : LogMeta) (lock : ℕ) → Keeps (log_sync_rcu_unlock meta lock)
unfolding log_sync_rcu_unlock
log_sync_rcu_unlock-Keeps meta lock =
    search (keeps_rules, lock_rules, task_del_lock-Keeps, released-Keeps) depth 12

pub ruleset sync_rules = (
  task_add_lock-Keeps, task_del_lock-Keeps, acquired-Keeps, released-Keeps, log_sync_gen_lock-Keeps,
  log_sync_gen_unlock-Keeps, seq_lock-Keeps, log_sync_seq_lock-Keeps, seq_unlock-Keeps,
  log_sync_seq_unlock-Keeps, log_sync_rcu_lock-Keeps, log_sync_rcu_unlock-Keeps,
)
