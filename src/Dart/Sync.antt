-- ===== src/Dart/Sync.antt =====
-- script/dart.py: the handlers `log_sync_*` of generic, sequence and RCU locks.
pub mod Pairs
pub mod Refused
use krace.Prelude.{ℕ, Bool, true, false, [], ◌∷◌, String, ◌==◌, ◌&&◌, leb, is_some, not}
use krace.Dart.CtxtType.{LogMeta, is_rw, is_try, is_succ}
use krace.Dart.Locks.{
  add_lock_r, add_lock_w, del_lock_r, del_lock_w, add_tran_r, del_tran_r, add_seq_w, del_seq_w,
}
use krace.Dart.State.Monad.{
  M, ⊤, assertion_error, pure, check, when, or_raise, load, clone, get_task, put_task, ◌>>=◌, ◌>>◌,
}
use krace.Dart.State.Notes.{record_warning, record_sync_lock_acquire, record_sync_lock_release}

-- `if info.is_try and not info.is_succ: return`
unfoldable pub failed_try : ℕ → Bool
failed_try info = is_try info && not (is_succ info)

-- `task.sync_locks.add_lock_w(lock)` and the three others: the depth before
unfoldable pub task_add_lock : Bool → LogMeta → ℕ → M ℕ
task_add_lock true meta lock = do
  t ← get_task meta.ptid
  put_task meta.ptid (record t { sync_locks = (add_lock_w lock t.sync_locks).1 })
  pure (add_lock_w lock t.sync_locks).0
task_add_lock false meta lock = do
  t ← get_task meta.ptid
  put_task meta.ptid (record t { sync_locks = (add_lock_r lock t.sync_locks).1 })
  pure (add_lock_r lock t.sync_locks).0

unfoldable pub task_del_lock : Bool → LogMeta → ℕ → M ℕ
task_del_lock true meta lock = do
  t ← get_task meta.ptid
  put_task meta.ptid (record t { sync_locks = (del_lock_w lock t.sync_locks).1 })
  pure (del_lock_w lock t.sync_locks).0
task_del_lock false meta lock = do
  t ← get_task meta.ptid
  put_task meta.ptid (record t { sync_locks = (del_lock_r lock t.sync_locks).1 })
  pure (del_lock_r lock t.sync_locks).0

-- `dirch`
abbrev pub direction : Bool → String
direction true = "E"
direction false = "S"

abbrev pub acquired : LogMeta → String → ℕ → String → M ⊤
acquired meta dirch lock kind = do
  t ← get_task meta.ptid
  record_sync_lock_acquire meta t dirch lock kind

abbrev pub released : LogMeta → String → ℕ → String → M ⊤
released meta dirch lock kind = do
  t ← get_task meta.ptid
  record_sync_lock_release meta t dirch lock kind

unfoldable pub log_sync_gen_lock : LogMeta → ℕ → M ⊤
log_sync_gen_lock meta lock = when (not (failed_try meta.info)) (do
  depth ← task_add_lock (is_rw meta.info) meta lock
  check (depth == 0) "gen_lock acquired with wrong depth"
  acquired meta (direction (is_rw meta.info)) lock "GEN")

unfoldable pub log_sync_gen_unlock : LogMeta → ℕ → M ⊤
log_sync_gen_unlock meta lock = when (not (failed_try meta.info)) (do
  depth ← task_del_lock (is_rw meta.info) meta lock
  check (depth == 1) "gen_lock released with wrong depth"
  released meta (direction (is_rw meta.info)) lock "GEN")

-- The writer's part of `log_sync_seq_lock`, and the reader's
unfoldable pub seq_lock : Bool → LogMeta → ℕ → M ⊤
seq_lock true meta lock = do
  t ← get_task meta.ptid
  put_task meta.ptid (record t { sync_trans = (add_seq_w lock t.sync_trans).1 })
  check ((add_seq_w lock t.sync_trans).0 == 0) "seq_lock [E] acquired with wrong depth"
seq_lock false meta lock = do
  t ← get_task meta.ptid
  begin ← clone t.unit
  put_task meta.ptid (record t { sync_trans = (add_tran_r lock begin t.sync_trans).1 })
  when (not (is_some (add_tran_r lock begin t.sync_trans).0))
      (record_warning meta t (lock ∷ []) "seq_lock [S] acquired with wrong depth")

unfoldable pub log_sync_seq_lock : LogMeta → ℕ → M ⊤
log_sync_seq_lock meta lock = when (not (failed_try meta.info)) (do
  seq_lock (is_rw meta.info) meta lock
  acquired meta (direction (is_rw meta.info)) lock "SEQ")

unfoldable pub seq_unlock : Bool → LogMeta → ℕ → M ⊤
seq_unlock true meta lock = do
  t ← get_task meta.ptid
  put_task meta.ptid (record t { sync_trans = (del_seq_w lock t.sync_trans).1 })
  check ((del_seq_w lock t.sync_trans).0 == 1) "seq_lock [E] released with wrong depth"
seq_unlock false meta lock = do
  t ← get_task meta.ptid
  retry ← clone t.unit
  put_task meta.ptid (record t { sync_trans = (del_tran_r lock retry t.sync_trans).1 })
  check (is_some (del_tran_r lock retry t.sync_trans).0) "seq_lock [S] released with wrong depth"
  begin ← or_raise assertion_error (del_tran_r lock retry t.sync_trans).0
  prior ← load begin
  u ← load t.unit
  check (prior.seq == u.seq) "seq_lock [S] released with wrong ctxt"

unfoldable pub log_sync_seq_unlock : LogMeta → ℕ → M ⊤
log_sync_seq_unlock meta lock = when (not (failed_try meta.info)) (do
  seq_unlock (is_rw meta.info) meta lock
  released meta (direction (is_rw meta.info)) lock "SEQ")

-- RCU readers may nest; writers may not.
unfoldable pub log_sync_rcu_lock : LogMeta → ℕ → M ⊤
log_sync_rcu_lock meta lock = when (not (failed_try meta.info)) (do
  depth ← task_add_lock (is_rw meta.info) meta lock
  when (is_rw meta.info) (check (depth == 0) "rcu_lock [E] acquired with wrong depth")
  acquired meta (direction (is_rw meta.info)) lock "RCU")

unfoldable pub log_sync_rcu_unlock : LogMeta → ℕ → M ⊤
log_sync_rcu_unlock meta lock = when (not (failed_try meta.info)) (do
  depth ← task_del_lock (is_rw meta.info) meta lock
  check (leb 1 depth) "rcu_lock released with wrong depth"
  released meta (direction (is_rw meta.info)) lock "RCU")
