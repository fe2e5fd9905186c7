-- ===== src/Dart/Sync/Refused.antt =====
-- script/dart.py: the assertions of `log_sync_gen_lock` and `log_sync_gen_unlock`.
use krace.Prelude.{ℕ, ◌≢◌, ◌≡◌, Bool, true, false, some, ◌==◌, arith}
use krace.Dict.{lookup, insert}
use krace.Dict.Key.{nat_eq}
use krace.Dart.CtxtType.{LogMeta, is_rw}
use krace.Dart.Locks.{
  LockDepths, LockMap, depth, add_lock, del_lock, add_lock_r, add_lock_w, del_lock_r, del_lock_w,
}
use krace.Dart.State.{Analyzer, TaskState}
use krace.Dart.State.Monad.{
  done, raised, assert_failed, raise, pure, check, when, fetch, or_raise, modify, get_task,
  put_task, ◌>>=◌,
}
use krace.Dart.Sync.{
  failed_try, task_add_lock, task_del_lock, log_sync_gen_lock, log_sync_gen_unlock,
}

-- The table for an exclusive or a shared access
abbrev pub table : Bool → LockMap → LockDepths
table true m = m.locks_w
table false m = m.locks_r

del_lock-depth : (lock : ℕ) (locks : LockDepths) → (del_lock lock locks).0 ≡ depth lock locks
unfolding del_lock
del_lock-depth lock locks = ground arith

del_lock_r-depth : (lock : ℕ) (m : LockMap) → (del_lock_r lock m).0 ≡ depth lock m.locks_r
unfolding del_lock_r
del_lock_r-depth lock m = del_lock-depth lock m.locks_r

del_lock_w-depth : (lock : ℕ) (m : LockMap) → (del_lock_w lock m).0 ≡ depth lock m.locks_w
unfolding del_lock_w
del_lock_w-depth lock m = del_lock-depth lock m.locks_w

-- The state in which the task has these tables
abbrev with_locks : ℕ → TaskState → LockMap → Analyzer → Analyzer
with_locks ptid t m s = record s { tasks = insert ptid (record t { sync_locks = m }) s.tasks }

module _ (meta : LogMeta) (lock : ℕ) (t : TaskState) (s : Analyzer)
    (e : lookup meta.ptid s.tasks ≡ some t) where
  task_add_lock-depth :
      (b : Bool)
      → (s' : Analyzer) × (task_add_lock b meta lock s
          ≡ done (depth lock (table b t.sync_locks)) s')
  unfolding task_add_lock add_lock_r add_lock_w add_lock get_task put_task fetch or_raise modify
      pure ◌>>=◌
  task_add_lock-depth true = (with_locks meta.ptid t (add_lock_w lock t.sync_locks).1 s, rw e)
  task_add_lock-depth false = (with_locks meta.ptid t (add_lock_r lock t.sync_locks).1 s, rw e)

  task_del_lock-depth :
      (b : Bool)
      → (s' : Analyzer) × (task_del_lock b meta lock s
          ≡ done (depth lock (table b t.sync_locks)) s')
  unfolding task_del_lock get_task put_task fetch or_raise modify pure ◌>>=◌
  task_del_lock-depth true = (
    with_locks meta.ptid t (del_lock_w lock t.sync_locks).1 s,
    rw (e, del_lock_w-depth lock t.sync_locks),
  )
  task_del_lock-depth false = (
    with_locks meta.ptid t (del_lock_r lock t.sync_locks).1 s,
    rw (e, del_lock_r-depth lock t.sync_locks),
  )

apart_from : (n k : ℕ) → n ≢ k → (n == k) ≡ false
apart_from n k ne = ground arith

-- For an entry that is no failed try, of a known task: a generic lock whose depth for this kind of
-- access is not 0 is refused by the assertion of `log_sync_gen_lock`, and one whose depth is not 1 by
-- that of `log_sync_gen_unlock`.
pub gen_lock_refused :
    (meta : LogMeta) (lock : ℕ) (t : TaskState) (s : Analyzer)
    → lookup meta.ptid s.tasks ≡ some t
    → failed_try meta.info ≡ false
    → (depth lock (table (is_rw meta.info) t.sync_locks) ≢ 0
        → (s' : Analyzer) × (log_sync_gen_lock meta lock s
            ≡ raised (assert_failed "gen_lock acquired with wrong depth") s'))
      × (depth lock (table (is_rw meta.info) t.sync_locks) ≢ 1
          → (s' : Analyzer) × (log_sync_gen_unlock meta lock s
              ≡ raised (assert_failed "gen_lock released with wrong depth") s'))
unfolding log_sync_gen_lock log_sync_gen_unlock when check raise ◌>>=◌
gen_lock_refused meta lock t s e tried =
    let (s1, added) = task_add_lock-depth meta lock t s e (is_rw meta.info) in
    let (s2, deleted) = task_del_lock-depth meta lock t s e (is_rw meta.info) in
    (
      λ n. (s1, rw (tried, added, apart_from _ 0 n)),
      λ n. (s2, rw (tried, deleted, apart_from _ 1 n)),
    )
