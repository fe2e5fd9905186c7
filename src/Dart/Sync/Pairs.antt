-- ===== src/Dart/Sync/Pairs.antt =====
-- script/dart.py: `log_sync_gen_lock` and `log_sync_gen_unlock` as a pair.
use krace.Prelude.{
  String, ℕ, ◌≡◌, ap, sym, ◌∙◌, Bool, true, false, none, some, List, [], ◌∷◌, ◌++◌, get_elem?,
  Bool-cases, inl, inr,
}
use mathlib.Core.List.{append-nil}
use krace.Dict.{lookup, insert}
use krace.Dict.Key.{nat_eq}
use krace.Dict.Laws.{
  insert-append, erase-append, lookup-append, lookup_head, lookup-insert_self, insert-insert,
  insert_same,
}
use krace.Dart.CtxtType.{LogMeta, is_rw}
use krace.Dart.ExecUnit.{ExecUnit}
use krace.Dart.Locks.{
  LockDepths, LockMap, depth, add_lock, del_lock, add_lock_r, add_lock_w, del_lock_r, del_lock_w,
}
use krace.Dart.State.{Analyzer, TaskState, Note}
use krace.Dart.State.Monad.{
  done, pure, check, when, fetch, or_raise, modify, get_task, put_task, ◌>>=◌, ◌>>◌,
}
use krace.Dart.State.Notes.{record_sync_lock_acquire, record_sync_lock_release}
use krace.Dart.State.Console.{with_console, note-done}
use krace.Dart.Sync.{
  failed_try, task_add_lock, task_del_lock, direction, acquired, released, log_sync_gen_lock,
  log_sync_gen_unlock,
}

-- A lock that is not in the table is added behind it, and deleted from there.
add_lock-new :
    (lock : ℕ) (locks : LockDepths)
    → lookup lock locks ≡ none
    → add_lock lock locks ≡ (0, locks ++ (lock, 1) ∷ [])
unfolding add_lock depth
add_lock-new lock locks new = rw (new, insert-append lock 1 locks new)

del_lock-last :
    (lock : ℕ) (locks : LockDepths)
    → lookup lock locks ≡ none
    → del_lock lock (locks ++ (lock, 1) ∷ []) ≡ (1, locks)
unfolding del_lock depth
del_lock-last lock locks new = rw (
  lookup-append lock locks ((lock, 1) ∷ []) new,
  lookup_head {V = ℕ} lock 1 [],
  erase-append lock 1 locks [] new,
  append-nil,
)

-- The tables of a task with one more lock, not held before
abbrev with_lock : Bool → ℕ → LockMap → LockMap
with_lock true lock m = record m { locks_w = m.locks_w ++ (lock, 1) ∷ [] }
with_lock false lock m = record m { locks_r = m.locks_r ++ (lock, 1) ∷ [] }

-- The state in which the task has these tables
abbrev with_locks : ℕ → TaskState → LockMap → Analyzer → Analyzer
with_locks ptid t m s = record s { tasks = insert ptid (record t { sync_locks = m }) s.tasks }

-- The lock is in neither table.
abbrev pub IsFree : ℕ → LockMap → Type 0
IsFree lock m = (lookup lock m.locks_r ≡ none) × (lookup lock m.locks_w ≡ none)

module _ (lock : ℕ) (m : LockMap) (free : IsFree lock m) where
  add_lock_r-new : add_lock_r lock m ≡ (0, with_lock false lock m)
  unfolding add_lock_r
  add_lock_r-new =
      ap (λ (d, locks). (d, record m { locks_r = locks })) (add_lock-new lock m.locks_r free.0)

  add_lock_w-new : add_lock_w lock m ≡ (0, with_lock true lock m)
  unfolding add_lock_w
  add_lock_w-new =
      ap (λ (d, locks). (d, record m { locks_w = locks })) (add_lock-new lock m.locks_w free.1)

  del_lock_r-last : del_lock_r lock (with_lock false lock m) ≡ (1, m)
  unfolding del_lock_r
  del_lock_r-last =
      ap (λ (d, locks). (d, record m { locks_r = locks })) (del_lock-last lock m.locks_r free.0)

  del_lock_w-last : del_lock_w lock (with_lock true lock m) ≡ (1, m)
  unfolding del_lock_w
  del_lock_w-last =
      ap (λ (d, locks). (d, record m { locks_w = locks })) (del_lock-last lock m.locks_w free.1)

module _ (meta : LogMeta) (lock : ℕ) (t : TaskState) (u : ExecUnit)
    (free : IsFree lock t.sync_locks) where
  task_add_lock-done :
      (b : Bool) (s : Analyzer)
      → lookup meta.ptid s.tasks ≡ some t
      → task_add_lock b meta lock s
        ≡ done 0 (with_locks meta.ptid t (with_lock b lock t.sync_locks) s)
  unfolding task_add_lock get_task put_task fetch or_raise modify pure ◌>>=◌
  task_add_lock-done true s e = rw (e, add_lock_w-new lock t.sync_locks free)
  task_add_lock-done false s e = rw (e, add_lock_r-new lock t.sync_locks free)

  task_del_lock-done :
      (b : Bool) (s : Analyzer)
      → lookup meta.ptid s.tasks ≡ some (record t { sync_locks = with_lock b lock t.sync_locks })
      → task_del_lock b meta lock s ≡ done 1 (with_locks meta.ptid t t.sync_locks s)
  unfolding task_del_lock get_task put_task fetch or_raise modify pure ◌>>=◌
  task_del_lock-done true s e = rw (e, del_lock_w-last lock t.sync_locks free)
  task_del_lock-done false s e = rw (e, del_lock_r-last lock t.sync_locks free)

  -- The line about the lock at the end of a handler
  acquired-done :
      (dirch : String) (t' : TaskState) (s : Analyzer)
      → lookup meta.ptid s.tasks ≡ some t'
      → get_elem? s.units t'.unit ≡ some u
      → (lines : List Note) × (acquired meta dirch lock "GEN" s ≡ done tt (with_console s lines))
  unfolding get_task fetch or_raise pure record_sync_lock_acquire ◌>>=◌
  acquired-done dirch t' s e eu =
      let (lines, noted) = note-done "|+|" meta t' (lock ∷ []) (dirch ∷ "GEN" ∷ []) s u eu in
      (lines, rw e noted)

  released-done :
      (dirch : String) (t' : TaskState) (s : Analyzer)
      → lookup meta.ptid s.tasks ≡ some t'
      → get_elem? s.units t'.unit ≡ some u
      → (lines : List Note) × (released meta dirch lock "GEN" s ≡ done tt (with_console s lines))
  unfolding get_task fetch or_raise pure record_sync_lock_release ◌>>=◌
  released-done dirch t' s e eu =
      let (lines, noted) = note-done "|-|" meta t' (lock ∷ []) (dirch ∷ "GEN" ∷ []) s u eu in
      (lines, rw e noted)

  log_sync_gen_lock-done :
      (s : Analyzer)
      → lookup meta.ptid s.tasks ≡ some t
      → get_elem? s.units t.unit ≡ some u
      → failed_try meta.info ≡ false
      → (lines : List Note) × (log_sync_gen_lock meta lock s
          ≡ done tt (
              with_console
                (with_locks meta.ptid t (with_lock (is_rw meta.info) lock t.sync_locks) s)
                lines))
  unfolding log_sync_gen_lock
  log_sync_gen_lock-done s e eu tried =
      let m = with_lock (is_rw meta.info) lock t.sync_locks in
      let (lines, noted) =
        acquired-done (direction (is_rw meta.info)) (record t { sync_locks = m })
          (with_locks meta.ptid t m s) (lookup-insert_self meta.ptid _ s.tasks) eu in
      (
        lines,
        unfold when check pure ◌>>=◌ in rw (tried, task_add_lock-done (is_rw meta.info) s e) noted,
      )

  log_sync_gen_unlock-done :
      (s : Analyzer)
      → lookup meta.ptid s.tasks
        ≡ some (record t { sync_locks = with_lock (is_rw meta.info) lock t.sync_locks })
      → get_elem? s.units t.unit ≡ some u
      → failed_try meta.info ≡ false
      → (lines : List Note) × (log_sync_gen_unlock meta lock s
          ≡ done tt (with_console (with_locks meta.ptid t t.sync_locks s) lines))
  unfolding log_sync_gen_unlock
  log_sync_gen_unlock-done s e eu tried =
      let (lines, noted) =
        released-done (direction (is_rw meta.info)) t (with_locks meta.ptid t t.sync_locks s)
          (lookup-insert_self meta.ptid _ s.tasks) eu in
      (
        lines,
        unfold when check pure ◌>>=◌ in rw (tried, task_del_lock-done (is_rw meta.info) s e) noted,
      )

-- A generic lock that a task acquires and releases, for reading or for writing alike in both entries,
-- leaves the state as it was but for the console, where the task runs on a unit and held the lock in
-- neither way: neither handler raises. A failed try leaves it so too.
pub gen_lock_unlock :
    (meta meta' : LogMeta) (lock : ℕ) (t : TaskState) (u : ExecUnit) (s : Analyzer)
    → lookup meta.ptid s.tasks ≡ some t
    → get_elem? s.units t.unit ≡ some u
    → IsFree lock t.sync_locks
    → meta.ptid ≡ meta'.ptid
    → is_rw meta.info ≡ is_rw meta'.info
    → failed_try meta.info ≡ failed_try meta'.info
    → (lines : List Note) × ((log_sync_gen_lock meta lock >> log_sync_gen_unlock meta' lock) s
        ≡ done tt (with_console s lines))
gen_lock_unlock meta meta' lock t u s e eu free same_ptid same_rw same_try =
    elim (Bool-cases (failed_try meta.info)) [
      | inl failed ↦ (
        s.console,
        unfold log_sync_gen_lock log_sync_gen_unlock when pure ◌>>=◌ in
            rw (failed, (sym same_try ∙ failed)),
      )
      | inr tried ↦
          let m = with_lock (is_rw meta.info) lock t.sync_locks in
          let (first, locks) = log_sync_gen_lock-done meta lock t u free s e eu tried in
          let s1 = with_console (with_locks meta.ptid t m s) first in
          let held : lookup meta'.ptid s1.tasks
              ≡ some (record t { sync_locks = with_lock (is_rw meta'.info) lock t.sync_locks }) =
            rw (sym same_ptid, sym same_rw, lookup-insert_self) in
          let (lines, unlocks) =
            log_sync_gen_unlock-done meta' lock t u free s1 held eu (sym same_try ∙ tried) in
          let back : insert meta'.ptid t s1.tasks ≡ s.tasks =
            rw (sym same_ptid, insert-insert) (insert_same meta.ptid t s.tasks e) in
          (
            lines,
            unfold ◌>>=◌ in
                rw locks
                  (unlocks ∙ ap (λ d. done tt (record s { tasks = d; console = lines })) back),
          )
    ]
