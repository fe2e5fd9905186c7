-- ===== src/Dart/Tests/Sync.antt =====
-- A task acquires a generic lock exclusively, releases it, and is refused when it holds it already.
use krace.Prelude.{◌≢◌, ◌≡◌, refl, List, [], ◌∷◌}
use krace.Dict.{lookup}
use krace.Dart.CtxtType.{LogMeta, is_rw, is_try, is_succ}
use krace.Dart.ExecUnit.{create}
use krace.Dart.Locks.{depth}
use krace.Dart.State.{Analyzer, TaskState, Note, init, create_task}
use krace.Dart.State.Monad.{done, raised, assert_failed, ◌>>◌}
use krace.Dart.State.Console.{with_console}
use krace.Dart.Sync.{log_sync_gen_lock, log_sync_gen_unlock, failed_try}
use krace.Dart.Sync.Pairs.{gen_lock_unlock}
use krace.Dart.Sync.Refused.{table, gen_lock_refused}

abbrev start : Analyzer
start = init []

-- An exclusive access that succeeds
abbrev meta : LogMeta
meta = record { info = 5; ptid = 0; hval = 6 }

gen_lock_unlock_example :
    (lines : List Note) × ((log_sync_gen_lock meta 3 >> log_sync_gen_unlock meta 3) start
      ≡ done tt (with_console start lines))
gen_lock_unlock_example =
    gen_lock_unlock meta meta 3 (create_task 0) (create 0) start (unfold init lookup in refl)
      (unfold init in refl) (unfold create_task lookup in (refl, refl)) refl refl refl

abbrev holder : TaskState
holder = record (create_task 0) { sync_locks = record { locks_r = []; locks_w = (3, 1) ∷ [] } }

abbrev held : Analyzer
held = record start { tasks = (0, holder) ∷ [] }

gen_lock_refused_example :
    (depth 3 (table (is_rw meta.info) holder.sync_locks) ≢ 0
      → (s' : Analyzer) × (log_sync_gen_lock meta 3 held
          ≡ raised (assert_failed "gen_lock acquired with wrong depth") s'))
    × (depth 3 (table (is_rw meta.info) holder.sync_locks) ≢ 1
        → (s' : Analyzer) × (log_sync_gen_unlock meta 3 held
            ≡ raised (assert_failed "gen_lock released with wrong depth") s'))
gen_lock_refused_example =
    gen_lock_refused meta 3 holder held (unfold lookup in refl)
      (unfold failed_try is_try is_succ in refl)
