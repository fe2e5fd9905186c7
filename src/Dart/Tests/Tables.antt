-- ===== src/Dart/Tests/Tables.antt =====
-- Nested locks, stack frames, allocations, integers of the log and the state before the log.
use krace.Prelude.{ℕ, ◌+◌, ◌≡◌, ◌≢◌, ◌↔◌, ◌⊎◌, ◌≤◌, refl, true, List, [], ◌∷◌, arith, has, leb}
use krace.Dict.{lookup}
use krace.Dict.Key.{nat_eq}
use krace.Dart.CtxtType.{LogMeta}
use krace.Dart.Locks.{LockMap, depth, lockset, lockset_r, lockset_w}
use krace.Dart.Locks.Sets.{add_times, del_times, lockset_nested, lockset_r_iff}
use krace.Dart.State.{Analyzer, Note, init, create_task}
use krace.Dart.State.Monad.{done, raised, assert_failed, ◌>>◌}
use krace.Dart.State.Console.{with_console}
use krace.Dart.Memory.{
  mem_heaps, add_bytes, log_mem_stack_push, log_mem_stack_pop, log_mem_heap_alloc,
  log_mem_heap_free, log_mem_percpu_alloc, log_mem_percpu_free,
}
use krace.Dart.Memory.Ranges.{add_bytes-raised}
use krace.Dart.Memory.Restore.{HasUnit, stack_push_pop, heap_alloc_free, percpu_alloc_free}
use krace.Dart.Replay.Finish.{check_finish}
use krace.Dart.Replay.Finish.Clean.{IsClean, check_finish-IsClean}
use krace.Dart.ExecUnit.{create}

abbrev start : Analyzer
start = init []

abbrev meta : LogMeta
meta = record { info = 0; ptid = 0; hval = 5 }

HasUnit-start : HasUnit 0 start
unfolding init lookup
HasUnit-start = record {
  task = create_task 0;
  unit = create 0;
  task_known = refl;
  unit_known = refl;
}

heap_alloc_free_example :
    (lines : List Note) × ((log_mem_heap_alloc meta 100 2 >> log_mem_heap_free meta 100) start
      ≡ done tt (with_console start lines))
heap_alloc_free_example =
    heap_alloc_free meta meta 100 2 start HasUnit-start HasUnit-start
      (unfold init lookup in (refl, (refl, tt))) (unfold init lookup in refl)

percpu_alloc_free_example :
    (lines : List Note) × ((log_mem_percpu_alloc meta 100 2 >> log_mem_percpu_free meta 100) start
      ≡ done tt (with_console start lines))
percpu_alloc_free_example =
    percpu_alloc_free meta meta 100 2 start HasUnit-start HasUnit-start
      (unfold init lookup in (refl, (refl, tt))) (unfold init lookup in refl)

stack_push_pop_example :
    (lines : List Note) × ((log_mem_stack_push meta 100 2
          >> log_mem_stack_pop (record meta { info = 1; hval = 6 }) 100 2)
        start
      ≡ done tt (with_console start lines))
stack_push_pop_example =
    stack_push_pop meta 1 6 100 2 (create_task 0) (create 0) start (unfold init lookup in refl)
      (unfold init in refl) (unfold create_task lookup in (refl, (refl, tt)))

-- The heap with one byte in use
abbrev used : Analyzer
used = record start { mem_heaps = (101, 5) ∷ [] }

add_bytes-raised_example :
    (s' : Analyzer) × (add_bytes mem_heaps 6 100 2 used
      ≡ raised (assert_failed "memory management corrupted - add without del") s')
add_bytes-raised_example =
    add_bytes-raised mem_heaps 6 100 2 ((101, 5) ∷ []) used refl
      (unfold lookup in λ free. cc free.1.0)

lockset_nested_example :
    (has 3 (lockset (del_times 1 3 (add_times 2 3 ((4, 1) ∷ [])))) ≡ leb (1 + 1) 2)
    × (◌≢◌ {A = ℕ} 3 4
        → has 4 (lockset (del_times 1 3 (add_times 2 3 ((4, 1) ∷ []))))
          ≡ has 4 (lockset ((4, 1) ∷ [])))
lockset_nested_example =
    lockset_nested 2 1 3 4 ((4, 1) ∷ []) (unfold depth lookup in (omega arith, refl, tt))
      (unfold depth lookup in refl)

abbrev held : LockMap
held = record { locks_r = (3, 1) ∷ []; locks_w = (4, 2) ∷ [] }

lockset_r_iff_example :
    ((has 3 (lockset_r held) ≡ true) ↔ ((1 ≤ depth 3 held.locks_r) ⊎ (1 ≤ depth 3 held.locks_w)))
    × ((has 3 (lockset_w held) ≡ true) ↔ (1 ≤ depth 3 held.locks_w))
lockset_r_iff_example =
    lockset_r_iff 3 held (unfold depth lookup in (omega arith, refl, tt))
      (unfold depth lookup in (omega arith, refl, tt))

check_finish-IsClean_example :
    (IsClean start
      → (lines : List Note) × (check_finish start ≡ done tt (with_console start lines)))
    × ((s' : Analyzer) → check_finish start ≡ done tt s' → IsClean start)
check_finish-IsClean_example = check_finish-IsClean start
