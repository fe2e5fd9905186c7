-- ===== src/Dart/Replay/Finish.antt =====
-- script/dart.py: the checks at the end of `iterate_log`: nothing may be left over.
pub mod Tested
pub mod Clean
use krace.Prelude.{
  ℕ, ◌+◌, Bool, true, false, ◌||◌, not, Option, none, some, List, [], ◌∷◌, String, ◌==◌, length,
  is_empty, is_some, if◌then◌else◌, leb,
}
use krace.Dict.{Dict, keys}
use krace.Dart.ExecUnit.{Ref, ExecUnit}
use krace.Dart.Locks.{LockMap, TranMap, pending}
use krace.Dart.State.{Analyzer, TaskState, AsyncSlot, EventSlot, RaceAlias}
use krace.Dart.State.Monad.{M, ⊤, pure, gets, check, when, load, ◌>>=◌, ◌>>◌}
use krace.Dart.State.Notes.{record_note, record_divider}

-- `slot.func != 0 or slot.serving != 0`
unfoldable pub is_leftover_async : AsyncSlot → Bool
is_leftover_async slot = not (slot.func == 0) || not (slot.serving == 0)

-- `sum([v[0] for v in slot.servers.values()])`
unfoldable pub sum_funcs : Dict ℕ (ℕ × Ref) → ℕ
sum_funcs [] = 0
sum_funcs ((k, (func, unit)) ∷ servers) = func + sum_funcs servers

unfoldable pub is_leftover_event : EventSlot → Bool
is_leftover_event slot = not (slot.func == 0) || not (sum_funcs slot.servers == 0)

-- The entries of a dictionary that are left over
unfoldable pub leftover : {V : Type 0} → (V → Bool) → Dict ℕ V → Dict ℕ V
leftover test [] = []
leftover test ((k, v) ∷ d) = let rest = leftover test d in if test v then (k, v) ∷ rest else rest

-- `for ptid, task in self.tasks.items()`
unfoldable pub each_task : (ℕ → TaskState → M ⊤) → Dict ℕ TaskState → M ⊤
each_task visit [] = pure tt
each_task visit ((ptid, t) ∷ tasks) = do visit ptid t; each_task visit tasks

unfoldable pub check_ctxt : ℕ → TaskState → M ⊤
check_ctxt ptid t = do u ← load t.unit; check (not (is_some u.ctxt)) "ptid - still tracing"

unfoldable pub check_stack : ℕ → TaskState → M ⊤
check_stack ptid t = check (is_empty t.stack) "ptid - call stack leftover"

unfoldable pub check_stack_mem : ℕ → TaskState → M ⊤
check_stack_mem ptid t = check (is_empty t.stack_mem) "ptid - stack frame leftover"

-- `sorted(addresses)`
unfoldable pub insert_address : ℕ → List ℕ → List ℕ
insert_address a [] = a ∷ []
insert_address a (b ∷ bs) =
    let rest = insert_address a bs in if leb a b then a ∷ b ∷ bs else b ∷ rest

unfoldable pub sort_addresses : List ℕ → List ℕ
sort_addresses [] = []
sort_addresses (a ∷ rest) = insert_address a (sort_addresses rest)

-- Reader transactions that are pending are only noted.
unfoldable pub check_locks : ℕ → TaskState → M ⊤
check_locks ptid t = do
  check (is_empty t.sync_locks.locks_r) "ptid - reader lock leftover"
  check (is_empty t.sync_locks.locks_w) "ptid - writer lock leftover"
  check (is_empty t.sync_trans.locks_w) "ptid - writer tran leftover"
  when (not (is_empty (pending t.sync_trans.trans_r))) (do
    record_divider
    record_note (record {
      mark = "[!] reader tran leftover";
      depth = 0;
      numbers =
          ptid
          ∷ length (pending t.sync_trans.trans_r)
          ∷ sort_addresses (pending t.sync_trans.trans_r);
      texts = [];
    }))

-- `sorted(self.races.items(), key=lambda x: x[1])`, a stable sort by the count
unfoldable pub insert_race : RaceAlias × ℕ → Dict RaceAlias ℕ → Dict RaceAlias ℕ
insert_race (pair, stat) [] = (pair, stat) ∷ []
insert_race (pair, stat) ((q, m) ∷ sorted) =
    let rest = insert_race (pair, stat) sorted in
    if leb stat m then (pair, stat) ∷ (q, m) ∷ sorted else (q, m) ∷ rest

unfoldable pub sort_races : Dict RaceAlias ℕ → Dict RaceAlias ℕ
sort_races [] = []
sort_races ((pair, stat) ∷ races) = insert_race (pair, stat) (sort_races races)

unfoldable pub record_races : Dict RaceAlias ℕ → M ⊤
record_races [] = pure tt
record_races ((pair, stat) ∷ races) = do
  record_note
      (record { mark = ""; depth = 0; numbers = pair.src ∷ pair.dst ∷ stat ∷ []; texts = [] })
  record_races races

unfoldable pub check_finish : M ⊤
check_finish = do
  asyncs ← gets (λ s. leftover is_leftover_async s.async_slots)
  check (is_empty asyncs) "global - async slots leftover"
  events ← gets (λ s. leftover is_leftover_event s.event_slots)
  check (is_empty events) "global - events slots leftover"
  tasks ← gets (λ s. s.tasks)
  each_task check_ctxt tasks
  each_task check_stack tasks
  each_task check_stack_mem tasks
  each_task check_locks tasks
  pcpu ← gets (λ s. s.mem_sizes_pcpu)
  check (is_empty pcpu) "global - pcpu info leftover"
  heap ← gets (λ s. s.mem_sizes_heap)
  when (not (is_empty heap)) (do
    record_divider
    record_note (record {
      mark = "[!] global - heap info leftover";
      depth = 0;
      numbers = length heap ∷ sort_addresses (keys heap);
      texts = [];
    }))
  record_divider
  races ← gets (λ s. s.races)
  record_races (sort_races races)
