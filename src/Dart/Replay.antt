-- ===== src/Dart/Replay.antt =====
-- script/dart.py: `iterate_log` reads the log entry by entry and hands each one to its handler;
-- `process_log` reads the header, and `validate` runs the analyzer over a file.
pub mod Finish
pub mod Ledger
use krace.Prelude.{
  ℕ, zero, suc, ◌+◌, ◌-◌, ◌*◌, ◌^◌, Bool, true, false, Option, none, some, List, [], ◌∷◌, String,
  ◌==◌, ltb, if◌then◌else◌,
}
use krace.Bytes.{unpack, drop}
use krace.Dict.{Dict, contains, insert, lookup}
use krace.Dict.Key.{nat_eq}
use krace.Dart.CtxtType.{LogMeta}
use krace.Dart.LogType
use krace.Dart.LogType.{LogType, value, of_value}
use krace.Dart.ExecUnit.{ExecUnit}
use krace.Dart.Compdb.{CompileDatabase}
use krace.Dart.State.{Analyzer, TaskState, Note, init}
use krace.Dart.State.Monad.{
  M, ⊤, Run, done, raised, Failure, key_error, struct_error, assert_failed, pure, raise, gets,
  modify, check, or_raise, load, store, get_task, ◌>>=◌, ◌>>◌,
}
use krace.Dart.Context.{log_ctxt_syscall_enter, log_ctxt_syscall_exit}
use krace.Dart.Async
use krace.Dart.Event
use krace.Dart.Sync
use krace.Dart.Memory
use krace.Dart.Race
use krace.Dart.Exec
use Finish.{check_finish}

-- `struct.unpack` of one integer of `n` bytes at the file's position
unfoldable pub read_int : ℕ → M ℕ
read_int n = do
  input ← gets (λ s. s.input)
  (v, rest) ← or_raise struct_error (unpack n input)
  modify (λ s. record s { input = rest })
  pure v

-- `struct.unpack('Q', b.read(8))[0]`
unfoldable pub read_q : M ℕ
read_q = read_int 8

-- `b.read(n)` for its effect on the position
unfoldable pub skip : ℕ → M ⊤
skip n = modify (λ s. record s { input = drop n s.input })

abbrev or_empty : Option (Dict ℕ ℕ) → Dict ℕ ℕ
or_empty none = []
or_empty (some d) = d

abbrev or_zero : Option ℕ → ℕ
or_zero none = 0
or_zero (some n) = n

-- `self.stats[ptid][code] += 1`, from 0 at first
unfoldable pub count_entry : ℕ → ℕ → Dict ℕ (Dict ℕ ℕ) → Dict ℕ (Dict ℕ ℕ)
count_entry ptid cval stats =
    let counts : Dict ℕ ℕ = or_empty (lookup ptid stats) in
    insert ptid (insert cval (or_zero (lookup cval counts) + 1) counts) stats

-- `struct.unpack('IIQQ', b.read(24))` and the accounting of the entry
unfoldable pub read_entry : M (LogType × LogMeta)
read_entry = do
  cval ← read_int 4
  ptid ← read_int 4
  info ← read_int 8
  hval ← read_int 8
  code ← or_raise key_error (of_value cval)
  modify (λ s. record s { stats = count_entry ptid cval s.stats })
  pure (code, record { ptid = ptid; info = info; hval = hval })

-- The handler of an entry that needs no task: `none` where the code goes on to the next group.
unfoldable pub early : ℕ → ℕ → LogMeta → LogType → Option (M ⊤)
early i n meta LogType.sys_launch =
    some (do check (i == 0) "first log entry is not sys_launch"; Exec.log_sys_launch meta)
early i n meta LogType.sys_finish =
    some (do check (i + 1 == n) "last log entry is not sys_finish"; Exec.log_sys_finish meta)
early i n meta LogType.ctxt_syscall_enter = some (log_ctxt_syscall_enter meta)
early i n meta LogType.ctxt_syscall_exit = some (log_ctxt_syscall_exit meta)
early i n meta LogType.ctxt_rcu_enter = some (do func ← read_q; Async.log_ctxt_rcu_enter meta func)
early i n meta LogType.ctxt_rcu_exit = some (do func ← read_q; Async.log_ctxt_rcu_exit meta func)
early i n meta LogType.ctxt_work_enter =
    some (do func ← read_q; Async.log_ctxt_work_enter meta func)
early i n meta LogType.ctxt_work_exit = some (do func ← read_q; Async.log_ctxt_work_exit meta func)
early i n meta LogType.ctxt_task_enter =
    some (do func ← read_q; Async.log_ctxt_task_enter meta func)
early i n meta LogType.ctxt_task_exit = some (do func ← read_q; Async.log_ctxt_task_exit meta func)
early i n meta LogType.ctxt_timer_enter =
    some (do func ← read_q; Async.log_ctxt_timer_enter meta func)
early i n meta LogType.ctxt_timer_exit =
    some (do func ← read_q; Async.log_ctxt_timer_exit meta func)
early i n meta LogType.ctxt_krun_enter =
    some (do func ← read_q; Async.log_ctxt_krun_enter meta func)
early i n meta LogType.ctxt_krun_exit = some (do func ← read_q; Async.log_ctxt_krun_exit meta func)
early i n meta LogType.ctxt_block_enter =
    some (do func ← read_q; Async.log_ctxt_block_enter meta func)
early i n meta LogType.ctxt_block_exit =
    some (do func ← read_q; Async.log_ctxt_block_exit meta func)
early i n meta LogType.ctxt_ipi_enter = some (do func ← read_q; Async.log_ctxt_ipi_enter meta func)
early i n meta LogType.ctxt_ipi_exit = some (do func ← read_q; Async.log_ctxt_ipi_exit meta func)
early i n meta LogType.event_wait_notify_enter =
    some (do func ← read_q; Event.log_event_wait_notify_enter meta func)
early i n meta LogType.event_wait_notify_exit =
    some (do func ← read_q; Event.log_event_wait_notify_exit meta func)
early i n meta LogType.event_sema_notify_enter =
    some (do func ← read_q; Event.log_event_sema_notify_enter meta func)
early i n meta LogType.event_sema_notify_exit =
    some (do func ← read_q; Event.log_event_sema_notify_exit meta func)
early i n meta _ = none

-- The exchange of contexts comes before the clock of the task's unit ticks.
unfoldable pub switching : LogMeta → LogType → Option (M ⊤)
switching meta LogType.exec_background = some (Async.log_exec_background meta)
switching meta LogType.exec_foreground = some (Async.log_exec_foreground meta)
switching meta _ = none

-- `task.unit.clk += 1`
unfoldable pub tick : LogMeta → M ⊤
tick meta = do t ← get_task meta.ptid; u ← load t.unit; store t.unit (record u { clk = u.clk + 1 })

pub data Outcome : Type 0 where
  ledger : List Note → Outcome
  dart_failure : String → List Note → Outcome
  escaped : Failure → Outcome

module _ (db : CompileDatabase) (limit : ℕ) where
  -- The handler of an entry within a unit; `none` where no handler takes it.
  unfoldable pub late : LogMeta → LogType → Option (M ⊤)
  late meta LogType.exec_pause = some (pure tt)
  late meta LogType.exec_resume = some (pure tt)
  late meta LogType.exec_func_enter = some (do addr ← read_q; Exec.log_exec_func_enter db meta)
  late meta LogType.exec_func_exit = some (do addr ← read_q; Exec.log_exec_func_exit db meta)
  late meta LogType.async_rcu_register =
      some (do func ← read_q; Async.log_async_rcu_register meta func)
  late meta LogType.async_work_register =
      some (do func ← read_q; Async.log_async_work_register meta func)
  late meta LogType.async_work_cancel =
      some (do func ← read_q; Async.log_async_work_cancel meta func)
  late meta LogType.async_work_attach =
      some (do func ← read_q; Async.log_async_work_attach meta func)
  late meta LogType.async_task_register =
      some (do func ← read_q; Async.log_async_task_register meta func)
  late meta LogType.async_task_cancel =
      some (do func ← read_q; Async.log_async_task_cancel meta func)
  late meta LogType.async_timer_register =
      some (do func ← read_q; Async.log_async_timer_register meta func)
  late meta LogType.async_timer_cancel =
      some (do func ← read_q; Async.log_async_timer_cancel meta func)
  late meta LogType.async_krun_register =
      some (do func ← read_q; Async.log_async_krun_register meta func)
  late meta LogType.async_block_register =
      some (do func ← read_q; Async.log_async_block_register meta func)
  late meta LogType.async_ipi_register =
      some (do func ← read_q; Async.log_async_ipi_register meta func)
  late meta LogType.event_queue_arrive = some (Event.log_event_queue_arrive meta)
  late meta LogType.event_queue_notify = some (Event.log_event_queue_notify meta)
  late meta LogType.event_wait_arrive =
      some (do func ← read_q; Event.log_event_wait_arrive meta func)
  late meta LogType.event_wait_pass = some (do func ← read_q; Event.log_event_wait_pass meta func)
  late meta LogType.event_sema_arrive =
      some (do func ← read_q; Event.log_event_sema_arrive meta func)
  late meta LogType.event_sema_pass = some (do func ← read_q; Event.log_event_sema_pass meta func)
  late meta LogType.cov_cfg = some (Exec.log_cov_edge db meta)
  late meta LogType.mem_stack_push =
      some (do addr ← read_q; size ← read_q; Memory.log_mem_stack_push meta addr size)
  late meta LogType.mem_stack_pop =
      some (do addr ← read_q; size ← read_q; Memory.log_mem_stack_pop meta addr size)
  late meta LogType.mem_heap_alloc =
      some (do addr ← read_q; size ← read_q; Memory.log_mem_heap_alloc meta addr size)
  late meta LogType.mem_percpu_alloc =
      some (do addr ← read_q; size ← read_q; Memory.log_mem_percpu_alloc meta addr size)
  late meta LogType.mem_heap_free = some (do addr ← read_q; Memory.log_mem_heap_free meta addr)
  late meta LogType.mem_percpu_free = some (do addr ← read_q; Memory.log_mem_percpu_free meta addr)
  late meta LogType.mem_read =
      some (do addr ← read_q; size ← read_q; Race.log_mem_read db limit meta addr size)
  late meta LogType.mem_write =
      some (do addr ← read_q; size ← read_q; Race.log_mem_write db limit meta addr size)
  late meta LogType.sync_gen_lock = some (do lock ← read_q; Sync.log_sync_gen_lock meta lock)
  late meta LogType.sync_gen_unlock = some (do lock ← read_q; Sync.log_sync_gen_unlock meta lock)
  late meta LogType.sync_seq_lock = some (do lock ← read_q; Sync.log_sync_seq_lock meta lock)
  late meta LogType.sync_seq_unlock = some (do lock ← read_q; Sync.log_sync_seq_unlock meta lock)
  late meta LogType.sync_rcu_lock = some (do lock ← read_q; Sync.log_sync_rcu_lock meta lock)
  late meta LogType.sync_rcu_unlock = some (do lock ← read_q; Sync.log_sync_rcu_unlock meta lock)
  late meta LogType.order_ps_publish = some (do addr ← read_q; Event.log_order_ps_publish meta addr)
  late meta LogType.order_ps_subscribe =
      some (do addr ← read_q; Event.log_order_ps_subscribe meta addr)
  late meta LogType.order_obj_consume =
      some (do addr ← read_q; Event.log_order_obj_consume meta addr)
  late meta LogType.order_obj_deposit =
      some (do addr ← read_q; objv ← read_q; Event.log_order_obj_deposit meta addr objv)
  late meta LogType.mark_v0 = some (pure tt)
  late meta LogType.mark_v1 = some (skip 8)
  late meta LogType.mark_v2 = some (skip 16)
  late meta LogType.mark_v3 = some (skip 24)
  late meta _ = none

  -- How many entries the code leaves unhandled: 1 or 0
  unfoldable pub unhandled : Option (M ⊤) → M ℕ
  unhandled none = pure 1
  unhandled (some handler) = do handler; pure 0

  unfoldable pub in_unit : LogMeta → LogType → M ℕ
  in_unit meta code = do tick meta; unhandled (late meta code)

  unfoldable pub in_task : LogMeta → LogType → Option (M ⊤) → M ℕ
  in_task meta code (some handler) = do handler; pure 0
  in_task meta code none = in_unit meta code

  unfoldable pub dispatch : LogMeta → LogType → Option (M ⊤) → M ℕ
  dispatch meta code (some handler) = do handler; pure 0
  dispatch meta code none = do
    known ← gets (λ s. contains meta.ptid s.tasks)
    check known "log entry does not contain a task"
    in_task meta code (switching meta code)

  -- One round of the loop
  unfoldable pub process_entry : ℕ → ℕ → M ℕ
  process_entry i n = do (code, meta) ← read_entry; dispatch meta code (early i n meta code)

  -- `for i in range(n)`, with the rounds left; the result is the number of unhandled entries.
  unfoldable pub iterate : ℕ → ℕ → ℕ → M ℕ
  iterate i n zero = pure 0
  iterate i n (suc rounds) = do
    missed ← process_entry i n
    others ← iterate (i + 1) n rounds
    pure (missed + others)

  -- `iterate_log`; the warning about unhandled entries goes to the process's log.
  unfoldable pub iterate_log : ℕ → M ⊤
  iterate_log n = do missed ← iterate 0 n n; check_finish

  -- `process_log`: the number of entries and the size of the log
  unfoldable pub process_log : M (ℕ × ℕ)
  process_log = do entry_num ← read_q; entry_cur ← read_q; pure (entry_num, entry_cur)

  -- `config.OUTPUT_LEDGER_SIZE`
  abbrev pub output_ledger_size : ℕ
  output_ledger_size = 2048 * 2 ^ 20

  -- What `validate` gives its caller: the ledger, or a `DartAssertFailure` with its reason and the
  -- ledger so far, or an exception of the header that nothing catches.
  unfoldable pub outcome : Run ⊤ → Outcome
  outcome (done r s) = ledger s.console
  outcome (raised (assert_failed reason) s) = dart_failure reason s.console
  outcome (raised e s) = dart_failure "unexpected errors" s.console

  unfoldable pub sized : Run (ℕ × ℕ) → Outcome
  sized (done (n, size) s) =
      if ltb output_ledger_size size
      then dart_failure "ledger overflowed" []
      else outcome (iterate_log n s)
  sized (raised e s) = escaped e

  -- `validate`, over the contents of the file
  unfoldable pub validate : List ℕ → Outcome
  validate file = sized (process_log (init file))
