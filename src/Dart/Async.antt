-- ===== src/Dart/Async.antt =====
-- script/dart.py: async slots. A callback is registered by one context and entered by another; its
-- unit then has the registering unit as its base.
pub mod Switch
use krace.Prelude.{ℕ, Option, none, some, List, [], ◌∷◌, ◌++◌, String, ◌==◌, is_some, not}
use krace.Dict.{contains, insert, lookup}
use krace.Dict.Key.{nat_eq}
use krace.Dart.CtxtType.{LogMeta}
use krace.Dart.ExecUnit.{Ref}
use krace.Dart.State.{AsyncSlot}
use krace.Dart.State.Monad.{
  M, ⊤, pure, gets, modify, check, when, fetch, load, store, clone, get_task, put_task, add_dep,
  or_raise, assertion_error, ◌>>=◌, ◌>>◌,
}
use krace.Dart.State.Notes.{record_async_register, record_async_cancel, record_async_attach}
use krace.Dart.Context.{async_slot, enter_get_task, enter_put_task, exit_get_task, exit_put_task}
use krace.Dart.Sync.{log_sync_rcu_lock, log_sync_rcu_unlock}

-- `DART_LOCK_ID_RCU`
abbrev pub dart_lock_id_rcu : ℕ
dart_lock_id_rcu = 1

-- `self._assert(hval in self.async_slots, message); slot = self.async_slots[hval]`
unfoldable pub get_async : ℕ → String → M AsyncSlot
get_async hval message = do
  slots ← gets (λ s. s.async_slots)
  check (contains hval slots) message
  fetch hval slots

unfoldable pub put_async : ℕ → AsyncSlot → M ⊤
put_async hval slot = modify (λ s. record s { async_slots = insert hval slot s.async_slots })

-- `for item in slot.others: task.unit.add_dep(item)`
unfoldable pub add_deps : Ref → List Ref → M ⊤
add_deps unit [] = pure tt
add_deps unit (item ∷ others) = do add_dep unit item; add_deps unit others

-- `_log_ctxt_indirect_enter`
unfoldable pub log_ctxt_indirect_enter : LogMeta → ℕ → String → M ⊤
log_ctxt_indirect_enter meta func kind = do
  found ← get_async meta.hval "indirect context entered without registration"
  check (found.func == func) "indirect context entered with wrong callback"
  t ← enter_get_task meta (async_slot meta.hval)
  slot ← get_async meta.hval "indirect context entered without registration"
  u ← load t.unit
  check (not (is_some u.base)) "indirect context entered with parent"
  base ← clone slot.unit
  store t.unit (record u { base = some base })
  add_deps t.unit slot.others
  put_async meta.hval (record slot { func = 0; serving = func; others = [] })
  enter_put_task meta t kind

-- `_log_ctxt_indirect_exit`
unfoldable pub log_ctxt_indirect_exit : LogMeta → ℕ → String → M ⊤
log_ctxt_indirect_exit meta func kind = do
  t ← exit_get_task meta
  slot ← get_async meta.hval "indirect context exited without registration"
  check (slot.serving == func) "indirect context exited with wrong callback"
  u ← load t.unit
  check (is_some u.base) "indirect context exited without parent"
  store t.unit (record u { base = none })
  put_async meta.hval (record slot { serving = 0 })
  exit_put_task meta (async_slot meta.hval) kind

-- `LogMeta(meta.ptid, (1 << 2 | 1 << 0), meta.hval)`: an exclusive lock that succeeds
abbrev rcu_meta : LogMeta → LogMeta
rcu_meta meta = record meta { info = 5 }

unfoldable pub log_ctxt_rcu_enter : LogMeta → ℕ → M ⊤
log_ctxt_rcu_enter meta func = do
  log_ctxt_indirect_enter meta func "RCU"
  log_sync_rcu_lock (rcu_meta meta) dart_lock_id_rcu

unfoldable pub log_ctxt_rcu_exit : LogMeta → ℕ → M ⊤
log_ctxt_rcu_exit meta func = do
  known ← gets (λ s. contains meta.ptid s.tasks)
  when known (log_sync_rcu_unlock (rcu_meta meta) dart_lock_id_rcu)
  log_ctxt_indirect_exit meta func "RCU"

-- The exchange of the slot's host and the task's unit, which are the same objects after it.
unfoldable pub log_exec_background : LogMeta → M ⊤
log_exec_background meta = do
  slot ← get_async meta.hval "exec background without registration"
  check (is_some slot.host) "exec background without host"
  host ← or_raise assertion_error slot.host
  known ← gets (λ s. contains meta.ptid s.tasks)
  check known "exec background without establishment"
  t ← get_task meta.ptid
  put_async meta.hval (record slot { host = some t.unit })
  put_task meta.ptid (record t { unit = host })

unfoldable pub log_exec_foreground : LogMeta → M ⊤
log_exec_foreground meta = do
  slot ← get_async meta.hval "exec foreground without registration"
  check (is_some slot.host) "exec foreground without host"
  host ← or_raise assertion_error slot.host
  known ← gets (λ s. contains meta.ptid s.tasks)
  check known "exec foreground without establishment"
  t ← get_task meta.ptid
  put_async meta.hval (record slot { host = some t.unit })
  put_task meta.ptid (record t { unit = host })

-- The slot that a registration finds: `None` where there is none yet
unfoldable pub register_slot : LogMeta → Ref → ℕ → Option AsyncSlot → M ⊤
register_slot meta unit func (some slot) = do
  check (slot.func == 0) "async corrupted - registered twice"
  mine ← clone unit
  put_async meta.hval (record slot { func = func; unit = mine })
register_slot meta unit func none = do
  mine ← clone unit
  put_async meta.hval (record { func = func; unit = mine; others = []; serving = 0; host = none })

-- `_log_async_register`
unfoldable pub log_async_register : LogMeta → ℕ → String → M ⊤
log_async_register meta func kind = do
  t ← get_task meta.ptid
  found ← gets (λ s. lookup meta.hval s.async_slots)
  register_slot meta t.unit func found
  record_async_register meta t func kind

-- `_log_async_cancel`
unfoldable pub log_async_cancel : LogMeta → ℕ → String → M ⊤
log_async_cancel meta func kind = do
  slot ← get_async meta.hval "async corrupted - cancelled without register"
  put_async meta.hval (record slot { func = 0; others = [] })
  t ← get_task meta.ptid
  record_async_cancel meta t func kind

-- `_log_async_attach`
unfoldable pub log_async_attach : LogMeta → ℕ → String → M ⊤
log_async_attach meta func kind = do
  slot ← get_async meta.hval "async corrupted - attached without register"
  check (slot.func == func) "async attached with wrong callback"
  t ← get_task meta.ptid
  mine ← clone t.unit
  put_async meta.hval (record slot { others = slot.others ++ mine ∷ [] })
  record_async_attach meta t func kind

unfoldable pub log_ctxt_work_enter : LogMeta → ℕ → M ⊤
log_ctxt_work_enter meta func = log_ctxt_indirect_enter meta func "WORK"

unfoldable pub log_ctxt_work_exit : LogMeta → ℕ → M ⊤
log_ctxt_work_exit meta func = log_ctxt_indirect_exit meta func "WORK"

unfoldable pub log_ctxt_task_enter : LogMeta → ℕ → M ⊤
log_ctxt_task_enter meta func = log_ctxt_indirect_enter meta func "TASK"

unfoldable pub log_ctxt_task_exit : LogMeta → ℕ → M ⊤
log_ctxt_task_exit meta func = log_ctxt_indirect_exit meta func "TASK"

unfoldable pub log_ctxt_timer_enter : LogMeta → ℕ → M ⊤
log_ctxt_timer_enter meta func = log_ctxt_indirect_enter meta func "TIMER"

unfoldable pub log_ctxt_timer_exit : LogMeta → ℕ → M ⊤
log_ctxt_timer_exit meta func = log_ctxt_indirect_exit meta func "TIMER"

unfoldable pub log_ctxt_krun_enter : LogMeta → ℕ → M ⊤
log_ctxt_krun_enter meta func = log_ctxt_indirect_enter meta func "KRUN"

unfoldable pub log_ctxt_krun_exit : LogMeta → ℕ → M ⊤
log_ctxt_krun_exit meta func = log_ctxt_indirect_exit meta func "KRUN"

unfoldable pub log_ctxt_block_enter : LogMeta → ℕ → M ⊤
log_ctxt_block_enter meta func = log_ctxt_indirect_enter meta func "BLOCK"

unfoldable pub log_ctxt_block_exit : LogMeta → ℕ → M ⊤
log_ctxt_block_exit meta func = log_ctxt_indirect_exit meta func "BLOCK"

unfoldable pub log_ctxt_ipi_enter : LogMeta → ℕ → M ⊤
log_ctxt_ipi_enter meta func = log_ctxt_indirect_enter meta func "IPI"

unfoldable pub log_ctxt_ipi_exit : LogMeta → ℕ → M ⊤
log_ctxt_ipi_exit meta func = log_ctxt_indirect_exit meta func "IPI"

unfoldable pub log_async_rcu_register : LogMeta → ℕ → M ⊤
log_async_rcu_register meta func = log_async_register meta func "RCU"

unfoldable pub log_async_work_register : LogMeta → ℕ → M ⊤
log_async_work_register meta func = log_async_register meta func "WORK"

unfoldable pub log_async_work_cancel : LogMeta → ℕ → M ⊤
log_async_work_cancel meta func = log_async_cancel meta func "WORK"

unfoldable pub log_async_work_attach : LogMeta → ℕ → M ⊤
log_async_work_attach meta func = log_async_attach meta func "WORK"

unfoldable pub log_async_task_register : LogMeta → ℕ → M ⊤
log_async_task_register meta func = log_async_register meta func "TASK"

unfoldable pub log_async_task_cancel : LogMeta → ℕ → M ⊤
log_async_task_cancel meta func = log_async_cancel meta func "TASK"

unfoldable pub log_async_timer_register : LogMeta → ℕ → M ⊤
log_async_timer_register meta func = log_async_register meta func "TIMER"

unfoldable pub log_async_timer_cancel : LogMeta → ℕ → M ⊤
log_async_timer_cancel meta func = log_async_cancel meta func "TIMER"

unfoldable pub log_async_krun_register : LogMeta → ℕ → M ⊤
log_async_krun_register meta func = log_async_register meta func "KRUN"

unfoldable pub log_async_block_register : LogMeta → ℕ → M ⊤
log_async_block_register meta func = log_async_register meta func "BLOCK"

unfoldable pub log_async_ipi_register : LogMeta → ℕ → M ⊤
log_async_ipi_register meta func = log_async_register meta func "IPI"
