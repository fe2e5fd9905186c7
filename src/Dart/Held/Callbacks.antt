-- ===== src/Dart/Held/Callbacks.antt =====
-- script/dart.py: the handlers of each kind of callback keep the lock tables.
use krace.Prelude.{ℕ}
use krace.Dart.CtxtType.{LogMeta}
use krace.Dart.Async.{
  log_ctxt_work_enter, log_ctxt_work_exit, log_ctxt_task_enter, log_ctxt_task_exit,
  log_ctxt_timer_enter, log_ctxt_timer_exit, log_ctxt_krun_enter, log_ctxt_krun_exit,
  log_ctxt_block_enter, log_ctxt_block_exit, log_ctxt_ipi_enter, log_ctxt_ipi_exit,
  log_async_rcu_register, log_async_work_register, log_async_work_cancel, log_async_work_attach,
  log_async_task_register, log_async_task_cancel, log_async_timer_register, log_async_timer_cancel,
  log_async_krun_register, log_async_block_register, log_async_ipi_register,
}
use krace.Dart.Held.Rules.{Keeps, keeps_rules}
use krace.Dart.Held.Async.{
  log_ctxt_indirect_enter-Keeps, log_ctxt_indirect_exit-Keeps, log_async_register-Keeps,
  log_async_cancel-Keeps, log_async_attach-Keeps,
}

pub log_ctxt_work_enter-Keeps : (meta : LogMeta) (func : ℕ) → Keeps (log_ctxt_work_enter meta func)
unfolding log_ctxt_work_enter
log_ctxt_work_enter-Keeps meta func = search (keeps_rules, log_ctxt_indirect_enter-Keeps) depth 12

pub log_ctxt_work_exit-Keeps : (meta : LogMeta) (func : ℕ) → Keeps (log_ctxt_work_exit meta func)
unfolding log_ctxt_work_exit
log_ctxt_work_exit-Keeps meta func = search (keeps_rules, log_ctxt_indirect_exit-Keeps) depth 12

pub log_ctxt_task_enter-Keeps : (meta : LogMeta) (func : ℕ) → Keeps (log_ctxt_task_enter meta func)
unfolding log_ctxt_task_enter
log_ctxt_task_enter-Keeps meta func = search (keeps_rules, log_ctxt_indirect_enter-Keeps) depth 12

pub log_ctxt_task_exit-Keeps : (meta : LogMeta) (func : ℕ) → Keeps (log_ctxt_task_exit meta func)
unfolding log_ctxt_task_exit
log_ctxt_task_exit-Keeps meta func = search (keeps_rules, log_ctxt_indirect_exit-Keeps) depth 12

pub log_ctxt_timer_enter-Keeps :
    (meta : LogMeta) (func : ℕ) → Keeps (log_ctxt_timer_enter meta func)
unfolding log_ctxt_timer_enter
log_ctxt_timer_enter-Keeps meta func = search (keeps_rules, log_ctxt_indirect_enter-Keeps) depth 12

pub log_ctxt_timer_exit-Keeps : (meta : LogMeta) (func : ℕ) → Keeps (log_ctxt_timer_exit meta func)
unfolding log_ctxt_timer_exit
log_ctxt_timer_exit-Keeps meta func = search (keeps_rules, log_ctxt_indirect_exit-Keeps) depth 12

pub log_ctxt_krun_enter-Keeps : (meta : LogMeta) (func : ℕ) → Keeps (log_ctxt_krun_enter meta func)
unfolding log_ctxt_krun_enter
log_ctxt_krun_enter-Keeps meta func = search (keeps_rules, log_ctxt_indirect_enter-Keeps) depth 12

pub log_ctxt_krun_exit-Keeps : (meta : LogMeta) (func : ℕ) → Keeps (log_ctxt_krun_exit meta func)
unfolding log_ctxt_krun_exit
log_ctxt_krun_exit-Keeps meta func = search (keeps_rules, log_ctxt_indirect_exit-Keeps) depth 12

pub log_ctxt_block_enter-Keeps :
    (meta : LogMeta) (func : ℕ) → Keeps (log_ctxt_block_enter meta func)
unfolding log_ctxt_block_enter
log_ctxt_block_enter-Keeps meta func = search (keeps_rules, log_ctxt_indirect_enter-Keeps) depth 12

pub log_ctxt_block_exit-Keeps : (meta : LogMeta) (func : ℕ) → Keeps (log_ctxt_block_exit meta func)
unfolding log_ctxt_block_exit
log_ctxt_block_exit-Keeps meta func = search (keeps_rules, log_ctxt_indirect_exit-Keeps) depth 12

pub log_ctxt_ipi_enter-Keeps : (meta : LogMeta) (func : ℕ) → Keeps (log_ctxt_ipi_enter meta func)
unfolding log_ctxt_ipi_enter
log_ctxt_ipi_enter-Keeps meta func = search (keeps_rules, log_ctxt_indirect_enter-Keeps) depth 12

pub log_ctxt_ipi_exit-Keeps : (meta : LogMeta) (func : ℕ) → Keeps (log_ctxt_ipi_exit meta func)
unfolding log_ctxt_ipi_exit
log_ctxt_ipi_exit-Keeps meta func = search (keeps_rules, log_ctxt_indirect_exit-Keeps) depth 12

pub log_async_rcu_register-Keeps :
    (meta : LogMeta) (func : ℕ) → Keeps (log_async_rcu_register meta func)
unfolding log_async_rcu_register
log_async_rcu_register-Keeps meta func = search (keeps_rules, log_async_register-Keeps) depth 12

pub log_async_work_register-Keeps :
    (meta : LogMeta) (func : ℕ) → Keeps (log_async_work_register meta func)
unfolding log_async_work_register
log_async_work_register-Keeps meta func = search (keeps_rules, log_async_register-Keeps) depth 12

pub log_async_work_cancel-Keeps :
    (meta : LogMeta) (func : ℕ) → Keeps (log_async_work_cancel meta func)
unfolding log_async_work_cancel
log_async_work_cancel-Keeps meta func = search (keeps_rules, log_async_cancel-Keeps) depth 12

pub log_async_work_attach-Keeps :
    (meta : LogMeta) (func : ℕ) → Keeps (log_async_work_attach meta func)
unfolding log_async_work_attach
log_async_work_attach-Keeps meta func = search (keeps_rules, log_async_attach-Keeps) depth 12

pub log_async_task_register-Keeps :
    (meta : LogMeta) (func : ℕ) → Keeps (log_async_task_register meta func)
unfolding log_async_task_register
log_async_task_register-Keeps meta func = search (keeps_rules, log_async_register-Keeps) depth 12

pub log_async_task_cancel-Keeps :
    (meta : LogMeta) (func : ℕ) → Keeps (log_async_task_cancel meta func)
unfolding log_async_task_cancel
log_async_task_cancel-Keeps meta func = search (keeps_rules, log_async_cancel-Keeps) depth 12

pub log_async_timer_register-Keeps :
    (meta : LogMeta) (func : ℕ) → Keeps (log_async_timer_register meta func)
unfolding log_async_timer_register
log_async_timer_register-Keeps meta func = search (keeps_rules, log_async_register-Keeps) depth 12

pub log_async_timer_cancel-Keeps :
    (meta : LogMeta) (func : ℕ) → Keeps (log_async_timer_cancel meta func)
unfolding log_async_timer_cancel
log_async_timer_cancel-Keeps meta func = search (keeps_rules, log_async_cancel-Keeps) depth 12

pub log_async_krun_register-Keeps :
    (meta : LogMeta) (func : ℕ) → Keeps (log_async_krun_register meta func)
unfolding log_async_krun_register
log_async_krun_register-Keeps meta func = search (keeps_rules, log_async_register-Keeps) depth 12

pub log_async_block_register-Keeps :
    (meta : LogMeta) (func : ℕ) → Keeps (log_async_block_register meta func)
unfolding log_async_block_register
log_async_block_register-Keeps meta func = search (keeps_rules, log_async_register-Keeps) depth 12

pub log_async_ipi_register-Keeps :
    (meta : LogMeta) (func : ℕ) → Keeps (log_async_ipi_register meta func)
unfolding log_async_ipi_register
log_async_ipi_register-Keeps meta func = search (keeps_rules, log_async_register-Keeps) depth 12

pub ruleset callback_rules = (
  log_ctxt_work_enter-Keeps, log_ctxt_work_exit-Keeps, log_ctxt_task_enter-Keeps,
  log_ctxt_task_exit-Keeps, log_ctxt_timer_enter-Keeps, log_ctxt_timer_exit-Keeps,
  log_ctxt_krun_enter-Keeps, log_ctxt_krun_exit-Keeps, log_ctxt_block_enter-Keeps,
  log_ctxt_block_exit-Keeps, log_ctxt_ipi_enter-Keeps, log_ctxt_ipi_exit-Keeps,
  log_async_rcu_register-Keeps, log_async_work_register-Keeps, log_async_work_cancel-Keeps,
  log_async_work_attach-Keeps, log_async_task_register-Keeps, log_async_task_cancel-Keeps,
  log_async_timer_register-Keeps, log_async_timer_cancel-Keeps, log_async_krun_register-Keeps,
  log_async_block_register-Keeps, log_async_ipi_register-Keeps,
)
