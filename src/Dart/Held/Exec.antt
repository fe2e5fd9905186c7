-- ===== src/Dart/Held/Exec.antt =====
-- script/dart.py: the handlers of calls and of system entries keep the lock tables.

use krace.Dart.CtxtType.{LogMeta}
use krace.Dart.Held.Rules.{Keeps, keeps_rules}
use krace.Dart.Compdb.{CompileDatabase}
use krace.Dart.Exec.{
  log_sys_launch, log_sys_finish, log_exec_func_enter, log_exec_func_exit, log_cov_edge,
}
use krace.Dart.Held.Notes.{notes_rules}

pub log_sys_launch-Keeps : (meta : LogMeta) → Keeps (log_sys_launch meta)
unfolding log_sys_launch
log_sys_launch-Keeps meta = search keeps_rules depth 12

pub log_sys_finish-Keeps : (meta : LogMeta) → Keeps (log_sys_finish meta)
unfolding log_sys_finish
log_sys_finish-Keeps meta = search keeps_rules depth 12

pub log_exec_func_enter-Keeps :
    (db : CompileDatabase) (meta : LogMeta) → Keeps (log_exec_func_enter db meta)
unfolding log_exec_func_enter
log_exec_func_enter-Keeps db meta = search (keeps_rules, notes_rules) depth 12

pub log_exec_func_exit-Keeps :
    (db : CompileDatabase) (meta : LogMeta) → Keeps (log_exec_func_exit db meta)
unfolding log_exec_func_exit
log_exec_func_exit-Keeps db meta = search (keeps_rules, notes_rules) depth 12

pub log_cov_edge-Keeps : (db : CompileDatabase) (meta : LogMeta) → Keeps (log_cov_edge db meta)
unfolding log_cov_edge
log_cov_edge-Keeps db meta = search (keeps_rules, notes_rules) depth 12

pub ruleset exec_rules = (
  log_sys_launch-Keeps, log_sys_finish-Keeps, log_exec_func_enter-Keeps, log_exec_func_exit-Keeps,
  log_cov_edge-Keeps,
)
