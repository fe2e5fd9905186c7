-- ===== src/Dart/Held/Context.antt =====
-- script/dart.py: entering and leaving contexts keeps the lock tables.
use krace.Prelude.{ℕ, Bool, true, false, Option, none, some, String}
use krace.Dart.CtxtType.{LogMeta}
use krace.Dart.ExecUnit.{Ref}
use krace.Dart.State.{TaskState}
use krace.Dart.Held.Rules.{TaskHeld, Keeps, Gives, keeps_rules}
use krace.Dart.Context.{SlotRef, no_slot, async_slot, event_slot}
use krace.Dart.Context.{
  get_host, set_host, new_task, steal_task, reuse_task, acquire_task, add_last_unit, roll_over,
  enter_get_task, enter_put_task, exit_get_task, restore_task, exit_put_task, log_ctxt_direct_enter,
  log_ctxt_direct_exit, log_ctxt_syscall_enter, log_ctxt_syscall_exit,
}
use krace.Dart.Held.Notes.{notes_rules}

pub get_host-Keeps : (x : SlotRef) → Keeps (get_host x)
unfolding get_host
get_host-Keeps no_slot = search keeps_rules depth 12
get_host-Keeps (async_slot hval) = search keeps_rules depth 12
get_host-Keeps (event_slot hval) = search keeps_rules depth 12

pub set_host-Keeps : (x : SlotRef) (host : Option Ref) → Keeps (set_host x host)
unfolding set_host
set_host-Keeps no_slot host = search keeps_rules depth 12
set_host-Keeps (async_slot hval) host = search keeps_rules depth 12
set_host-Keeps (event_slot hval) host = search keeps_rules depth 12

pub new_task-Keeps : (meta : LogMeta) → Keeps (new_task meta)
unfolding new_task
new_task-Keeps meta = search keeps_rules depth 12

pub steal_task-Keeps :
    (meta : LogMeta) (slot : SlotRef) (t : TaskState) → TaskHeld t → Keeps (steal_task meta slot t)
unfolding steal_task
steal_task-Keeps meta slot t held = search (keeps_rules, set_host-Keeps) depth 12

pub reuse_task-Keeps :
    (meta : LogMeta) (slot : SlotRef) (t : TaskState) (ctxt : Option ℕ)
    → TaskHeld t
    → Keeps (reuse_task meta slot t ctxt)
unfolding reuse_task
reuse_task-Keeps meta no_slot t ctxt held =
    search (keeps_rules, set_host-Keeps, steal_task-Keeps) depth 12
reuse_task-Keeps meta slot t (some c) held =
    search (keeps_rules, set_host-Keeps, steal_task-Keeps) depth 12
reuse_task-Keeps meta slot t none held =
    search (keeps_rules, set_host-Keeps, steal_task-Keeps) depth 12

pub acquire_task-Keeps :
    (meta : LogMeta) (slot : SlotRef) (b : Bool) → Keeps (acquire_task meta slot b)
unfolding acquire_task
acquire_task-Keeps meta slot false = search (keeps_rules, new_task-Keeps, reuse_task-Keeps) depth 12
acquire_task-Keeps meta slot true = search (keeps_rules, new_task-Keeps, reuse_task-Keeps) depth 12

pub add_last_unit-Keeps : (t : TaskState) (o : Option Ref) → Keeps (add_last_unit t o)
unfolding add_last_unit
add_last_unit-Keeps t none = search keeps_rules depth 12
add_last_unit-Keeps t (some last) = search keeps_rules depth 12

pub roll_over-Keeps : (meta : LogMeta) → Keeps (roll_over meta)
unfolding roll_over
roll_over-Keeps meta = search (keeps_rules, add_last_unit-Keeps) depth 12

pub enter_get_task-Gives : (meta : LogMeta) (slot : SlotRef) → Gives (enter_get_task meta slot)
unfolding enter_get_task
enter_get_task-Gives meta slot = search (keeps_rules, acquire_task-Keeps, roll_over-Keeps) depth 12

pub enter_put_task-Keeps :
    (meta : LogMeta) (t : TaskState) (kind : String) → Keeps (enter_put_task meta t kind)
unfolding enter_put_task
enter_put_task-Keeps meta t kind = search (keeps_rules, notes_rules) depth 12

pub exit_get_task-Gives : (meta : LogMeta) → Gives (exit_get_task meta)
unfolding exit_get_task
exit_get_task-Gives meta = search keeps_rules depth 12

pub restore_task-Keeps :
    (meta : LogMeta) (slot : SlotRef) (o : Option Ref) → Keeps (restore_task meta slot o)
unfolding restore_task
restore_task-Keeps meta slot none = search (keeps_rules, set_host-Keeps) depth 12
restore_task-Keeps meta slot (some host) = search (keeps_rules, set_host-Keeps) depth 12

pub exit_put_task-Keeps :
    (meta : LogMeta) (slot : SlotRef) (kind : String) → Keeps (exit_put_task meta slot kind)
unfolding exit_put_task
exit_put_task-Keeps meta slot kind =
    search (keeps_rules, notes_rules, get_host-Keeps, restore_task-Keeps) depth 12

pub log_ctxt_direct_enter-Keeps :
    (meta : LogMeta) (kind : String) → Keeps (log_ctxt_direct_enter meta kind)
unfolding log_ctxt_direct_enter
log_ctxt_direct_enter-Keeps meta kind =
    search (keeps_rules, enter_get_task-Gives, enter_put_task-Keeps) depth 12

pub log_ctxt_direct_exit-Keeps :
    (meta : LogMeta) (kind : String) → Keeps (log_ctxt_direct_exit meta kind)
unfolding log_ctxt_direct_exit
log_ctxt_direct_exit-Keeps meta kind =
    search (keeps_rules, exit_get_task-Gives, exit_put_task-Keeps) depth 12

pub log_ctxt_syscall_enter-Keeps : (meta : LogMeta) → Keeps (log_ctxt_syscall_enter meta)
unfolding log_ctxt_syscall_enter
log_ctxt_syscall_enter-Keeps meta = search (keeps_rules, log_ctxt_direct_enter-Keeps) depth 12

pub log_ctxt_syscall_exit-Keeps : (meta : LogMeta) → Keeps (log_ctxt_syscall_exit meta)
unfolding log_ctxt_syscall_exit
log_ctxt_syscall_exit-Keeps meta = search (keeps_rules, log_ctxt_direct_exit-Keeps) depth 12

pub ruleset context_rules = (
  get_host-Keeps, set_host-Keeps, new_task-Keeps, steal_task-Keeps, reuse_task-Keeps,
  acquire_task-Keeps, add_last_unit-Keeps, roll_over-Keeps, enter_get_task-Gives,
  enter_put_task-Keeps, exit_get_task-Gives, restore_task-Keeps, exit_put_task-Keeps,
  log_ctxt_direct_enter-Keeps, log_ctxt_direct_exit-Keeps, log_ctxt_syscall_enter-Keeps,
  log_ctxt_syscall_exit-Keeps,
)
