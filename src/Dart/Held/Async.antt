-- ===== src/Dart/Held/Async.antt =====
-- script/dart.py: the handlers of callbacks keep the lock tables.
use krace.Prelude.{ℕ, Option, none, some, List, [], ◌∷◌, String}
use krace.Dart.CtxtType.{LogMeta}
use krace.Dart.ExecUnit.{Ref}
use krace.Dart.State.{AsyncSlot}
use krace.Dart.Held.Rules.{Keeps, Keeps-bind, keeps_rules}
use krace.Dart.Async.{
  get_async, put_async, add_deps, log_ctxt_indirect_enter, log_ctxt_indirect_exit,
  log_ctxt_rcu_enter, log_ctxt_rcu_exit, log_exec_background, log_exec_foreground, register_slot,
  log_async_register, log_async_cancel, log_async_attach,
}
use krace.Dart.Held.Notes.{notes_rules}
use krace.Dart.Held.Context.{context_rules}
use krace.Dart.Held.Sync.{sync_rules}

pub get_async-Keeps : (hval : ℕ) (message : String) → Keeps (get_async hval message)
unfolding get_async
get_async-Keeps hval message = search (keeps_rules, context_rules, sync_rules) depth 12

pub put_async-Keeps : (hval : ℕ) (slot : AsyncSlot) → Keeps (put_async hval slot)
unfolding put_async
put_async-Keeps hval slot = search (keeps_rules, context_rules, sync_rules) depth 12

pub add_deps-Keeps : (unit : Ref) (x : List Ref) → Keeps (add_deps unit x)
unfolding add_deps
add_deps-Keeps unit [] = search (keeps_rules, context_rules, sync_rules) depth 12
add_deps-Keeps unit (item ∷ others) =
    Keeps-bind _ _ (search (keeps_rules, context_rules, sync_rules) depth 12)
      (λ _. search (keeps_rules, (add_deps-Keeps unit others), context_rules, sync_rules) depth 12)

pub log_ctxt_indirect_enter-Keeps :
    (meta : LogMeta) (func : ℕ) (kind : String) → Keeps (log_ctxt_indirect_enter meta func kind)
unfolding log_ctxt_indirect_enter
log_ctxt_indirect_enter-Keeps meta func kind =
    search
      (keeps_rules, context_rules, sync_rules, get_async-Keeps, put_async-Keeps, add_deps-Keeps)
      depth 12

pub log_ctxt_indirect_exit-Keeps :
    (meta : LogMeta) (func : ℕ) (kind : String) → Keeps (log_ctxt_indirect_exit meta func kind)
unfolding log_ctxt_indirect_exit
log_ctxt_indirect_exit-Keeps meta func kind =
    search (keeps_rules, context_rules, sync_rules, get_async-Keeps, put_async-Keeps) depth 12

pub log_ctxt_rcu_enter-Keeps : (meta : LogMeta) (func : ℕ) → Keeps (log_ctxt_rcu_enter meta func)
unfolding log_ctxt_rcu_enter
log_ctxt_rcu_enter-Keeps meta func =
    search (keeps_rules, context_rules, sync_rules, log_ctxt_indirect_enter-Keeps) depth 12

pub log_ctxt_rcu_exit-Keeps : (meta : LogMeta) (func : ℕ) → Keeps (log_ctxt_rcu_exit meta func)
unfolding log_ctxt_rcu_exit
log_ctxt_rcu_exit-Keeps meta func =
    search (keeps_rules, context_rules, sync_rules, log_ctxt_indirect_exit-Keeps) depth 12

pub log_exec_background-Keeps : (meta : LogMeta) → Keeps (log_exec_background meta)
unfolding log_exec_background
log_exec_background-Keeps meta =
    search (keeps_rules, context_rules, sync_rules, get_async-Keeps, put_async-Keeps) depth 12

pub log_exec_foreground-Keeps : (meta : LogMeta) → Keeps (log_exec_foreground meta)
unfolding log_exec_foreground
log_exec_foreground-Keeps meta =
    search (keeps_rules, context_rules, sync_rules, get_async-Keeps, put_async-Keeps) depth 12

pub register_slot-Keeps :
    (meta : LogMeta) (unit : Ref) (func : ℕ) (o : Option AsyncSlot)
    → Keeps (register_slot meta unit func o)
unfolding register_slot
register_slot-Keeps meta unit func (some slot) =
    search (keeps_rules, context_rules, sync_rules, put_async-Keeps) depth 12
register_slot-Keeps meta unit func none =
    search (keeps_rules, context_rules, sync_rules, put_async-Keeps) depth 12

pub log_async_register-Keeps :
    (meta : LogMeta) (func : ℕ) (kind : String) → Keeps (log_async_register meta func kind)
unfolding log_async_register
log_async_register-Keeps meta func kind =
    search (keeps_rules, notes_rules, context_rules, sync_rules, register_slot-Keeps) depth 12

pub log_async_cancel-Keeps :
    (meta : LogMeta) (func : ℕ) (kind : String) → Keeps (log_async_cancel meta func kind)
unfolding log_async_cancel
log_async_cancel-Keeps meta func kind =
    search (keeps_rules, notes_rules, context_rules, sync_rules, get_async-Keeps, put_async-Keeps)
      depth 12

pub log_async_attach-Keeps :
    (meta : LogMeta) (func : ℕ) (kind : String) → Keeps (log_async_attach meta func kind)
unfolding log_async_attach
log_async_attach-Keeps meta func kind =
    search (keeps_rules, notes_rules, context_rules, sync_rules, get_async-Keeps, put_async-Keeps)
      depth 12

pub ruleset async_rules = (
  get_async-Keeps, put_async-Keeps, add_deps-Keeps, log_ctxt_indirect_enter-Keeps,
  log_ctxt_indirect_exit-Keeps, log_ctxt_rcu_enter-Keeps, log_ctxt_rcu_exit-Keeps,
  log_exec_background-Keeps, log_exec_foreground-Keeps, register_slot-Keeps,
  log_async_register-Keeps, log_async_cancel-Keeps, log_async_attach-Keeps,
)
