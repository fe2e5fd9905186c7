-- ===== src/Dart/Held/Notes.antt =====
-- script/dart.py: the `_record_*` methods keep the lock tables.
use krace.Prelude.{ℕ, refl, List, String}
use krace.Dart.CtxtType.{LogMeta}
use krace.Dart.Compdb.{ValueFunc}
use krace.Dart.State.{TaskState, Note}
use krace.Dart.Held.Rules.{Keeps, Keeps-modify, keeps_rules}
use krace.Dart.State.Notes.{
  record_note, record_divider, note, record_warning, record_ctxt_init, record_ctxt_fini,
  record_func_init, record_func_fini, record_async_register, record_async_cancel,
  record_async_attach, record_event_arrive, record_event_pass, record_cov_edge, record_mem_add,
  record_mem_del, record_mem_reader, record_mem_writer, record_sync_lock_acquire,
  record_sync_lock_release, record_queue_prefix, record_queue_suffix, record_order_prefix,
  record_order_suffix,
}

pub record_note-Keeps : (n : Note) → Keeps (record_note n)
unfolding record_note
record_note-Keeps n = Keeps-modify _ (λ s. refl)

pub record_divider-Keeps : Keeps record_divider
unfolding record_divider
record_divider-Keeps = search (keeps_rules, record_note-Keeps)

pub note-Keeps :
    (mark : String) (meta : LogMeta) (t : TaskState) (numbers : List ℕ) (texts : List String)
    → Keeps (note mark meta t numbers texts)
unfolding note
note-Keeps mark meta t numbers texts = search (keeps_rules, record_note-Keeps)

pub record_warning-Keeps :
    (meta : LogMeta) (t : TaskState) (numbers : List ℕ) (msg : String)
    → Keeps (record_warning meta t numbers msg)
unfolding record_warning
record_warning-Keeps meta t numbers msg = search (keeps_rules, note-Keeps)

pub record_ctxt_init-Keeps :
    (meta : LogMeta) (t : TaskState) (kind : String) → Keeps (record_ctxt_init meta t kind)
unfolding record_ctxt_init
record_ctxt_init-Keeps meta t kind = search (keeps_rules, note-Keeps)

pub record_ctxt_fini-Keeps :
    (meta : LogMeta) (t : TaskState) (kind : String) → Keeps (record_ctxt_fini meta t kind)
unfolding record_ctxt_fini
record_ctxt_fini-Keeps meta t kind = search (keeps_rules, note-Keeps)

pub record_func_init-Keeps :
    (meta : LogMeta) (t : TaskState) (func : ValueFunc) → Keeps (record_func_init meta t func)
unfolding record_func_init
record_func_init-Keeps meta t func = search (keeps_rules, note-Keeps)

pub record_func_fini-Keeps :
    (meta : LogMeta) (t : TaskState) (func : ValueFunc) → Keeps (record_func_fini meta t func)
unfolding record_func_fini
record_func_fini-Keeps meta t func = search (keeps_rules, note-Keeps)

pub record_async_register-Keeps :
    (meta : LogMeta) (t : TaskState) (func : ℕ) (kind : String)
    → Keeps (record_async_register meta t func kind)
unfolding record_async_register
record_async_register-Keeps meta t func kind = search (keeps_rules, note-Keeps)

pub record_async_cancel-Keeps :
    (meta : LogMeta) (t : TaskState) (func : ℕ) (kind : String)
    → Keeps (record_async_cancel meta t func kind)
unfolding record_async_cancel
record_async_cancel-Keeps meta t func kind = search (keeps_rules, note-Keeps)

pub record_async_attach-Keeps :
    (meta : LogMeta) (t : TaskState) (func : ℕ) (kind : String)
    → Keeps (record_async_attach meta t func kind)
unfolding record_async_attach
record_async_attach-Keeps meta t func kind = search (keeps_rules, note-Keeps)

pub record_event_arrive-Keeps :
    (meta : LogMeta) (t : TaskState) (kind : String) → Keeps (record_event_arrive meta t kind)
unfolding record_event_arrive
record_event_arrive-Keeps meta t kind = search (keeps_rules, note-Keeps)

pub record_event_pass-Keeps :
    (meta : LogMeta) (t : TaskState) (kind : String) → Keeps (record_event_pass meta t kind)
unfolding record_event_pass
record_event_pass-Keeps meta t kind = search (keeps_rules, note-Keeps)

pub record_cov_edge-Keeps : (meta : LogMeta) (t : TaskState) → Keeps (record_cov_edge meta t)
unfolding record_cov_edge
record_cov_edge-Keeps meta t = search (keeps_rules, note-Keeps)

pub record_mem_add-Keeps :
    (meta : LogMeta) (t : TaskState) (addr : ℕ) (size : ℕ) (kind : String)
    → Keeps (record_mem_add meta t addr size kind)
unfolding record_mem_add
record_mem_add-Keeps meta t addr size kind = search (keeps_rules, note-Keeps)

pub record_mem_del-Keeps :
    (meta : LogMeta) (t : TaskState) (addr : ℕ) (size : ℕ) (kind : String)
    → Keeps (record_mem_del meta t addr size kind)
unfolding record_mem_del
record_mem_del-Keeps meta t addr size kind = search (keeps_rules, note-Keeps)

pub record_mem_reader-Keeps :
    (meta : LogMeta) (t : TaskState) (addr : ℕ) (size : ℕ)
    → Keeps (record_mem_reader meta t addr size)
unfolding record_mem_reader
record_mem_reader-Keeps meta t addr size = search (keeps_rules, note-Keeps)

pub record_mem_writer-Keeps :
    (meta : LogMeta) (t : TaskState) (addr : ℕ) (size : ℕ)
    → Keeps (record_mem_writer meta t addr size)
unfolding record_mem_writer
record_mem_writer-Keeps meta t addr size = search (keeps_rules, note-Keeps)

pub record_sync_lock_acquire-Keeps :
    (meta : LogMeta) (t : TaskState) (rw : String) (lock : ℕ) (kind : String)
    → Keeps (record_sync_lock_acquire meta t rw lock kind)
unfolding record_sync_lock_acquire
record_sync_lock_acquire-Keeps meta t rw lock kind = search (keeps_rules, note-Keeps)

pub record_sync_lock_release-Keeps :
    (meta : LogMeta) (t : TaskState) (rw : String) (lock : ℕ) (kind : String)
    → Keeps (record_sync_lock_release meta t rw lock kind)
unfolding record_sync_lock_release
record_sync_lock_release-Keeps meta t rw lock kind = search (keeps_rules, note-Keeps)

pub record_queue_prefix-Keeps :
    (meta : LogMeta) (t : TaskState) (kind : String) → Keeps (record_queue_prefix meta t kind)
unfolding record_queue_prefix
record_queue_prefix-Keeps meta t kind = search (keeps_rules, note-Keeps)

pub record_queue_suffix-Keeps :
    (meta : LogMeta) (t : TaskState) (kind : String) → Keeps (record_queue_suffix meta t kind)
unfolding record_queue_suffix
record_queue_suffix-Keeps meta t kind = search (keeps_rules, note-Keeps)

pub record_order_prefix-Keeps :
    (meta : LogMeta) (t : TaskState) (addr : ℕ) (kind : String)
    → Keeps (record_order_prefix meta t addr kind)
unfolding record_order_prefix
record_order_prefix-Keeps meta t addr kind = search (keeps_rules, note-Keeps)

pub record_order_suffix-Keeps :
    (meta : LogMeta) (t : TaskState) (addr : ℕ) (kind : String)
    → Keeps (record_order_suffix meta t addr kind)
unfolding record_order_suffix
record_order_suffix-Keeps meta t addr kind = search (keeps_rules, note-Keeps)

pub ruleset notes_rules = (
  record_note-Keeps, record_divider-Keeps, note-Keeps, record_warning-Keeps, record_ctxt_init-Keeps,
  record_ctxt_fini-Keeps, record_func_init-Keeps, record_func_fini-Keeps,
  record_async_register-Keeps, record_async_cancel-Keeps, record_async_attach-Keeps,
  record_event_arrive-Keeps, record_event_pass-Keeps, record_cov_edge-Keeps, record_mem_add-Keeps,
  record_mem_del-Keeps, record_mem_reader-Keeps, record_mem_writer-Keeps,
  record_sync_lock_acquire-Keeps, record_sync_lock_release-Keeps, record_queue_prefix-Keeps,
  record_queue_suffix-Keeps, record_order_prefix-Keeps, record_order_suffix-Keeps,
)
