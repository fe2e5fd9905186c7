-- ===== src/Dart/Async/Switch.antt =====
-- script/dart.py: `log_exec_background` and `log_exec_foreground` as a pair.
use krace.Prelude.{◌≡◌, refl, ap, ◌∙◌, some}
use krace.Dict.{lookup, contains, insert}
use krace.Dict.Key.{nat_eq}
use krace.Dict.Laws.{lookup-insert_self, insert-insert, insert_same}
use krace.Dart.CtxtType.{LogMeta}
use krace.Dart.ExecUnit.{Ref}
use krace.Dart.State.{Analyzer, TaskState, AsyncSlot}
use krace.Dart.State.Monad.{
  done, pure, gets, check, fetch, or_raise, modify, get_task, put_task, ◌>>=◌,
}
use krace.Dart.Async.{get_async, put_async, log_exec_background, log_exec_foreground}

-- The state in which the slot waits with `host` and the task runs on `unit`
abbrev pub switched : LogMeta → AsyncSlot → TaskState → Ref → Ref → Analyzer → Analyzer
switched meta slot t host unit s = record s {
  async_slots = insert meta.hval (record slot { host = some host }) s.async_slots;
  tasks = insert meta.ptid (record t { unit = unit }) s.tasks;
}

log_exec_background-done :
    (meta : LogMeta) (slot : AsyncSlot) (host : Ref) (t : TaskState) (s : Analyzer)
    → lookup meta.hval s.async_slots ≡ some slot
    → slot.host ≡ some host
    → lookup meta.ptid s.tasks ≡ some t
    → log_exec_background meta s ≡ done tt (switched meta slot t t.unit host s)
unfolding log_exec_background get_async put_async gets check contains fetch or_raise pure modify
    get_task put_task ◌>>=◌
log_exec_background-done meta slot host t s es eh et = rw (es, eh, et, et)

log_exec_foreground-done :
    (meta : LogMeta) (slot : AsyncSlot) (host : Ref) (t : TaskState) (s : Analyzer)
    → lookup meta.hval s.async_slots ≡ some slot
    → slot.host ≡ some host
    → lookup meta.ptid s.tasks ≡ some t
    → log_exec_foreground meta s ≡ done tt (switched meta slot t t.unit host s)
unfolding log_exec_foreground get_async put_async gets check contains fetch or_raise pure modify
    get_task put_task ◌>>=◌
log_exec_foreground-done meta slot host t s es eh et = rw (es, eh, et, et)

-- A task whose slot has a host is sent to the background: from then on the task runs on the host, and
-- the slot waits with the unit that the task had, and nothing else is changed. Brought back to the
-- foreground, the state is the same again. Neither handler raises.
pub background_foreground :
    (meta : LogMeta) (slot : AsyncSlot) (host : Ref) (t : TaskState) (s : Analyzer)
    → lookup meta.hval s.async_slots ≡ some slot
    → slot.host ≡ some host
    → lookup meta.ptid s.tasks ≡ some t
    → (log_exec_background meta s ≡ done tt (switched meta slot t t.unit host s))
      × (log_exec_foreground meta (switched meta slot t t.unit host s) ≡ done tt s)
background_foreground meta slot host t s es eh et =
    let there = switched meta slot t t.unit host s in
    let slots : insert meta.hval (record slot { host = some host }) there.async_slots
        ≡ s.async_slots =
      rw insert-insert (
        insert_same meta.hval (record slot { host = some host }) s.async_slots
          (es ∙ ap (λ h. some (record slot { host = h })) eh)) in
    let tasks : insert meta.ptid t there.tasks ≡ s.tasks =
      rw insert-insert (insert_same meta.ptid t s.tasks et) in
    (
      log_exec_background-done meta slot host t s es eh et,
      log_exec_foreground-done meta (record slot { host = some t.unit }) t.unit
            (record t { unit = host }) there (lookup-insert_self meta.hval _ s.async_slots) refl
            (lookup-insert_self meta.ptid _ s.tasks)
          ∙ ap (λ d. done tt (record s { async_slots = d; tasks = insert meta.ptid t there.tasks }))
              slots
          ∙ ap (λ d. done tt (record s { tasks = d })) tasks,
    )
