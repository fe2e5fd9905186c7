-- ===== src/Dart/Event.antt =====
-- script/dart.py: event slots (a waiter and those that notify it), queues, and deposited objects.
use krace.Prelude.{ℕ, Option, none, some, [], ◌∷◌, String, ◌==◌, is_some, not}
use krace.Dict.{Dict, contains, insert, lookup, values}
use krace.Dict.Key.{nat_eq}
use krace.Dart.CtxtType.{LogMeta}
use krace.Dart.ExecUnit.{Ref}
use krace.Dart.State.{EventSlot, QueueSlot}
use krace.Dart.State.Monad.{
  M, ⊤, pure, gets, modify, check, fetch, load, store, clone, get_task, add_dep, ◌>>=◌, ◌>>◌,
}
use krace.Dart.State.Notes.{
  record_event_arrive, record_event_pass, record_queue_prefix, record_queue_suffix,
  record_order_prefix, record_order_suffix,
}
use krace.Dart.Context.{event_slot, enter_get_task, enter_put_task, exit_get_task, exit_put_task}
use krace.Dart.Async.{add_deps}

unfoldable pub get_event : ℕ → String → M EventSlot
get_event hval message = do
  slots ← gets (λ s. s.event_slots)
  check (contains hval slots) message
  fetch hval slots

unfoldable pub put_event : ℕ → EventSlot → M ⊤
put_event hval slot = modify (λ s. record s { event_slots = insert hval slot s.event_slots })

-- `for k, v in slot.servers.items(): self._assert(v[0] == 0, ...)`
unfoldable pub check_idle : Dict ℕ (ℕ × Ref) → M ⊤
check_idle [] = pure tt
check_idle ((k, (func, unit)) ∷ servers) = do
  check (func == 0) "event corrupted - arrived while notifier is still executing"
  check_idle servers

unfoldable pub arrive_slot : LogMeta → Ref → ℕ → Option EventSlot → M ⊤
arrive_slot meta unit func (some slot) = do
  check (slot.func == 0) "event corrupted - arrived twice"
  check_idle slot.servers
  mine ← clone unit
  put_event meta.hval (record slot { func = func; unit = mine; servers = [] })
arrive_slot meta unit func none = do
  mine ← clone unit
  put_event meta.hval (record { func = func; unit = mine; servers = []; host = none })

-- `_log_event_arrive`
unfoldable pub log_event_arrive : LogMeta → ℕ → String → M ⊤
log_event_arrive meta func kind = do
  t ← get_task meta.ptid
  found ← gets (λ s. lookup meta.hval s.event_slots)
  arrive_slot meta t.unit func found
  record_event_arrive meta t kind

-- `if meta.ptid in slot.servers: self._assert(slot.servers[meta.ptid][0] == 0, ...)`
unfoldable pub check_server : Option (ℕ × Ref) → M ⊤
check_server none = pure tt
check_server (some (func, unit)) = check (func == 0) "event notifier entered twice"

-- `_log_event_notify_enter`; the waiter depends on its notifier from here on.
unfoldable pub log_event_notify_enter : LogMeta → ℕ → String → M ⊤
log_event_notify_enter meta func kind = do
  found ← get_event meta.hval "event notifier entered without arrival"
  check (found.func == func) "event notifier entered with wrong callback"
  check_server (lookup meta.ptid found.servers)
  t ← enter_get_task meta (event_slot meta.hval)
  slot ← get_event meta.hval "event notifier entered without arrival"
  u ← load t.unit
  check (not (is_some u.base)) "event notifier entered with parent"
  base ← clone slot.unit
  store t.unit (record u { base = some base })
  dep ← clone t.unit
  put_event meta.hval (record slot { servers = insert meta.ptid (func, dep) slot.servers })
  arrived ← load slot.unit
  waiter ← get_task arrived.ptid
  add_dep waiter.unit dep
  enter_put_task meta t kind

-- `_log_event_notify_exit`
unfoldable pub log_event_notify_exit : LogMeta → ℕ → String → M ⊤
log_event_notify_exit meta func kind = do
  t ← exit_get_task meta
  slot ← get_event meta.hval "event notifier exited without arrival"
  check (contains meta.ptid slot.servers) "event notifier exited without entering"
  (n_func, n_unit) ← fetch meta.ptid slot.servers
  check (n_func == func) "event notifier exited with wrong callback"
  u ← load t.unit
  check (is_some u.base) "event notifier exited without parent"
  store t.unit (record u { base = none })
  put_event meta.hval (record slot { servers = insert meta.ptid (0, n_unit) slot.servers })
  exit_put_task meta (event_slot meta.hval) kind

-- `_log_event_pass`
unfoldable pub log_event_pass : LogMeta → ℕ → String → M ⊤
log_event_pass meta func kind = do
  slot ← get_event meta.hval "event corrupted - passed without arrival"
  put_event meta.hval (record slot { func = 0 })
  t ← get_task meta.ptid
  record_event_pass meta t kind

-- `log_event_queue_arrive`
unfoldable pub queue_arrive : Ref → Option QueueSlot → M ⊤
queue_arrive unit none = pure tt
queue_arrive unit (some slot) = add_deps unit (values slot.units)

unfoldable pub log_event_queue_arrive : LogMeta → M ⊤
log_event_queue_arrive meta = do
  t ← get_task meta.ptid
  found ← gets (λ s. lookup meta.hval s.queue_slots)
  queue_arrive t.unit found
  record_queue_suffix meta t "QUE"

-- `slot = self.queue_slots[meta.hval]`, or a new one
abbrev pub or_empty : Option QueueSlot → QueueSlot
or_empty none = record { units = [] }
or_empty (some slot) = slot

-- `log_event_queue_notify`
unfoldable pub log_event_queue_notify : LogMeta → M ⊤
log_event_queue_notify meta = do
  t ← get_task meta.ptid
  mine ← clone t.unit
  slot ← gets (λ s. or_empty (lookup meta.hval s.queue_slots))
  modify (λ s. record s {
    queue_slots =
        insert meta.hval (record { units = insert meta.ptid mine slot.units }) s.queue_slots;
  })
  record_queue_prefix meta t "QUE"

-- Publishing and subscribing are only noted.
unfoldable pub log_order_ps_publish : LogMeta → ℕ → M ⊤
log_order_ps_publish meta addr = do t ← get_task meta.ptid; record_order_prefix meta t addr "RCU"

unfoldable pub log_order_ps_subscribe : LogMeta → ℕ → M ⊤
log_order_ps_subscribe meta addr = do t ← get_task meta.ptid; record_order_suffix meta t addr "RCU"

unfoldable pub log_order_obj_deposit : LogMeta → ℕ → ℕ → M ⊤
log_order_obj_deposit meta addr objv = do
  t ← get_task meta.ptid
  mine ← clone t.unit
  modify (λ s. record s {
    order_slots = insert addr (record { objv = objv; unit = mine }) s.order_slots;
  })
  record_order_prefix meta t addr "OBJ"

unfoldable pub log_order_obj_consume : LogMeta → ℕ → M ⊤
log_order_obj_consume meta addr = do
  slots ← gets (λ s. s.order_slots)
  check (contains addr slots) "order slot addr mismatch"
  slot ← fetch addr slots
  t ← get_task meta.ptid
  add_dep t.unit slot.unit
  record_order_suffix meta t addr "OBJ"

unfoldable pub log_event_wait_arrive : LogMeta → ℕ → M ⊤
log_event_wait_arrive meta func = log_event_arrive meta func "WAIT"

unfoldable pub log_event_wait_notify_enter : LogMeta → ℕ → M ⊤
log_event_wait_notify_enter meta func = log_event_notify_enter meta func "WAIT"

unfoldable pub log_event_wait_notify_exit : LogMeta → ℕ → M ⊤
log_event_wait_notify_exit meta func = log_event_notify_exit meta func "WAIT"

unfoldable pub log_event_wait_pass : LogMeta → ℕ → M ⊤
log_event_wait_pass meta func = log_event_pass meta func "WAIT"

unfoldable pub log_event_sema_arrive : LogMeta → ℕ → M ⊤
log_event_sema_arrive meta func = log_event_arrive meta func "SEMA"

unfoldable pub log_event_sema_notify_enter : LogMeta → ℕ → M ⊤
log_event_sema_notify_enter meta func = log_event_notify_enter meta func "SEMA"

unfoldable pub log_event_sema_notify_exit : LogMeta → ℕ → M ⊤
log_event_sema_notify_exit meta func = log_event_notify_exit meta func "SEMA"

unfoldable pub log_event_sema_pass : LogMeta → ℕ → M ⊤
log_event_sema_pass meta func = log_event_pass meta func "SEMA"
