-- ===== src/Dart/Held/Event.antt =====
-- script/dart.py: the handlers of events, queues and orderings keep the lock tables.
use krace.Prelude.{ℕ, Option, none, some, [], ◌∷◌, String}
use krace.Dict.{Dict}
use krace.Dart.CtxtType.{LogMeta}
use krace.Dart.ExecUnit.{Ref}
use krace.Dart.State.{EventSlot, QueueSlot}
use krace.Dart.Held.Rules.{Keeps, Keeps-bind, keeps_rules}
use krace.Dart.Event.{
  get_event, put_event, check_idle, arrive_slot, log_event_arrive, check_server,
  log_event_notify_enter, log_event_notify_exit, log_event_pass, queue_arrive,
  log_event_queue_arrive, log_event_queue_notify, log_order_ps_publish, log_order_ps_subscribe,
  log_order_obj_deposit, log_order_obj_consume, log_event_wait_arrive, log_event_wait_notify_enter,
  log_event_wait_notify_exit, log_event_wait_pass, log_event_sema_arrive,
  log_event_sema_notify_enter, log_event_sema_notify_exit, log_event_sema_pass,
}
use krace.Dart.Held.Notes.{notes_rules}
use krace.Dart.Held.Context.{context_rules}
use krace.Dart.Held.Async.{add_deps-Keeps}

pub get_event-Keeps : (hval : ℕ) (message : String) → Keeps (get_event hval message)
unfolding get_event
get_event-Keeps hval message = search (keeps_rules, context_rules, add_deps-Keeps) depth 12

pub put_event-Keeps : (hval : ℕ) (slot : EventSlot) → Keeps (put_event hval slot)
unfolding put_event
put_event-Keeps hval slot = search (keeps_rules, context_rules, add_deps-Keeps) depth 12

pub check_idle-Keeps : (x : Dict ℕ (ℕ × Ref)) → Keeps (check_idle x)
unfolding check_idle
check_idle-Keeps [] = search (keeps_rules, context_rules, add_deps-Keeps) depth 12
check_idle-Keeps ((k, (func, unit)) ∷ servers) =
    Keeps-bind _ _ (search (keeps_rules, context_rules, add_deps-Keeps) depth 12) (λ _.
      search (keeps_rules, (check_idle-Keeps servers), context_rules, add_deps-Keeps) depth 12)

pub arrive_slot-Keeps :
    (meta : LogMeta) (unit : Ref) (func : ℕ) (o : Option EventSlot)
    → Keeps (arrive_slot meta unit func o)
unfolding arrive_slot
arrive_slot-Keeps meta unit func (some slot) =
    search (keeps_rules, context_rules, add_deps-Keeps, put_event-Keeps, check_idle-Keeps) depth 12
arrive_slot-Keeps meta unit func none =
    search (keeps_rules, context_rules, add_deps-Keeps, put_event-Keeps, check_idle-Keeps) depth 12

pub log_event_arrive-Keeps :
    (meta : LogMeta) (func : ℕ) (kind : String) → Keeps (log_event_arrive meta func kind)
unfolding log_event_arrive
log_event_arrive-Keeps meta func kind =
    search (keeps_rules, notes_rules, context_rules, add_deps-Keeps, arrive_slot-Keeps) depth 12

pub check_server-Keeps : (o : Option (ℕ × Ref)) → Keeps (check_server o)
unfolding check_server
check_server-Keeps none = search (keeps_rules, context_rules, add_deps-Keeps) depth 12
check_server-Keeps (some (func, unit)) =
    search (keeps_rules, context_rules, add_deps-Keeps) depth 12

pub log_event_notify_enter-Keeps :
    (meta : LogMeta) (func : ℕ) (kind : String) → Keeps (log_event_notify_enter meta func kind)
unfolding log_event_notify_enter
log_event_notify_enter-Keeps meta func kind =
    search
      (
        keeps_rules, context_rules, add_deps-Keeps, get_event-Keeps, put_event-Keeps,
        check_server-Keeps,
      )
      depth 24

pub log_event_notify_exit-Keeps :
    (meta : LogMeta) (func : ℕ) (kind : String) → Keeps (log_event_notify_exit meta func kind)
unfolding log_event_notify_exit
log_event_notify_exit-Keeps meta func kind =
    search (keeps_rules, context_rules, add_deps-Keeps, get_event-Keeps, put_event-Keeps) depth 12

pub log_event_pass-Keeps :
    (meta : LogMeta) (func : ℕ) (kind : String) → Keeps (log_event_pass meta func kind)
unfolding log_event_pass
log_event_pass-Keeps meta func kind =
    search
      (keeps_rules, notes_rules, context_rules, add_deps-Keeps, get_event-Keeps, put_event-Keeps)
      depth 12

pub queue_arrive-Keeps : (unit : Ref) (o : Option QueueSlot) → Keeps (queue_arrive unit o)
unfolding queue_arrive
queue_arrive-Keeps unit none = search (keeps_rules, context_rules, add_deps-Keeps) depth 12
queue_arrive-Keeps unit (some slot) = search (keeps_rules, context_rules, add_deps-Keeps) depth 12

pub log_event_queue_arrive-Keeps : (meta : LogMeta) → Keeps (log_event_queue_arrive meta)
unfolding log_event_queue_arrive
log_event_queue_arrive-Keeps meta =
    search (keeps_rules, notes_rules, context_rules, add_deps-Keeps, queue_arrive-Keeps) depth 12

pub log_event_queue_notify-Keeps : (meta : LogMeta) → Keeps (log_event_queue_notify meta)
unfolding log_event_queue_notify
log_event_queue_notify-Keeps meta =
    search (keeps_rules, notes_rules, context_rules, add_deps-Keeps) depth 12

pub log_order_ps_publish-Keeps :
    (meta : LogMeta) (addr : ℕ) → Keeps (log_order_ps_publish meta addr)
unfolding log_order_ps_publish
log_order_ps_publish-Keeps meta addr =
    search (keeps_rules, notes_rules, context_rules, add_deps-Keeps) depth 12

pub log_order_ps_subscribe-Keeps :
    (meta : LogMeta) (addr : ℕ) → Keeps (log_order_ps_subscribe meta addr)
unfolding log_order_ps_subscribe
log_order_ps_subscribe-Keeps meta addr =
    search (keeps_rules, notes_rules, context_rules, add_deps-Keeps) depth 12

pub log_order_obj_deposit-Keeps :
    (meta : LogMeta) (addr : ℕ) (objv : ℕ) → Keeps (log_order_obj_deposit meta addr objv)
unfolding log_order_obj_deposit
log_order_obj_deposit-Keeps meta addr objv =
    search (keeps_rules, notes_rules, context_rules, add_deps-Keeps) depth 12

pub log_order_obj_consume-Keeps :
    (meta : LogMeta) (addr : ℕ) → Keeps (log_order_obj_consume meta addr)
unfolding log_order_obj_consume
log_order_obj_consume-Keeps meta addr =
    search (keeps_rules, notes_rules, context_rules, add_deps-Keeps) depth 12

pub log_event_wait_arrive-Keeps :
    (meta : LogMeta) (func : ℕ) → Keeps (log_event_wait_arrive meta func)
unfolding log_event_wait_arrive
log_event_wait_arrive-Keeps meta func =
    search (keeps_rules, context_rules, add_deps-Keeps, log_event_arrive-Keeps) depth 12

pub log_event_wait_notify_enter-Keeps :
    (meta : LogMeta) (func : ℕ) → Keeps (log_event_wait_notify_enter meta func)
unfolding log_event_wait_notify_enter
log_event_wait_notify_enter-Keeps meta func =
    search (keeps_rules, context_rules, add_deps-Keeps, log_event_notify_enter-Keeps) depth 12

pub log_event_wait_notify_exit-Keeps :
    (meta : LogMeta) (func : ℕ) → Keeps (log_event_wait_notify_exit meta func)
unfolding log_event_wait_notify_exit
log_event_wait_notify_exit-Keeps meta func =
    search (keeps_rules, context_rules, add_deps-Keeps, log_event_notify_exit-Keeps) depth 12

pub log_event_wait_pass-Keeps : (meta : LogMeta) (func : ℕ) → Keeps (log_event_wait_pass meta func)
unfolding log_event_wait_pass
log_event_wait_pass-Keeps meta func =
    search (keeps_rules, context_rules, add_deps-Keeps, log_event_pass-Keeps) depth 12

pub log_event_sema_arrive-Keeps :
    (meta : LogMeta) (func : ℕ) → Keeps (log_event_sema_arrive meta func)
unfolding log_event_sema_arrive
log_event_sema_arrive-Keeps meta func =
    search (keeps_rules, context_rules, add_deps-Keeps, log_event_arrive-Keeps) depth 12

pub log_event_sema_notify_enter-Keeps :
    (meta : LogMeta) (func : ℕ) → Keeps (log_event_sema_notify_enter meta func)
unfolding log_event_sema_notify_enter
log_event_sema_notify_enter-Keeps meta func =
    search (keeps_rules, context_rules, add_deps-Keeps, log_event_notify_enter-Keeps) depth 12

pub log_event_sema_notify_exit-Keeps :
    (meta : LogMeta) (func : ℕ) → Keeps (log_event_sema_notify_exit meta func)
unfolding log_event_sema_notify_exit
log_event_sema_notify_exit-Keeps meta func =
    search (keeps_rules, context_rules, add_deps-Keeps, log_event_notify_exit-Keeps) depth 12

pub log_event_sema_pass-Keeps : (meta : LogMeta) (func : ℕ) → Keeps (log_event_sema_pass meta func)
unfolding log_event_sema_pass
log_event_sema_pass-Keeps meta func =
    search (keeps_rules, context_rules, add_deps-Keeps, log_event_pass-Keeps) depth 12

pub ruleset event_rules = (
  get_event-Keeps, put_event-Keeps, check_idle-Keeps, arrive_slot-Keeps, log_event_arrive-Keeps,
  check_server-Keeps, log_event_notify_enter-Keeps, log_event_notify_exit-Keeps,
  log_event_pass-Keeps, queue_arrive-Keeps, log_event_queue_arrive-Keeps,
  log_event_queue_notify-Keeps, log_order_ps_publish-Keeps, log_order_ps_subscribe-Keeps,
  log_order_obj_deposit-Keeps, log_order_obj_consume-Keeps, log_event_wait_arrive-Keeps,
  log_event_wait_notify_enter-Keeps, log_event_wait_notify_exit-Keeps, log_event_wait_pass-Keeps,
  log_event_sema_arrive-Keeps, log_event_sema_notify_enter-Keeps, log_event_sema_notify_exit-Keeps,
  log_event_sema_pass-Keeps,
)
