-- ===== src/Dart/LogType.antt =====
-- script/dart.py: `LogType`, the kinds of log entries and the numbers that stand for them.
use krace.Prelude.{ℕ, Option, List, [], ◌∷◌, get_elem?}

pub data LogType : Type 0 where
  begin_of_enum sys_launch sys_finish mark_v0 mark_v1 mark_v2 mark_v3 ctxt_syscall_enter : LogType
  ctxt_syscall_exit ctxt_rcu_enter ctxt_rcu_exit ctxt_work_enter ctxt_work_exit ctxt_task_enter :
      LogType
  ctxt_task_exit ctxt_timer_enter ctxt_timer_exit ctxt_krun_enter ctxt_krun_exit ctxt_block_enter :
      LogType
  ctxt_block_exit ctxt_ipi_enter ctxt_ipi_exit ctxt_custom_enter ctxt_custom_exit exec_pause :
      LogType
  exec_resume exec_background exec_foreground exec_func_enter exec_func_exit async_rcu_register :
      LogType
  async_work_register async_work_cancel async_work_attach async_task_register async_task_cancel :
      LogType
  async_timer_register async_timer_cancel async_timer_attach async_krun_register : LogType
  async_block_register async_ipi_register async_custom_register async_custom_attach : LogType
  event_queue_arrive event_queue_notify event_wait_arrive event_wait_notify_enter : LogType
  event_wait_notify_exit event_wait_pass event_sema_arrive event_sema_notify_enter : LogType
  event_sema_notify_exit event_sema_pass cov_cfg mem_stack_push mem_stack_pop mem_heap_alloc :
      LogType
  mem_heap_free mem_percpu_alloc mem_percpu_free mem_read mem_write sync_gen_lock sync_gen_unlock :
      LogType
  sync_seq_lock sync_seq_unlock sync_rcu_lock sync_rcu_unlock order_ps_publish order_ps_subscribe :
      LogType
  order_obj_deposit order_obj_consume end_of_enum : LogType

-- `i.value`: `auto()` numbers the members in the order of their declaration.
unfoldable pub value : LogType → ℕ
value begin_of_enum = 0
value sys_launch = 1
value sys_finish = 2
value mark_v0 = 3
value mark_v1 = 4
value mark_v2 = 5
value mark_v3 = 6
value ctxt_syscall_enter = 7
value ctxt_syscall_exit = 8
value ctxt_rcu_enter = 9
value ctxt_rcu_exit = 10
value ctxt_work_enter = 11
value ctxt_work_exit = 12
value ctxt_task_enter = 13
value ctxt_task_exit = 14
value ctxt_timer_enter = 15
value ctxt_timer_exit = 16
value ctxt_krun_enter = 17
value ctxt_krun_exit = 18
value ctxt_block_enter = 19
value ctxt_block_exit = 20
value ctxt_ipi_enter = 21
value ctxt_ipi_exit = 22
value ctxt_custom_enter = 23
value ctxt_custom_exit = 24
value exec_pause = 25
value exec_resume = 26
value exec_background = 27
value exec_foreground = 28
value exec_func_enter = 29
value exec_func_exit = 30
value async_rcu_register = 31
value async_work_register = 32
value async_work_cancel = 33
value async_work_attach = 34
value async_task_register = 35
value async_task_cancel = 36
value async_timer_register = 37
value async_timer_cancel = 38
value async_timer_attach = 39
value async_krun_register = 40
value async_block_register = 41
value async_ipi_register = 42
value async_custom_register = 43
value async_custom_attach = 44
value event_queue_arrive = 45
value event_queue_notify = 46
value event_wait_arrive = 47
value event_wait_notify_enter = 48
value event_wait_notify_exit = 49
value event_wait_pass = 50
value event_sema_arrive = 51
value event_sema_notify_enter = 52
value event_sema_notify_exit = 53
value event_sema_pass = 54
value cov_cfg = 55
value mem_stack_push = 56
value mem_stack_pop = 57
value mem_heap_alloc = 58
value mem_heap_free = 59
value mem_percpu_alloc = 60
value mem_percpu_free = 61
value mem_read = 62
value mem_write = 63
value sync_gen_lock = 64
value sync_gen_unlock = 65
value sync_seq_lock = 66
value sync_seq_unlock = 67
value sync_rcu_lock = 68
value sync_rcu_unlock = 69
value order_ps_publish = 70
value order_ps_subscribe = 71
value order_obj_deposit = 72
value order_obj_consume = 73
value end_of_enum = 74

-- The members in the order that iterating over the enumeration gives.
abbrev pub members : List LogType
members =
    begin_of_enum ∷ sys_launch ∷ sys_finish ∷ mark_v0 ∷ mark_v1 ∷ mark_v2 ∷ mark_v3
    ∷ ctxt_syscall_enter ∷ ctxt_syscall_exit ∷ ctxt_rcu_enter ∷ ctxt_rcu_exit ∷ ctxt_work_enter
    ∷ ctxt_work_exit ∷ ctxt_task_enter ∷ ctxt_task_exit ∷ ctxt_timer_enter ∷ ctxt_timer_exit
    ∷ ctxt_krun_enter ∷ ctxt_krun_exit ∷ ctxt_block_enter ∷ ctxt_block_exit ∷ ctxt_ipi_enter
    ∷ ctxt_ipi_exit ∷ ctxt_custom_enter ∷ ctxt_custom_exit ∷ exec_pause ∷ exec_resume
    ∷ exec_background ∷ exec_foreground ∷ exec_func_enter ∷ exec_func_exit ∷ async_rcu_register
    ∷ async_work_register ∷ async_work_cancel ∷ async_work_attach ∷ async_task_register
    ∷ async_task_cancel ∷ async_timer_register ∷ async_timer_cancel ∷ async_timer_attach
    ∷ async_krun_register ∷ async_block_register ∷ async_ipi_register ∷ async_custom_register
    ∷ async_custom_attach ∷ event_queue_arrive ∷ event_queue_notify ∷ event_wait_arrive
    ∷ event_wait_notify_enter ∷ event_wait_notify_exit ∷ event_wait_pass ∷ event_sema_arrive
    ∷ event_sema_notify_enter ∷ event_sema_notify_exit ∷ event_sema_pass ∷ cov_cfg ∷ mem_stack_push
    ∷ mem_stack_pop ∷ mem_heap_alloc ∷ mem_heap_free ∷ mem_percpu_alloc ∷ mem_percpu_free ∷ mem_read
    ∷ mem_write ∷ sync_gen_lock ∷ sync_gen_unlock ∷ sync_seq_lock ∷ sync_seq_unlock ∷ sync_rcu_lock
    ∷ sync_rcu_unlock ∷ order_ps_publish ∷ order_ps_subscribe ∷ order_obj_deposit
    ∷ order_obj_consume ∷ end_of_enum ∷ []

-- `log_types[cval]`, with `log_types = {i.value: i for i in LogType}`
unfoldable pub of_value : ℕ → Option LogType
of_value cval = get_elem? members cval
