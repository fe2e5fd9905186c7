-- ===== src/Dart/Context.antt =====
-- script/dart.py: entering and leaving an execution context, for the contexts that enter directly
-- and for the callbacks of async and event slots, which may steal the task that they run on.
use krace.Prelude.{ℕ, ◌+◌, Bool, true, false, Option, none, some, [], String, ◌==◌, is_some, not}
use krace.Dict.{contains, insert}
use krace.Dict.Key.{nat_eq}
use krace.Dart.CtxtType.{LogMeta}
use krace.Dart.ExecUnit.{Ref, create}
use krace.Dart.State.{TaskState, create_task}
use krace.Dart.State.Monad.{
  M, ⊤, pure, gets, modify, check, fetch, load, store, alloc, clone, get_task, put_task, add_dep,
  ◌>>=◌, ◌>>◌,
}
use krace.Dart.State.Notes.{record_ctxt_init, record_ctxt_fini}

-- The argument `slot: Optional[Union[AsyncSlot, EventSlot]]`: the key that the slot is kept under.
pub data SlotRef : Type 0 where
  no_slot : SlotRef
  async_slot event_slot : ℕ → SlotRef

-- `slot.host`
unfoldable pub get_host : SlotRef → M (Option Ref)
get_host no_slot = pure none
get_host (async_slot hval) = do
  slots ← gets (λ s. s.async_slots)
  slot ← fetch hval slots
  pure slot.host
get_host (event_slot hval) = do
  slots ← gets (λ s. s.event_slots)
  slot ← fetch hval slots
  pure slot.host

-- `slot.host = host`
unfoldable pub set_host : SlotRef → Option Ref → M ⊤
set_host no_slot host = pure tt
set_host (async_slot hval) host = do
  slots ← gets (λ s. s.async_slots)
  slot ← fetch hval slots
  modify (λ s. record s { async_slots = insert hval (record slot { host = host }) s.async_slots })
set_host (event_slot hval) host = do
  slots ← gets (λ s. s.event_slots)
  slot ← fetch hval slots
  modify (λ s. record s { event_slots = insert hval (record slot { host = host }) s.event_slots })

-- `ctxt == hval`, where `ctxt` may be `None`
abbrev pub is_ctxt : Option ℕ → ℕ → Bool
is_ctxt none hval = false
is_ctxt (some c) hval = c == hval

unfoldable pub new_task : LogMeta → M ⊤
new_task meta = do r ← alloc (create meta.ptid); put_task meta.ptid (create_task r)

-- The running context is set aside as the slot's host, and a fresh unit depends on it.
unfoldable pub steal_task : LogMeta → SlotRef → TaskState → M ⊤
steal_task meta slot t = do
  host ← clone t.unit
  set_host slot (some host)
  r ← alloc (create meta.ptid)
  put_task meta.ptid (record t { unit = r })
  add_dep r host

unfoldable pub reuse_task : LogMeta → SlotRef → TaskState → Option ℕ → M ⊤
reuse_task meta no_slot t ctxt = check (not (is_some ctxt)) "context is not cleared on entry"
reuse_task meta slot t (some c) = steal_task meta slot t
reuse_task meta slot t none = set_host slot none

unfoldable pub acquire_task : LogMeta → SlotRef → Bool → M ⊤
acquire_task meta slot false = new_task meta
acquire_task meta slot true = do
  t ← get_task meta.ptid
  u ← load t.unit
  reuse_task meta slot t u.ctxt

unfoldable pub add_last_unit : TaskState → Option Ref → M ⊤
add_last_unit t none = pure tt
add_last_unit t (some last) = add_dep t.unit last

-- The next sequence number, and the mark of the context's start.
unfoldable pub roll_over : LogMeta → M ⊤
roll_over meta = do
  t ← get_task meta.ptid
  u ← load t.unit
  check (u.clk == 0) "unit clock is not zero on entry"
  add_last_unit t t.last_unit
  v ← load t.unit
  store t.unit (record v { clk = 0; seq = t.nseq; ctxt = some meta.hval })
  put_task meta.ptid (record t { nseq = t.nseq + 1 })

-- `_log_ctxt_enter_get_task`
unfoldable pub enter_get_task : LogMeta → SlotRef → M TaskState
enter_get_task meta slot = do
  known ← gets (λ s. contains meta.ptid s.tasks)
  acquire_task meta slot known
  roll_over meta
  get_task meta.ptid

-- `_log_ctxt_enter_put_task`
unfoldable pub enter_put_task : LogMeta → TaskState → String → M ⊤
enter_put_task meta t kind = record_ctxt_init meta t kind

-- `_log_ctxt_exit_get_task`
unfoldable pub exit_get_task : LogMeta → M TaskState
exit_get_task meta = do
  known ← gets (λ s. contains meta.ptid s.tasks)
  check known "context existing without entering"
  t ← get_task meta.ptid
  u ← load t.unit
  check (is_ctxt u.ctxt meta.hval) "context mismatch at exit"
  last ← clone t.unit
  put_task meta.ptid (record t { last_unit = some last })
  get_task meta.ptid

unfoldable pub restore_task : LogMeta → SlotRef → Option Ref → M ⊤
restore_task meta slot none = pure tt
restore_task meta slot (some host) = do
  r ← clone host
  t ← get_task meta.ptid
  put_task meta.ptid (record t { unit = r })
  set_host slot none

-- `_log_ctxt_exit_put_task`
unfoldable pub exit_put_task : LogMeta → SlotRef → String → M ⊤
exit_put_task meta slot kind = do
  t ← get_task meta.ptid
  record_ctxt_fini meta t kind
  u ← load t.unit
  store t.unit (record u { clk = 0; ctxt = none; deps = [] })
  host ← get_host slot
  restore_task meta slot host

-- `_log_ctxt_direct_enter`
unfoldable pub log_ctxt_direct_enter : LogMeta → String → M ⊤
log_ctxt_direct_enter meta kind = do
  t ← enter_get_task meta no_slot
  u ← load t.unit
  check (not (is_some u.base)) "direct context entered with parent"
  enter_put_task meta t kind

-- `_log_ctxt_direct_exit`
unfoldable pub log_ctxt_direct_exit : LogMeta → String → M ⊤
log_ctxt_direct_exit meta kind = do
  t ← exit_get_task meta
  u ← load t.unit
  check (not (is_some u.base)) "direct context exited with parent"
  exit_put_task meta no_slot kind

unfoldable pub log_ctxt_syscall_enter : LogMeta → M ⊤
log_ctxt_syscall_enter meta = log_ctxt_direct_enter meta "SYSCALL"

unfoldable pub log_ctxt_syscall_exit : LogMeta → M ⊤
log_ctxt_syscall_exit meta = log_ctxt_direct_exit meta "SYSCALL"
