-- ===== src/Dart/CtxtType.antt =====
-- script/dart.py: `CtxtType`, `LogMeta` and `SyncInfo`, the bit fields of a log entry's header.
use krace.Prelude.{ℕ, Bool, has_bit, if◌then◌else◌, true, false}

pub data CtxtType : Type 0 where
  task softirq hardirq nmi : CtxtType

-- `1 << 8 << 16` and its neighbours are the bits 24, 25 and 26.
unfoldable pub from_ptid : ℕ → CtxtType
from_ptid ptid =
    if has_bit ptid 24
    then softirq
    else (if has_bit ptid 25 then hardirq else (if has_bit ptid 26 then nmi else task))

-- `t != CtxtType.TASK`
abbrev pub is_interrupt : CtxtType → Bool
is_interrupt task = false
is_interrupt softirq = true
is_interrupt hardirq = true
is_interrupt nmi = true

pub record LogMeta : Type 0 where
  pub ptid : ℕ
  pub info : ℕ
  pub hval : ℕ

-- the property `LogMeta.ctxt`
unfoldable pub ctxt : LogMeta → CtxtType
unfolding from_ptid
ctxt meta = from_ptid meta.ptid

-- `SyncInfo(info)` holds the one number `info`.
unfoldable pub is_rw : ℕ → Bool
is_rw info = has_bit info 2

unfoldable pub is_try : ℕ → Bool
is_try info = has_bit info 1

unfoldable pub is_succ : ℕ → Bool
is_succ info = has_bit info 0
