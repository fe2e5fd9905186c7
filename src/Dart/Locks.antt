-- ===== src/Dart/Locks.antt =====
-- script/dart.py: `_LockMapImpl`, `LockMap`, `_TranMapImpl` and `TranMap`: the locks that a task
-- holds, with their nesting depth, and its sequence-lock transactions.
pub mod Depth
pub mod Sets
use krace.Prelude.{
  ℕ, ◌+◌, ◌-◌, Bool, true, false, Option, none, some, List, [], ◌∷◌, leb, if◌then◌else◌, union,
}
use krace.Dict.{Dict, lookup, contains, insert, erase, keys}
use krace.Dict.Key.{nat_eq}
use krace.Dart.ExecUnit.{Ref}

-- `_LockMapImpl`: `locks` is a `defaultdict(int)`.
abbrev pub LockDepths : Type 0
LockDepths = Dict ℕ ℕ

abbrev or_zero : Option ℕ → ℕ
or_zero none = 0
or_zero (some n) = n

-- `self.locks[lock]`; a missing entry is made by the read, and overwritten or deleted at once.
unfoldable pub depth : ℕ → LockDepths → ℕ
depth lock locks = or_zero (lookup lock locks)

-- `_LockMapImpl.add_lock`: the depth before, and the new state
unfoldable pub add_lock : ℕ → LockDepths → ℕ × LockDepths
unfolding depth
add_lock lock locks = (depth lock locks, insert lock (depth lock locks + 1) locks)

-- `_LockMapImpl.del_lock`
unfoldable pub del_lock : ℕ → LockDepths → ℕ × LockDepths
unfolding depth
del_lock lock locks =
    if leb (depth lock locks) 1
    then (depth lock locks, erase lock locks)
    else (depth lock locks, insert lock (depth lock locks - 1) locks)

-- `_LockMapImpl.lockset`
abbrev pub lockset : LockDepths → List ℕ
lockset locks = keys locks

pub record LockMap : Type 0 where
  pub locks_r : LockDepths
  pub locks_w : LockDepths

abbrev pub no_locks : LockMap
no_locks = record { locks_r = []; locks_w = [] }

unfoldable pub add_lock_r : ℕ → LockMap → ℕ × LockMap
unfolding add_lock
add_lock_r lock m = let (d, locks) = add_lock lock m.locks_r in (d, record m { locks_r = locks })

unfoldable pub del_lock_r : ℕ → LockMap → ℕ × LockMap
unfolding del_lock
del_lock_r lock m = let (d, locks) = del_lock lock m.locks_r in (d, record m { locks_r = locks })

unfoldable pub add_lock_w : ℕ → LockMap → ℕ × LockMap
unfolding add_lock
add_lock_w lock m = let (d, locks) = add_lock lock m.locks_w in (d, record m { locks_w = locks })

unfoldable pub del_lock_w : ℕ → LockMap → ℕ × LockMap
unfolding del_lock
del_lock_w lock m = let (d, locks) = del_lock lock m.locks_w in (d, record m { locks_w = locks })

-- A writer lock protects reads too.
unfoldable pub lockset_r : LockMap → List ℕ
lockset_r m = union (lockset m.locks_r) (lockset m.locks_w)

unfoldable pub lockset_w : LockMap → List ℕ
lockset_w m = lockset m.locks_w

-- `_TranInfo`
pub record TranInfo : Type 0 where
  pub begin : Option Ref
  pub retry : Option Ref

-- `_TranMapImpl`: `trans` is a `defaultdict(_TranInfo)`.
abbrev pub TranInfos : Type 0
TranInfos = Dict ℕ TranInfo

abbrev or_fresh : Option TranInfo → TranInfo
or_fresh none = record { begin = none; retry = none }
or_fresh (some t) = t

unfoldable pub tran_info : ℕ → TranInfos → TranInfo
tran_info tran trans = or_fresh (lookup tran trans)

-- `_TranMapImpl.add_tran`
unfoldable pub add_tran : ℕ → Ref → TranInfos → Option Ref × TranInfos
unfolding tran_info
add_tran tran unit trans =
    ((tran_info tran trans).retry, insert tran (record { begin = some unit; retry = none }) trans)

-- `_TranMapImpl.del_tran`; the entry is made also where there is no prior transaction.
unfoldable pub del_tran : ℕ → Ref → TranInfos → Option Ref × TranInfos
unfolding tran_info
del_tran tran unit trans = (
  (tran_info tran trans).begin,
  insert tran (record { begin = (tran_info tran trans).begin; retry = some unit }) trans,
)

-- `_TranMapImpl.has_tran`
unfoldable pub has_tran : ℕ → TranInfos → Bool
has_tran tran trans = contains tran trans

-- `_TranMapImpl.pending`
unfoldable pub pending : TranInfos → List ℕ
pending [] = []
pending ((i, v) ∷ trans) =
    let rest = pending trans in elim v.retry [ none ↦ i ∷ rest | some r ↦ rest ]

pub record TranMap : Type 0 where
  pub trans_r : TranInfos
  pub locks_w : LockDepths

abbrev pub no_trans : TranMap
no_trans = record { trans_r = []; locks_w = [] }

unfoldable pub add_tran_r : ℕ → Ref → TranMap → Option Ref × TranMap
unfolding add_tran
add_tran_r tran unit m =
    let (prior, trans) = add_tran tran unit m.trans_r in (prior, record m { trans_r = trans })

unfoldable pub del_tran_r : ℕ → Ref → TranMap → Option Ref × TranMap
unfolding del_tran
del_tran_r tran unit m =
    let (prior, trans) = del_tran tran unit m.trans_r in (prior, record m { trans_r = trans })

unfoldable pub has_tran_r : ℕ → TranMap → Bool
unfolding has_tran
has_tran_r tran m = has_tran tran m.trans_r

-- `TranMap.add_lock_w`
unfoldable pub add_seq_w : ℕ → TranMap → ℕ × TranMap
unfolding add_lock
add_seq_w lock m = let (d, locks) = add_lock lock m.locks_w in (d, record m { locks_w = locks })

-- `TranMap.del_lock_w`
unfoldable pub del_seq_w : ℕ → TranMap → ℕ × TranMap
unfolding del_lock
del_seq_w lock m = let (d, locks) = del_lock lock m.locks_w in (d, record m { locks_w = locks })

-- `transet_r` takes every transaction ever begun, `_TranMapImpl.lockset_candidates`.
unfoldable pub transet_r : TranMap → List ℕ
transet_r m = keys m.trans_r

unfoldable pub transet_w : TranMap → List ℕ
transet_w m = lockset m.locks_w
