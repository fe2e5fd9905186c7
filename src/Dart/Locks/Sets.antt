-- ===== src/Dart/Locks/Sets.antt =====
-- script/dart.py: `LockMap` as a whole: nested locks, and the two lock sets that race checks compare.
use krace.Prelude.{
  ℕ, zero, suc, ◌+◌, ◌-◌, ◌≤◌, ◌≡◌, ◌≢◌, ◌↔◌, ◌⊎◌, true, arith, ◌==◌, has, leb, if◌then◌else◌,
}
use krace.Dart.Locks.{LockDepths, depth, add_lock, del_lock, LockMap, lockset, lockset_r, lockset_w}
use krace.Dart.Locks.Depth.{
  IsHeld, depth-add_lock, depth-del_lock, IsHeld-add_lock, IsHeld-del_lock, has-lockset, has-union,
}

-- `add_lock` or `del_lock` of one lock, `n` times
abbrev pub add_times : ℕ → ℕ → LockDepths → LockDepths
add_times zero lock locks = locks
add_times (suc n) lock locks = (add_lock lock (add_times n lock locks)).1

abbrev pub del_times : ℕ → ℕ → LockDepths → LockDepths
del_times zero lock locks = locks
del_times (suc n) lock locks = (del_lock lock (del_times n lock locks)).1

IsHeld-add_times :
    (n lock : ℕ) (locks : LockDepths) → IsHeld locks → IsHeld (add_times n lock locks)
IsHeld-add_times zero lock locks h = h
IsHeld-add_times (suc n) lock locks h = IsHeld-add_lock lock _ (IsHeld-add_times n lock locks h)

IsHeld-del_times :
    (n lock : ℕ) (locks : LockDepths) → IsHeld locks → IsHeld (del_times n lock locks)
IsHeld-del_times zero lock locks h = h
IsHeld-del_times (suc n) lock locks h = IsHeld-del_lock lock _ (IsHeld-del_times n lock locks h)

depth-add_times :
    (n lock other : ℕ) (locks : LockDepths)
    → depth other (add_times n lock locks)
      ≡ (if lock == other then depth other locks + n else depth other locks)
depth-add_times zero lock other locks = ground arith
depth-add_times (suc n) lock other locks =
    ground (
      arith,
      depth-add_lock lock other (add_times n lock locks),
      depth-add_times n lock other locks,
    )

depth-del_times :
    (n lock other : ℕ) (locks : LockDepths)
    → IsHeld locks
    → depth other (del_times n lock locks)
      ≡ (if lock == other then depth other locks - n else depth other locks)
depth-del_times zero lock other locks h = ground arith
depth-del_times (suc n) lock other locks h = ground (
  arith,
  depth-del_lock lock other (del_times n lock locks) (IsHeld-del_times n lock locks h),
  depth-del_times n lock other locks h,
)

-- Where no lock is kept with depth 0 or kept twice: after `n` acquisitions and then `k` releases of a
-- lock that was not held, it is in the lock set exactly if `k` is less than `n`, and any other lock
-- is in the set exactly if it was.
pub lockset_nested :
    (n k lock other : ℕ) (locks : LockDepths)
    → IsHeld locks
    → depth lock locks ≡ 0
    → (has lock (lockset (del_times k lock (add_times n lock locks))) ≡ leb (k + 1) n)
      × (lock ≢ other
          → has other (lockset (del_times k lock (add_times n lock locks)))
            ≡ has other (lockset locks))
lockset_nested n k lock other locks h free =
    let held = IsHeld-add_times n lock locks h in
    let both = IsHeld-del_times k lock _ held in
    (
      rw
          (
            has-lockset lock _ both,
            depth-del_times k lock lock _ held,
            depth-add_times n lock lock locks,
          )
          (ground arith),
      λ ne.
          rw
            (
              has-lockset other _ both,
              depth-del_times k lock other _ held,
              depth-add_times n lock other locks,
              has-lockset other locks h,
            )
            (ground arith),
    )

-- Where no lock is kept with depth 0 or kept twice, the lock set of a read has exactly the locks held
-- for reading or for writing, and that of a write exactly those held for writing.
pub lockset_r_iff :
    (lock : ℕ) (m : LockMap)
    → IsHeld m.locks_r
    → IsHeld m.locks_w
    → ((has lock (lockset_r m) ≡ true) ↔ ((1 ≤ depth lock m.locks_r) ⊎ (1 ≤ depth lock m.locks_w)))
      × ((has lock (lockset_w m) ≡ true) ↔ (1 ≤ depth lock m.locks_w))
unfolding lockset_r lockset_w
lockset_r_iff lock m hr hw =
    rw
      (
        has-union lock (lockset m.locks_r) (lockset m.locks_w),
        has-lockset lock _ hr,
        has-lockset lock _ hw,
      )
      ((λ e. ground arith, λ h. ground arith), (λ e. ground arith, λ h. ground arith))
