-- ===== src/Dart/Locks/Depth.antt =====
-- script/dart.py: nesting depths of locks. A lock is in the lock set exactly while its depth is
-- positive, as long as no zero depth is stored.
use krace.Prelude.{
  ℕ, ◌+◌, ◌-◌, ◌≤◌, ◌≡◌, refl, ◌⊎◌, inl, inr, true, false, List, [], ◌∷◌, arith, ◌==◌, ==_iff,
  Bool-cases, has, leb, if◌then◌else◌, ◌||◌, union,
}
use krace.Dict.{lookup, insert, erase}
use krace.Dict.Laws.{lookup-insert, lookup-insert_ne, lookup-erase_ne}
use krace.Dict.Key.{nat_eq}
use krace.Dart.Locks.{LockDepths, depth, add_lock, del_lock, lockset}

-- Every entry has a positive depth, and its key stands once.
abbrev pub IsHeld : LockDepths → Type 0
IsHeld [] = Unit
IsHeld ((lock, d) ∷ locks) = (1 ≤ d) × (depth lock locks ≡ 0) × IsHeld locks

-- What one more `add_lock` and one more `del_lock` do to the depth of a lock.
pub depth-add_lock :
    (lock other : ℕ) (locks : LockDepths)
    → depth other (add_lock lock locks).1
      ≡ (if lock == other then depth other locks + 1 else depth other locks)
unfolding depth add_lock
depth-add_lock lock other locks = rw lookup-insert (ground (arith, ==_iff lock other))

lookup-erase_self :
    (lock : ℕ) (locks : LockDepths) → IsHeld locks → depth lock (erase lock locks) ≡ 0
unfolding depth lookup erase
lookup-erase_self lock [] h = refl
lookup-erase_self lock ((j, d) ∷ locks) h = ground (arith, lookup-erase_self lock locks h.2)

-- `del_lock` takes one level off the depth of its lock, down to none, and leaves the others.
pub depth-del_lock :
    (lock other : ℕ) (locks : LockDepths)
    → IsHeld locks
    → depth other (del_lock lock locks).1
      ≡ (if lock == other then depth other locks - 1 else depth other locks)
unfolding del_lock
depth-del_lock lock other locks h = elim (Bool-cases (leb (depth lock locks) 1)) [
  | inl last ↦ rw last (erased (Bool-cases (lock == other)) last)
  | inr more ↦ rw more (unfold depth in rw lookup-insert (ground (arith, ==_iff lock other)))
]
  where
    erased :
        ((lock == other) ≡ true) ⊎ ((lock == other) ≡ false)
        → leb (depth lock locks) 1 ≡ true
        → depth other (erase lock locks)
          ≡ (if lock == other then depth other locks - 1 else depth other locks)
    erased (inl same) last =
        rw (same, ← (==_iff lock other).0 same, lookup-erase_self lock locks h) (ground arith)
    erased (inr differ) last =
        rw differ (unfold depth in rw (lookup-erase_ne lock other locks (ground arith)))

IsHeld-insert :
    (lock d : ℕ) (locks : LockDepths) → 1 ≤ d → IsHeld locks → IsHeld (insert lock d locks)
unfolding insert
IsHeld-insert lock d [] h held = (h, unfold depth lookup in refl, tt)
IsHeld-insert lock d ((j, e) ∷ locks) h held = elim (Bool-cases (j == lock)) [
  | inl same ↦ rw same (h, held.1, held.2)
  | inr differ ↦ rw differ (
    held.0,
    unfold depth in rw (lookup-insert_ne lock j d locks (ground arith)) held.1,
    IsHeld-insert lock d locks h held.2,
  )
]

IsHeld-erase : (lock : ℕ) (locks : LockDepths) → IsHeld locks → IsHeld (erase lock locks)
unfolding erase
IsHeld-erase lock [] held = tt
IsHeld-erase lock ((j, e) ∷ locks) held = elim (Bool-cases (j == lock)) [
  | inl same ↦ rw same held.2
  | inr differ ↦ rw differ (
    held.0,
    unfold depth in rw (lookup-erase_ne lock j locks (ground arith)) held.1,
    IsHeld-erase lock locks held.2,
  )
]

-- Taking and releasing locks keeps the table well formed.
pub IsHeld-add_lock :
    (lock : ℕ) (locks : LockDepths) → IsHeld locks → IsHeld (add_lock lock locks).1
unfolding add_lock
IsHeld-add_lock lock locks held = IsHeld-insert lock _ locks (omega arith) held

pub IsHeld-del_lock :
    (lock : ℕ) (locks : LockDepths) → IsHeld locks → IsHeld (del_lock lock locks).1
unfolding del_lock
IsHeld-del_lock lock locks held = elim (Bool-cases (leb (depth lock locks) 1)) [
  | inl last ↦ rw last (IsHeld-erase lock locks held)
  | inr more ↦ rw more (IsHeld-insert lock _ locks (ground arith) held)
]

pub has-lockset :
    (lock : ℕ) (locks : LockDepths)
    → IsHeld locks
    → has lock (lockset locks) ≡ leb 1 (depth lock locks)
unfolding depth lookup
has-lockset lock [] held = refl
has-lockset lock ((j, e) ∷ locks) held = ground (arith, has-lockset lock locks held.2)

pub has-union : (a : ℕ) (xs ys : List ℕ) → has a (union xs ys) ≡ (has a xs || has a ys)
has-union a [] ys = refl
has-union a (x ∷ xs) ys = ground (arith, has-union a xs ys)
