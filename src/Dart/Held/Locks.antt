-- ===== src/Dart/Held/Locks.antt =====
-- script/dart.py: the operations of `LockMap` and `TranMap` keep the tables well-formed.
use krace.Prelude.{ℕ}
use krace.Dart.ExecUnit.{Ref}
use krace.Dart.Locks.{
  LockMap, TranMap, add_lock_r, add_lock_w, del_lock_r, del_lock_w, add_tran_r, del_tran_r,
  add_seq_w, del_seq_w,
}
use krace.Dart.Locks.Depth.{IsHeld-add_lock, IsHeld-del_lock}
use krace.Dart.Held.Rules.{AreHeld}

module _ (lock : ℕ) (m : LockMap) (trans : TranMap) (h : AreHeld m trans) where
  pub AreHeld-add_lock_r : AreHeld (add_lock_r lock m).1 trans
  unfolding add_lock_r
  AreHeld-add_lock_r = record {
    readers = IsHeld-add_lock lock _ h.readers;
    writers = h.writers;
    sequences = h.sequences;
  }

  pub AreHeld-add_lock_w : AreHeld (add_lock_w lock m).1 trans
  unfolding add_lock_w
  AreHeld-add_lock_w = record {
    readers = h.readers;
    writers = IsHeld-add_lock lock _ h.writers;
    sequences = h.sequences;
  }

  pub AreHeld-del_lock_r : AreHeld (del_lock_r lock m).1 trans
  unfolding del_lock_r
  AreHeld-del_lock_r = record {
    readers = IsHeld-del_lock lock _ h.readers;
    writers = h.writers;
    sequences = h.sequences;
  }

  pub AreHeld-del_lock_w : AreHeld (del_lock_w lock m).1 trans
  unfolding del_lock_w
  AreHeld-del_lock_w = record {
    readers = h.readers;
    writers = IsHeld-del_lock lock _ h.writers;
    sequences = h.sequences;
  }

  pub AreHeld-add_seq_w : AreHeld m (add_seq_w lock trans).1
  unfolding add_seq_w
  AreHeld-add_seq_w = record {
    readers = h.readers;
    writers = h.writers;
    sequences = IsHeld-add_lock lock _ h.sequences;
  }

  pub AreHeld-del_seq_w : AreHeld m (del_seq_w lock trans).1
  unfolding del_seq_w
  AreHeld-del_seq_w = record {
    readers = h.readers;
    writers = h.writers;
    sequences = IsHeld-del_lock lock _ h.sequences;
  }

  pub AreHeld-add_tran_r : (unit : Ref) → AreHeld m (add_tran_r lock unit trans).1
  unfolding add_tran_r
  AreHeld-add_tran_r unit = record {
    readers = h.readers;
    writers = h.writers;
    sequences = h.sequences;
  }

  pub AreHeld-del_tran_r : (unit : Ref) → AreHeld m (del_tran_r lock unit trans).1
  unfolding del_tran_r
  AreHeld-del_tran_r unit = record {
    readers = h.readers;
    writers = h.writers;
    sequences = h.sequences;
  }

pub ruleset lock_rules = (
  AreHeld-add_lock_r, AreHeld-add_lock_w, AreHeld-del_lock_r, AreHeld-del_lock_w, AreHeld-add_seq_w,
  AreHeld-del_seq_w, AreHeld-add_tran_r, AreHeld-del_tran_r,
)
