-- ===== src/Dart/State.antt =====
-- script/dart.py: the state of `ExecAnalyzer` and of the objects that it keeps.
pub mod Monad
pub mod Notes
pub mod Console
use krace.Prelude.{
  ℕ, Bool, true, false, Option, none, List, [], ◌∷◌, String, ◌==◌, ◌&&◌, ◌≡◌, ◌↔◌, arith,
}
use krace.Prelude.Int.{ℤ, pos}
use krace.Dict.{Dict}
use krace.Dict.Key.{Eq, nat_eq}
use krace.Dart.ExecUnit.{Ref, ExecUnit, Store, create}
use krace.Dart.Locks.{LockMap, TranMap, no_locks, no_trans}
use krace.Dart.Compdb.{ValueFunc}

-- A task owns its current unit; the stack's last function is the innermost.
pub record TaskState : Type 0 where
  pub unit : Ref
  pub nseq : ℕ
  pub last_unit : Option Ref
  pub stack : List ValueFunc
  pub stack_mem : Dict ℕ ℕ
  pub sync_locks : LockMap
  pub sync_trans : TranMap
  pub last_blkid : ℕ

pub record MemAccess : Type 0 where
  pub hval : ℕ
  pub unit : Ref
  pub sync_locks : List ℕ
  pub sync_trans : List ℕ

pub record MemCell : Type 0 where
  pub readers : Dict ℕ (List MemAccess)
  pub writers : Dict ℕ (List MemAccess)

pub record AsyncSlot : Type 0 where
  pub func : ℕ
  pub unit : Ref
  pub others : List Ref
  pub serving : ℕ
  pub host : Option Ref

pub record EventSlot : Type 0 where
  pub func : ℕ
  pub unit : Ref
  pub servers : Dict ℕ (ℕ × Ref)
  pub host : Option Ref

pub record QueueSlot : Type 0 where
  pub units : Dict ℕ Ref

pub record OrderSlot : Type 0 where
  pub objv : ℕ
  pub unit : Ref

pub record RaceAlias : Type 0 where
  pub src : ℕ
  pub dst : ℕ

abbrev same_alias : RaceAlias → RaceAlias → Bool
same_alias a b = a.src == b.src && a.dst == b.dst

pub same_alias_iff : (a b : RaceAlias) → (same_alias a b ≡ true) ↔ (a ≡ b)
same_alias_iff a b = ground arith

instance abbrev pub alias_eq : Eq RaceAlias
alias_eq = record { beq = same_alias; beq_iff = same_alias_iff }

-- One line of the console, before it is laid out as text: the mark that the line begins with, how
-- deep `_tab` indents it, the numbers and the texts that its format takes, in order.
pub record Note : Type 0 where
  pub mark : String
  pub depth : ℕ
  pub numbers : List ℕ
  pub texts : List String

-- `ExecAnalyzer`. `units` is the store that references point into, and `input` what is left to read
-- of the log file.
pub record Analyzer : Type 0 where
  pub units : Store
  pub input : List ℕ
  pub main_ptid : ℤ
  pub tasks : Dict ℕ TaskState
  pub mem_sizes_heap : Dict ℕ ℕ
  pub mem_heaps : Dict ℕ ℕ
  pub mem_sizes_pcpu : Dict ℕ ℕ
  pub mem_pcpus : Dict ℕ ℕ
  pub async_slots : Dict ℕ AsyncSlot
  pub event_slots : Dict ℕ EventSlot
  pub queue_slots : Dict ℕ QueueSlot
  pub order_slots : Dict ℕ OrderSlot
  pub cells : Dict ℕ MemCell
  pub races : Dict RaceAlias ℕ
  pub console : List Note
  pub stats : Dict ℕ (Dict ℕ ℕ)

-- `TaskState.create`, over the unit that it makes
unfoldable pub create_task : Ref → TaskState
create_task unit = record {
  unit = unit;
  nseq = 0;
  last_unit = none;
  stack = [];
  stack_mem = [];
  sync_locks = no_locks;
  sync_trans = no_trans;
  last_blkid = 0;
}

-- `ExecAnalyzer.__init__`, with the log to read: task 0 holds system information.
unfoldable pub init : List ℕ → Analyzer
unfolding create create_task
init input = record {
  units = create 0 ∷ [];
  input = input;
  main_ptid = pos 0;
  tasks = (0, create_task 0) ∷ [];
  mem_sizes_heap = [];
  mem_heaps = [];
  mem_sizes_pcpu = [];
  mem_pcpus = [];
  async_slots = [];
  event_slots = [];
  queue_slots = [];
  order_slots = [];
  cells = [];
  races = [];
  console = [];
  stats = [];
}
