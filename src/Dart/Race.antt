-- ===== src/Dart/Race.antt =====
-- script/dart.py: a memory access is logged in its cell and compared with the last access of every
-- other task: `_log_mem_cell_reader`, `_log_mem_cell_writer`, `_record_race`, `race_blacklist`.
pub mod Verdict
pub mod Loop
pub mod Own
pub mod Cell
use krace.Prelude.{
  ℕ, zero, suc, ◌+◌, Bool, true, false, ◌&&◌, ◌||◌, not, Option, none, some, List, [], ◌∷◌, ◌++◌,
  String, ◌==◌, if◌then◌else◌, intersection, is_empty,
}
use krace.Dict.{Dict, contains, insert, lookup}
use krace.Dict.Key.{nat_eq}
use krace.Dart.CtxtType.{LogMeta, from_ptid, is_interrupt, ctxt}
use krace.Dart.ExecUnit.{Ref, ExecUnit, happens_before}
use krace.Dart.Locks.{lockset_r, lockset_w, transet_r, transet_w}
use krace.Dart.Compdb.{
  CompileDatabase, ValueInst, ValueFunc, ValueBlock, get_locs, load_source, mentions,
}
use krace.Dart.State.{Analyzer, TaskState, MemAccess, MemCell, RaceAlias, alias_eq}
use krace.Dart.State.Monad.{
  M, ⊤, Failure, recursion_error, source_error, pure, gets, modify, check, when, fetch, fetch_last,
  or_raise, load, clone, get_task, ◌>>=◌, ◌>>◌,
}
use krace.Dart.State.Notes.{record_note, tab, ctxt_name, record_mem_reader, record_mem_writer}

-- `RACE_BLACKLIST`
abbrev pub race_blacklisted : List String
race_blacklisted =
    "<placeholder>" ∷ "kernel/linux/fs/btrfs/block-group.c:404:2"
    ∷ "kernel/linux/fs/btrfs/block-rsv.c:195:52" ∷ []

-- Transactions of sequence locks excuse a race of a reader with a writer, not of two writers.
pub data Pairing : Type 0 where
  read_write write_write : Pairing

abbrev pub or_none : Option ℕ → ℕ
or_none none = 0
or_none (some n) = n

-- `self.races[pair] += 1`, or `= 1` at first
unfoldable pub count_race : RaceAlias → Dict RaceAlias ℕ → Dict RaceAlias ℕ
count_race pair races = insert pair (or_none (lookup pair races) + 1) races

abbrev pub or_new : Option MemCell → MemCell
or_new none = record { readers = []; writers = [] }
or_new (some cell) = cell

abbrev pub or_nil : Option (List MemAccess) → List MemAccess
or_nil none = []
or_nil (some accesses) = accesses

-- `if ptid not in d: d[ptid] = []`
unfoldable pub open_log : ℕ → Dict ℕ (List MemAccess) → Dict ℕ (List MemAccess)
open_log ptid d = insert ptid (or_nil (lookup ptid d)) d

-- `d[ptid].append(access)`, after `open_log`
unfoldable pub add_access : ℕ → MemAccess → Dict ℕ (List MemAccess) → Dict ℕ (List MemAccess)
add_access ptid access d = insert ptid (or_nil (lookup ptid d) ++ access ∷ []) d

unfoldable pub put_cell : ℕ → MemCell → M ⊤
put_cell addr cell = modify (λ s. record s { cells = insert addr cell s.cells })

module _ (db : CompileDatabase) (limit : ℕ) where
  -- A side of the report; the line is recorded where the source of the instruction can be read.
  unfoldable pub note_side : String → TaskState → MemAccess → M ⊤
  note_side mark t a = do
    inst ← fetch a.hval db.insts
    u ← load a.unit
    source ← or_raise source_error (load_source db inst)
    record_note (record {
      mark = mark;
      depth = tab t.stack;
      numbers = u.ptid ∷ u.seq ∷ u.clk ∷ a.hval ∷ [];
      texts =
          ctxt_name (from_ptid u.ptid)
          ∷ inst.parent.parent.name
          ∷ get_locs inst
          ∷ source
          ∷ inst.text
          ∷ [];
    })

  -- `_record_race`
  unfoldable pub record_race : TaskState → MemAccess → MemAccess → ℕ → M ⊤
  record_race t a1 a2 addr = do
    u1 ← load a1.unit
    u2 ← load a2.unit
    record_note (record {
      mark = "[*] RACE";
      depth = tab t.stack;
      numbers =
          u1.ptid ∷ u1.seq ∷ u1.clk ∷ u2.ptid ∷ u2.seq ∷ u2.clk ∷ a1.hval ∷ a2.hval ∷ addr ∷ [];
      texts = [];
    })
    note_side "[*] SRC:" t a1
    note_side "[*] DST:" t a2
    modify (λ s. record s { races = count_race (record { src = a1.hval; dst = a2.hval }) s.races })

  -- `race_blacklist`
  unfoldable pub race_blacklist : MemAccess → MemAccess → M Bool
  race_blacklist a1 a2 = do
    i1 ← fetch a1.hval db.insts
    i2 ← fetch a2.hval db.insts
    pure (mentions race_blacklisted (get_locs i1) || mentions race_blacklisted (get_locs i2))

  -- `another.unit.happens_before(access.unit)`
  unfoldable pub is_ordered : MemAccess → MemAccess → M Bool
  is_ordered another access = do
    this ← load another.unit
    units ← gets (λ s. s.units)
    or_raise recursion_error (happens_before limit units this access.unit)

  -- No locks and no happens-before: what still excuses the pair
  unfoldable pub is_unexcused : Pairing → MemAccess → MemAccess → M Bool
  is_unexcused write_write another access = pure true
  is_unexcused read_write another access =
      if is_empty (intersection another.sync_trans access.sync_trans)
      then (do listed ← race_blacklist another access; pure (not listed))
      else pure false

  unfoldable pub is_unlocked : Pairing → MemAccess → MemAccess → Bool → M Bool
  is_unlocked pairing another access true = pure false
  is_unlocked pairing another access false =
      if is_empty (intersection another.sync_locks access.sync_locks)
      then is_unexcused pairing another access
      else pure false

  -- The tests of the loop's body, in the order of its `continue`s
  unfoldable pub is_race : Pairing → LogMeta → MemAccess → MemAccess → M Bool
  is_race pairing meta access another = do
    u ← load another.unit
    if is_interrupt (ctxt meta) && is_interrupt (from_ptid u.ptid)
        then pure false
        else (do ordered ← is_ordered another access; is_unlocked pairing another access ordered)

  -- One round: a task does not race against itself.
  unfoldable pub check_task :
      Pairing → LogMeta → TaskState → MemAccess → ℕ → ℕ → List MemAccess → M ⊤
  check_task pairing meta t access addr ptid vals = if ptid == meta.ptid then pure tt else (do
    another ← fetch_last vals
    race ← is_race pairing meta access another
    when race (record_race t another access addr))

  -- `for ptid, vals in cell.writers.items()`, and so for the readers
  unfoldable pub check_tasks :
      Pairing → LogMeta → TaskState → MemAccess → ℕ → Dict ℕ (List MemAccess) → M ⊤
  check_tasks pairing meta t access addr [] = pure tt
  check_tasks pairing meta t access addr ((ptid, vals) ∷ d) = do
    check_task pairing meta t access addr ptid vals
    check_tasks pairing meta t access addr d

  -- Accesses to the task's own stack and to per-CPU memory are ignored.
  unfoldable pub is_private : ℕ → TaskState → M Bool
  is_private addr t = gets (λ s. contains addr t.stack_mem || contains addr s.mem_pcpus)

  unfoldable pub read_cell : LogMeta → TaskState → ℕ → M ⊤
  read_cell meta t addr = do
    known ← gets (λ s. or_new (lookup addr s.cells))
    let cell : MemCell = record known { readers = open_log meta.ptid known.readers }
    put_cell addr cell
    unit ← clone t.unit
    let access : MemAccess = record {
      hval = meta.hval;
      unit = unit;
      sync_locks = lockset_r t.sync_locks;
      sync_trans = transet_r t.sync_trans;
    }
    check_tasks read_write meta t access addr cell.writers
    put_cell addr (record cell { readers = add_access meta.ptid access cell.readers })

  -- `_log_mem_cell_reader`
  unfoldable pub log_mem_cell_reader : LogMeta → ℕ → M ⊤
  log_mem_cell_reader meta addr = do
    t ← get_task meta.ptid
    private ← is_private addr t
    when (not private) (read_cell meta t addr)

  unfoldable pub write_cell : LogMeta → TaskState → ℕ → M ⊤
  write_cell meta t addr = do
    known ← gets (λ s. or_new (lookup addr s.cells))
    let cell : MemCell = record known { writers = open_log meta.ptid known.writers }
    put_cell addr cell
    unit ← clone t.unit
    let access : MemAccess = record {
      hval = meta.hval;
      unit = unit;
      sync_locks = lockset_w t.sync_locks;
      sync_trans = transet_w t.sync_trans;
    }
    check_tasks read_write meta t access addr cell.readers
    check_tasks write_write meta t access addr cell.writers
    put_cell addr (record cell { writers = add_access meta.ptid access cell.writers })

  -- `_log_mem_cell_writer`
  unfoldable pub log_mem_cell_writer : LogMeta → ℕ → M ⊤
  log_mem_cell_writer meta addr = do
    t ← get_task meta.ptid
    private ← is_private addr t
    when (not private) (write_cell meta t addr)

  -- `_chk_exec_inst_on_stack`
  unfoldable pub chk_exec_inst_on_stack : LogMeta → TaskState → M ⊤
  chk_exec_inst_on_stack meta t = do
    inst ← fetch meta.hval db.insts
    top ← fetch_last t.stack
    check (top.hval == inst.parent.parent.hval) "operation corrupted stack"

  -- `for i in range(size)`, with the number of rounds left and the next address
  unfoldable pub each_byte : (ℕ → M ⊤) → ℕ → ℕ → M ⊤
  each_byte access addr zero = pure tt
  each_byte access addr (suc n) = do access addr; each_byte access (addr + 1) n

  unfoldable pub log_mem_read : LogMeta → ℕ → ℕ → M ⊤
  log_mem_read meta addr size = do
    t ← get_task meta.ptid
    chk_exec_inst_on_stack meta t
    record_mem_reader meta t addr size
    each_byte (log_mem_cell_reader meta) addr size

  unfoldable pub log_mem_write : LogMeta → ℕ → ℕ → M ⊤
  log_mem_write meta addr size = do
    t ← get_task meta.ptid
    chk_exec_inst_on_stack meta t
    record_mem_writer meta t addr size
    each_byte (log_mem_cell_writer meta) addr size
