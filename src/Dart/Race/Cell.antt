-- ===== src/Dart/Race/Cell.antt =====
-- script/dart.py: `_log_mem_cell_reader` and `_log_mem_cell_writer` as a whole: which races an access
-- counts, and what its cell holds afterwards.
use krace.Prelude.{ℕ, ◌≡◌, refl, false, ◌||◌, some, List, [], ◌∷◌, ◌++◌, length, get_elem?}
use krace.Dict.{lookup, insert, contains}
use krace.Dict.Laws.{lookup-insert_self}
use krace.Dict.Key.{nat_eq}
use krace.Dart.CtxtType.{LogMeta}
use krace.Dart.ExecUnit.{Ref, ExecUnit}
use krace.Dart.Locks.{lockset_r, lockset_w, transet_r, transet_w}
use krace.Dart.Compdb.{CompileDatabase}
use krace.Dart.State.{Analyzer, TaskState, MemAccess, MemCell, Note}
use krace.Dart.State.Monad.{
  done, pure, gets, modify, when, fetch, or_raise, load, alloc, clone, get_task, ◌>>=◌,
}
use krace.Dart.Race.{
  read_write, write_write, or_new, or_nil, open_log, add_access, put_cell, is_private, read_cell,
  write_cell, check_tasks, log_mem_cell_reader, log_mem_cell_writer,
}
use krace.Dart.Race.Own.{AreCheckable-insert, Races-insert}
use krace.Dart.Race.Loop.{AreCheckable, Races, count_all, check_tasks-Races}

abbrev pub cell_at : ℕ → Analyzer → MemCell
cell_at addr s = or_new (lookup addr s.cells)

-- The access that a read, or a write, of the task logs: its unit is a copy, made last
abbrev pub read_access : LogMeta → TaskState → Analyzer → MemAccess
read_access meta t s = record {
  hval = meta.hval;
  unit = length s.units;
  sync_locks = lockset_r t.sync_locks;
  sync_trans = transet_r t.sync_trans;
}

abbrev pub write_access : LogMeta → TaskState → Analyzer → MemAccess
write_access meta t s = record {
  hval = meta.hval;
  unit = length s.units;
  sync_locks = lockset_w t.sync_locks;
  sync_trans = transet_w t.sync_trans;
}

-- The task runs on unit `u`, and the address is neither on its stack nor per-CPU.
pub record IsShared (meta : LogMeta) (addr : ℕ) (s : Analyzer) (t : TaskState) (u : ExecUnit)
    : Type 0 where
  pub task_known : lookup meta.ptid s.tasks ≡ some t
  pub unit_known : get_elem? s.units t.unit ≡ some u
  pub shared : (contains addr t.stack_mem || contains addr s.mem_pcpus) ≡ false

module _ (db : CompileDatabase) (limit : ℕ) (rank : Ref → ℕ) (meta : LogMeta) (addr : ℕ)
    (s : Analyzer) (t : TaskState) (u : ExecUnit) where
  -- A read of an address that is neither on the task's stack nor per-CPU returns, when the last
  -- write of every other task in the cell can be compared and reported: it counts exactly the races
  -- with these writes, in their order, leaves the cell's writes as they are, and is added behind the task's
  -- reads of the cell.
  pub log_mem_cell_reader-Races :
      IsShared meta addr s t u
      → AreCheckable db limit
          (s.units ++ u ∷ [])
          rank
          meta
          (read_access meta t s)
          (cell_at addr s).writers
      → (others : List MemAccess) × (s' : Analyzer) × Races db
          (s.units ++ u ∷ [])
          read_write
          meta
          (read_access meta t s)
          (cell_at addr s).writers
          others
        × (log_mem_cell_reader db limit meta addr s ≡ done tt s')
        × (s'.races ≡ count_all (read_access meta t s) others s.races)
        × ((cell_at addr s').writers ≡ (cell_at addr s).writers)
        × (or_nil (lookup meta.ptid (cell_at addr s').readers)
            ≡ or_nil (lookup meta.ptid (cell_at addr s).readers) ++ read_access meta t s ∷ [])
  log_mem_cell_reader-Races shared h =
      let (others, lines, r, run) =
        check_tasks-Races db limit rank read_write meta t (read_access meta t s) addr
          (cell_at addr s).writers opened h in
      (
        others,
        final others lines,
        r,
        steps others lines run,
        refl,
        rw lookup-insert_self,
        unfold add_access open_log in simp lookup-insert_self,
      )
    where
      mine : MemCell
      mine = record (cell_at addr s) { readers = open_log meta.ptid (cell_at addr s).readers }

      opened : Analyzer
      opened = record s { cells = insert addr mine s.cells; units = s.units ++ u ∷ [] }

      final : List MemAccess → List Note → Analyzer
      final others lines = record opened {
        console = lines;
        races = count_all (read_access meta t s) others s.races;
        cells =
            insert addr
              (record mine { readers = add_access meta.ptid (read_access meta t s) mine.readers })
              opened.cells;
      }

      steps :
          (others : List MemAccess) (lines : List Note)
          → check_tasks db limit read_write meta t
              (read_access meta t s)
              addr
              (cell_at addr s).writers
              opened
            ≡ done tt (record opened {
              console = lines;
              races = count_all (read_access meta t s) others s.races;
            })
          → log_mem_cell_reader db limit meta addr s ≡ done tt (final others lines)
      steps others lines run =
          unfold log_mem_cell_reader get_task fetch or_raise pure is_private gets when read_cell
            put_cell modify clone load alloc ◌>>=◌ in
          rw (shared.task_known, shared.shared, shared.unit_known, run)

  -- A write to an address that is neither on the task's stack nor per-CPU returns, when the last
  -- read and the last write of every other task in the cell can be compared and reported: it counts
  -- exactly the races with these reads, which transactions and the blacklist may excuse, then those with these
  -- writes, which neither excuses, leaves the cell's reads as they are, and is added behind the
  -- task's writes of the cell.
  pub log_mem_cell_writer-Races :
      IsShared meta addr s t u
      → AreCheckable db limit
          (s.units ++ u ∷ [])
          rank
          meta
          (write_access meta t s)
          (cell_at addr s).readers
      → AreCheckable db limit
          (s.units ++ u ∷ [])
          rank
          meta
          (write_access meta t s)
          (cell_at addr s).writers
      → (reads : List MemAccess) × (writes : List MemAccess) × (s' : Analyzer) × Races db
          (s.units ++ u ∷ [])
          read_write
          meta
          (write_access meta t s)
          (cell_at addr s).readers
          reads
        × Races db
            (s.units ++ u ∷ [])
            write_write
            meta
            (write_access meta t s)
            (cell_at addr s).writers
            writes
        × (log_mem_cell_writer db limit meta addr s ≡ done tt s')
        × (s'.races
            ≡ count_all
                (write_access meta t s)
                writes
                (count_all (write_access meta t s) reads s.races))
        × ((cell_at addr s').readers ≡ (cell_at addr s).readers)
        × (or_nil (lookup meta.ptid (cell_at addr s').writers)
            ≡ or_nil (lookup meta.ptid (cell_at addr s).writers) ++ write_access meta t s ∷ [])
  log_mem_cell_writer-Races shared hr hw =
      let (reads, first, rr, run) =
        check_tasks-Races db limit rank read_write meta t (write_access meta t s) addr
          (cell_at addr s).readers opened hr in
      let (writes, lines, rw', run') =
        check_tasks-Races db limit rank write_write meta t (write_access meta t s) addr mine.writers
          (read_done reads first)
          (unfold open_log in
            AreCheckable-insert meta (write_access meta t s) _ db limit (s.units ++ u ∷ []) rank
              (cell_at addr s).writers hw) in
      (
        reads,
        writes,
        final reads writes lines,
        rr,
        unfold open_log in
            Races-insert meta (write_access meta t s) _ db (s.units ++ u ∷ []) write_write
              (cell_at addr s).writers writes rw',
        steps reads writes first lines run run',
        refl,
        rw lookup-insert_self,
        unfold add_access open_log in simp lookup-insert_self,
      )
    where
      mine : MemCell
      mine = record (cell_at addr s) { writers = open_log meta.ptid (cell_at addr s).writers }

      opened : Analyzer
      opened = record s { cells = insert addr mine s.cells; units = s.units ++ u ∷ [] }

      read_done : List MemAccess → List Note → Analyzer
      read_done reads first = record opened {
        console = first;
        races = count_all (write_access meta t s) reads s.races;
      }

      final : List MemAccess → List MemAccess → List Note → Analyzer
      final reads writes lines = record opened {
        console = lines;
        races =
            count_all (write_access meta t s) writes
              (count_all (write_access meta t s) reads s.races);
        cells =
            insert addr
              (record mine { writers = add_access meta.ptid (write_access meta t s) mine.writers })
              opened.cells;
      }

      steps :
          (reads writes : List MemAccess) (first lines : List Note)
          → check_tasks db limit read_write meta t
              (write_access meta t s)
              addr
              (cell_at addr s).readers
              opened
            ≡ done tt (read_done reads first)
          → check_tasks db limit write_write meta t
              (write_access meta t s)
              addr
              mine.writers
              (read_done reads first)
            ≡ done tt (record (read_done reads first) {
              console = lines;
              races =
                  count_all
                    (write_access meta t s)
                    writes
                    (count_all (write_access meta t s) reads s.races);
            })
          → log_mem_cell_writer db limit meta addr s ≡ done tt (final reads writes lines)
      steps reads writes first lines run run' =
          unfold log_mem_cell_writer get_task fetch or_raise pure is_private gets when write_cell
            put_cell modify clone load alloc ◌>>=◌ in
          rw (shared.task_known, shared.shared, shared.unit_known, run, run')
