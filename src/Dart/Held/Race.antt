-- ===== src/Dart/Held/Race.antt =====
-- script/dart.py: the handlers of memory accesses keep the lock tables.
use krace.Prelude.{ℕ, zero, suc, ◌+◌, Bool, true, false, List, [], ◌∷◌, String}
use krace.Dict.{Dict}
use krace.Dart.CtxtType.{LogMeta}
use krace.Dart.State.{TaskState}
use krace.Dart.State.Monad.{M, ⊤}
use krace.Dart.Held.Rules.{Keeps, Keeps-bind, keeps_rules}
use krace.Dart.Compdb.{CompileDatabase}
use krace.Dart.State.{MemAccess, MemCell}
use krace.Dart.Race.{Pairing, read_write, write_write}
use krace.Dart.Race.{
  put_cell, note_side, record_race, race_blacklist, is_ordered, is_unexcused, is_unlocked, is_race,
  check_task, check_tasks, is_private, read_cell, log_mem_cell_reader, write_cell,
  log_mem_cell_writer, chk_exec_inst_on_stack, each_byte, log_mem_read, log_mem_write,
}
use krace.Dart.Held.Notes.{notes_rules}

pub put_cell-Keeps : (addr : ℕ) (cell : MemCell) → Keeps (put_cell addr cell)
unfolding put_cell
put_cell-Keeps addr cell = search keeps_rules depth 12

pub note_side-Keeps :
    (db : CompileDatabase) (limit : ℕ) (mark : String) (t : TaskState) (a : MemAccess)
    → Keeps (note_side db limit mark t a)
unfolding note_side
note_side-Keeps db limit mark t a = search (keeps_rules, notes_rules) depth 12

pub record_race-Keeps :
    (db : CompileDatabase) (limit : ℕ) (t : TaskState) (a1 : MemAccess) (a2 : MemAccess) (addr : ℕ)
    → Keeps (record_race db limit t a1 a2 addr)
unfolding record_race
record_race-Keeps db limit t a1 a2 addr =
    search (keeps_rules, notes_rules, note_side-Keeps) depth 12

pub race_blacklist-Keeps :
    (db : CompileDatabase) (limit : ℕ) (a1 : MemAccess) (a2 : MemAccess)
    → Keeps (race_blacklist db limit a1 a2)
unfolding race_blacklist
race_blacklist-Keeps db limit a1 a2 = search keeps_rules depth 12

pub is_ordered-Keeps :
    (db : CompileDatabase) (limit : ℕ) (another : MemAccess) (access : MemAccess)
    → Keeps (is_ordered db limit another access)
unfolding is_ordered
is_ordered-Keeps db limit another access = search keeps_rules depth 12

pub is_unexcused-Keeps :
    (db : CompileDatabase) (limit : ℕ) (x : Pairing) (another : MemAccess) (access : MemAccess)
    → Keeps (is_unexcused db limit x another access)
unfolding is_unexcused
is_unexcused-Keeps db limit write_write another access =
    search (keeps_rules, race_blacklist-Keeps) depth 12
is_unexcused-Keeps db limit read_write another access =
    search (keeps_rules, race_blacklist-Keeps) depth 12

pub is_unlocked-Keeps :
    (db : CompileDatabase) (limit : ℕ) (pairing : Pairing) (another : MemAccess)
    (access : MemAccess) (b : Bool)
    → Keeps (is_unlocked db limit pairing another access b)
unfolding is_unlocked
is_unlocked-Keeps db limit pairing another access true =
    search (keeps_rules, is_unexcused-Keeps) depth 12
is_unlocked-Keeps db limit pairing another access false =
    search (keeps_rules, is_unexcused-Keeps) depth 12

pub is_race-Keeps :
    (db : CompileDatabase) (limit : ℕ) (pairing : Pairing) (meta : LogMeta) (access : MemAccess)
    (another : MemAccess)
    → Keeps (is_race db limit pairing meta access another)
unfolding is_race
is_race-Keeps db limit pairing meta access another =
    search (keeps_rules, is_ordered-Keeps, is_unlocked-Keeps) depth 12

pub check_task-Keeps :
    (db : CompileDatabase) (limit : ℕ) (pairing : Pairing) (meta : LogMeta) (t : TaskState)
    (access : MemAccess) (addr : ℕ) (ptid : ℕ) (vals : List MemAccess)
    → Keeps (check_task db limit pairing meta t access addr ptid vals)
unfolding check_task
check_task-Keeps db limit pairing meta t access addr ptid vals =
    search (keeps_rules, notes_rules, record_race-Keeps, is_race-Keeps) depth 12

pub check_tasks-Keeps :
    (db : CompileDatabase) (limit : ℕ) (pairing : Pairing) (meta : LogMeta) (t : TaskState)
    (access : MemAccess) (addr : ℕ) (x : Dict ℕ (List MemAccess))
    → Keeps (check_tasks db limit pairing meta t access addr x)
unfolding check_tasks
check_tasks-Keeps db limit pairing meta t access addr [] =
    search (keeps_rules, check_task-Keeps) depth 12
check_tasks-Keeps db limit pairing meta t access addr ((ptid, vals) ∷ d) =
    Keeps-bind _ _ (search (keeps_rules, check_task-Keeps) depth 12) (λ _.
      search
        (keeps_rules, (check_tasks-Keeps db limit pairing meta t access addr d), check_task-Keeps)
        depth 12)

pub is_private-Keeps :
    (db : CompileDatabase) (limit : ℕ) (addr : ℕ) (t : TaskState)
    → Keeps (is_private db limit addr t)
unfolding is_private
is_private-Keeps db limit addr t = search keeps_rules depth 12

pub read_cell-Keeps :
    (db : CompileDatabase) (limit : ℕ) (meta : LogMeta) (t : TaskState) (addr : ℕ)
    → Keeps (read_cell db limit meta t addr)
unfolding read_cell
read_cell-Keeps db limit meta t addr =
    search (keeps_rules, put_cell-Keeps, check_tasks-Keeps) depth 12

pub log_mem_cell_reader-Keeps :
    (db : CompileDatabase) (limit : ℕ) (meta : LogMeta) (addr : ℕ)
    → Keeps (log_mem_cell_reader db limit meta addr)
unfolding log_mem_cell_reader
log_mem_cell_reader-Keeps db limit meta addr =
    search (keeps_rules, is_private-Keeps, read_cell-Keeps) depth 12

pub write_cell-Keeps :
    (db : CompileDatabase) (limit : ℕ) (meta : LogMeta) (t : TaskState) (addr : ℕ)
    → Keeps (write_cell db limit meta t addr)
unfolding write_cell
write_cell-Keeps db limit meta t addr =
    search (keeps_rules, put_cell-Keeps, check_tasks-Keeps) depth 12

pub log_mem_cell_writer-Keeps :
    (db : CompileDatabase) (limit : ℕ) (meta : LogMeta) (addr : ℕ)
    → Keeps (log_mem_cell_writer db limit meta addr)
unfolding log_mem_cell_writer
log_mem_cell_writer-Keeps db limit meta addr =
    search (keeps_rules, is_private-Keeps, write_cell-Keeps) depth 12

pub chk_exec_inst_on_stack-Keeps :
    (db : CompileDatabase) (limit : ℕ) (meta : LogMeta) (t : TaskState)
    → Keeps (chk_exec_inst_on_stack db limit meta t)
unfolding chk_exec_inst_on_stack
chk_exec_inst_on_stack-Keeps db limit meta t = search keeps_rules depth 12

pub each_byte-Keeps :
    (db : CompileDatabase) (limit : ℕ) (access : ℕ → M ⊤)
    → ((a : ℕ) → Keeps (access a))
    → (addr x : ℕ) → Keeps (each_byte db limit access addr x)
unfolding each_byte
each_byte-Keeps db limit access keeps addr zero = search keeps_rules
each_byte-Keeps db limit access keeps addr (suc n) =
    Keeps-bind _ _ (keeps addr) (λ _. each_byte-Keeps db limit access keeps (addr + 1) n)

pub log_mem_read-Keeps :
    (db : CompileDatabase) (limit : ℕ) (meta : LogMeta) (addr : ℕ) (size : ℕ)
    → Keeps (log_mem_read db limit meta addr size)
unfolding log_mem_read
log_mem_read-Keeps db limit meta addr size =
    search
      (
        keeps_rules, notes_rules, log_mem_cell_reader-Keeps, chk_exec_inst_on_stack-Keeps,
        each_byte-Keeps,
      )
      depth 12

pub log_mem_write-Keeps :
    (db : CompileDatabase) (limit : ℕ) (meta : LogMeta) (addr : ℕ) (size : ℕ)
    → Keeps (log_mem_write db limit meta addr size)
unfolding log_mem_write
log_mem_write-Keeps db limit meta addr size =
    search
      (
        keeps_rules, notes_rules, log_mem_cell_writer-Keeps, chk_exec_inst_on_stack-Keeps,
        each_byte-Keeps,
      )
      depth 12

pub ruleset race_rules = (
  put_cell-Keeps, note_side-Keeps, record_race-Keeps, race_blacklist-Keeps, is_ordered-Keeps,
  is_unexcused-Keeps, is_unlocked-Keeps, is_race-Keeps, check_task-Keeps, check_tasks-Keeps,
  is_private-Keeps, read_cell-Keeps, log_mem_cell_reader-Keeps, write_cell-Keeps,
  log_mem_cell_writer-Keeps, chk_exec_inst_on_stack-Keeps, each_byte-Keeps, log_mem_read-Keeps,
  log_mem_write-Keeps,
)
