-- ===== src/Dart/Tests/Races.antt =====
-- A task reads and writes a cell that another task has written to, with no lock held.
use krace.Prelude.{
  ℕ, zero, suc, ◌≡◌, refl, ap, ◌∙◌, ◌<◌, ◌≤◌, ◌⊎◌, ◌++◌, none, some, List, [], ◌∷◌, arith,
  get_elem?,
}
use mathlib.Core.Path.{subst}
use krace.Dict.{lookup, contains}
use krace.Dict.Key.{nat_eq}
use krace.Dart.CtxtType.{LogMeta}
use krace.Dart.ExecUnit.{Ref, ExecUnit, Store, coordinate}
use krace.Dart.ExecUnit.Before.{
  IsDep, HappensBefore, in_task, by_base, by_dep, IsRanked, IsCoherent,
}
use krace.Dart.Compdb.{CompileDatabase, ValueFunc, ValueInst, load_source}
use krace.Dart.State.{Analyzer, TaskState, MemAccess, init, create_task}
use krace.Dart.State.Monad.{done}
use krace.Dart.Race.{read_write, write_write, or_nil, log_mem_cell_reader, log_mem_cell_writer}
use krace.Dart.Race.Verdict.{IsComparable}
use krace.Dart.Race.Loop.{IsCheckable, Races, count_all}
use krace.Dart.Race.Cell.{
  cell_at, read_access, write_access, IsShared, log_mem_cell_reader-Races,
  log_mem_cell_writer-Races,
}

abbrev unit_of : ℕ → ExecUnit
unit_of ptid = record { ptid = ptid; ctxt = none; base = none; seq = 1; clk = 1; deps = [] }

-- The store once the access has copied its unit
abbrev units : Store
units = unit_of 7 ∷ unit_of 9 ∷ unit_of 9 ∷ []

abbrev func : ValueFunc
func = record { hval = 30; name = "btrfs_sync_file" }

abbrev inst_at : ℕ → ValueInst
inst_at hval = record {
  hval = hval;
  info = "fs/btrfs/file.c:10:2" ∷ [];
  text = "store";
  parent = record { hval = 20; parent = func };
}

abbrev db : CompileDatabase
db = record {
  read_source = λ loc. some "x = 1;";
  insts = (1, inst_at 1) ∷ (2, inst_at 2) ∷ [];
  funcs = [];
  blocks = [];
}

abbrev written : MemAccess
written = record { hval = 1; unit = 0; sync_locks = []; sync_trans = [] }

abbrev task_on : Ref → TaskState
task_on unit = record (create_task unit) { unit = unit }

abbrev state : Analyzer
state = record (init []) {
  units = unit_of 7 ∷ unit_of 9 ∷ [];
  tasks = (7, task_on 0) ∷ (9, task_on 1) ∷ [];
  cells = (100, record { readers = []; writers = (7, written ∷ []) ∷ [] }) ∷ [];
}

abbrev meta : LogMeta
meta = record { info = 0; ptid = 9; hval = 2 }

abbrev index : Ref → ℕ
index r = r

-- No unit has a base or a dependency.
bare : (r : Ref) (u : ExecUnit) → get_elem? units r ≡ some u → (u.base ≡ none) × (u.deps ≡ [])
bare zero u e = (ground arith, ground arith)
bare (suc zero) u e = (ground arith, ground arith)
bare (suc (suc zero)) u e = (ground arith, ground arith)
bare (suc (suc (suc r))) u e = cc

no_dep : (dep : Ref) → IsDep dep [] → ⊥
no_dep dep i = elim i [ ]

IsRanked-units : IsRanked units index
IsRanked-units = record {
  base_ranked = λ r u base e b. cc ((bare r u e).0, b);
  dep_ranked = λ r u dep e i. absurd (no_dep dep (subst (λ d. IsDep dep d) (bare r u e).1 i));
}

IsCoherent-units : IsCoherent units (unit_of 7)
IsCoherent-units = record { same_past = same }
  where
    moved :
        (r : Ref) (u w : ExecUnit) → get_elem? units r ≡ some u → get_elem? units r ≡ some w → w ≡ u
    moved r u w eu ew = cc

    same :
        (r q : Ref) (u v : ExecUnit)
        → get_elem? units r ≡ some u
        → get_elem? units q ≡ some v
        → coordinate u ≡ coordinate v
        → HappensBefore units (unit_of 7) r
        → HappensBefore units (unit_of 7) q
    same r q u v eu ev ec (in_task w ew p o) =
        let c : coordinate w ≡ coordinate v = ap coordinate (moved r u w eu ew) ∙ ec in
        in_task v ev (p ∙ unfold coordinate in ap (λ c. c.ptid) c)
          (unfold coordinate in subst (λ c. (1 < c.seq) ⊎ ((1 ≡ c.seq) × (1 ≤ c.clk))) c o)
    same r q u v eu ev ec (by_base w base ew n eb h) = cc ((bare r w ew).0, eb)
    same r q u v eu ev ec (by_dep w dep ew n i h) =
        absurd (no_dep dep (subst (λ d. IsDep dep d) (bare r w ew).1 i))

comparable :
    IsComparable db 10 units index
      (read_access meta (task_on 1) state)
      written
      (unit_of 7)
      (inst_at 1)
      (inst_at 2)
unfolding lookup load_source
comparable = record {
  found = record { unit_known = refl; inst_known = refl; access_known = refl };
  inst_source = (_, refl);
  access_source = (_, refl);
  ranked = IsRanked-units;
  coherent = IsCoherent-units;
  current = (unit_of 9, refl);
  within = omega arith;
}

shared : IsShared meta 100 state (task_on 1) (unit_of 9)
unfolding lookup contains create_task init
shared = record { task_known = refl; unit_known = refl; shared = refl }

entry : IsCheckable db 10 units index meta (read_access meta (task_on 1) state) 7 (written ∷ [])
entry = IsCheckable.other (omega arith) written (unit_of 7) (inst_at 1) (inst_at 2) refl comparable

log_mem_cell_reader-Races_example :
    (others : List MemAccess) × (s' : Analyzer) × Races db units read_write meta
      (read_access meta (task_on 1) state)
      (cell_at 100 state).writers
      others
    × (log_mem_cell_reader db 10 meta 100 state ≡ done tt s')
    × (s'.races ≡ count_all (read_access meta (task_on 1) state) others state.races)
    × ((cell_at 100 s').writers ≡ (cell_at 100 state).writers)
    × (or_nil (lookup 9 (cell_at 100 s').readers)
        ≡ or_nil (lookup 9 (cell_at 100 state).readers) ++ read_access meta (task_on 1) state ∷ [])
log_mem_cell_reader-Races_example =
    log_mem_cell_reader-Races db 10 index meta 100 state (task_on 1) (unit_of 9) shared
      (unfold lookup in (entry, tt))

written_entry :
    IsCheckable db 10 units index meta (write_access meta (task_on 1) state) 7 (written ∷ [])
unfolding lookup load_source
written_entry =
    IsCheckable.other (omega arith) written (unit_of 7) (inst_at 1) (inst_at 2) refl (record {
      found = record { unit_known = refl; inst_known = refl; access_known = refl };
      inst_source = (_, refl);
      access_source = (_, refl);
      ranked = IsRanked-units;
      coherent = IsCoherent-units;
      current = (unit_of 9, refl);
      within = omega arith;
    })

log_mem_cell_writer-Races_example :
    (reads : List MemAccess) × (writes : List MemAccess) × (s' : Analyzer) × Races db units
      read_write meta
      (write_access meta (task_on 1) state)
      (cell_at 100 state).readers
      reads
    × Races db units write_write meta
        (write_access meta (task_on 1) state)
        (cell_at 100 state).writers
        writes
    × (log_mem_cell_writer db 10 meta 100 state ≡ done tt s')
    × (s'.races
        ≡ count_all
            (write_access meta (task_on 1) state)
            writes
            (count_all (write_access meta (task_on 1) state) reads state.races))
    × ((cell_at 100 s').readers ≡ (cell_at 100 state).readers)
    × (or_nil (lookup 9 (cell_at 100 s').writers)
        ≡ or_nil (lookup 9 (cell_at 100 state).writers) ++ write_access meta (task_on 1) state ∷ [])
log_mem_cell_writer-Races_example =
    log_mem_cell_writer-Races db 10 index meta 100 state (task_on 1) (unit_of 9) shared
      (unfold lookup in tt) (unfold lookup in (written_entry, tt))
