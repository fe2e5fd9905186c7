-- ===== src/Dart/Race/Loop.antt =====
-- script/dart.py: the loops of `_log_mem_cell_reader` and `_log_mem_cell_writer` over the accesses
-- of the other tasks: which races they count.
use krace.Prelude.{
  String, ℕ, ◌≡◌, ◌≢◌, ◌↔◌, refl, Bool, true, false, some, List, [], ◌∷◌, arith, ◌==◌, ==_iff,
  last?, get_elem?,
}
use krace.Dict.{Dict, lookup}
use krace.Dict.Key.{nat_eq}
use krace.Dart.CtxtType.{LogMeta}
use krace.Dart.ExecUnit.{Ref, ExecUnit, Store}
use krace.Dart.Compdb.{CompileDatabase, ValueInst, load_source}
use krace.Dart.State.{Analyzer, TaskState, MemAccess, RaceAlias, Note}
use krace.Dart.State.Notes.{record_note}
use krace.Dart.State.Console.{console_of}
use krace.Dart.State.Monad.{
  ⊤, Run, done, pure, modify, when, fetch, fetch_last, or_raise, load, ◌>>=◌,
}
use krace.Dart.Race.{Pairing, count_race, note_side, record_race, is_race, check_task, check_tasks}
use krace.Dart.Race.Verdict.{IsComparable, IsFound, IsRacing, is_race-done}

abbrev pub alias_of : MemAccess → MemAccess → RaceAlias
alias_of another access = record { src = another.hval; dst = access.hval }

-- The state after a race is counted, with these lines on the console
abbrev pub counted : Analyzer → List Note → RaceAlias → Analyzer
counted s lines pair = record s { console = lines; races = count_race pair s.races }

module _ (db : CompileDatabase) (limit : ℕ) where
  note_side-done :
      (mark : String) (t : TaskState) (a : MemAccess) (s : Analyzer) (u : ExecUnit) (i : ValueInst)
      (source : String)
      → get_elem? s.units a.unit ≡ some u
      → lookup a.hval db.insts ≡ some i
      → load_source db i ≡ some source
      → (lines : List Note) × (note_side db limit mark t a s
          ≡ done tt (record s { console = lines }))
  unfolding note_side record_note modify fetch or_raise load pure ◌>>=◌ console_of
  note_side-done mark t a s u i source eu ei es =
      (console_of (note_side db limit mark t a s), rw (ei, eu, es))

  -- A race that is reported is counted, and changes nothing else but the console.
  record_race-done :
      (t : TaskState) (another access : MemAccess) (addr : ℕ) (s : Analyzer) (u v : ExecUnit)
      (i j : ValueInst) (source source' : String)
      → get_elem? s.units access.unit ≡ some v
      → IsFound db s.units access another u i j
      → load_source db i ≡ some source
      → load_source db j ≡ some source'
      → (lines : List Note) × (record_race db limit t another access addr s
          ≡ done tt (counted s lines (alias_of another access)))
  unfolding record_race record_note modify load or_raise pure ◌>>=◌ note_side fetch console_of
  record_race-done t another access addr s u v i j source source' ev f es es' = (
    console_of (record_race db limit t another access addr s),
    rw (f.unit_known, ev, f.inst_known, f.unit_known, es, f.access_known, ev, es'),
  )

-- `self.races` after these races are counted in order
abbrev pub count_all : MemAccess → List MemAccess → Dict RaceAlias ℕ → Dict RaceAlias ℕ
count_all access [] races = races
count_all access (another ∷ others) races =
    count_all access others (count_race (alias_of another access) races)

module _ (db : CompileDatabase) (limit : ℕ) (units : Store) (rank : Ref → ℕ) (meta : LogMeta)
    (access : MemAccess) where
  -- An entry of the cell is the task's own, or its last access can be compared.
  pub data IsCheckable (ptid : ℕ) (vals : List MemAccess) : Type 0 where
    own : ptid ≡ meta.ptid → IsCheckable ptid vals
    other :
        ptid ≢ meta.ptid
        → (another : MemAccess) (u : ExecUnit) (i j : ValueInst) → last? vals ≡ some another
        → IsComparable db limit units rank access another u i j
        → IsCheckable ptid vals

  abbrev pub AreCheckable : Dict ℕ (List MemAccess) → Type 0
  AreCheckable [] = Unit
  AreCheckable ((ptid, vals) ∷ d) = IsCheckable ptid vals × AreCheckable d

module _ (db : CompileDatabase) (units : Store) (pairing : Pairing) (meta : LogMeta)
    (access : MemAccess) where
  -- What one entry of the cell adds to the races `rest` of the entries behind it
  pub data EntryRaces (ptid : ℕ) (vals : List MemAccess) (rest : List MemAccess → Type 0)
      : List MemAccess → Type 0 where
    own :
        {others : List MemAccess}
        → ptid ≡ meta.ptid
        → rest others
        → EntryRaces ptid vals rest others
    racing :
        {others : List MemAccess}
        → ptid ≢ meta.ptid
        → (another : MemAccess) (u : ExecUnit) (i j : ValueInst) → last? vals ≡ some another
        → IsFound db units access another u i j
        → IsRacing units pairing meta access another u i j
        → rest others
        → EntryRaces ptid vals rest (another ∷ others)
    quiet :
        {others : List MemAccess}
        → ptid ≢ meta.ptid
        → (another : MemAccess) (u : ExecUnit) (i j : ValueInst) → last? vals ≡ some another
        → IsFound db units access another u i j
        → ¬ IsRacing units pairing meta access another u i j
        → rest others
        → EntryRaces ptid vals rest others

  -- The races that a cell holds with the new access: the last accesses of the other tasks that
  -- race with it, in the order of the cell.
  abbrev pub Races : Dict ℕ (List MemAccess) → List MemAccess → Type 0
  Races [] others = others ≡ []
  Races ((ptid, vals) ∷ d) others = EntryRaces ptid vals (Races d) others

-- How a round ends: the race is counted or there is none
data Round (db : CompileDatabase) (limit : ℕ) (s : Analyzer) (pairing : Pairing) (meta : LogMeta)
    (access another : MemAccess) (u : ExecUnit) (i j : ValueInst) (result : Run ⊤) : Type 0 where
  race :
      IsRacing s.units pairing meta access another u i j
      → (lines : List Note) → result ≡ done tt (counted s lines (alias_of another access))
      → Round db limit s pairing meta access another u i j result
  no_race :
      ¬ IsRacing s.units pairing meta access another u i j
      → result ≡ done tt s
      → Round db limit s pairing meta access another u i j result

module _ (db : CompileDatabase) (limit : ℕ) (rank : Ref → ℕ) (pairing : Pairing) (meta : LogMeta)
    (t : TaskState) (access : MemAccess) (addr : ℕ) where
  check_task-own :
      (ptid : ℕ) (vals : List MemAccess) (s : Analyzer)
      → ptid ≡ meta.ptid
      → check_task db limit pairing meta t access addr ptid vals s ≡ done tt s
  unfolding check_task pure
  check_task-own ptid vals s e = rw ((==_iff _ _).1 e)

  check_task-Round :
      (ptid : ℕ) (vals : List MemAccess) (s : Analyzer) (another : MemAccess) (u : ExecUnit)
      (i j : ValueInst)
      → ptid ≢ meta.ptid
      → last? vals ≡ some another
      → IsComparable db limit s.units rank access another u i j
      → Round db limit s pairing meta access another u i j
          (check_task db limit pairing meta t access addr ptid vals s)
  unfolding check_task fetch_last or_raise pure when ◌>>=◌
  check_task-Round ptid vals s another u i j n el c =
      let (b, eb, verdict) = is_race-done db limit s rank pairing meta access another u i j c in
      go b eb verdict
    where
      apart : (ptid == meta.ptid) ≡ false
      apart = ground arith

      go :
          (b : Bool)
          → is_race db limit pairing meta access another s ≡ done b s
          → (b ≡ true) ↔ IsRacing s.units pairing meta access another u i j
          → Round db limit s pairing meta access another u i j
              (check_task db limit pairing meta t access addr ptid vals s)
      go true eb verdict =
          let (v, ev) = c.current in
          let (lines, e) =
            record_race-done db limit t another access addr s u v i j c.inst_source.0
              c.access_source.0 ev c.found c.inst_source.1 c.access_source.1 in
          race (verdict.0 refl) lines (rw (apart, el, eb) e)
      go false eb verdict = no_race (λ r. cc (verdict.1 r)) (rw (apart, el, eb))

  -- The loop returns, and counts exactly the races of the cell, once each; besides the counts it
  -- changes nothing but the console.
  pub check_tasks-Races :
      (d : Dict ℕ (List MemAccess)) (s : Analyzer)
      → AreCheckable db limit s.units rank meta access d
      → (others : List MemAccess) × (lines : List Note) × Races db s.units pairing meta access d
          others
        × (check_tasks db limit pairing meta t access addr d s
            ≡ done tt (record s { console = lines; races = count_all access others s.races }))
  unfolding check_tasks pure ◌>>=◌
  check_tasks-Races [] s h = ([], s.console, refl, refl)
  check_tasks-Races ((ptid, vals) ∷ d) s (IsCheckable.own e, h) =
      let (others, lines, r, run) = check_tasks-Races d s h in
      (others, lines, EntryRaces.own e r, rw (check_task-own ptid vals s e) run)
  check_tasks-Races ((ptid, vals) ∷ d) s (IsCheckable.other n another u i j el c, h) =
      go (check_task-Round ptid vals s another u i j n el c) (λ s' e. check_tasks-Races d s' e)
    where
      go :
          Round db limit s pairing meta access another u i j
            (check_task db limit pairing meta t access addr ptid vals s)
          → ((s' : Analyzer)
              → AreCheckable db limit s'.units rank meta access d
              → (others : List MemAccess) × (lines : List Note) × Races db s'.units pairing meta
                  access d others
                × (check_tasks db limit pairing meta t access addr d s'
                    ≡ done tt
                        (record s' { console = lines; races = count_all access others s'.races })))
          → (others : List MemAccess) × (lines : List Note) × Races db s.units pairing meta access
              ((ptid, vals) ∷ d)
              others
            × (check_tasks db limit pairing meta t access addr ((ptid, vals) ∷ d) s
                ≡ done tt (record s { console = lines; races = count_all access others s.races }))
      go (race r first e) rest =
          let (others, lines, rs, run) = rest (counted s first (alias_of another access)) h in
          (another ∷ others, lines, EntryRaces.racing n another u i j el c.found r rs, rw e run)
      go (no_race r e) rest =
          let (others, lines, rs, run) = rest s h in
          (others, lines, EntryRaces.quiet n another u i j el c.found r rs, rw e run)
