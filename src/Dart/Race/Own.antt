-- ===== src/Dart/Race/Own.antt =====
-- script/dart.py: the task's own log of a cell, which the loops of `_log_mem_cell_reader` and
-- `_log_mem_cell_writer` skip.
use krace.Prelude.{ℕ, ◌≡◌, refl, List, [], ◌∷◌, Bool-cases, inl, inr, ◌==◌, ==_iff}
use krace.Dict.{Dict, insert}
use krace.Dict.Key.{nat_eq}
use krace.Dart.CtxtType.{LogMeta}
use krace.Dart.ExecUnit.{Ref, Store}
use krace.Dart.Compdb.{CompileDatabase}
use krace.Dart.State.{MemAccess}
use krace.Dart.Race.{Pairing}
use krace.Dart.Race.Loop.{IsCheckable, AreCheckable, EntryRaces, Races}

-- The task's own log, made or changed, is no entry that the loop compares with.
module _ (meta : LogMeta) (access : MemAccess) (vals : List MemAccess) where
  pub AreCheckable-insert :
      (db : CompileDatabase) (limit : ℕ) (units : Store) (rank : Ref → ℕ)
      (d : Dict ℕ (List MemAccess))
      → AreCheckable db limit units rank meta access d
      → AreCheckable db limit units rank meta access (insert meta.ptid vals d)
  unfolding insert
  AreCheckable-insert db limit units rank [] h = (IsCheckable.own refl, tt)
  AreCheckable-insert db limit units rank ((j, v) ∷ d) h = elim (Bool-cases (j == meta.ptid)) [
    | inl same ↦ rw same (IsCheckable.own ((==_iff _ _).0 same), h.1)
    | inr apart ↦ rw apart (h.0, AreCheckable-insert db limit units rank d h.1)
  ]

  replaced :
      {db : CompileDatabase} {units : Store} {pairing : Pairing} (j : ℕ) (v : List MemAccess)
      (d : Dict ℕ (List MemAccess)) {others : List MemAccess}
      → j ≡ meta.ptid
      → EntryRaces db units pairing meta access j vals (Races db units pairing meta access d) others
      → EntryRaces db units pairing meta access j v (Races db units pairing meta access d) others
  replaced j v d e (EntryRaces.own _ r) = EntryRaces.own e r
  replaced j v d e (EntryRaces.racing n another u i k el _ _ r) = absurd (n e)
  replaced j v d e (EntryRaces.quiet n another u i k el _ _ r) = absurd (n e)

  behind :
      {db : CompileDatabase} {units : Store} {pairing : Pairing} {j : ℕ} {v : List MemAccess}
      {rest rest' : List MemAccess → Type 0} {others : List MemAccess}
      → ((others : List MemAccess) → rest others → rest' others)
      → EntryRaces db units pairing meta access j v rest others
      → EntryRaces db units pairing meta access j v rest' others
  behind f (EntryRaces.own e r) = EntryRaces.own e (f _ r)
  behind f (EntryRaces.racing n another u i k el y x r) =
      EntryRaces.racing n another u i k el y x (f _ r)
  behind f (EntryRaces.quiet n another u i k el y x r) =
      EntryRaces.quiet n another u i k el y x (f _ r)

  pub Races-insert :
      (db : CompileDatabase) (units : Store) (pairing : Pairing) (d : Dict ℕ (List MemAccess))
      (others : List MemAccess)
      → Races db units pairing meta access (insert meta.ptid vals d) others
      → Races db units pairing meta access d others
  unfolding insert
  Races-insert db units pairing [] _ (EntryRaces.own e r) = r
  Races-insert db units pairing [] _ (EntryRaces.racing n another u i j el _ _ r) = absurd (n refl)
  Races-insert db units pairing [] _ (EntryRaces.quiet n another u i j el _ _ r) = absurd (n refl)
  Races-insert db units pairing ((j, v) ∷ d) others r = elim (Bool-cases (j == meta.ptid)) [
    | inl same ↦ replaced j v d ((==_iff _ _).0 same) (rw same at r)
    | inr apart ↦ behind (Races-insert db units pairing d) (rw apart at r)
  ]
