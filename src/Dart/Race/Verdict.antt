-- ===== src/Dart/Race/Verdict.antt =====
-- script/dart.py: when a pair of accesses is a race, against the tests of the loops in
-- `_log_mem_cell_reader` and `_log_mem_cell_writer`.
use krace.Prelude.{
  String, ℕ, ◌<◌, ◌≡◌, ◌↔◌, ◌⊎◌, inl, inr, refl, Bool, true, false, ◌&&◌, ◌||◌, not, some, List, [],
  ◌∷◌, arith, Bool-cases, has, intersection, is_empty, get_elem?,
}
use krace.Dict.{lookup}
use krace.Dict.Key.{nat_eq}
use krace.Dart.CtxtType.{LogMeta, from_ptid, is_interrupt, ctxt}
use krace.Dart.ExecUnit.{Ref, ExecUnit, Store, happens_before}
use krace.Dart.ExecUnit.Before.{HappensBefore, IsRanked, IsCoherent}
use krace.Dart.ExecUnit.Before.Correct.{happens_before-HappensBefore}
use krace.Dart.Compdb.{CompileDatabase, ValueInst, get_locs, load_source, mentions}
use krace.Dart.State.{Analyzer, MemAccess}
use krace.Dart.State.Monad.{done, pure, gets, fetch, or_raise, load, ◌>>=◌}
use krace.Dart.Race.{
  Pairing, read_write, write_write, race_blacklisted, race_blacklist, is_ordered, is_unexcused,
  is_unlocked, is_race,
}

-- No number is in both lists.
abbrev pub AreDisjoint : List ℕ → List ℕ → Type 0
AreDisjoint xs ys = (a : ℕ) → has a xs ≡ true → has a ys ≡ true → ⊥

-- An instruction that the blacklist mentions
abbrev pub IsListed : ValueInst → Type 0
IsListed i = mentions race_blacklisted (get_locs i) ≡ true

-- Two sections of sequence locks, or an entry of the blacklist, excuse a reader and a writer.
abbrev pub IsExcused : Pairing → MemAccess → MemAccess → ValueInst → ValueInst → Type 0
IsExcused write_write another access i j = ⊥
IsExcused read_write another access i j =
    (¬ AreDisjoint another.sync_trans access.sync_trans) ⊎ (IsListed i ⊎ IsListed j)

-- The new access `access` races with the logged access `another` of another task.
pub record IsRacing (store : Store) (pairing : Pairing) (meta : LogMeta)
    (access another : MemAccess) (u : ExecUnit) (i j : ValueInst) : Type 0 where
  pub in_task : (is_interrupt (ctxt meta) && is_interrupt (from_ptid u.ptid)) ≡ false
  pub unordered : ¬ HappensBefore store u access.unit
  pub unlocked : AreDisjoint another.sync_locks access.sync_locks
  pub unexcused : ¬ IsExcused pairing another access i j

is_empty-intersection :
    (xs ys : List ℕ) → (is_empty (intersection xs ys) ≡ true) ↔ AreDisjoint xs ys
is_empty-intersection [] ys = (λ e a. cc, λ d. refl)
is_empty-intersection (x ∷ xs) ys = elim (Bool-cases (has x ys)) [
  | inl both ↦ (λ e a h k. ground arith, λ d. absurd (d x (ground arith) both))
  | inr apart ↦ (
    λ e a h k. ground (arith, (is_empty-intersection xs ys).0 (rw apart at e) a),
    λ d. rw apart ((is_empty-intersection xs ys).1 (λ a h k. d a (ground arith) k)),
  )
]

no_excuse :
    (D : Type 0) (b c : Bool) → D → (not (b || c) ≡ true) ↔ (¬ ((¬ D) ⊎ ((b ≡ true) ⊎ (c ≡ true))))
no_excuse D true c d = (λ e x. cc, λ n. absurd (n (inr (inl refl))))
no_excuse D false true d = (λ e x. cc, λ n. absurd (n (inr (inr refl))))
no_excuse D false false d = (λ e x. refute x, λ n. refl)
  where
    refute : (¬ D) ⊎ ((false ≡ true) ⊎ (false ≡ true)) → ⊥
    refute (inl n) = n d
    refute (inr (inl e)) = cc
    refute (inr (inr e)) = cc

-- The unit of the logged access, and the instructions of both accesses
pub record IsFound (db : CompileDatabase) (units : Store) (access another : MemAccess)
    (u : ExecUnit) (i j : ValueInst) : Type 0 where
  pub unit_known : get_elem? units another.unit ≡ some u
  pub inst_known : lookup another.hval db.insts ≡ some i
  pub access_known : lookup access.hval db.insts ≡ some j

-- What the comparison needs: the units and the instructions of both accesses, the lines of source that
-- a report shows, and a limit that is enough for the search.
pub record IsComparable (db : CompileDatabase) (limit : ℕ) (units : Store) (rank : Ref → ℕ)
    (access another : MemAccess) (u : ExecUnit) (i j : ValueInst) : Type 0 where
  pub found : IsFound db units access another u i j
  pub inst_source : (line : String) × (load_source db i ≡ some line)
  pub access_source : (line : String) × (load_source db j ≡ some line)
  pub ranked : IsRanked units rank
  pub coherent : IsCoherent units u
  pub current : (v : ExecUnit) × (get_elem? units access.unit ≡ some v)
  pub within : rank access.unit < limit

module _ (db : CompileDatabase) (limit : ℕ) (s : Analyzer) (rank : Ref → ℕ) (pairing : Pairing)
    (meta : LogMeta) (access another : MemAccess) (u : ExecUnit) (i j : ValueInst)
    (c : IsComparable db limit s.units rank access another u i j) where
  abbrev pub Verdict : Bool → Type 0
  Verdict b = (b ≡ true) ↔ IsRacing s.units pairing meta access another u i j

  race_blacklist-done :
      race_blacklist db limit another access s
      ≡ done (mentions race_blacklisted (get_locs i) || mentions race_blacklisted (get_locs j)) s
  unfolding race_blacklist ◌>>=◌ fetch or_raise pure
  race_blacklist-done = rw (c.found.inst_known, c.found.access_known)

  -- Whether the pair is excused, once it is unordered and holds no common lock
  excuse :
      (b : Bool) × (is_unexcused db limit pairing another access s ≡ done b s)
      × ((b ≡ true) ↔ (¬ IsExcused pairing another access i j))
  unfolding is_unexcused ◌>>=◌ pure
  excuse = go pairing
    where
      listed_i : Bool
      listed_i = mentions race_blacklisted (get_locs i)

      listed_j : Bool
      listed_j = mentions race_blacklisted (get_locs j)

      go :
          (p : Pairing)
          → (b : Bool) × (is_unexcused db limit p another access s ≡ done b s)
            × ((b ≡ true) ↔ (¬ IsExcused p another access i j))
      go write_write = (true, refl, (λ _ e. e, λ _. refl))
      go read_write =
          elim (Bool-cases (is_empty (intersection another.sync_trans access.sync_trans))) [
            | inl apart ↦ (
              not (listed_i || listed_j),
              rw (apart, race_blacklist-done),
              no_excuse _ listed_i listed_j
                  ((is_empty-intersection another.sync_trans access.sync_trans).0 apart),
            )
            | inr common ↦ (
              false,
              rw common,
              (
                λ e. cc,
                λ n. absurd (
                    n (
                      inl (λ d.
                        cc ((is_empty-intersection another.sync_trans access.sync_trans).1 d)))),
              ),
            )
          ]

  is_ordered-done :
      (hb : Bool)
      → happens_before limit s.units u access.unit ≡ some hb
      → is_ordered db limit another access s ≡ done hb s
  unfolding is_ordered load gets or_raise pure ◌>>=◌
  is_ordered-done hb e = rw (c.found.unit_known, e)

  -- The verdict of one round returns, changes nothing, and is the declarative one.
  pub is_race-done :
      (b : Bool) × (is_race db limit pairing meta access another s ≡ done b s) × Verdict b
  unfolding is_race is_unlocked load or_raise pure ◌>>=◌
  is_race-done =
      let (v, ev) = c.current in
      let (hb, ehb, hb_iff) =
        happens_before-HappensBefore s.units u rank limit access.unit v c.ranked c.coherent ev
          c.within in
      let (ex, eex, ex_iff) = excuse in
      go hb ehb hb_iff ex eex ex_iff
        (Bool-cases (is_interrupt (ctxt meta) && is_interrupt (from_ptid u.ptid)))
        (Bool-cases (is_empty (intersection another.sync_locks access.sync_locks)))
    where
      go :
          (hb : Bool)
          → happens_before limit s.units u access.unit ≡ some hb
          → ((hb ≡ true) ↔ HappensBefore s.units u access.unit)
          → (ex : Bool) → is_unexcused db limit pairing another access s ≡ done ex s
          → ((ex ≡ true) ↔ (¬ IsExcused pairing another access i j))
          → ((is_interrupt (ctxt meta) && is_interrupt (from_ptid u.ptid)) ≡ true)
            ⊎ ((is_interrupt (ctxt meta) && is_interrupt (from_ptid u.ptid)) ≡ false)
          → (is_empty (intersection another.sync_locks access.sync_locks) ≡ true)
            ⊎ (is_empty (intersection another.sync_locks access.sync_locks) ≡ false)
          → (b : Bool) × (is_race db limit pairing meta access another s ≡ done b s) × Verdict b
      go hb ehb hbi ex eex exi (inl both) locks =
          (false, rw (c.found.unit_known, both), (λ e. cc, λ r. cc r.in_task))
      go true ehb hbi ex eex exi (inr one) locks = (
        false,
        rw (c.found.unit_known, one, is_ordered-done _ ehb),
        (λ e. cc, λ r. absurd (r.unordered (hbi.0 refl))),
      )
      go false ehb hbi ex eex exi (inr one) (inr common) = (
        false,
        rw (c.found.unit_known, one, is_ordered-done _ ehb, common),
        (
          λ e. cc,
          λ r. cc ((is_empty-intersection another.sync_locks access.sync_locks).1 r.unlocked),
        ),
      )
      go false ehb hbi ex eex exi (inr one) (inl apart) = (
        ex,
        rw (c.found.unit_known, one, is_ordered-done _ ehb, apart) eex,
        (
          λ e. record {
            in_task = one;
            unordered = λ h. cc (hbi.1 h);
            unlocked = (is_empty-intersection another.sync_locks access.sync_locks).0 apart;
            unexcused = exi.0 e;
          },
          λ r. exi.1 r.unexcused,
        ),
      )
