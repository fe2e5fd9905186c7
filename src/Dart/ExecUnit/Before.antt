-- ===== src/Dart/ExecUnit/Before.antt =====
-- script/dart.py: the relation that `ExecUnit.happens_before` is meant to decide, over a store of
-- units, and the conditions on the store under which it does.
pub mod Decides
pub mod Correct
pub mod Depends
use krace.Prelude.{ℕ, ◌<◌, ◌≡◌, ◌≢◌, ◌⊎◌, ◌≤◌, Option, some, List, [], ◌∷◌, get_elem?}
use krace.Dict.{Dict}
use krace.Dart.ExecUnit.{Ref, ExecUnit, Store, coordinate}

-- The order of two units of one task.
abbrev pub InTask : ExecUnit → ExecUnit → Type 0
InTask u v = (u.seq < v.seq) ⊎ ((u.seq ≡ v.seq) × (u.clk ≤ v.clk))

-- `dep` is a dependency of some task.
pub data IsDep (dep : Ref) : Dict ℕ Ref → Type 0 where
  here : {k : ℕ} {deps : Dict ℕ Ref} → IsDep dep ((k, dep) ∷ deps)
  there : {e : ℕ × Ref} {deps : Dict ℕ Ref} → IsDep dep deps → IsDep dep (e ∷ deps)

-- Unit `this` happens before the unit at `r`: it is an earlier unit of the same task, or it happens
-- before the base or a dependency of a unit of another task.
pub data HappensBefore (store : Store) (this : ExecUnit) : Ref → Type 0 where
  in_task :
      {r : Ref} (u : ExecUnit)
      → get_elem? store r ≡ some u
      → this.ptid ≡ u.ptid
      → InTask this u
      → HappensBefore store this r
  by_base :
      {r : Ref} (u : ExecUnit) (base : Ref)
      → get_elem? store r ≡ some u
      → this.ptid ≢ u.ptid
      → u.base ≡ some base
      → HappensBefore store this base
      → HappensBefore store this r
  by_dep :
      {r : Ref} (u : ExecUnit) (dep : Ref)
      → get_elem? store r ≡ some u
      → this.ptid ≢ u.ptid
      → IsDep dep u.deps
      → HappensBefore store this dep
      → HappensBefore store this r

-- References lead to units, and down in `rank`: the graph has no cycle.
pub record IsRanked (store : Store) (rank : Ref → ℕ) : Type 0 where
  pub base_ranked :
      (r : Ref) (u : ExecUnit) (base : Ref)
      → get_elem? store r ≡ some u
      → u.base ≡ some base
      → (rank base < rank r) × (v : ExecUnit) × (get_elem? store base ≡ some v)
  pub dep_ranked :
      (r : Ref) (u : ExecUnit) (dep : Ref)
      → get_elem? store r ≡ some u
      → IsDep dep u.deps
      → (rank dep < rank r) × (v : ExecUnit) × (get_elem? store dep ≡ some v)

-- Units of one coordinate have the same past: what the cache of `_happens_before` relies on.
pub record IsCoherent (store : Store) (this : ExecUnit) : Type 0 where
  pub same_past :
      (r q : Ref) (u v : ExecUnit)
      → get_elem? store r ≡ some u
      → get_elem? store q ≡ some v
      → coordinate u ≡ coordinate v
      → HappensBefore store this r
      → HappensBefore store this q
