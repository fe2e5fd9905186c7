-- ===== src/Dart/ExecUnit.antt =====
-- script/dart.py: `ExecUnit`. Units are objects that others hold references to, so they live in a
-- store: a reference is an index, `clone` adds a copy at the end, and a write through one reference
-- is seen through every other.
pub mod Before
use krace.Prelude.{
  ℕ, zero, suc, Bool, true, false, ◌||◌, ◌&&◌, Option, none, some, List, [], ◌∷◌, ◌++◌, ltb, leb,
  ◌==◌, if◌then◌else◌, length, get_elem?, set, ◌≡◌, ◌↔◌, arith,
}
use krace.Dict.{Dict, lookup, insert}
use krace.Dict.Key.{Eq, nat_eq}

abbrev pub Ref : Type 0
Ref = ℕ

pub record ExecUnit : Type 0 where
  pub ptid : ℕ
  pub ctxt : Option ℕ
  pub base : Option Ref
  pub seq : ℕ
  pub clk : ℕ
  pub deps : Dict ℕ Ref

abbrev pub Store : Type 0
Store = List ExecUnit

-- `ExecUnit.create`
unfoldable pub create : ℕ → ExecUnit
create ptid = record { ptid = ptid; ctxt = none; base = none; seq = 0; clk = 0; deps = [] }

-- The parts of `ExecUnit.coordinate`, whose text `ptid-seq-clk` determines them.
pub record Coordinate : Type 0 where
  pub ptid : ℕ
  pub seq : ℕ
  pub clk : ℕ

unfoldable pub coordinate : ExecUnit → Coordinate
coordinate u = record { ptid = u.ptid; seq = u.seq; clk = u.clk }

abbrev same_coordinate : Coordinate → Coordinate → Bool
same_coordinate c d = c.ptid == d.ptid && (c.seq == d.seq && c.clk == d.clk)

pub same_coordinate_iff : (c d : Coordinate) → (same_coordinate c d ≡ true) ↔ (c ≡ d)
same_coordinate_iff c d = ground arith

instance abbrev pub coordinate_eq : Eq Coordinate
coordinate_eq = record { beq = same_coordinate; beq_iff = same_coordinate_iff }

-- `ExecUnit._happens_before_in_task`
unfoldable pub happens_before_in_task : ExecUnit → ExecUnit → Bool
happens_before_in_task u v =
    if ltb u.seq v.seq then true else (if u.seq == v.seq && leb u.clk v.clk then true else false)

abbrev pub Hist : Type 0
Hist = Dict Coordinate Bool

-- A recursive call may fail: it passes the interpreter's recursion limit, or (never, in a
-- well-formed store) meets a dangling reference.
abbrev pub Visit : Type 0
Visit = Ref → Hist → Option (Bool × Hist)

-- `if unit.base is not None: if self._happens_before(unit.base, hist): retv = True`
unfoldable pub before_base : Visit → Option Ref → Hist → Option (Bool × Hist)
before_base visit none hist = some (false, hist)
before_base visit (some base) hist = visit base hist

-- `for dep in unit.deps.values(): if self._happens_before(dep, hist): retv = True; break`
unfoldable pub before_deps : Visit → Dict ℕ Ref → Hist → Option (Bool × Hist)
before_deps visit [] hist = some (false, hist)
before_deps visit ((_, dep) ∷ deps) hist = elim (visit dep hist) [
  | none ↦ none
  | some (true, hist') ↦ some (true, hist')
  | some (false, hist') ↦ before_deps visit deps hist'
]

-- `if retv is None: for dep ...`
unfoldable pub or_deps : Visit → Dict ℕ Ref → Option (Bool × Hist) → Option (Bool × Hist)
or_deps visit deps none = none
or_deps visit deps (some (true, hist)) = some (true, hist)
or_deps visit deps (some (false, hist)) = before_deps visit deps hist

-- `hist[cord] = retv; return retv`
unfoldable pub remember : Coordinate → Option (Bool × Hist) → Option (Bool × Hist)
remember cord none = none
remember cord (some (b, hist)) = some (b, insert cord b hist)

-- The answer for a unit whose coordinate is not in `hist`.
unfoldable pub search_unit : Visit → ExecUnit → ExecUnit → Hist → Option (Bool × Hist)
unfolding happens_before_in_task before_base or_deps before_deps
search_unit visit this u hist =
    if this.ptid == u.ptid
    then some (happens_before_in_task this u, hist)
    else or_deps visit u.deps (before_base visit u.base hist)

unfoldable pub visit_unit : Visit → ExecUnit → Option ExecUnit → Hist → Option (Bool × Hist)
unfolding search_unit remember coordinate
visit_unit visit this none hist = none
visit_unit visit this (some u) hist = elim (lookup (coordinate u) hist) [
  | some b ↦ some (b, hist)
  | none ↦ remember (coordinate u) (search_unit visit this u hist)
]

-- `ExecUnit._happens_before`, with the number of nested calls that the interpreter still allows.
unfoldable pub before : ℕ → Store → ExecUnit → Visit
unfolding visit_unit
before zero store this r hist = none
before (suc depth) store this r hist =
    visit_unit (before depth store this) this (get_elem? store r) hist

unfoldable pub answer : Option (Bool × Hist) → Option Bool
answer none = none
answer (some (b, hist)) = some b

-- `ExecUnit.happens_before`
unfoldable pub happens_before : ℕ → Store → ExecUnit → Ref → Option Bool
unfolding before answer
happens_before depth store this r = answer (before depth store this r [])
