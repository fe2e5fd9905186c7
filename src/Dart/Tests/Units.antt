-- ===== src/Dart/Tests/Units.antt =====
-- Two units of two tasks, the second depending on the first.
use krace.Prelude.{
  ℕ, zero, suc, ◌<◌, ◌≡◌, ◌↔◌, refl, Bool, true, none, some, [], ◌∷◌, arith, get_elem?,
}
use mathlib.Core.Path.{subst}
use krace.Dict.{lookup}
use krace.Dart.ExecUnit.{Ref, ExecUnit, Store, coordinate, happens_before}
use krace.Dart.ExecUnit.Before.{IsDep, here, there, HappensBefore, IsRanked, IsCoherent}
use krace.Dart.ExecUnit.Before.Correct.{happens_before-HappensBefore}

abbrev first : ExecUnit
first = record { ptid = 7; ctxt = none; base = none; seq = 1; clk = 3; deps = [] }

abbrev second : ExecUnit
second = record { ptid = 9; ctxt = none; base = none; seq = 0; clk = 1; deps = (7, 0) ∷ [] }

abbrev units : Store
units = first ∷ second ∷ []

abbrev index : Ref → ℕ
index r = r

IsRanked-units : IsRanked units index
IsRanked-units = record { base_ranked = bases; dep_ranked = deps }
  where
    bases :
        (r : Ref) (u : ExecUnit) (base : Ref)
        → get_elem? units r ≡ some u
        → u.base ≡ some base
        → (base < r) × (v : ExecUnit) × (get_elem? units base ≡ some v)
    bases zero u base e eb = absurd (ground arith)
    bases (suc zero) u base e eb = absurd (ground arith)
    bases (suc (suc r)) u base e eb = cc

    none_of : (dep : Ref) → IsDep dep [] → ⊥
    none_of dep i = elim i [ ]

    only_first : (dep : Ref) → IsDep dep ((7, 0) ∷ []) → dep ≡ 0
    only_first dep here = refl
    only_first dep (there i) = absurd (none_of dep i)

    deps :
        (r : Ref) (u : ExecUnit) (dep : Ref)
        → get_elem? units r ≡ some u
        → IsDep dep u.deps
        → (dep < r) × (v : ExecUnit) × (get_elem? units dep ≡ some v)
    deps zero u dep e i = absurd (none_of dep (subst (λ d. IsDep dep d) (ground arith) i))
    deps (suc zero) u dep e i =
        let z : dep ≡ 0 = only_first dep (subst (λ d. IsDep dep d) (ground arith) i) in
        (omega arith, first, rw z)
    deps (suc (suc r)) u dep e i = cc

IsCoherent-units : IsCoherent units first
IsCoherent-units = record { same_past = same }
  where
    same :
        (r q : Ref) (u v : ExecUnit)
        → get_elem? units r ≡ some u
        → get_elem? units q ≡ some v
        → coordinate u ≡ coordinate v
        → HappensBefore units first r
        → HappensBefore units first q
    same zero zero u v eu ev ec h = h
    same zero (suc zero) u v eu ev ec h = absurd (unfold coordinate in ground arith)
    same (suc zero) zero u v eu ev ec h = absurd (unfold coordinate in ground arith)
    same (suc zero) (suc zero) u v eu ev ec h = h
    same (suc (suc r)) q u v eu ev ec h = cc
    same zero (suc (suc q)) u v eu ev ec h = cc
    same (suc zero) (suc (suc q)) u v eu ev ec h = cc

happens_before-HappensBefore_example :
    (b : Bool) × (happens_before 10 units first 1 ≡ some b)
    × ((b ≡ true) ↔ HappensBefore units first 1)
happens_before-HappensBefore_example =
    happens_before-HappensBefore units first index 10 1 second IsRanked-units IsCoherent-units refl
      (omega arith)

ordered : happens_before 10 units first 1 ≡ some true
unfolding happens_before lookup
ordered = refl
