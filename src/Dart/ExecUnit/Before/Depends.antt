-- ===== src/Dart/ExecUnit/Before/Depends.antt =====
-- script/dart.py: `ExecUnit.add_dep` makes a unit happen before another.
use krace.Prelude.{
  ℕ, zero, suc, ◌<◌, ◌≤◌, ◌≡◌, ◌≢◌, ◌⊎◌, refl, sym, ap, ◌∙◌, inl, inr, false, Option, none, some,
  [], ◌∷◌, arith, get_elem?, set, Bool-cases, ◌==◌,
}
use mathlib.Core.Path.{subst}
use krace.Dict.{Dict, lookup, insert}
use krace.Dict.Key.{nat_eq}
use krace.Dart.ExecUnit.{Ref, ExecUnit, Store, happens_before_in_task}
use krace.Dart.ExecUnit.Before.{InTask, IsDep, here, there, HappensBefore, in_task, by_dep}
use krace.Dart.State.{Analyzer}
use krace.Dart.State.Monad.{
  done, pure, when, load, store, or_raise, modify, later_dep, add_dep, ◌>>=◌,
}

get_elem?-set_self :
    (r : ℕ) (v w : ExecUnit) (xs : Store)
    → get_elem? xs r ≡ some w
    → get_elem? (set xs r v) r ≡ some v
get_elem?-set_self zero v w (x ∷ xs) e = refl
get_elem?-set_self (suc r) v w (x ∷ xs) e = get_elem?-set_self r v w xs e
get_elem?-set_self zero v w [] e = cc
get_elem?-set_self (suc r) v w [] e = cc

get_elem?-set_ne :
    (r q : ℕ) (v : ExecUnit) (xs : Store) → r ≢ q → get_elem? (set xs r v) q ≡ get_elem? xs q
get_elem?-set_ne r q v [] n = refl
get_elem?-set_ne zero zero v (x ∷ xs) n = absurd (n refl)
get_elem?-set_ne zero (suc q) v (x ∷ xs) n = refl
get_elem?-set_ne (suc r) zero v (x ∷ xs) n = refl
get_elem?-set_ne (suc r) (suc q) v (x ∷ xs) n = get_elem?-set_ne r q v xs (omega arith)

IsDep-insert : (k : ℕ) (dep : Ref) (deps : Dict ℕ Ref) → IsDep dep (insert k dep deps)
unfolding insert
IsDep-insert k dep [] = here
IsDep-insert k dep ((j, r) ∷ deps) = elim (Bool-cases (j == k)) [
  | inl same ↦ rw same here
  | inr apart ↦ rw apart (there (IsDep-insert k dep deps))
]

IsDep-lookup : (k : ℕ) (dep : Ref) (deps : Dict ℕ Ref) → lookup k deps ≡ some dep → IsDep dep deps
unfolding lookup
IsDep-lookup k dep [] e = cc
IsDep-lookup k dep ((j, r) ∷ deps) e = elim (Bool-cases (j == k)) [
  | inl same ↦ subst (λ x. IsDep dep ((j, x) ∷ deps)) (same_ref r (rw same at e)) here
  | inr apart ↦ there (IsDep-lookup k dep deps (rw apart at e))
]
  where
    same_ref : (r : Ref) → some r ≡ some dep → dep ≡ r
    same_ref r e = cc

later : (o d : ExecUnit) → happens_before_in_task o d ≡ false → InTask d o
unfolding happens_before_in_task
later o d e = split (compare d.seq o.seq) (λ h. ground arith) (λ h. ground arith)
  where
    compare : (a b : ℕ) → (a < b) ⊎ (b ≤ a)
    compare a b = ground arith

    split :
        (d.seq < o.seq) ⊎ (o.seq ≤ d.seq)
        → (o.seq ≤ d.seq → d.seq ≡ o.seq)
        → (o.seq ≤ d.seq → d.clk ≤ o.clk)
        → InTask d o
    split (inl less) f g = inl less
    split (inr least) f g = inr (f least, g least)

module _ (self dep : Ref) (u d : ExecUnit) (s : Analyzer) (eu : get_elem? s.units self ≡ some u)
    (ed : get_elem? s.units dep ≡ some d) (ne : d.ptid ≢ u.ptid) where
  -- The state in which the unit depends on `dep`
  abbrev depending : Analyzer
  depending = record s { units = set s.units self (record u { deps = insert d.ptid dep u.deps }) }

  apart_refs : self ≢ dep
  apart_refs e = ne (ptids (same u d (sym eu ∙ ap (λ r. get_elem? s.units r) e ∙ ed)))
    where
      same : (a b : ExecUnit) → some a ≡ some b → a ≡ b
      same a b e = cc

      ptids : u ≡ d → d.ptid ≡ u.ptid
      ptids e = sym (ap (λ x. x.ptid) e)

  depending-HappensBefore : HappensBefore depending.units d self
  depending-HappensBefore =
      by_dep (record u { deps = insert d.ptid dep u.deps }) dep
        (get_elem?-set_self self _ u s.units eu) ne (IsDep-insert d.ptid dep u.deps)
        (in_task d (get_elem?-set_ne self dep _ s.units apart_refs ∙ ed) refl
          (inr (refl, omega arith)))

  abbrev Follows : Type 0
  Follows = (s' : Analyzer) × (add_dep self dep s ≡ done tt s') × HappensBefore s'.units d self

  add_dep-none : lookup d.ptid u.deps ≡ none → Follows
  unfolding add_dep later_dep load store modify or_raise pure ◌>>=◌
  add_dep-none e = (depending, rw (eu, ed, e), depending-HappensBefore)

  add_dep-some :
      (mine : Ref) (o : ExecUnit)
      → lookup d.ptid u.deps ≡ some mine
      → get_elem? s.units mine ≡ some o
      → o.ptid ≡ d.ptid
      → Follows
  unfolding add_dep later_dep load store modify when or_raise pure ◌>>=◌
  add_dep-some mine o e eo same = elim (Bool-cases (happens_before_in_task o d)) [
    | inl earlier ↦ (depending, rw (eu, ed, e, eo, earlier), depending-HappensBefore)
    | inr after ↦ (
      s,
      rw (eu, ed, e, eo, after),
      by_dep u mine eu ne (IsDep-lookup d.ptid mine u.deps e)
          (in_task o eo (sym same) (later o d after)),
    )
  ]

-- Let the units at `self` and `dep` belong to different tasks, and let the dependency that the first
-- has on the task of the second, if any, be a unit of that task. Then `add_dep` returns, and the unit
-- at `dep` happens before the one at `self`, also where the known dependency is the later one and is
-- kept.
pub add_dep-HappensBefore :
    (self dep : Ref) (u d : ExecUnit) (s : Analyzer)
    → get_elem? s.units self ≡ some u
    → get_elem? s.units dep ≡ some d
    → d.ptid ≢ u.ptid
    → ((mine : Ref)
        → lookup d.ptid u.deps ≡ some mine
        → (o : ExecUnit) × (get_elem? s.units mine ≡ some o) × (o.ptid ≡ d.ptid))
    → (s' : Analyzer) × (add_dep self dep s ≡ done tt s') × HappensBefore s'.units d self
add_dep-HappensBefore self dep u d s eu ed ne known = go (lookup d.ptid u.deps) refl
  where
    go :
        (o : Option Ref)
        → lookup d.ptid u.deps ≡ o
        → (s' : Analyzer) × (add_dep self dep s ≡ done tt s') × HappensBefore s'.units d self
    go none e = add_dep-none self dep u d s eu ed ne e
    go (some mine) e =
        let (o, eo, same) = known mine e in add_dep-some self dep u d s eu ed ne mine o e eo same
