-- ===== src/Dart/ExecUnit/Before/Decides.antt =====
-- script/dart.py: the loops of `ExecUnit._happens_before` over the base and the dependencies, for any
-- recursive call that decides the relation.
use krace.Prelude.{
  ℕ, ◌≡◌, ◌↔◌, ◌⊎◌, inl, inr, refl, Bool, true, false, Option, none, some, [], ◌∷◌, arith,
  get_elem?,
}
use mathlib.Core.Path.{subst}
use krace.Dict.{Dict, lookup}
use krace.Dart.ExecUnit.{
  Ref, ExecUnit, Store, Coordinate, coordinate, coordinate_eq, Hist, Visit, before_base,
  before_deps, or_deps,
}
use krace.Dart.ExecUnit.Before.{IsDep, here, there, HappensBefore}

module _ (store : Store) (this : ExecUnit) where
  -- Every cached answer is right for the units of its coordinate.
  pub record IsCache (hist : Hist) : Type 0 where
    pub cached :
        (c : Coordinate) (b : Bool)
        → lookup c hist ≡ some b
        → (r : Ref) (u : ExecUnit) → get_elem? store r ≡ some u
        → coordinate u ≡ c
        → (b ≡ true) ↔ HappensBefore store this r

  -- A search for `P` returns, with the right answer and a cache that is still right.
  pub record Decides (P : Type 0) (result : Option (Bool × Hist)) : Type 0 where
    pub found : Bool
    pub hist : Hist
    pub returns : result ≡ some (found, hist)
    pub right : (found ≡ true) ↔ P
    pub cache : IsCache hist

  abbrev pub SomeDep : Dict ℕ Ref → Type 0
  SomeDep deps = (dep : Ref) × IsDep dep deps × HappensBefore store this dep

  abbrev pub SomeBase : Option Ref → Type 0
  SomeBase base = (b : Ref) × (base ≡ some b) × HappensBefore store this b

  module _ (visit : Visit) where
    abbrev pub VisitDecides : Ref → Type 0
    VisitDecides r =
        (hist : Hist) → IsCache hist → Decides (HappensBefore store this r) (visit r hist)

    not_here :
        {k : ℕ} {dep : Ref} (deps : Dict ℕ Ref)
        → (false ≡ true ↔ HappensBefore store this dep)
        → SomeDep ((k, dep) ∷ deps)
        → SomeDep deps
    not_here deps right (x, here, p) = absurd (cc (right.1 p))
    not_here deps right (x, there i, p) = (x, i, p)

    deps_cons-Decides :
        (k : ℕ) (dep : Ref) (deps : Dict ℕ Ref) (before_hist : Hist) (b : Bool) (hist : Hist)
        → visit dep before_hist ≡ some (b, hist)
        → (b ≡ true ↔ HappensBefore store this dep)
        → IsCache hist
        → Decides (SomeDep deps) (before_deps visit deps hist)
        → Decides (SomeDep ((k, dep) ∷ deps)) (before_deps visit ((k, dep) ∷ deps) before_hist)
    unfolding before_deps
    deps_cons-Decides k dep deps before_hist true hist e right cache d = record {
      found = true;
      hist = hist;
      returns = rw (e, before_deps);
      right = (λ _. (dep, here, right.0 refl), λ _. refl);
      cache = cache;
    }
    deps_cons-Decides k dep deps before_hist false hist e right cache d = record {
      found = d.found;
      hist = d.hist;
      returns = rw (e, before_deps) d.returns;
      right = (
        λ yes'. let (x, i, p) = d.right.0 yes' in (x, there i, p),
        λ w. d.right.1 (not_here deps right w),
      );
      cache = d.cache;
    }

    before_deps-Decides :
        (deps : Dict ℕ Ref)
        → ((dep : Ref) → IsDep dep deps → VisitDecides dep)
        → (hist : Hist) → IsCache hist
        → Decides (SomeDep deps) (before_deps visit deps hist)
    before_deps-Decides [] each hist cache = record {
      found = false;
      hist = hist;
      returns = unfold before_deps in refl;
      right = (λ e. cc, λ w. none_of w);
      cache = cache;
    }
      where
        none_of : SomeDep [] → (false ≡ true)
        none_of (x, i, p) = elim i [ ]
    before_deps-Decides ((k, dep) ∷ deps) each hist cache =
        let d = each dep here hist cache in
        deps_cons-Decides k dep deps hist d.found d.hist d.returns d.right d.cache
          (before_deps-Decides deps (λ x i. each x (there i)) d.hist d.cache)

    pub before_base-Decides :
        (base : Option Ref)
        → ((b : Ref) → base ≡ some b → VisitDecides b)
        → (hist : Hist) → IsCache hist
        → Decides (SomeBase base) (before_base visit base hist)
    unfolding before_base
    before_base-Decides none each hist cache = record {
      found = false;
      hist = hist;
      returns = refl;
      right = (λ e. cc, λ w. cc w.1);
      cache = cache;
    }
    before_base-Decides (some b) each hist cache =
        let d = each b refl hist cache in
        record {
          found = d.found;
          hist = d.hist;
          returns = d.returns;
          right = (λ e. (b, refl, d.right.0 e), λ w. d.right.1 (moved w));
          cache = d.cache;
        }
      where
        moved : SomeBase (some b) → HappensBefore store this b
        moved (x, e, p) = subst (HappensBefore store this) (ground arith) p

    -- The base first, then the dependencies.
    pub or_deps-Decides :
        (deps : Dict ℕ Ref) (P : Type 0) (result : Option (Bool × Hist))
        → ((dep : Ref) → IsDep dep deps → VisitDecides dep)
        → Decides P result
        → Decides (P ⊎ SomeDep deps) (or_deps visit deps result)
    or_deps-Decides deps P result each d = go d.found d.returns d.right
      where
        go :
            (b : Bool)
            → result ≡ some (b, d.hist)
            → (b ≡ true ↔ P)
            → Decides (P ⊎ SomeDep deps) (or_deps visit deps result)
        go true e right = record {
          found = true;
          hist = d.hist;
          returns = unfold or_deps in rw e;
          right = (λ _. inl (right.0 refl), λ _. refl);
          cache = d.cache;
        }
        go false e right =
            let f = before_deps-Decides deps each d.hist d.cache in
            record {
              found = f.found;
              hist = f.hist;
              returns = unfold or_deps in rw e f.returns;
              right = (
                λ y. inr (f.right.0 y),
                λ w. elim w [ inl p ↦ cc (right.1 p) | inr q ↦ f.right.1 q ],
              );
              cache = f.cache;
            }
