-- ===== src/Dart/ExecUnit/Before/Correct.antt =====
-- script/dart.py: `ExecUnit.happens_before` returns, and decides the relation.
use krace.Prelude.{
  ℕ, zero, suc, ◌<◌, ◌≡◌, ◌≢◌, ◌↔◌, ◌⊎◌, inl, inr, refl, sym, ◌∙◌, Bool, true, false, Option, none,
  some, [], arith, get_elem?, Bool-cases, ◌==◌, ==_iff, if◌then◌else◌,
}
use mathlib.Core.Path.{subst}
use krace.Dict.{lookup, insert}
use krace.Dict.Laws.{lookup-insert}
use krace.Dict.Key.{◌=?◌}
use krace.Dart.ExecUnit.{
  Ref, ExecUnit, Store, Coordinate, coordinate, coordinate_eq, same_coordinate_iff, Hist, Visit,
  remember, search_unit, visit_unit, before, happens_before, happens_before_in_task, answer,
}
use krace.Dart.ExecUnit.Before.{
  InTask, IsDep, HappensBefore, in_task, by_base, by_dep, IsRanked, IsCoherent,
}
use krace.Dart.ExecUnit.Before.Decides.{
  IsCache, Decides, VisitDecides, SomeDep, SomeBase, before_base-Decides, or_deps-Decides,
}

ordered_within : (u v : ExecUnit) → (happens_before_in_task u v ≡ true) ↔ InTask u v
unfolding happens_before_in_task
ordered_within u v = (ground arith, ground arith)

same_value {ℓ} : {A : Type ℓ} {o : Option A} (a b : A) → o ≡ some a → o ≡ some b → a ≡ b
same_value a b p q = cc

module _ (store : Store) (this : ExecUnit) (r : Ref) (u : ExecUnit)
    (at : get_elem? store r ≡ some u) where
  -- The unit of a derivation is the one at `r`.
  same_task-only : this.ptid ≡ u.ptid → HappensBefore store this r → InTask this u
  same_task-only same (in_task v ev _ i) = subst (InTask this) (same_value v u ev at) i
  same_task-only same (by_base v b ev n _ _) =
      absurd (n (subst (λ w. this.ptid ≡ w.ptid) (same_value u v at ev) same))
  same_task-only same (by_dep v d ev n _ _) =
      absurd (n (subst (λ w. this.ptid ≡ w.ptid) (same_value u v at ev) same))

  other_task-only :
      this.ptid ≢ u.ptid
      → HappensBefore store this r
      → SomeBase store this u.base ⊎ SomeDep store this u.deps
  other_task-only other (in_task v ev same _) =
      absurd (other (subst (λ w. this.ptid ≡ w.ptid) (same_value v u ev at) same))
  other_task-only other (by_base v b ev _ eb h) =
      inl (b, subst (λ w. w.base ≡ some b) (same_value v u ev at) eb, h)
  other_task-only other (by_dep v d ev _ i h) =
      inr (d, subst (λ w. IsDep d w.deps) (same_value v u ev at) i, h)

  other_task-HappensBefore :
      this.ptid ≢ u.ptid
      → SomeBase store this u.base ⊎ SomeDep store this u.deps
      → HappensBefore store this r
  other_task-HappensBefore other (inl (b, eb, h)) = by_base u b at other eb h
  other_task-HappensBefore other (inr (d, i, h)) = by_dep u d at other i h

module _ (store : Store) (this : ExecUnit) where
  IsCache-nil : IsCache store this []
  unfolding lookup
  IsCache-nil = record { cached = λ c b e r u eu ec. cc }

  module _ (coherent : IsCoherent store this) where
    IsCache-insert :
        (hist : Hist) (b : Bool) (q : Ref) (v : ExecUnit)
        → IsCache store this hist
        → get_elem? store q ≡ some v
        → (b ≡ true) ↔ HappensBefore store this q
        → IsCache store this (insert (coordinate v) b hist)
    IsCache-insert hist b q v old ev right = record {
      cached = λ c b' e r u eu ec.
          go c b' r u eu ec (rw lookup-insert at e) (Bool-cases (coordinate v =? c));
    }
      where
        go :
            (c : Coordinate) (b' : Bool) (r : Ref) (u : ExecUnit)
            → get_elem? store r ≡ some u
            → coordinate u ≡ c
            → (if coordinate v =? c then some b else lookup c hist) ≡ some b'
            → ((coordinate v =? c) ≡ true) ⊎ ((coordinate v =? c) ≡ false)
            → (b' ≡ true) ↔ HappensBefore store this r
        go c b' r u eu ec e (inl same) =
            let e' : some b ≡ some b' = rw same at e in
            let b-b' : b ≡ b' = cc in
            let v-c : coordinate v ≡ c = (same_coordinate_iff _ _).0 same in
            (
              λ p. coherent.same_past q r v u ev eu (v-c ∙ sym ec) (right.0 (b-b' ∙ p)),
              λ h. sym b-b' ∙ right.1 (coherent.same_past r q u v eu ev (ec ∙ sym v-c) h),
            )
        go c b' r u eu ec e (inr other) = old.cached c b' (rw other at e) r u eu ec

    Decides-map :
        {P Q : Type 0} {result : Option (Bool × Hist)}
        → (P → Q)
        → (Q → P)
        → Decides store this P result
        → Decides store this Q result
    Decides-map f g d = record {
      found = d.found;
      hist = d.hist;
      returns = d.returns;
      right = (λ e. f (d.right.0 e), λ q. d.right.1 (g q));
      cache = d.cache;
    }

    module _ (visit : Visit) (r : Ref) (u : ExecUnit) (at : get_elem? store r ≡ some u) where
      record VisitsDown : Type 0 where
        down_base : (b : Ref) → u.base ≡ some b → VisitDecides store this visit b
        down_dep : (d : Ref) → IsDep d u.deps → VisitDecides store this visit d

      search_unit-Decides :
          VisitsDown
          → (hist : Hist) → IsCache store this hist
          → Decides store this (HappensBefore store this r) (search_unit visit this u hist)
      unfolding search_unit
      search_unit-Decides down hist cache = go (Bool-cases (this.ptid == u.ptid))
        where
          go :
              ((this.ptid == u.ptid) ≡ true) ⊎ ((this.ptid == u.ptid) ≡ false)
              → Decides store this (HappensBefore store this r) (search_unit visit this u hist)
          go (inl same) =
              let e : this.ptid ≡ u.ptid = (==_iff _ _).0 same in
              record {
                found = happens_before_in_task this u;
                hist = hist;
                returns = rw same;
                right = (
                  λ y. in_task u at e ((ordered_within this u).0 y),
                  λ h. (ordered_within this u).1 (same_task-only store this r u at e h),
                );
                cache = cache;
              }
          go (inr other) =
              let n : this.ptid ≢ u.ptid = ground arith in
              rw other (
                Decides-map (other_task-HappensBefore store this r u at n)
                  (other_task-only store this r u at n)
                  (or_deps-Decides store this visit u.deps (SomeBase store this u.base) _
                    down.down_dep
                    (before_base-Decides store this visit u.base down.down_base hist cache)))

      visit_unit-Decides :
          VisitsDown
          → (hist : Hist) → IsCache store this hist
          → Decides store this (HappensBefore store this r) (visit_unit visit this (some u) hist)
      visit_unit-Decides down hist cache = go (lookup (coordinate u) hist) refl
        where
          go :
              (o : Option Bool)
              → lookup (coordinate u) hist ≡ o
              → Decides store this
                  (HappensBefore store this r)
                  (visit_unit visit this (some u) hist)
          go (some b) e = record {
            found = b;
            hist = hist;
            returns = unfold visit_unit in rw (e, visit_unit);
            right = cache.cached (coordinate u) b e r u at refl;
            cache = cache;
          }
          go none e =
              let d = search_unit-Decides down hist cache in
              record {
                found = d.found;
                hist = insert (coordinate u) d.found d.hist;
                returns = unfold visit_unit remember in rw (e, visit_unit, d.returns);
                right = d.right;
                cache = IsCache-insert d.hist d.found r u d.cache at d.right;
              }

    before-suc :
        (depth : ℕ) (r : Ref) (hist : Hist)
        → before (suc depth) store this r hist
          ≡ visit_unit (before depth store this) this (get_elem? store r) hist
    unfolding before
    before-suc depth r hist = refl

    module _ (rank : Ref → ℕ) (ranked : IsRanked store rank) where
      before-Decides :
          (depth : ℕ) (r : Ref) (u : ExecUnit)
          → get_elem? store r ≡ some u
          → rank r < depth
          → VisitDecides store this (before depth store this) r
      before-Decides zero r u at h hist cache = absurd (omega arith)
      before-Decides (suc depth) r u at h hist cache =
          rw (before-suc depth r hist, at)
            (visit_unit-Decides (before depth store this) r u at
              (record {
                down_base = λ b eb.
                    let (lt, v, ev) = ranked.base_ranked r u b at eb in
                    before-Decides depth b v ev (omega arith);
                down_dep = λ d i.
                    let (lt, v, ev) = ranked.dep_ranked r u d at i in
                    before-Decides depth d v ev (omega arith);
              })
              hist cache)

-- On a store without cycles whose units of one coordinate have one past, `happens_before` returns
-- for every unit of the store, given more nested calls than the rank of the unit, and its answer is
-- yes exactly if the relation `HappensBefore` holds, although it caches answers.
pub happens_before-HappensBefore :
    (store : Store) (this : ExecUnit) (rank : Ref → ℕ) (depth : ℕ) (r : Ref) (u : ExecUnit)
    → IsRanked store rank
    → IsCoherent store this
    → get_elem? store r ≡ some u
    → rank r < depth
    → (b : Bool) × (happens_before depth store this r ≡ some b)
      × ((b ≡ true) ↔ HappensBefore store this r)
happens_before-HappensBefore store this rank depth r u ranked coherent at h =
    let d =
      before-Decides store this coherent rank ranked depth r u at h [] (IsCache-nil store this) in
    (d.found, unfold happens_before answer in rw d.returns, d.right)
