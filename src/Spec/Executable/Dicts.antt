-- ===== src/Spec/Executable/Dicts.antt =====
-- Reading the holes and the offsets after a write.
use krace.Prelude.{ℕ, ◌≡◌, refl, ◌≢◌, ◌⊎◌, inl, inr, Bool-cases, ==_iff, some, [], ◌∷◌, arith, ◌==◌}
use krace.Dict.{Dict, lookup, insert}
use krace.Dict.Key.{nat_eq}
use krace.Dict.Laws.{lookup-insert}
use krace.Spec.Executable.{Lego, Hole, mark, mark_all}

module _ {ℓ} {V : Type ℓ} where
  -- What is found after a write was written, or was there.
  pub lookup-insert_cases :
      (k j : ℕ) (v : V) (d : Dict ℕ V) {w : V}
      → lookup j (insert k v d) ≡ some w
      → ((k ≡ j) × (v ≡ w)) ⊎ ((k ≢ j) × (lookup j d ≡ some w))
  lookup-insert_cases k j v d h = elim (Bool-cases (k == j)) [
    | inl p ↦ inl ((==_iff k j).0 p, ground (arith, lookup-insert k j v d))
    | inr p ↦ inr (ground arith, ground (arith, lookup-insert k j v d))
  ]

-- A hole that is found among the marked ones was there, at the same place.
pub lookup-mark_all :
    (hole : Hole) (lego : Lego) (repo : Dict Lego Hole) {item : Hole}
    → lookup lego (mark_all hole repo) ≡ some item
    → (old : Hole) × (lookup lego repo ≡ some old) × (item ≡ mark hole old)
unfolding lookup mark_all
lookup-mark_all hole lego [] h = cc
lookup-mark_all hole lego ((j, item) ∷ repo) h = elim (Bool-cases (j == lego)) [
  | inl same ↦ rw same (item, refl, ground (arith, same))
  | inr apart ↦ rw apart (lookup-mark_all hole lego repo (rw apart at h))
]
