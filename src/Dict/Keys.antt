-- ===== src/Dict/Keys.antt =====
-- The keys of a dictionary of numbers.
use krace.Prelude.{
  ℕ, ◌≡◌, refl, inl, inr, true, false, ◌||◌, Bool-cases, some, List, [], ◌∷◌, arith, ◌==◌, has,
}
use krace.Dict.{Dict, lookup, insert, keys}
use krace.Dict.Key.{nat_eq}

-- No key stands twice.
abbrev pub AreDistinct : List ℕ → Type 0
AreDistinct [] = Unit {0}
AreDistinct (k ∷ ks) = (has k ks ≡ false) × AreDistinct ks

module _ {V : Type 0} where
  pub has-keys : (k : ℕ) (v : V) (d : Dict ℕ V) → lookup k d ≡ some v → has k (keys d) ≡ true
  unfolding lookup
  has-keys k v [] h = cc
  has-keys k v ((j, w) ∷ d) h = ground (arith, has-keys k v d)

  pub has-keys-insert :
      (x k : ℕ) (v : V) (d : Dict ℕ V) → has x (keys (insert k v d)) ≡ (x == k) || has x (keys d)
  unfolding insert
  has-keys-insert x k v [] = refl
  has-keys-insert x k v ((j, w) ∷ d) = ground (arith, has-keys-insert x k v d)

  pub keys-insert-AreDistinct :
      (k : ℕ) (v : V) (d : Dict ℕ V) → AreDistinct (keys d) → AreDistinct (keys (insert k v d))
  unfolding insert
  keys-insert-AreDistinct k v [] h = (refl, tt)
  keys-insert-AreDistinct k v ((j, w) ∷ d) h = elim (Bool-cases (j == k)) [
    | inl same ↦ rw same h
    | inr apart ↦
        rw apart
          (ground (arith, has-keys-insert j k v d, apart, h.0), keys-insert-AreDistinct k v d h.1)
  ]
