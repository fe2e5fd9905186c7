-- ===== src/Dict.antt =====
-- Python's `dict`: entries in insertion order. A write to a present key keeps its place, `del`
-- removes it, and iteration follows the entries.
pub mod Key
pub mod Keys
pub mod Laws
use krace.Prelude.{ℕ, Bool, Option, none, some, List, [], ◌∷◌, map, if◌then◌else◌, is_some}
use Key.{Eq, ◌=?◌}

abbrev pub Dict {ℓ κ} : Type ℓ → Type κ → Type (ℓ ⊔ κ)
Dict K V = List (K × V)

module _ {ℓ κ} {K : Type ℓ} {V : Type κ} ⦃e : Eq K⦄ where
  -- `d.get(k)`
  unfoldable pub lookup : K → Dict K V → Option V
  lookup k [] = none
  lookup k ((j, v) ∷ d) = if j =? k then some v else lookup k d

  -- `k in d`
  unfoldable pub contains : K → Dict K V → Bool
  contains k d = is_some (lookup k d)

  -- `d[k] = v`
  unfoldable pub insert : K → V → Dict K V → Dict K V
  insert k v [] = (k, v) ∷ []
  insert k v ((j, w) ∷ d) = let rest = insert k v d in if j =? k then (j, v) ∷ d else (j, w) ∷ rest

  -- `del d[k]`
  unfoldable pub erase : K → Dict K V → Dict K V
  erase k [] = []
  erase k ((j, w) ∷ d) = let rest = erase k d in if j =? k then d else (j, w) ∷ rest

module _ {ℓ κ} {K : Type ℓ} {V : Type κ} where
  abbrev pub key : K × V → K
  key (k, v) = k

  abbrev pub value : K × V → V
  value (k, v) = v

  -- `d.keys()`
  abbrev pub keys : Dict K V → List K
  keys d = map key d

  -- `d.values()`
  abbrev pub values : Dict K V → List V
  values d = map value d
