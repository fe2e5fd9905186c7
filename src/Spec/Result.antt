-- ===== src/Spec/Result.antt =====
-- Code that may raise: what Python raises of itself, an `assert` that fails, and the repository's
-- own `RuntimeError`.
use krace.Prelude.{◌≡◌, refl, Bool, true, false, Option, none, some, List, [], ◌∷◌}

pub data Failure : Type 0 where
  assertion key_error index_error value_error struct_error runtime_error : Failure

pub data Result {ℓ} (A : Type ℓ) : Type ℓ where
  raised : Failure → Result A
  ok : A → Result A

module _ {ℓ κ} {A : Type ℓ} {B : Type κ} where
  -- What is raised goes past the rest.
  infixl 5 ◌>>=◌
  unfoldable pub ◌>>=◌ : Result A → (A → Result B) → Result B
  raised failure >>= rest = raised failure
  ok value >>= rest = rest value

module _ {ℓ} {B : Type ℓ} where
  infixl 5 ◌>>◌
  abbrev pub ◌>>◌ : Result (Unit {0}) → Result B → Result B
  first >> rest = first >>= λ done. rest

-- `assert b`
unfoldable pub check : Bool → Result (Unit {0})
check true = ok tt
check false = raised assertion

unfoldable pub or_raise {ℓ} : {A : Type ℓ} → Failure → Option A → Result A
or_raise e none = raised e
or_raise e (some a) = ok a

-- `[f(x) for x in xs]`
unfoldable pub map_all {ℓ κ} : {A : Type ℓ} {B : Type κ} → (A → Result B) → List A → Result (List B)
map_all f [] = ok []
map_all f (x ∷ xs) = do y ← f x; ys ← map_all f xs; ok (y ∷ ys)

-- A row of steps that returns: the first one did, and the rest did with its value.
module _ {ℓ κ} {A : Type ℓ} {B : Type κ} (first : Result A) (rest : A → Result B) where
  pub >>=-eq-ok :
      {result : B}
      → (first >>= rest) ≡ ok result
      → (value : A) × (first ≡ ok value) × (rest value ≡ ok result)
  unfolding ◌>>=◌
  >>=-eq-ok returned = inverted first returned
    where
      inverted :
          {result : B} (m : Result A)
          → (m >>= rest) ≡ ok result
          → (value : A) × (m ≡ ok value) × (rest value ≡ ok result)
      inverted (raised failure) e = cc
      inverted (ok value) e = (value, refl, e)

  pub >>=-ok : {value : A} → first ≡ ok value → (first >>= rest) ≡ rest value
  unfolding ◌>>=◌
  >>=-ok e = rw e refl

pub check-eq-ok : (b : Bool) {u : Unit {0}} → check b ≡ ok u → b ≡ true
unfolding check
check-eq-ok true h = refl
check-eq-ok false h = cc

pub or_raise-eq-ok {ℓ} :
    {A : Type ℓ} (e : Failure) (o : Option A) {a : A} → or_raise e o ≡ ok a → o ≡ some a
unfolding or_raise
or_raise-eq-ok e none h = cc
or_raise-eq-ok e (some b) h = cc

pub or_raise-ok {ℓ} :
    {A : Type ℓ} (e : Failure) (o : Option A) {a : A} → o ≡ some a → or_raise e o ≡ ok a
unfolding or_raise
or_raise-ok e o h = rw h refl
