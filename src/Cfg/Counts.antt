-- ===== src/Cfg/Counts.antt =====
-- How many blocks are not visited yet.
use krace.Prelude.{
  ℕ, suc, ◌+◌, ◌≡◌, refl, ap, inl, inr, true, false, Bool-cases, List, [], ◌∷◌, ◌++◌, arith, ◌==◌,
  ==_iff, ==_refl, has, if◌then◌else◌, length, map,
}
use krace.Dict.Keys.{AreDistinct}

-- How many of these are not among the visited.
abbrev pub unvisited : List ℕ → List ℕ → ℕ
unvisited [] visit = 0
unvisited (k ∷ ks) visit = (if has k visit then 0 else 1) + unvisited ks visit

module _ (x : ℕ) (visit : List ℕ) where
  unvisited-other : (ks : List ℕ) → has x ks ≡ false → unvisited ks (x ∷ visit) ≡ unvisited ks visit
  unvisited-other [] h = refl
  unvisited-other (k ∷ ks) h = ground (arith, unvisited-other ks)

  -- A new visit to one of them leaves one less.
  pub unvisited-visit :
      (ks : List ℕ)
      → AreDistinct ks
      → has x ks ≡ true
      → has x visit ≡ false
      → suc (unvisited ks (x ∷ visit)) ≡ unvisited ks visit
  unvisited-visit [] d h new = cc
  unvisited-visit (k ∷ ks) d h new = elim (Bool-cases (x == k)) [
    | inl same ↦ let e = (==_iff x k).0 same in ground (arith, unvisited-other ks, same, e)
    | inr apart ↦ ground (arith, unvisited-visit ks d.1)
  ]

-- All are visited exactly where none is left.
pub unvisited-zero :
    (ks visit : List ℕ) → unvisited ks visit ≡ 0 → (x : ℕ) → has x ks ≡ true → has x visit ≡ true
unvisited-zero [] visit none_left x h = cc
unvisited-zero (k ∷ ks) visit none_left x h =
    ground (arith, ==_iff x k, unvisited-zero ks visit (ground arith) x)

pub unvisited-all :
    (ks visit : List ℕ) → ((x : ℕ) → has x ks ≡ true → has x visit ≡ true) → unvisited ks visit ≡ 0
unvisited-all [] visit all = refl
unvisited-all (k ∷ ks) visit all =
    ground (arith, all k, ==_refl k, unvisited-all ks visit (λ x h. all x (ground (arith, h))))

pub has-append : (x : ℕ) (xs ys : List ℕ) → has x xs ≡ true → has x (xs ++ ys) ≡ true
has-append x [] ys h = cc
has-append x (y ∷ xs) ys h = ground (arith, has-append x xs ys)

pub has-append_last : (x : ℕ) (xs : List ℕ) → has x (xs ++ x ∷ []) ≡ true
has-append_last x [] = ground (arith, ==_refl x)
has-append_last x (y ∷ xs) = ground (arith, has-append_last x xs)

pub has-append_cases : (x y : ℕ) (xs : List ℕ) → has x (xs ++ y ∷ []) ≡ true → has x (y ∷ xs) ≡ true
has-append_cases x y [] h = h
has-append_cases x y (z ∷ xs) h = ground (arith, has-append_cases x y xs)

pub unvisited-none : (ks : List ℕ) → unvisited ks [] ≡ length ks
unvisited-none [] = refl
unvisited-none (k ∷ ks) = omega (arith, unvisited-none ks)

pub length-map {ℓ κ} :
    {A : Type ℓ} {B : Type κ} (f : A → B) (xs : List A) → length (map f xs) ≡ length xs
length-map f [] = refl
length-map f (x ∷ xs) = ap suc (length-map f xs)
