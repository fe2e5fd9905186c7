-- ===== src/Spec/Bytecode/Sorted.antt =====
-- `sorted` of numbers.
use mathlib.Core.List.{Permᴰ}
use mathlib.Core.List.Permᴰ
use krace.Prelude.{
  ℕ, ◌≤◌, ◌≡◌, refl, inl, inr, false, ◌||◌, Bool-cases, List, [], ◌∷◌, arith, leb, ◌==◌, ==_iff,
  has, All,
}
use krace.Dict.Keys.{AreDistinct}
use krace.Spec.Bytecode.{insert_sorted, sorted}

-- No number is above a later one.
abbrev pub IsAscending : List ℕ → Type 0
IsAscending [] = Unit {0}
IsAscending (x ∷ xs) = All (λ y. x ≤ y) xs × IsAscending xs

lower_bound : (x y : ℕ) (xs : List ℕ) → x ≤ y → All (λ z. y ≤ z) xs → All (λ z. x ≤ z) xs
lower_bound x y [] h a = tt
lower_bound x y (z ∷ xs) h a = (omega (arith, h, a.0), lower_bound x y xs h a.1)

insert_sorted-All :
    (x y : ℕ) (xs : List ℕ) → y ≤ x → All (λ z. y ≤ z) xs → All (λ z. y ≤ z) (insert_sorted x xs)
unfolding insert_sorted
insert_sorted-All x y [] h a = (h, tt)
insert_sorted-All x y (z ∷ xs) h a = elim (Bool-cases (leb x z)) [
  | inl low ↦ rw low (h, a)
  | inr high ↦ rw high (a.0, insert_sorted-All x y xs h a.1)
]

insert_sorted-IsAscending :
    (x : ℕ) (xs : List ℕ) → IsAscending xs → IsAscending (insert_sorted x xs)
unfolding insert_sorted
insert_sorted-IsAscending x [] a = (tt, tt)
insert_sorted-IsAscending x (y ∷ xs) a = elim (Bool-cases (leb x y)) [
  | inl low ↦
      let below : x ≤ y = ground (arith, low) in rw low ((below, lower_bound x y xs below a.0), a)
  | inr high ↦
      rw high
        (insert_sorted-All x y xs (ground (arith, high)) a.0, insert_sorted-IsAscending x xs a.1)
]

pub sorted-IsAscending : (xs : List ℕ) → IsAscending (sorted xs)
unfolding sorted
sorted-IsAscending [] = tt
sorted-IsAscending (x ∷ xs) = insert_sorted-IsAscending x (sorted xs) (sorted-IsAscending xs)

insert_sorted-Perm : (x : ℕ) (xs : List ℕ) → Permᴰ (insert_sorted x xs) (x ∷ xs)
unfolding insert_sorted
insert_sorted-Perm x [] = Permᴰ.refl (x ∷ [])
insert_sorted-Perm x (y ∷ xs) = elim (Bool-cases (leb x y)) [
  | inl low ↦ rw low (Permᴰ.refl (x ∷ y ∷ xs))
  | inr high ↦
      rw high (Permᴰ.trans (Permᴰ.cons refl (insert_sorted-Perm x xs)) (Permᴰ.swap refl refl))
]

pub sorted-Perm : (xs : List ℕ) → Permᴰ (sorted xs) xs
unfolding sorted
sorted-Perm [] = Permᴰ.nil
sorted-Perm (x ∷ xs) =
    Permᴰ.trans (insert_sorted-Perm x (sorted xs)) (Permᴰ.cons refl (sorted-Perm xs))

has-insert_sorted : (z x : ℕ) (xs : List ℕ) → has z (insert_sorted x xs) ≡ (z == x) || has z xs
unfolding insert_sorted
has-insert_sorted z x [] = refl
has-insert_sorted z x (y ∷ xs) = ground (arith, has-insert_sorted z x xs)

pub has-sorted : (z : ℕ) (xs : List ℕ) → has z (sorted xs) ≡ has z xs
unfolding sorted
has-sorted z [] = refl
has-sorted z (x ∷ xs) = ground (arith, has-insert_sorted z x (sorted xs), has-sorted z xs)

insert_sorted-AreDistinct :
    (x : ℕ) (xs : List ℕ) → has x xs ≡ false → AreDistinct xs → AreDistinct (insert_sorted x xs)
unfolding insert_sorted
insert_sorted-AreDistinct x [] n d = (refl, tt)
insert_sorted-AreDistinct x (y ∷ xs) n d = elim (Bool-cases (leb x y)) [
  | inl low ↦ rw low (n, d)
  | inr high ↦ rw high (
    ground (arith, n, d.0, has-insert_sorted y x xs, ==_iff x y, ==_iff y x),
    insert_sorted-AreDistinct x xs (ground (arith, n)) d.1,
  )
]

pub sorted-AreDistinct : (xs : List ℕ) → AreDistinct xs → AreDistinct (sorted xs)
unfolding sorted
sorted-AreDistinct [] d = tt
sorted-AreDistinct (x ∷ xs) d =
    insert_sorted-AreDistinct x (sorted xs) (ground (arith, has-sorted x xs, d.0))
      (sorted-AreDistinct xs d.1)
