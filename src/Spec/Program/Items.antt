-- ===== src/Spec/Program/Items.antt =====
-- How often an item stands in the sequences of a program, and what their edits do to that.
use native.Mathlib.Decide.{dec_lt}
use krace.Prelude.{
  ℕ, zero, suc, ◌+◌, ◌≤◌, ◌<◌, ◌≡◌, refl, ap, ◌≢◌, some, List, [], ◌∷◌, ◌++◌, arith, ◌==◌, ==_refl,
  if◌then◌else◌, length, get_elem?, set,
}
use krace.Dict.Key.{nat_eq}
use krace.Spec.Program.{Sys, Thread, insert_at, delete_at, take, drop, reverse}

abbrev pub count : Sys → List Sys → ℕ
count s [] = 0
count s (x ∷ xs) = (if x == s then 1 else 0) + count s xs

abbrev pub count_all : Sys → List Thread → ℕ
count_all s [] = 0
count_all s (thread ∷ threads) = count s thread + count_all s threads

module _ (s : Sys) where
  pub count-append : (xs ys : List Sys) → count s (xs ++ ys) ≡ count s xs + count s ys
  count-append [] ys = omega arith
  count-append (x ∷ xs) ys = omega (arith, count-append xs ys)

  pub count-insert_at :
      (i : ℕ) (x : Sys) (xs : List Sys) → count s (insert_at i x xs) ≡ count s (x ∷ xs)
  unfolding insert_at
  count-insert_at zero x xs = refl
  count-insert_at (suc i) x [] = refl
  count-insert_at (suc i) x (y ∷ xs) = omega (arith, count-insert_at i x xs)

  pub count-reverse : (xs : List Sys) → count s (reverse xs) ≡ count s xs
  unfolding reverse
  count-reverse [] = refl
  count-reverse (x ∷ xs) = omega (arith, count-append (reverse xs) (x ∷ []), count-reverse xs)

  pub count-take-drop :
      (n : ℕ) (xs : List Sys) → count s (take n xs) + count s (drop n xs) ≡ count s xs
  unfolding take drop
  count-take-drop zero xs = omega arith
  count-take-drop (suc n) [] = omega arith
  count-take-drop (suc n) (x ∷ xs) = omega (arith, count-take-drop n xs)

  pub count_all-set :
      (threads : List Thread) (i : ℕ) (old new : Thread)
      → get_elem? threads i ≡ some old
      → count_all s (set threads i new) + count s old ≡ count_all s threads + count s new
  count_all-set [] i old new h = cc
  count_all-set (t ∷ threads) zero old new h = ground (arith, h)
  count_all-set (t ∷ threads) (suc i) old new h = omega (arith, count_all-set threads i old new h)

  pub count-le-count_all :
      (threads : List Thread) (i : ℕ) (thread : Thread)
      → get_elem? threads i ≡ some thread
      → count s thread ≤ count_all s threads
  count-le-count_all [] i thread h = cc
  count-le-count_all (t ∷ threads) zero thread h = ground (arith, h)
  count-le-count_all (t ∷ threads) (suc i) thread h =
      omega (arith, count-le-count_all threads i thread h)

  -- What stands in some thread stands in one that can be named.
  pub find_thread :
      (threads : List Thread)
      → 0 < count_all s threads
      → (i : ℕ) × (thread : Thread) × (get_elem? threads i ≡ some thread) × (0 < count s thread)
  find_thread [] h = absurd (omega arith)
  find_thread (t ∷ threads) h = elim (dec_lt 0 (count s t)) [
    | yes here ↦ (0, t, refl, here)
    | no later ↦
        let (i, thread, found, stands) = find_thread threads (omega arith) in
        (suc i, thread, found, stands)
  ]

  -- The victim's position counts it among the items from there on.
  pub count-drop_at :
      (n i : ℕ) (xs : List Sys) → n ≤ i → get_elem? xs i ≡ some s → 0 < count s (drop n xs)
  unfolding drop
  count-drop_at zero i [] le h = cc
  count-drop_at zero zero (x ∷ xs) le h = ground (arith, ==_refl s)
  count-drop_at zero (suc i) (x ∷ xs) le h =
      let later : 0 < count s xs = count-drop_at zero i xs (omega arith) h in omega arith
  count-drop_at (suc n) i [] le h = cc
  count-drop_at (suc n) zero (x ∷ xs) le h = absurd (omega arith)
  count-drop_at (suc n) (suc i) (x ∷ xs) le h = count-drop_at n i xs (omega arith) h

  pub count-delete_at :
      (i : ℕ) (x : Sys) (xs : List Sys)
      → get_elem? xs i ≡ some x
      → count s (x ∷ delete_at i xs) ≡ count s xs
  unfolding delete_at
  count-delete_at i x [] h = cc
  count-delete_at zero x (y ∷ xs) h = ground (arith, h)
  count-delete_at (suc i) x (y ∷ xs) h = omega (arith, count-delete_at i x xs h)

module _ {A : Type 0} where
  pub take-insert_at :
      (n i : ℕ) (x : A) (xs : List A)
      → n ≤ i
      → i ≤ length xs
      → take n (insert_at i x xs) ≡ take n xs
  unfolding take insert_at
  take-insert_at zero i x xs le fits = refl
  take-insert_at (suc n) zero x xs le fits = absurd (omega arith)
  take-insert_at (suc n) (suc i) x [] le fits = absurd (omega arith)
  take-insert_at (suc n) (suc i) x (y ∷ xs) le fits =
      ap (λ l. y ∷ l) (take-insert_at n i x xs (omega arith) (omega arith))

  pub take-delete_at : (n i : ℕ) (xs : List A) → n ≤ i → take n (delete_at i xs) ≡ take n xs
  unfolding take delete_at
  take-delete_at zero i xs le = refl
  take-delete_at (suc n) i [] le = refl
  take-delete_at (suc n) zero (x ∷ xs) le = absurd (omega arith)
  take-delete_at (suc n) (suc i) (x ∷ xs) le = ap (λ l. x ∷ l) (take-delete_at n i xs (omega arith))

  pub delete_at-insert_at :
      (i : ℕ) (x : A) (xs : List A) → i ≤ length xs → delete_at i (insert_at i x xs) ≡ xs
  unfolding delete_at insert_at
  delete_at-insert_at zero x xs fits = refl
  delete_at-insert_at (suc i) x [] fits = absurd (omega arith)
  delete_at-insert_at (suc i) x (y ∷ xs) fits =
      ap (λ l. y ∷ l) (delete_at-insert_at i x xs (omega arith))

  pub get_elem?-insert_at :
      (i : ℕ) (x : A) (xs : List A) → i ≤ length xs → get_elem? (insert_at i x xs) i ≡ some x
  unfolding insert_at
  get_elem?-insert_at zero x xs fits = refl
  get_elem?-insert_at (suc i) x [] fits = absurd (omega arith)
  get_elem?-insert_at (suc i) x (y ∷ xs) fits = get_elem?-insert_at i x xs (omega arith)

  pub length-insert_at : (i : ℕ) (x : A) (xs : List A) → length (insert_at i x xs) ≡ suc (length xs)
  unfolding insert_at
  length-insert_at zero x xs = refl
  length-insert_at (suc i) x [] = refl
  length-insert_at (suc i) x (y ∷ xs) = ap suc (length-insert_at i x xs)

  pub length-delete_at :
      (i : ℕ) (x : A) (xs : List A)
      → get_elem? xs i ≡ some x
      → length xs ≡ suc (length (delete_at i xs))
  unfolding delete_at
  length-delete_at i x [] h = cc
  length-delete_at zero x (y ∷ xs) h = refl
  length-delete_at (suc i) x (y ∷ xs) h = ap suc (length-delete_at i x xs h)

  pub length-set : (xs : List A) (i : ℕ) (x : A) → length (set xs i x) ≡ length xs
  length-set [] i x = refl
  length-set (y ∷ xs) zero x = refl
  length-set (y ∷ xs) (suc i) x = ap suc (length-set xs i x)

  pub get_elem?-set_self :
      (xs : List A) (i : ℕ) (x y : A) → get_elem? xs i ≡ some y → get_elem? (set xs i x) i ≡ some x
  get_elem?-set_self [] i x y h = cc
  get_elem?-set_self (z ∷ xs) zero x y h = refl
  get_elem?-set_self (z ∷ xs) (suc i) x y h = get_elem?-set_self xs i x y h

  pub get_elem?-set_ne :
      (xs : List A) (i j : ℕ) (x : A) → i ≢ j → get_elem? (set xs i x) j ≡ get_elem? xs j
  get_elem?-set_ne [] i j x ne = refl
  get_elem?-set_ne (y ∷ xs) zero zero x ne = absurd (ne refl)
  get_elem?-set_ne (y ∷ xs) zero (suc j) x ne = refl
  get_elem?-set_ne (y ∷ xs) (suc i) zero x ne = refl
  get_elem?-set_ne (y ∷ xs) (suc i) (suc j) x ne = get_elem?-set_ne xs i j x (λ e. ne (ap suc e))

  pub set-set_back :
      (xs : List A) (i : ℕ) (x y : A) → get_elem? xs i ≡ some y → set (set xs i x) i y ≡ xs
  set-set_back [] i x y h = cc
  set-set_back (z ∷ xs) zero x y h = ap (λ w. w ∷ xs) (some-inj h)
    where
      some-inj : some z ≡ some y → y ≡ z
      some-inj e = cc
  set-set_back (z ∷ xs) (suc i) x y h = ap (λ l. z ∷ l) (set-set_back xs i x y h)

  pub get_elem?-lt : (xs : List A) (i : ℕ) (x : A) → get_elem? xs i ≡ some x → i < length xs
  get_elem?-lt [] i x h = cc
  get_elem?-lt (y ∷ xs) zero x h = omega arith
  get_elem?-lt (y ∷ xs) (suc i) x h = omega (arith, get_elem?-lt xs i x h)
