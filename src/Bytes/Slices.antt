-- ===== src/Bytes/Slices.antt =====
-- Slices of byte strings, and writes of a slice.
use krace.Prelude.{
  ℕ, zero, suc, ◌+◌, ◌-◌, ◌≤◌, ◌≡◌, refl, sym, ap, ◌∙◌, List, [], ◌∷◌, ◌++◌, arith, length,
}
use mathlib.Core.List.{append_assoc}
use krace.Bytes.{take, drop, pack}

-- `bs[start:stop]`
unfoldable pub slice : ℕ → ℕ → List ℕ → List ℕ
slice start stop bs = take (stop - start) (drop start bs)

-- `bs[start:stop] = new`
unfoldable pub splice : ℕ → ℕ → List ℕ → List ℕ → List ℕ
splice start stop new bs = take start bs ++ (new ++ drop stop bs)

-- `b'\x00' * n`
unfoldable pub zeros : ℕ → List ℕ
zeros zero = []
zeros (suc n) = 0 ∷ zeros n

pub length-append {ℓ} : {A : Type ℓ} (xs ys : List A) → length (xs ++ ys) ≡ length xs + length ys
length-append [] ys = omega arith
length-append (x ∷ xs) ys = omega (arith, length-append xs ys)

pub length-zeros : (n : ℕ) → length (zeros n) ≡ n
unfolding zeros
length-zeros zero = refl
length-zeros (suc n) = omega (arith, length-zeros n)

pub length-pack : (n v : ℕ) → length (pack n v) ≡ n
unfolding pack
length-pack zero v = refl
length-pack (suc n) v = omega (arith, length-pack n _)

pub length-drop : (n : ℕ) (bs : List ℕ) → length (drop n bs) ≡ length bs - n
unfolding drop
length-drop zero bs = omega arith
length-drop (suc n) [] = omega arith
length-drop (suc n) (b ∷ bs) = omega (arith, length-drop n bs)

pub length-take : (n : ℕ) (bs : List ℕ) → n ≤ length bs → length (take n bs) ≡ n
unfolding take
length-take zero bs h = refl
length-take (suc n) [] h = omega arith
length-take (suc n) (b ∷ bs) h = omega (arith, length-take n bs (omega arith))

pub take-append : (n : ℕ) (xs ys : List ℕ) → length xs ≡ n → take n (xs ++ ys) ≡ xs
unfolding take
take-append zero [] ys h = refl
take-append zero (x ∷ xs) ys h = absurd (omega arith)
take-append (suc n) [] ys h = absurd (omega arith)
take-append (suc n) (x ∷ xs) ys h = ap (λ l. x ∷ l) (take-append n xs ys (omega arith))

pub drop-append : (n : ℕ) (xs ys : List ℕ) → length xs ≡ n → drop n (xs ++ ys) ≡ ys
unfolding drop
drop-append zero [] ys h = refl
drop-append zero (x ∷ xs) ys h = absurd (omega arith)
drop-append (suc n) [] ys h = absurd (omega arith)
drop-append (suc n) (x ∷ xs) ys h = drop-append n xs ys (omega arith)

-- The slice that stands between two other parts.
pub slice_middle :
    (start stop : ℕ) (xs ys zs : List ℕ)
    → length xs ≡ start
    → length ys ≡ stop - start
    → slice start stop (xs ++ (ys ++ zs)) ≡ ys
unfolding slice
slice_middle start stop xs ys zs p q =
    rw (drop-append start xs (ys ++ zs) p) (take-append (stop - start) ys zs q)

pub length-splice :
    (start stop : ℕ) (new bs : List ℕ)
    → start ≤ stop
    → stop ≤ length bs
    → length new ≡ stop - start
    → length (splice start stop new bs) ≡ length bs
unfolding splice
length-splice start stop new bs p q e = omega (
  arith,
  length-append (take start bs) (new ++ drop stop bs),
  length-append new (drop stop bs),
  length-take start bs (omega arith),
  length-drop stop bs,
)

pub take-append-drop : (n : ℕ) (bs : List ℕ) → take n bs ++ drop n bs ≡ bs
unfolding take drop
take-append-drop zero bs = refl
take-append-drop (suc n) [] = refl
take-append-drop (suc n) (b ∷ bs) = ap (λ l. b ∷ l) (take-append-drop n bs)

take-append_left : (n : ℕ) (xs ys : List ℕ) → n ≤ length xs → take n (xs ++ ys) ≡ take n xs
unfolding take
take-append_left zero xs ys h = refl
take-append_left (suc n) [] ys h = absurd (omega arith)
take-append_left (suc n) (x ∷ xs) ys h = ap (λ l. x ∷ l) (take-append_left n xs ys (omega arith))

drop-append_left : (n : ℕ) (xs ys : List ℕ) → n ≤ length xs → drop n (xs ++ ys) ≡ drop n xs ++ ys
unfolding drop
drop-append_left zero xs ys h = refl
drop-append_left (suc n) [] ys h = absurd (omega arith)
drop-append_left (suc n) (x ∷ xs) ys h = drop-append_left n xs ys (omega arith)

drop-append_right : (n m : ℕ) (xs ys : List ℕ) → length xs + m ≡ n → drop n (xs ++ ys) ≡ drop m ys
unfolding drop
drop-append_right n m [] ys h = let e : n ≡ m = omega arith in rw e
drop-append_right zero m (x ∷ xs) ys h = absurd (omega arith)
drop-append_right (suc n) m (x ∷ xs) ys h = drop-append_right n m xs ys (omega arith)

-- A slice that lies in the first part, and one that lies in the second.
pub slice-append_left :
    (a b : ℕ) (xs ys : List ℕ) → a ≤ b → b ≤ length xs → slice a b (xs ++ ys) ≡ slice a b xs
unfolding slice
slice-append_left a b xs ys le h =
    rw (drop-append_left a xs ys (omega arith))
      (take-append_left (b - a) (drop a xs) ys (omega (arith, length-drop a xs)))

pub slice-append_right :
    (a b c d : ℕ) (xs ys : List ℕ)
    → length xs + c ≡ a
    → length xs + d ≡ b
    → slice a b (xs ++ ys) ≡ slice c d ys
unfolding slice
slice-append_right a b c d xs ys p q =
    let width : b - a ≡ d - c = omega arith in rw (width, drop-append_right a c xs ys p)

module _ (start stop : ℕ) (new bs : List ℕ) (le : start ≤ stop) (fits : stop ≤ length bs)
    (same : length new ≡ stop - start) where
  -- What is written is read, and what lies before it or after it is as it was.
  pub slice-splice : slice start stop (splice start stop new bs) ≡ new
  unfolding splice
  slice-splice =
      slice_middle start stop (take start bs) new (drop stop bs)
        (length-take start bs (omega arith)) same

  pub slice-splice_before :
      (a b : ℕ) → a ≤ b → b ≤ start → slice a b (splice start stop new bs) ≡ slice a b bs
  unfolding splice
  slice-splice_before a b ab before =
      slice-append_left a b (take start bs) (new ++ drop stop bs) ab (omega (arith, taken))
      ∙ sym (slice-append_left a b (take start bs) (drop start bs) ab (omega (arith, taken)))
      ∙ ap (slice a b) (take-append-drop start bs)
    where
      taken : length (take start bs) ≡ start
      taken = length-take start bs (omega arith)

  pub slice-splice_after :
      (a b : ℕ) → a ≤ b → stop ≤ a → slice a b (splice start stop new bs) ≡ slice a b bs
  unfolding splice
  slice-splice_after a b ab after =
      ap (slice a b) (sym (append_assoc (take start bs) new (drop stop bs)))
      ∙ slice-append_right a b (a - stop) (b - stop) (take start bs ++ new) (drop stop bs)
          (omega (arith, written)) (omega (arith, written))
      ∙ sym (
          slice-append_right a b (a - stop) (b - stop) (take stop bs) (drop stop bs)
            (omega (arith, length-take stop bs fits)) (omega (arith, length-take stop bs fits)))
      ∙ ap (slice a b) (take-append-drop stop bs)
    where
      written : length (take start bs ++ new) ≡ stop
      written =
          omega (arith, length-append (take start bs) new, length-take start bs (omega arith), same)
