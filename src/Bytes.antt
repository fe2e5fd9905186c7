-- ===== src/Bytes.antt =====
-- What the analyzer uses of Python's `struct` and of file reads: little-endian unsigned integers
-- ('I' is 4 bytes, 'Q' is 8), at a position that moves.
pub mod RoundTrip
pub mod Slices
use krace.Prelude.{ℕ, zero, suc, ◌+◌, ◌*◌, ◌/◌, ◌%◌, Option, none, some, List, [], ◌∷◌}

-- `f.read(n)`: what is read, and the rest; at the end of the file it may be short.
unfoldable pub take : ℕ → List ℕ → List ℕ
take zero bs = []
take (suc n) [] = []
take (suc n) (b ∷ bs) = b ∷ take n bs

unfoldable pub drop : ℕ → List ℕ → List ℕ
drop zero bs = bs
drop (suc n) [] = []
drop (suc n) (b ∷ bs) = drop n bs

abbrev with_digit : ℕ → Option (ℕ × List ℕ) → Option (ℕ × List ℕ)
with_digit b none = none
with_digit b (some (v, bs)) = some (b + 256 * v, bs)

-- An unsigned integer of `n` bytes, and the rest; `none` where `struct.unpack` has too few bytes.
unfoldable pub unpack : ℕ → List ℕ → Option (ℕ × List ℕ)
unpack zero bs = some (0, bs)
unpack (suc n) [] = none
unpack (suc n) (b ∷ bs) = with_digit b (unpack n bs)

-- The bytes of an unsigned integer, least first, as the kernel's runtime writes them.
unfoldable pub pack : ℕ → ℕ → List ℕ
pack zero v = []
pack (suc n) v = (v % 256) ∷ pack n (v / 256)
