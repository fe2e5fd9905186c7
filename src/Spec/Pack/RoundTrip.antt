-- ===== src/Spec/Pack/RoundTrip.antt =====
-- Integers that were packed and are read back.

use krace.Prelude.{ℕ, ◌-◌, ◌*◌, ◌^◌, ◌<◌, ◌≡◌, refl, List, [], arith, length}
use mathlib.Core.List.{append-nil}
use krace.Prelude.Int.{ℤ, pos, negsuc, ◌≤ℤ◌}
use krace.Bytes.{pack}
use krace.Bytes.RoundTrip.{unpack-pack}
use krace.Bytes.Slices.{length-pack}
use krace.Spec.Result.{ok, ◌>>=◌}
use krace.Spec.Pack.{pack_signed, pack_unsigned, unpack_signed, pack_ptr, to_signed}

-- What `struct.unpack` makes of the bytes of a number.
unpack_signed-pack :
    (n half w : ℕ)
    → 256 ^ n ≡ 2 * half
    → w < 2 * half
    → unpack_signed n half (pack n w) ≡ ok (to_signed half w)
unfolding unpack_signed
unpack_signed-pack n half w e h =
    let read = unpack-pack n w [] (rw e h) in rw (rw (append-nil (pack n w)) at read) refl

-- What was packed as a signed integer of `n` bytes is read back as the same integer.
pub unpack_signed-pack_signed :
    (n half : ℕ) (v : ℤ) {bs : List ℕ}
    → 256 ^ n ≡ 2 * half
    → pack_signed n half v ≡ ok bs
    → unpack_signed n half bs ≡ ok v
unfolding pack_signed
unpack_signed-pack_signed n half (pos v) e h = ground (arith, unpack_signed-pack n half v e)
unpack_signed-pack_signed n half (negsuc v) e h =
    ground (arith, unpack_signed-pack n half (2 * half - 1 - v) e)

-- A packed signed integer has `n` bytes, and every integer of the range is packed.
pub length-pack_signed :
    (n half : ℕ) (v : ℤ) {bs : List ℕ} → pack_signed n half v ≡ ok bs → length bs ≡ n
unfolding pack_signed
length-pack_signed n half (pos v) h = ground (arith, length-pack n v)
length-pack_signed n half (negsuc v) h = ground (arith, length-pack n (2 * half - 1 - v))

pub pack_ptr_lem : (w : ℕ) → w < 2 ^ 64 → pack_ptr w ≡ ok (pack 8 w)
unfolding pack_ptr ◌>>=◌
pack_ptr_lem w h = ground arith

-- Every integer of the range is packed, and into `n` bytes.
pub pack_unsigned-returns :
    (n full : ℕ) (v : ℤ)
    → 0 < full
    → pos 0 ≤ℤ v
    → v ≤ℤ pos (full - 1)
    → (bytes : List ℕ) × (pack_unsigned n full v ≡ ok bytes) × (length bytes ≡ n)
unfolding pack_unsigned
pack_unsigned-returns n full (pos v) some_room low high = (pack n v, ground arith, length-pack n v)
pack_unsigned-returns n full (negsuc v) some_room low high = absurd (omega arith)

pub pack_signed-returns :
    (n half : ℕ) (v : ℤ)
    → 0 < half
    → negsuc (half - 1) ≤ℤ v
    → v ≤ℤ pos (half - 1)
    → (bytes : List ℕ) × (pack_signed n half v ≡ ok bytes) × (length bytes ≡ n)
unfolding pack_signed
pack_signed-returns n half (pos v) some_room low high = (pack n v, ground arith, length-pack n v)
pack_signed-returns n half (negsuc v) some_room low high =
    (pack n (2 * half - 1 - v), ground arith, length-pack n (2 * half - 1 - v))
