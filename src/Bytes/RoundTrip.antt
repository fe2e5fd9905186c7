-- ===== src/Bytes/RoundTrip.antt =====
-- Reading back the integers that were written.
use krace.Prelude.{ℕ, zero, suc, ◌/◌, ◌^◌, ◌<◌, ◌≡◌, some, List, ◌++◌, arith}
use native.Mathlib.Nat.{pow-suc}
use krace.Bytes.{unpack, pack}

-- An integer that fits into `n` bytes is read back from its `n` bytes, and what follows it is left.
pub unpack-pack :
    (n v : ℕ) (rest : List ℕ) → v < 256 ^ n → unpack n (pack n v ++ rest) ≡ some (v, rest)
unfolding unpack pack
unpack-pack zero v rest h = ground arith
unpack-pack (suc n) v rest h =
    rw (unpack-pack n (v / 256) rest (quotient_fits n v h)) (ground arith)
  where
    quotient_fits : (n v : ℕ) → v < 256 ^ suc n → v / 256 < 256 ^ n
    quotient_fits n v h = omega (arith, pow-suc 256 n)
