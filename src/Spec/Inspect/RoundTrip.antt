-- ===== src/Spec/Inspect/RoundTrip.antt =====
-- A return value that is packed into its hole is the one that is extracted.
use krace.Prelude.{ℕ, ◌^◌, ◌≡◌, refl, sym, ap, ◌∙◌, true, List, arith, length}
use mathlib.Core.Path.{subst}
use native.Mathlib.Decide.{ℕ_discrete}
use krace.Prelude.Int.{ℤ}
use krace.Spec.Result.{ok, ◌>>=◌}
use krace.Spec.Pack.{pack_int, pack_signed}
use krace.Spec.Pack.RoundTrip.{unpack_signed-pack_signed, length-pack_signed}
use krace.Spec.Executable.{Hole, Executable}
use krace.Spec.Executable.Writes.{bytes_of}
use krace.Spec.Inspect.{extract_bytes, extract_retv}

-- What `pack_int` packs as a signed integer, it packs at one of the four widths.
data Packed (v : ℤ) (bits : ℕ) (bytes : List ℕ) : Type 0 where
  at_8 : bits ≡ 8 → pack_signed 1 (2 ^ 7) v ≡ ok bytes → Packed v bits bytes
  at_16 : bits ≡ 16 → pack_signed 2 (2 ^ 15) v ≡ ok bytes → Packed v bits bytes
  at_32 : bits ≡ 32 → pack_signed 4 (2 ^ 31) v ≡ ok bytes → Packed v bits bytes
  at_64 : bits ≡ 64 → pack_signed 8 (2 ^ 63) v ≡ ok bytes → Packed v bits bytes

pack_int_cases :
    (v : ℤ) (bits : ℕ) (bytes : List ℕ) → pack_int v bits true ≡ ok bytes → Packed v bits bytes
unfolding pack_int ◌>>=◌
pack_int_cases v bits bytes h = elim (ℕ_discrete bits 8) [
  | yes e ↦ at_8 e (at_width e)
  | no n₈ ↦ elim (ℕ_discrete bits 16) [
    | yes e ↦ at_16 e (at_width e)
    | no n₁₆ ↦ elim (ℕ_discrete bits 32) [
      | yes e ↦ at_32 e (at_width e)
      | no n₃₂ ↦ elim (ℕ_discrete bits 64) [
        | yes e ↦ at_64 e (at_width e)
        | no n₆₄ ↦ absurd (ground arith)
      ]
    ]
  ]
]
  where
    at_width : {n : ℕ} → bits ≡ n → pack_int v n true ≡ ok bytes
    at_width e = subst (λ b. pack_int v b true ≡ ok bytes) e h

-- An integer that is packed as a signed one of a width, into a hole as long as its bytes, is what
-- `_extract_retv` takes from the hole.
pub extract_retv-pack_int :
    (v : ℤ) (bits : ℕ) (bytes : List ℕ) (hole : Hole) (inst : Executable)
    → pack_int v bits true ≡ ok bytes
    → length bytes ≡ hole.size
    → bytes_of hole inst ≡ bytes
    → extract_retv hole inst.heap ≡ ok v
unfolding extract_retv
extract_retv-pack_int v bits bytes hole inst packed long at =
    ap (λ n. extract_bytes n (bytes_of hole inst)) (sym long)
    ∙ ap (extract_bytes (length bytes)) at
    ∙ by_width (pack_int_cases v bits bytes packed)
  where
    by_width : Packed v bits bytes → extract_bytes (length bytes) bytes ≡ ok v
    by_width (at_8 e p) =
        ap (λ n. extract_bytes n bytes) (length-pack_signed 1 (2 ^ 7) v p)
        ∙ unpack_signed-pack_signed 1 (2 ^ 7) v refl p
    by_width (at_16 e p) =
        ap (λ n. extract_bytes n bytes) (length-pack_signed 2 (2 ^ 15) v p)
        ∙ unpack_signed-pack_signed 2 (2 ^ 15) v refl p
    by_width (at_32 e p) =
        ap (λ n. extract_bytes n bytes) (length-pack_signed 4 (2 ^ 31) v p)
        ∙ unpack_signed-pack_signed 4 (2 ^ 31) v refl p
    by_width (at_64 e p) =
        ap (λ n. extract_bytes n bytes) (length-pack_signed 8 (2 ^ 63) v p)
        ∙ unpack_signed-pack_signed 8 (2 ^ 63) v refl p
