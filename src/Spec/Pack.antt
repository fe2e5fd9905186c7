-- ===== src/Spec/Pack.antt =====
-- script/spec_pack.py and the constants that it takes from script/spec_const.py, with the formats
-- of Python's `struct` that it names: `b`, `h`, `i`, `q` are signed integers of 1, 2, 4 and 8
-- bytes, and `B`, `H`, `I`, `Q` unsigned ones. A value that does not fit raises `struct.error`.
pub mod RoundTrip
use krace.Prelude.{
  ℕ, suc, ◌+◌, ◌-◌, ◌*◌, ◌^◌, Bool, true, false, ◌&&◌, not, Option, none, some, List, [], ◌∷◌, ◌++◌,
  ltb, ◌==◌, if◌then◌else◌, length,
}
use krace.Prelude.Int.{ℤ, pos, negsuc}
use krace.Bytes.{pack, unpack}
use krace.Spec.Result.{Result, ok, raised, struct_error, runtime_error, value_error, ◌>>=◌}

abbrev pub spec_ptr_size : ℕ
spec_ptr_size = 8

abbrev pub spec_prog_heap_offset : ℕ
spec_prog_heap_offset = 64

pub data Format : Type 0 where
  ubyte sbyte ushort sshort uint sint ulong slong : Format

unfoldable pub get_int_pack_format : ℕ → Bool → Result Format
get_int_pack_format bits signed =
    if bits == 8 && not signed
    then ok ubyte
    else if bits == 8 && signed
    then ok sbyte
    else if bits == 16 && not signed
    then ok ushort
    else if bits == 16 && signed
    then ok sshort
    else if bits == 32 && not signed
    then ok uint
    else if bits == 32 && signed
    then ok sint
    else if bits == 64 && not signed
    then ok ulong
    else if bits == 64 && signed
    then ok slong
    else raised runtime_error

-- `struct.pack` of an unsigned integer of `n` bytes, below `full`.
unfoldable pub pack_unsigned : ℕ → ℕ → ℤ → Result (List ℕ)
pack_unsigned n full (pos v) = if ltb v full then ok (pack n v) else raised struct_error
pack_unsigned n full (negsuc v) = raised struct_error

-- `struct.pack` of a signed one, in two's complement; `half` is half of what `n` bytes can hold.
unfoldable pub pack_signed : ℕ → ℕ → ℤ → Result (List ℕ)
pack_signed n half (pos v) = if ltb v half then ok (pack n v) else raised struct_error
pack_signed n half (negsuc v) =
    if ltb v half then ok (pack n (2 * half - 1 - v)) else raised struct_error

unfoldable pub struct_pack : Format → ℤ → Result (List ℕ)
unfolding pack_unsigned pack_signed
struct_pack ubyte v = pack_unsigned 1 (2 ^ 8) v
struct_pack sbyte v = pack_signed 1 (2 ^ 7) v
struct_pack ushort v = pack_unsigned 2 (2 ^ 16) v
struct_pack sshort v = pack_signed 2 (2 ^ 15) v
struct_pack uint v = pack_unsigned 4 (2 ^ 32) v
struct_pack sint v = pack_signed 4 (2 ^ 31) v
struct_pack ulong v = pack_unsigned 8 (2 ^ 64) v
struct_pack slong v = pack_signed 8 (2 ^ 63) v

unfoldable pub pack_int : ℤ → ℕ → Bool → Result (List ℕ)
unfolding get_int_pack_format struct_pack
pack_int val bits signed = get_int_pack_format bits signed >>= λ f. struct_pack f val

unfoldable pub pack_ptr : ℕ → Result (List ℕ)
unfolding pack_int
pack_ptr val = pack_int (pos val) (spec_ptr_size * 8) false

-- The integer of `2 * half` values that a bit pattern stands for.
abbrev pub to_signed : ℕ → ℕ → ℤ
to_signed half w = if ltb w half then pos w else negsuc (2 * half - 1 - w)

abbrev whole : ℕ → Option (ℕ × List ℕ) → Result ℤ
whole half none = raised struct_error
whole half (some (w, [])) = ok (to_signed half w)
whole half (some (w, b ∷ bs)) = raised struct_error

-- `struct.unpack` by the format of a signed integer of `n` bytes: the bytes are exactly as many.
unfoldable pub unpack_signed : ℕ → ℕ → List ℕ → Result ℤ
unpack_signed n half bs = whole half (unpack n bs)

-- `val.encode('charmap')` and the zero that `'{}s'` with one byte more pads it by; the text is
-- given as its code points, of which one above 255 has no byte.
unfoldable pub pack_str : List ℕ → Result (List ℕ)
pack_str [] = ok (0 ∷ [])
pack_str (c ∷ cs) = do rest ← pack_str cs; if ltb c 256 then ok (c ∷ rest) else raised value_error
