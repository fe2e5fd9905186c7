-- ===== src/Spec/Int/Tests.antt =====
-- A signed byte: its draws at the ends of the range.
use krace.Prelude.{ℕ, ◌≡◌, refl, true, false, List, ◌/◌}
use krace.Prelude
use krace.Prelude.Int.{ℤ, pos, negsuc, ◌+ℤ◌, ◌-ℤ◌, abs_div}
use krace.Spec.Result.{ok, raised, assertion, struct_error, ◌>>=◌, check, or_raise}
use krace.Spec.Pack.{pack_int}
use krace.Spec.Int.{
  Width, Kind, const, range, own, parent, step, puzzle, validate, is_width, int_min, int_max,
  sanitize, choice, range_choices, step_choices, change_rand, blob_data_rand, length,
}
use krace.Spec.Int.Bounds.{Fits, change_rand-packs}

abbrev sbyte : Width
sbyte = record { bits = 8; signed = true }

abbrev percent : Kind
percent = range (negsuc 127) (pos 100)

percent_valid : validate sbyte percent ≡ ok tt
unfolding validate ◌>>=◌ check is_width int_min int_max
percent_valid = refl

change_rand-packs_example :
    (v : ℤ) × (change_rand sbyte percent (puzzle (own 3)) (pos 7) ≡ ok v)
    × Fits sbyte v
    × ((bytes : List ℕ) × (blob_data_rand sbyte v ≡ ok bytes)
        × (Prelude.length bytes ≡ length sbyte))
change_rand-packs_example =
    change_rand-packs sbyte percent (puzzle (own 3)) (pos 7) percent_valid (omega Prelude.arith)

-- One less than the least value is the least value again.
keeps_least : change_rand sbyte percent (puzzle (own 3)) (pos 7) ≡ ok (negsuc 127)
unfolding change_rand ◌>>=◌ choice or_raise range_choices ◌-ℤ◌ ◌+ℤ◌ abs_div sanitize
keeps_least = refl

-- Twice the greatest value is the greatest value.
keeps_greatest : change_rand sbyte percent (puzzle (parent (step 2))) (pos 127) ≡ ok (pos 127)
unfolding change_rand ◌>>=◌ choice or_raise step_choices ◌-ℤ◌ ◌+ℤ◌ abs_div sanitize
keeps_greatest = refl

-- The parent's values are not held to the range of the kind.
leaves_range :
    change_rand sbyte (range (pos 0) (pos 9)) (puzzle (parent (step 2))) (pos 9) ≡ ok (pos 18)
unfolding change_rand ◌>>=◌ choice or_raise step_choices ◌-ℤ◌ ◌+ℤ◌ abs_div sanitize
leaves_range = refl

refuses_constant : validate sbyte (const (pos 128)) ≡ raised assertion
unfolding validate ◌>>=◌ check is_width int_min int_max
refuses_constant = refl

does_not_pack : pack_int (pos 128) 8 true ≡ raised struct_error
unfolding pack_int ◌>>=◌
does_not_pack = refl
