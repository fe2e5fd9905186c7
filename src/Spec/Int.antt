-- ===== src/Spec/Int.antt =====
-- The integer kinds of script/spec_type_int.py: `KindSendInt`, `KindSendIntConst` and
-- `KindSendIntRange`. What `SPEC_RANDOM` draws is an argument: which of the branches, and which
-- item of the choices, or which number of the range.
pub mod Bounds
pub mod Tests
use krace.Prelude.{
  ℕ, suc, ◌+◌, ◌-◌, ◌/◌, ◌^◌, Bool, true, false, ◌&&◌, ◌||◌, not, Option, none, some, List, [], ◌∷◌,
  ◌==◌, if◌then◌else◌, get_elem?,
}
use krace.Prelude.Int.{ℤ, pos, negsuc, ◌+ℤ◌, ◌-ℤ◌, ltb_ℤ, minus_twice, abs_div, halve}
use krace.Spec.Result.{Result, ok, raised, index_error, ◌>>=◌, ◌>>◌, check, or_raise}
use krace.Spec.Pack.{pack_int}

-- `bits` and `signed`
pub record Width : Type 0 where
  pub bits : ℕ
  pub signed : Bool

-- `self.bits in {8, 16, 32, 64}`
unfoldable pub is_width : ℕ → Bool
is_width bits = bits == 8 || bits == 16 || bits == 32 || bits == 64

-- What `validate` stores of the width.
unfoldable pub int_min : Width → ℤ
int_min w = if w.signed then negsuc (2 ^ (w.bits - 1) - 1) else pos 0

unfoldable pub int_max : Width → ℤ
int_max w = pos (2 ^ (w.bits - (if w.signed then 1 else 0)) - 1)

unfoldable pub length : Width → ℕ
length w = w.bits / 8

unfoldable pub sanitize : Width → ℤ → ℤ
unfolding int_min int_max
sanitize w value =
    if ltb_ℤ value (int_min w)
    then int_min w
    else if ltb_ℤ (int_max w) value
    then int_max w
    else value

-- The draws of `KindSendInt.drag`: `p < 0.45`, `p < 0.9`, and the number drawn otherwise.
pub data Draw : Type 0 where
  step : ℕ → Draw
  extreme : ℕ → Draw
  any : ℤ → Draw

unfoldable pub step_choices : ℤ → List ℤ
step_choices value =
    (value +ℤ pos 1)
    ∷ (value +ℤ pos (abs_div value 10))
    ∷ (value +ℤ value)
    ∷ (value -ℤ pos 1)
    ∷ (value -ℤ pos (abs_div value 10))
    ∷ (value +ℤ minus_twice value)
    ∷ []

unfoldable pub extreme_choices : Width → List ℤ
extreme_choices w =
    pos 0
    ∷ pos 1
    ∷ pos 4096
    ∷ negsuc 0
    ∷ negsuc 4095
    ∷ int_min w
    ∷ (int_min w +ℤ pos 1)
    ∷ (int_min w +ℤ pos 4096)
    ∷ int_max w
    ∷ (int_max w -ℤ pos 1)
    ∷ (int_max w -ℤ pos 4096)
    ∷ []

unfoldable pub choice : List ℤ → ℕ → Result ℤ
choice values k = or_raise index_error (get_elem? values k)

abbrev pub draw_int : Width → Draw → ℤ → Result ℤ
draw_int w (step k) value = choice (step_choices value) k
draw_int w (extreme k) value = choice (extreme_choices w) k
draw_int w (any v) value = ok v

-- `KindSendInt.drag`
unfoldable pub drag : Width → Draw → ℤ → Result ℤ
drag w draw value = do retv ← draw_int w draw value; ok (sanitize w retv)

abbrev pub leb_ℤ : ℤ → ℤ → Bool
leb_ℤ a b = not (ltb_ℤ b a)

-- The kinds, by what they hold beside the width.
pub data Kind : Type 0 where
  const : ℤ → Kind
  range : ℤ → ℤ → Kind

-- `KindSendInt.validate`; what it stores is `int_min` and `int_max`.
unfoldable pub validate_int : Width → Result (Unit {0})
validate_int w = check (is_width w.bits)

-- The `validate` of the subclass.
unfoldable pub validate_kind : Width → Kind → Result (Unit {0})
validate_kind w (const val_const) =
    check (leb_ℤ (int_min w) val_const && leb_ℤ val_const (int_max w))
validate_kind w (range val_min val_max) =
    check (leb_ℤ (int_min w) val_min && leb_ℤ val_min val_max && leb_ℤ val_max (int_max w))

-- A bean is checked by the `validate` of each of its classes, the base first.
unfoldable pub validate : Width → Kind → Result (Unit {0})
unfolding validate_int validate_kind
validate w kind = do validate_int w; validate_kind w kind

-- `toss`; `randint` draws a number between its bounds.
unfoldable pub toss : Kind → ℤ → ℤ
toss (const val_const) drawn = val_const
toss (range val_min val_max) drawn = drawn

unfoldable pub const_choices : ℤ → List ℤ
const_choices val_const =
    (val_const +ℤ pos 1)
    ∷ (val_const +ℤ pos (abs_div val_const 10))
    ∷ val_const
    ∷ (val_const -ℤ pos 1)
    ∷ (val_const -ℤ pos (abs_div val_const 10))
    ∷ minus_twice val_const
    ∷ []

unfoldable pub range_choices : ℤ → ℤ → List ℤ
range_choices val_min val_max =
    val_min
    ∷ val_max
    ∷ halve (val_min +ℤ val_max)
    ∷ (val_min -ℤ pos 1)
    ∷ (val_min -ℤ pos (abs_div val_min 10))
    ∷ (val_max -ℤ pos 1)
    ∷ (val_max -ℤ pos (abs_div val_max 10))
    ∷ (val_min +ℤ pos 1)
    ∷ (val_min +ℤ pos (abs_div val_min 10))
    ∷ (val_max +ℤ pos 1)
    ∷ (val_max +ℤ pos (abs_div val_max 10))
    ∷ []

abbrev pub own_choices : Kind → List ℤ
own_choices (const val_const) = const_choices val_const
own_choices (range val_min val_max) = range_choices val_min val_max

-- The draws of the subclasses' `drag`: an item of their own, or their parent's strategy.
pub data KindDraw : Type 0 where
  own : ℕ → KindDraw
  parent : Draw → KindDraw

unfoldable pub drag_kind : Width → Kind → KindDraw → ℤ → Result ℤ
unfolding drag
drag_kind w kind (own k) value = do retv ← choice (own_choices kind) k; ok (sanitize w retv)
drag_kind w kind (parent draw) value = drag w draw value

-- The `data` of a `RandInt` through `engage_rand`, `mutate_rand` and `puzzle_rand`.
pub data Change : Type 0 where
  engage mutate : ℤ → Change
  puzzle : KindDraw → Change

unfoldable pub change_rand : Width → Kind → Change → ℤ → Result ℤ
unfolding toss drag_kind
change_rand w kind (engage drawn) value = ok (toss kind drawn)
change_rand w kind (mutate drawn) value = ok (toss kind drawn)
change_rand w kind (puzzle draw) value = drag_kind w kind draw value

unfoldable pub blob_data_rand : Width → ℤ → Result (List ℕ)
blob_data_rand w value = pack_int value w.bits w.signed
