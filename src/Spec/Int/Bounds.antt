-- ===== src/Spec/Int/Bounds.antt =====
-- The data of an integer lego always fits its width.
use krace.Prelude.{
  ℕ, suc, zero, ◌+◌, ◌-◌, ◌/◌, ◌<◌, ◌≤◌, ◌≡◌, refl, sym, ◌^◌, false, ◌⊎◌, inl, inr, Bool, true,
  Option, none, some, List, [], ◌∷◌, arith, get_elem?,
}
use krace.Prelude
use krace.Prelude.Int.{ℤ, ◌≤ℤ◌}
use mathlib.Core.Path.{subst}
use krace.Spec.Pack.RoundTrip.{pack_signed-returns, pack_unsigned-returns}
use krace.Spec.Result.{Result, ok, >>=-eq-ok, >>=-ok, or_raise, check-eq-ok, ◌>>=◌}
use krace.Spec.Pack.{pack_int}
use krace.Spec.Int.{
  Width, is_width, int_min, int_max, length, sanitize, Draw, step, extreme, any, choice,
  step_choices, extreme_choices, const_choices, range_choices, draw_int, drag, Kind, const, range,
  validate, validate_int, toss, own, parent, Change, engage, mutate, puzzle, change_rand,
  blob_data_rand,
}

-- The value lies in the range of the width.
abbrev pub Fits : Width → ℤ → Type 0
Fits w value = (int_min w ≤ℤ value) × (value ≤ℤ int_max w)

-- A choice is made from its list, and a number drawn lies between its bounds.
abbrev pub IsDraw : Draw → Type 0
IsDraw (step k) = k < 6
IsDraw (extreme k) = k < 11
IsDraw (any v) = Unit {0}

abbrev pub IsDrawn : Kind → Change → Type 0
IsDrawn (const val_const) (engage drawn) = Unit
IsDrawn (const val_const) (mutate drawn) = Unit
IsDrawn (const val_const) (puzzle (own k)) = k < 6
IsDrawn (const val_const) (puzzle (parent draw)) = IsDraw draw
IsDrawn (range val_min val_max) (engage drawn) = (val_min ≤ℤ drawn) × (drawn ≤ℤ val_max)
IsDrawn (range val_min val_max) (mutate drawn) = (val_min ≤ℤ drawn) × (drawn ≤ℤ val_max)
IsDrawn (range val_min val_max) (puzzle (own k)) = k < 11
IsDrawn (range val_min val_max) (puzzle (parent draw)) = IsDraw draw

min-le-max : (w : Width) → int_min w ≤ℤ int_max w
unfolding int_min int_max
min-le-max w = ground arith

sanitize-Fits : (w : Width) (value : ℤ) → Fits w (sanitize w value)
unfolding sanitize
sanitize-Fits w value = ground (arith, min-le-max w)

choice-returns :
    (values : List ℤ) (k : ℕ) → k < Prelude.length values → (v : ℤ) × (choice values k ≡ ok v)
unfolding choice or_raise
choice-returns [] k h = absurd (omega arith)
choice-returns (v ∷ values) zero h = (v, refl)
choice-returns (v ∷ values) (suc k) h = choice-returns values k (omega arith)

-- A drawn value, once sanitized, fits.
sanitized :
    (w : Width) (m : Result ℤ)
    → ((v : ℤ) × (m ≡ ok v))
    → (v : ℤ) × ((m >>= λ retv. ok (sanitize w retv)) ≡ ok v) × Fits w v
sanitized w m (v, e) = (sanitize w v, >>=-ok m _ e, sanitize-Fits w v)

draw_int-returns :
    (w : Width) (draw : Draw) (value : ℤ) → IsDraw draw → (v : ℤ) × (draw_int w draw value ≡ ok v)
unfolding step_choices extreme_choices
draw_int-returns w (step k) value h = choice-returns _ k h
draw_int-returns w (extreme k) value h = choice-returns _ k h
draw_int-returns w (any v) value h = (v, refl)

drag-Fits :
    (w : Width) (draw : Draw) (value : ℤ)
    → IsDraw draw
    → (v : ℤ) × (drag w draw value ≡ ok v) × Fits w v
unfolding drag
drag-Fits w draw value h = sanitized w (draw_int w draw value) (draw_int-returns w draw value h)

module _ (w : Width) where
  toss-Fits :
      (kind : Kind) (drawn : ℤ)
      → validate w kind ≡ ok tt
      → IsDrawn kind (engage drawn)
      → Fits w (toss kind drawn)
  unfolding validate toss
  toss-Fits (const val_const) drawn valid h =
      let (_, _, rest) = >>=-eq-ok (validate_int w) _ valid in
      let within = check-eq-ok _ rest in ground arith
  toss-Fits (range val_min val_max) drawn valid h =
      let (_, _, rest) = >>=-eq-ok (validate_int w) _ valid in
      let within = check-eq-ok _ rest in ground arith

  change_rand-Fits :
      (kind : Kind) (change : Change) (value : ℤ)
      → validate w kind ≡ ok tt
      → IsDrawn kind change
      → (v : ℤ) × (change_rand w kind change value ≡ ok v) × Fits w v
  unfolding change_rand const_choices range_choices
  change_rand-Fits (const c) (engage drawn) value valid h =
      (toss (const c) drawn, refl, toss-Fits (const c) drawn valid h)
  change_rand-Fits (const c) (mutate drawn) value valid h =
      (toss (const c) drawn, refl, toss-Fits (const c) drawn valid h)
  change_rand-Fits (range a b) (engage drawn) value valid h =
      (toss (range a b) drawn, refl, toss-Fits (range a b) drawn valid h)
  change_rand-Fits (range a b) (mutate drawn) value valid h =
      (toss (range a b) drawn, refl, toss-Fits (range a b) drawn valid h)
  change_rand-Fits (const c) (puzzle (own k)) value valid h = sanitized w _ (choice-returns _ k h)
  change_rand-Fits (range a b) (puzzle (own k)) value valid h = sanitized w _ (choice-returns _ k h)
  change_rand-Fits (const c) (puzzle (parent draw)) value valid h = drag-Fits w draw value h
  change_rand-Fits (range a b) (puzzle (parent draw)) value valid h = drag-Fits w draw value h

is_width_cases :
    (bits : ℕ) → is_width bits ≡ true → (bits ≡ 8) ⊎ (bits ≡ 16) ⊎ (bits ≡ 32) ⊎ (bits ≡ 64)
unfolding is_width
is_width_cases bits h = ground arith

-- What fits is packed, into as many bytes as the width has.
abbrev Packs : ℕ → Bool → ℤ → Type 0
Packs bits signed v =
    Fits (record { bits = bits; signed = signed }) v
    → (bytes : List ℕ) × (pack_int v bits signed ≡ ok bytes) × (Prelude.length bytes ≡ bits / 8)

module _ (v : ℤ) where
  pack_int_at_8 : (signed : Bool) → Packs 8 signed v
  unfolding int_min int_max pack_int ◌>>=◌
  pack_int_at_8 true h = pack_signed-returns 1 (2 ^ 7) v (omega arith) h.0 h.1
  pack_int_at_8 false h = pack_unsigned-returns 1 (2 ^ 8) v (omega arith) h.0 h.1

  pack_int_at_16 : (signed : Bool) → Packs 16 signed v
  unfolding int_min int_max pack_int ◌>>=◌
  pack_int_at_16 true h = pack_signed-returns 2 (2 ^ 15) v (omega arith) h.0 h.1
  pack_int_at_16 false h = pack_unsigned-returns 2 (2 ^ 16) v (omega arith) h.0 h.1

  pack_int_at_32 : (signed : Bool) → Packs 32 signed v
  unfolding int_min int_max pack_int ◌>>=◌
  pack_int_at_32 true h = pack_signed-returns 4 (2 ^ 31) v (omega arith) h.0 h.1
  pack_int_at_32 false h = pack_unsigned-returns 4 (2 ^ 32) v (omega arith) h.0 h.1

  pack_int_at_64 : (signed : Bool) → Packs 64 signed v
  unfolding int_min int_max pack_int ◌>>=◌
  pack_int_at_64 true h = pack_signed-returns 8 (2 ^ 63) v (omega arith) h.0 h.1
  pack_int_at_64 false h = pack_unsigned-returns 8 (2 ^ 64) v (omega arith) h.0 h.1

  pack_int-returns : (bits : ℕ) (signed : Bool) → is_width bits ≡ true → Packs bits signed v
  pack_int-returns bits signed width = elim (is_width_cases bits width) [
    | inl e ↦ subst (λ n. Packs n signed v) (sym e) (pack_int_at_8 signed)
    | inr (inl e) ↦ subst (λ n. Packs n signed v) (sym e) (pack_int_at_16 signed)
    | inr (inr (inl e)) ↦ subst (λ n. Packs n signed v) (sym e) (pack_int_at_32 signed)
    | inr (inr (inr e)) ↦ subst (λ n. Packs n signed v) (sym e) (pack_int_at_64 signed)
  ]

validate-is_width : (w : Width) (kind : Kind) → validate w kind ≡ ok tt → is_width w.bits ≡ true
unfolding validate
validate-is_width w kind valid = check-eq-ok _ (>>=-eq-ok (validate_int w) _ valid).1

-- For a kind that `validate` passes, every draw that `SPEC_RANDOM` may make, at the creation, a
-- mutation or a puzzling of the data, gives data in the range of the width, and packing it raises
-- nothing and gives as many bytes as the width has.
pub change_rand-packs :
    (w : Width) (kind : Kind) (change : Change) (value : ℤ)
    → validate w kind ≡ ok tt
    → IsDrawn kind change
    → (v : ℤ) × (change_rand w kind change value ≡ ok v)
      × Fits w v
      × ((bytes : List ℕ) × (blob_data_rand w v ≡ ok bytes) × (Prelude.length bytes ≡ length w))
unfolding blob_data_rand length
change_rand-packs w kind change value valid drawn =
    let (v, changed, fits) = change_rand-Fits w kind change value valid drawn in
    (v, changed, fits, pack_int-returns v w.bits w.signed (validate-is_width w kind valid) fits)
