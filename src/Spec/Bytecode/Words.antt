-- ===== src/Spec/Bytecode/Words.antt =====
-- Words, and lists of them, that are written and read back.
use mathlib.Core.List.{append_assoc}
use krace.Prelude.{
  ℕ, suc, ◌<◌, ◌^◌, ◌≡◌, refl, sym, ap, ◌∙◌, some, List, [], ◌∷◌, ◌++◌, arith, length,
}
use krace.Bytes.{pack}
use krace.Bytes.RoundTrip.{unpack-pack}
use krace.Bytes.Slices.{length-pack}
use krace.Spec.Result.{Result, ok, raised, map_all, >>=-eq-ok, >>=-ok}
use krace.Spec.Result
use krace.Spec.Pack.{pack_ptr}
use krace.Spec.Bytecode.{Bytes, pack_each, pack_list}
use krace.Spec.Bytecode.Reader.{Reader, >>=-some, read_word, read_times, read_list}

-- The reader takes the value off the front of any input that starts with the bytes.
abbrev pub Reads {ℓ} : {A : Type ℓ} → Reader A → Bytes → A → Type ℓ
Reads r bytes a = (rest : Bytes) → r (bytes ++ rest) ≡ some (a, rest)

-- What the writer writes of `a`, the reader reads as `view a`.
abbrev pub IsRead {ℓ κ} :
    {A : Type ℓ} {B : Type κ} → (A → Result Bytes) → Reader B → (A → Result B) → Type (ℓ ⊔ κ)
IsRead {A = A} {B = B} f r view =
    (a : A) (bytes : Bytes) → f a ≡ ok bytes → (b : B) × (view a ≡ ok b) × Reads r bytes b

pub ok-inj {ℓ} : {A : Type ℓ} {a b : A} → ok a ≡ ok b → a ≡ b
ok-inj h = cc

pack_ptr-eq-ok : (w : ℕ) (bytes : Bytes) → pack_ptr w ≡ ok bytes → (pack 8 w ≡ bytes) × (w < 2 ^ 64)
unfolding pack_ptr Result.◌>>=◌
pack_ptr-eq-ok w bytes h = ground arith

pub read_word-pack_ptr : (w : ℕ) (bytes : Bytes) → pack_ptr w ≡ ok bytes → Reads read_word bytes w
unfolding read_word
read_word-pack_ptr w bytes h rest =
    let (same, fits) = pack_ptr-eq-ok w bytes h in rw (← same) (unpack-pack 8 w rest (omega arith))

pub pack_ptr-length : (w : ℕ) (bytes : Bytes) → pack_ptr w ≡ ok bytes → length bytes ≡ 8
pack_ptr-length w bytes h =
    let (same, fits) = pack_ptr-eq-ok w bytes h in rw (← same) (length-pack 8 w)

pub pack_ptr-IsRead : IsRead pack_ptr read_word ok
pack_ptr-IsRead w bytes h = (w, refl, read_word-pack_ptr w bytes h)

module _ {ℓ κ} {A : Type ℓ} {B : Type κ} (f : A → Result Bytes) (r : Reader B) (view : A → Result B)
    (is_read : IsRead f r view) where
  -- So many items in a row.
  pub read_times-pack_each :
      (xs : List A) (bytes : Bytes)
      → pack_each f xs ≡ ok bytes
      → (ys : List B) × (map_all view xs ≡ ok ys) × Reads (read_times r (length xs)) bytes ys
  unfolding pack_each map_all read_times
  read_times-pack_each [] bytes h = ([], refl, λ rest. rw (← ok-inj h) refl)
  read_times-pack_each (x ∷ xs) bytes h =
      let (one, wrote, h₁) = >>=-eq-ok (f x) _ h in
      let (more, wrote', h₂) = >>=-eq-ok (pack_each f xs) _ h₁ in
      let (y, seen, reads) = is_read x one wrote in
      let (ys, seen', reads') = read_times-pack_each xs more wrote' in
      (
        y ∷ ys,
        >>=-ok (view x) _ seen ∙ >>=-ok (map_all view xs) _ seen',
        λ rest.
            ap (λ l. read_times r (suc (length xs)) (l ++ rest)) (sym (ok-inj h₂))
            ∙ ap (read_times r (suc (length xs))) (append_assoc one more rest)
            ∙ >>=-some (r (one ++ (more ++ rest))) _ (reads (more ++ rest))
            ∙ >>=-some (read_times r (length xs) (more ++ rest)) _ (reads' rest),
      )

  -- A list after its count.
  pub pack_list-IsRead : IsRead (pack_list f) (read_list r) (map_all view)
  unfolding pack_list read_list
  pack_list-IsRead xs bytes h =
      let (count, wrote, h₁) = >>=-eq-ok (pack_ptr (length xs)) _ h in
      let (items, wrote', h₂) = >>=-eq-ok (pack_each f xs) _ h₁ in
      let (ys, seen, reads) = read_times-pack_each xs items wrote' in
      (
        ys,
        seen,
        λ rest.
            ap (λ l. read_list r (l ++ rest)) (sym (ok-inj h₂))
            ∙ ap (read_list r) (append_assoc count items rest)
            ∙ >>=-some (read_word (count ++ (items ++ rest))) _
                (read_word-pack_ptr (length xs) count wrote (items ++ rest))
            ∙ reads rest,
      )
