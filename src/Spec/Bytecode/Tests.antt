-- ===== src/Spec/Bytecode/Tests.antt =====
-- A program of one bootstrap syscall and one thread, its image, and what is read of it.
use mathlib.Core.Path.{subst}
use krace.Prelude.{inl, inr, Bool-cases, if◌then◌else◌, ◌==◌, ℕ, ◌≡◌, refl, some, [], ◌∷◌}
use krace.Bytes.{pack, take, drop}
use krace.Bytes.Slices.{slice, splice, zeros}
use krace.Dict.{lookup, insert, contains}
use krace.Spec.Result
use krace.Spec.Result.{Result, ok, raised, check, or_raise, map_all}
use krace.Spec.Pack.{pack_ptr}
use krace.Spec.Executable.{
  Executable, init, add_hole, has_hole, covers, fill_hole, check_inst, add_ptr, add_fd, add_prep,
}
use krace.Spec.Executable.Writes.{Reach, Step}
use krace.Spec.Blob.{LegoClass, Syscall, of_arg, valid_root, blob_all}
use krace.Spec.Blob.Reached.{IsBuilding}
use krace.Spec.Bytecode.{Bytes, gen_bytecode}
use krace.Spec.Bytecode.Words.{ok-inj}
use krace.Spec.Bytecode.Reader.{read_image, Image}
use krace.Spec.Bytecode.Loaded.{IsImage, gen_bytecode-IsImage}

-- Legos of four bytes: 1 is a pointer, 2 a descriptor, and before the syscall 0 the bytes of 1 are
-- copied to 2.
abbrev registered : ℕ → Executable → Executable
registered lego inst =
    if lego == 1
    then add_ptr 1 inst
    else if lego == 2
    then add_fd 2 inst
    else if lego == 3
    then add_prep 0 1 2 inst
    else inst

registered-Reach : (lego : ℕ) (inst : Executable) → Reach inst → Reach (registered lego inst)
registered-Reach lego inst r = elim (Bool-cases (lego == 1)) [
  | inl e ↦ rw e (Reach.next r (Step.ptr 1))
  | inr n ↦ elim (Bool-cases (lego == 2)) [
    | inl e ↦ rw (n, e) (Reach.next r (Step.fd 2))
    | inr n' ↦ elim (Bool-cases (lego == 3)) [
      | inl e ↦ rw (n, n', e) (Reach.next r (Step.prep 0 1 2))
      | inr n'' ↦ rw (n, n', n'') r
    ]
  ]
]

abbrev words : LegoClass
words = record {
  root_of = λ lego. some of_arg;
  length = λ lego. some 4;
  blob_size = λ lego. ok 4;
  blob_hole_impl = λ lego inst. ok (registered lego inst);
  blob_data = λ lego inst. ok (lego ∷ 0 ∷ 0 ∷ 0 ∷ []);
  blob_fill_impl = λ lego inst. ok inst;
}

words-IsBuilding : IsBuilding words
words-IsBuilding = record {
  holes = λ lego inst inst' r h. subst Reach (ok-inj h) (registered-Reach lego inst r);
  fills = λ lego inst inst' r h. subst Reach (cc h) r;
}

abbrev mkdir : ℕ × Syscall
mkdir = (0, record { snum = 83; name = "mkdir"; args = 1 ∷ 2 ∷ []; retv = 3 })

abbrev sync : ℕ × Syscall
sync = (1, record { snum = 162; name = "sync"; args = []; retv = 4 })

abbrev generated : Result (Executable × Bytes)
generated = gen_bytecode words 1 (mkdir ∷ sync ∷ []) (mkdir ∷ []) ((sync ∷ []) ∷ [])

abbrev result : Result (Executable × Bytes) → Executable × Bytes
result (ok r) = r
result (raised e) = (init, [])

is_generated : generated ≡ ok ((result generated).0, (result generated).1)
unfolding add_ptr add_fd add_prep gen_bytecode blob_all valid_root check_inst Result.◌>>=◌ check
    or_raise map_all add_hole has_hole covers fill_hole init lookup insert contains slice splice
    zeros take drop pack pack_ptr
is_generated = refl

-- The regions of the image are not empty.
is_told : (result generated).0.ptrs ≡ 1 ∷ []
unfolding add_ptr add_fd add_prep gen_bytecode blob_all valid_root check_inst Result.◌>>=◌ check
    or_raise map_all add_hole has_hole covers fill_hole init lookup insert contains slice splice
    zeros take drop pack pack_ptr
is_told = refl

gen_bytecode-IsImage_example :
    Reach (result generated).0
    × ((image : Image) × (read_image (result generated).1 ≡ some image)
        × IsImage (result generated).0 (mkdir ∷ []) ((sync ∷ []) ∷ []) image)
gen_bytecode-IsImage_example =
    gen_bytecode-IsImage words (mkdir ∷ sync ∷ []) (mkdir ∷ []) ((sync ∷ []) ∷ [])
      (result generated).0 (result generated).1 words-IsBuilding is_generated
