-- ===== src/Spec/Blob/Reached.antt =====
-- What a syscall does to an executable, it does by the executable's operations.
use krace.Prelude.{◌≡◌, inl, inr, Option, none, List, [], ◌∷◌, Bool-cases}
use mathlib.Core.Path.{subst}
use krace.Spec.Result.{Result, ok, ◌>>=◌, >>=-eq-ok}
use krace.Spec.Executable.{Lego, Executable, has_hole}
use krace.Spec.Executable.Writes.{Reach, next, dug, filled}
use krace.Spec.Blob.{
  LegoClass, Syscall, make_hole, blob_hole, blob_fill, blob_lego, blob_args, blob, blob_all,
}

-- The code takes an executable that the operations build to another such one.
abbrev pub Builds : (Executable → Result Executable) → Type 0
Builds f = (inst inst' : Executable) → Reach inst → f inst ≡ ok inst' → Reach inst'

-- The legos' own methods change the executable by its operations only.
pub record IsBuilding (class : LegoClass) : Type 0 where
  pub holes : (lego : Lego) → Builds (class.blob_hole_impl lego)
  pub fills : (lego : Lego) → Builds (class.blob_fill_impl lego)

module _ (class : LegoClass) (building : IsBuilding class) where
  make_hole-Builds : (lego : Lego) (root : Option Lego) → Builds (make_hole class lego root)
  unfolding make_hole
  make_hole-Builds lego root inst inst' r h =
      let (root', _, h₁) = >>=-eq-ok _ _ h in
      let (size, _, h₂) = >>=-eq-ok _ _ h₁ in
      let (mid, put, h₃) = >>=-eq-ok _ _ h₂ in
      building.holes lego mid inst' (next r (dug lego (class.length lego) size root' put)) h₃

  blob_hole-Builds : (lego : Lego) (root : Option Lego) → Builds (blob_hole class lego root)
  unfolding blob_hole
  blob_hole-Builds lego root inst inst' r h = elim (Bool-cases (has_hole lego inst)) [
    | inl old ↦ subst Reach (cc (rw old at h)) r
    | inr new ↦ make_hole-Builds lego root inst inst' r (rw new at h)
  ]

  blob_fill-Builds : (lego : Lego) → Builds (blob_fill class lego)
  unfolding blob_fill
  blob_fill-Builds lego inst inst' r h =
      let (bytes, _, h₁) = >>=-eq-ok _ _ h in
      let (hole, _, h₂) = >>=-eq-ok _ _ h₁ in
      let (mid, put, h₃) = >>=-eq-ok _ _ h₂ in
      building.fills lego mid inst' (next r (filled lego bytes put)) h₃

  then-Builds :
      (f g : Executable → Result Executable) → Builds f → Builds g → Builds (λ inst. f inst >>= g)
  then-Builds f g bf bg inst inst' r h =
      let (mid, one, two) = >>=-eq-ok (f inst) g h in bg mid inst' (bf inst mid r one) two

  blob_lego-Builds : (lego : Lego) → Builds (blob_lego class lego)
  unfolding blob_lego
  blob_lego-Builds lego = then-Builds _ _ (blob_hole-Builds lego none) (blob_fill-Builds lego)

  blob_args-Builds : (legos : List Lego) → Builds (blob_args class legos)
  unfolding blob_args
  blob_args-Builds [] inst inst' r h = subst Reach (cc h) r
  blob_args-Builds (lego ∷ legos) inst inst' r h =
      then-Builds _ _ (blob_lego-Builds lego) (blob_args-Builds legos) inst inst' r h

  blob-Builds : (syscall : Syscall) → Builds (blob class syscall)
  unfolding blob
  blob-Builds syscall =
      then-Builds _ _ (blob_args-Builds syscall.args) (blob_lego-Builds syscall.retv)

  -- Where the legos' own methods keep to the operations of the executable, laying out a program
  -- does so too.
  pub blob_all-Builds : (syscalls : List Syscall) → Builds (blob_all class syscalls)
  unfolding blob_all
  blob_all-Builds [] inst inst' r h = subst Reach (cc h) r
  blob_all-Builds (syscall ∷ syscalls) inst inst' r h =
      then-Builds _ _ (blob-Builds syscall) (blob_all-Builds syscalls) inst inst' r h
