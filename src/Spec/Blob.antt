-- ===== src/Spec/Blob.antt =====
-- How the legos of a syscall are laid out in an executable: `Lego.blob_hole`, `Lego.blob_fill` and
-- `Syscall.blob` of script/spec_basis.py. What the subclasses of `Lego` implement, its abstract
-- methods, is a record of functions of the lego.
pub mod Reached
use krace.Prelude.{
  ℕ, Bool, true, false, Option, none, some, List, [], ◌∷◌, String, ◌==◌, if◌then◌else◌,
}
use krace.Spec.Result.{Result, ok, raised, assertion, ◌>>=◌, ◌>>◌, check}
use krace.Spec.Executable.{Lego, Executable, add_hole, get_hole, has_hole, fill_hole}

-- What a lego is a part of: an argument or a return value of a syscall, or another lego.
pub data Owner : Type 0 where
  of_arg of_ret : Owner
  of_lego : Lego → Owner

pub record LegoClass : Type 0 where
  pub root_of : Lego → Option Owner
  pub length : Lego → Option ℕ
  pub blob_size : Lego → Result ℕ
  pub blob_hole_impl : Lego → Executable → Result Executable
  pub blob_data : Lego → Executable → Result (List ℕ)
  pub blob_fill_impl : Lego → Executable → Result Executable

-- A `Syscall`, its arguments and its return value given by their legos.
pub record Syscall : Type 0 where
  pub snum : ℕ
  pub name : String
  pub args : List Lego
  pub retv : Lego

abbrev is_none : Option Lego → Bool
is_none none = true
is_none (some l) = false

-- A hole is divided off the root's only where the root has one already.
abbrev forward : Lego → Executable → Option Lego
forward root inst = if has_hole root inst then some root else none

-- `check root validity`
unfoldable pub valid_root : Option Owner → Option Lego → Executable → Result (Option Lego)
valid_root none root inst = do check (is_none root); ok root
valid_root (some of_arg) root inst = do check (is_none root); ok root
valid_root (some of_ret) root inst = do check (is_none root); ok root
valid_root (some (of_lego owner)) none inst = ok (forward owner inst)
valid_root (some (of_lego owner)) (some root) inst = do
  check (root == owner)
  ok (forward root inst)

module _ (class : LegoClass) where
  open class use {root_of, length, blob_size, blob_hole_impl, blob_data, blob_fill_impl}

  unfoldable pub make_hole : Lego → Option Lego → Executable → Result Executable
  make_hole lego root inst = do
    root' ← valid_root (root_of lego) root inst
    size ← blob_size lego
    dug ← add_hole lego (length lego) size root' inst
    blob_hole_impl lego dug

  unfoldable pub blob_hole : Lego → Option Lego → Executable → Result Executable
  unfolding make_hole
  blob_hole lego root inst = if has_hole lego inst then ok inst else make_hole lego root inst

  unfoldable pub blob_fill : Lego → Executable → Result Executable
  blob_fill lego inst = do
    bytes ← blob_data lego inst
    hole ← get_hole lego inst
    filled ← fill_hole lego bytes inst
    blob_fill_impl lego filled

  unfoldable pub blob_lego : Lego → Executable → Result Executable
  unfolding blob_hole blob_fill
  blob_lego lego inst = blob_hole lego none inst >>= blob_fill lego

  unfoldable pub blob_args : List Lego → Executable → Result Executable
  unfolding blob_lego
  blob_args [] inst = ok inst
  blob_args (lego ∷ legos) inst = blob_lego lego inst >>= blob_args legos

  -- `Syscall.blob`
  unfoldable pub blob : Syscall → Executable → Result Executable
  unfolding blob_args
  blob syscall inst = blob_args syscall.args inst >>= blob_lego syscall.retv

  -- `for syscall in self.syscalls: syscall.blob(inst)`
  unfoldable pub blob_all : List Syscall → Executable → Result Executable
  unfolding blob
  blob_all [] inst = ok inst
  blob_all (syscall ∷ syscalls) inst = blob syscall inst >>= blob_all syscalls
