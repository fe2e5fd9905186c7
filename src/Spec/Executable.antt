-- ===== src/Spec/Executable.antt =====
-- `Hole` and `Executable` of script/spec_basis.py: the heap that the legos of a program are laid
-- out in. A lego and a syscall are numbers, their identity. `add_hole` is all that makes a hole,
-- one for each lego, so that a hole object is named by its lego: a write to the object is a write
-- to the entry of `repo`, and `ptrs`, `fds` and `prep` keep the legos whose holes they hold.
pub mod Dicts
pub mod Layout
pub mod Fill
pub mod Sound
pub mod Writes
pub mod Tests
use krace.Prelude.{
  ℕ, ◌+◌, ◌≡◌, Bool, true, false, ◌&&◌, ◌||◌, not, Option, none, some, List, [], ◌∷◌, ◌++◌, map,
  ltb, leb, ◌==◌, if◌then◌else◌, length, has,
}
use krace.Dict.{Dict, lookup, contains, insert, values}
use krace.Dict.Key.{nat_eq}
use krace.Bytes.Slices.{slice, splice, zeros}
use krace.Spec.Result.{Result, ok, raised, key_error, ◌>>=◌, ◌>>◌, check, or_raise}
use krace.Spec.Pack.{spec_prog_heap_offset}

abbrev pub Lego : Type 0
Lego = ℕ

pub record Hole : Type 0 where
  pub addr : ℕ
  pub size : ℕ
  pub fill : Bool

-- `Hole(addr, size)`
abbrev pub new_hole : ℕ → ℕ → Hole
new_hole addr size = record { addr = addr; size = size; fill = false }

unfoldable pub covers : Hole → Hole → Bool
covers base hole = leb base.addr hole.addr && leb (hole.addr + hole.size) (base.addr + base.size)

pub record Executable : Type 0 where
  pub repo : Dict Lego Hole
  pub repo_offset : Dict Lego ℕ
  pub heap : List ℕ
  pub heap_offset : ℕ
  pub ptrs : List Lego
  pub fds : List Lego
  pub prep : Dict ℕ (List (Lego × Lego))

unfoldable pub init : Executable
init = record {
  repo = [];
  repo_offset = [];
  heap = zeros spec_prog_heap_offset;
  heap_offset = spec_prog_heap_offset;
  ptrs = [];
  fds = [];
  prep = [];
}

abbrev pub has_length : Option ℕ → ℕ → Bool
has_length none size = true
has_length (some n) size = n == size

-- A new hole, put under its lego with nothing of it divided.
unfoldable pub put_hole : Lego → ℕ → ℕ → Executable → Executable
put_hole lego addr size inst = record inst {
  repo = insert lego (new_hole addr size) inst.repo;
  repo_offset = insert lego 0 inst.repo_offset;
}

-- A new part of the heap.
unfoldable pub allocate : Lego → ℕ → Executable → Executable
unfolding put_hole
allocate lego size inst =
    put_hole lego inst.heap_offset size
      (record inst { heap = inst.heap ++ zeros size; heap_offset = inst.heap_offset + size })

-- The next part of the root's hole.
unfoldable pub divide : Lego → ℕ → Lego → Executable → Result Executable
unfolding put_hole
divide lego size root inst = do
  base ← or_raise key_error (lookup root inst.repo)
  offs ← or_raise key_error (lookup root inst.repo_offset)
  check (ltb offs (offs + size) && leb (offs + size) base.size)
  ok (
      put_hole lego (base.addr + offs) size
        (record inst { repo_offset = insert root (offs + size) inst.repo_offset }))

abbrev pub place : Lego → ℕ → Option Lego → Executable → Result Executable
place lego size none inst = ok (allocate lego size inst)
place lego size (some root) inst = divide lego size root inst

-- `dec_size` is what the lego says of its length. The hole that the source returns is what
-- `get_hole` then gives.
unfoldable pub add_hole : Lego → Option ℕ → ℕ → Option Lego → Executable → Result Executable
unfolding allocate divide
add_hole lego dec_size size root inst = do
  check (not (contains lego inst.repo))
  check (has_length dec_size size)
  place lego size root inst

unfoldable pub get_hole : Lego → Executable → Result Hole
get_hole lego inst = or_raise key_error (lookup lego inst.repo)

unfoldable pub has_hole : Lego → Executable → Bool
has_hole lego inst = contains lego inst.repo

abbrev pub same_bytes : List ℕ → List ℕ → Bool
same_bytes [] [] = true
same_bytes [] (c ∷ cs) = false
same_bytes (b ∷ bs) [] = false
same_bytes (b ∷ bs) (c ∷ cs) = (b == c) && same_bytes bs cs

-- `if hole.covers(item): item.fill = True`
unfoldable pub mark : Hole → Hole → Hole
mark hole item = record item { fill = covers hole item || item.fill }

unfoldable pub mark_all : Hole → Dict Lego Hole → Dict Lego Hole
unfolding mark
mark_all hole [] = []
mark_all hole ((lego, item) ∷ repo) = (lego, mark hole item) ∷ mark_all hole repo

-- The write of a hole that is not filled yet.
unfoldable pub write_hole : Lego → Hole → List ℕ → Executable → Executable
unfolding mark_all
write_hole lego hole bytes inst = record inst {
  heap = splice hole.addr (hole.addr + hole.size) bytes inst.heap;
  repo = mark_all hole (insert lego (record hole { fill = true }) inst.repo);
}

unfoldable pub fill_hole : Lego → List ℕ → Executable → Result Executable
unfolding get_hole write_hole
fill_hole lego bytes inst = do
  hole ← get_hole lego inst
  let stop = hole.addr + hole.size
  if hole.fill then (do check (same_bytes (slice hole.addr stop inst.heap) bytes); ok inst) else (do
    check (length bytes == hole.size)
    check (leb hole.addr stop && leb stop inst.heap_offset)
    ok (write_hole lego hole bytes inst))

abbrev pub all_filled : List Hole → Bool
all_filled [] = true
all_filled (hole ∷ holes) = hole.fill && all_filled holes

-- `Executable.check`
unfoldable pub check_inst : Executable → Result (Unit {0})
check_inst inst = do
  check (length inst.heap == inst.heap_offset)
  check (all_filled (values inst.repo))

abbrev add_to_set : ℕ → List ℕ → List ℕ
add_to_set x xs = if has x xs then xs else xs ++ x ∷ []

unfoldable pub add_ptr : Lego → Executable → Executable
add_ptr ptr inst = record inst { ptrs = add_to_set ptr inst.ptrs }

unfoldable pub add_fd : Lego → Executable → Executable
add_fd fd inst = record inst { fds = add_to_set fd inst.fds }

abbrev or_empty : Option (List (Lego × Lego)) → List (Lego × Lego)
or_empty none = []
or_empty (some items) = items

unfoldable pub add_prep : ℕ → Lego → Lego → Executable → Executable
add_prep syscall src dst inst = record inst {
  prep = insert syscall (or_empty (lookup syscall inst.prep) ++ (src, dst) ∷ []) inst.prep;
}
