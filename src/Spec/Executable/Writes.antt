-- ===== src/Spec/Executable/Writes.antt =====
-- What a hole's bytes are after a hole is filled, and the runs of an executable's operations.
use krace.Prelude.{
  ℕ, ◌+◌, ◌-◌, ◌≤◌, ◌≡◌, refl, ap, List, Option, some, arith, length, ◌⊎◌, inl, inr,
}
use krace.Dict.{lookup}
use krace.Dict.Key.{nat_eq}
use krace.Bytes.Slices.{slice, slice-splice, slice-splice_before, slice-splice_after}
use krace.Spec.Result.{ok}
use krace.Spec.Executable.{
  Lego, Hole, Executable, init, add_hole, fill_hole, write_hole, add_ptr, add_fd, add_prep,
}
use krace.Spec.Executable.Fill.{fill_hole_cases, again, first}
use krace.Spec.Executable.Sound.{IsSound, init-IsSound, add_hole-IsSound, fill_hole-IsSound}

-- The bytes of a hole.
abbrev pub bytes_of : Hole → Executable → List ℕ
bytes_of hole inst = slice hole.addr (hole.addr + hole.size) inst.heap

-- Two holes have no byte in common.
abbrev pub AreApart : Hole → Hole → Type 0
AreApart g h = (g.addr + g.size ≤ h.addr) ⊎ (h.addr + h.size ≤ g.addr)

write_hole-bytes :
    (lego : Lego) (hole : Hole) (bytes : List ℕ) (inst : Executable)
    → hole.addr + hole.size ≤ length inst.heap
    → length bytes ≡ hole.size
    → (bytes_of hole (write_hole lego hole bytes inst) ≡ bytes)
      × ((other : Hole)
          → AreApart hole other
          → bytes_of other (write_hole lego hole bytes inst) ≡ bytes_of other inst)
unfolding write_hole
write_hole-bytes lego hole bytes inst within fits = (
  slice-splice start stop bytes inst.heap le within same,
  λ other apart. elim apart [
    | inl before ↦
        slice-splice_after start stop bytes inst.heap le within same other.addr _ (omega arith)
          before
    | inr after ↦
        slice-splice_before start stop bytes inst.heap le within same other.addr _ (omega arith)
          after
  ],
)
  where
    start : ℕ
    start = hole.addr

    stop : ℕ
    stop = hole.addr + hole.size

    le : start ≤ stop
    le = omega arith

    same : length bytes ≡ stop - start
    same = omega arith

-- A call of `fill_hole` that returns leaves the bytes in the hole, also where the hole was filled
-- before, and changes no hole that is apart from it.
pub fill_hole-bytes :
    (lego : Lego) (hole : Hole) (bytes : List ℕ) (inst inst' : Executable)
    → IsSound inst
    → lookup lego inst.repo ≡ some hole
    → fill_hole lego bytes inst ≡ ok inst'
    → (bytes_of hole inst' ≡ bytes)
      × ((other : Hole) → AreApart hole other → bytes_of other inst' ≡ bytes_of other inst)
fill_hole-bytes lego hole bytes inst inst' s found h = elim (fill_hole_cases lego bytes inst h) [
  | again hole' found' full same kept ↦
      let whose : hole' ≡ hole = cc in rw (← kept) (rw whose at same, λ other apart. refl)
  | first hole' found' empty fits within wrote ↦
      let whose : hole' ≡ hole = cc in
      rw (← wrote, whose)
        (write_hole-bytes lego hole bytes inst
          (omega (arith, s.whole, ap (λ (x : Hole). x.addr + x.size) whose))
          (omega (arith, ap (λ (x : Hole). x.size) whose)))
]

-- The operations that build an executable.
pub data Step : Executable → Executable → Type 0 where
  dug :
      {inst inst' : Executable} (lego : Lego) (dec_size : Option ℕ) (size : ℕ) (root : Option Lego)
      → add_hole lego dec_size size root inst ≡ ok inst'
      → Step inst inst'
  filled :
      {inst inst' : Executable} (lego : Lego) (bytes : List ℕ)
      → fill_hole lego bytes inst ≡ ok inst'
      → Step inst inst'
  ptr : {inst : Executable} (lego : Lego) → Step inst (add_ptr lego inst)
  fd : {inst : Executable} (lego : Lego) → Step inst (add_fd lego inst)
  prep :
      {inst : Executable} (syscall : ℕ) (src dst : Lego) → Step inst (add_prep syscall src dst inst)

pub data Reach : Executable → Type 0 where
  start : Reach init
  next : {inst inst' : Executable} → Reach inst → Step inst inst' → Reach inst'

Step-IsSound : {inst inst' : Executable} → Step inst inst' → IsSound inst → IsSound inst'
unfolding add_ptr add_fd add_prep
Step-IsSound (dug lego dec_size size root h) s = add_hole-IsSound lego dec_size size root _ s h
Step-IsSound (filled lego bytes h) s = fill_hole-IsSound lego bytes _ s h
Step-IsSound (ptr lego) s = record {
  whole = s.whole;
  reserved = s.reserved;
  inside = s.inside;
  divided = s.divided;
  laminar = s.laminar;
}
Step-IsSound (fd lego) s = record {
  whole = s.whole;
  reserved = s.reserved;
  inside = s.inside;
  divided = s.divided;
  laminar = s.laminar;
}
Step-IsSound (prep syscall src dst) s = record {
  whole = s.whole;
  reserved = s.reserved;
  inside = s.inside;
  divided = s.divided;
  laminar = s.laminar;
}

-- Every executable that the operations build from the empty one is sound: its heap is as long as
-- its offset says, its holes lie in the heap past the 64 reserved bytes, and two holes overlap only
-- where one is a part that was divided off the other.
pub Reach-IsSound : {inst : Executable} → Reach inst → IsSound inst
Reach-IsSound start = init-IsSound
Reach-IsSound (next r step) = Step-IsSound step (Reach-IsSound r)
