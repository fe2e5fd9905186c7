-- ===== src/Spec/Executable/Sound.antt =====
-- The invariant of an executable, kept by every operation on it.
use krace.Prelude.{
  ℕ, ◌+◌, ◌≤◌, ◌≡◌, refl, ap, ◌∙◌, inl, inr, true, Option, none, some, List, ◌++◌, arith, length,
}
use krace.Dict.{lookup, insert}
use krace.Dict.Key.{nat_eq}
use krace.Dict.Laws.{lookup-insert_self, lookup-insert_ne}
use krace.Bytes.Slices.{zeros, length-append, length-zeros, length-splice}
use krace.Spec.Result.{ok, >>=-eq-ok, check-eq-ok, or_raise-eq-ok}
use krace.Spec.Executable.{
  Lego, Hole, Executable, init, new_hole, put_hole, allocate, divide, add_hole, fill_hole,
  write_hole, mark, mark_all,
}
use mathlib.Core.Path.{subst}
use krace.Spec.Executable.Fill.{fill_hole_cases, again, first}
use native.Mathlib.Decide.{ℕ_discrete}
use krace.Spec.Executable.Dicts.{lookup-insert_cases, lookup-mark_all}
use krace.Spec.Executable.Layout.{
  Holes, Offsets, IsLaminar, IsFree, Slot, is_tidy, advance-IsLaminar, put-IsLaminar,
  divided-IsFree,
}

-- The heap is as long as its offset says, every hole lies in it past the reserved head and is
-- divided at most to its end, and no two holes overlap unless one is a divided part of the other.
pub record IsSound (inst : Executable) : Type 0 where
  pub whole : length inst.heap ≡ inst.heap_offset
  pub reserved : 64 ≤ inst.heap_offset
  pub inside :
      (lego : Lego) (hole : Hole)
      → lookup lego inst.repo ≡ some hole
      → (64 ≤ hole.addr) × (hole.addr + hole.size ≤ inst.heap_offset)
  pub divided :
      (lego : Lego) (hole : Hole) (offset : ℕ)
      → Slot inst.repo inst.repo_offset lego hole offset
      → offset ≤ hole.size
  pub laminar : IsLaminar inst.repo inst.repo_offset

pub init-IsSound : IsSound init
unfolding init lookup
init-IsSound = record {
  whole = length-zeros 64;
  reserved = omega arith;
  inside = λ l h e. cc;
  divided = λ l h o s. cc;
  laminar = λ j k g h p q ne s t. cc;
}

module _ (inst : Executable) (s : IsSound inst) where
  -- A new hole in a part of the heap that is free.
  put_hole-IsSound :
      (lego : Lego) (addr size : ℕ)
      → 64 ≤ addr
      → addr + size ≤ inst.heap_offset
      → IsFree (new_hole addr size) inst.repo inst.repo_offset
      → IsSound (put_hole lego addr size inst)
  unfolding put_hole
  put_hole-IsSound lego addr size low high free = record {
    whole = s.whole;
    reserved = s.reserved;
    inside = λ l h e. elim (lookup-insert_cases lego l _ inst.repo e) [
      | inl (_, put) ↦ rw (← put) (low, high)
      | inr (_, old) ↦ s.inside l h old
    ];
    divided = λ l h o t. elim (ℕ_discrete lego l) [
      | yes e ↦
          let fresh : 0 ≡ o = cc (lookup-insert_self {V = ℕ} lego 0 inst.repo_offset, t.1, e) in
          rw (← fresh) (omega arith)
      | no apart ↦ s.divided l h o (
        rw (lookup-insert_ne lego l _ inst.repo apart) at t.0,
        rw (lookup-insert_ne lego l 0 inst.repo_offset apart) at t.1,
      )
    ];
    laminar = put-IsLaminar inst.repo inst.repo_offset s.laminar lego (new_hole addr size) free;
  }

  -- The heap grows at its end.
  grow-IsSound :
      (size : ℕ)
      → IsSound
          (record inst { heap = inst.heap ++ zeros size; heap_offset = inst.heap_offset + size })
  grow-IsSound size = record {
    whole = omega (arith, s.whole, length-append inst.heap (zeros size), length-zeros size);
    reserved = omega (arith, s.reserved);
    inside = λ l h e. let old = s.inside l h e in omega arith;
    divided = s.divided;
    laminar = s.laminar;
  }

  -- More of a hole is divided.
  advance-IsSound :
      (root : Lego) (base : Hole) (o o' : ℕ)
      → Slot inst.repo inst.repo_offset root base o
      → o ≤ o'
      → o' ≤ base.size
      → IsSound (record inst { repo_offset = insert root o' inst.repo_offset })
  advance-IsSound root base o o' found le within = record {
    whole = s.whole;
    reserved = s.reserved;
    inside = s.inside;
    divided = λ l h p t. elim (lookup-insert_cases root l o' inst.repo_offset t.1) [
      | inl (same, put) ↦
          let whose : base ≡ h = cc (found.0, t.0, same) in rw (← put, ← whose) within
      | inr (_, old) ↦ s.divided l h p (t.0, old)
    ];
    laminar = advance-IsLaminar inst.repo inst.repo_offset s.laminar root o o' found.1 le;
  }

allocate-IsSound :
    (lego : Lego) (size : ℕ) (inst : Executable) → IsSound inst → IsSound (allocate lego size inst)
unfolding allocate
allocate-IsSound lego size inst s =
    put_hole-IsSound _ (grow-IsSound inst s size) lego inst.heap_offset size s.reserved
      (omega arith) (λ k h q t. let old = s.inside k h t.0 in unfold is_tidy in ground arith)

divide-IsSound :
    (lego : Lego) (size : ℕ) (root : Lego) (inst : Executable) {inst' : Executable}
    → IsSound inst
    → divide lego size root inst ≡ ok inst'
    → IsSound inst'
unfolding divide
divide-IsSound lego size root inst s h =
    let (base, found, h₁) = >>=-eq-ok _ _ h in
    let (o, offset, h₂) = >>=-eq-ok _ _ h₁ in
    let (_, room, h₃) = >>=-eq-ok _ _ h₂ in
    let slot : Slot inst.repo inst.repo_offset root base o =
      (or_raise-eq-ok _ _ found, or_raise-eq-ok _ _ offset) in
    let fits = check-eq-ok _ room in
    let old = s.inside root base slot.0 in
    let more : o + size ≤ base.size = ground arith in
    let grown = advance-IsSound inst s root base o (o + size) slot (omega arith) more in
    let put = put_hole-IsSound _ grown lego (base.addr + o) size (omega arith) (omega arith) (
      divided-IsFree inst.repo inst.repo_offset s.laminar root base _ o (o + size) slot refl
        (omega arith) (omega arith) more) in
    subst IsSound (cc h₃) put

ok-inj : {A : Type 0} {a b : A} → ok a ≡ ok b → a ≡ b
ok-inj h = cc

pub add_hole-IsSound :
    (lego : Lego) (dec_size : Option ℕ) (size : ℕ) (root : Option Lego) (inst : Executable)
    {inst' : Executable}
    → IsSound inst
    → add_hole lego dec_size size root inst ≡ ok inst'
    → IsSound inst'
unfolding add_hole
add_hole-IsSound lego dec_size size none inst s h =
    let (_, _, h₁) = >>=-eq-ok _ _ h in
    let (_, _, h₂) = >>=-eq-ok _ _ h₁ in subst IsSound (cc h₂) (allocate-IsSound lego size inst s)
add_hole-IsSound lego dec_size size (some root) inst s h =
    let (_, _, h₁) = >>=-eq-ok _ _ h in
    let (_, _, h₂) = >>=-eq-ok _ _ h₁ in divide-IsSound lego size root inst s h₂

-- Marking holes as filled moves none of them.
mark_all-IsLaminar :
    (hole : Hole) (repo : Holes) (offs : Offsets)
    → IsLaminar repo offs
    → IsLaminar (mark_all hole repo) offs
unfolding is_tidy mark
mark_all-IsLaminar hole repo offs laminar j k g h p q ne s t =
    let (g', gs, ge) = lookup-mark_all hole j repo s.0 in
    let (h', hs, he) = lookup-mark_all hole k repo t.0 in
    rw (ge, he) (laminar j k g' h' p q ne (gs, s.1) (hs, t.1))

write_hole-IsSound :
    (lego : Lego) (hole : Hole) (bytes : List ℕ) (inst : Executable)
    → IsSound inst
    → lookup lego inst.repo ≡ some hole
    → length bytes ≡ hole.size
    → IsSound (write_hole lego hole bytes inst)
unfolding write_hole mark
write_hole-IsSound lego hole bytes inst s found fits = record {
  whole =
      let old = s.inside lego hole found in
      length-splice hole.addr (hole.addr + hole.size) bytes inst.heap (omega arith)
        (omega (arith, s.whole)) (omega arith)
      ∙ s.whole;
  reserved = s.reserved;
  inside =
      λ l h e. let (g, at, same) = lookup-mark_all hole l _ e in rw same (filled-inside l g at);
  divided = λ l h o t.
      let (g, at, same) = lookup-mark_all hole l _ t.0 in rw same (filled-divided l g o (at, t.1));
  laminar = mark_all-IsLaminar hole _ inst.repo_offset filled-laminar;
}
  where
    full : Hole
    full = record hole { fill = true }

    -- The hole with its flag set lies where it was.
    place :
        (l : Lego) (g : Hole)
        → lookup l (insert lego full inst.repo) ≡ some g
        → (old : Hole) × (lookup l inst.repo ≡ some old) × (old.addr ≡ g.addr) × (old.size ≡ g.size)
    place l g e = elim (lookup-insert_cases lego l full inst.repo e) [
      | inl (same, put) ↦
          (hole, rw (← same) found, ap (λ (x : Hole). x.addr) put, ap (λ (x : Hole). x.size) put)
      | inr (_, old) ↦ (g, old, refl, refl)
    ]

    filled-inside :
        (l : Lego) (g : Hole)
        → lookup l (insert lego full inst.repo) ≡ some g
        → (64 ≤ g.addr) × (g.addr + g.size ≤ inst.heap_offset)
    filled-inside l g e =
        let (old, at, a, z) = place l g e in let within = s.inside l old at in omega arith

    filled-divided :
        (l : Lego) (g : Hole) (o : ℕ)
        → Slot (insert lego full inst.repo) inst.repo_offset l g o
        → o ≤ g.size
    filled-divided l g o t =
        let (old, at, a, z) = place l g t.0 in
        let within = s.divided l old o (at, t.1) in omega arith

    filled-laminar : IsLaminar (insert lego full inst.repo) inst.repo_offset
    filled-laminar j k g h p q ne t u =
        let (g', gs, ga, gz) = place j g t.0 in
        let (h', hs, ha, hz) = place k h u.0 in
        let tidy = s.laminar j k g' h' p q ne (gs, t.1) (hs, u.1) in unfold is_tidy in ground arith

pub fill_hole-IsSound :
    (lego : Lego) (bytes : List ℕ) (inst : Executable) {inst' : Executable}
    → IsSound inst
    → fill_hole lego bytes inst ≡ ok inst'
    → IsSound inst'
fill_hole-IsSound lego bytes inst s h = elim (fill_hole_cases lego bytes inst h) [
  | again hole found full same kept ↦ subst IsSound kept s
  | first hole found empty fits within wrote ↦
      subst IsSound wrote (write_hole-IsSound lego hole bytes inst s found fits)
]
