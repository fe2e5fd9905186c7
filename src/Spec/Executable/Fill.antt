-- ===== src/Spec/Executable/Fill.antt =====
-- What a call of `fill_hole` that returns has done.
use krace.Prelude.{
  ℕ, ◌+◌, ◌≤◌, ◌≡◌, refl, inl, inr, true, false, ◌&&◌, Bool-cases, some, List, [], ◌∷◌, arith, leb,
  ◌==◌, length, if◌then◌else◌,
}
use krace.Dict.{lookup}
use krace.Dict.Key.{nat_eq}
use krace.Bytes.Slices.{slice}
use krace.Spec.Result.{ok, ◌>>◌, check, >>=-eq-ok, check-eq-ok, or_raise-eq-ok}
use krace.Spec.Executable.{
  Lego, Hole, Executable, covers, same_bytes, get_hole, fill_hole, write_hole,
}

-- Either the hole was filled already, with these very bytes, and nothing is changed, or the bytes
-- are as many as the hole takes, and they are written.
pub data Filled (lego : Lego) (bytes : List ℕ) (inst inst' : Executable) : Type 0 where
  again :
      (hole : Hole)
      → lookup lego inst.repo ≡ some hole
      → hole.fill ≡ true
      → slice hole.addr (hole.addr + hole.size) inst.heap ≡ bytes
      → inst ≡ inst'
      → Filled lego bytes inst inst'
  first :
      (hole : Hole)
      → lookup lego inst.repo ≡ some hole
      → hole.fill ≡ false
      → length bytes ≡ hole.size
      → hole.addr + hole.size ≤ inst.heap_offset
      → write_hole lego hole bytes inst ≡ inst'
      → Filled lego bytes inst inst'

same_bytes→eq : (bs cs : List ℕ) → same_bytes bs cs ≡ true → bs ≡ cs
same_bytes→eq [] [] h = refl
same_bytes→eq [] (c ∷ cs) h = cc
same_bytes→eq (b ∷ bs) [] h = cc
same_bytes→eq (b ∷ bs) (c ∷ cs) h = ground (arith, same_bytes→eq bs cs)

ok-inj : {A : Type 0} {a b : A} → ok a ≡ ok b → a ≡ b
ok-inj h = cc

pub fill_hole_cases :
    (lego : Lego) (bytes : List ℕ) (inst : Executable) {inst' : Executable}
    → fill_hole lego bytes inst ≡ ok inst'
    → Filled lego bytes inst inst'
unfolding fill_hole get_hole covers
fill_hole_cases lego bytes inst {inst'} h =
    let (hole, found, h₁) = >>=-eq-ok _ _ h in branch hole (or_raise-eq-ok _ _ found) h₁
  where
    branch :
        (hole : Hole)
        → lookup lego inst.repo ≡ some hole
        → (let stop = hole.addr + hole.size in
            if hole.fill
            then (do check (same_bytes (slice hole.addr stop inst.heap) bytes); ok inst)
            else (do
              check (length bytes == hole.size)
              check (leb hole.addr stop && leb stop inst.heap_offset)
              ok (write_hole lego hole bytes inst)))
          ≡ ok inst'
        → Filled lego bytes inst inst'
    branch hole found e = elim (Bool-cases hole.fill) [
      | inl full ↦
          let (_, same, e₁) = >>=-eq-ok _ _ (rw full at e) in
          again hole found full (same_bytes→eq _ _ (check-eq-ok _ same)) (ok-inj e₁)
      | inr empty ↦
          let (_, fits, e₁) = >>=-eq-ok _ _ (rw empty at e) in
          let (_, within, e₂) = >>=-eq-ok _ _ e₁ in
          let fits' = check-eq-ok _ fits in
          let within' = check-eq-ok _ within in
          first hole found empty (ground arith) (ground arith) (ok-inj e₂)
    ]
