-- ===== src/Spec/Program/Added.antt =====
-- `add_syscall` as a whole.
use mathlib.Core.Path.{subst}
use krace.Prelude.{ℕ, ◌≡◌, refl, sym, ap, ◌∙◌, List, [], ◌∷◌}
use krace.Spec.Result.{ok, >>=-ok, >>=-eq-ok}
use krace.Spec.Program.{
  Sys, Thread, Program, SyscallClass, insert_at, drop, with_resources, update_each, update_from,
  add_to_thread, add_syscall,
}
use krace.Spec.Program.Partition.{IsPartition}
use krace.Spec.Program.Insert.{
  IsNew, inserted, ok-inj, with_resources-eq-ok, update_each-eq-ok, add_to_thread_lem,
  inserted-IsPartition,
}

module _ {R : Type 0} (class : SyscallClass R) (prog : Program R) (position tid : ℕ) (syscall : Sys)
    (thread : Thread) where
  pub add_syscall-eq-ok :
      {prog' : Program R}
      → IsPartition prog
      → IsNew prog position tid syscall thread
      → add_syscall class position tid syscall prog ≡ ok prog'
      → (r : R) × (inserted prog position tid syscall thread r ≡ prog')
  unfolding add_syscall update_from
  add_syscall-eq-ok p new h =
      let (engaged, one, h₁) = >>=-eq-ok (with_resources class (class.engage syscall) placed) _ h in
      let (updated, two, h₂) =
        >>=-eq-ok (update_each class (drop position engaged.syscalls) engaged) _ h₁ in
      let (r, e₁) = with_resources-eq-ok class (class.engage syscall) placed engaged one in
      let (r', e₂) = update_each-eq-ok class _ engaged updated two in
      let same : updated ≡ record placed { resources = r' } =
        e₂ ∙ ap (λ (q : Program R). record q { resources = r' }) e₁ in
      (
        r',
        ok-inj (
            sym (add_to_thread_lem prog position tid syscall thread p new class r')
            ∙ ap (add_to_thread class position syscall tid) (sym same)
            ∙ h₂),
      )
    where
      placed : Program R
      placed = record prog { syscalls = insert_at position syscall prog.syscalls }

  -- Adding a new syscall keeps the partition into threads.
  pub add_syscall-IsPartition :
      {prog' : Program R}
      → IsPartition prog
      → IsNew prog position tid syscall thread
      → add_syscall class position tid syscall prog ≡ ok prog'
      → IsPartition prog'
  add_syscall-IsPartition p new h =
      let (r, same) = add_syscall-eq-ok p new h in
      subst IsPartition same (inserted-IsPartition prog position tid syscall thread p new r)

-- The legos' methods raise nothing.
pub record IsTotal {R : Type 0} (class : SyscallClass R) : Type 0 where
  pub engages : (s : Sys) (prog : Program R) → (r : R) × (class.engage s prog ≡ ok r)
  pub updates : (s : Sys) (prog : Program R) → (r : R) × (class.update s prog ≡ ok r)

update_each-returns :
    {R : Type 0} (class : SyscallClass R) (syscalls : List Sys) (prog : Program R)
    → IsTotal class
    → (prog' : Program R) × (update_each class syscalls prog ≡ ok prog')
unfolding update_each
update_each-returns class [] prog total = (prog, refl)
update_each-returns class (s ∷ syscalls) prog total =
    let (r, one) = total.updates s prog in
    let (prog', rest) = update_each-returns class syscalls (record prog { resources = r }) total in
    (
      prog',
      >>=-ok (with_resources class (class.update s) prog) _ (>>=-ok (class.update s prog) _ one)
          ∙ rest,
    )

-- Where the legos' methods raise nothing, adding a new syscall to a partitioned program raises
-- nothing. The syscall stands at the drawn position of the sequence, and whatever that position is,
-- at the front of its thread, also where syscalls of the thread stand before it in the sequence:
-- the search for them compares the number of a thread with the thread itself, and never finds one.
pub add_syscall_first :
    {R : Type 0} (class : SyscallClass R) (prog : Program R) (position tid : ℕ) (syscall : Sys)
    (thread : Thread)
    → IsTotal class
    → IsPartition prog
    → IsNew prog position tid syscall thread
    → (r : R) × (add_syscall class position tid syscall prog
        ≡ ok (inserted prog position tid syscall thread r))
unfolding add_syscall update_from
add_syscall_first {R} class prog position tid syscall thread total p new =
    let placed : Program R = record prog { syscalls = insert_at position syscall prog.syscalls } in
    let (r, one) = total.engages syscall placed in
    let engaged : Program R = record placed { resources = r } in
    let (updated, two) = update_each-returns class (drop position engaged.syscalls) engaged total in
    let (r', same) = update_each-eq-ok class (drop position engaged.syscalls) engaged updated two in
    (
      r',
      >>=-ok (with_resources class (class.engage syscall) placed) _
            (>>=-ok (class.engage syscall placed) _ one)
          ∙ >>=-ok (update_each class (drop position engaged.syscalls) engaged) _ two
          ∙ ap (add_to_thread class position syscall tid) same
          ∙ add_to_thread_lem prog position tid syscall thread p new class r',
    )
