-- ===== src/Spec/Program/Deleted.antt =====
-- `del_syscall` as a whole, and after `add_syscall`.
use mathlib.Core.Path.{subst}
use mathlib.Core.List.{append-nil}
use krace.Prelude.{
  ℕ, ◌≤◌, ◌≡◌, refl, sym, ap, ◌∙◌, some, none, [], ◌∷◌, arith, ==_refl, get_elem?, set,
}
use krace.Prelude.Int.{ℤ, pos}
use krace.Dict.{Dict, lookup, insert, erase}
use krace.Dict.Key.{nat_eq}
use krace.Dict.Laws.{insert-append, erase-append}
use krace.Spec.Result.{ok, index_error, or_raise, or_raise-ok, >>=-ok, >>=-eq-ok}
use krace.Spec.Program.{
  Sys, Thread, Program, SyscallClass, insert_at, delete_at, drop, remove_first, with_resources,
  update_each, update_from, del_from_thread, del_syscall, add_syscall,
}
use krace.Spec.Program.Items.{
  count, count-take-drop, count-drop_at, find_thread, delete_at-insert_at, get_elem?-insert_at,
  get_elem?-set_self, set-set_back,
}
use krace.Spec.Program.Partition.{IsPartition, remove_first_lem}
use krace.Spec.Program.Insert.{
  IsNew, inserted, ok-inj, with_resources-eq-ok, update_each-eq-ok, inserted-IsPartition,
}
use krace.Spec.Program.Added.{add_syscall-eq-ok}
use krace.Spec.Program.Delete.{IsVictim, deleted, del_from_thread_lem, deleted-IsPartition}

-- A syscall past the bootstrap ones stands in a thread, and can be removed from it.
record Victim {R : Type 0} (prog : Program R) (position : ℕ) (syscall : Sys) : Type 0 where
  tid : ℕ
  thread : Thread
  left : Thread
  is_victim : IsVictim prog position tid syscall thread left

locate_in_thread :
    {R : Type 0} (prog : Program R) (position : ℕ) (syscall : Sys)
    → IsPartition prog
    → prog.syscalls_start ≤ position
    → get_elem? prog.syscalls position ≡ some syscall
    → Victim prog position syscall
locate_in_thread prog position syscall p low at =
    let later = count-drop_at syscall prog.syscalls_start position prog.syscalls low at in
    let split = count-take-drop syscall prog.syscalls_start prog.syscalls in
    let (tid, thread, found, stands) =
      find_thread syscall prog.thread_subs
        (omega (arith, p.whole syscall, p.once syscall, ap (count syscall) p.precalls)) in
    let (left, removed, counts) = remove_first_lem syscall thread stands in
    record {
      tid = tid;
      thread = thread;
      left = left;
      is_victim = record {
        low = low;
        at = at;
        found = found;
        stands = stands;
        removed = removed;
        counts = counts;
      };
    }

module _ {R : Type 0} (class : SyscallClass R) (prog : Program R) (position : ℕ)
    (syscall : Sys) where
  del_syscall-eq-ok :
      (tid : ℕ) (thread left : Thread) {prog' : Program R}
      → IsPartition prog
      → IsVictim prog position tid syscall thread left
      → del_syscall class position prog ≡ ok prog'
      → (r : R) × (deleted prog position tid syscall thread left r ≡ prog')
  unfolding del_syscall update_from
  del_syscall-eq-ok tid thread left p v h =
      let h₀ =
        sym (
          >>=-ok (or_raise index_error (get_elem? prog.syscalls position)) _
            (or_raise-ok index_error _ v.at))
        ∙ h in
      let (removed, one, h₁) = >>=-eq-ok (with_resources class (class.remove syscall) prog) _ h₀ in
      let (r, e₁) = with_resources-eq-ok class (class.remove syscall) prog removed one in
      let cut : Program R = record removed { syscalls = delete_at position removed.syscalls } in
      let (updated, two, h₂) =
        >>=-eq-ok (update_each class (drop position cut.syscalls) cut) _ h₁ in
      let (r', e₂) = update_each-eq-ok class (drop position cut.syscalls) cut updated two in
      let same : updated
          ≡ record prog { syscalls = delete_at position prog.syscalls; resources = r' } =
        e₂
        ∙ ap
            (λ (q : Program R). record q {
              syscalls = delete_at position q.syscalls;
              resources = r';
            })
            e₁ in
      (
        r',
        ok-inj (
            sym (del_from_thread_lem prog position tid syscall thread left p v class r')
            ∙ ap (del_from_thread class syscall) (sym same)
            ∙ h₂),
      )

  -- Deleting a syscall that is no bootstrap syscall keeps the partition into threads.
  pub del_syscall-IsPartition :
      {prog' : Program R}
      → IsPartition prog
      → prog.syscalls_start ≤ position
      → get_elem? prog.syscalls position ≡ some syscall
      → del_syscall class position prog ≡ ok prog'
      → IsPartition prog'
  del_syscall-IsPartition p low at h =
      let v = locate_in_thread prog position syscall p low at in
      let (r, same) = del_syscall-eq-ok v.tid v.thread v.left p v.is_victim h in
      subst IsPartition same
        (deleted-IsPartition prog position v.tid syscall v.thread v.left p v.is_victim r)

erase-insert : (k : Sys) (v : ℤ) (d : Dict Sys ℤ) → lookup k d ≡ none → erase k (insert k v d) ≡ d
erase-insert k v d fresh =
    ap (erase k) (insert-append k v d fresh) ∙ erase-append k v d [] fresh ∙ append-nil d

-- Deleting the syscall that was added last gives back the sequence, the threads and the table of
-- the program that it was added to, whatever the legos' methods did to the resources.
pub del_syscall-add_syscall :
    {R : Type 0} (class : SyscallClass R) (prog : Program R) (position tid : ℕ) (syscall : Sys)
    (thread : Thread) {after back : Program R}
    → IsPartition prog
    → IsNew prog position tid syscall thread
    → lookup syscall prog.thread_dist ≡ none
    → add_syscall class position tid syscall prog ≡ ok after
    → del_syscall class position after ≡ ok back
    → (r : R) × (back ≡ record prog { resources = r })
del_syscall-add_syscall {R} class prog position tid syscall thread {after = after} {back = back} p
      new fresh added h =
    let (r, same) = add_syscall-eq-ok class prog position tid syscall thread p new added in
    step r (subst (λ (q : Program R). del_syscall class position q ≡ ok back) (sym same) h)
  where
    restored :
        (r' : R)
        → record prog {
          syscalls = delete_at position (insert_at position syscall prog.syscalls);
          thread_subs = set (set prog.thread_subs tid (syscall ∷ thread)) tid thread;
          thread_dist = erase syscall (insert syscall (pos tid) prog.thread_dist);
          resources = r';
        }
          ≡ record prog { resources = r' }
    restored r' =
        rw
          (
            delete_at-insert_at position syscall prog.syscalls new.high,
            set-set_back prog.thread_subs tid (syscall ∷ thread) thread new.found,
            erase-insert syscall (pos tid) prog.thread_dist fresh,
          )
          refl

    step :
        (r : R)
        → del_syscall class position (inserted prog position tid syscall thread r) ≡ ok back
        → (r : R) × (back ≡ record prog { resources = r })
    step r deleting =
        let q = inserted prog position tid syscall thread r in
        let victim : IsVictim q position tid syscall (syscall ∷ thread) thread = record {
          low = new.low;
          at = get_elem?-insert_at position syscall prog.syscalls new.high;
          found = get_elem?-set_self prog.thread_subs tid (syscall ∷ thread) thread new.found;
          stands = ground (arith, ==_refl syscall);
          removed = unfold remove_first in rw (==_refl syscall) refl;
          counts = λ s. refl;
        } in
        let (r', back_is) =
          del_syscall-eq-ok class q position syscall tid (syscall ∷ thread) thread
            (inserted-IsPartition prog position tid syscall thread p new r) victim deleting in
        (r', sym back_is ∙ restored r')
