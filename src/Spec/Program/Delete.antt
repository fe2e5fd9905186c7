-- ===== src/Spec/Program/Delete.antt =====
-- What `del_syscall` makes of a partitioned program.
use native.Mathlib.Decide.{ℕ_discrete}
use krace.Prelude.{
  ℕ, ◌+◌, ◌≤◌, ◌<◌, ◌≡◌, sym, ap, ◌∙◌, ◌≢◌, some, ◌∷◌, arith, ==_refl, get_elem?, set,
}
use krace.Prelude.Int.{pos}
use krace.Dict.{lookup, erase}
use krace.Dict.Key.{nat_eq}
use krace.Dict.Laws.{lookup-erase_ne}
use krace.Spec.Result.{ok, index_error, key_error, or_raise, or_raise-ok, >>=-ok}
use krace.Spec.Program.{
  Sys, Thread, Program, SyscallClass, delete_at, sub_at, remove_first, del_from_thread,
}
use krace.Spec.Program.Items.{
  count, count_all, count_all-set, count-le-count_all, count-delete_at, take-delete_at,
  length-delete_at, get_elem?-lt, length-set, get_elem?-set_self, get_elem?-set_ne,
}
use krace.Spec.Program.Partition.{IsPartition}

module _ {R : Type 0} (prog : Program R) (position tid : ℕ) (syscall : Sys)
    (thread left : Thread) where
  -- The victim stands at the position, past the bootstrap syscalls, in the thread, of which the
  -- others are left.
  pub record IsVictim : Type 0 where
    pub low : prog.syscalls_start ≤ position
    pub at : get_elem? prog.syscalls position ≡ some syscall
    pub found : get_elem? prog.thread_subs tid ≡ some thread
    pub stands : 0 < count syscall thread
    pub removed : remove_first syscall thread ≡ ok left
    pub counts : (s : Sys) → count s (syscall ∷ left) ≡ count s thread

  -- The program without the victim.
  abbrev pub deleted : R → Program R
  deleted r = record prog {
    syscalls = delete_at position prog.syscalls;
    thread_subs = set prog.thread_subs tid left;
    thread_dist = erase syscall prog.thread_dist;
    resources = r;
  }

  module _ (p : IsPartition prog) (v : IsVictim) where
    pub del_from_thread_lem :
        (class : SyscallClass R) (r : R)
        → del_from_thread class syscall
            (record prog { syscalls = delete_at position prog.syscalls; resources = r })
          ≡ ok (deleted r)
    unfolding del_from_thread sub_at
    del_from_thread_lem class r =
        >>=-ok (or_raise key_error (lookup syscall prog.thread_dist)) _
          (or_raise-ok key_error _ (p.sub_dist tid thread syscall v.found v.stands))
        ∙ >>=-ok (or_raise index_error (get_elem? prog.thread_subs tid)) _
            (or_raise-ok index_error _ v.found)
        ∙ >>=-ok (remove_first syscall thread) _ v.removed

    pub deleted-IsPartition : (r : R) → IsPartition (deleted r)
    deleted-IsPartition r = record {
      whole = λ s. omega (arith, counted s, threaded s, v.counts s, p.whole s);
      once = λ s. omega (arith, counted s, p.once s);
      precalls = take-delete_at prog.syscalls_start position prog.syscalls v.low ∙ p.precalls;
      starts = omega (
        arith,
        v.low,
        length-delete_at position syscall prog.syscalls v.at,
        get_elem?-lt prog.syscalls position syscall v.at,
      );
      main_dist = λ s h.
          lookup-erase_ne syscall s prog.thread_dist (λ e. other_main s h e) ∙ p.main_dist s h;
      sub_dist = λ i t s at h. sub_entry i t s at h;
      threads = length-set prog.thread_subs tid left ∙ p.threads;
    }
      where
        counted :
            (s : Sys) → count s (syscall ∷ delete_at position prog.syscalls) ≡ count s prog.syscalls
        counted s = count-delete_at s position syscall prog.syscalls v.at

        threaded :
            (s : Sys)
            → count_all s (set prog.thread_subs tid left) + count s thread
              ≡ count_all s prog.thread_subs + count s left
        threaded s = count_all-set s prog.thread_subs tid thread left v.found

        alone : count_all syscall prog.thread_subs ≤ 1
        alone = omega (arith, p.whole syscall, p.once syscall)

        other_main : (s : Sys) → 0 < count s prog.thread_main → syscall ≢ s
        other_main s h e = absurd (
            omega (
              arith,
              p.whole s,
              p.once s,
              count-le-count_all s prog.thread_subs tid thread v.found,
              v.stands,
              ap (λ x. count x thread) e,
            ))

        entry :
            (i : ℕ) (t : Thread) (s : Sys)
            → syscall ≢ s
            → get_elem? prog.thread_subs i ≡ some t
            → 0 < count s t
            → lookup s (erase syscall prog.thread_dist) ≡ some (pos i)
        entry i t s ne at h = lookup-erase_ne syscall s prog.thread_dist ne ∙ p.sub_dist i t s at h

        gone : count syscall left ≡ 0
        gone = ground (
          arith,
          v.counts syscall,
          ==_refl syscall,
          alone,
          count-le-count_all syscall prog.thread_subs tid thread v.found,
        )

        pos-inj : {i j : ℕ} → some (pos i) ≡ some (pos j) → i ≡ j
        pos-inj e = cc

        sub_entry :
            (i : ℕ) (t : Thread) (s : Sys)
            → get_elem? (set prog.thread_subs tid left) i ≡ some t
            → 0 < count s t
            → lookup s (erase syscall prog.thread_dist) ≡ some (pos i)
        sub_entry i t s at h = elim (ℕ_discrete tid i) [
          | yes e ↦
              let put : left ≡ t =
                cc (get_elem?-set_self prog.thread_subs tid left thread v.found, at, e) in
              let stays : 0 < count s left = omega (arith, ap (count s) put) in
              entry i thread s (λ same. absurd (omega (arith, gone, ap (λ x. count x left) same)))
                (cc (v.found, e)) (omega (arith, v.counts s))
          | no ne ↦
              let old = sym (get_elem?-set_ne prog.thread_subs tid i left ne) ∙ at in
              entry i t s
                (λ same. absurd (
                  ne (
                    pos-inj (
                      sym (p.sub_dist tid thread syscall v.found v.stands)
                      ∙ ap (λ x. lookup x prog.thread_dist) same
                      ∙ p.sub_dist i t s old h))))
                old h
        ]
