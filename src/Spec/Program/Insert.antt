-- ===== src/Spec/Program/Insert.antt =====
-- What `add_syscall` makes of a partitioned program.
use native.Mathlib.Decide.{ℕ_discrete}
use krace.Prelude.{
  ℕ, ◌≤◌, ◌<◌, ◌≡◌, sym, ap, ◌∙◌, ◌≢◌, some, List, [], ◌∷◌, arith, ==_refl, length, get_elem?, set,
}
use krace.Prelude.Int.{ℤ, pos}
use krace.Dict.{lookup, insert}
use krace.Dict.Key.{nat_eq}
use krace.Dict.Laws.{lookup-insert_self, lookup-insert_ne}
use krace.Spec.Result.{Result, ok, index_error, or_raise, or_raise-ok, >>=-ok, >>=-eq-ok}
use krace.Spec.Program.{
  Sys, Thread, Program, SyscallClass, insert_at, take, reverse, find_before, thread_index,
  with_resources, update_each, add_to_thread,
}
use krace.Spec.Program.Items.{
  count, count_all, count-insert_at, count-reverse, count-take-drop, count_all-set,
  count-le-count_all, take-insert_at, length-insert_at, length-set, get_elem?-set_self,
  get_elem?-set_ne,
}
use krace.Spec.Program.Partition.{IsPartition, has_dist, find_before_lem, thread_index-set}

pub ok-inj {ℓ} : {A : Type ℓ} {a b : A} → ok a ≡ ok b → a ≡ b
ok-inj h = cc

module _ {R : Type 0} (class : SyscallClass R) where
  pub with_resources-eq-ok :
      (f : Program R → Result R) (prog prog' : Program R)
      → with_resources class f prog ≡ ok prog'
      → (r : R) × (prog' ≡ record prog { resources = r })
  with_resources-eq-ok f prog prog' h =
      let (r, _, same) = >>=-eq-ok (f prog) _ h in (r, sym (ok-inj same))

  -- Updates change the resources only.
  pub update_each-eq-ok :
      (syscalls : List Sys) (prog prog' : Program R)
      → update_each class syscalls prog ≡ ok prog'
      → (r : R) × (prog' ≡ record prog { resources = r })
  unfolding update_each
  update_each-eq-ok [] prog prog' h = (prog.resources, sym (ok-inj h))
  update_each-eq-ok (s ∷ syscalls) prog prog' h =
      let (mid, one, rest) = >>=-eq-ok (with_resources class (class.update s) prog) _ h in
      let (r, changed) = with_resources-eq-ok (class.update s) prog mid one in
      let (r', changed') = update_each-eq-ok syscalls mid prog' rest in
      (r', changed' ∙ ap (λ (q : Program R). record q { resources = r' }) changed)

module _ {R : Type 0} (prog : Program R) (position tid : ℕ) (syscall : Sys) (thread : Thread) where
  -- The syscall is new, its position is past the bootstrap syscalls, and its thread is there.
  pub record IsNew : Type 0 where
    pub fresh : count syscall prog.syscalls ≡ 0
    pub low : prog.syscalls_start ≤ position
    pub high : position ≤ length prog.syscalls
    pub found : get_elem? prog.thread_subs tid ≡ some thread

  -- The program with the syscall at its position, and at the front of its thread.
  abbrev pub inserted : R → Program R
  inserted r = record prog {
    syscalls = insert_at position syscall prog.syscalls;
    thread_subs = set prog.thread_subs tid (syscall ∷ thread);
    thread_dist = insert syscall (pos tid) prog.thread_dist;
    resources = r;
  }

  module _ (p : IsPartition prog) (new : IsNew) where
    fresh_main : count syscall prog.thread_main ≡ 0
    fresh_main = omega (arith, p.whole syscall, new.fresh)

    fresh_subs : count_all syscall prog.thread_subs ≡ 0
    fresh_subs = omega (arith, p.whole syscall, new.fresh)

    pub add_to_thread_lem :
        (class : SyscallClass R) (r : R)
        → add_to_thread class position syscall tid
            (record prog { syscalls = insert_at position syscall prog.syscalls; resources = r })
          ≡ ok (inserted r)
    unfolding add_to_thread
    add_to_thread_lem class r =
        >>=-ok (or_raise index_error (get_elem? prog.thread_subs tid)) _
          (or_raise-ok index_error _ new.found)
        ∙ >>=-ok
            (find_before prog.thread_dist thread
              (reverse (take position (insert_at position syscall prog.syscalls))))
            _ (find_before_lem prog.thread_dist thread _ earlier_known)
        ∙ >>=-ok (thread_index (syscall ∷ thread) (set prog.thread_subs tid (syscall ∷ thread))) _ (
            thread_index-set prog.thread_subs tid syscall thread (syscall ∷ thread) fresh_subs
              (ground (arith, ==_refl syscall)) new.found)
      where
        earlier_known :
            (s : Sys)
            → 0 < count s (reverse (take position (insert_at position syscall prog.syscalls)))
            → (d : ℤ) × (lookup s prog.thread_dist ≡ some d)
        earlier_known s h = has_dist prog p s (
            omega (
              arith,
              h,
              count-reverse s (take position (insert_at position syscall prog.syscalls)),
              ap (count s)
                  (take-insert_at position position syscall prog.syscalls (omega arith) new.high),
              count-take-drop s position prog.syscalls,
            ))

    -- The result is partitioned again.
    pub inserted-IsPartition : (r : R) → IsPartition (inserted r)
    inserted-IsPartition r = record {
      whole = λ s. omega (
        arith,
        p.whole s,
        count-insert_at s position syscall prog.syscalls,
        count_all-set s prog.thread_subs tid thread (syscall ∷ thread) new.found,
      );
      once = λ s. at_most_once s;
      precalls =
          take-insert_at prog.syscalls_start position syscall prog.syscalls new.low new.high
          ∙ p.precalls;
      starts = omega (arith, p.starts, length-insert_at position syscall prog.syscalls);
      main_dist = λ s h.
          (lookup-insert_ne syscall s _ prog.thread_dist (λ e. other_main s h e)) ∙ p.main_dist s h;
      sub_dist = λ i t s at h. sub_entry i t s at h;
      threads = length-set prog.thread_subs tid (syscall ∷ thread) ∙ p.threads;
    }
      where
        at_most_once : (s : Sys) → count s (insert_at position syscall prog.syscalls) ≤ 1
        at_most_once s = elim (ℕ_discrete syscall s) [
          | yes e ↦ rw (← e) (
              ground (
                arith,
                new.fresh,
                count-insert_at syscall position syscall prog.syscalls,
                ==_refl syscall,
              ))
          | no ne ↦ ground (arith, p.once s, count-insert_at s position syscall prog.syscalls)
        ]

        other_main : (s : Sys) → 0 < count s prog.thread_main → syscall ≢ s
        other_main s h e = absurd (omega (arith, fresh_main, ap (λ x. count x prog.thread_main) e))

        in_old :
            (i : ℕ) (t : Thread) (s : Sys)
            → get_elem? prog.thread_subs i ≡ some t
            → 0 < count s t
            → lookup s (insert syscall (pos tid) prog.thread_dist) ≡ some (pos i)
        in_old i t s at h =
            lookup-insert_ne syscall s _ prog.thread_dist (λ e. absurd (
              omega (
                arith,
                fresh_subs,
                count-le-count_all s prog.thread_subs i t at,
                ap (λ x. count_all x prog.thread_subs) e,
              )))
            ∙ p.sub_dist i t s at h

        sub_entry :
            (i : ℕ) (t : Thread) (s : Sys)
            → get_elem? (set prog.thread_subs tid (syscall ∷ thread)) i ≡ some t
            → 0 < count s t
            → lookup s (insert syscall (pos tid) prog.thread_dist) ≡ some (pos i)
        sub_entry i t s at h = elim (ℕ_discrete tid i) [
          | yes e ↦
              let put : syscall ∷ thread ≡ t = cc (
                get_elem?-set_self prog.thread_subs tid (syscall ∷ thread) thread new.found,
                at,
                e,
              ) in
              elim (ℕ_discrete syscall s) [
                | yes same ↦ cc (lookup-insert_self syscall (pos tid) prog.thread_dist, same, e)
                | no ne ↦
                    let old : 0 < count s thread = ground (arith, ap (count s) put) in
                    in_old i thread s (cc (new.found, e)) old
              ]
          | no ne ↦
              in_old i t s
                (sym (get_elem?-set_ne prog.thread_subs tid i (syscall ∷ thread) ne) ∙ at) h
        ]
