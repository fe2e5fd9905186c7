-- ===== src/Spec/Program/Bootstrap.antt =====
-- A new program, and its bootstrap syscalls.
use native.Mathlib.Decide.{ℕ_discrete}
use mathlib.Core.List.{append_assoc, append-nil}
use mathlib.Core.Path.{subst}
use krace.Prelude.{
  ℕ, zero, suc, ◌+◌, ◌≤◌, ◌<◌, ◌≡◌, refl, sym, ap, ◌∙◌, some, List, [], ◌∷◌, ◌++◌, arith, ==_refl,
  length,
}
use krace.Prelude.Int.{negsuc}
use krace.Dict.{lookup, insert}
use krace.Dict.Key.{nat_eq}
use krace.Dict.Laws.{lookup-insert_self, lookup-insert_ne}
use krace.Bytes.Slices.{length-append}
use krace.Spec.Result.{ok, >>=-eq-ok}
use krace.Spec.Program.{
  Sys, Program, SyscallClass, take, init, no_threads, with_resources, preload, bootstrap,
}
use krace.Spec.Program.Items.{count, count_all, count-append, count-le-count_all}
use krace.Spec.Program.Partition.{IsPartition}
use krace.Spec.Program.Insert.{ok-inj}

count_all-no_threads : (s : Sys) (n : ℕ) → count_all s (no_threads n) ≡ 0
unfolding no_threads
count_all-no_threads s zero = refl
count_all-no_threads s (suc n) = omega (arith, count_all-no_threads s n)

length-no_threads : (n : ℕ) → length (no_threads n) ≡ n
unfolding no_threads
length-no_threads zero = refl
length-no_threads (suc n) = ap suc (length-no_threads n)

take_all : {A : Type 0} (n : ℕ) (xs : List A) → length xs ≤ n → take n xs ≡ xs
unfolding take
take_all zero [] h = refl
take_all zero (x ∷ xs) h = absurd (omega arith)
take_all (suc n) [] h = refl
take_all (suc n) (x ∷ xs) h = ap (λ l. x ∷ l) (take_all n xs (omega arith))

-- Nothing but bootstrap syscalls is there yet.
pub record IsStarting {R : Type 0} (prog : Program R) : Type 0 where
  pub partition : IsPartition prog
  pub all_pre : prog.syscalls_start ≡ length prog.syscalls

pub init-IsStarting : {R : Type 0} (ncpu : ℕ) (r : R) → IsStarting (init ncpu r)
unfolding init take
init-IsStarting ncpu r = record {
  partition = record {
    whole = λ s. omega (arith, count_all-no_threads s ncpu);
    once = λ s. omega arith;
    precalls = refl;
    starts = omega arith;
    main_dist = λ s h. absurd (omega arith);
    sub_dist = λ i t s at h.
        absurd (
          omega
            (arith, count_all-no_threads s ncpu, count-le-count_all s (no_threads ncpu) i t at));
    threads = length-no_threads ncpu;
  };
  all_pre = refl;
}

module _ {R : Type 0} (prog : Program R) (syscall : Sys) (s : IsStarting prog)
    (fresh : count syscall prog.syscalls ≡ 0) where
  abbrev preloaded : R → Program R
  preloaded r = record prog {
    syscalls = prog.syscalls ++ syscall ∷ [];
    syscalls_start = prog.syscalls_start + 1;
    thread_main = prog.thread_main ++ syscall ∷ [];
    thread_dist = insert syscall (negsuc 0) prog.thread_dist;
    resources = r;
  }

  main_is : prog.thread_main ≡ prog.syscalls
  main_is =
      sym s.partition.precalls
      ∙ take_all prog.syscalls_start prog.syscalls (omega (arith, s.all_pre))

  preloaded-IsStarting : (r : R) → IsStarting (preloaded r)
  preloaded-IsStarting r = record {
    partition = record {
      whole = λ t. omega (
        arith,
        s.partition.whole t,
        count-append t prog.syscalls (syscall ∷ []),
        count-append t prog.thread_main (syscall ∷ []),
      );
      once = λ t. at_most_once t;
      precalls =
          take_all _ (prog.syscalls ++ syscall ∷ [])
            (omega (arith, s.all_pre, length-append prog.syscalls (syscall ∷ [])))
          ∙ ap (λ l. l ++ syscall ∷ []) (sym main_is);
      starts = omega (arith, s.all_pre, length-append prog.syscalls (syscall ∷ []));
      main_dist = λ t h. main_entry t h;
      sub_dist = λ i thread t at h.
          lookup-insert_ne syscall t _ prog.thread_dist (λ e. absurd (
            omega (
              arith,
              s.partition.whole syscall,
              fresh,
              count-le-count_all t prog.thread_subs i thread at,
              ap (λ x. count_all x prog.thread_subs) e,
            )))
          ∙ s.partition.sub_dist i thread t at h;
      threads = s.partition.threads;
    };
    all_pre = omega (arith, s.all_pre, length-append prog.syscalls (syscall ∷ []));
  }
    where
      at_most_once : (t : Sys) → count t (prog.syscalls ++ syscall ∷ []) ≤ 1
      at_most_once t = elim (ℕ_discrete syscall t) [
        | yes e ↦ rw (← e) (
            ground
              (arith, fresh, count-append syscall prog.syscalls (syscall ∷ []), ==_refl syscall))
        | no ne ↦ ground (arith, s.partition.once t, count-append t prog.syscalls (syscall ∷ []))
      ]

      main_entry :
          (t : Sys)
          → 0 < count t (prog.thread_main ++ syscall ∷ [])
          → lookup t (insert syscall (negsuc 0) prog.thread_dist) ≡ some (negsuc 0)
      main_entry t h = elim (ℕ_discrete syscall t) [
        | yes e ↦ cc (lookup-insert_self syscall (negsuc 0) prog.thread_dist, e)
        | no ne ↦
            lookup-insert_ne syscall t _ prog.thread_dist ne
            ∙ s.partition.main_dist t
                (ground (arith, count-append t prog.thread_main (syscall ∷ [])))
      ]

-- Each of these syscalls was engaged once, in their order, in a program that had the resources which
-- the one before left, and in whose sequence it was the last; `present` is the sequence before them.
pub data Engaged {R : Type 0} (class : SyscallClass R) : List Sys → List Sys → R → R → Type 0 where
  finish : {present : List Sys} {r : R} → Engaged class present [] r r
  engage :
      {present rest : List Sys} {s : Sys} {r' r'' : R} (p : Program R)
      → p.syscalls ≡ present ++ s ∷ []
      → class.engage s p ≡ ok r'
      → Engaged class (present ++ s ∷ []) rest r' r''
      → Engaged class present (s ∷ rest) p.resources r''

Engaged-append :
    {R : Type 0} (class : SyscallClass R) {present xs : List Sys} (ys : List Sys) {r r' r'' : R}
    → Engaged class present xs r r'
    → Engaged class (present ++ xs) ys r' r''
    → Engaged class present (xs ++ ys) r r''
Engaged-append class {present} ys {r'' = r''} (Engaged.finish {r = r}) b =
    subst (λ l. Engaged class l ys r r'') (append-nil present) b
Engaged-append class {present} ys {r'' = r''}
      (Engaged.engage {rest = rest} {s = s} {r'' = r'} p e h a) b =
    Engaged.engage p e h (
      Engaged-append class ys a
        (subst (λ l. Engaged class l ys r' r'') (sym (append_assoc present (s ∷ []) rest)) b))

-- What a program is once it took these syscalls: all of them, in their order, are behind what was in
-- the sequence, and behind what was in the main thread; the threads are as they were.
pub record Took {R : Type 0} (class : SyscallClass R) (prog : Program R) (preloads : List Sys)
    (prog' : Program R) : Type 0 where
  pub starting : IsStarting prog'
  pub sequence : prog'.syscalls ≡ prog.syscalls ++ preloads
  pub main : prog'.thread_main ≡ prog.thread_main ++ preloads
  pub start : prog'.syscalls_start ≡ prog.syscalls_start + length preloads
  pub subs : prog'.thread_subs ≡ prog.thread_subs
  pub engaged : Engaged class prog.syscalls preloads prog.resources prog'.resources

after_both :
    {R : Type 0} (class : SyscallClass R) (prog mid prog' : Program R) (s : Sys) (rest : List Sys)
    → Took class prog (s ∷ []) mid
    → Took class mid rest prog'
    → Took class prog (s ∷ rest) prog'
after_both class prog mid prog' s rest a b = record {
  starting = b.starting;
  sequence = b.sequence ∙ ap (λ l. l ++ rest) a.sequence ∙ append_assoc prog.syscalls (s ∷ []) rest;
  main = b.main ∙ ap (λ l. l ++ rest) a.main ∙ append_assoc prog.thread_main (s ∷ []) rest;
  start = omega (arith, a.start, b.start);
  subs = b.subs ∙ a.subs;
  engaged =
      Engaged-append class rest a.engaged
        (subst (λ l. Engaged class l rest mid.resources prog'.resources) a.sequence b.engaged);
}

preload-eq-ok :
    {R : Type 0} (class : SyscallClass R) (prog prog' : Program R) (syscall : Sys)
    → preload class syscall prog ≡ ok prog'
    → IsStarting prog
    → count syscall prog.syscalls ≡ 0
    → Took class prog (syscall ∷ []) prog'
unfolding preload
preload-eq-ok class prog prog' syscall h s fresh =
    let appended : Program _ = record prog {
      syscalls = prog.syscalls ++ syscall ∷ [];
      syscalls_start = prog.syscalls_start + 1;
    } in
    let (engaged, one, h₁) = >>=-eq-ok (with_resources class (class.engage syscall) _) _ h in
    let (r, did, made) = >>=-eq-ok (class.engage syscall appended) _ one in
    let e = sym (ok-inj made) in
    let same : preloaded prog syscall s fresh r ≡ prog' =
      ap
        (λ (q : Program _). record q {
          thread_main = q.thread_main ++ syscall ∷ [];
          thread_dist = insert syscall (negsuc 0) q.thread_dist;
        })
        (sym e)
      ∙ ok-inj h₁ in
    subst (Took class prog (syscall ∷ [])) same (record {
      starting = preloaded-IsStarting prog syscall s fresh r;
      sequence = refl;
      main = refl;
      start = refl;
      subs = refl;
      engaged = Engaged.engage appended refl did Engaged.finish;
    })

-- The bootstrap syscalls are new, and no two are the same.
abbrev pub AreNew : List Sys → List Sys → Type 0
AreNew [] present = Unit {0}
AreNew (s ∷ rest) present = (count s present ≡ 0) × AreNew rest (present ++ s ∷ [])

-- A program with nothing but bootstrap syscalls that `bootstrap` returns for new ones has all of
-- these, engaged once each and in their order, at the end of its sequence and of its main thread, counts them as bootstrap
-- syscalls, keeps its threads, and is partitioned, with every syscall a bootstrap syscall of the main
-- thread.
pub bootstrap-Took :
    {R : Type 0} (class : SyscallClass R) (preloads : List Sys) (prog prog' : Program R)
    → IsStarting prog
    → AreNew preloads prog.syscalls
    → bootstrap class preloads prog ≡ ok prog'
    → Took class prog preloads prog'
unfolding bootstrap
bootstrap-Took class [] prog prog' s new h = subst (Took class prog []) (ok-inj h) (record {
  starting = s;
  sequence = sym (append-nil prog.syscalls);
  main = sym (append-nil prog.thread_main);
  start = omega arith;
  subs = refl;
  engaged = Engaged.finish;
})
bootstrap-Took class (x ∷ rest) prog prog' s new h =
    let (mid, one, h₁) = >>=-eq-ok (preload class x prog) _ h in
    let took = preload-eq-ok class prog mid x one s new.0 in
    after_both class prog mid prog' x rest took (
      bootstrap-Took class rest mid prog' took.starting
        (subst (AreNew rest) (sym took.sequence) new.1) h₁)
