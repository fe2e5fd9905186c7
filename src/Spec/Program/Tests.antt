-- ===== src/Spec/Program/Tests.antt =====
-- A program of one bootstrap syscall and two threads.
use krace.Prelude.{ℕ, ◌+◌, ◌≡◌, refl, [], ◌∷◌, arith}
use krace.Prelude.Int.{pos, negsuc}
use krace.Dict.{lookup, insert, erase}
use krace.Spec.Result.{ok, ◌>>=◌, or_raise}
use krace.Spec.Program.{
  Program, SyscallClass, insert_at, take, drop, reverse, init, bootstrap, add_syscall, del_syscall,
}
use krace.Spec.Program.Partition.{IsPartition}
use krace.Spec.Program.Insert.{IsNew, inserted, inserted-IsPartition}
use krace.Spec.Program.Bootstrap.{Took, init-IsStarting, bootstrap-Took}
use krace.Spec.Program.Added.{IsTotal, add_syscall-IsPartition, add_syscall_first}
use krace.Spec.Program.Deleted.{del_syscall-IsPartition, del_syscall-add_syscall}

-- The resources count the calls of the legos' methods.
abbrev counting : SyscallClass ℕ
counting = record {
  engage = λ s prog. ok (prog.resources + 1);
  remove = λ s prog. ok (prog.resources + 1);
  mutate = λ s prog. ok (prog.resources + 1);
  puzzle = λ s prog. ok (prog.resources + 1);
  update = λ s prog. ok (prog.resources + 1);
}

counting-IsTotal : IsTotal counting
counting-IsTotal = record { engages = λ s prog. (_, refl); updates = λ s prog. (_, refl) }

-- One bootstrap syscall, and then the syscall 2 in the thread 0.
abbrev booted : Program ℕ
booted = record {
  ncpu = 2;
  syscalls = 1 ∷ [];
  syscalls_start = 1;
  thread_main = 1 ∷ [];
  thread_subs = [] ∷ [] ∷ [];
  thread_dist = (1, negsuc 0) ∷ [];
  resources = 1;
}

is_booted : bootstrap counting (1 ∷ []) (init 2 0) ≡ ok booted
unfolding bootstrap init ◌>>=◌ insert
is_booted = refl

bootstrap-Took_example : Took counting (init 2 0) (1 ∷ []) booted
bootstrap-Took_example =
    bootstrap-Took counting (1 ∷ []) (init 2 0) booted (init-IsStarting 2 0)
      (unfold init in refl, tt) is_booted

abbrev before : Program ℕ
before = inserted booted 1 0 2 [] 3

booted-IsPartition : IsPartition booted
booted-IsPartition =
    (bootstrap-Took counting (1 ∷ []) (init 2 0) booted (init-IsStarting 2 0)
      (unfold init in refl, tt) is_booted).starting.partition

before-IsPartition : IsPartition before
before-IsPartition =
    inserted-IsPartition booted 1 0 2 [] booted-IsPartition
      (record { fresh = refl; low = omega arith; high = omega arith; found = refl }) 3

before-IsNew : IsNew before 2 0 4 (2 ∷ [])
unfolding insert_at
before-IsNew = record { fresh = refl; low = omega arith; high = omega arith; found = refl }

-- The syscall 4 is last in the sequence, and first in its thread.
abbrev after : Program ℕ
after = record {
  ncpu = 2;
  syscalls = 1 ∷ 2 ∷ 4 ∷ [];
  syscalls_start = 1;
  thread_main = 1 ∷ [];
  thread_subs = (4 ∷ 2 ∷ []) ∷ [] ∷ [];
  thread_dist = (1, negsuc 0) ∷ (2, pos 0) ∷ (4, pos 0) ∷ [];
  resources = 5;
}

added : add_syscall counting 2 0 4 before ≡ ok after
unfolding add_syscall ◌>>=◌ or_raise insert_at take drop reverse lookup insert
added = refl

deleted_again : del_syscall counting 2 after ≡ ok (record before { resources = 6 })
unfolding del_syscall ◌>>=◌ or_raise take drop lookup erase insert_at insert
deleted_again = refl

add_syscall-IsPartition_example : IsPartition after
add_syscall-IsPartition_example =
    add_syscall-IsPartition counting before 2 0 4 (2 ∷ []) before-IsPartition before-IsNew added

add_syscall_first_example :
    (r : ℕ) × (add_syscall counting 2 0 4 before ≡ ok (inserted before 2 0 4 (2 ∷ []) r))
add_syscall_first_example =
    add_syscall_first counting before 2 0 4 (2 ∷ []) counting-IsTotal before-IsPartition
      before-IsNew

del_syscall-IsPartition_example : IsPartition (record before { resources = 6 })
del_syscall-IsPartition_example =
    del_syscall-IsPartition counting after 2 4
      (add_syscall-IsPartition counting before 2 0 4 (2 ∷ []) before-IsPartition before-IsNew added)
      (omega arith) refl deleted_again

del_syscall-add_syscall_example :
    (r : ℕ) × (record before { resources = 6 } ≡ record before { resources = r })
del_syscall-add_syscall_example =
    del_syscall-add_syscall counting before 2 0 4 (2 ∷ []) before-IsPartition before-IsNew
      (unfold lookup insert in refl) added deleted_again
