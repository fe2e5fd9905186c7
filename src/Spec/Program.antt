-- ===== src/Spec/Program.antt =====
-- The program of script/spec_basis.py: `Program`, its sequence of syscalls and the threads that they
-- are partitioned into. A syscall object is a number, its identity; `R` is what the legos change,
-- the repositories of the program and the legos' own data. What `SPEC_RANDOM` draws is an argument.
pub mod Items
pub mod Partition
pub mod Bootstrap
pub mod Insert
pub mod Added
pub mod Delete
pub mod Deleted
pub mod Tests
use krace.Prelude.{
  ℕ, zero, suc, ◌+◌, ◌-◌, Bool, true, false, ◌&&◌, Option, none, some, List, [], ◌∷◌, ◌++◌, ◌==◌,
  leb, ltb, if◌then◌else◌, length, get_elem?, set, has,
}
use krace.Prelude.Int.{ℤ, pos, negsuc}
use krace.Dict.{Dict, lookup, insert, erase}
use krace.Dict.Key.{nat_eq}
use krace.Spec.Result.{
  Result, ok, raised, key_error, index_error, value_error, ◌>>=◌, ◌>>◌, check, or_raise,
}

abbrev pub Sys : Type 0
Sys = ℕ

abbrev pub Thread : Type 0
Thread = List Sys

pub record Program (R : Type 0) : Type 0 where
  pub ncpu : ℕ
  pub syscalls : List Sys
  pub syscalls_start : ℕ
  pub thread_main : Thread
  pub thread_subs : List Thread
  pub thread_dist : Dict Sys ℤ
  pub resources : R

unfoldable pub no_threads : ℕ → List Thread
no_threads zero = []
no_threads (suc n) = [] ∷ no_threads n

-- `__init__`
unfoldable pub init : {R : Type 0} → ℕ → R → Program R
unfolding no_threads
init ncpu resources = record {
  ncpu = ncpu;
  syscalls = [];
  syscalls_start = 0;
  thread_main = [];
  thread_subs = no_threads ncpu;
  thread_dist = [];
  resources = resources;
}

-- The methods of a syscall's legos that a program calls. They read the program and change the
-- resources only.
pub record SyscallClass (R : Type 0) : Type 0 where
  pub engage : Sys → Program R → Result R
  pub remove : Sys → Program R → Result R
  pub mutate : Sys → Program R → Result R
  pub puzzle : Sys → Program R → Result R
  pub update : Sys → Program R → Result R

-- `xs.insert(i, x)`
unfoldable pub insert_at {ℓ} : {A : Type ℓ} → ℕ → A → List A → List A
insert_at zero x xs = x ∷ xs
insert_at (suc i) x [] = x ∷ []
insert_at (suc i) x (y ∷ xs) = y ∷ insert_at i x xs

-- `del xs[i]`
unfoldable pub delete_at {ℓ} : {A : Type ℓ} → ℕ → List A → List A
delete_at i [] = []
delete_at zero (x ∷ xs) = xs
delete_at (suc i) (x ∷ xs) = x ∷ delete_at i xs

unfoldable pub take {ℓ} : {A : Type ℓ} → ℕ → List A → List A
take zero xs = []
take (suc n) [] = []
take (suc n) (x ∷ xs) = x ∷ take n xs

-- `xs[n:]`
unfoldable pub drop {ℓ} : {A : Type ℓ} → ℕ → List A → List A
drop zero xs = xs
drop (suc n) [] = []
drop (suc n) (x ∷ xs) = drop n xs

-- `xs.index(x)`
unfoldable pub index : Sys → List Sys → Result ℕ
index x [] = raised value_error
index x (y ∷ ys) = let rest = index x ys in if y == x then ok 0 else (rest >>= λ i. ok (suc i))

-- `xs.remove(x)`
unfoldable pub remove_first : Sys → List Sys → Result (List Sys)
remove_first x [] = raised value_error
remove_first x (y ∷ ys) =
    let rest = remove_first x ys in if y == x then ok ys else (rest >>= λ l. ok (y ∷ l))

abbrev pub same_thread : Thread → Thread → Bool
same_thread [] [] = true
same_thread [] (y ∷ ys) = false
same_thread (x ∷ xs) [] = false
same_thread (x ∷ xs) (y ∷ ys) = (x == y) && same_thread xs ys

-- `self.thread_subs.index(thread)`, which compares lists by their items
unfoldable pub thread_index : Thread → List Thread → Result ℕ
thread_index t [] = raised value_error
thread_index t (u ∷ us) =
    let rest = thread_index t us in if same_thread u t then ok 0 else (rest >>= λ i. ok (suc i))

-- Python's `==` of an `int` and a `list`: they are never equal.
unfoldable pub is_thread : ℤ → Thread → Bool
is_thread dist thread = false

-- The loop of `add_syscall` that looks backwards, from the syscall before the new one, for the
-- last one of the thread.
unfoldable pub find_before : Dict Sys ℤ → Thread → List Sys → Result ℕ
unfolding is_thread
find_before dist thread [] = ok 0
find_before dist thread (s ∷ earlier) = do
  let rest = find_before dist thread earlier
  d ← or_raise key_error (lookup s dist)
  if is_thread d thread then (index s thread >>= λ i. ok (suc i)) else rest

unfoldable pub reverse : List Sys → List Sys
reverse [] = []
reverse (x ∷ xs) = reverse xs ++ x ∷ []

-- `self.thread_subs[tid]`; a negative index counts from the end.
unfoldable pub sub_at : ℤ → List Thread → Option Thread
sub_at (pos i) subs = get_elem? subs i
sub_at (negsuc n) subs = if ltb n (length subs) then get_elem? subs (length subs - suc n) else none

abbrev pub sub_set : ℤ → Thread → List Thread → List Thread
sub_set (pos i) thread subs = set subs i thread
sub_set (negsuc n) thread subs = set subs (length subs - suc n) thread

module _ {R : Type 0} (class : SyscallClass R) where
  open class use {engage, remove, mutate, puzzle, update}

  -- A method of a syscall, on the program's resources.
  abbrev pub with_resources : (Program R → Result R) → Program R → Result (Program R)
  with_resources f prog = do r ← f prog; ok (record prog { resources = r })

  -- `self.syscalls[i].update(self)` for each of these
  unfoldable pub update_each : List Sys → Program R → Result (Program R)
  update_each [] prog = ok prog
  update_each (s ∷ rest) prog = with_resources (update s) prog >>= update_each rest

  unfoldable pub update_from : ℕ → Program R → Result (Program R)
  unfolding update_each
  update_from start prog = update_each (drop start prog.syscalls) prog

  -- One round of `bootstrap`.
  unfoldable pub preload : Sys → Program R → Result (Program R)
  preload syscall prog = do
    engaged ← with_resources (engage syscall) (record prog {
      syscalls = prog.syscalls ++ syscall ∷ [];
      syscalls_start = prog.syscalls_start + 1;
    })
    ok (record engaged {
      thread_main = engaged.thread_main ++ syscall ∷ [];
      thread_dist = insert syscall (negsuc 0) engaged.thread_dist;
    })

  unfoldable pub bootstrap : List Sys → Program R → Result (Program R)
  unfolding preload
  bootstrap [] prog = ok prog
  bootstrap (s ∷ rest) prog = preload s prog >>= bootstrap rest

  -- The local sequence of a new syscall, the last step of `add_syscall` and of a round of `merge`.
  unfoldable pub add_to_thread : ℕ → Sys → ℕ → Program R → Result (Program R)
  unfolding find_before insert_at thread_index
  add_to_thread position syscall tid prog = do
    thread ← or_raise index_error (get_elem? prog.thread_subs tid)
    before ← find_before prog.thread_dist thread (reverse (take position prog.syscalls))
    let thread' = insert_at before syscall thread
    let subs' = set prog.thread_subs tid thread'
    i ← thread_index thread' subs'
    ok (record prog { thread_subs = subs'; thread_dist = insert syscall (pos i) prog.thread_dist })

  -- `position` is what `randint` draws, and `tid` the thread given or drawn.
  unfoldable pub add_syscall : ℕ → ℕ → Sys → Program R → Result (Program R)
  unfolding insert_at update_from add_to_thread
  add_syscall position tid syscall prog = do
    engaged ←
        with_resources (engage syscall)
          (record prog { syscalls = insert_at position syscall prog.syscalls })
    updated ← update_from position engaged
    add_to_thread position syscall tid updated

  -- `position` is the victim given or drawn; `mutates` says that `random() < 0.8`.
  unfoldable pub mod_syscall : ℕ → Bool → Program R → Result (Program R)
  unfolding update_from
  mod_syscall position mutates prog = do
    syscall ← or_raise index_error (get_elem? prog.syscalls position)
    modified ← with_resources (if mutates then mutate syscall else puzzle syscall) prog
    update_from position modified

  unfoldable pub del_from_thread : Sys → Program R → Result (Program R)
  unfolding sub_at remove_first
  del_from_thread syscall prog = do
    dist ← or_raise key_error (lookup syscall prog.thread_dist)
    thread ← or_raise index_error (sub_at dist prog.thread_subs)
    thread' ← remove_first syscall thread
    ok (record prog {
      thread_subs = sub_set dist thread' prog.thread_subs;
      thread_dist = erase syscall prog.thread_dist;
    })

  unfoldable pub del_syscall : ℕ → Program R → Result (Program R)
  unfolding update_from del_from_thread delete_at
  del_syscall position prog = do
    syscall ← or_raise index_error (get_elem? prog.syscalls position)
    removed ← with_resources (remove syscall) prog
    updated ←
        update_from position (record removed { syscalls = delete_at position removed.syscalls })
    del_from_thread syscall updated

  unfoldable pub num_syscall : Program R → ℕ
  num_syscall prog = length prog.syscalls - prog.syscalls_start

  -- The rounds of `mod_all_syscalls` from a position on, so many; `draws` says of each whether it
  -- mutates.
  unfoldable pub mod_each : ℕ → ℕ → (ℕ → Bool) → Program R → Result (Program R)
  unfolding mod_syscall
  mod_each position zero draws prog = ok prog
  mod_each position (suc n) draws prog =
      mod_syscall position (draws position) prog >>= mod_each (position + 1) n draws

  unfoldable pub mod_all_syscalls : (ℕ → Bool) → Program R → Result (Program R)
  unfolding mod_each num_syscall
  mod_all_syscalls draws prog = mod_each prog.syscalls_start (num_syscall prog) draws prog
