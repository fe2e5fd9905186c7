-- ===== src/Spec/Program/Partition.antt =====
-- The sequence of a program is partitioned into its threads, and what the steps of an edit do where
-- it is.
use native.Mathlib.Decide.{dec_lt}
use krace.Prelude.{
  ℕ, zero, suc, ◌+◌, ◌≤◌, ◌<◌, ◌≡◌, refl, ap, ◌∙◌, inl, inr, true, Bool-cases, some, List, [], ◌∷◌,
  arith, ◌==◌, ==_refl, length, get_elem?, set,
}
use krace.Prelude.Int.{ℤ, pos, negsuc}
use krace.Dict.{Dict, lookup}
use krace.Dict.Key.{nat_eq}
use krace.Spec.Result.{ok, key_error, >>=-ok, or_raise}
use krace.Spec.Program.{
  Sys, Thread, Program, take, remove_first, same_thread, thread_index, find_before, is_thread,
}
use krace.Spec.Program.Items.{count, count_all, find_thread}

-- Each syscall stands once in the sequence, and in exactly one thread; the bootstrap syscalls are
-- the first ones and the main thread; and the table has the thread of each syscall.
pub record IsPartition {R : Type 0} (prog : Program R) : Type 0 where
  pub whole :
      (s : Sys) → count s prog.syscalls ≡ count s prog.thread_main + count_all s prog.thread_subs
  pub once : (s : Sys) → count s prog.syscalls ≤ 1
  pub precalls : take prog.syscalls_start prog.syscalls ≡ prog.thread_main
  pub starts : prog.syscalls_start ≤ length prog.syscalls
  pub main_dist :
      (s : Sys) → 0 < count s prog.thread_main → lookup s prog.thread_dist ≡ some (negsuc 0)
  pub sub_dist :
      (i : ℕ) (thread : Thread) (s : Sys)
      → get_elem? prog.thread_subs i ≡ some thread
      → 0 < count s thread
      → lookup s prog.thread_dist ≡ some (pos i)
  pub threads : length prog.thread_subs ≡ prog.ncpu

module _ {R : Type 0} (prog : Program R) (p : IsPartition prog) where
  -- Every syscall of the sequence has its entry in the table.
  pub has_dist :
      (s : Sys) → 0 < count s prog.syscalls → (d : ℤ) × (lookup s prog.thread_dist ≡ some d)
  has_dist s h = elim (dec_lt 0 (count s prog.thread_main)) [
    | yes main ↦ (negsuc 0, p.main_dist s main)
    | no sub ↦
        let (i, thread, found, stands) =
          find_thread s prog.thread_subs (omega (arith, p.whole s)) in
        (pos i, p.sub_dist i thread s found stands)
  ]

-- The search backwards finds no syscall of the thread, whatever there is.
pub find_before_lem :
    (dist : Dict Sys ℤ) (thread : Thread) (earlier : List Sys)
    → ((s : Sys) → 0 < count s earlier → (d : ℤ) × (lookup s dist ≡ some d))
    → find_before dist thread earlier ≡ ok 0
unfolding find_before or_raise is_thread
find_before_lem dist thread [] has = refl
find_before_lem dist thread (s ∷ earlier) has =
    let (d, found) = has s (ground (arith, ==_refl s)) in
    let rest = find_before_lem dist thread earlier (λ t h. has t (omega arith)) in
    >>=-ok (or_raise key_error (lookup s dist)) _ (or_raise-some found) ∙ rest
  where
    or_raise-some : {d : ℤ} → lookup s dist ≡ some d → or_raise key_error (lookup s dist) ≡ ok d
    or_raise-some e = ap (or_raise key_error) e

same_thread→eq : (t u : Thread) → same_thread t u ≡ true → t ≡ u
same_thread→eq [] [] h = refl
same_thread→eq [] (y ∷ ys) h = cc
same_thread→eq (x ∷ xs) [] h = cc
same_thread→eq (x ∷ xs) (y ∷ ys) h = ground (arith, same_thread→eq xs ys)

same_thread_refl : (t : Thread) → same_thread t t ≡ true
same_thread_refl [] = refl
same_thread_refl (x ∷ xs) = ground (arith, ==_refl x, same_thread_refl xs)

-- A thread that holds a new syscall is found where it was put.
pub thread_index-set :
    (subs : List Thread) (i : ℕ) (x : Sys) (old thread : Thread)
    → count_all x subs ≡ 0
    → 0 < count x thread
    → get_elem? subs i ≡ some old
    → thread_index thread (set subs i thread) ≡ ok i
unfolding thread_index
thread_index-set [] i x old thread fresh new h = cc
thread_index-set (u ∷ us) zero x old thread fresh new h = rw (same_thread_refl thread) refl
thread_index-set (u ∷ us) (suc i) x old thread fresh new h =
    elim (Bool-cases (same_thread u thread)) [
      | inl same ↦ absurd (omega (arith, ap (count x) (same_thread→eq u thread same)))
      | inr other ↦
          rw other
            (>>=-ok _ (λ k. ok (suc k)) (thread_index-set us i x old thread (omega arith) new h))
    ]

-- An item that stands in a thread can be removed from it.
pub remove_first_lem :
    (x : Sys) (thread : Thread)
    → 0 < count x thread
    → (left : Thread) × (remove_first x thread ≡ ok left)
      × ((s : Sys) → count s (x ∷ left) ≡ count s thread)
unfolding remove_first
remove_first_lem x [] h = absurd (omega arith)
remove_first_lem x (y ∷ thread) h = elim (Bool-cases (y == x)) [
  | inl same ↦ (thread, rw same refl, λ s. ground arith)
  | inr apart ↦
      let (left, removed, counts) = remove_first_lem x thread (ground arith) in
      (
        y ∷ left,
        rw apart (>>=-ok (remove_first x thread) (λ l. ok (y ∷ l)) removed),
        λ s. omega (arith, counts s),
      )
]
