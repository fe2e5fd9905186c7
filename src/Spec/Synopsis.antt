-- ===== src/Spec/Synopsis.antt =====
-- script/spec_basis.py: `Synopsis`, the names of the syscalls of each thread, and
-- `Program.gen_synopsis`. A name is a list of code points.
pub mod Order
pub mod Sorted
pub mod Match
pub mod Tests
use krace.Prelude.{ℕ, Bool, true, false, not, ◌==◌, ltb, List, [], ◌∷◌, if◌then◌else◌, length, map}
use krace.Prelude.Int.{ℤ, pos, negsuc, sub_ℕ, ltb_ℤ}
use krace.Spec.Program.{Sys, Program}

abbrev pub Name : Type 0
Name = List ℕ

abbrev pub Names : Type 0
Names = List Name

pub record Synopsis : Type 0 where
  pub sketch : List Names

-- `==` of two strings.
unfoldable pub same_name : Name → Name → Bool
same_name [] [] = true
same_name [] (d ∷ ds) = false
same_name (c ∷ cs) [] = false
same_name (c ∷ cs) (d ∷ ds) = let rest = same_name cs ds in if c == d then rest else false

-- `<` of two strings.
unfoldable pub lt_name : Name → Name → Bool
lt_name [] [] = false
lt_name [] (d ∷ ds) = true
lt_name (c ∷ cs) [] = false
lt_name (c ∷ cs) (d ∷ ds) = let rest = lt_name cs ds in if c == d then rest else ltb c d

-- The loop of `_cmp_thread`.
unfoldable pub cmp_items : Names → Names → ℤ
unfolding same_name lt_name
cmp_items (i1 ∷ t1) (i2 ∷ t2) =
    let rest = cmp_items t1 t2 in
    if not (same_name i1 i2) then (if lt_name i2 i1 then pos 1 else negsuc 0) else rest
cmp_items [] t2 = pos 0
cmp_items (i1 ∷ t1) [] = pos 0

unfoldable pub cmp_thread : Names → Names → ℤ
unfolding cmp_items
cmp_thread t1 t2 =
    if not (length t1 == length t2) then sub_ℕ (length t1) (length t2) else cmp_items t1 t2

-- `sorted` with `cmp_to_key(Synopsis._cmp_thread)`, which asks whether the result is below 0, and
-- keeps the order of what compares the same.
unfoldable pub insert_thread : Names → List Names → List Names
unfolding cmp_thread
insert_thread t [] = t ∷ []
insert_thread t (u ∷ us) =
    let rest = insert_thread t us in if ltb_ℤ (cmp_thread u t) (pos 0) then u ∷ rest else t ∷ u ∷ us

unfoldable pub sort_threads : List Names → List Names
unfolding insert_thread
sort_threads [] = []
sort_threads (t ∷ ts) = insert_thread t (sort_threads ts)

unfoldable pub order : Synopsis → List Names
unfolding sort_threads
order self = sort_threads self.sketch

-- `for i1, i2 in zip(t1, t2)`
unfoldable pub match_items : Names → Names → Bool
unfolding same_name
match_items (i1 ∷ t1) (i2 ∷ t2) =
    let rest = match_items t1 t2 in if not (same_name i1 i2) then false else rest
match_items [] t2 = true
match_items (i1 ∷ t1) [] = true

-- `for t1, t2 in zip(sk1, sk2)`
unfoldable pub match_threads : List Names → List Names → Bool
unfolding match_items
match_threads (t1 ∷ sk1) (t2 ∷ sk2) =
    let rest = match_threads sk1 sk2 in
    if not (length t1 == length t2) then false else (if match_items t1 t2 then rest else false)
match_threads [] sk2 = true
match_threads (t1 ∷ sk1) [] = true

unfoldable pub match_synopsis : Synopsis → Synopsis → Bool
unfolding order match_threads
match_synopsis self other =
    if not (length self.sketch == length other.sketch)
    then false
    else match_threads (order self) (order other)

module _ {R : Type 0} where
  unfoldable pub gen_synopsis : (Sys → Name) → Program R → Synopsis
  gen_synopsis name self = record { sketch = map (map name) self.thread_subs }
