-- ===== src/Dart/Memory/Repos.antt =====
-- script/dart.py: `_log_mem_add` and `_log_mem_del` over whichever dictionary they are given: the
-- bytes of a range are added at the end, and deleting them restores the dictionary.
use krace.Prelude.{ℕ, zero, suc, ◌+◌, ◌≡◌, refl, ap, sym, ◌∙◌, Option, none, some, List, [], ◌∷◌}
use krace.Dict.{Dict, lookup, insert}
use krace.Dict.Key.{nat_eq}
use krace.Dict.Laws.{lookup-insert_self, insert-insert, insert_same}
use krace.Dart.State.{Analyzer, TaskState, Note}
use krace.Dart.State.Console.{with_console}
use krace.Dart.State.Monad.{⊤, done, pure, gets, modify, fetch, or_raise, get_task, put_task, ◌>>=◌}
use krace.Dart.Memory.{
  Repo, stack_mem, mem_heaps, mem_pcpus, mem_sizes_heap, mem_sizes_pcpu, get_repo, put_repo,
}

-- The dictionary is `d`.
abbrev pub Holds : Repo → Dict ℕ ℕ → Analyzer → Type 0
Holds (stack_mem ptid) d s = (t : TaskState) × (lookup ptid s.tasks ≡ some t) × (t.stack_mem ≡ d)
Holds mem_heaps d s = s.mem_heaps ≡ d
Holds mem_pcpus d s = s.mem_pcpus ≡ d
Holds mem_sizes_heap d s = s.mem_sizes_heap ≡ d
Holds mem_sizes_pcpu d s = s.mem_sizes_pcpu ≡ d

abbrev set_frame : ℕ → Dict ℕ ℕ → Analyzer → Option TaskState → Analyzer
set_frame ptid d s none = s
set_frame ptid d s (some t) = record s { tasks = insert ptid (record t { stack_mem = d }) s.tasks }

-- The state with `d` for the dictionary
abbrev pub set_repo : Repo → Dict ℕ ℕ → Analyzer → Analyzer
set_repo (stack_mem ptid) d s = set_frame ptid d s (lookup ptid s.tasks)
set_repo mem_heaps d s = record s { mem_heaps = d }
set_repo mem_pcpus d s = record s { mem_pcpus = d }
set_repo mem_sizes_heap d s = record s { mem_sizes_heap = d }
set_repo mem_sizes_pcpu d s = record s { mem_sizes_pcpu = d }

pub get_repo-done :
    (repo : Repo) (d : Dict ℕ ℕ) (s : Analyzer) → Holds repo d s → get_repo repo s ≡ done d s
unfolding get_repo get_task fetch or_raise gets pure ◌>>=◌
get_repo-done (stack_mem ptid) d s (t, e, f) = rw e (ap (λ x. done x s) f)
get_repo-done mem_heaps d s h = ap (λ x. done x s) h
get_repo-done mem_pcpus d s h = ap (λ x. done x s) h
get_repo-done mem_sizes_heap d s h = ap (λ x. done x s) h
get_repo-done mem_sizes_pcpu d s h = ap (λ x. done x s) h

pub put_repo-done :
    (repo : Repo) (d e : Dict ℕ ℕ) (s : Analyzer)
    → Holds repo d s
    → put_repo repo e s ≡ done tt (set_repo repo e s)
unfolding put_repo get_task put_task fetch or_raise modify pure ◌>>=◌
put_repo-done (stack_mem ptid) d e s (t, et, f) = rw et
put_repo-done mem_heaps d e s h = refl
put_repo-done mem_pcpus d e s h = refl
put_repo-done mem_sizes_heap d e s h = refl
put_repo-done mem_sizes_pcpu d e s h = refl

pub Holds-set_repo :
    (repo : Repo) (d e : Dict ℕ ℕ) (s : Analyzer)
    → Holds repo d s
    → Holds repo e (set_repo repo e s)
Holds-set_repo (stack_mem ptid) d e s (t, et, f) =
    rw et (record t { stack_mem = e }, lookup-insert_self ptid _ s.tasks, refl)
Holds-set_repo mem_heaps d e s h = refl
Holds-set_repo mem_pcpus d e s h = refl
Holds-set_repo mem_sizes_heap d e s h = refl
Holds-set_repo mem_sizes_pcpu d e s h = refl

pub set_repo_twice :
    (repo : Repo) (d e f : Dict ℕ ℕ) (s : Analyzer)
    → Holds repo d s
    → set_repo repo f (set_repo repo e s) ≡ set_repo repo f s
set_repo_twice (stack_mem ptid) d e f s (t, et, h) =
    rw (et, lookup-insert_self ptid (record t { stack_mem = e }) s.tasks, insert-insert)
set_repo_twice mem_heaps d e f s h = refl
set_repo_twice mem_pcpus d e f s h = refl
set_repo_twice mem_sizes_heap d e f s h = refl
set_repo_twice mem_sizes_pcpu d e f s h = refl

pub set_repo_same :
    (repo : Repo) (d : Dict ℕ ℕ) (s : Analyzer) → Holds repo d s → set_repo repo d s ≡ s
set_repo_same (stack_mem ptid) d s (t, et, f) = rw et (
    ap (λ x. record s { tasks = x })
      (ap (λ x. insert ptid (record t { stack_mem = x }) s.tasks) (sym f)
        ∙ insert_same ptid t s.tasks et))
set_repo_same mem_heaps d s h = ap (λ x. record s { mem_heaps = x }) (sym h)
set_repo_same mem_pcpus d s h = ap (λ x. record s { mem_pcpus = x }) (sym h)
set_repo_same mem_sizes_heap d s h = ap (λ x. record s { mem_sizes_heap = x }) (sym h)
set_repo_same mem_sizes_pcpu d s h = ap (λ x. record s { mem_sizes_pcpu = x }) (sym h)

set_frame-console :
    (ptid : ℕ) (d : Dict ℕ ℕ) (s : Analyzer) (c : List Note) (o : Option TaskState)
    → set_frame ptid d (with_console s c) o ≡ with_console (set_frame ptid d s o) c
set_frame-console ptid d s c none = refl
set_frame-console ptid d s c (some t) = refl

pub set_repo-console :
    (repo : Repo) (d : Dict ℕ ℕ) (s : Analyzer) (c : List Note)
    → set_repo repo d (with_console s c) ≡ with_console (set_repo repo d s) c
set_repo-console (stack_mem ptid) d s c = set_frame-console ptid d s c (lookup ptid s.tasks)
set_repo-console mem_heaps d s c = refl
set_repo-console mem_pcpus d s c = refl
set_repo-console mem_sizes_heap d s c = refl
set_repo-console mem_sizes_pcpu d s c = refl

-- The entries of the bytes from `pos` on
abbrev pub byte_entries : ℕ → ℕ → ℕ → Dict ℕ ℕ
byte_entries hval pos zero = []
byte_entries hval pos (suc n) = (pos, hval) ∷ byte_entries hval (pos + 1) n

-- None of the bytes from `pos` on is in the dictionary.
abbrev pub AreFree : ℕ → ℕ → Dict ℕ ℕ → Type 0
AreFree pos zero d = ⊤
AreFree pos (suc n) d = (lookup pos d ≡ none) × AreFree (pos + 1) n d
