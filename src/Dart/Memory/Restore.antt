-- ===== src/Dart/Memory/Restore.antt =====
-- script/dart.py: what `log_mem_*_alloc`, `log_mem_*_free`, `log_mem_stack_push` and
-- `log_mem_stack_pop` do as a pair: the memory tables come back as they were.
use krace.Prelude.{
  ℕ, ◌≡◌, refl, ap, sym, ◌∙◌, Option, none, some, List, [], ◌∷◌, ◌++◌, String, get_elem?, ==_iff,
  ◌==◌, Bool-cases, inl, inr,
}
use mathlib.Core.List.{append-nil}
use mathlib.Core.Path.{subst}
use krace.Dict.{Dict, lookup, contains, insert, erase}
use krace.Dict.Key.{nat_eq}
use krace.Dict.Laws.{insert-append, erase-append, lookup-append, lookup_head, lookup-insert}
use krace.Dart.CtxtType.{LogMeta}
use krace.Dart.ExecUnit.{ExecUnit}
use krace.Dart.State.{Analyzer, TaskState, Note}
use krace.Dart.State.Monad.{done, pure, check, fetch, or_raise, get_task, ◌>>=◌, ◌>>◌}
use krace.Dart.State.Notes.{record_mem_add, record_mem_del}
use krace.Dart.State.Console.{with_console, note-done}
use krace.Dart.Memory.{
  Repo, stack_mem, mem_heaps, mem_pcpus, mem_sizes_heap, mem_sizes_pcpu, log_mem_add, log_mem_del,
  log_mem_add_size, log_mem_del_size, log_mem_stack_push, log_mem_stack_pop, log_mem_heap_alloc,
  log_mem_heap_free, log_mem_percpu_alloc, log_mem_percpu_free,
}
use krace.Dart.Memory.Repos.{
  Holds, set_repo, set_repo-console, get_repo-done, put_repo-done, Holds-set_repo, set_repo_twice,
  set_repo_same, byte_entries, AreFree,
}
use krace.Dart.Memory.Ranges.{add_bytes-done, del_bytes-done}

-- The task runs on a unit.
pub record HasUnit (ptid : ℕ) (s : Analyzer) : Type 0 where
  pub task : TaskState
  pub unit : ExecUnit
  pub task_known : lookup ptid s.tasks ≡ some task
  pub unit_known : get_elem? s.units task.unit ≡ some unit

HasUnit-set_repo :
    (repo : Repo) (d : Dict ℕ ℕ) (ptid : ℕ) (s : Analyzer)
    → HasUnit ptid s
    → HasUnit ptid (set_repo repo d s)
HasUnit-set_repo (stack_mem p) d ptid s h = go (lookup p s.tasks) refl
  where
    same_entry : (t : TaskState) → some t ≡ some h.task → h.task ≡ t
    same_entry t e = cc

    go : (o : Option TaskState) → lookup p s.tasks ≡ o → HasUnit ptid (set_repo (stack_mem p) d s)
    go none e = rw e h
    go (some t) e = rw e (elim (Bool-cases (p == ptid)) [
      | inl same ↦ record {
        task = record t { stack_mem = d };
        unit = h.unit;
        task_known = rw (lookup-insert, same);
        unit_known =
            subst (λ x. get_elem? s.units x.unit ≡ some h.unit)
              (same_entry t
                (sym e ∙ ap (λ k. lookup k s.tasks) ((==_iff p ptid).0 same) ∙ h.task_known))
              h.unit_known;
      }
      | inr apart ↦ record {
        task = h.task;
        unit = h.unit;
        task_known = rw (lookup-insert, apart) h.task_known;
        unit_known = h.unit_known;
      }
    ])
HasUnit-set_repo mem_heaps d ptid s h = record {
  task = h.task;
  unit = h.unit;
  task_known = h.task_known;
  unit_known = h.unit_known;
}
HasUnit-set_repo mem_pcpus d ptid s h = record {
  task = h.task;
  unit = h.unit;
  task_known = h.task_known;
  unit_known = h.unit_known;
}
HasUnit-set_repo mem_sizes_heap d ptid s h = record {
  task = h.task;
  unit = h.unit;
  task_known = h.task_known;
  unit_known = h.unit_known;
}
HasUnit-set_repo mem_sizes_pcpu d ptid s h = record {
  task = h.task;
  unit = h.unit;
  task_known = h.task_known;
  unit_known = h.unit_known;
}

-- The line about a range at the end of a handler
added :
    (meta : LogMeta) (addr size : ℕ) (kind : String) (s : Analyzer)
    → HasUnit meta.ptid s
    → (lines : List Note) × ((do t ← get_task meta.ptid; record_mem_add meta t addr size kind) s
        ≡ done tt (with_console s lines))
unfolding get_task fetch or_raise pure record_mem_add ◌>>=◌
added meta addr size kind s h =
    let (lines, e) =
      note-done "+++" meta h.task (addr ∷ size ∷ []) (kind ∷ "+" ∷ []) s h.unit h.unit_known in
    (lines, rw h.task_known e)

deleted :
    (meta : LogMeta) (addr size : ℕ) (kind : String) (s : Analyzer)
    → HasUnit meta.ptid s
    → (lines : List Note) × ((do t ← get_task meta.ptid; record_mem_del meta t addr size kind) s
        ≡ done tt (with_console s lines))
unfolding get_task fetch or_raise pure record_mem_del ◌>>=◌
deleted meta addr size kind s h =
    let (lines, e) =
      note-done "+++" meta h.task (addr ∷ size ∷ []) (kind ∷ "-" ∷ []) s h.unit h.unit_known in
    (lines, rw h.task_known e)

pub log_mem_add-done :
    (meta : LogMeta) (repo : Repo) (addr size : ℕ) (kind : String) (d : Dict ℕ ℕ) (s : Analyzer)
    → HasUnit meta.ptid s
    → Holds repo d s
    → AreFree addr size d
    → (lines : List Note) × (log_mem_add meta repo addr size kind s
        ≡ done tt (with_console (set_repo repo (d ++ byte_entries meta.hval addr size) s) lines))
unfolding log_mem_add
log_mem_add-done meta repo addr size kind d s u h free =
    let s' = set_repo repo (d ++ byte_entries meta.hval addr size) s in
    let (lines, e) = added meta addr size kind s' (HasUnit-set_repo repo _ meta.ptid s u) in
    (lines, unfold ◌>>=◌ in rw (add_bytes-done repo meta.hval addr size d s h free) e)

pub log_mem_del-done :
    (meta : LogMeta) (repo : Repo) (hval addr size : ℕ) (kind : String) (d : Dict ℕ ℕ)
    (s : Analyzer)
    → HasUnit meta.ptid s
    → Holds repo (d ++ byte_entries hval addr size) s
    → AreFree addr size d
    → (lines : List Note) × (log_mem_del meta repo addr size kind s
        ≡ done tt (with_console (set_repo repo d s) lines))
unfolding log_mem_del
log_mem_del-done meta repo hval addr size kind d s u h free =
    let (lines, e) =
      deleted meta addr size kind (set_repo repo d s) (HasUnit-set_repo repo d meta.ptid s u) in
    (lines, unfold ◌>>=◌ in rw (del_bytes-done repo hval addr size d s h free) e)

-- The task's unit is found in any state with the same tasks and units.
HasUnit-same :
    (ptid : ℕ) (s s' : Analyzer)
    → s'.tasks ≡ s.tasks
    → s'.units ≡ s.units
    → HasUnit ptid s
    → HasUnit ptid s'
HasUnit-same ptid s s' et eu h = record {
  task = h.task;
  unit = h.unit;
  task_known = rw et h.task_known;
  unit_known = rw eu h.unit_known;
}

-- A stack frame over free addresses that a task pushes and pops leaves the state as it was, but for
-- the console: neither handler raises.
pub stack_push_pop :
    (meta : LogMeta) (info' hval' addr size : ℕ) (t : TaskState) (u : ExecUnit) (s : Analyzer)
    → lookup meta.ptid s.tasks ≡ some t
    → get_elem? s.units t.unit ≡ some u
    → AreFree addr size t.stack_mem
    → (lines : List Note) × ((log_mem_stack_push meta addr size
            >> log_mem_stack_pop (record meta { info = info'; hval = hval' }) addr size)
          s
        ≡ done tt (with_console s lines))
unfolding log_mem_stack_push log_mem_stack_pop
stack_push_pop meta info' hval' addr size t u s et eu free =
    let d : Dict ℕ ℕ = t.stack_mem in
    let d' = d ++ byte_entries meta.hval addr size in
    let h : Holds (stack_mem meta.ptid) d s = (t, et, refl) in
    let known : HasUnit meta.ptid s = record {
      task = t;
      unit = u;
      task_known = et;
      unit_known = eu;
    } in
    let (first, e) = log_mem_add-done meta (stack_mem meta.ptid) addr size "S" d s known h free in
    let pushed = set_repo (stack_mem meta.ptid) d' s in
    let (lines, e') =
      log_mem_del-done (record meta { info = info'; hval = hval' }) (stack_mem meta.ptid) meta.hval
        addr size "S" d (with_console pushed first)
        (HasUnit-same meta.ptid pushed (with_console pushed first) refl refl
          (HasUnit-set_repo (stack_mem meta.ptid) d' meta.ptid s known))
        (Holds-set_repo (stack_mem meta.ptid) d d' s h) free in
    (
      lines,
      unfold ◌>>=◌ in
          rw e (
            e'
            ∙ ap (λ x. done tt (with_console x lines))
                (set_repo-console (stack_mem meta.ptid) d pushed first
                  ∙ ap (λ x. with_console x first)
                      (set_repo_twice (stack_mem meta.ptid) d d' d s h
                        ∙ set_repo_same (stack_mem meta.ptid) d s h))),
    )

module _ (repo : Repo) (d : Dict ℕ ℕ) (addr size : ℕ) (s : Analyzer)
    (new : lookup addr d ≡ none) where
  log_mem_add_size-done :
      Holds repo d s
      → log_mem_add_size repo addr size s ≡ done tt (set_repo repo (d ++ (addr, size) ∷ []) s)
  unfolding log_mem_add_size check pure contains ◌>>=◌
  log_mem_add_size-done h = rw (
    get_repo-done repo d s h,
    new,
    put_repo-done repo d (insert addr size d) s h,
    insert-append addr size d new,
  )

  log_mem_del_size-done :
      Holds repo (d ++ (addr, size) ∷ []) s
      → log_mem_del_size repo addr s ≡ done size (set_repo repo d s)
  unfolding log_mem_del_size check pure contains fetch or_raise ◌>>=◌
  log_mem_del_size-done h = rw (
    get_repo-done repo (d ++ (addr, size) ∷ []) s h,
    lookup-append addr d ((addr, size) ∷ []) new,
    lookup_head addr size [],
    put_repo-done repo (d ++ (addr, size) ∷ []) (erase addr (d ++ (addr, size) ∷ [])) s h,
    erase-append addr size d [] new,
    append-nil,
  )

-- Heap memory over free addresses that one task allocates and the same or another frees leaves the
-- state as it was, but for the console, where both tasks run on a unit: neither handler raises.
pub heap_alloc_free :
    (meta meta' : LogMeta) (addr size : ℕ) (s : Analyzer)
    → HasUnit meta.ptid s
    → HasUnit meta'.ptid s
    → AreFree addr size s.mem_heaps
    → lookup addr s.mem_sizes_heap ≡ none
    → (lines : List Note) × ((log_mem_heap_alloc meta addr size >> log_mem_heap_free meta' addr) s
        ≡ done tt (with_console s lines))
unfolding log_mem_heap_alloc log_mem_heap_free
heap_alloc_free meta meta' addr size s u u' free new =
    let heap = s.mem_heaps ++ byte_entries meta.hval addr size in
    let sizes = s.mem_sizes_heap ++ (addr, size) ∷ [] in
    let (first, e) = log_mem_add-done meta mem_heaps addr size "H" s.mem_heaps s u refl free in
    let s1 : Analyzer = record s { mem_heaps = heap; console = first } in
    let s2 : Analyzer = record s1 { mem_sizes_heap = sizes } in
    let e2 = log_mem_add_size-done mem_sizes_heap s.mem_sizes_heap addr size s1 new refl in
    let e3 = log_mem_del_size-done mem_sizes_heap s.mem_sizes_heap addr size s2 new refl in
    let (lines, e4) =
      log_mem_del-done meta' mem_heaps meta.hval addr size "H" s.mem_heaps s1
        (HasUnit-same meta'.ptid s s1 refl refl u') refl free in
    (lines, unfold ◌>>=◌ in rw (e, e2, e3) e4)

-- Per-CPU memory over free addresses that one task allocates and the same or another frees leaves
-- the state as it was, but for the console, where both tasks run on a unit: neither handler raises.
pub percpu_alloc_free :
    (meta meta' : LogMeta) (addr size : ℕ) (s : Analyzer)
    → HasUnit meta.ptid s
    → HasUnit meta'.ptid s
    → AreFree addr size s.mem_pcpus
    → lookup addr s.mem_sizes_pcpu ≡ none
    → (lines : List Note) × ((log_mem_percpu_alloc meta addr size >> log_mem_percpu_free meta' addr)
          s
        ≡ done tt (with_console s lines))
unfolding log_mem_percpu_alloc log_mem_percpu_free
percpu_alloc_free meta meta' addr size s u u' free new =
    let heap = s.mem_pcpus ++ byte_entries meta.hval addr size in
    let sizes = s.mem_sizes_pcpu ++ (addr, size) ∷ [] in
    let (first, e) = log_mem_add-done meta mem_pcpus addr size "P" s.mem_pcpus s u refl free in
    let s1 : Analyzer = record s { mem_pcpus = heap; console = first } in
    let s2 : Analyzer = record s1 { mem_sizes_pcpu = sizes } in
    let e2 = log_mem_add_size-done mem_sizes_pcpu s.mem_sizes_pcpu addr size s1 new refl in
    let e3 = log_mem_del_size-done mem_sizes_pcpu s.mem_sizes_pcpu addr size s2 new refl in
    let (lines, e4) =
      log_mem_del-done meta' mem_pcpus meta.hval addr size "P" s.mem_pcpus s1
        (HasUnit-same meta'.ptid s s1 refl refl u') refl free in
    (lines, unfold ◌>>=◌ in rw (e, e2, e3) e4)
