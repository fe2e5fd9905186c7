-- ===== src/Dart/Memory.antt =====
-- script/dart.py: the live memory of stacks, of the heap and of the per-CPU areas, byte by byte.
pub mod Repos
pub mod Ranges
pub mod Restore
use krace.Prelude.{ℕ, zero, suc, ◌+◌, Option, none, some, String, not}
use krace.Dict.{Dict, contains, insert, erase}
use krace.Dict.Key.{nat_eq}
use krace.Dart.CtxtType.{LogMeta}
use krace.Dart.State.{Analyzer, TaskState}
use krace.Dart.State.Monad.{M, ⊤, pure, gets, modify, check, fetch, get_task, put_task, ◌>>=◌, ◌>>◌}
use krace.Dart.State.Notes.{record_mem_add, record_mem_del}

-- Which dictionary a handler passes as `repo`.
pub data Repo : Type 0 where
  stack_mem : ℕ → Repo
  mem_heaps mem_pcpus mem_sizes_heap mem_sizes_pcpu : Repo

unfoldable pub get_repo : Repo → M (Dict ℕ ℕ)
get_repo (stack_mem ptid) = do t ← get_task ptid; pure t.stack_mem
get_repo mem_heaps = gets (λ s. s.mem_heaps)
get_repo mem_pcpus = gets (λ s. s.mem_pcpus)
get_repo mem_sizes_heap = gets (λ s. s.mem_sizes_heap)
get_repo mem_sizes_pcpu = gets (λ s. s.mem_sizes_pcpu)

unfoldable pub put_repo : Repo → Dict ℕ ℕ → M ⊤
put_repo (stack_mem ptid) d = do t ← get_task ptid; put_task ptid (record t { stack_mem = d })
put_repo mem_heaps d = modify (λ s. record s { mem_heaps = d })
put_repo mem_pcpus d = modify (λ s. record s { mem_pcpus = d })
put_repo mem_sizes_heap d = modify (λ s. record s { mem_sizes_heap = d })
put_repo mem_sizes_pcpu d = modify (λ s. record s { mem_sizes_pcpu = d })

-- `for i in range(size)`, with the number of rounds left and the next address
unfoldable pub add_bytes : Repo → ℕ → ℕ → ℕ → M ⊤
add_bytes repo hval pos zero = pure tt
add_bytes repo hval pos (suc n) = do
  d ← get_repo repo
  check (not (contains pos d)) "memory management corrupted - add without del"
  put_repo repo (insert pos hval d)
  add_bytes repo hval (pos + 1) n

unfoldable pub del_bytes : Repo → ℕ → ℕ → M ⊤
del_bytes repo pos zero = pure tt
del_bytes repo pos (suc n) = do
  d ← get_repo repo
  check (contains pos d) "memory management corrupted - del without add"
  put_repo repo (erase pos d)
  del_bytes repo (pos + 1) n

-- `_log_mem_add`
unfoldable pub log_mem_add : LogMeta → Repo → ℕ → ℕ → String → M ⊤
log_mem_add meta repo addr size kind = do
  add_bytes repo meta.hval addr size
  t ← get_task meta.ptid
  record_mem_add meta t addr size kind

-- `_log_mem_del`
unfoldable pub log_mem_del : LogMeta → Repo → ℕ → ℕ → String → M ⊤
log_mem_del meta repo addr size kind = do
  del_bytes repo addr size
  t ← get_task meta.ptid
  record_mem_del meta t addr size kind

-- `_log_mem_add_size`
unfoldable pub log_mem_add_size : Repo → ℕ → ℕ → M ⊤
log_mem_add_size repo addr size = do
  d ← get_repo repo
  check (not (contains addr d)) "memory management corrupted - size add without del"
  put_repo repo (insert addr size d)

-- `_log_mem_del_size`
unfoldable pub log_mem_del_size : Repo → ℕ → M ℕ
log_mem_del_size repo addr = do
  d ← get_repo repo
  check (contains addr d) "memory management corrupted - size del without add"
  size ← fetch addr d
  put_repo repo (erase addr d)
  pure size

unfoldable pub log_mem_stack_push : LogMeta → ℕ → ℕ → M ⊤
log_mem_stack_push meta addr size = log_mem_add meta (stack_mem meta.ptid) addr size "S"

unfoldable pub log_mem_stack_pop : LogMeta → ℕ → ℕ → M ⊤
log_mem_stack_pop meta addr size = log_mem_del meta (stack_mem meta.ptid) addr size "S"

unfoldable pub log_mem_heap_alloc : LogMeta → ℕ → ℕ → M ⊤
log_mem_heap_alloc meta addr size = do
  log_mem_add meta mem_heaps addr size "H"
  log_mem_add_size mem_sizes_heap addr size

unfoldable pub log_mem_heap_free : LogMeta → ℕ → M ⊤
log_mem_heap_free meta addr = do
  size ← log_mem_del_size mem_sizes_heap addr
  log_mem_del meta mem_heaps addr size "H"

unfoldable pub log_mem_percpu_alloc : LogMeta → ℕ → ℕ → M ⊤
log_mem_percpu_alloc meta addr size = do
  log_mem_add meta mem_pcpus addr size "P"
  log_mem_add_size mem_sizes_pcpu addr size

unfoldable pub log_mem_percpu_free : LogMeta → ℕ → M ⊤
log_mem_percpu_free meta addr = do
  size ← log_mem_del_size mem_sizes_pcpu addr
  log_mem_del meta mem_pcpus addr size "P"
