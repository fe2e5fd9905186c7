-- ===== src/Dart/Held/Memory.antt =====
-- script/dart.py: the handlers of memory keep the lock tables.
use krace.Prelude.{ℕ, zero, suc, ◌+◌, String}
use krace.Dict.{Dict}
use krace.Dart.CtxtType.{LogMeta}
use krace.Dart.Held.Rules.{Keeps, Keeps-bind, keeps_rules}
use krace.Dart.Memory.{Repo, stack_mem, mem_heaps, mem_pcpus, mem_sizes_heap, mem_sizes_pcpu}
use krace.Dart.Memory.{
  get_repo, put_repo, add_bytes, del_bytes, log_mem_add, log_mem_del, log_mem_add_size,
  log_mem_del_size, log_mem_stack_push, log_mem_stack_pop, log_mem_heap_alloc, log_mem_heap_free,
  log_mem_percpu_alloc, log_mem_percpu_free,
}
use krace.Dart.Held.Notes.{notes_rules}

pub get_repo-Keeps : (x : Repo) → Keeps (get_repo x)
unfolding get_repo
get_repo-Keeps (stack_mem ptid) = search keeps_rules depth 12
get_repo-Keeps mem_heaps = search keeps_rules depth 12
get_repo-Keeps mem_pcpus = search keeps_rules depth 12
get_repo-Keeps mem_sizes_heap = search keeps_rules depth 12
get_repo-Keeps mem_sizes_pcpu = search keeps_rules depth 12

pub put_repo-Keeps : (x : Repo) (d : Dict ℕ ℕ) → Keeps (put_repo x d)
unfolding put_repo
put_repo-Keeps (stack_mem ptid) d = search keeps_rules depth 12
put_repo-Keeps mem_heaps d = search keeps_rules depth 12
put_repo-Keeps mem_pcpus d = search keeps_rules depth 12
put_repo-Keeps mem_sizes_heap d = search keeps_rules depth 12
put_repo-Keeps mem_sizes_pcpu d = search keeps_rules depth 12

pub add_bytes-Keeps : (repo : Repo) (hval : ℕ) (pos : ℕ) (x : ℕ) → Keeps (add_bytes repo hval pos x)
unfolding add_bytes
add_bytes-Keeps repo hval pos zero = search keeps_rules
add_bytes-Keeps repo hval pos (suc n) = Keeps-bind _ _ (get_repo-Keeps repo) (λ d.
    Keeps-bind _ _ (search keeps_rules)
      (λ _. Keeps-bind _ _ (put_repo-Keeps repo _) (λ _. add_bytes-Keeps repo hval (pos + 1) n)))

pub del_bytes-Keeps : (repo : Repo) (pos : ℕ) (x : ℕ) → Keeps (del_bytes repo pos x)
unfolding del_bytes
del_bytes-Keeps repo pos zero = search keeps_rules
del_bytes-Keeps repo pos (suc n) = Keeps-bind _ _ (get_repo-Keeps repo) (λ d.
    Keeps-bind _ _ (search keeps_rules)
      (λ _. Keeps-bind _ _ (put_repo-Keeps repo _) (λ _. del_bytes-Keeps repo (pos + 1) n)))

pub log_mem_add-Keeps :
    (meta : LogMeta) (repo : Repo) (addr : ℕ) (size : ℕ) (kind : String)
    → Keeps (log_mem_add meta repo addr size kind)
unfolding log_mem_add
log_mem_add-Keeps meta repo addr size kind =
    search (keeps_rules, notes_rules, add_bytes-Keeps) depth 12

pub log_mem_del-Keeps :
    (meta : LogMeta) (repo : Repo) (addr : ℕ) (size : ℕ) (kind : String)
    → Keeps (log_mem_del meta repo addr size kind)
unfolding log_mem_del
log_mem_del-Keeps meta repo addr size kind =
    search (keeps_rules, notes_rules, del_bytes-Keeps) depth 12

pub log_mem_add_size-Keeps :
    (repo : Repo) (addr : ℕ) (size : ℕ) → Keeps (log_mem_add_size repo addr size)
unfolding log_mem_add_size
log_mem_add_size-Keeps repo addr size =
    search (keeps_rules, get_repo-Keeps, put_repo-Keeps) depth 12

pub log_mem_del_size-Keeps : (repo : Repo) (addr : ℕ) → Keeps (log_mem_del_size repo addr)
unfolding log_mem_del_size
log_mem_del_size-Keeps repo addr = search (keeps_rules, get_repo-Keeps, put_repo-Keeps) depth 12

pub log_mem_stack_push-Keeps :
    (meta : LogMeta) (addr : ℕ) (size : ℕ) → Keeps (log_mem_stack_push meta addr size)
unfolding log_mem_stack_push
log_mem_stack_push-Keeps meta addr size = search (keeps_rules, log_mem_add-Keeps) depth 12

pub log_mem_stack_pop-Keeps :
    (meta : LogMeta) (addr : ℕ) (size : ℕ) → Keeps (log_mem_stack_pop meta addr size)
unfolding log_mem_stack_pop
log_mem_stack_pop-Keeps meta addr size = search (keeps_rules, log_mem_del-Keeps) depth 12

pub log_mem_heap_alloc-Keeps :
    (meta : LogMeta) (addr : ℕ) (size : ℕ) → Keeps (log_mem_heap_alloc meta addr size)
unfolding log_mem_heap_alloc
log_mem_heap_alloc-Keeps meta addr size =
    search (keeps_rules, log_mem_add-Keeps, log_mem_add_size-Keeps) depth 12

pub log_mem_heap_free-Keeps : (meta : LogMeta) (addr : ℕ) → Keeps (log_mem_heap_free meta addr)
unfolding log_mem_heap_free
log_mem_heap_free-Keeps meta addr =
    search (keeps_rules, log_mem_del-Keeps, log_mem_del_size-Keeps) depth 12

pub log_mem_percpu_alloc-Keeps :
    (meta : LogMeta) (addr : ℕ) (size : ℕ) → Keeps (log_mem_percpu_alloc meta addr size)
unfolding log_mem_percpu_alloc
log_mem_percpu_alloc-Keeps meta addr size =
    search (keeps_rules, log_mem_add-Keeps, log_mem_add_size-Keeps) depth 12

pub log_mem_percpu_free-Keeps : (meta : LogMeta) (addr : ℕ) → Keeps (log_mem_percpu_free meta addr)
unfolding log_mem_percpu_free
log_mem_percpu_free-Keeps meta addr =
    search (keeps_rules, log_mem_del-Keeps, log_mem_del_size-Keeps) depth 12

pub ruleset memory_rules = (
  get_repo-Keeps, put_repo-Keeps, add_bytes-Keeps, del_bytes-Keeps, log_mem_add-Keeps,
  log_mem_del-Keeps, log_mem_add_size-Keeps, log_mem_del_size-Keeps, log_mem_stack_push-Keeps,
  log_mem_stack_pop-Keeps, log_mem_heap_alloc-Keeps, log_mem_heap_free-Keeps,
  log_mem_percpu_alloc-Keeps, log_mem_percpu_free-Keeps,
)
