-- ===== src/Spec/Bytecode.antt =====
-- `Program._pack_thread` and `Program.gen_bytecode` of script/spec_basis.py: the image of a program
-- that the executor loads.
pub mod Reader
pub mod Words
pub mod Sorted
pub mod Meta
pub mod Thread
pub mod Threads
pub mod Image
pub mod Loaded
pub mod Tests
use krace.Prelude.{
  ℕ, ◌+◌, ◌*◌, Bool, true, false, Option, none, some, List, [], ◌∷◌, ◌++◌, map, leb, ◌==◌,
  if◌then◌else◌, length,
}
use krace.Dict.{Dict, lookup, insert, keys}
use krace.Dict.Key.{nat_eq}
use krace.Spec.Result.{Result, ok, raised, key_error, ◌>>=◌, ◌>>◌, check, or_raise, map_all}
use krace.Spec.Pack.{pack_ptr, spec_ptr_size}
use krace.Spec.Executable.{Lego, Hole, Executable, init, get_hole, check_inst}
use krace.Spec.Blob.{LegoClass, Syscall, blob_all}

abbrev pub Bytes : Type 0
Bytes = List ℕ

-- `code += pack_ptr(hole.addr); code += pack_ptr(hole.size)`
unfoldable pub pack_hole : Hole → Result Bytes
pack_hole hole = do a ← pack_ptr hole.addr; s ← pack_ptr hole.size; ok (a ++ s)

-- One piece after the other.
unfoldable pub pack_each {ℓ} : {A : Type ℓ} → (A → Result Bytes) → List A → Result Bytes
pack_each f [] = ok []
pack_each f (x ∷ xs) = do bytes ← f x; rest ← pack_each f xs; ok (bytes ++ rest)

-- A count, and the pieces.
unfoldable pub pack_list {ℓ} : {A : Type ℓ} → (A → Result Bytes) → List A → Result Bytes
unfolding pack_each
pack_list f xs = do count ← pack_ptr (length xs); items ← pack_each f xs; ok (count ++ items)

abbrev pub or_empty : Option (List (Lego × Lego)) → List (Lego × Lego)
or_empty none = []
or_empty (some items) = items

module _ (inst : Executable) where
  unfoldable pub pack_lego : Lego → Result Bytes
  unfolding pack_hole
  pack_lego lego = get_hole lego inst >>= pack_hole

  unfoldable pub pack_prep : Lego × Lego → Result Bytes
  unfolding pack_lego
  pack_prep (src, dst) = do s ← pack_lego src; d ← pack_lego dst; ok (s ++ d)

  -- `ident` is the syscall object, by which `prep` knows it.
  unfoldable pub pack_call : ℕ × Syscall → Result Bytes
  unfolding pack_prep pack_list pack_lego
  pack_call (ident, syscall) = do
    preps ← pack_list pack_prep (or_empty (lookup ident inst.prep))
    snum ← pack_ptr syscall.snum
    retv ← pack_lego syscall.retv
    args ← pack_list pack_lego syscall.args
    ok (preps ++ (snum ++ (retv ++ args)))

  -- `_pack_thread`
  unfoldable pub pack_thread : List (ℕ × Syscall) → Result Bytes
  unfolding pack_call
  pack_thread syscalls = pack_list pack_call syscalls

-- `sorted` of numbers
unfoldable pub insert_sorted : ℕ → List ℕ → List ℕ
insert_sorted x [] = x ∷ []
insert_sorted x (y ∷ ys) = let rest = insert_sorted x ys in if leb x y then x ∷ y ∷ ys else y ∷ rest

unfoldable pub sorted : List ℕ → List ℕ
unfolding insert_sorted
sorted [] = []
sorted (x ∷ xs) = insert_sorted x (sorted xs)

-- The addresses of the pointers' holes, least first.
unfoldable pub ptr_addrs : Executable → Result (List ℕ)
unfolding sorted
ptr_addrs inst = do
  holes ← map_all (λ ptr. get_hole ptr inst) inst.ptrs
  ok (sorted (map (λ (h : Hole). h.addr) holes))

abbrev pub same_size : Option ℕ → ℕ → Bool
same_size none size = true
same_size (some n) size = n == size

-- `all_fd`
unfoldable pub add_all_fd : List Hole → Dict ℕ ℕ → Result (Dict ℕ ℕ)
add_all_fd [] all_fd = ok all_fd
add_all_fd (fd ∷ fds) all_fd = do
  check (same_size (lookup fd.addr all_fd) fd.size)
  add_all_fd fds (insert fd.addr fd.size all_fd)

unfoldable pub fd_spans : Executable → Result (List (ℕ × ℕ))
unfolding add_all_fd sorted
fd_spans inst = do
  holes ← map_all (λ fd. get_hole fd inst) inst.fds
  all_fd ← add_all_fd holes []
  map_all (λ addr. or_raise key_error (lookup addr all_fd) >>= λ size. ok (addr, size))
      (sorted (keys all_fd))

unfoldable pub pack_span : ℕ × ℕ → Result Bytes
pack_span (addr, size) = do a ← pack_ptr addr; s ← pack_ptr size; ok (a ++ s)

unfoldable pub region_meta : Executable → Result Bytes
unfolding ptr_addrs fd_spans pack_list pack_span
region_meta inst = do
  addrs ← ptr_addrs inst
  ptrs ← pack_list pack_ptr addrs
  spans ← fd_spans inst
  fds ← pack_list pack_span spans
  ok (ptrs ++ fds)

-- The offset of each part, from where the cursor is.
unfoldable pub pack_cursors : ℕ → List Bytes → Result Bytes
pack_cursors cursor [] = ok []
pack_cursors cursor (part ∷ parts) = do
  c ← pack_ptr cursor
  rest ← pack_cursors (cursor + length part) parts
  ok (c ++ rest)

unfoldable pub concat : List Bytes → Bytes
concat [] = []
concat (part ∷ parts) = part ++ concat parts

unfoldable pub region_code :
    Executable → ℕ → List (ℕ × Syscall) → List (List (ℕ × Syscall)) → Result Bytes
unfolding pack_thread pack_cursors concat
region_code inst ncpu main subs = do
  count ← pack_ptr ncpu
  thread_main ← pack_thread inst main
  thread_subs ← map_all (pack_thread inst) subs
  cursors ← pack_cursors ((1 + 1 + ncpu) * spec_ptr_size) (thread_main ∷ thread_subs)
  ok (count ++ (cursors ++ (thread_main ++ concat thread_subs)))

-- 'bytecode'
abbrev pub magic : Bytes
magic = b'b' ∷ b'y' ∷ b't' ∷ b'e' ∷ b'c' ∷ b'o' ∷ b'd' ∷ b'e' ∷ []

unfoldable pub region_head : Bytes → Bytes → Result Bytes
region_head meta code = do
  let cursor = 4 * spec_ptr_size
  m ← pack_ptr cursor
  c ← pack_ptr (cursor + length meta)
  h ← pack_ptr (cursor + length meta + length code)
  ok (magic ++ (m ++ (c ++ h)))

unfoldable pub gen_image :
    Executable → ℕ → List (ℕ × Syscall) → List (List (ℕ × Syscall)) → Result Bytes
unfolding region_meta region_code region_head
gen_image inst ncpu main subs = do
  meta ← region_meta inst
  code ← region_code inst ncpu main subs
  head ← region_head meta code
  ok (head ++ (meta ++ (code ++ inst.heap)))

abbrev pub without_ident : ℕ × Syscall → Syscall
without_ident (ident, syscall) = syscall

-- `gen_bytecode`: `syscalls` is the whole sequence, of which `main` is the first part.
unfoldable pub gen_bytecode :
    LegoClass
    → ℕ
    → List (ℕ × Syscall)
    → List (ℕ × Syscall)
    → List (List (ℕ × Syscall))
    → Result (Executable × Bytes)
unfolding gen_image
gen_bytecode class ncpu syscalls main subs = do
  inst ← blob_all class (map without_ident syscalls) init
  check_inst inst
  image ← gen_image inst ncpu main subs
  ok (inst, image)
