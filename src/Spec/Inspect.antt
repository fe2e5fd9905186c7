-- ===== src/Spec/Inspect.antt =====
-- The results of an execution: `Program._extract_retv`, `_inspect_thread`, `inspect` and `Outcome`
-- of script/spec_basis.py, on the heap that the executor gives back.
pub mod RoundTrip
use krace.Prelude.{ℕ, suc, ◌+◌, ◌^◌, List, [], ◌∷◌, ◌==◌, if◌then◌else◌}
use krace.Prelude.Int.{ℤ}
use krace.Bytes.Slices.{slice}
use krace.Spec.Result.{Result, ok, raised, struct_error, ◌>>=◌, map_all}
use krace.Spec.Pack.{unpack_signed}
use krace.Spec.Executable.{Hole, Executable, get_hole}
use krace.Spec.Blob.{Syscall}

-- The format by the size of the hole, `X` being none of `struct`.
unfoldable pub extract_bytes : ℕ → List ℕ → Result ℤ
extract_bytes size bytes =
    if size == 1
    then unpack_signed 1 (2 ^ 7) bytes
    else if size == 2
    then unpack_signed 2 (2 ^ 15) bytes
    else if size == 4
    then unpack_signed 4 (2 ^ 31) bytes
    else if size == 8
    then unpack_signed 8 (2 ^ 63) bytes
    else raised struct_error

unfoldable pub extract_retv : Hole → List ℕ → Result ℤ
unfolding extract_bytes
extract_retv hole blob = extract_bytes hole.size (slice hole.addr (hole.addr + hole.size) blob)

unfoldable pub inspect_thread : List Syscall → Executable → List ℕ → Result (List ℤ)
unfolding extract_retv
inspect_thread syscalls inst blob =
    map_all (λ (s : Syscall). get_hole s.retv inst >>= λ hole. extract_retv hole blob) syscalls

pub record Outcome : Type 0 where
  pub main : List ℤ
  pub subs : List (List ℤ)

unfoldable pub inspect : List Syscall → List (List Syscall) → Executable → List ℕ → Result Outcome
unfolding inspect_thread
inspect thread_main thread_subs inst blob = do
  main ← inspect_thread thread_main inst blob
  subs ← map_all (λ sub. inspect_thread sub inst blob) thread_subs
  ok (record { main = main; subs = subs })
