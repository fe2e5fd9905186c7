-- ===== src/Spec/Bytecode/Reader.antt =====
-- A reader of the image, from the layout that the comment of `gen_bytecode` documents: the head
-- tells where the regions start, and the table of the code region where each thread starts.
use krace.Prelude.{ℕ, ◌≡◌, refl, zero, suc, Option, none, some, List, [], ◌∷◌, if◌then◌else◌}
use krace.Bytes.{unpack, take, drop}
use krace.Spec.Executable.{same_bytes}
use krace.Spec.Bytecode.{Bytes, magic}

abbrev pub Reader {ℓ} : Type ℓ → Type ℓ
Reader A = Bytes → Option (A × Bytes)

infixl 5 ◌>>=◌
unfoldable pub ◌>>=◌ {ℓ κ} : {A : Type ℓ} {B : Type κ} → Option A → (A → Option B) → Option B
none >>= f = none
some a >>= f = f a

pub >>=-some {ℓ κ} :
    {A : Type ℓ} {B : Type κ} (o : Option A) (f : A → Option B) {a : A}
    → o ≡ some a
    → (o >>= f) ≡ f a
unfolding ◌>>=◌
>>=-some o f e = rw e refl

unfoldable pub read_word : Reader ℕ
read_word bs = unpack 8 bs

unfoldable pub read_times {ℓ} : {A : Type ℓ} → Reader A → ℕ → Reader (List A)
read_times r zero bs = some ([], bs)
read_times r (suc n) bs = do
  (x, rest) ← r bs
  (xs, rest') ← read_times r n rest
  some (x ∷ xs, rest')

unfoldable pub read_list {ℓ} : {A : Type ℓ} → Reader A → Reader (List A)
unfolding read_times
read_list r bs = do (n, rest) ← read_word bs; read_times r n rest

abbrev pub Span : Type 0
Span = ℕ × ℕ

unfoldable pub read_span : Reader Span
read_span bs = do (a, rest) ← read_word bs; (s, rest') ← read_word rest; some ((a, s), rest')

unfoldable pub read_prep : Reader (Span × Span)
unfolding read_span
read_prep bs = do (s, rest) ← read_span bs; (d, rest') ← read_span rest; some ((s, d), rest')

pub record Call : Type 0 where
  pub preps : List (Span × Span)
  pub snum : ℕ
  pub retv : Span
  pub args : List Span

unfoldable pub read_call : Reader Call
unfolding read_list read_prep read_span
read_call bs = do
  (preps, bs₁) ← read_list read_prep bs
  (snum, bs₂) ← read_word bs₁
  (retv, bs₃) ← read_span bs₂
  (args, bs₄) ← read_list read_span bs₃
  some (record { preps = preps; snum = snum; retv = retv; args = args }, bs₄)

unfoldable pub read_thread : Bytes → Option (List Call)
unfolding read_call
read_thread bs = do (calls, rest) ← read_list read_call bs; some calls

-- The threads that start at these offsets of the code region.
unfoldable pub read_threads : Bytes → List ℕ → Option (List (List Call))
unfolding read_thread
read_threads code [] = some []
read_threads code (offset ∷ offsets) = do
  thread ← read_thread (drop offset code)
  threads ← read_threads code offsets
  some (thread ∷ threads)

pub record Image : Type 0 where
  pub ptrs : List ℕ
  pub fds : List Span
  pub threads : List (List Call)
  pub heap : Bytes

-- The number of sub threads, and the offsets of the main thread and of each of them.
unfoldable pub read_code : Bytes → Option (List (List Call))
unfolding read_threads
read_code code = do
  (ncpu, bs) ← read_word code
  (offsets, rest) ← read_times read_word (suc ncpu) bs
  read_threads code offsets

unfoldable pub read_image : Bytes → Option Image
unfolding read_code
read_image image = do
  (meta, bs) ← read_word (drop 8 image)
  (code, bs') ← read_word bs
  (heap, rest) ← read_word bs'
  (ptrs, after) ← read_list read_word (drop meta image)
  (fds, after') ← read_list read_span after
  threads ← read_code (drop code image)
  if same_bytes (take 8 image) magic
      then some (record { ptrs = ptrs; fds = fds; threads = threads; heap = drop heap image })
      else none
