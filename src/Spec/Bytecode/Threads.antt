-- ===== src/Spec/Bytecode/Threads.antt =====
-- The table of the code region, and the threads that it points to.
use mathlib.Core.List.{append_assoc}
use mathlib.Core.Path.{subst}
use krace.Prelude.{
  ℕ, suc, ◌+◌, ◌*◌, ◌≡◌, refl, sym, ap, ◌∙◌, some, List, [], ◌∷◌, ◌++◌, arith, length,
}
use krace.Bytes.{drop}
use krace.Bytes.Slices.{length-append, drop-append}
use krace.Spec.Result.{Result, ok, map_all, >>=-eq-ok, >>=-ok}
use krace.Spec.Pack.{pack_ptr}
use krace.Spec.Executable.{Executable}
use krace.Spec.Blob.{Syscall}
use krace.Spec.Bytecode.{Bytes, pack_each, pack_thread, pack_cursors, concat, region_code}
use krace.Spec.Bytecode.Reader.{
  >>=-some, read_word, read_times, read_list, read_call, read_thread, read_threads, read_code, Call,
}
use krace.Spec.Bytecode.Words.{
  Reads, ok-inj, pack_ptr-IsRead, pack_ptr-length, read_word-pack_ptr, read_times-pack_each,
}
use krace.Spec.Bytecode.Thread.{view_call, pack_thread-IsRead}

-- Where each part starts, the first at `cursor`.
unfoldable pub offsets : ℕ → List Bytes → List ℕ
offsets cursor [] = []
offsets cursor (part ∷ parts) = cursor ∷ offsets (cursor + length part) parts

pack_cursors_lem :
    (cursor : ℕ) (parts : List Bytes)
    → pack_cursors cursor parts ≡ pack_each pack_ptr (offsets cursor parts)
unfolding pack_cursors pack_each offsets
pack_cursors_lem cursor [] = refl
pack_cursors_lem cursor (part ∷ parts) = rw (pack_cursors_lem (cursor + length part) parts) refl

length-offsets : (cursor : ℕ) (parts : List Bytes) → length (offsets cursor parts) ≡ length parts
unfolding offsets
length-offsets cursor [] = refl
length-offsets cursor (part ∷ parts) = omega (arith, length-offsets (cursor + length part) parts)

length-pack_words :
    (ws : List ℕ) (bytes : Bytes) → pack_each pack_ptr ws ≡ ok bytes → length bytes ≡ 8 * length ws
unfolding pack_each
length-pack_words [] bytes h = rw (← ok-inj h) refl
length-pack_words (w ∷ ws) bytes h =
    let (one, wrote, h₁) = >>=-eq-ok (pack_ptr w) _ h in
    let (more, wrote', h₂) = >>=-eq-ok (pack_each pack_ptr ws) _ h₁ in
    let long = length-pack_words ws more wrote' in
    subst (λ l. length l ≡ 8 * length (w ∷ ws)) (ok-inj h₂)
      (omega (arith, length-append one more, pack_ptr-length w one wrote, long))

pub map_all-ok {ℓ} : {A : Type ℓ} (xs : List A) → map_all ok xs ≡ ok xs
unfolding map_all
map_all-ok [] = refl
map_all-ok (x ∷ xs) = >>=-ok (ok x) _ refl ∙ >>=-ok (map_all ok xs) _ (map_all-ok xs)

-- The table is as long as there are threads, and is read back.
read_cursors :
    (cursor : ℕ) (parts : List Bytes) (bytes : Bytes)
    → pack_cursors cursor parts ≡ ok bytes
    → (length bytes ≡ 8 * length parts)
      × Reads (read_times read_word (length parts)) bytes (offsets cursor parts)
read_cursors cursor parts bytes h =
    let wrote = sym (pack_cursors_lem cursor parts) ∙ h in
    let (ws, same, reads) =
      read_times-pack_each pack_ptr read_word ok pack_ptr-IsRead (offsets cursor parts) bytes
        wrote in
    (
      omega (
        arith,
        length-pack_words (offsets cursor parts) bytes wrote,
        length-offsets cursor parts,
      ),
      rw (← length-offsets cursor parts) (
          subst (λ l. Reads (read_times read_word (length (offsets cursor parts))) bytes l)
            (ok-inj (sym same ∙ map_all-ok (offsets cursor parts))) reads),
    )

-- The first thread is read at the cursor, and the others after it.
read_first :
    (one : Bytes) (more : List Bytes) (view : List Call) (views : List (List Call))
    (before rest : Bytes) (cursor : ℕ)
    → length before ≡ cursor
    → Reads (read_list read_call) one view
    → (length (before ++ one) ≡ cursor + length one
        → read_threads
            ((before ++ one) ++ (concat more ++ rest))
            (offsets (cursor + length one) more)
          ≡ some views)
    → read_threads (before ++ (concat (one ∷ more) ++ rest)) (offsets cursor (one ∷ more))
      ≡ some (view ∷ views)
unfolding offsets concat read_threads read_thread
read_first one more view views before rest cursor at reads later =
    >>=-some (read_thread (drop cursor code)) _ first
    ∙ >>=-some (read_threads code (offsets (cursor + length one) more)) _ others
  where
    code : Bytes
    code = before ++ ((one ++ concat more) ++ rest)

    first : read_thread (drop cursor code) ≡ some view
    first =
        ap read_thread (drop-append cursor before ((one ++ concat more) ++ rest) at)
        ∙ ap read_thread (append_assoc one (concat more) rest)
        ∙ >>=-some (read_list read_call (one ++ (concat more ++ rest))) _
            (reads (concat more ++ rest))

    others : read_threads code (offsets (cursor + length one) more) ≡ some views
    others =
        ap (λ bs. read_threads bs (offsets (cursor + length one) more))
          (ap (λ bs. before ++ bs) (append_assoc one (concat more) rest)
            ∙ sym (append_assoc before one (concat more ++ rest)))
        ∙ later (omega (arith, length-append before one, at))

abbrev pub Thread : Type 0
Thread = List (ℕ × Syscall)

module _ (inst : Executable) where
  -- Each thread is read at its offset, wherever the parts stand.
  read_threads-pack :
      (threads : List Thread) (parts : List Bytes)
      → map_all (pack_thread inst) threads ≡ ok parts
      → (views : List (List Call)) × (map_all (map_all (view_call inst)) threads ≡ ok views)
        × ((before rest : Bytes) (cursor : ℕ)
            → length before ≡ cursor
            → read_threads (before ++ (concat parts ++ rest)) (offsets cursor parts) ≡ some views)
  unfolding map_all
  read_threads-pack [] parts h =
      ([], refl, λ before rest cursor at. unfold offsets read_threads in rw (← ok-inj h) refl)
  read_threads-pack (thread ∷ threads) parts h =
      let (one, wrote, h₁) = >>=-eq-ok (pack_thread inst thread) _ h in
      let (more, wrote', h₂) = >>=-eq-ok (map_all (pack_thread inst) threads) _ h₁ in
      let (view, seen, reads) = pack_thread-IsRead inst thread one wrote in
      let (views, seen', reads') = read_threads-pack threads more wrote' in
      (
        view ∷ views,
        >>=-ok (map_all (view_call inst) thread) _ seen
            ∙ >>=-ok (map_all (map_all (view_call inst)) threads) _ seen',
        λ before rest cursor at.
            subst
              (λ l.
                read_threads (before ++ (concat l ++ rest)) (offsets cursor l)
                ≡ some (view ∷ views))
              (ok-inj h₂)
              (read_first one more view views before rest cursor at reads
                (reads' (before ++ one) rest (cursor + length one))),
      )

length-map_all {ℓ κ} :
    {A : Type ℓ} {B : Type κ} (f : A → Result B) (xs : List A) (ys : List B)
    → map_all f xs ≡ ok ys
    → length ys ≡ length xs
unfolding map_all
length-map_all f [] ys h = rw (← ok-inj h) refl
length-map_all f (x ∷ xs) ys h =
    let (y, _, h₁) = >>=-eq-ok (f x) _ h in
    let (more, rest, h₂) = >>=-eq-ok (map_all f xs) _ h₁ in
    ap length (sym (ok-inj h₂)) ∙ ap suc (length-map_all f xs more rest)

-- The count and the table lead to the parts behind them.
read_table :
    (n : ℕ) (parts : List Bytes) (count table : Bytes) (views : List (List Call))
    → length parts ≡ suc n
    → pack_ptr n ≡ ok count
    → pack_cursors ((1 + 1 + n) * 8) parts ≡ ok table
    → ((before rest : Bytes) (cursor : ℕ)
        → length before ≡ cursor
        → read_threads (before ++ (concat parts ++ rest)) (offsets cursor parts) ≡ some views)
    → (rest : Bytes) → read_code ((count ++ (table ++ concat parts)) ++ rest) ≡ some views
unfolding read_code
read_table n parts count table views many wrote wrote' threads rest =
    let (long, reads) = read_cursors ((1 + 1 + n) * 8) parts table wrote' in
    ap read_code (
      append_assoc count (table ++ concat parts) rest
      ∙ ap (λ bs. count ++ bs) (append_assoc table (concat parts) rest))
    ∙ >>=-some (read_word code) _
        (read_word-pack_ptr n count wrote (table ++ (concat parts ++ rest)))
    ∙ >>=-some (read_times read_word (suc n) (table ++ (concat parts ++ rest))) _ (
        subst
          (λ k.
            read_times read_word k (table ++ (concat parts ++ rest))
            ≡ some (offsets ((1 + 1 + n) * 8) parts, concat parts ++ rest))
          many (reads (concat parts ++ rest)))
    ∙ ap (λ bs. read_threads bs (offsets ((1 + 1 + n) * 8) parts))
        (sym (append_assoc count table (concat parts ++ rest)))
    ∙ threads (count ++ table) rest ((1 + 1 + n) * 8)
        (omega (arith, length-append count table, pack_ptr-length n count wrote, long, many))
  where
    code : Bytes
    code = count ++ (table ++ (concat parts ++ rest))

-- The code region, whatever follows it, is read as its threads, the main one first.
pub read_code-region_code :
    (inst : Executable) (main : Thread) (subs : List Thread) (code : Bytes)
    → region_code inst (length subs) main subs ≡ ok code
    → (views : List (List Call)) × (map_all (map_all (view_call inst)) (main ∷ subs) ≡ ok views)
      × ((rest : Bytes) → read_code (code ++ rest) ≡ some views)
unfolding region_code map_all concat
read_code-region_code inst main subs code h =
    let (count, w₁, h₁) = >>=-eq-ok (pack_ptr (length subs)) _ h in
    let (one, w₂, h₂) = >>=-eq-ok (pack_thread inst main) _ h₁ in
    let (more, w₃, h₃) = >>=-eq-ok (map_all (pack_thread inst) subs) _ h₂ in
    let (table, w₄, h₄) = >>=-eq-ok (pack_cursors ((1 + 1 + length subs) * 8) (one ∷ more)) _ h₃ in
    let both : map_all (pack_thread inst) (main ∷ subs) ≡ ok (one ∷ more) =
      >>=-ok (pack_thread inst main) _ w₂ ∙ >>=-ok (map_all (pack_thread inst) subs) _ w₃ in
    let (views, seen, reads) = read_threads-pack inst (main ∷ subs) (one ∷ more) both in
    (
      views,
      seen,
      λ rest.
          ap (λ l. read_code (l ++ rest)) (sym (ok-inj h₄))
          ∙ read_table (length subs) (one ∷ more) count table views
              (ap suc (length-map_all (pack_thread inst) subs more w₃)) w₁ w₄ reads rest,
    )
