-- ===== src/Spec/Bytecode/Thread.antt =====
-- The bytes of a thread, read back as its syscalls.
use mathlib.Core.List.{append_assoc}
use mathlib.Core.Path.{subst}
use krace.Prelude.{Option, none, List, [], ℕ, refl, sym, ap, ◌∙◌, some, ◌++◌}
use krace.Dict.{lookup}
use krace.Dict.Key.{nat_eq}
use krace.Spec.Result
use krace.Spec.Result.{Result, ok, or_raise, key_error, map_all, >>=-eq-ok, >>=-ok}
use krace.Spec.Pack.{pack_ptr}
use krace.Spec.Executable.{Lego, Hole, Executable, get_hole}
use krace.Spec.Blob.{Syscall}
use krace.Spec.Bytecode.{
  Bytes, pack_hole, pack_lego, pack_prep, pack_list, pack_call, pack_thread, pack_span, or_empty,
}
use krace.Spec.Bytecode.Reader.{
  Reader, ◌>>=◌, >>=-some, read_word, read_list, read_span, read_prep, read_call, Span, Call,
}
use krace.Spec.Bytecode.Words.{Reads, IsRead, ok-inj, read_word-pack_ptr, pack_list-IsRead}

-- One reader after another, on one writer's bytes after another's.
Reads-then {ℓ κ} :
    {A : Type ℓ} {B : Type κ} (r : Reader A) (k : A → Reader B) (one more : Bytes) (a : A) (b : B)
    → Reads r one a
    → Reads (k a) more b
    → Reads (λ bs. r bs >>= λ (x, rest). k x rest) (one ++ more) b
Reads-then r k one more a b reads reads' rest =
    ap (λ bs. r bs >>= λ (x, rest'). k x rest') (append_assoc one more rest)
    ∙ >>=-some (r (one ++ (more ++ rest))) _ (reads (more ++ rest))
    ∙ reads' rest

-- The last reader of a row, and what is made of its value.
Reads-map {ℓ κ} :
    {A : Type ℓ} {B : Type κ} (r : Reader A) (f : A → B) (bytes : Bytes) (a : A)
    → Reads r bytes a
    → Reads (λ bs. r bs >>= λ (x, rest). some (f x, rest)) bytes (f a)
Reads-map r f bytes a reads rest = >>=-some (r (bytes ++ rest)) _ (reads rest)

pub pack_span-IsRead : IsRead pack_span read_span ok
unfolding pack_span read_span
pack_span-IsRead (addr, size) bytes h =
    let (a, wrote, h₁) = >>=-eq-ok (pack_ptr addr) _ h in
    let (s, wrote', h₂) = >>=-eq-ok (pack_ptr size) _ h₁ in
    (
      (addr, size),
      refl,
      subst (λ l. Reads read_span l (addr, size)) (ok-inj h₂)
          (Reads-then read_word _ a s addr (addr, size) (read_word-pack_ptr addr a wrote)
            (Reads-map read_word (λ x. (addr, x)) s size (read_word-pack_ptr size s wrote'))),
    )

abbrev pub span_of : Hole → Span
span_of hole = (hole.addr, hole.size)

module _ (inst : Executable) where
  -- What the executor is told of a lego, of a preparation, and of a syscall.
  abbrev pub view_lego : Lego → Result Span
  view_lego lego =
      Result.◌>>=◌ (or_raise key_error (lookup lego inst.repo)) λ hole. ok (span_of hole)

  unfoldable pub view_prep : Lego × Lego → Result (Span × Span)
  view_prep (src, dst) =
      Result.◌>>=◌ (view_lego src) λ s. Result.◌>>=◌ (view_lego dst) λ d. ok (s, d)

  -- What is to be copied before a call; nothing where the executable has no entry for it
  abbrev prepared : Option (List (Lego × Lego)) → List (Lego × Lego)
  prepared none = []
  prepared (some items) = items

  unfoldable pub view_call : ℕ × Syscall → Result Call
  view_call (ident, syscall) =
      Result.◌>>=◌ (map_all view_prep (prepared (lookup ident inst.prep))) λ preps.
        Result.◌>>=◌ (view_lego syscall.retv) λ retv.
          Result.◌>>=◌ (map_all view_lego syscall.args)
            λ args. ok (record { preps = preps; snum = syscall.snum; retv = retv; args = args })

  pack_lego-IsRead : IsRead (pack_lego inst) read_span view_lego
  unfolding pack_lego pack_hole pack_span get_hole
  pack_lego-IsRead lego bytes h =
      let (hole, found, h₁) = >>=-eq-ok (get_hole lego inst) _ h in
      let (span, same, reads) = pack_span-IsRead (span_of hole) bytes h₁ in
      (span_of hole, >>=-ok _ _ found, subst (Reads read_span bytes) (sym (ok-inj same)) reads)

  pack_prep-IsRead : IsRead (pack_prep inst) read_prep view_prep
  unfolding pack_prep read_prep view_prep
  pack_prep-IsRead (src, dst) bytes h =
      let (one, wrote, h₁) = >>=-eq-ok (pack_lego inst src) _ h in
      let (more, wrote', h₂) = >>=-eq-ok (pack_lego inst dst) _ h₁ in
      let (s, seen, reads) = pack_lego-IsRead src one wrote in
      let (d, seen', reads') = pack_lego-IsRead dst more wrote' in
      (
        (s, d),
        >>=-ok (view_lego src) _ seen ∙ >>=-ok (view_lego dst) _ seen',
        subst (λ l. Reads read_prep l (s, d)) (ok-inj h₂)
            (Reads-then read_span _ one more s (s, d) reads
              (Reads-map read_span (λ x. (s, x)) more d reads')),
      )

  pub pack_call-IsRead : IsRead (pack_call inst) read_call view_call
  unfolding pack_call read_call view_call
  pack_call-IsRead (ident, syscall) bytes h =
      let (b₁, w₁, h₁) =
        >>=-eq-ok (pack_list (pack_prep inst) (or_empty (lookup ident inst.prep))) _ h in
      let (b₂, w₂, h₂) = >>=-eq-ok (pack_ptr syscall.snum) _ h₁ in
      let (b₃, w₃, h₃) = >>=-eq-ok (pack_lego inst syscall.retv) _ h₂ in
      let (b₄, w₄, h₄) = >>=-eq-ok (pack_list (pack_lego inst) syscall.args) _ h₃ in
      let (preps, s₁, r₁) =
        pack_list-IsRead (pack_prep inst) read_prep view_prep pack_prep-IsRead _ b₁ w₁ in
      let (retv, s₃, r₃) = pack_lego-IsRead syscall.retv b₃ w₃ in
      let (args, s₄, r₄) =
        pack_list-IsRead (pack_lego inst) read_span view_lego pack_lego-IsRead _ b₄ w₄ in
      let call : Call = record { preps = preps; snum = syscall.snum; retv = retv; args = args } in
      (
        call,
        >>=-ok (map_all view_prep (prepared (lookup ident inst.prep))) _ s₁
            ∙ >>=-ok (view_lego syscall.retv) _ s₃
            ∙ >>=-ok (map_all view_lego syscall.args) _ s₄,
        subst (λ l. Reads read_call l call) (ok-inj h₄)
            (Reads-then (read_list read_prep) _ b₁ _ preps call r₁ (
              Reads-then read_word _ b₂ _ syscall.snum call (read_word-pack_ptr syscall.snum b₂ w₂)
                (Reads-then read_span _ b₃ b₄ retv call r₃ (
                  Reads-map (read_list read_span)
                    (λ x. record { preps = preps; snum = syscall.snum; retv = retv; args = x }) b₄
                    args r₄)))),
      )

  -- The executor reads of a thread's bytes the syscalls in their order, each with its number, the
  -- places of its return value and arguments, and what is to be copied before it.
  pub pack_thread-IsRead : IsRead (pack_thread inst) (read_list read_call) (map_all view_call)
  unfolding pack_thread
  pack_thread-IsRead = pack_list-IsRead (pack_call inst) read_call view_call pack_call-IsRead
