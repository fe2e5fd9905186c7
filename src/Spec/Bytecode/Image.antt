-- ===== src/Spec/Bytecode/Image.antt =====
-- The regions of an image, read back.
use mathlib.Core.List.{append_assoc}
use mathlib.Core.Path.{subst}
use krace.Prelude.{ℕ, ◌+◌, ◌≡◌, refl, sym, ap, ◌∙◌, some, List, ◌++◌, arith, length}
use krace.Bytes.{take, drop}
use krace.Bytes.Slices.{length-append, drop-append, take-append}
use krace.Spec.Result.{Result, ok, >>=-eq-ok}
use krace.Spec.Pack.{pack_ptr}
use krace.Spec.Executable.{Executable}
use krace.Spec.Bytecode.{
  Bytes, magic, pack_list, pack_span, ptr_addrs, fd_spans, region_meta, region_head,
}
use krace.Spec.Bytecode.Reader.{
  Reader, >>=-some, read_word, read_list, read_span, read_code, read_image, Span, Call,
}
use krace.Spec.Bytecode.Words.{
  Reads, IsRead, ok-inj, pack_ptr-IsRead, pack_ptr-length, read_word-pack_ptr, pack_list-IsRead,
}
use krace.Spec.Bytecode.Thread.{pack_span-IsRead}
use krace.Spec.Bytecode.Threads.{map_all-ok}

-- A list that is written item by item is read as it is.
read_whole {ℓ} :
    {A : Type ℓ} (f : A → Result Bytes) (r : Reader A) (is_read : IsRead f r ok) (xs : List A)
    (bytes : Bytes)
    → pack_list f xs ≡ ok bytes
    → Reads (read_list r) bytes xs
read_whole f r is_read xs bytes h =
    let (ys, same, reads) = pack_list-IsRead f r ok is_read xs bytes h in
    subst (Reads (read_list r) bytes) (ok-inj (sym same ∙ map_all-ok xs)) reads

-- The meta region: the addresses of the pointers, and then the descriptors.
pub record MetaParts (inst : Executable) (meta : Bytes) : Type 0 where
  pub addrs : List ℕ
  pub spans : List Span
  pub ptrs : Bytes
  pub fds : Bytes
  pub addrs_are : ptr_addrs inst ≡ ok addrs
  pub spans_are : fd_spans inst ≡ ok spans
  pub joined : ptrs ++ fds ≡ meta
  pub reads_ptrs : Reads (read_list read_word) ptrs addrs
  pub reads_fds : Reads (read_list read_span) fds spans

pub region_meta_parts :
    (inst : Executable) (meta : Bytes) → region_meta inst ≡ ok meta → MetaParts inst meta
unfolding region_meta
region_meta_parts inst meta h =
    let (addrs, a, h₁) = >>=-eq-ok (ptr_addrs inst) _ h in
    let (ptrs, p, h₂) = >>=-eq-ok (pack_list pack_ptr addrs) _ h₁ in
    let (spans, s, h₃) = >>=-eq-ok (fd_spans inst) _ h₂ in
    let (fds, f, h₄) = >>=-eq-ok (pack_list pack_span spans) _ h₃ in
    record {
      addrs = addrs;
      spans = spans;
      ptrs = ptrs;
      fds = fds;
      addrs_are = a;
      spans_are = s;
      joined = ok-inj h₄;
      reads_ptrs = read_whole pack_ptr read_word pack_ptr-IsRead addrs ptrs p;
      reads_fds = read_whole pack_span read_span pack_span-IsRead spans fds f;
    }

-- The head: the magic text, and where the three regions start.
pub record HeadParts (meta code head : Bytes) : Type 0 where
  pub m : Bytes
  pub c : Bytes
  pub h : Bytes
  pub joined : magic ++ (m ++ (c ++ h)) ≡ head
  pub long : length head ≡ 32
  pub reads_m : Reads read_word m 32
  pub reads_c : Reads read_word c (32 + length meta)
  pub reads_h : Reads read_word h (32 + length meta + length code)

pub region_head_parts :
    (meta code head : Bytes) → region_head meta code ≡ ok head → HeadParts meta code head
unfolding region_head
region_head_parts meta code head e =
    let (m, w₁, e₁) = >>=-eq-ok (pack_ptr 32) _ e in
    let (c, w₂, e₂) = >>=-eq-ok (pack_ptr (32 + length meta)) _ e₁ in
    let (h, w₃, e₃) = >>=-eq-ok (pack_ptr (32 + length meta + length code)) _ e₂ in
    record {
      m = m;
      c = c;
      h = h;
      joined = ok-inj e₃;
      long = ap length (sym (ok-inj e₃)) ∙ total 32 _ _ m c h w₁ w₂ w₃;
      reads_m = read_word-pack_ptr 32 m w₁;
      reads_c = read_word-pack_ptr _ c w₂;
      reads_h = read_word-pack_ptr _ h w₃;
    }
  where
    total :
        (x y z : ℕ) (m c h : Bytes)
        → pack_ptr x ≡ ok m
        → pack_ptr y ≡ ok c
        → pack_ptr z ≡ ok h
        → length (magic ++ (m ++ (c ++ h))) ≡ 32
    total x y z m c h w₁ w₂ w₃ = omega (
      arith,
      length-append m (c ++ h),
      length-append c h,
      pack_ptr-length _ m w₁,
      pack_ptr-length _ c w₂,
      pack_ptr-length _ h w₃,
    )

module _ (inst : Executable) (meta code head : Bytes) (mp : MetaParts inst meta)
    (hp : HeadParts meta code head) (views : List (List Call))
    (reads_code : (rest : Bytes) → read_code (code ++ rest) ≡ some views) where
  open mp use {addrs, spans, ptrs, fds}
  open hp use {m, c, h}

  pub tail : Bytes
  tail = meta ++ (code ++ inst.heap)

  pub image : Bytes
  image = head ++ tail

  head_split : image ≡ magic ++ (m ++ (c ++ (h ++ tail)))
  unfolding image
  head_split =
      ap (λ l. l ++ tail) (sym hp.joined)
      ∙ append_assoc magic (m ++ (c ++ h)) tail
      ∙ ap (λ l. magic ++ l)
          (append_assoc m (c ++ h) tail ∙ ap (λ l. m ++ l) (append_assoc c h tail))

  after_magic : drop 8 image ≡ m ++ (c ++ (h ++ tail))
  after_magic = ap (drop 8) head_split ∙ drop-append 8 magic _ refl

  is_magic : take 8 image ≡ magic
  is_magic = ap (take 8) head_split ∙ take-append 8 magic _ refl

  at_meta : drop 32 image ≡ ptrs ++ (fds ++ (code ++ inst.heap))
  unfolding image tail
  at_meta =
      drop-append 32 head tail hp.long
      ∙ ap (λ l. l ++ (code ++ inst.heap)) (sym mp.joined)
      ∙ append_assoc ptrs fds (code ++ inst.heap)

  at_code : drop (32 + length meta) image ≡ code ++ inst.heap
  unfolding image tail
  at_code =
      ap (drop (32 + length meta)) (sym (append_assoc head meta (code ++ inst.heap)))
      ∙ drop-append (32 + length meta) (head ++ meta) (code ++ inst.heap)
          (omega (arith, length-append head meta, hp.long))

  at_heap : drop (32 + length meta + length code) image ≡ inst.heap
  unfolding image tail
  at_heap =
      ap (drop (32 + length meta + length code)) (
        sym
          (append_assoc (head ++ meta) code inst.heap ∙ append_assoc head meta (code ++ inst.heap)))
      ∙ drop-append _ ((head ++ meta) ++ code) inst.heap
          (omega (arith, length-append (head ++ meta) code, length-append head meta, hp.long))

  pub read_regions :
      read_image (head ++ (meta ++ (code ++ inst.heap)))
      ≡ some (record { ptrs = addrs; fds = spans; threads = views; heap = inst.heap })
  unfolding read_image image tail
  read_regions =
      >>=-some (read_word (drop 8 image)) _
        (ap read_word after_magic ∙ hp.reads_m (c ++ (h ++ tail)))
      ∙ >>=-some (read_word (c ++ (h ++ tail))) _ (hp.reads_c (h ++ tail))
      ∙ >>=-some (read_word (h ++ tail)) _ (hp.reads_h tail)
      ∙ >>=-some (read_list read_word (drop 32 image)) _
          (ap (read_list read_word) at_meta ∙ mp.reads_ptrs (fds ++ (code ++ inst.heap)))
      ∙ >>=-some (read_list read_span (fds ++ (code ++ inst.heap))) _
          (mp.reads_fds (code ++ inst.heap))
      ∙ >>=-some (read_code (drop (32 + length meta) image)) _
          (ap read_code at_code ∙ reads_code inst.heap)
      ∙ (rw (is_magic, at_heap) refl)
