-- ===== src/Spec/Bytecode/Loaded.antt =====
-- A generated program, as the executor loads it.
use krace.Prelude.{◌≡◌, refl, some, List, ◌∷◌, map, length, ap, sym, ◌∙◌}
use krace.Spec.Result.{ok, map_all, >>=-eq-ok}
use krace.Spec.Executable.{Executable, init, check_inst}
use krace.Spec.Executable.Writes.{Reach, start}
use krace.Spec.Blob.{LegoClass, blob_all}
use krace.Spec.Blob.Reached.{IsBuilding, blob_all-Builds}
use krace.Spec.Bytecode.{
  Bytes, region_meta, region_code, region_head, gen_image, gen_bytecode, without_ident,
}
use krace.Spec.Bytecode.Reader.{read_image, Image}
use krace.Spec.Bytecode.Words.{ok-inj}
use krace.Spec.Bytecode.Thread.{view_call}
use krace.Spec.Bytecode.Threads.{Thread, read_code-region_code}
use krace.Spec.Bytecode.Meta.{
  IsRelocation, IsDescriptors, ptr_addrs-IsRelocation, fd_spans-IsDescriptors,
}
use krace.Spec.Bytecode.Image.{region_meta_parts, region_head_parts, read_regions}

-- What the executor reads of a program: the addresses that are to be relocated, the descriptors
-- that are to be closed, and the syscalls of each thread, the main one first, with their holes.
pub record IsImage (inst : Executable) (main : Thread) (subs : List Thread) (image : Image)
    : Type 0 where
  pub relocations : IsRelocation inst image.ptrs
  pub descriptors : IsDescriptors inst image.fds
  pub threads : map_all (map_all (view_call inst)) (main ∷ subs) ≡ ok image.threads
  pub heap : inst.heap ≡ image.heap

gen_image-IsImage :
    (inst : Executable) (main : Thread) (subs : List Thread) (bytes : Bytes)
    → gen_image inst (length subs) main subs ≡ ok bytes
    → (image : Image) × (read_image bytes ≡ some image) × IsImage inst main subs image
unfolding gen_image
gen_image-IsImage inst main subs bytes e =
    let (meta, w₁, e₁) = >>=-eq-ok (region_meta inst) _ e in
    let (code, w₂, e₂) = >>=-eq-ok (region_code inst (length subs) main subs) _ e₁ in
    let (head, w₃, e₃) = >>=-eq-ok (region_head meta code) _ e₂ in
    let mp = region_meta_parts inst meta w₁ in
    let hp = region_head_parts meta code head w₃ in
    let (views, seen, reads) = read_code-region_code inst main subs code w₂ in
    (
      record { ptrs = mp.addrs; fds = mp.spans; threads = views; heap = inst.heap },
      ap read_image (sym (ok-inj e₃)) ∙ read_regions inst meta code head mp hp views reads,
      record {
        relocations = ptr_addrs-IsRelocation inst mp.addrs mp.addrs_are;
        descriptors = fd_spans-IsDescriptors inst mp.spans mp.spans_are;
        threads = seen;
        heap = refl;
      },
    )

-- Where the legos' methods keep to the operations of the executable and there is a thread for each
-- processor, an image that `gen_bytecode` returns is read, by the layout that its comment
-- documents, as those of an executable that the operations built: the address of the hole of each
-- pointer, in ascending order, a span for the hole of each descriptor and for nothing else, one for
-- each address and in ascending order, the syscalls of every thread with their holes and what is to be
-- copied before them, and the heap.
pub gen_bytecode-IsImage :
    (class : LegoClass) (syscalls main : Thread) (subs : List Thread) (inst : Executable)
    (bytes : Bytes)
    → IsBuilding class
    → gen_bytecode class (length subs) syscalls main subs ≡ ok (inst, bytes)
    → Reach inst
      × ((image : Image) × (read_image bytes ≡ some image) × IsImage inst main subs image)
unfolding gen_bytecode
gen_bytecode-IsImage class syscalls main subs inst bytes building e =
    let (built, laid, e₁) = >>=-eq-ok (blob_all class (map without_ident syscalls) init) _ e in
    let (_, checked, e₂) = >>=-eq-ok (check_inst built) _ e₁ in
    let (image, made, e₃) = >>=-eq-ok (gen_image built (length subs) main subs) _ e₂ in
    let same : built ≡ inst = ap (λ (r : Executable × Bytes). r.0) (ok-inj e₃) in
    let bytes_same : image ≡ bytes = ap (λ (r : Executable × Bytes). r.1) (ok-inj e₃) in
    rw (← same, ← bytes_same)
      (
        blob_all-Builds class building (map without_ident syscalls) init built start laid,
        gen_image-IsImage built main subs image made,
      )
