-- ===== src/Dart/State/Notes.antt =====
-- script/dart.py: the lines that `ExecAnalyzer._record` adds to the console, one function for each
-- `_record_*` method; `hex`, the layout of the text and the printing of a line are left out.
use krace.Prelude.{ℕ, ◌-◌, List, [], ◌∷◌, ◌++◌, String, length}
use krace.Dart.CtxtType.{LogMeta, CtxtType, task, softirq, hardirq, nmi, ctxt}
use krace.Dart.Compdb.{ValueFunc}
use krace.Dart.State.{TaskState, Note}
use krace.Dart.State.Monad.{M, ⊤, modify, load, ◌>>=◌}

-- `CtxtType.name`
abbrev pub ctxt_name : CtxtType → String
ctxt_name task = "TASK"
ctxt_name softirq = "SOFTIRQ"
ctxt_name hardirq = "HARDIRQ"
ctxt_name nmi = "NMI"

-- The indentation by `_tab`.
unfoldable pub tab : List ValueFunc → ℕ
tab stack = length stack - 1

-- `ExecAnalyzer._record`
unfoldable pub record_note : Note → M ⊤
record_note n = modify (λ s. record s { console = s.console ++ n ∷ [] })

unfoldable pub record_divider : M ⊤
record_divider = record_note (record { mark = "-"; depth = 0; numbers = []; texts = [] })

-- What the methods below share: the line begins with the task's id and its unit's sequence number.
unfoldable pub note : String → LogMeta → TaskState → List ℕ → List String → M ⊤
note mark meta t numbers texts = do
  u ← load t.unit
  record_note (record {
    mark = mark;
    depth = tab t.stack;
    numbers = meta.ptid ∷ u.seq ∷ numbers;
    texts = texts;
  })

unfoldable pub record_warning : LogMeta → TaskState → List ℕ → String → M ⊤
record_warning meta t numbers msg =
    note "[!]" meta t (meta.hval ∷ numbers) (ctxt_name (ctxt meta) ∷ msg ∷ [])

unfoldable pub record_ctxt_init : LogMeta → TaskState → String → M ⊤
record_ctxt_init meta t kind =
    note "|=>" meta t (meta.hval ∷ []) (ctxt_name (ctxt meta) ∷ kind ∷ [])

unfoldable pub record_ctxt_fini : LogMeta → TaskState → String → M ⊤
record_ctxt_fini meta t kind =
    note "|<=" meta t (meta.hval ∷ []) (ctxt_name (ctxt meta) ∷ kind ∷ [])

unfoldable pub record_func_init : LogMeta → TaskState → ValueFunc → M ⊤
record_func_init meta t func = note "|->" meta t [] (func.name ∷ [])

unfoldable pub record_func_fini : LogMeta → TaskState → ValueFunc → M ⊤
record_func_fini meta t func = note "|<-" meta t [] (func.name ∷ [])

unfoldable pub record_async_register : LogMeta → TaskState → ℕ → String → M ⊤
record_async_register meta t func kind = note "<->" meta t (meta.hval ∷ func ∷ []) (kind ∷ [])

unfoldable pub record_async_cancel : LogMeta → TaskState → ℕ → String → M ⊤
record_async_cancel meta t func kind = note ">-<" meta t (meta.hval ∷ func ∷ []) (kind ∷ [])

unfoldable pub record_async_attach : LogMeta → TaskState → ℕ → String → M ⊤
record_async_attach meta t func kind = note ">->" meta t (meta.hval ∷ func ∷ []) (kind ∷ [])

unfoldable pub record_event_arrive : LogMeta → TaskState → String → M ⊤
record_event_arrive meta t kind = note "<+>" meta t (meta.hval ∷ []) (kind ∷ [])

unfoldable pub record_event_pass : LogMeta → TaskState → String → M ⊤
record_event_pass meta t kind = note ">+<" meta t (meta.hval ∷ []) (kind ∷ [])

unfoldable pub record_cov_edge : LogMeta → TaskState → M ⊤
record_cov_edge meta t = note "---" meta t (meta.hval ∷ []) []

unfoldable pub record_mem_add : LogMeta → TaskState → ℕ → ℕ → String → M ⊤
record_mem_add meta t addr size kind = note "+++" meta t (addr ∷ size ∷ []) (kind ∷ "+" ∷ [])

unfoldable pub record_mem_del : LogMeta → TaskState → ℕ → ℕ → String → M ⊤
record_mem_del meta t addr size kind = note "+++" meta t (addr ∷ size ∷ []) (kind ∷ "-" ∷ [])

unfoldable pub record_mem_reader : LogMeta → TaskState → ℕ → ℕ → M ⊤
record_mem_reader meta t addr size = note "+++" meta t (addr ∷ size ∷ meta.hval ∷ []) ("R:" ∷ [])

unfoldable pub record_mem_writer : LogMeta → TaskState → ℕ → ℕ → M ⊤
record_mem_writer meta t addr size = note "+++" meta t (addr ∷ size ∷ meta.hval ∷ []) ("W:" ∷ [])

unfoldable pub record_sync_lock_acquire : LogMeta → TaskState → String → ℕ → String → M ⊤
record_sync_lock_acquire meta t rw lock kind = note "|+|" meta t (lock ∷ []) (rw ∷ kind ∷ [])

unfoldable pub record_sync_lock_release : LogMeta → TaskState → String → ℕ → String → M ⊤
record_sync_lock_release meta t rw lock kind = note "|-|" meta t (lock ∷ []) (rw ∷ kind ∷ [])

unfoldable pub record_queue_prefix : LogMeta → TaskState → String → M ⊤
record_queue_prefix meta t kind = note "+=>" meta t (meta.hval ∷ []) (kind ∷ [])

unfoldable pub record_queue_suffix : LogMeta → TaskState → String → M ⊤
record_queue_suffix meta t kind = note "<=+" meta t (meta.hval ∷ []) (kind ∷ [])

unfoldable pub record_order_prefix : LogMeta → TaskState → ℕ → String → M ⊤
record_order_prefix meta t addr kind = note "+->" meta t (addr ∷ []) (kind ∷ [])

unfoldable pub record_order_suffix : LogMeta → TaskState → ℕ → String → M ⊤
record_order_suffix meta t addr kind = note "<-+" meta t (addr ∷ []) (kind ∷ [])
