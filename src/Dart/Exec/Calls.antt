-- ===== src/Dart/Exec/Calls.antt =====
-- script/dart.py: `log_exec_func_enter` and `log_exec_func_exit` as a pair.
use krace.Prelude.{
  ℕ, ◌≡◌, refl, ap, ◌∙◌, some, List, [], ◌∷◌, ◌++◌, ==_refl, get_elem?, last?, drop_last,
}
use krace.Dict.{lookup, insert}
use krace.Dict.Key.{nat_eq}
use krace.Dict.Laws.{lookup-insert_self, insert-insert, insert_same}
use krace.Dart.CtxtType.{LogMeta}
use krace.Dart.ExecUnit.{ExecUnit}
use krace.Dart.Compdb.{CompileDatabase, ValueFunc}
use krace.Dart.State.{Analyzer, TaskState, Note}
use krace.Dart.State.Monad.{
  done, pure, check, fetch, fetch_last, or_raise, modify, load, get_task, put_task, ◌>>=◌, ◌>>◌,
}
use krace.Dart.State.Notes.{note, record_note, record_func_init, record_func_fini}
use krace.Dart.State.Console.{with_console, console_of}
use krace.Dart.Exec.{log_exec_func_enter, log_exec_func_exit}

module _ {ℓ} {A : Type ℓ} where
  last?-append : (xs : List A) (x : A) → last? (xs ++ x ∷ []) ≡ some x
  last?-append [] x = refl
  last?-append (y ∷ []) x = refl
  last?-append (y ∷ z ∷ ys) x = last?-append (z ∷ ys) x

  drop_last-append : (xs : List A) (x : A) → drop_last (xs ++ x ∷ []) ≡ xs
  drop_last-append [] x = refl
  drop_last-append (y ∷ []) x = refl
  drop_last-append (y ∷ z ∷ ys) x = ap (λ l. y ∷ l) (drop_last-append (z ∷ ys) x)

-- The state in which the task has this stack
abbrev with_stack : ℕ → TaskState → List ValueFunc → Analyzer → Analyzer
with_stack ptid t stack s = record s { tasks = insert ptid (record t { stack = stack }) s.tasks }

module _ (db : CompileDatabase) (meta : LogMeta) (func : ValueFunc) (u : ExecUnit)
    (known : lookup meta.hval db.funcs ≡ some func) where
  log_exec_func_enter-done :
      (t : TaskState) (s : Analyzer)
      → lookup meta.ptid s.tasks ≡ some t
      → get_elem? s.units t.unit ≡ some u
      → (lines : List Note) × (log_exec_func_enter db meta s
          ≡ done tt (with_console (with_stack meta.ptid t (t.stack ++ func ∷ []) s) lines))
  unfolding log_exec_func_enter record_func_init note record_note fetch or_raise pure get_task
      put_task modify load console_of ◌>>=◌
  log_exec_func_enter-done t s e eu =
      (console_of (log_exec_func_enter db meta s), rw (known, e, lookup-insert_self, eu))

  log_exec_func_exit-done :
      (t : TaskState) (stack : List ValueFunc) (s : Analyzer)
      → lookup meta.ptid s.tasks ≡ some (record t { stack = stack ++ func ∷ [] })
      → get_elem? s.units t.unit ≡ some u
      → (lines : List Note) × (log_exec_func_exit db meta s
          ≡ done tt (with_console (with_stack meta.ptid t stack s) lines))
  unfolding log_exec_func_exit record_func_fini note record_note fetch fetch_last or_raise pure
      check get_task put_task modify load console_of ◌>>=◌
  log_exec_func_exit-done t stack s e eu = (
    console_of (log_exec_func_exit db meta s),
    rw (known, e, last?-append stack func, ==_refl func.hval, eu, drop_last-append stack func),
  )

-- A call of a function that the database knows, and its return, leave the state as it was but for
-- the console, where the task runs on a unit: neither handler raises.
pub func_enter_exit :
    (db : CompileDatabase) (meta : LogMeta) (info' : ℕ) (func : ValueFunc) (t : TaskState)
    (u : ExecUnit) (s : Analyzer)
    → lookup meta.hval db.funcs ≡ some func
    → lookup meta.ptid s.tasks ≡ some t
    → get_elem? s.units t.unit ≡ some u
    → (lines : List Note) × ((log_exec_func_enter db meta
            >> log_exec_func_exit db (record meta { info = info' }))
          s
        ≡ done tt (with_console s lines))
func_enter_exit db meta info' func t u s known e eu =
    let (first, enters) = log_exec_func_enter-done db meta func u known t s e eu in
    let inside = with_console (with_stack meta.ptid t (t.stack ++ func ∷ []) s) first in
    let (lines, exits) =
      log_exec_func_exit-done db (record meta { info = info' }) func u known t t.stack inside
        (lookup-insert_self meta.ptid _ s.tasks) eu in
    let back : insert meta.ptid t inside.tasks ≡ s.tasks =
      rw insert-insert (insert_same meta.ptid t s.tasks e) in
    (
      lines,
      unfold ◌>>=◌ in
          rw enters (exits ∙ ap (λ d. done tt (record s { tasks = d; console = lines })) back),
    )
