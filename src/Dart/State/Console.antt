-- ===== src/Dart/State/Console.antt =====
-- script/dart.py: the console of a run, which the `_record_*` methods write and nothing reads back.
use krace.Prelude.{ℕ, ◌≡◌, some, List, String, get_elem?}
use krace.Dart.CtxtType.{LogMeta}
use krace.Dart.ExecUnit.{ExecUnit}
use krace.Dart.State.{Analyzer, TaskState, Note}
use krace.Dart.State.Monad.{⊤, Run, done, raised, modify, load, or_raise, pure, ◌>>=◌}
use krace.Dart.State.Notes.{note, record_note}

abbrev pub with_console : Analyzer → List Note → Analyzer
with_console s c = record s { console = c }

-- The console that a run leaves
unfoldable pub console_of : Run ⊤ → List Note
console_of (done r s) = s.console
console_of (raised e s) = s.console

-- A line for a task whose unit is known is added, and nothing else happens.
pub note-done :
    (mark : String) (meta : LogMeta) (t : TaskState) (numbers : List ℕ) (texts : List String)
    (s : Analyzer) (u : ExecUnit)
    → get_elem? s.units t.unit ≡ some u
    → (lines : List Note) × (note mark meta t numbers texts s ≡ done tt (with_console s lines))
unfolding note record_note modify load or_raise pure ◌>>=◌ console_of
note-done mark meta t numbers texts s u e = (console_of (note mark meta t numbers texts s), rw e)
