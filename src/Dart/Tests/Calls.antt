-- ===== src/Dart/Tests/Calls.antt =====
-- A task calls a function of the compile database and returns.
use krace.Prelude.{some, ◌≡◌, refl, List, [], ◌∷◌}
use krace.Dict.{lookup}
use krace.Dart.CtxtType.{LogMeta}
use krace.Dart.ExecUnit.{create}
use krace.Dart.Compdb.{CompileDatabase, ValueFunc}
use krace.Dart.State.{Analyzer, Note, init, create_task}
use krace.Dart.State.Monad.{done, ◌>>◌}
use krace.Dart.State.Console.{with_console}
use krace.Dart.Exec.{log_exec_func_enter, log_exec_func_exit}
use krace.Dart.Exec.Calls.{func_enter_exit}

abbrev called : ValueFunc
called = record { hval = 30; name = "btrfs_sync_file" }

abbrev db : CompileDatabase
db = record {
  read_source = λ loc. some "{kernel}";
  insts = [];
  funcs = (30, called) ∷ [];
  blocks = [];
}

abbrev start : Analyzer
start = init []

abbrev meta : LogMeta
meta = record { info = 0; ptid = 0; hval = 30 }

func_enter_exit_example :
    (lines : List Note) × ((log_exec_func_enter db meta
          >> log_exec_func_exit db (record meta { info = 1 }))
        start
      ≡ done tt (with_console start lines))
func_enter_exit_example =
    func_enter_exit db meta 1 called (create_task 0) (create 0) start (unfold lookup in refl)
      (unfold init lookup in refl) (unfold init in refl)
