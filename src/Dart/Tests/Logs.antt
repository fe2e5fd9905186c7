-- ===== src/Dart/Tests/Logs.antt =====
-- Whole logs: a launch, a system call without an access, and the end.
use krace.Prelude.{some, ℕ, ◌≡◌, ◌↔◌, List, [], ◌++◌}
use krace.Bytes.{pack}
use krace.Dart.LogType.{LogType, value}
use krace.Dart.Compdb.{CompileDatabase}
use krace.Dart.State.{Note, init}
use krace.Dart.State.Monad.{◌>>=◌}
use krace.Dart.Replay.{ledger, validate, process_log, iterate}
use krace.Dart.Replay.Ledger.{IsReplayed, validate-IsReplayed}
use krace.Dart.Held.Rules.{Ended}
use krace.Dart.Held.Replay.{iterate-AllHeld}

abbrev db : CompileDatabase
db = record { read_source = λ loc. some "{kernel}"; insts = []; funcs = []; blocks = [] }

abbrev entry : LogType → ℕ → ℕ → List ℕ
entry code ptid hval = pack 4 (value code) ++ pack 4 ptid ++ pack 8 0 ++ pack 8 hval

-- Four entries of 24 bytes
abbrev file : List ℕ
file =
    pack 8 4
    ++ pack 8 96
    ++ entry LogType.sys_launch 7 0
    ++ entry LogType.ctxt_syscall_enter 9 3
    ++ entry LogType.ctxt_syscall_exit 9 3
    ++ entry LogType.sys_finish 7 0

validate-IsReplayed_example :
    ((lines : List Note) × (validate db 10 file ≡ ledger lines)) ↔ IsReplayed db 10 file
validate-IsReplayed_example = validate-IsReplayed db 10 file

iterate-AllHeld_example :
    Ended ((process_log db 10 >>= λ (n, size). iterate db 10 0 n n) (init file))
iterate-AllHeld_example = iterate-AllHeld db 10 file
