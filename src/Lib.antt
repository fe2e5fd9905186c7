-- ===== src/Lib.antt =====
-- krace: the analyzer of execution logs, script/dart.py, and the programs of system calls that are
-- executed, script/spec_basis.py.
--
-- A kernel that is instrumented by the compiler pass writes a log: system calls and other contexts
-- that begin and end, callbacks that are registered and run, events that are waited for, locks,
-- memory that is allocated, read and written. `ExecAnalyzer.validate` reads the header of a log, hands
-- its entries one by one to the handlers `log_*`, and checks at the end that nothing is left over. On
-- the way it orders the contexts by happens-before, keeps the locks that each task holds, and counts
-- as a race every pair of accesses to a byte that neither orders nor excuses.
--
-- Which file models which part of script/dart.py:
--   Dart/ExecUnit      `ExecUnit`: coordinates, `_happens_before` with its cache, `happens_before`
--   Dart/Locks         `_LockMapImpl`, `LockMap`, `_TranMapImpl`, `TranMap`
--   Dart/LogType       `LogType`; Dart/CtxtType: `CtxtType`, `LogMeta`, `SyncInfo`
--   Dart/State         the fields of `ExecAnalyzer`, `TaskState`, the slots, `MemAccess`, `MemCell`
--   Dart/State/Monad   `_assert`, exceptions, references, `clone`, `add_dep`
--   Dart/State/Notes   `_record_*`: one `Note` for each line of the console
--   Dart/Context       `_log_ctxt_enter_get_task` and its companions, direct contexts
--   Dart/Async         indirect contexts, `log_async_*`, `log_exec_background`, `log_exec_foreground`
--   Dart/Event         `log_event_*`, `log_order_*`; Dart/Sync: `log_sync_*`
--   Dart/Memory        `_log_mem_add`, `_log_mem_del` and what uses them
--   Dart/Race          `_log_mem_cell_reader`, `_log_mem_cell_writer`, `_record_race`
--   Dart/Exec          `log_sys_*`, `log_exec_func_*`, `log_cov_edge`
--   Dart/Replay        `process_log`, `iterate_log` and `validate`; Dart/Replay/Finish: the checks at
--                      the end of `iterate_log`
--   Dart/Compdb        what is read of script/racer_parse_compile_data.py
--   Bytes              Python's `struct.unpack` of little-endian unsigned integers, and reads of a file
--   Dict               Python's dictionaries, as lists of entries in the order of insertion
--   Dart/Held          what all handlers keep true of the lock tables, one module per handler module
-- The modules below each of these hold proofs about it. Dart/Tests runs the model at concrete inputs.
--
-- The programs that the kernel runs come from script/spec_basis.py. A `Program` keeps a sequence of
-- syscalls, partitioned into threads; its edits add, change and delete syscalls, whose arguments are
-- trees of legos. `gen_bytecode` lays the legos out in the holes of an `Executable`, fills them, and
-- writes the image that the executor loads; `inspect` takes the return values from the heap that comes
-- back. Which file models which part:
--   Spec/Pack          script/spec_pack.py, and the formats of `struct` that it names
--   Spec/Executable    `Hole` and `Executable`
--   Spec/Blob          `Lego.blob_hole`, `Lego.blob_fill`, `Syscall.blob`
--   Spec/Bytecode      `_pack_thread`, `gen_bytecode`; Spec/Bytecode/Reader is a reader of the layout
--                      that the comment of `gen_bytecode` documents
--   Spec/Program       the sequence and the threads of `Program`
--   Spec/Synopsis      `Synopsis`, `gen_synopsis`
--   Spec/Inspect       `_extract_retv`, `inspect`
--   Spec/Int           `KindSendInt`, `KindSendIntConst` and `KindSendIntRange` of
--                      script/spec_type_int.py
--   Spec/Result        values of code that may raise
-- Legos and syscalls are numbers, their identity. A hole is named by the lego that it was made for,
-- since `add_hole` makes one for each and nothing else makes any; so a write through a shared hole is
-- a write to its entry. Random draws are arguments. What the subclasses of `Lego` implement is a record
-- of functions, and what the legos of a syscall do to the repositories of a program changes an opaque
-- part of its state.
--
-- script/racer_parse_compile_data.py reads the log of the compiler: Cfg has the passes that build and
-- check the blocks of a function, `ValueFunc.set_entry`, `set_exits` and `show_cfg`. A block is the hash
-- under which its function has it. The loop of `show_cfg` runs on fuel, a round for each block.
--
-- script/fuzz_stat.py compares what was traced with the program that was run: Strace has
-- `StraceLedger`, which keeps the calls of each thread under its number.
--
-- How state and operations correspond. An execution unit is an object that tasks, slots, accesses and
-- other units share, so units live in a store and a `Ref` is an index into it: `clone` adds a copy at
-- the end, and a write through one reference is seen through all others. Tasks and slots have one owner,
-- the dictionary that holds them, and a handler that holds one over a call fetches it again afterwards;
-- the argument `task` of a handler is the entry of `tasks` at `meta.ptid`. A handler is a function in
-- the monad `M` of the state and of exceptions, in which the state at the raise is kept. Numbers are
-- unbounded, as in Python; those of the log have 4 or 8 bytes by `read_int`. Keys of dictionaries that
-- are sets of addresses are lists without repetition.
--
-- Bounds. `_happens_before` recurs over bases and dependencies; the number of nested calls that the
-- interpreter allows is the argument `limit`, and where it is used up the model raises `RecursionError`.
-- On a store without cycles any limit above the rank of the unit is enough. The loop of `show_cfg`
-- needs no more rounds than there are blocks. All other loops run over lists or over a count that is
-- known before.
--
-- Not modelled: the layout of the console as text (hexadecimal numbers, indentation, rulers); the log
-- of the process; `read_source_location` of script/util.py, which reads a line of a kernel source file
-- for the report of a race, is a function that the database carries, and its exceptions are one
-- `source_error`; the words of an assertion beyond their fixed part; the counters
-- `cov_*_incr`, which the analyzer never changes; the input of the compile
-- database (JSON, the regular expression of a location, the maps over all modules); of the
-- specifications, the subclasses of `Lego`, the kinds other than integers, the table of system calls
-- (data), and JSON input and output. The other parts of the repository (the rest of the fuzzing engine, viewers,
-- builds, the kernel and the compiler pass) have no model.
pub mod Prelude
pub mod Dict
pub mod Bytes
pub mod Dart
pub mod Spec
pub mod Cfg
pub mod Strace
