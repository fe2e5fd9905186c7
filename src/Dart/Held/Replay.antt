-- ===== src/Dart/Held/Replay.antt =====
-- script/dart.py: `iterate_log` keeps the lock tables well-formed over any log, entry by entry.
use krace.Prelude.{ℕ, zero, suc, ◌+◌, ◌≡◌, Option, none, some, List, ◌==◌, Bool-cases, inl, inr}
use krace.Dict.{lookup}
use krace.Dict.Key.{nat_eq}
use krace.Dart.CtxtType.{LogMeta}
use krace.Dart.LogType.{LogType}
use krace.Dart.Compdb.{CompileDatabase}
use krace.Dart.State.{TaskState, init, create_task}
use krace.Dart.State.Monad.{M, ⊤, ◌>>=◌}
use mathlib.Core.Path.{subst}
use krace.Dart.Replay.{
  read_int, read_q, skip, read_entry, early, switching, tick, late, unhandled, in_unit, in_task,
  dispatch, process_entry, process_log, iterate,
}
use krace.Dart.Held.Rules.{
  AllHeld, Ended, TaskHeld, Keeps, Keeps-bind, keeps_rules, TaskHeld-create_task,
}
use krace.Dart.Held.Context.{context_rules}
use krace.Dart.Held.Async.{async_rules}
use krace.Dart.Held.Callbacks.{callback_rules}
use krace.Dart.Held.Event.{event_rules}
use krace.Dart.Held.Sync.{sync_rules}
use krace.Dart.Held.Memory.{memory_rules}
use krace.Dart.Held.Race.{race_rules}
use krace.Dart.Held.Exec.{exec_rules}

read_int-Keeps : (n : ℕ) → Keeps (read_int n)
unfolding read_int
read_int-Keeps n = search keeps_rules depth 12

read_q-Keeps : Keeps read_q
unfolding read_q
read_q-Keeps = read_int-Keeps 8

skip-Keeps : (n : ℕ) → Keeps (skip n)
unfolding skip
skip-Keeps n = search keeps_rules

read_entry-Keeps : Keeps read_entry
unfolding read_entry
read_entry-Keeps = search (keeps_rules, read_int-Keeps) depth 24

-- The handler, where there is one, keeps the tables.
abbrev HandlerKeeps : Option (M ⊤) → Type 0
HandlerKeeps none = Unit
HandlerKeeps (some m) = Keeps m

early-Keeps : (i n : ℕ) (meta : LogMeta) (code : LogType) → HandlerKeeps (early i n meta code)
unfolding early
early-Keeps i n meta LogType.sys_launch = search (keeps_rules, exec_rules)
early-Keeps i n meta _ =
    search (
      keeps_rules, read_q-Keeps, exec_rules, context_rules, async_rules, callback_rules,
      event_rules,
    )

switching-Keeps : (meta : LogMeta) (code : LogType) → HandlerKeeps (switching meta code)
unfolding switching
switching-Keeps meta LogType.exec_background = search async_rules
switching-Keeps meta _ = search async_rules

tick-Keeps : (meta : LogMeta) → Keeps (tick meta)
unfolding tick
tick-Keeps meta = search keeps_rules depth 12

module _ (db : CompileDatabase) (limit : ℕ) where
  late-Keeps : (meta : LogMeta) (code : LogType) → HandlerKeeps (late db limit meta code)
  unfolding late
  late-Keeps meta LogType.exec_pause = search keeps_rules
  late-Keeps meta _ =
      search
        (
          keeps_rules, read_q-Keeps, skip-Keeps, exec_rules, async_rules, callback_rules,
          event_rules, sync_rules, memory_rules, race_rules,
        )
        depth 12

  unhandled-Keeps : (o : Option (M ⊤)) → HandlerKeeps o → Keeps (unhandled db limit o)
  unfolding unhandled
  unhandled-Keeps none h = search keeps_rules
  unhandled-Keeps (some m) h = search keeps_rules

  in_unit-Keeps : (meta : LogMeta) (code : LogType) → Keeps (in_unit db limit meta code)
  unfolding in_unit
  in_unit-Keeps meta code = search (keeps_rules, tick-Keeps, unhandled-Keeps, late-Keeps)

  in_task-Keeps :
      (meta : LogMeta) (code : LogType) (o : Option (M ⊤))
      → HandlerKeeps o
      → Keeps (in_task db limit meta code o)
  unfolding in_task
  in_task-Keeps meta code none h = in_unit-Keeps meta code
  in_task-Keeps meta code (some m) h = search keeps_rules

  dispatch-Keeps :
      (meta : LogMeta) (code : LogType) (o : Option (M ⊤))
      → HandlerKeeps o
      → Keeps (dispatch db limit meta code o)
  unfolding dispatch
  dispatch-Keeps meta code none h = search (keeps_rules, in_task-Keeps, switching-Keeps)
  dispatch-Keeps meta code (some m) h = search keeps_rules

  process_entry-Keeps : (i n : ℕ) → Keeps (process_entry db limit i n)
  unfolding process_entry
  process_entry-Keeps i n =
      Keeps-bind _ _ read_entry-Keeps
        (λ (code, meta). dispatch-Keeps meta code _ (early-Keeps i n meta code))

  process_log-Keeps : Keeps (process_log db limit)
  unfolding process_log
  process_log-Keeps = search (keeps_rules, read_q-Keeps)

  iterate-Keeps : (i n rounds : ℕ) → Keeps (iterate db limit i n rounds)
  unfolding iterate
  iterate-Keeps i n zero = search keeps_rules
  iterate-Keeps i n (suc rounds) =
      Keeps-bind _ _ (process_entry-Keeps i n)
        (λ missed. Keeps-bind _ _ (iterate-Keeps (i + 1) n rounds) (λ others. search keeps_rules))

AllHeld-init : (input : List ℕ) → AllHeld (init input)
unfolding init lookup
AllHeld-init input = record {
  each = λ ptid t e. elim (Bool-cases (0 == ptid)) [
    | inl same ↦ subst (λ x. TaskHeld x) (same_entry t (rw same at e)) (TaskHeld-create_task 0)
    | inr apart ↦ cc (rw apart at e)
  ];
}
  where
    same_entry : (t : TaskState) → some (create_task 0) ≡ some t → create_task 0 ≡ t
    same_entry t e = cc

-- Whatever the file holds and however the loop over its entries ends, by a return or by an
-- exception: in the table of every task, every lock that is held has a positive depth and stands
-- once.
pub iterate-AllHeld :
    (db : CompileDatabase) (limit : ℕ) (file : List ℕ)
    → Ended ((process_log db limit >>= λ (n, size). iterate db limit 0 n n) (init file))
iterate-AllHeld db limit file =
    (Keeps-bind _ _ (process_log-Keeps db limit) (λ (n, size). iterate-Keeps db limit 0 n n)).at
      (init file) (AllHeld-init file)
