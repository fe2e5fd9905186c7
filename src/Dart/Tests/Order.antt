-- ===== src/Dart/Tests/Order.antt =====
-- A unit gets a later dependency on a task, and a callback goes to the background and comes back.
use krace.Prelude.{ℕ, zero, suc, ◌≡◌, refl, none, some, [], ◌∷◌, arith, get_elem?}
use krace.Dict.{lookup}
use krace.Dict.Key.{nat_eq}
use krace.Dart.CtxtType.{LogMeta}
use krace.Dart.ExecUnit.{Ref, ExecUnit, create}
use krace.Dart.ExecUnit.Before.{HappensBefore}
use krace.Dart.ExecUnit.Before.Depends.{add_dep-HappensBefore}
use krace.Dart.State.{Analyzer, AsyncSlot, init, create_task}
use krace.Dart.State.Monad.{done, add_dep}
use krace.Dart.Async.{log_exec_background, log_exec_foreground}
use krace.Dart.Async.Switch.{switched, background_foreground}

abbrev earlier : ExecUnit
earlier = record { ptid = 7; ctxt = none; base = none; seq = 1; clk = 3; deps = [] }

abbrev latest : ExecUnit
latest = record { ptid = 7; ctxt = none; base = none; seq = 2; clk = 1; deps = [] }

abbrev waiter : ExecUnit
waiter = record { ptid = 9; ctxt = none; base = none; seq = 0; clk = 1; deps = (7, 0) ∷ [] }

abbrev state : Analyzer
state = record (init []) { units = earlier ∷ waiter ∷ latest ∷ [] }

known :
    (mine : Ref)
    → lookup {K = ℕ} 7 waiter.deps ≡ some mine
    → (o : ExecUnit) × (get_elem? state.units mine ≡ some o) × (o.ptid ≡ 7)
unfolding lookup
known zero e = (earlier, refl, refl)
known (suc mine) e = absurd (ground arith)

add_dep-HappensBefore_example :
    (s' : Analyzer) × (add_dep 1 2 state ≡ done tt s') × HappensBefore s'.units latest 1
add_dep-HappensBefore_example =
    add_dep-HappensBefore 1 2 waiter latest state refl refl (omega arith) known

abbrev slot : AsyncSlot
slot = record { func = 0; unit = 0; others = []; serving = 4; host = some 1 }

abbrev stolen : Analyzer
stolen = record (init []) { units = create 0 ∷ create 0 ∷ []; async_slots = (6, slot) ∷ [] }

abbrev meta : LogMeta
meta = record { info = 0; ptid = 0; hval = 6 }

background_foreground_example :
    (log_exec_background meta stolen ≡ done tt (switched meta slot (create_task 0) 0 1 stolen))
    × (log_exec_foreground meta (switched meta slot (create_task 0) 0 1 stolen) ≡ done tt stolen)
unfolding create_task
background_foreground_example =
    background_foreground meta slot 1 (create_task 0) stolen (unfold lookup in refl) refl
      (unfold init lookup in refl)
