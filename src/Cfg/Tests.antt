-- ===== src/Cfg/Tests.antt =====
-- A function of four blocks, one of them a loop: its graph is read and walked.
use krace.Prelude.{Bool, ℕ, ◌≡◌, refl, true, none, some, List, [], ◌∷◌, ◌↔◌, has}
use krace.Dict.{keys, lookup, insert}
use krace.Spec.Result.{or_raise, Result, ok, raised, assertion, key_error, check, ◌>>=◌}
use krace.Cfg.{BlockLog, Func, read_func, show_cfg, visit_succs, succs_of}
use krace.Dict.Keys.{AreDistinct}
use krace.Cfg.Shown.{Reached, show_cfg-Reached}
use krace.Cfg.Edges.{IsWired}
use krace.Cfg.Ends.{IsGraph, read_func-IsGraph}

abbrev log : ℕ → List ℕ → List ℕ → BlockLog
log hash pred succ = record { hash = hash; pred = pred; succ = succ; inst = [] }

-- 1 → 2, 2 → 3, 3 → 2, 2 → 4
abbrev logs : List BlockLog
logs =
    log 1 [] (2 ∷ [])
    ∷ log 2 (1 ∷ 3 ∷ []) (3 ∷ 4 ∷ [])
    ∷ log 3 (2 ∷ []) (2 ∷ [])
    ∷ log 4 (2 ∷ []) []
    ∷ []

abbrev func_of : Result Func → Func
func_of (ok func) = func
func_of (raised failure) = record { blocks = []; entry = none; exits = [] }

unfoldable func : Func
unfolding read_func ◌>>=◌ or_raise lookup insert check
func = func_of (read_func logs)

read_exits : func.exits ≡ 4 ∷ []
unfolding func
read_exits = refl

read_twice : read_func (log 1 [] [] ∷ log 2 [] [] ∷ []) ≡ raised assertion
unfolding read_func ◌>>=◌ or_raise lookup insert check
read_twice = refl

unknown_pred : read_func (log 1 (7 ∷ []) [] ∷ []) ≡ raised key_error
unfolding read_func ◌>>=◌ or_raise lookup insert check
unknown_pred = refl

wrong_succ : read_func (log 1 [] (2 ∷ []) ∷ log 2 [] [] ∷ []) ≡ raised assertion
unfolding read_func ◌>>=◌ or_raise lookup insert check
wrong_succ = refl

read_logs : read_func logs ≡ ok func
unfolding func read_func ◌>>=◌ or_raise lookup insert check
read_logs = refl

read_func-IsGraph_example : (e : ℕ) × IsGraph logs func e
read_func-IsGraph_example = read_func-IsGraph logs func read_logs

func-IsWired : IsWired func.blocks
func-IsWired = (read_func-IsGraph logs func read_logs).1.wired

show_cfg-Reached_example :
    (shown : List ℕ) × (complete : Bool) × (show_cfg func.blocks 1 ≡ some (shown, check complete))
    × AreDistinct shown
    × ((x : ℕ) → (has x shown ≡ true) ↔ Reached func.blocks 1 x)
    × ((complete ≡ true) ↔ ((x : ℕ) → has x (keys func.blocks) ≡ true → Reached func.blocks 1 x))
unfolding func
show_cfg-Reached_example =
    show_cfg-Reached func.blocks 1 func-IsWired.distinct func-IsWired.closed refl

shown_order : show_cfg func.blocks 1 ≡ some (1 ∷ 2 ∷ 3 ∷ 4 ∷ [], ok tt)
unfolding func show_cfg check ◌>>=◌ visit_succs succs_of
shown_order = refl

-- From the third block, the entry is not reached; what is reached is printed before the assertion.
incomplete : show_cfg func.blocks 3 ≡ some (3 ∷ 2 ∷ 4 ∷ [], raised assertion)
unfolding func show_cfg check ◌>>=◌ visit_succs succs_of
incomplete = refl
