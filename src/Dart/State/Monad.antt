-- ===== src/Dart/State/Monad.antt =====
-- Methods of `ExecAnalyzer`: they read and change its state, and may raise. The state at the raise
-- is kept, since `validate` reports the console of a failed run.
use krace.Prelude.{
  ℕ, Bool, true, false, Option, none, some, List, [], ◌∷◌, ◌++◌, String, length, get_elem?, set,
  last?,
}
use krace.Dict.{Dict, lookup, insert}
use krace.Dict.Key.{Eq, nat_eq}
use krace.Dart.ExecUnit.{Ref, ExecUnit, happens_before_in_task}
use krace.Dart.State.{Analyzer, TaskState}

-- `assert_failed` is `DartAssertFailure` with the fixed words of its message; the others are what
-- Python raises of itself. `dangling` stands for no exception: a reference always has its object.
pub data Failure : Type 0 where
  assert_failed : String → Failure
  key_error index_error struct_error recursion_error assertion_error dangling source_error : Failure

pub data Run (A : Type 0) : Type 0 where
  done : A → Analyzer → Run A
  raised : Failure → Analyzer → Run A

abbrev pub M : Type 0 → Type 0
M A = Analyzer → Run A

abbrev pub ⊤ : Type 0
⊤ = Unit {0}

module _ {A B : Type 0} where
  abbrev pub resume : Run A → (A → M B) → Run B
  resume (done a s) k = k a s
  resume (raised e s) k = raised e s

  infixl 5 ◌>>=◌
  unfoldable pub ◌>>=◌ : M A → (A → M B) → M B
  ◌>>=◌ m k s = resume (m s) k

module _ {B : Type 0} where
  infixl 5 ◌>>◌
  abbrev pub ◌>>◌ : M ⊤ → M B → M B
  m >> k = m >>= λ _. k

module _ {A : Type 0} where
  unfoldable pub pure : A → M A
  pure a s = done a s

  unfoldable pub raise : Failure → M A
  raise e s = raised e s

  unfoldable pub gets : (Analyzer → A) → M A
  gets f s = done (f s) s

  -- A value that Python finds missing raises.
  unfoldable pub or_raise : Failure → Option A → M A
  or_raise e none = raise e
  or_raise e (some a) = pure a

unfoldable pub modify : (Analyzer → Analyzer) → M ⊤
modify f s = done tt (f s)

-- `ExecAnalyzer._assert`
unfoldable pub check : Bool → String → M ⊤
check true message = pure tt
check false message = raise (assert_failed message)

unfoldable pub when : Bool → M ⊤ → M ⊤
when true m = m
when false m = pure tt

-- `d[k]`
unfoldable pub fetch {κ} : {K : Type κ} {V : Type 0} ⦃e : Eq K⦄ → K → Dict K V → M V
fetch k d = or_raise key_error (lookup k d)

-- `xs[-1]`
unfoldable pub fetch_last : {A : Type 0} → List A → M A
fetch_last xs = or_raise index_error (last? xs)

-- The object behind a reference, a write to it, and a new object.
unfoldable pub load : Ref → M ExecUnit
load r s = or_raise dangling (get_elem? s.units r) s

unfoldable pub store : Ref → ExecUnit → M ⊤
store r u = modify (λ s. record s { units = set s.units r u })

unfoldable pub alloc : ExecUnit → M Ref
alloc u s = done (length s.units) (record s { units = s.units ++ u ∷ [] })

-- `unit.clone()`
unfoldable pub clone : Ref → M Ref
clone r = do u ← load r; alloc u

-- `self.tasks[ptid]`, and a write to the task's fields
unfoldable pub get_task : ℕ → M TaskState
get_task ptid s = fetch ptid s.tasks s

unfoldable pub put_task : ℕ → TaskState → M ⊤
put_task ptid task = modify (λ s. record s { tasks = insert ptid task s.tasks })

-- The body of `ExecUnit.add_dep`, where `mine` is the dependency known for the task of `dep`.
unfoldable pub later_dep : Ref → ExecUnit → Ref → ExecUnit → Option Ref → M ⊤
later_dep self u dep d none = store self (record u { deps = insert d.ptid dep u.deps })
later_dep self u dep d (some mine) = do
  old ← load mine
  when (happens_before_in_task old d) (store self (record u { deps = insert d.ptid dep u.deps }))

-- `ExecUnit.add_dep`
unfoldable pub add_dep : Ref → Ref → M ⊤
add_dep self dep = do u ← load self; d ← load dep; later_dep self u dep d (lookup d.ptid u.deps)
