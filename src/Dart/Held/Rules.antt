-- ===== src/Dart/Held/Rules.antt =====
-- script/dart.py: methods of the analyzer that keep the lock tables of all tasks well-formed, one
-- rule for each way to build a method.
use krace.Prelude.{
  ℕ, ◌≡◌, refl, String, get_elem?, Bool, true, false, Option, none, some, List, ◌==◌, Bool-cases,
  inl, inr, if◌then◌else◌, ap, sym, ◌∙◌,
}
use mathlib.Core.Path.{subst}
use krace.Dict.{Dict, lookup}
use krace.Dict.Key.{Eq, nat_eq}
use krace.Dict.Laws.{lookup-insert}
use krace.Dart.Locks.{LockMap, TranMap}
use krace.Dart.Locks.Depth.{IsHeld}
use krace.Dart.ExecUnit.{Ref, ExecUnit}
use krace.Dart.State.{Analyzer, TaskState, create_task}
use krace.Dart.State.Monad.{
  resume, key_error, dangling, M, ⊤, Run, done, raised, Failure, pure, raise, gets, modify, check,
  when, or_raise, fetch, fetch_last, load, store, alloc, clone, get_task, put_task, later_dep,
  add_dep, ◌>>=◌,
}

-- Every lock in the tables has a positive depth and stands once.
pub record AreHeld (locks : LockMap) (trans : TranMap) : Type 0 where
  pub readers : IsHeld locks.locks_r
  pub writers : IsHeld locks.locks_w
  pub sequences : IsHeld trans.locks_w

abbrev pub TaskHeld : TaskState → Type 0
TaskHeld t = AreHeld t.sync_locks t.sync_trans

-- Every task of the analyzer has such tables.
pub record AllHeld (s : Analyzer) : Type 0 where
  pub each : (ptid : ℕ) (t : TaskState) → lookup ptid s.tasks ≡ some t → TaskHeld t

module _ {A : Type 0} where
  abbrev pub Ended : Run A → Type 0
  Ended (done a s) = AllHeld s
  Ended (raised e s) = AllHeld s

  -- The method keeps the tables, whether it returns or raises.
  pub record Keeps (m : M A) : Type 0 where
    pub at : (s : Analyzer) → AllHeld s → Ended (m s)

abbrev pub Given : Run TaskState → Type 0
Given (done t s) = AllHeld s × TaskHeld t
Given (raised e s) = AllHeld s

-- So does this one, and the task that it returns has such tables.
pub record Gives (m : M TaskState) : Type 0 where
  pub at : (s : Analyzer) → AllHeld s → Given (m s)

same_tasks : (s s' : Analyzer) → s'.tasks ≡ s.tasks → AllHeld s → AllHeld s'
same_tasks s s' e h = record {
  each = λ ptid t k. h.each ptid t (sym (ap (λ d. lookup ptid d) e) ∙ k);
}

module _ {A : Type 0} where
  pub Keeps-pure : (a : A) → Keeps (pure a)
  unfolding pure
  Keeps-pure a = record { at = λ s h. h }

  pub Keeps-raise : (e : Failure) → Keeps (raise {A = A} e)
  unfolding raise
  Keeps-raise e = record { at = λ s h. h }

  pub Keeps-gets : (f : Analyzer → A) → Keeps (gets f)
  unfolding gets
  Keeps-gets f = record { at = λ s h. h }

  pub Keeps-or_raise : (e : Failure) (o : Option A) → Keeps (or_raise e o)
  unfolding or_raise
  Keeps-or_raise e none = Keeps-raise e
  Keeps-or_raise e (some a) = Keeps-pure a

  pub Keeps-if : (b : Bool) (m n : M A) → Keeps m → Keeps n → Keeps (if b then m else n)
  Keeps-if true m n km kn = km
  Keeps-if false m n km kn = kn

  pub Keeps-fetch_last : (xs : List A) → Keeps (fetch_last xs)
  unfolding fetch_last
  Keeps-fetch_last xs = Keeps-or_raise _ _

  pub Keeps-fetch {κ} : {K : Type κ} ⦃e : Eq K⦄ (k : K) (d : Dict K A) → Keeps (fetch k d)
  unfolding fetch
  Keeps-fetch k d = Keeps-or_raise _ _

pub Keeps-modify :
    (f : Analyzer → Analyzer) → ((s : Analyzer) → (f s).tasks ≡ s.tasks) → Keeps (modify f)
unfolding modify
Keeps-modify f same = record { at = λ s h. same_tasks s (f s) (same s) h }

module _ {A B : Type 0} where
  resumed : (r : Run A) (k : A → M B) → Ended r → ((a : A) → Keeps (k a)) → (Ended (resume r k))
  resumed (done a s) k h kk = (kk a).at s h
  resumed (raised e s) k h kk = h

  pub Keeps-bind : (m : M A) (k : A → M B) → Keeps m → ((a : A) → Keeps (k a)) → Keeps (m >>= k)
  unfolding ◌>>=◌
  Keeps-bind m k km kk = record { at = λ s h. resumed (m s) k (km.at s h) kk }

module _ {B : Type 0} where
  resumed_task :
      (r : Run TaskState) (k : TaskState → M B)
      → Given r
      → ((t : TaskState) → TaskHeld t → Keeps (k t))
      → Ended (resume r k)
  resumed_task (done t s) k h kk = (kk t h.1).at s h.0
  resumed_task (raised e s) k h kk = h

  pub Keeps-bind_task :
      (m : M TaskState) (k : TaskState → M B)
      → Gives m
      → ((t : TaskState) → TaskHeld t → Keeps (k t))
      → Keeps (m >>= k)
  unfolding ◌>>=◌
  Keeps-bind_task m k gm kk = record { at = λ s h. resumed_task (m s) k (gm.at s h) kk }

module _ {A : Type 0} where
  next_task :
      (r : Run A) (k : A → M TaskState) → Ended r → ((a : A) → Gives (k a)) → Given (resume r k)
  next_task (done a s) k h gk = (gk a).at s h
  next_task (raised e s) k h gk = h

  pub Gives-bind :
      (m : M A) (k : A → M TaskState) → Keeps m → ((a : A) → Gives (k a)) → Gives (m >>= k)
  unfolding ◌>>=◌
  Gives-bind m k km gk = record { at = λ s h. next_task (m s) k (km.at s h) gk }

task_after :
    (r : Run TaskState) (k : TaskState → M TaskState)
    → Given r
    → ((t : TaskState) → TaskHeld t → Gives (k t))
    → Given (resume r k)
task_after (done t s) k h gk = (gk t h.1).at s h.0
task_after (raised e s) k h gk = h

pub Gives-bind_task :
    (m : M TaskState) (k : TaskState → M TaskState)
    → Gives m
    → ((t : TaskState) → TaskHeld t → Gives (k t))
    → Gives (m >>= k)
unfolding ◌>>=◌
Gives-bind_task m k gm gk = record { at = λ s h. task_after (m s) k (gm.at s h) gk }

pub Gives-get_task : (ptid : ℕ) → Gives (get_task ptid)
unfolding get_task fetch or_raise pure raise
Gives-get_task ptid = record { at = λ s h. found s h (lookup ptid s.tasks) refl }
  where
    found :
        (s : Analyzer)
        → AllHeld s
        → (o : Option TaskState) → lookup ptid s.tasks ≡ o
        → Given (or_raise key_error o s)
    found s h none e = h
    found s h (some t) e = (h, h.each ptid t e)

pub Keeps-put_task : (ptid : ℕ) (t : TaskState) → TaskHeld t → Keeps (put_task ptid t)
unfolding put_task modify
Keeps-put_task ptid t held = record {
  at = λ s h. record {
    each = λ p t' e. elim (Bool-cases (ptid == p)) [
      | inl same ↦ subst (λ x. TaskHeld x) (same_entry t' (rw (lookup-insert, same) at e)) held
      | inr apart ↦ h.each p t' (rw (lookup-insert, apart) at e)
    ];
  };
}
  where
    same_entry : (t' : TaskState) → some t ≡ some t' → t ≡ t'
    same_entry t' e = cc

pub Keeps-check : (b : Bool) (message : String) → Keeps (check b message)
unfolding check
Keeps-check true message = Keeps-pure tt
Keeps-check false message = Keeps-raise _

pub Keeps-when : (b : Bool) (m : M ⊤) → Keeps m → Keeps (when b m)
unfolding when
Keeps-when true m km = km
Keeps-when false m km = Keeps-pure tt

pub Keeps-load : (r : Ref) → Keeps (load r)
unfolding load
Keeps-load r = record { at = λ s h. (Keeps-or_raise dangling (get_elem? s.units r)).at s h }

pub Keeps-store : (r : Ref) (u : ExecUnit) → Keeps (store r u)
unfolding store
Keeps-store r u = Keeps-modify _ (λ s. refl)

pub Keeps-alloc : (u : ExecUnit) → Keeps (alloc u)
unfolding alloc
Keeps-alloc u = record { at = λ s h. same_tasks s _ refl h }

pub Keeps-clone : (r : Ref) → Keeps (clone r)
unfolding clone
Keeps-clone r = Keeps-bind _ _ (Keeps-load r) (λ u. Keeps-alloc u)

pub ruleset held_rules = (
  Keeps-pure, Keeps-raise, Keeps-gets, Keeps-or_raise, Keeps-if, Keeps-fetch_last, Keeps-fetch,
  Keeps-bind, Keeps-bind_task, Gives-bind, Gives-bind_task, Gives-get_task, Keeps-put_task,
  Keeps-check, Keeps-when, Keeps-load, Keeps-store, Keeps-alloc, Keeps-clone,
)

later_dep-Keeps :
    (self : Ref) (u : ExecUnit) (dep : Ref) (d : ExecUnit) (o : Option Ref)
    → Keeps (later_dep self u dep d o)
unfolding later_dep
later_dep-Keeps self u dep d none = search held_rules
later_dep-Keeps self u dep d (some mine) = search held_rules

pub add_dep-Keeps : (self dep : Ref) → Keeps (add_dep self dep)
unfolding add_dep
add_dep-Keeps self dep = search (held_rules, later_dep-Keeps)

pub TaskHeld-create_task : (unit : Ref) → TaskHeld (create_task unit)
unfolding create_task
TaskHeld-create_task unit = record { readers = tt; writers = tt; sequences = tt }

pub ruleset keeps_rules = (held_rules, Keeps-modify, add_dep-Keeps, TaskHeld-create_task)
