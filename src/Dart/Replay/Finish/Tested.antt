-- ===== src/Dart/Replay/Finish/Tested.antt =====
-- Checks of the analyzer's state that change at most the console: each passes exactly when its
-- condition holds, and raises otherwise.
use krace.Prelude.{ℕ, ◌≡◌, ◌↔◌, refl, Bool, true, false, String, List, [], ◌∷◌}
use krace.Dict.{Dict}
use krace.Dart.State.{Analyzer, TaskState, Note}
use krace.Dart.State.Monad.{
  M, ⊤, Run, done, raised, Failure, assert_failed, pure, raise, gets, modify, check, when, ◌>>=◌,
  ◌>>◌,
}
use krace.Dart.State.Notes.{record_note, record_divider}
use krace.Dart.State.Console.{with_console}
use krace.Dart.Replay.Finish.{each_task}

-- A check of `Q` at `s` gave this result.
pub data Tested (Q : Type 0) (s : Analyzer) (result : Run ⊤) : Type 0 where
  passed : Q → (c : List Note) → result ≡ done tt (with_console s c) → Tested Q s result
  failed : ¬ Q → (e : Failure) (s' : Analyzer) → result ≡ raised e s' → Tested Q s result

module _ {s : Analyzer} where
  pub Tested-map :
      {P Q : Type 0} {result : Run ⊤} → (P → Q) → (Q → P) → Tested P s result → Tested Q s result
  Tested-map f g (passed p c e) = passed (f p) c e
  Tested-map f g (failed n x s' e) = failed (λ q. n (g q)) x s' e

  pub Tested-bind :
      {P Q : Type 0} (m k : M ⊤)
      → Tested P s (m s)
      → ((c : List Note) → Tested Q s (k (with_console s c)))
      → Tested (P × Q) s ((m >> k) s)
  Tested-bind {P} {Q} m k (passed p c e) next = go (next c)
    where
      go : Tested Q s (k (with_console s c)) → Tested (P × Q) s ((m >> k) s)
      go (passed q c' e') = passed (p, q) c' (unfold ◌>>=◌ in rw e e')
      go (failed n x s' e') = failed (λ both. n both.1) x s' (unfold ◌>>=◌ in rw e e')
  Tested-bind m k (failed n x s' e) next = failed (λ both. n both.0) x s' (unfold ◌>>=◌ in rw e)

  pub Tested-check :
      {Q : Type 0} (b : Bool) (message : String) → (b ≡ true) ↔ Q → Tested Q s (check b message s)
  unfolding check pure raise
  Tested-check true message iff = passed (iff.0 refl) s.console refl
  Tested-check false message iff = failed (λ q. cc (iff.1 q)) (assert_failed message) s refl

  pub Tested-note : (n : Note) → Tested ⊤ s (record_note n s)
  unfolding record_note modify
  Tested-note n = passed tt _ refl

  pub Tested-divider : Tested ⊤ s (record_divider s)
  unfolding record_divider
  Tested-divider = Tested-note _

  pub Tested-pure : Tested ⊤ s (pure tt s)
  unfolding pure
  Tested-pure = passed tt s.console refl

  pub Tested-when : (b : Bool) (m : M ⊤) → Tested ⊤ s (m s) → Tested ⊤ s (when b m s)
  unfolding when
  Tested-when true m t = t
  Tested-when false m t = Tested-pure

-- What the console held before does not matter.
pub Tested-rebase :
    {Q : Type 0} (s : Analyzer) (c : List Note) {d : List Note} {result : Run ⊤}
    → Tested Q (with_console s c) result
    → Tested Q (with_console s d) result
Tested-rebase s c (passed q c' e) = passed q c' e
Tested-rebase s c (failed n x s' e) = failed n x s' e

-- Every task of the dictionary meets `Q`.
abbrev pub EachTask : (ℕ → TaskState → Type 0) → Dict ℕ TaskState → Type 0
EachTask Q [] = ⊤
EachTask Q ((ptid, t) ∷ tasks) = Q ptid t × EachTask Q tasks

module _ (s : Analyzer) (Q : ℕ → TaskState → Type 0) (visit : ℕ → TaskState → M ⊤)
    (tested : (ptid : ℕ) (t : TaskState) (c : List Note)
      → Tested (Q ptid t) (with_console s c) (visit ptid t (with_console s c))) where
  pub Tested-each_task :
      (tasks : Dict ℕ TaskState) (c : List Note)
      → Tested (EachTask Q tasks) (with_console s c) (each_task visit tasks (with_console s c))
  unfolding each_task
  Tested-each_task [] c = Tested-pure
  Tested-each_task ((ptid, t) ∷ tasks) c =
      Tested-bind (visit ptid t) (each_task visit tasks) (tested ptid t c)
        (λ c'. Tested-rebase s c' (Tested-each_task tasks c'))

-- `m` is a check of `Q` at `s`, whatever the console holds.
abbrev pub Checks : Analyzer → Type 0 → M ⊤ → Type 0
Checks s Q m = (c : List Note) → Tested Q (with_console s c) (m (with_console s c))

module _ (s : Analyzer) where
  pub Checks-seq :
      {P Q : Type 0} (m k : M ⊤) → Checks s P m → Checks s Q k → Checks s (P × Q) (m >> k)
  Checks-seq m k p q c = Tested-bind m k (p c) (λ c'. Tested-rebase s c' (q c'))

  pub Checks-gets :
      {A : Type 0} {Q : Type 0} (f : Analyzer → A) (k : A → M ⊤)
      → ((c : List Note) → f (with_console s c) ≡ f s)
      → Checks s Q (k (f s))
      → Checks s Q (gets f >>= k)
  unfolding ◌>>=◌ gets
  Checks-gets f k same h c = rw (same c) (h c)

  -- A divider and a line under it
  pub Checks-lines : (n : Note) → Checks s ⊤ (record_divider >> record_note n)
  Checks-lines n c =
      Tested-map (λ _. tt) (λ _. (tt, tt))
        (Checks-seq record_divider (record_note n) (λ _. Tested-divider) (λ _. Tested-note n) c)
