-- ===== src/Dart/Replay/Finish/Clean.antt =====
-- script/dart.py: the checks at the end of `iterate_log` pass exactly when nothing is left over.
use krace.Prelude.{
  ℕ, ◌≡◌, ◌↔◌, refl, inl, inr, Bool, true, false, not, Option, none, some, List, [], ◌∷◌, arith,
  Bool-cases, is_empty, is_some, get_elem?, All,
}
use krace.Dict.{Dict}
use krace.Dart.ExecUnit.{Ref, ExecUnit}
use krace.Dart.State.{Analyzer, TaskState, AsyncSlot, EventSlot, RaceAlias, Note}
use krace.Dart.State.Monad.{⊤, done, dangling, pure, or_raise, raise, load, ◌>>=◌}
use krace.Dart.State.Console.{with_console}
use krace.Dart.Replay.Finish.{
  is_leftover_async, is_leftover_event, sum_funcs, leftover, check_ctxt, check_stack,
  check_stack_mem, check_locks, record_races, check_finish,
}
use krace.Dart.Replay.Finish.Tested.{
  Checks, Checks-seq, Checks-gets, Checks-lines, Tested, passed, failed, Tested-map, Tested-check,
  Tested-note, Tested-divider, Tested-pure, Tested-when, EachTask, Tested-each_task,
}

abbrev pub IsIdleAsync : ℕ × AsyncSlot → Type 0
IsIdleAsync (hval, slot) = (slot.func ≡ 0) × (slot.serving ≡ 0)

abbrev pub IsIdleServer : ℕ × (ℕ × Ref) → Type 0
IsIdleServer (ptid, (func, unit)) = func ≡ 0

abbrev pub IsIdleEvent : ℕ × EventSlot → Type 0
IsIdleEvent (hval, slot) = (slot.func ≡ 0) × All IsIdleServer slot.servers

-- The task is in no context.
abbrev pub IsOutside : Analyzer → ℕ → TaskState → Type 0
IsOutside s ptid t = (u : ExecUnit) × (get_elem? s.units t.unit ≡ some u) × (u.ctxt ≡ none)

-- The task holds no lock; pending reader transactions do not count.
abbrev pub HasNoLocks : ℕ → TaskState → Type 0
HasNoLocks ptid t =
    (t.sync_locks.locks_r ≡ []) × (t.sync_locks.locks_w ≡ []) × (t.sync_trans.locks_w ≡ [])

-- Nothing of the run is left over: callbacks, waiters, contexts, calls, stack frames, locks and
-- per-CPU memory.
pub record IsClean (s : Analyzer) : Type 0 where
  pub asyncs : All IsIdleAsync s.async_slots
  pub events : All IsIdleEvent s.event_slots
  pub contexts : EachTask (IsOutside s) s.tasks
  pub stacks : EachTask (λ ptid t. t.stack ≡ []) s.tasks
  pub frames : EachTask (λ ptid t. t.stack_mem ≡ []) s.tasks
  pub locks : EachTask HasNoLocks s.tasks
  pub percpu : s.mem_sizes_pcpu ≡ []

is_empty_iff {ℓ} : {A : Type ℓ} (xs : List A) → (is_empty xs ≡ true) ↔ (xs ≡ [])
is_empty_iff [] = (λ e. refl, λ e. refl)
is_empty_iff (x ∷ xs) = (λ e. cc, λ e. cc)

leftover_iff :
    {V : Type 0} (test : V → Bool) (P : ℕ × V → Type 0)
    → ((k : ℕ) (v : V) → (test v ≡ false) ↔ P (k, v))
    → (d : Dict ℕ V) → (is_empty (leftover test d) ≡ true) ↔ All P d
unfolding leftover
leftover_iff test P each [] = (λ e. tt, λ e. refl)
leftover_iff test P each ((k, v) ∷ d) = elim (Bool-cases (test v)) [
  | inl left ↦ rw left (λ e. cc, λ h. cc ((each k v).1 h.0))
  | inr ok' ↦ rw ok' (
    λ e. ((each k v).0 ok', (leftover_iff test P each d).0 e),
    λ h. (leftover_iff test P each d).1 h.1,
  )
]

async_iff : (k : ℕ) (slot : AsyncSlot) → (is_leftover_async slot ≡ false) ↔ IsIdleAsync (k, slot)
unfolding is_leftover_async
async_iff k slot = (ground arith, ground arith)

servers_iff : (d : Dict ℕ (ℕ × Ref)) → (sum_funcs d ≡ 0) ↔ All IsIdleServer d
unfolding sum_funcs
servers_iff [] = (λ e. tt, λ e. refl)
servers_iff ((k, (func, unit)) ∷ d) =
    (λ e. (omega arith, (servers_iff d).0 (omega arith)), λ h. omega (arith, (servers_iff d).1 h.1))

event_iff : (k : ℕ) (slot : EventSlot) → (is_leftover_event slot ≡ false) ↔ IsIdleEvent (k, slot)
unfolding is_leftover_event
event_iff k slot = (
  λ e. (ground arith, (servers_iff slot.servers).0 (ground arith)),
  λ h. ground (arith, (servers_iff slot.servers).1 h.1),
)

module _ (s : Analyzer) where
  Checks-ctxt : (ptid : ℕ) (t : TaskState) → Checks s (IsOutside s ptid t) (check_ctxt ptid t)
  unfolding check_ctxt load or_raise pure raise ◌>>=◌
  Checks-ctxt ptid t c = go (get_elem? s.units t.unit) refl
    where
      none_iff : (o : Option ℕ) → (not (is_some o) ≡ true) ↔ (o ≡ none)
      none_iff none = (λ e. refl, λ e. refl)
      none_iff (some x) = (λ e. cc, λ e. cc)

      same_unit :
          {u : ExecUnit}
          → (v : ExecUnit) × (◌≡◌ {A = Option ExecUnit} (some u) (some v)) × (v.ctxt ≡ none)
          → u.ctxt ≡ none
      same_unit (v, e, h) = cc

      go :
          (o : Option ExecUnit)
          → get_elem? s.units t.unit ≡ o
          → Tested (IsOutside s ptid t) (with_console s c) (check_ctxt ptid t (with_console s c))
      go none e = failed (λ h. cc h.1) dangling (with_console s c) (rw e)
      go (some u) e = rw e (
          Tested-map (λ h. (u, refl, h)) same_unit
            (Tested-check (not (is_some u.ctxt)) "ptid - still tracing" (none_iff u.ctxt)))

  Checks-locks : (ptid : ℕ) (t : TaskState) → Checks s (HasNoLocks ptid t) (check_locks ptid t)
  unfolding check_locks
  Checks-locks ptid t c =
      Tested-map (λ h. (h.0, h.1.0, h.1.1.0)) (λ h. (h.0, (h.1, (h.2, tt))))
        (Checks-seq s _ _ (λ c'. Tested-check _ _ (is_empty_iff t.sync_locks.locks_r))
          (Checks-seq s _ _ (λ c'. Tested-check _ _ (is_empty_iff t.sync_locks.locks_w))
            (Checks-seq s _ _ (λ c'. Tested-check _ _ (is_empty_iff t.sync_trans.locks_w))
              (λ c'. Tested-when _ _ (Checks-lines s _ c'))))
          c)

  Checks-stack : (ptid : ℕ) (t : TaskState) → Checks s (t.stack ≡ []) (check_stack ptid t)
  unfolding check_stack
  Checks-stack ptid t c = Tested-check _ _ (is_empty_iff t.stack)

  Checks-stack_mem :
      (ptid : ℕ) (t : TaskState) → Checks s (t.stack_mem ≡ []) (check_stack_mem ptid t)
  unfolding check_stack_mem
  Checks-stack_mem ptid t c = Tested-check _ _ (is_empty_iff t.stack_mem)

  Checks-races : (races : Dict RaceAlias ℕ) → Checks s ⊤ (record_races races)
  unfolding record_races
  Checks-races [] c = Tested-pure
  Checks-races ((pair, stat) ∷ races) c =
      Tested-map (λ _. tt) (λ _. (tt, tt))
        (Checks-seq s _ (record_races races) (λ _. Tested-note _) (Checks-races races) c)

  Checks-finish : Checks s (IsClean s) check_finish
  unfolding check_finish
  Checks-finish c =
      Tested-map
        (λ h. record {
          asyncs = h.0;
          events = h.1.0;
          contexts = h.1.1.0;
          stacks = h.1.1.1.0;
          frames = h.1.1.1.1.0;
          locks = h.1.1.1.1.1.0;
          percpu = h.1.1.1.1.1.1.0;
        })
        (λ k. (
          k.asyncs,
          (k.events, (k.contexts, (k.stacks, (k.frames, (k.locks, (k.percpu, (tt, (tt, tt)))))))),
        ))
        (Checks-gets s _ _ (λ _. refl)
          (Checks-seq s _ _
            (λ _. Tested-check _ _ (leftover_iff _ IsIdleAsync async_iff s.async_slots))
            (Checks-gets s _ _ (λ _. refl)
              (Checks-seq s _ _
                (λ _. Tested-check _ _ (leftover_iff _ IsIdleEvent event_iff s.event_slots))
                (Checks-gets s _ _ (λ _. refl)
                  (Checks-seq s _ _ (Tested-each_task s _ _ Checks-ctxt s.tasks) (
                    Checks-seq s _ _ (Tested-each_task s _ _ Checks-stack s.tasks) (
                      Checks-seq s _ _ (Tested-each_task s _ _ Checks-stack_mem s.tasks) (
                        Checks-seq s _ _ (Tested-each_task s _ _ Checks-locks s.tasks) (
                          Checks-gets s _ _ (λ _. refl)
                            (Checks-seq s _ _
                              (λ _. Tested-check _ _ (is_empty_iff s.mem_sizes_pcpu))
                              (Checks-gets s _ _ (λ _. refl)
                                (Checks-seq s _ _ (λ c'. Tested-when _ _ (Checks-lines s _ c'))
                                  (Checks-seq s _ _ (λ _. Tested-divider)
                                    (Checks-gets s _ _ (λ _. refl) (Checks-races _)))))))))))))))
          c)

-- The checks at the end of `iterate_log` pass exactly when nothing is left over (`IsClean`), and then
-- they change only the console.
pub check_finish-IsClean :
    (s : Analyzer)
    → (IsClean s → (lines : List Note) × (check_finish s ≡ done tt (with_console s lines)))
      × ((s' : Analyzer) → check_finish s ≡ done tt s' → IsClean s)
check_finish-IsClean s = go (Checks-finish s s.console)
  where
    go :
        Tested (IsClean s) s (check_finish s)
        → (IsClean s → (lines : List Note) × (check_finish s ≡ done tt (with_console s lines)))
          × ((s' : Analyzer) → check_finish s ≡ done tt s' → IsClean s)
    go (passed q c e) = (λ _. (c, e), λ s' _. q)
    go (failed n x s' e) = (λ q. absurd (n q), λ s'' f. cc)
