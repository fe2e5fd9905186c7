-- ===== src/Strace/Validate.antt =====
-- `StraceLedger.validate` compares the traces with the threads that call something.
use krace.Prelude.{
  ℕ, suc, ◌≡◌, refl, ap, inl, inr, ◌↔◌, Bool, true, false, not, Bool-cases, ◌==◌, ==_iff, Option,
  none, some, List, [], ◌∷◌, is_empty, if◌then◌else◌, length, map, arith,
}
use krace.Dict.{lookup}
use krace.Dict.Key.{nat_eq}
use krace.Spec.Result.{Result, ok, key_error, ◌>>=◌, or_raise}
use krace.Spec.Program.{Sys, Thread, Program}
use krace.Spec.Synopsis.{Name, same_name}
use krace.Spec.Synopsis.Order.{same_name_iff}
use krace.Strace.{
  Record, Ledger, before_dollar, check_names, check_trace, validate_from, validate_program,
}

-- The names that a trace has.
abbrev pub traced : Option (List Record) → Option (List Name)
traced none = none
traced (some trace) = some (map (λ (r : Record). r.name) trace)

-- The threads with a call.
abbrev pub busy : List Thread → List Thread
busy [] = []
busy (thread ∷ threads) = if is_empty thread then busy threads else thread ∷ busy threads

module _ (name_of : Sys → Name) where
  -- The names that the calls of a thread have in a trace.
  abbrev pub called : Thread → List Name
  called = map (λ s. before_dollar (name_of s))

  -- From some index on, there is the trace of each thread.
  abbrev pub AreTraced : Ledger → ℕ → List Thread → Type 0
  AreTraced ledger i [] = Unit {0}
  AreTraced ledger i (thread ∷ threads) =
      (traced (lookup i ledger) ≡ some (called thread)) × AreTraced ledger (suc i) threads

  check_names_iff :
      (trace : List Record) (given : Thread)
      → length trace ≡ length given
      → (check_names name_of trace given ≡ true) ↔ (traced (some trace) ≡ some (called given))
  unfolding check_names
  check_names_iff [] [] e = (λ h. refl, λ q. refl)
  check_names_iff [] (s ∷ given) e = cc
  check_names_iff (r ∷ trace) [] e = cc
  check_names_iff (r ∷ trace) (s ∷ given) e =
      let rest = check_names_iff trace given (ground (arith, e)) in
      let same = same_name_iff r.name (before_dollar (name_of s)) in
      elim (Bool-cases (same_name r.name (before_dollar (name_of s)))) [
        | inl y ↦ (λ h. cc (same.0 y, rest.0 (rw y at h)), λ q. rw y (rest.1 (cc q)))
        | inr n ↦ (λ h. cc (rw n at h), λ q. cc (n, same.1 (cc q)))
      ]

  same_length :
      (trace : List Record) (given : Thread)
      → traced (some trace) ≡ some (called given)
      → length trace ≡ length given
  same_length [] [] q = refl
  same_length [] (s ∷ given) q = cc
  same_length (r ∷ trace) [] q = cc
  same_length (r ∷ trace) (s ∷ given) q = ap (λ n. suc n) (same_length trace given (cc q))

  check_trace_iff :
      (trace : List Record) (given : Thread)
      → (check_trace name_of trace given ≡ true) ↔ (traced (some trace) ≡ some (called given))
  unfolding check_trace
  check_trace_iff trace given = elim (Bool-cases (length trace == length given)) [
    | inl y ↦
        let names = check_names_iff trace given ((==_iff (length trace) (length given)).0 y) in
        (λ h. names.0 (rw y at h), λ q. rw y (names.1 q))
    | inr n ↦ (
      λ h. cc (rw n at h),
      λ q. cc (n, (==_iff (length trace) (length given)).1 (same_length trace given q)),
    )
  ]

  -- One lookup and one comparison.
  step_iff :
      (o : Option (List Record)) (thread : Thread) (next : Result Bool)
      → ((or_raise key_error o >>= λ trace.
            if not (check_trace name_of trace thread) then ok false else next)
          ≡ ok true)
        ↔ ((traced o ≡ some (called thread)) × (next ≡ ok true))
  unfolding or_raise ◌>>=◌
  step_iff none thread next = (λ h. cc, λ (q, n). cc)
  step_iff (some trace) thread next = elim (Bool-cases (check_trace name_of trace thread)) [
    | inl y ↦ (λ h. ((check_trace_iff trace thread).0 y, rw y at h), λ (q, n). rw y n)
    | inr n ↦ (λ h. cc (rw n at h), λ (q, m). cc (n, (check_trace_iff trace thread).1 q))
  ]

  validate_from_iff :
      (ledger : Ledger) (i : ℕ) (threads : List Thread)
      → (validate_from name_of ledger i threads ≡ ok true) ↔ AreTraced ledger i (busy threads)
  unfolding validate_from
  validate_from_iff ledger i [] = (λ h. tt, λ u. refl)
  validate_from_iff ledger i (thread ∷ threads) = elim (Bool-cases (is_empty thread)) [
    | inl y ↦ rw y (validate_from_iff ledger i threads)
    | inr n ↦
        let here =
          step_iff (lookup i ledger) thread (validate_from name_of ledger (suc i) threads) in
        let rest = validate_from_iff ledger (suc i) threads in
        rw n (λ h. ((here.0 h).0, rest.0 (here.0 h).1), λ (q, a). here.1 (q, rest.1 a))
  ]

  -- A ledger passes exactly where it has, at 0, the calls of the main thread, and from 1 on those of
  -- the threads that call something, by their names up to a dollar sign and in their order.
  pub validate_program-AreTraced :
      {R : Type 0} (ledger : Ledger) (program : Program R)
      → (validate_program name_of ledger program ≡ ok true)
        ↔ AreTraced ledger 0 (program.thread_main ∷ busy program.thread_subs)
  unfolding validate_program
  validate_program-AreTraced ledger program =
      let here =
        step_iff (lookup 0 ledger) program.thread_main
          (validate_from name_of ledger 1 program.thread_subs) in
      let rest = validate_from_iff ledger 1 program.thread_subs in
      (λ h. ((here.0 h).0, rest.0 (here.0 h).1), λ (q, a). here.1 (q, rest.1 a))
