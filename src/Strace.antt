-- ===== src/Strace.antt =====
-- script/fuzz_stat.py: the calls that were traced for each thread, `StraceLedger`, and whether they are
-- the calls of the program. The parser of the text of a trace is not modelled.
pub mod Validate
pub mod Tests
use krace.Prelude.{
  ℕ, suc, Bool, true, false, not, ◌==◌, Option, none, some, List, [], ◌∷◌, ◌++◌, String, is_empty,
  if◌then◌else◌, length,
}
use krace.Prelude.Int.{ℤ}
use krace.Dict.{Dict, lookup, insert}
use krace.Dict.Key.{nat_eq}
use krace.Spec.Result.{Result, ok, key_error, ◌>>=◌, or_raise}
use krace.Spec.Program.{Sys, Thread, Program}
use krace.Spec.Synopsis.{Name, same_name}

-- `StraceRecord`
pub record Record : Type 0 where
  pub tseq : ℕ
  pub name : Name
  pub retv : ℤ
  pub line : String

abbrev pub Ledger : Type 0
Ledger = Dict ℕ (List Record)

abbrev pub records_of : Option (List Record) → List Record
records_of none = []
records_of (some records) = records

unfoldable pub add_record : Record → Ledger → Ledger
add_record r ledger = insert r.tseq (records_of (lookup r.tseq ledger) ++ r ∷ []) ledger

-- `name.split('$')[0]`; `$` is 36.
unfoldable pub before_dollar : Name → Name
before_dollar [] = []
before_dollar (c ∷ cs) = let rest = before_dollar cs in if c == 36 then [] else c ∷ rest

module _ (name_of : Sys → Name) where
  -- The loop of `_check`.
  unfoldable pub check_names : List Record → List Sys → Bool
  unfolding same_name before_dollar
  check_names (r ∷ trace) (s ∷ given) =
      let rest = check_names trace given in
      if not (same_name r.name (before_dollar (name_of s))) then false else rest
  check_names [] given = true
  check_names (r ∷ trace) [] = true

  unfoldable pub check_trace : List Record → List Sys → Bool
  unfolding check_names
  check_trace trace given =
      if not (length trace == length given) then false else check_names trace given

  unfoldable pub validate_from : Ledger → ℕ → List Thread → Result Bool
  unfolding check_trace
  validate_from ledger i [] = ok true
  validate_from ledger i (thread ∷ threads) =
      let same = validate_from ledger i threads in
      let next = validate_from ledger (suc i) threads in
      if is_empty thread
      then same
      else (or_raise key_error (lookup i ledger) >>= λ trace.
          if not (check_trace trace thread) then ok false else next)

  module _ {R : Type 0} where
    unfoldable pub validate_program : Ledger → Program R → Result Bool
    unfolding validate_from
    validate_program ledger program = or_raise key_error (lookup 0 ledger) >>= λ trace.
        if not (check_trace trace program.thread_main)
        then ok false
        else validate_from ledger 1 program.thread_subs

-- `zip(thread, self.ledger[i])`
unfoldable pub link_thread : Thread → List Record → Dict Sys Record → Dict Sys Record
link_thread (s ∷ thread) (r ∷ trace) result = link_thread thread trace (insert s r result)
link_thread [] trace result = result
link_thread (s ∷ thread) [] result = result

unfoldable pub link_from : Ledger → ℕ → List Thread → Dict Sys Record → Result (Dict Sys Record)
unfolding link_thread
link_from ledger i [] result = ok result
link_from ledger i (thread ∷ threads) result =
    let same = link_from ledger i threads result in
    let next = λ (r : Dict Sys Record). link_from ledger (suc i) threads r in
    if is_empty thread
    then same
    else (or_raise key_error (lookup i ledger) >>= λ trace. next (link_thread thread trace result))

module _ {R : Type 0} where
  unfoldable pub link : Ledger → Program R → Result (Dict Sys Record)
  unfolding link_from
  link ledger program = link_from ledger 1 program.thread_subs []
