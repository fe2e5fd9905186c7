-- ===== src/Strace/Tests.antt =====
-- A trace of two threads; "open$file" is traced as "open".
use krace.Prelude.{ℕ, ◌≡◌, refl, ◌↔◌, true, [], ◌∷◌, ◌==◌, if◌then◌else◌}
use krace.Prelude.Int.{pos, negsuc}
use krace.Dict.{insert, lookup}
use krace.Spec.Result.{ok, raised, key_error, or_raise, ◌>>=◌}
use krace.Spec.Program.{Sys, Program}
use krace.Spec.Synopsis.{Name}
use krace.Strace.{Record, Ledger, add_record, validate_program}
use krace.Strace.Validate.{AreTraced, validate_program-AreTraced}

abbrev plain : Name
plain = 111 ∷ 112 ∷ []

abbrev name_of : Sys → Name
name_of s = if s == 7 then 111 ∷ 112 ∷ 36 ∷ 102 ∷ [] else plain

abbrev record_at : ℕ → Record
record_at n = record { tseq = n; name = plain; retv = pos 3; line = "" }

unfoldable ledger : Ledger
unfolding add_record insert lookup
ledger = add_record (record_at 1) (add_record (record_at 0) [])

abbrev program : Program (Unit {0})
program = record {
  ncpu = 2;
  syscalls = 5 ∷ 7 ∷ [];
  syscalls_start = 1;
  thread_main = 5 ∷ [];
  thread_subs = [] ∷ (7 ∷ []) ∷ [];
  thread_dist = (5, negsuc 0) ∷ (7, pos 1) ∷ [];
  resources = tt;
}

validated : validate_program name_of ledger program ≡ ok true
unfolding ledger validate_program or_raise ◌>>=◌ lookup insert add_record
validated = refl

no_trace : validate_program name_of [] program ≡ raised key_error
unfolding validate_program or_raise ◌>>=◌ lookup
no_trace = refl

validate_program-AreTraced_example :
    (validate_program name_of ledger program ≡ ok true)
    ↔ AreTraced name_of ledger 0 ((5 ∷ []) ∷ (7 ∷ []) ∷ [])
validate_program-AreTraced_example = validate_program-AreTraced name_of ledger program
