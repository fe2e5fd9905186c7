-- ===== src/Dart/Replay/Ledger.antt =====
-- script/dart.py: when `validate` returns a ledger instead of raising.
use krace.Prelude.{ℕ, ◌≤◌, ◌≡◌, ◌↔◌, inl, inr, refl, false, List, arith, ltb, Bool-cases}
use krace.Dart.Compdb.{CompileDatabase}
use krace.Dart.State.{Analyzer, Note, init}
use krace.Dart.State.Monad.{⊤, Run, done, raised, Failure, assert_failed, resume, ◌>>=◌}
use krace.Dart.Replay.{
  Outcome, ledger, outcome, sized, validate, process_log, iterate, iterate_log, output_ledger_size,
}
use krace.Dart.Replay.Finish.{check_finish}
use krace.Dart.Replay.Finish.Clean.{IsClean, check_finish-IsClean}

-- The header is read, the size that it gives is within the bound, no entry raises, and the state
-- after the last entry is clean.
pub record IsReplayed (db : CompileDatabase) (limit : ℕ) (file : List ℕ) : Type 0 where
  pub entry_num : ℕ
  pub entry_cur : ℕ
  pub opened : Analyzer
  pub missed : ℕ
  pub finished : Analyzer
  pub header : process_log db limit (init file) ≡ done (entry_num, entry_cur) opened
  pub bounded : entry_cur ≤ output_ledger_size db limit
  pub entries : iterate db limit 0 entry_num entry_num opened ≡ done missed finished
  pub clean : IsClean finished

module _ (db : CompileDatabase) (limit : ℕ) where
  abbrev GivesLedger : Outcome → Type 0
  GivesLedger o = (lines : List Note) × (o ≡ ledger lines)

  raised-GivesLedger :
      (e : Failure) (s : Analyzer) → GivesLedger (outcome db limit (raised e s)) → ⊥
  unfolding outcome
  raised-GivesLedger (assert_failed reason) s (lines, h) = cc
  raised-GivesLedger _ s (lines, h) = cc

  check_finish-GivesLedger :
      (s : Analyzer) → GivesLedger (outcome db limit (check_finish s)) ↔ IsClean s
  check_finish-GivesLedger s = (λ h. go (check_finish s) refl h, back)
    where
      go : (r : Run ⊤) → check_finish s ≡ r → GivesLedger (outcome db limit r) → IsClean s
      go (done tt s') e h = (check_finish-IsClean s).1 s' e
      go (raised x s') e h = absurd (raised-GivesLedger x s' h)

      back : IsClean s → GivesLedger (outcome db limit (check_finish s))
      back c = let (lines, e) = (check_finish-IsClean s).0 c in (lines, unfold outcome in rw e)

  finished_entries :
      (n : ℕ) (s : Analyzer) (r : Run ℕ)
      → iterate db limit 0 n n s ≡ r
      → GivesLedger (outcome db limit (resume r (λ missed. check_finish)))
      → (missed : ℕ) × (s' : Analyzer) × (iterate db limit 0 n n s ≡ done missed s') × IsClean s'
  finished_entries n s (done missed s') e h = (missed, s', e, (check_finish-GivesLedger s').0 h)
  finished_entries n s (raised x s') e h = absurd (raised-GivesLedger x s' h)

  replayed :
      (file : List ℕ) (r : Run (ℕ × ℕ))
      → process_log db limit (init file) ≡ r
      → GivesLedger (sized db limit r)
      → IsReplayed db limit file
  unfolding sized iterate_log ◌>>=◌
  replayed file (raised x s) e (lines, h) = cc
  replayed file (done (n, size) s) e (lines, h) =
      elim (Bool-cases (ltb (output_ledger_size db limit) size)) [
        | inl over ↦ cc (rw over at h)
        | inr within ↦
            let (missed, s', run, clean) =
              finished_entries n s (iterate db limit 0 n n s) refl (lines, rw within at h) in
            record {
              entry_num = n;
              entry_cur = size;
              opened = s;
              missed = missed;
              finished = s';
              header = e;
              bounded = ground arith;
              entries = run;
              clean = clean;
            }
      ]

  -- For every file, `validate` returns a ledger exactly if the header is read, the size that it gives
  -- is within the bound, no entry raises, and nothing is left over after the last entry; it raises
  -- in all other cases.
  pub validate-IsReplayed :
      (file : List ℕ)
      → ((lines : List Note) × (validate db limit file ≡ ledger lines)) ↔ IsReplayed db limit file
  unfolding validate
  validate-IsReplayed file = (λ h. replayed file _ refl h, λ k. back k)
    where
      ltb_bounded : {a b : ℕ} → a ≤ b → ltb b a ≡ false
      ltb_bounded h = ground arith

      back : IsReplayed db limit file → GivesLedger (validate db limit file)
      back k =
          let within : ltb (output_ledger_size db limit) k.entry_cur ≡ false =
            ltb_bounded k.bounded in
          let (lines, e) = (check_finish-GivesLedger k.finished).1 k.clean in
          (lines, unfold sized iterate_log ◌>>=◌ in rw (k.header, within, k.entries) e)
