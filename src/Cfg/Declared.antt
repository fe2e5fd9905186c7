-- ===== src/Cfg/Declared.antt =====
-- The successors that the log declares, which pass 3 checks.
use krace.Prelude.{
  ℕ, ◌≡◌, ap, ◌∙◌, inl, inr, true, Bool-cases, List, [], ◌∷◌, ◌==◌, ==_iff, has, All, arith,
}
use krace.Dict.{lookup}
use krace.Dict.Key.{nat_eq}
use krace.Spec.Result.{ok, key_error, check, or_raise, or_raise-eq-ok, >>=-eq-ok, check-eq-ok}
use krace.Cfg.{Blocks, BlockLog, add_succ, add_succs, check_edges, succs_of, succs_of_block}

-- Each successor that the log has for the block is one of the block.
abbrev pub HasSuccs : Blocks → BlockLog → Type 0
HasSuccs blocks l = (x : ℕ) → has x l.succ ≡ true → has x (succs_of blocks l.hash) ≡ true

module _ (blocks : Blocks) where
  add_succ-has :
      (self block : ℕ)
      → add_succ self block blocks ≡ ok tt
      → has block (succs_of blocks self) ≡ true
  unfolding add_succ succs_of
  add_succ-has self block h =
      let (this, found, h1) = >>=-eq-ok (or_raise key_error (lookup self blocks)) _ h in
      let (other, found', h2) = >>=-eq-ok (or_raise key_error (lookup block blocks)) _ h1 in
      let (done, checked, h3) = >>=-eq-ok (check (has block this.succs)) _ h2 in
      ap (λ o. has block (succs_of_block o)) (or_raise-eq-ok key_error (lookup self blocks) found)
      ∙ check-eq-ok (has block this.succs) checked

  add_succs-has :
      (self : ℕ) (xs : List ℕ)
      → add_succs self xs blocks ≡ ok tt
      → (x : ℕ) → has x xs ≡ true
      → has x (succs_of blocks self) ≡ true
  unfolding add_succs
  add_succs-has self [] h x m = cc
  add_succs-has self (y ∷ xs) h x m =
      let (done, first, rest) = >>=-eq-ok (add_succ self y blocks) _ h in
      elim (Bool-cases (x == y)) [
        | inl same ↦
            ap (λ n. has n (succs_of blocks self)) ((==_iff x y).0 same) ∙ add_succ-has self y first
        | inr apart ↦ add_succs-has self xs rest x (ground (arith, m, apart))
      ]

  pub check_edges-HasSuccs :
      (logs : List BlockLog) → check_edges logs blocks ≡ ok tt → All (HasSuccs blocks) logs
  unfolding check_edges
  check_edges-HasSuccs [] h = tt
  check_edges-HasSuccs (l ∷ logs) h =
      let (done, first, rest) = >>=-eq-ok (add_succs l.hash l.succ blocks) _ h in
      (add_succs-has l.hash l.succ first, check_edges-HasSuccs logs rest)
