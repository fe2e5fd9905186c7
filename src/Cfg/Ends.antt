-- ===== src/Cfg/Ends.antt =====
-- The entry and the exits of a function that the passes read.
use krace.Prelude.{
  All, ℕ, ◌≡◌, refl, sym, ap, ◌∙◌, inl, inr, ◌⊎◌, ◌&&◌, true, false, not, Bool-cases, Option, none,
  some, List, [], ◌∷◌, arith, ◌==◌, ==_iff, ==_refl, has, is_empty,
}
use mathlib.Core.Path.{subst}
use native.Mathlib.Decide.{ℕ_discrete}
use krace.Dict.{lookup, keys}
use krace.Dict.Key.{nat_eq}
use krace.Spec.Result.{
  Result, ok, assertion, check, or_raise-eq-ok, >>=-eq-ok, check-eq-ok, ◌>>=◌, ◌>>◌,
}
use krace.Cfg.{
  Block, Blocks, BlockLog, Func, add_blocks, add_edges, check_edges, find_entry, set_entry,
  find_exits, set_exits, read_func, is_none, succs_of,
}
use krace.Dict.Keys.{AreDistinct}
use krace.Cfg.Declared.{HasSuccs, check_edges-HasSuccs}
use krace.Cfg.Edges.{
  preds_of, IsWired, nothing-IsBare, add_blocks-IsBare, bare-IsWired, add_edges-IsWired,
}

-- No block but the entry is without a predecessor.
pub record IsEntry (blocks : Blocks) (e : ℕ) : Type 0 where
  pub key : has e (keys blocks) ≡ true
  pub first : is_empty (preds_of blocks e) ≡ true
  pub only : (n : ℕ) → has n (keys blocks) ≡ true → is_empty (preds_of blocks n) ≡ true → n ≡ e

module _ (k : ℕ) (b : Block) (blocks : Blocks) where
  preds_of-head : preds_of ((k, b) ∷ blocks) k ≡ b.preds
  unfolding lookup
  preds_of-head = rw (==_refl k) refl

  preds_of-tail : (n : ℕ) → (k == n) ≡ false → preds_of ((k, b) ∷ blocks) n ≡ preds_of blocks n
  unfolding lookup
  preds_of-tail n apart = rw apart refl

key_cases :
    (n k : ℕ) (ks : List ℕ)
    → has k ks ≡ false
    → has n (k ∷ ks) ≡ true
    → (k ≡ n) ⊎ ((has n ks ≡ true) × ((k == n) ≡ false))
key_cases n k ks new h = elim (ℕ_discrete k n) [
  | yes e ↦ inl e
  | no ne ↦ inr (ground (arith, h, ==_iff n k), ground (arith, ==_iff k n, ne))
]

check_raises : {A : Type 0} (m : Result A) {a : A} → ¬ ((check false >> m) ≡ ok a)
unfolding check ◌>>=◌
check_raises m h = cc

head_ne : (k : ℕ) (ks : List ℕ) (n : ℕ) → has k ks ≡ false → has n ks ≡ true → (k == n) ≡ false
head_ne k ks n new h = elim (Bool-cases (k == n)) [
  | inl e ↦ cc (ap (λ m. has m ks) ((==_iff k n).0 e))
  | inr ne ↦ ne
]

none_left :
    (blocks : Blocks) (e : ℕ) (r : Option ℕ)
    → AreDistinct (keys blocks)
    → find_entry blocks (some e) ≡ ok r
    → (r ≡ some e) × ((n : ℕ) → has n (keys blocks) ≡ true → is_empty (preds_of blocks n) ≡ false)
unfolding find_entry
none_left [] e r d h = (cc, λ n k. cc)
none_left ((k, b) ∷ blocks) e r d h = elim (Bool-cases (is_empty b.preds)) [
  | inl first ↦ absurd (check_raises _ (rw first at h))
  | inr apart ↦
      let (same, all) = none_left blocks e r d.1 (rw apart at h) in
      (
        same,
        λ n is_key. elim (key_cases n k (keys blocks) d.0 is_key) [
          | inl eq ↦
              ap (λ m. is_empty (preds_of ((k, b) ∷ blocks) m)) (sym eq)
              ∙ ap is_empty (preds_of-head k b blocks)
              ∙ apart
          | inr (in_rest, ne) ↦ ap is_empty (preds_of-tail k b blocks n ne) ∙ all n in_rest
        ],
      )
]

find_entry-IsEntry :
    (blocks : Blocks) (e : ℕ)
    → AreDistinct (keys blocks)
    → find_entry blocks none ≡ ok (some e)
    → IsEntry blocks e
unfolding find_entry
find_entry-IsEntry [] e d h = cc
find_entry-IsEntry ((k, b) ∷ blocks) e d h = elim (Bool-cases (is_empty b.preds)) [
  | inl first ↦
      let (tried, eq0, h1) = >>=-eq-ok (check (is_none none)) _ (rw first at h) in
      let (same, all) = none_left blocks k (some e) d.1 h1 in
      subst (IsEntry ((k, b) ∷ blocks)) (cc same) (record {
        key = ground (arith, ==_refl k);
        first = ap is_empty (preds_of-head k b blocks) ∙ first;
        only = λ n is_key no_preds. elim (key_cases n k (keys blocks) d.0 is_key) [
          | inl eq ↦ sym eq
          | inr (in_rest, ne) ↦ cc (ap is_empty (preds_of-tail k b blocks n ne), all n in_rest)
        ];
      })
  | inr apart ↦
      let r = find_entry-IsEntry blocks e d.1 (rw apart at h) in
      let ne = head_ne k (keys blocks) e d.0 r.key in
      record {
        key = ground (arith, r.key);
        first = ap is_empty (preds_of-tail k b blocks e ne) ∙ r.first;
        only = λ n is_key no_preds. elim (key_cases n k (keys blocks) d.0 is_key) [
          | inl eq ↦ cc (
            ap (λ m. is_empty (preds_of ((k, b) ∷ blocks) m)) (sym eq),
            ap is_empty (preds_of-head k b blocks),
          )
          | inr (in_rest, ne') ↦
              r.only n in_rest (sym (ap is_empty (preds_of-tail k b blocks n ne')) ∙ no_preds)
        ];
      }
]

find_exits-has :
    (blocks : Blocks) (n : ℕ)
    → AreDistinct (keys blocks)
    → has n (find_exits blocks) ≡ (has n (keys blocks) && is_empty (succs_of blocks n))
unfolding find_exits succs_of lookup
find_exits-has [] n d = refl
find_exits-has ((k, b) ∷ blocks) n d =
    ground (arith, ==_iff k n, ==_iff n k, find_exits-has blocks n d.1, d.0)

-- The exits are the blocks without a successor, and there is one.
pub record IsExits (blocks : Blocks) (exits : List ℕ) : Type 0 where
  pub some_exit : is_empty exits ≡ false
  pub at_end : (n : ℕ) → has n exits ≡ (has n (keys blocks) && is_empty (succs_of blocks n))

-- What a function that was read is.
pub record IsGraph (logs : List BlockLog) (func : Func) (e : ℕ) : Type 0 where
  pub wired : IsWired func.blocks
  pub declared : All (HasSuccs func.blocks) logs
  pub entered : func.entry ≡ some e
  pub is_entry : IsEntry func.blocks e
  pub is_exits : IsExits func.blocks func.exits

set_exits-IsExits :
    (blocks : Blocks) (exits : List ℕ)
    → AreDistinct (keys blocks)
    → set_exits blocks ≡ ok exits
    → IsExits blocks exits
unfolding set_exits
set_exits-IsExits blocks exits d h =
    let (done, c, h1) = >>=-eq-ok (check (not (is_empty (find_exits blocks)))) _ h in
    subst (IsExits blocks) (cc h1) (record {
      some_exit = ground (arith, check-eq-ok (not (is_empty (find_exits blocks))) c);
      at_end = λ n. find_exits-has blocks n d;
    })

set_entry-IsEntry :
    (blocks : Blocks) (e : ℕ)
    → AreDistinct (keys blocks)
    → set_entry blocks ≡ ok e
    → IsEntry blocks e
unfolding set_entry
set_entry-IsEntry blocks e d h =
    let (found, f, h1) = >>=-eq-ok (find_entry blocks none) _ h in
    find_entry-IsEntry blocks e d (f ∙ ap (λ o. ok o) (or_raise-eq-ok assertion found h1))

-- A function that the three passes read without an error has each block under one key, edges that
-- stay in it, each block as often among the predecessors of another as that is among its successors,
-- among the successors of each block those that the log has for it, an entry that is the one block
-- without predecessors, and as exits the blocks without successors, of which there is one at least.
pub read_func-IsGraph :
    (logs : List BlockLog) (func : Func) → read_func logs ≡ ok func → (e : ℕ) × IsGraph logs func e
unfolding read_func
read_func-IsGraph logs func h =
    let (blocks, added, h1) = >>=-eq-ok (add_edges logs (add_blocks logs [])) _ h in
    let (checked, c, h2) = >>=-eq-ok (check_edges logs blocks) _ h1 in
    let (entry, found, h3) = >>=-eq-ok (set_entry blocks) _ h2 in
    let (exits, ends, h4) = >>=-eq-ok (set_exits blocks) _ h3 in
    let bare = add_blocks-IsBare logs [] nothing-IsBare in
    let wired = add_edges-IsWired logs (add_blocks logs []) blocks added (bare-IsWired _ bare) in
    (
      entry,
      subst (λ f. IsGraph logs f entry) (cc h4)
          (record {
            wired = wired;
            declared = check_edges-HasSuccs blocks logs c;
            entered = refl;
            is_entry = set_entry-IsEntry blocks entry wired.distinct found;
            is_exits = set_exits-IsExits blocks exits wired.distinct ends;
          }),
    )
