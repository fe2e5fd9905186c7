-- ===== src/Cfg/Edges.antt =====
-- The edges of a function, as the passes build and check them.
use krace.Prelude.{
  ℕ, ◌≡◌, refl, sym, ap, ◌∙◌, inl, inr, true, ◌||◌, Bool-cases, Option, none, some, List, [], ◌∷◌,
  ◌++◌, arith, ◌==◌, ==_iff, has, if◌then◌else◌,
}
use mathlib.Core.Path.{subst}
use native.Mathlib.Decide.{ℕ_discrete}
use krace.Dict.{lookup, insert, keys}
use krace.Dict.Key.{nat_eq}
use krace.Dict.Keys.{AreDistinct, has-keys, has-keys-insert, keys-insert-AreDistinct}
use krace.Dict.Laws.{lookup-insert_self, lookup-insert_ne}
use krace.Spec.Program.Items.{count, count-append}
use krace.Spec.Result.{ok, key_error, or_raise, or_raise-eq-ok, >>=-eq-ok}
use krace.Cfg.{
  Block, Blocks, BlockLog, add_insts, add_blocks, add_pred, add_preds, add_edges, succs_of,
  succs_of_block,
}
use krace.Cfg.Shown.{IsClosed}

abbrev preds_of_block : Option Block → List ℕ
preds_of_block none = []
preds_of_block (some b) = b.preds

abbrev pub preds_of : Blocks → ℕ → List ℕ
preds_of blocks n = preds_of_block (lookup n blocks)

-- Keys are distinct, edges stay in the function, and a block is as often a predecessor of another
-- as the other is a successor of it.
pub record IsWired (blocks : Blocks) : Type 0 where
  pub distinct : AreDistinct (keys blocks)
  pub closed : IsClosed blocks
  pub symmetric : (x y : ℕ) → count y (preds_of blocks x) ≡ count x (succs_of blocks y)

-- No edge is there yet.
pub record IsBare (blocks : Blocks) : Type 0 where
  distinct : AreDistinct (keys blocks)
  no_preds : (n : ℕ) → preds_of blocks n ≡ []
  no_succs : (n : ℕ) → succs_of blocks n ≡ []

pub bare-IsWired : (blocks : Blocks) → IsBare blocks → IsWired blocks
bare-IsWired blocks b = record {
  distinct = b.distinct;
  closed = λ n m h. cc (ap (has m) (b.no_succs n));
  symmetric = λ x y. ap (count y) (b.no_preds x) ∙ sym (ap (count x) (b.no_succs y));
}

insert-IsBare :
    (k : ℕ) (v : Block) (blocks : Blocks)
    → v.preds ≡ []
    → v.succs ≡ []
    → IsBare blocks
    → IsBare (insert k v blocks)
unfolding succs_of
insert-IsBare k v blocks p s b = record {
  distinct = keys-insert-AreDistinct k v blocks b.distinct;
  no_preds = λ n. elim (ℕ_discrete k n) [
    | yes e ↦
        ap preds_of_block
          (ap (λ x. lookup x (insert k v blocks)) (sym e) ∙ lookup-insert_self k v blocks)
        ∙ p
    | no ne ↦ ap preds_of_block (lookup-insert_ne k n v blocks ne) ∙ b.no_preds n
  ];
  no_succs = λ n. elim (ℕ_discrete k n) [
    | yes e ↦
        ap succs_of_block
          (ap (λ x. lookup x (insert k v blocks)) (sym e) ∙ lookup-insert_self k v blocks)
        ∙ s
    | no ne ↦ ap succs_of_block (lookup-insert_ne k n v blocks ne) ∙ b.no_succs n
  ];
}

pub add_blocks-IsBare :
    (logs : List BlockLog) (blocks : Blocks) → IsBare blocks → IsBare (add_blocks logs blocks)
unfolding add_blocks
add_blocks-IsBare [] blocks b = b
add_blocks-IsBare (l ∷ logs) blocks b =
    add_blocks-IsBare logs
      (insert l.hash (record { insts = add_insts l.inst []; preds = []; succs = [] }) blocks)
      (insert-IsBare l.hash _ blocks refl refl b)

pub nothing-IsBare : IsBare []
unfolding succs_of lookup
nothing-IsBare = record { distinct = tt; no_preds = λ n. refl; no_succs = λ n. refl }

module _ (k x : ℕ) (v : Block) (blocks : Blocks) where
  preds_of-insert : preds_of (insert k v blocks) x ≡ (if k == x then v.preds else preds_of blocks x)
  preds_of-insert = elim (ℕ_discrete k x) [
    | yes e ↦ rw ((==_iff k x).1 e) (
        ap (λ n. preds_of_block (lookup n (insert k v blocks))) (sym e)
        ∙ ap preds_of_block (lookup-insert_self k v blocks))
    | no ne ↦ ap preds_of_block (lookup-insert_ne k x v blocks ne) ∙ ground (arith, ==_iff k x, ne)
  ]

  succs_of-insert : succs_of (insert k v blocks) x ≡ (if k == x then v.succs else succs_of blocks x)
  unfolding succs_of
  succs_of-insert = elim (ℕ_discrete k x) [
    | yes e ↦ rw ((==_iff k x).1 e) (
        ap (λ n. succs_of_block (lookup n (insert k v blocks))) (sym e)
        ∙ ap succs_of_block (lookup-insert_self k v blocks))
    | no ne ↦ ap succs_of_block (lookup-insert_ne k x v blocks ne) ∙ ground (arith, ==_iff k x, ne)
  ]

  keys_keep : has x (keys blocks) ≡ true → has x (keys (insert k v blocks)) ≡ true
  keys_keep h = ground (arith, has-keys-insert x k v blocks, h)

append-nil : (xs : List ℕ) → xs ++ [] ≡ xs
append-nil [] = refl
append-nil (x ∷ xs) = ap (λ l. x ∷ l) (append-nil xs)

has-append_or : (x : ℕ) (xs ys : List ℕ) → has x (xs ++ ys) ≡ has x xs || has x ys
has-append_or x [] ys = refl
has-append_or x (y ∷ xs) ys = ground (arith, has-append_or x xs ys)

module _ (f : ℕ → List ℕ) (k x : ℕ) (old : List ℕ) (here : f k ≡ old) where
  same_at : (if k == x then old else f x) ≡ f x
  same_at = elim (ℕ_discrete k x) [
    | yes e ↦ rw ((==_iff k x).1 e) (sym here ∙ ap f e)
    | no ne ↦ ground (arith, ==_iff k x, ne)
  ]

  append_at :
      (item : ℕ)
      → (if k == x then old ++ item ∷ [] else f x) ≡ f x ++ (if k == x then item ∷ [] else [])
  append_at item = elim (ℕ_discrete k x) [
    | yes e ↦ rw ((==_iff k x).1 e) (ap (λ l. l ++ item ∷ []) (sym here ∙ ap f e))
    | no ne ↦ elim (Bool-cases (k == x)) [
      | inl same ↦ absurd (ne ((==_iff k x).0 same))
      | inr apart ↦ rw apart (sym (append-nil (f x)))
    ]
  ]

-- What one edge changes.
abbrev half : ℕ → ℕ → Blocks → Block → Blocks
half self block blocks this = insert self (record this { preds = this.preds ++ block ∷ [] }) blocks

module _ (self block : ℕ) (blocks : Blocks) (this other : Block) where
  abbrev half' : Blocks
  half' = half self block blocks this

  abbrev linked : Blocks
  linked = insert block (record other { succs = other.succs ++ self ∷ [] }) half'

  module _ (found : lookup self blocks ≡ some this) (found' : lookup block half' ≡ some other) where
    linked_preds :
        (x : ℕ) → preds_of linked x ≡ preds_of blocks x ++ (if self == x then block ∷ [] else [])
    linked_preds x =
        preds_of-insert block x _ half'
        ∙ same_at (preds_of half') block x other.preds (ap preds_of_block found')
        ∙ preds_of-insert self x _ blocks
        ∙ append_at (preds_of blocks) self x this.preds (ap preds_of_block found) block

    half_succs : (y : ℕ) → succs_of half' y ≡ succs_of blocks y
    unfolding succs_of
    half_succs y =
        succs_of-insert self y _ blocks
        ∙ same_at (succs_of blocks) self y this.succs (ap succs_of_block found)

    linked_succs :
        (y : ℕ) → succs_of linked y ≡ succs_of blocks y ++ (if block == y then self ∷ [] else [])
    unfolding succs_of
    linked_succs y =
        succs_of-insert block y _ half'
        ∙ append_at (succs_of half') block y other.succs (ap succs_of_block found') self
        ∙ ap (λ l. l ++ (if block == y then self ∷ [] else [])) (half_succs y)

    edges_stay :
        IsWired blocks → (n m : ℕ) → has m (succs_of linked n) ≡ true → has m (keys blocks) ≡ true
    edges_stay w n m h =
        let split = has-append_or m (succs_of blocks n) (if block == n then self ∷ [] else []) in
        ground (
          arith,
          w.closed n m,
          h,
          ap (has m) (linked_succs n),
          split,
          ==_iff m self,
          ==_iff block n,
          has-keys self this blocks found,
        )

    linked-IsWired : IsWired blocks → IsWired linked
    linked-IsWired w = record {
      distinct =
          keys-insert-AreDistinct block _ half' (keys-insert-AreDistinct self _ blocks w.distinct);
      closed = λ n m h. keys_keep block m _ half' (keys_keep self m _ blocks (edges_stay w n m h));
      symmetric = λ x y.
          ap (count y) (linked_preds x)
          ∙ count-append y (preds_of blocks x) (if self == x then block ∷ [] else [])
          ∙ ground (arith, w.symmetric x y)
          ∙ sym (
              ap (count x) (linked_succs y)
              ∙ count-append x (succs_of blocks y) (if block == y then self ∷ [] else []));
    }

-- The passes.
add_pred-IsWired :
    (self block : ℕ) (blocks blocks' : Blocks)
    → add_pred self block blocks ≡ ok blocks'
    → IsWired blocks
    → IsWired blocks'
unfolding add_pred
add_pred-IsWired self block blocks blocks' h w =
    let (this, a, h1) = >>=-eq-ok (or_raise key_error (lookup self blocks)) _ h in
    let (other, b, h2) =
      >>=-eq-ok (or_raise key_error (lookup block (half self block blocks this))) _ h1 in
    subst IsWired (cc h2) (
      linked-IsWired self block blocks this other (or_raise-eq-ok key_error _ a)
        (or_raise-eq-ok key_error _ b) w)

add_preds-IsWired :
    (self : ℕ) (xs : List ℕ) (blocks blocks' : Blocks)
    → add_preds self xs blocks ≡ ok blocks'
    → IsWired blocks
    → IsWired blocks'
unfolding add_preds
add_preds-IsWired self [] blocks blocks' h w = subst IsWired (cc h) w
add_preds-IsWired self (x ∷ xs) blocks blocks' h w =
    let (mid, a, rest) = >>=-eq-ok (add_pred self x blocks) _ h in
    add_preds-IsWired self xs mid blocks' rest (add_pred-IsWired self x blocks mid a w)

pub add_edges-IsWired :
    (logs : List BlockLog) (blocks blocks' : Blocks)
    → add_edges logs blocks ≡ ok blocks'
    → IsWired blocks
    → IsWired blocks'
unfolding add_edges
add_edges-IsWired [] blocks blocks' h w = subst IsWired (cc h) w
add_edges-IsWired (l ∷ logs) blocks blocks' h w =
    let (mid, a, rest) = >>=-eq-ok (add_preds l.hash l.pred blocks) _ h in
    add_edges-IsWired logs mid blocks' rest (add_preds-IsWired l.hash l.pred blocks mid a w)
