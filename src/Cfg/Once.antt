-- ===== src/Cfg/Once.antt =====
-- `show_cfg` prints no block twice.
use krace.Prelude.{
  ℕ, zero, suc, ◌≡◌, refl, inl, inr, ◌⊎◌, true, false, ◌||◌, Bool-cases, Option, none, some, List,
  [], ◌∷◌, ◌++◌, arith, ◌==◌, ==_iff, ==_refl, has,
}
use krace.Dict.Keys.{AreDistinct}
use krace.Cfg.{Blocks, Frontier, succs_of, visit_succs, walk, shown_first}

has-append_single : (x y : ℕ) (xs : List ℕ) → has x (xs ++ y ∷ []) ≡ has x xs || (x == y)
has-append_single x y [] = ground arith
has-append_single x y (z ∷ xs) = ground (arith, has-append_single x y xs)

append-AreDistinct :
    (x : ℕ) (xs : List ℕ) → has x xs ≡ false → AreDistinct xs → AreDistinct (xs ++ x ∷ [])
append-AreDistinct x [] n d = (refl, tt)
append-AreDistinct x (y ∷ xs) n d = (
  ground (arith, has-append_single y x xs, n, d.0, ==_iff x y, ==_iff y x),
  append-AreDistinct x xs (ground (arith, n)) d.1,
)

-- Nothing waits twice, and what waits is visited.
pub record IsTidy (queue visit : List ℕ) : Type 0 where
  pub distinct : AreDistinct queue
  pub marked : (x : ℕ) → has x queue ≡ true → has x visit ≡ true

-- What a round does to the queue
record Grown (s s' : Frontier) : Type 0 where
  tidy : IsTidy s'.queue s'.visit
  keeps : (x : ℕ) → has x s.visit ≡ true → has x s'.visit ≡ true
  fresh : (x : ℕ) → has x s'.queue ≡ true → (has x s.queue ≡ true) ⊎ (has x s.visit ≡ false)

visit_succs-Grown :
    (items : List ℕ) (s : Frontier) → IsTidy s.queue s.visit → Grown s (visit_succs items s)
unfolding visit_succs
visit_succs-Grown [] s t = record { tidy = t; keeps = λ x h. h; fresh = λ x h. inl h }
visit_succs-Grown (item ∷ items) s t = elim (Bool-cases (has item s.visit)) [
  | inl known ↦ rw known (visit_succs-Grown items s t)
  | inr new ↦
      let next : Frontier = record { queue = s.queue ++ item ∷ []; visit = item ∷ s.visit } in
      let idle : has item s.queue ≡ false = ground (arith, t.marked item, new) in
      let rest = visit_succs-Grown items next (record {
        distinct = append-AreDistinct item s.queue idle t.distinct;
        marked = λ x h. ground (arith, has-append_single x item s.queue, h, t.marked x);
      }) in
      rw new (record {
        tidy = rest.tidy;
        keeps = λ x h. rest.keeps x (ground (arith, h));
        fresh = λ x h. elim (rest.fresh x h) [
          | inr unseen ↦ inr (ground (arith, unseen))
          | inl waits ↦ elim (Bool-cases (has x s.queue)) [
            | inl before ↦ inl before
            | inr no_more ↦
                let same : x ≡ item =
                  (==_iff x item).0
                    (ground (arith, has-append_single x item s.queue, waits, no_more)) in
                inr (rw same new)
          ]
        ];
      })
]

shown_first-some :
    (node : ℕ) (o : Option (List ℕ × List ℕ)) (shown visit : List ℕ)
    → shown_first node o ≡ some (shown, visit)
    → (rest : List ℕ) × (o ≡ some (rest, visit)) × (shown ≡ node ∷ rest)
shown_first-some node none shown visit h = cc
shown_first-some node (some (rest, visit')) shown visit h = (rest, cc, cc)

nothing_shown :
    (queue visit shown : List ℕ)
    → shown ≡ []
    → AreDistinct shown
      × ((x : ℕ) → has x shown ≡ true → (has x queue ≡ true) ⊎ (has x visit ≡ false))
nothing_shown queue visit shown e = rw e (tt, λ x h. cc)

pub walk-AreDistinct :
    (blocks : Blocks) (fuel : ℕ) (queue visit shown visit' : List ℕ)
    → IsTidy queue visit
    → walk blocks fuel queue visit ≡ some (shown, visit')
    → AreDistinct shown
      × ((x : ℕ) → has x shown ≡ true → (has x queue ≡ true) ⊎ (has x visit ≡ false))
unfolding walk
walk-AreDistinct blocks zero [] visit shown visit' t h = nothing_shown [] visit shown (cc h)
walk-AreDistinct blocks (suc fuel) [] visit shown visit' t h = nothing_shown [] visit shown (cc h)
walk-AreDistinct blocks zero (node ∷ queue) visit shown visit' t h = cc
walk-AreDistinct blocks (suc fuel) (node ∷ queue) visit shown visit' t h =
    let start : Frontier = record { queue = queue; visit = visit } in
    let s = visit_succs (succs_of blocks node) start in
    let grown =
      visit_succs-Grown (succs_of blocks node) start
        (record { distinct = t.distinct.1; marked = λ x i. t.marked x (ground (arith, i)) }) in
    let (rest, walked, same) =
      shown_first-some node (walk blocks fuel s.queue s.visit) shown visit' h in
    let (once, from) = walk-AreDistinct blocks fuel s.queue s.visit rest visit' grown.tidy walked in
    let seen : has node visit ≡ true = t.marked node (ground (arith, ==_refl node)) in
    let later : has node rest ≡ false = elim (Bool-cases (has node rest)) [
      | inr idle ↦ idle
      | inl again ↦ elim (from node again) [
        | inr unseen ↦ cc (grown.keeps node seen, unseen)
        | inl waits ↦ elim (grown.fresh node waits) [
          | inl before ↦ cc (before, t.distinct.0)
          | inr unseen ↦ cc (seen, unseen)
        ]
      ]
    ] in
    rw same (
      (later, once),
      λ x i. elim (Bool-cases (x == node)) [
        | inl mine ↦ inl (ground (arith, mine))
        | inr other ↦ elim (from x (ground (arith, i, other))) [
          | inr unseen ↦ inr (elim (Bool-cases (has x visit)) [
            | inl known ↦ cc (grown.keeps x known, unseen)
            | inr new ↦ new
          ])
          | inl waits ↦ elim (grown.fresh x waits) [
            | inl before ↦ inl (ground (arith, before))
            | inr unseen ↦ inr unseen
          ]
        ]
      ],
    )
