-- ===== src/Cfg/Shown.antt =====
-- `show_cfg` ends, shows the blocks that are reached, and its last check is whether all are.
use mathlib.Core.Path.{subst}
use krace.Prelude.{
  ℕ, zero, suc, ◌+◌, ◌≤◌, ◌≡◌, refl, ap, ◌∙◌, inl, inr, ◌⊎◌, ◌↔◌, Bool, true, false, Bool-cases,
  some, List, [], ◌∷◌, arith, ◌==◌, ==_iff, ==_refl, has, length,
}
use krace.Dict.{key, keys}
use krace.Spec.Result.{check}
use krace.Cfg.{Blocks, Frontier, succs_of, visit_succs, walk, shown_first, check_visit, show_cfg}
use krace.Dict.Keys.{AreDistinct}
use krace.Cfg.Counts.{
  unvisited, unvisited-visit, unvisited-zero, unvisited-all, unvisited-none, length-map,
}
use krace.Cfg.Once.{IsTidy, walk-AreDistinct}
use krace.Cfg.Visits.{Visits, visit_succs-Visits}

-- The blocks that the edges lead to from the entry.
pub data Reached (blocks : Blocks) (entry : ℕ) : ℕ → Type 0 where
  here : Reached blocks entry entry
  along :
      {n m : ℕ} → Reached blocks entry n → has m (succs_of blocks n) ≡ true → Reached blocks entry m

-- Every edge leads to a block of the function.
abbrev pub IsClosed : Blocks → Type 0
IsClosed blocks = (n m : ℕ) → has m (succs_of blocks n) ≡ true → has m (keys blocks) ≡ true

module _ (blocks : Blocks) (entry : ℕ) (distinct : AreDistinct (keys blocks))
    (closed : IsClosed blocks) where
  -- What holds before each round.
  record IsGoing (queue visit : List ℕ) : Type 0 where
    keyed : (x : ℕ) → has x visit ≡ true → has x (keys blocks) ≡ true
    queued : (x : ℕ) → has x queue ≡ true → has x visit ≡ true
    reached : (x : ℕ) → has x visit ≡ true → Reached blocks entry x
    done :
        (x : ℕ)
        → has x visit ≡ true
        → (has x queue ≡ true) ⊎ ((y : ℕ) → has y (succs_of blocks x) ≡ true → has y visit ≡ true)
    total : length visit + unvisited (keys blocks) visit ≡ length (keys blocks)

  abbrev after : ℕ → List ℕ → List ℕ → Frontier
  after node queue visit =
      visit_succs (succs_of blocks node) (record { queue = queue; visit = visit })

  round :
      (node : ℕ) (queue visit : List ℕ)
      → Visits
          (keys blocks)
          (succs_of blocks node)
          (record { queue = queue; visit = visit })
          (after node queue visit)
  round node queue visit =
      visit_succs-Visits (keys blocks) distinct (succs_of blocks node) _ (closed node)

  next_round :
      (node : ℕ) (queue visit : List ℕ)
      → IsGoing (node ∷ queue) visit
      → IsGoing (after node queue visit).queue (after node queue visit).visit
  next_round node queue visit g =
      let v = round node queue visit in
      record {
        keyed = λ x h. elim (v.from x h) [ inl a ↦ g.keyed x a | inr b ↦ closed node x b ];
        queued = λ x h. elim (v.queue_from x h) [
          | inl a ↦ v.keeps x (g.queued x (ground (arith, a)))
          | inr b ↦ b
        ];
        reached = λ x h. elim (v.from x h) [
          | inl a ↦ g.reached x a
          | inr b ↦ along (g.reached node (g.queued node (ground (arith, ==_refl node)))) b
        ];
        done = λ x h. elim (v.waits x h) [
          | inl a ↦ elim (Bool-cases (x == node)) [
            | inl same ↦ inr (λ y e. v.items_in y (rw ((==_iff x node).0 same) at e))
            | inr apart ↦ elim (g.done x a) [
              | inl waiting ↦ inl (v.queue_keeps x (ground (arith, waiting)))
              | inr all ↦ inr (λ y e. v.keeps y (all y e))
            ]
          ]
          | inr b ↦ inl b
        ];
        total = omega (arith, v.total, g.total);
      }

  -- What the rounds come to.
  record IsWalked (queue visit shown visit' : List ℕ) : Type 0 where
    ends : IsGoing [] visit'
    keeps : (x : ℕ) → has x visit ≡ true → has x visit' ≡ true
    shown_in : (x : ℕ) → has x shown ≡ true → has x visit' ≡ true
    shown_all :
        (x : ℕ)
        → has x visit' ≡ true
        → (has x shown ≡ true) ⊎ ((has x visit ≡ true) × (has x queue ≡ false))

  -- A visited block that no later round shows was not waiting before this one.
  was_shown :
      (node : ℕ) (queue visit shown : List ℕ)
      → Visits
          (keys blocks)
          (succs_of blocks node)
          (record { queue = queue; visit = visit })
          (after node queue visit)
      → (x : ℕ)
      → (has x shown ≡ true)
        ⊎ ((has x (after node queue visit).visit ≡ true)
            × (has x (after node queue visit).queue ≡ false))
      → (has x (node ∷ shown) ≡ true) ⊎ ((has x visit ≡ true) × (has x (node ∷ queue) ≡ false))
  was_shown node queue visit shown v x (inl a) = inl (ground (arith, a))
  was_shown node queue visit shown v x (inr (visited, idle)) = elim (v.waits x visited) [
    | inr waiting ↦ cc
    | inl old ↦ elim (Bool-cases (x == node)) [
      | inl same ↦ inl (ground (arith, same))
      | inr apart ↦ elim (Bool-cases (has x queue)) [
        | inl waiting ↦ cc (v.queue_keeps x waiting, idle)
        | inr gone ↦ inr (old, ground (arith, apart, gone))
      ]
    ]
  ]

  walk-IsWalked :
      (fuel : ℕ) (queue visit : List ℕ)
      → IsGoing queue visit
      → unvisited (keys blocks) visit + length queue ≤ fuel
      → (shown : List ℕ) × (visit' : List ℕ) × (walk blocks fuel queue visit ≡ some (shown, visit'))
        × IsWalked queue visit shown visit'
  unfolding walk
  walk-IsWalked zero [] visit g enough = (
    [],
    visit,
    refl,
    record { ends = g; keeps = λ x h. h; shown_in = λ x h. cc; shown_all = λ x h. inr (h, refl) },
  )
  walk-IsWalked (suc fuel) [] visit g enough = (
    [],
    visit,
    refl,
    record { ends = g; keeps = λ x h. h; shown_in = λ x h. cc; shown_all = λ x h. inr (h, refl) },
  )
  walk-IsWalked zero (node ∷ queue) visit g enough = absurd (omega arith)
  walk-IsWalked (suc fuel) (node ∷ queue) visit g enough =
      let v = round node queue visit in
      let s = after node queue visit in
      let (shown, visit', walked, w) =
        walk-IsWalked fuel s.queue s.visit (next_round node queue visit g)
          (omega (arith, v.left)) in
      (
        node ∷ shown,
        visit',
        ap (shown_first node) walked,
        record {
          ends = w.ends;
          keeps = λ x h. w.keeps x (v.keeps x h);
          shown_in = λ x h. elim (Bool-cases (x == node)) [
            | inl same ↦
                rw ((==_iff x node).0 same)
                  (w.keeps node (v.keeps node (g.queued node (ground (arith, ==_refl node)))))
            | inr apart ↦ w.shown_in x (ground (arith, apart))
          ];
          shown_all = λ x h. was_shown node queue visit shown v x (w.shown_all x h);
        },
      )

all_visited :
    (blocks : Blocks) (entry : ℕ) (distinct : AreDistinct (keys blocks)) (closed : IsClosed blocks)
    (shown visit : List ℕ)
    → IsWalked blocks entry distinct closed (entry ∷ []) (entry ∷ []) shown visit
    → (x : ℕ) → Reached blocks entry x
    → has x visit ≡ true
all_visited blocks entry distinct closed shown visit w x here =
    w.keeps x (ground (arith, ==_refl x))
all_visited blocks entry distinct closed shown visit w x (along {n} r edge) =
    elim (w.ends.done n (all_visited blocks entry distinct closed shown visit w n r)) [
      | inl waiting ↦ cc
      | inr all ↦ all x edge
    ]

-- The walk for a function of distinct blocks, whose edges stay in it, ends within a round for each
-- block. It prints exactly the blocks that are reached from the entry, each once, also where its last
-- assertion fails, and that assertion holds exactly if these are all the blocks of the function.
pub show_cfg-Reached :
    (blocks : Blocks) (entry : ℕ)
    → AreDistinct (keys blocks)
    → IsClosed blocks
    → has entry (keys blocks) ≡ true
    → (shown : List ℕ) × (complete : Bool) × (show_cfg blocks entry ≡ some (shown, check complete))
      × AreDistinct shown
      × ((x : ℕ) → (has x shown ≡ true) ↔ Reached blocks entry x)
      × ((complete ≡ true) ↔ ((x : ℕ) → has x (keys blocks) ≡ true → Reached blocks entry x))
unfolding show_cfg
show_cfg-Reached blocks entry distinct closed is_key =
    let (shown, visit, walked, w) =
      walk-IsWalked blocks entry distinct closed (length blocks) (entry ∷ []) (entry ∷ []) begun
        enough in
    (
      shown,
      length blocks == length visit,
      ap (check_visit blocks) walked,
      (walk-AreDistinct blocks (length blocks) (entry ∷ []) (entry ∷ []) shown visit tidy walked).0,
      λ x. (
        λ h. w.ends.reached x (w.shown_in x h),
        λ r. elim (w.shown_all x (all_visited blocks entry distinct closed shown visit w x r)) [
          | inl a ↦ a
          | inr (h, n) ↦ cc
        ],
      ),
      (
        λ same x h. w.ends.reached x (
            unvisited-zero (keys blocks) visit
              (let e = (==_iff _ _).0 same in omega (arith, w.ends.total, length-map key blocks, e))
              x h),
        λ all. (==_iff _ _).1 (
            omega (
              arith,
              w.ends.total,
              length-map key blocks,
              unvisited-all (keys blocks) visit
                  (λ x h. all_visited blocks entry distinct closed shown visit w x (all x h)),
            )),
      ),
    )
  where
    one_left : suc (unvisited (keys blocks) (entry ∷ [])) ≡ length (keys blocks)
    one_left =
        unvisited-visit entry [] (keys blocks) distinct is_key refl ∙ unvisited-none (keys blocks)

    is_entry : (x : ℕ) → has x (entry ∷ []) ≡ true → entry ≡ x
    is_entry x h = ground (arith, ==_iff x entry)

    begun : IsGoing blocks entry distinct closed (entry ∷ []) (entry ∷ [])
    begun = record {
      keyed = λ x h. subst (λ y. has y (keys blocks) ≡ true) (is_entry x h) is_key;
      queued = λ x h. h;
      reached = λ x h. subst (Reached blocks entry) (is_entry x h) here;
      done = λ x h. inl h;
      total = omega (arith, one_left);
    }

    tidy : IsTidy (entry ∷ []) (entry ∷ [])
    tidy = record { distinct = (refl, tt); marked = λ x h. h }

    enough : unvisited (keys blocks) (entry ∷ []) + 1 ≤ length blocks
    enough = omega (arith, one_left, length-map key blocks)
