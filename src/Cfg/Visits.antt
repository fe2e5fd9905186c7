-- ===== src/Cfg/Visits.antt =====
-- What looking at the successors of a node does to the queue and the visited nodes.
use krace.Prelude.{
  ℕ, ◌+◌, ◌≡◌, refl, inl, inr, ◌⊎◌, true, false, Bool-cases, List, [], ◌∷◌, ◌++◌, arith, ◌==◌,
  ==_iff, ==_refl, has, length,
}
use krace.Bytes.Slices.{length-append}
use krace.Cfg.{Frontier, visit_succs}
use krace.Dict.Keys.{AreDistinct}
use krace.Cfg.Counts.{unvisited, unvisited-visit, has-append, has-append_last, has-append_cases}

-- What is visited stays so, the items are visited, and what is visited anew is an item and waits in
-- the queue; the sum of what is left and what waits, and that of what is visited and what is left,
-- are as they were.
pub record Visits (ks items : List ℕ) (s s' : Frontier) : Type 0 where
  pub keeps : (x : ℕ) → has x s.visit ≡ true → has x s'.visit ≡ true
  pub items_in : (x : ℕ) → has x items ≡ true → has x s'.visit ≡ true
  pub from : (x : ℕ) → has x s'.visit ≡ true → (has x s.visit ≡ true) ⊎ (has x items ≡ true)
  pub waits : (x : ℕ) → has x s'.visit ≡ true → (has x s.visit ≡ true) ⊎ (has x s'.queue ≡ true)
  pub queue_keeps : (x : ℕ) → has x s.queue ≡ true → has x s'.queue ≡ true
  pub queue_from :
      (x : ℕ) → has x s'.queue ≡ true → (has x s.queue ≡ true) ⊎ (has x s'.visit ≡ true)
  pub left : unvisited ks s'.visit + length s'.queue ≡ unvisited ks s.visit + length s.queue
  pub total : length s'.visit + unvisited ks s'.visit ≡ length s.visit + unvisited ks s.visit

here_nothing : (ks : List ℕ) (s : Frontier) → Visits ks [] s s
here_nothing ks s = record {
  keeps = λ x h. h;
  items_in = λ x h. cc;
  from = λ x h. inl h;
  waits = λ x h. inl h;
  queue_keeps = λ x h. h;
  queue_from = λ x h. inl h;
  left = refl;
  total = refl;
}

abbrev pushed : ℕ → Frontier → Frontier
pushed item s = record { queue = s.queue ++ item ∷ []; visit = item ∷ s.visit }

module _ (ks : List ℕ) (distinct : AreDistinct ks) (item : ℕ) (items : List ℕ)
    (s s' : Frontier) where
  known_first : has item s.visit ≡ true → Visits ks items s s' → Visits ks (item ∷ items) s s'
  known_first known v = record {
    keeps = v.keeps;
    items_in = λ x h. ground (arith, ==_iff x item, v.items_in x, v.keeps item);
    from = λ x h. elim (v.from x h) [ inl a ↦ inl a | inr b ↦ inr (ground (arith, b)) ];
    waits = v.waits;
    queue_keeps = v.queue_keeps;
    queue_from = v.queue_from;
    left = v.left;
    total = v.total;
  }

  new_first :
      has item s.visit ≡ false
      → has item ks ≡ true
      → Visits ks items (pushed item s) s'
      → Visits ks (item ∷ items) s s'
  new_first new key v = record {
    keeps = λ x h. v.keeps x (ground (arith, h));
    items_in = λ x h. elim (Bool-cases (x == item)) [
      | inl same ↦ v.keeps x (ground (arith, same))
      | inr apart ↦ v.items_in x (ground (arith, apart))
    ];
    from = λ x h. elim (v.from x h) [
      | inl a ↦ elim (Bool-cases (x == item)) [
        | inl same ↦ inr (ground (arith, same))
        | inr apart ↦ inl (ground (arith, apart))
      ]
      | inr b ↦ inr (ground (arith, b))
    ];
    waits = λ x h. elim (v.waits x h) [
      | inl a ↦ elim (Bool-cases (x == item)) [
        | inl same ↦
            let e = (==_iff x item).0 same in
            inr (v.queue_keeps x (rw e (has-append_last item s.queue)))
        | inr apart ↦ inl (ground (arith, apart))
      ]
      | inr b ↦ inr b
    ];
    queue_keeps = λ x h. v.queue_keeps x (has-append x s.queue (item ∷ []) h);
    queue_from = λ x h. elim (v.queue_from x h) [
      | inl a ↦ elim (Bool-cases (x == item)) [
        | inl same ↦ inr (v.keeps x (ground (arith, same)))
        | inr apart ↦ inl (ground (arith, has-append_cases x item s.queue a))
      ]
      | inr b ↦ inr b
    ];
    left = omega (
      arith,
      v.left,
      unvisited-visit item s.visit ks distinct key new,
      length-append s.queue (item ∷ []),
    );
    total = omega (arith, v.total, unvisited-visit item s.visit ks distinct key new);
  }

-- All the items that are keys are visited once.
pub visit_succs-Visits :
    (ks : List ℕ)
    → AreDistinct ks
    → (items : List ℕ) (s : Frontier) → ((x : ℕ) → has x items ≡ true → has x ks ≡ true)
    → Visits ks items s (visit_succs items s)
unfolding visit_succs
visit_succs-Visits ks distinct [] s keyed = here_nothing ks s
visit_succs-Visits ks distinct (item ∷ items) s keyed = elim (Bool-cases (has item s.visit)) [
  | inl known ↦ rw known (
      known_first ks distinct item items s (visit_succs items s) known
        (visit_succs-Visits ks distinct items s (λ x h. keyed x (ground (arith, h)))))
  | inr new ↦ rw new (
      new_first ks distinct item items s (visit_succs items (pushed item s)) new
        (keyed item (ground (arith, ==_refl item)))
        (visit_succs-Visits ks distinct items (pushed item s) (λ x h. keyed x (ground (arith, h)))))
]
