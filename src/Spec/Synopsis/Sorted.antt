-- ===== src/Spec/Synopsis/Sorted.antt =====
-- Sorting threads: the result depends on which threads there are, not on their order.
use mathlib.Core.List.{Permᴰ}
use mathlib.Core.List.Permᴰ
use mathlib.Core.Path.{subst}
use krace.Prelude.{◌≡◌, refl, sym, ap, ◌∙◌, inl, inr, true, false, Bool-cases, List, [], ◌∷◌}
use krace.Spec.Synopsis.{Names, insert_thread, sort_threads}
use krace.Spec.Synopsis.Order.{IsOrder, lt_thread, lt_thread-IsOrder}

abbrev thread_order : IsOrder lt_thread
thread_order = lt_thread-IsOrder

before_next : (v t u : Names) → lt_thread v t ≡ false → lt_thread v u ≡ true → lt_thread t u ≡ true
before_next v t u h i = elim (Bool-cases (lt_thread t v)) [
  | inl j ↦ thread_order.trans t v u j i
  | inr j ↦ subst (λ x. lt_thread x u ≡ true) (thread_order.total v t h j) i
]

insert_here :
    (t v : Names) (ts : List Names) → lt_thread v t ≡ false → insert_thread t (v ∷ ts) ≡ t ∷ v ∷ ts
unfolding insert_thread
insert_here t v ts h = rw h refl

insert_thread-swap :
    (t u : Names) (ts : List Names)
    → insert_thread t (insert_thread u ts) ≡ insert_thread u (insert_thread t ts)
unfolding insert_thread
insert_thread-swap t u [] = elim (Bool-cases (lt_thread u t)) [
  | inl h ↦ rw (h, thread_order.asym u t h) refl
  | inr h ↦ elim (Bool-cases (lt_thread t u)) [
    | inl i ↦ rw (h, i) refl
    | inr i ↦
        rw (h, i)
          (ap (λ x. x ∷ u ∷ []) (thread_order.total t u i h)
            ∙ ap (λ x. u ∷ x ∷ []) (sym (thread_order.total t u i h)))
  ]
]
insert_thread-swap t u (v ∷ ts) = elim (Bool-cases (lt_thread v u)) [
  | inl h ↦ elim (Bool-cases (lt_thread v t)) [
    | inl i ↦ rw (h, i, h) (ap (λ l. v ∷ l) (insert_thread-swap t u ts))
    | inr i ↦ let j = before_next v t u i h in rw (h, i, j, h) refl
  ]
  | inr h ↦ elim (Bool-cases (lt_thread v t)) [
    | inl i ↦ let j = before_next v u t h i in rw (h, i, h, j) refl
    | inr i ↦
        ap (insert_thread t) (insert_here u v ts h)
        ∙ at_front h i
        ∙ ap (insert_thread u) (sym (insert_here t v ts i))
  ]
]
  where
    at_front :
        lt_thread v u ≡ false
        → lt_thread v t ≡ false
        → insert_thread t (u ∷ v ∷ ts) ≡ insert_thread u (t ∷ v ∷ ts)
    at_front h i = elim (Bool-cases (lt_thread u t)) [
      | inl j ↦ rw (j, thread_order.asym u t j, i) refl
      | inr j ↦ elim (Bool-cases (lt_thread t u)) [
        | inl k ↦ rw (j, k, h) refl
        | inr k ↦
            rw (j, k)
              (ap (λ x. x ∷ u ∷ v ∷ ts) (thread_order.total t u k j)
                ∙ ap (λ x. u ∷ x ∷ v ∷ ts) (sym (thread_order.total t u k j)))
      ]
    ]

insert_thread-Perm : (t : Names) (ts : List Names) → Permᴰ (insert_thread t ts) (t ∷ ts)
unfolding insert_thread
insert_thread-Perm t [] = Permᴰ.refl (t ∷ [])
insert_thread-Perm t (u ∷ us) = elim (Bool-cases (lt_thread u t)) [
  | inl h ↦ rw h (Permᴰ.trans (Permᴰ.cons refl (insert_thread-Perm t us)) (Permᴰ.swap refl refl))
  | inr h ↦ rw h (Permᴰ.refl (t ∷ u ∷ us))
]

pub sort_threads-Perm : (ts : List Names) → Permᴰ (sort_threads ts) ts
unfolding sort_threads
sort_threads-Perm [] = Permᴰ.nil
sort_threads-Perm (t ∷ ts) =
    Permᴰ.trans (insert_thread-Perm t (sort_threads ts)) (Permᴰ.cons refl (sort_threads-Perm ts))

-- Two arrangements of the same threads are sorted alike.
pub sort_threads-same : {ts us : List Names} → Permᴰ ts us → sort_threads ts ≡ sort_threads us
unfolding sort_threads
sort_threads-same Permᴰ.nil = refl
sort_threads-same (Permᴰ.cons {l₁ = ts} {l₂ = us} e p) =
    ap (λ x. insert_thread x (sort_threads ts)) e ∙ ap (insert_thread _) (sort_threads-same p)
sort_threads-same (Permᴰ.swap {a = t} {b = u} {a' = t'} {l = ts} e f) =
    insert_thread-swap t u (sort_threads ts)
    ∙ ap (λ x. insert_thread x (insert_thread t (sort_threads ts))) f
    ∙ ap (λ x. insert_thread t' (insert_thread x (sort_threads ts))) e
sort_threads-same (Permᴰ.trans p q) = sort_threads-same p ∙ sort_threads-same q
