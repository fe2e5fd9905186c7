-- ===== src/Spec/Synopsis/Match.antt =====
-- Two synopses match where their threads are the same up to their order.
use mathlib.Core.List.{Perm, Permᴰ}
use mathlib.Core.List.Permᴰ
use mathlib.Core.Path.{subst}
use mathlib.Core.Logic.{∥∥₁_elim}
use krace.Prelude.{
  ◌≡◌, refl, sym, ap, ◌∙◌, inl, inr, ◌↔◌, true, Bool-cases, ◌==◌, ==_iff, List, [], ◌∷◌, arith,
  length,
}
use krace.Spec.Synopsis.{
  Names, Synopsis, same_name, match_items, match_threads, match_synopsis, order, sort_threads,
}
use krace.Spec.Synopsis.Order.{same_name_iff}
use krace.Spec.Synopsis.Sorted.{sort_threads-Perm, sort_threads-same}

match_items_iff : (t1 t2 : Names) → length t1 ≡ length t2 → (match_items t1 t2 ≡ true) ↔ (t1 ≡ t2)
unfolding match_items
match_items_iff [] [] e = (λ h. refl, λ q. refl)
match_items_iff [] (i2 ∷ t2) e = cc
match_items_iff (i1 ∷ t1) [] e = cc
match_items_iff (i1 ∷ t1) (i2 ∷ t2) e = elim (Bool-cases (same_name i1 i2)) [
  | inl s ↦ (
    λ h. cc ((same_name_iff i1 i2).0 s, (match_items_iff t1 t2 (ground (arith, e))).0 (rw s at h)),
    λ q. rw s ((match_items_iff t1 t2 (ground (arith, e))).1 (cc q)),
  )
  | inr n ↦ (λ h. cc (rw n at h), λ q. cc (n, (same_name_iff i1 i2).1 (cc q)))
]

match_threads_iff :
    (sk1 sk2 : List Names) → length sk1 ≡ length sk2 → (match_threads sk1 sk2 ≡ true) ↔ (sk1 ≡ sk2)
unfolding match_threads
match_threads_iff [] [] e = (λ h. refl, λ q. refl)
match_threads_iff [] (t2 ∷ sk2) e = cc
match_threads_iff (t1 ∷ sk1) [] e = cc
match_threads_iff (t1 ∷ sk1) (t2 ∷ sk2) e =
    let rest = match_threads_iff sk1 sk2 (ground (arith, e)) in
    elim (Bool-cases (length t1 == length t2)) [
      | inl l ↦ elim (Bool-cases (match_items t1 t2)) [
        | inl m ↦ (
          λ h. cc (
            (match_items_iff t1 t2 ((==_iff (length t1) (length t2)).0 l)).0 m,
            rest.0 (rw (l, m) at h),
          ),
          λ q. rw (l, m) (rest.1 (cc q)),
        )
        | inr m ↦ (
          λ h. cc (rw (l, m) at h),
          λ q. cc (m, (match_items_iff t1 t2 ((==_iff (length t1) (length t2)).0 l)).1 (cc q)),
        )
      ]
      | inr l ↦
          (λ h. cc (rw l at h), λ q. cc (l, (==_iff (length t1) (length t2)).1 (ap length (cc q))))
    ]

length-Perm : {ts us : List Names} → Permᴰ ts us → length ts ≡ length us
length-Perm Permᴰ.nil = refl
length-Perm (Permᴰ.cons e p) = ground (arith, length-Perm p)
length-Perm (Permᴰ.swap e f) = refl
length-Perm (Permᴰ.trans p q) = length-Perm p ∙ length-Perm q

-- Two synopses match exactly where one has the threads of the other, each as often, in any order.
pub match_synopsis-Perm : (a b : Synopsis) → (match_synopsis a b ≡ true) ↔ Perm a.sketch b.sketch
unfolding match_synopsis order
match_synopsis-Perm a b = elim (Bool-cases (length a.sketch == length b.sketch)) [
  | inl l ↦ (
    λ h.
        let equal =
          (match_threads_iff (sort_threads a.sketch) (sort_threads b.sketch) (
              length-Perm (sort_threads-Perm a.sketch)
              ∙ (==_iff (length a.sketch) (length b.sketch)).0 l
              ∙ sym (length-Perm (sort_threads-Perm b.sketch)))).0
            (rw l at h) in
        ∣ Permᴰ.trans (Permᴰ.symm (sort_threads-Perm a.sketch))
          (subst (λ ts. Permᴰ ts b.sketch) (sym equal) (sort_threads-Perm b.sketch)) ∣₁,
    λ p. ∥∥₁_elim p (hlevel) (λ d. rw l (
        (match_threads_iff (sort_threads a.sketch) (sort_threads b.sketch)
            (ap length (sort_threads-same d))).1
          (sort_threads-same d))),
  )
  | inr l ↦ (
    λ h. cc (rw l at h),
    λ p.
        ∥∥₁_elim p (hlevel)
          (λ d. cc (l, (==_iff (length a.sketch) (length b.sketch)).1 (length-Perm d))),
  )
]
