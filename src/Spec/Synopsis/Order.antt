-- ===== src/Spec/Synopsis/Order.antt =====
-- `_cmp_thread` is a strict order on threads.
use krace.Prelude.{
  ℕ, ◌≡◌, refl, sym, ap, ◌∙◌, inl, inr, ◌↔◌, Bool, true, false, Bool-cases, ◌==◌, ==_iff, ltb, [],
  ◌∷◌, arith, if◌then◌else◌, length,
}
use krace.Prelude.Int.{pos, ltb_ℤ}
use krace.Spec.Synopsis.{Name, Names, same_name, lt_name, cmp_items, cmp_thread}

-- Of two different ones exactly one is before the other.
pub record IsOrder {A : Type 0} (lt : A → A → Bool) : Type 0 where
  pub asym : (x y : A) → lt x y ≡ true → lt y x ≡ false
  pub trans : (x y z : A) → lt x y ≡ true → lt y z ≡ true → lt x z ≡ true
  pub total : (x y : A) → lt x y ≡ false → lt y x ≡ false → x ≡ y

pub same_name_iff : (a b : Name) → (same_name a b ≡ true) ↔ (a ≡ b)
unfolding same_name
same_name_iff [] [] = (λ h. refl, λ e. refl)
same_name_iff [] (d ∷ ds) = (λ h. cc, λ e. cc)
same_name_iff (c ∷ cs) [] = (λ h. cc, λ e. cc)
same_name_iff (c ∷ cs) (d ∷ ds) = elim (Bool-cases (c == d)) [
  | inl e ↦ (
    λ h. cc ((==_iff c d).0 e, (same_name_iff cs ds).0 (rw e at h)),
    λ q. rw e ((same_name_iff cs ds).1 (cc q)),
  )
  | inr ne ↦ (λ h. ground (arith, ne, h), λ q. cc (ne, (==_iff c d).1 (cc q)))
]

name_asym : (a b : Name) → lt_name a b ≡ true → lt_name b a ≡ false
unfolding lt_name
name_asym [] [] h = refl
name_asym [] (d ∷ ds) h = refl
name_asym (c ∷ cs) [] h = cc
name_asym (c ∷ cs) (d ∷ ds) h = ground (arith, ==_iff c d, ==_iff d c, name_asym cs ds)

name_trans : (a b c : Name) → lt_name a b ≡ true → lt_name b c ≡ true → lt_name a c ≡ true
unfolding lt_name
name_trans [] [] c h i = i
name_trans [] (y ∷ b) [] h i = cc
name_trans [] (y ∷ b) (z ∷ c) h i = refl
name_trans (x ∷ a) [] c h i = cc
name_trans (x ∷ a) (y ∷ b) [] h i = cc
name_trans (x ∷ a) (y ∷ b) (z ∷ c) h i =
    ground (arith, ==_iff x y, ==_iff y z, ==_iff x z, name_trans a b c)

name_total : (a b : Name) → lt_name a b ≡ false → lt_name b a ≡ false → a ≡ b
unfolding lt_name
name_total [] [] h i = refl
name_total [] (d ∷ ds) h i = cc
name_total (c ∷ cs) [] h i = cc
name_total (c ∷ cs) (d ∷ ds) h i = elim (Bool-cases (c == d)) [
  | inl e ↦ cc (
    (==_iff c d).0 e,
    name_total cs ds (rw e at h) (ground (arith, i, e, ==_iff c d, ==_iff d c)),
  )
  | inr ne ↦ ground (arith, ne, h, i, ==_iff c d, ==_iff d c)
]

lt_name-IsOrder : IsOrder lt_name
lt_name-IsOrder = record { asym = name_asym; trans = name_trans; total = name_total }

-- Two names are the same, or one is before the other.
same_name-false : (a b : Name) → same_name a b ≡ false → lt_name b a ≡ false → lt_name a b ≡ true
same_name-false a b h i = elim (Bool-cases (lt_name a b)) [
  | inl before ↦ before
  | inr apart ↦ cc ((same_name_iff a b).1 (name_total a b apart i))
]

same_name-sym : (a b : Name) → same_name a b ≡ same_name b a
same_name-sym a b = elim (Bool-cases (same_name a b)) [
  | inl e ↦ e ∙ sym ((same_name_iff b a).1 (sym ((same_name_iff a b).0 e)))
  | inr ne ↦ elim (Bool-cases (same_name b a)) [
    | inl e ↦ (same_name_iff a b).1 (sym ((same_name_iff b a).0 e)) ∙ sym e
    | inr ne' ↦ ne ∙ sym ne'
  ]
]

abbrev lt_items : Names → Names → Bool
lt_items t1 t2 = ltb_ℤ (cmp_items t1 t2) (pos 0)

lt_items-cons :
    (i1 i2 : Name) (t1 t2 : Names)
    → lt_items (i1 ∷ t1) (i2 ∷ t2) ≡ (if same_name i1 i2 then lt_items t1 t2 else lt_name i1 i2)
unfolding cmp_items
lt_items-cons i1 i2 t1 t2 = elim (Bool-cases (same_name i1 i2)) [
  | inl same ↦ rw same refl
  | inr apart ↦ elim (Bool-cases (lt_name i2 i1)) [
    | inl after ↦ rw (apart, after, name_asym i2 i1 after) refl
    | inr before ↦ rw (apart, before, same_name-false i1 i2 apart before) refl
  ]
]

items_asym : (t1 t2 : Names) → lt_items t1 t2 ≡ true → lt_items t2 t1 ≡ false
unfolding cmp_items
items_asym [] t2 h = cc
items_asym (i1 ∷ t1) [] h = cc
items_asym (i1 ∷ t1) (i2 ∷ t2) h =
    lt_items-cons i2 i1 t2 t1
    ∙ ground (
      arith,
      sym (lt_items-cons i1 i2 t1 t2) ∙ h,
      same_name-sym i1 i2,
      items_asym t1 t2,
      name_asym i1 i2,
    )

before_apart :
    (a b : Name) (rest : Bool)
    → lt_name a b ≡ true
    → (if same_name a b then rest else lt_name a b) ≡ true
before_apart a b rest h = elim (Bool-cases (same_name a b)) [
  | inl e ↦ cc (
    ap (λ n. lt_name n b) ((same_name_iff a b).0 e),
    ap (λ n. lt_name b n) ((same_name_iff a b).0 e),
    name_asym a b h,
  )
  | inr ne ↦ rw ne h
]

items_trans :
    (t1 t2 t3 : Names)
    → length t1 ≡ length t2
    → length t2 ≡ length t3
    → lt_items t1 t2 ≡ true
    → lt_items t2 t3 ≡ true
    → lt_items t1 t3 ≡ true
unfolding cmp_items
items_trans [] t2 t3 e1 e2 h i = cc
items_trans (i1 ∷ t1) [] t3 e1 e2 h i = cc
items_trans (i1 ∷ t1) (i2 ∷ t2) [] e1 e2 h i = cc
items_trans (i1 ∷ t1) (i2 ∷ t2) (i3 ∷ t3) e1 e2 h i =
    lt_items-cons i1 i3 t1 t3
    ∙ (let first = sym (lt_items-cons i1 i2 t1 t2) ∙ h in
        let second = sym (lt_items-cons i2 i3 t2 t3) ∙ i in
        let rest = items_trans t1 t2 t3 (ground arith) (ground arith) in
        elim (Bool-cases (same_name i1 i2)) [
          | inl e ↦ elim (Bool-cases (same_name i2 i3)) [
            | inl e' ↦
                rw
                  ((same_name_iff i1 i3).1 ((same_name_iff i1 i2).0 e ∙ (same_name_iff i2 i3).0 e'))
                  (rest (rw e at first) (rw e' at second))
            | inr ne' ↦
                ap (λ n. if same_name n i3 then lt_items t1 t3 else lt_name n i3)
                  ((same_name_iff i1 i2).0 e)
                ∙ rw ne' (rw ne' at second)
          ]
          | inr ne ↦ elim (Bool-cases (same_name i2 i3)) [
            | inl e' ↦
                ap (λ n. if same_name i1 n then lt_items t1 t3 else lt_name i1 n)
                  (sym ((same_name_iff i2 i3).0 e'))
                ∙ rw ne (rw ne at first)
            | inr ne' ↦
                before_apart i1 i3 (lt_items t1 t3)
                  (name_trans i1 i2 i3 (rw ne at first) (rw ne' at second))
          ]
        ])

items_total :
    (t1 t2 : Names)
    → length t1 ≡ length t2
    → lt_items t1 t2 ≡ false
    → lt_items t2 t1 ≡ false
    → t1 ≡ t2
items_total [] [] e h i = refl
items_total [] (i2 ∷ t2) e h i = cc
items_total (i1 ∷ t1) [] e h i = cc
items_total (i1 ∷ t1) (i2 ∷ t2) e h i = elim (Bool-cases (same_name i1 i2)) [
  | inl s ↦ cc (
    (same_name_iff i1 i2).0 s,
    items_total t1 t2 (ground (arith, e)) (rw s at (sym (lt_items-cons i1 i2 t1 t2) ∙ h))
        (rw (sym (same_name-sym i1 i2) ∙ s) at (sym (lt_items-cons i2 i1 t2 t1) ∙ i)),
  )
  | inr ne ↦ cc (
    ne,
    (same_name_iff i1 i2).1 (
        name_total i1 i2 (rw ne at (sym (lt_items-cons i1 i2 t1 t2) ∙ h))
          (rw (sym (same_name-sym i1 i2) ∙ ne) at (sym (lt_items-cons i2 i1 t2 t1) ∙ i))),
  )
]

-- What `sorted` asks for.
abbrev pub lt_thread : Names → Names → Bool
lt_thread t1 t2 = ltb_ℤ (cmp_thread t1 t2) (pos 0)

lt_thread-shorter :
    (t1 t2 : Names)
    → lt_thread t1 t2
      ≡ (if length t1 == length t2 then lt_items t1 t2 else ltb (length t1) (length t2))
unfolding cmp_thread
lt_thread-shorter t1 t2 = elim (Bool-cases (length t1 == length t2)) [
  | inl e ↦ rw e refl
  | inr ne ↦ rw ne (ground (arith, ne, ==_iff (length t1) (length t2)))
]

thread_asym : (t1 t2 : Names) → lt_thread t1 t2 ≡ true → lt_thread t2 t1 ≡ false
thread_asym t1 t2 h =
    lt_thread-shorter t2 t1
    ∙ ground (
      arith,
      sym (lt_thread-shorter t1 t2) ∙ h,
      ==_iff (length t1) (length t2),
      ==_iff (length t2) (length t1),
      items_asym t1 t2,
    )

thread_trans :
    (t1 t2 t3 : Names) → lt_thread t1 t2 ≡ true → lt_thread t2 t3 ≡ true → lt_thread t1 t3 ≡ true
thread_trans t1 t2 t3 h i =
    lt_thread-shorter t1 t3
    ∙ ground (
      arith,
      sym (lt_thread-shorter t1 t2) ∙ h,
      sym (lt_thread-shorter t2 t3) ∙ i,
      ==_iff (length t1) (length t2),
      ==_iff (length t2) (length t3),
      ==_iff (length t1) (length t3),
      items_trans t1 t2 t3,
    )

swapped : (a b : ℕ) → (a == b) ≡ true → (b == a) ≡ true
swapped a b e = ground (arith, e, ==_iff a b, ==_iff b a)

thread_total : (t1 t2 : Names) → lt_thread t1 t2 ≡ false → lt_thread t2 t1 ≡ false → t1 ≡ t2
thread_total t1 t2 h i = elim (Bool-cases (length t1 == length t2)) [
  | inl e ↦
      items_total t1 t2 ((==_iff (length t1) (length t2)).0 e)
        (rw e at (sym (lt_thread-shorter t1 t2) ∙ h))
        (rw (swapped (length t1) (length t2) e) at (sym (lt_thread-shorter t2 t1) ∙ i))
  | inr ne ↦ ground (
    arith,
    ne,
    sym (lt_thread-shorter t1 t2) ∙ h,
    sym (lt_thread-shorter t2 t1) ∙ i,
    ==_iff (length t1) (length t2),
    ==_iff (length t2) (length t1),
  )
]

pub lt_thread-IsOrder : IsOrder lt_thread
lt_thread-IsOrder = record { asym = thread_asym; trans = thread_trans; total = thread_total }
