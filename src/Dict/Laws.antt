-- ===== src/Dict/Laws.antt =====
-- The laws of `dict` reads after writes.
use krace.Prelude.{
  ◌≡◌, refl, ap, ◌≢◌, ◌++◌, none, some, [], ◌∷◌, arith, if◌then◌else◌, true, false, Bool-cases, inl,
  inr,
}
use krace.Dict.{Dict, lookup, insert, erase}
use krace.Dict.Key.{Eq, ◌=?◌}

module _ {ℓ} {K : Type ℓ} ⦃e : Eq K⦄ where
  pub =?_refl : (k : K) → (k =? k) ≡ true
  =?_refl k = (e.beq_iff k k).1 refl

  pub =?_ne : (j k : K) → j ≢ k → (j =? k) ≡ false
  =?_ne j k n = elim (Bool-cases (j =? k)) [ inl p ↦ absurd (n ((e.beq_iff j k).0 p)) | inr p ↦ p ]

module _ {ℓ κ} {K : Type ℓ} {V : Type κ} ⦃e : Eq K⦄ where
  pub lookup-insert :
      (k j : K) (v : V) (d : Dict K V)
      → lookup j (insert k v d) ≡ (if k =? j then some v else lookup j d)
  unfolding lookup insert
  lookup-insert k j v [] = refl
  lookup-insert k j v ((i, w) ∷ d) =
      ground (arith, e.beq_iff i k, e.beq_iff i j, e.beq_iff k j, lookup-insert k j v d)

  pub lookup-insert_self : (k : K) (v : V) (d : Dict K V) → lookup k (insert k v d) ≡ some v
  lookup-insert_self k v d = simp (lookup-insert, =?_refl)

  pub lookup-insert_ne :
      (k j : K) (v : V) (d : Dict K V) → k ≢ j → lookup j (insert k v d) ≡ lookup j d
  lookup-insert_ne k j v d n = rw (lookup-insert, =?_ne k j n)

  pub lookup-erase_ne : (k j : K) (d : Dict K V) → k ≢ j → lookup j (erase k d) ≡ lookup j d
  unfolding lookup erase
  lookup-erase_ne k j [] n = refl
  lookup-erase_ne k j ((i, w) ∷ d) n =
      ground (arith, e.beq_iff i k, e.beq_iff i j, lookup-erase_ne k j d n)

  -- A new key goes to the end, and a write of what is there changes nothing.
  pub insert-append :
      (k : K) (v : V) (d : Dict K V) → lookup k d ≡ none → insert k v d ≡ d ++ (k, v) ∷ []
  unfolding lookup insert
  insert-append k v [] n = refl
  insert-append k v ((j, w) ∷ d) n = elim (Bool-cases (j =? k)) [
    | inl same ↦ absurd (ground (arith, same))
    | inr apart ↦ rw apart (ap (λ e. (j, w) ∷ e) (insert-append k v d (rw apart at n)))
  ]

  pub insert-insert : (k : K) (v w : V) (d : Dict K V) → insert k v (insert k w d) ≡ insert k v d
  unfolding insert
  insert-insert k v w [] = rw (=?_refl k)
  insert-insert k v w ((j, x) ∷ d) = elim (Bool-cases (j =? k)) [
    | inl same ↦ rw same (rw same)
    | inr apart ↦ rw apart (rw apart (ap (λ e. (j, x) ∷ e) (insert-insert k v w d)))
  ]

  pub insert_same : (k : K) (v : V) (d : Dict K V) → lookup k d ≡ some v → insert k v d ≡ d
  unfolding lookup insert
  insert_same k v [] e = cc
  insert_same k v ((j, w) ∷ d) e = elim (Bool-cases (j =? k)) [
    | inl same ↦ rw same (first w (rw same at e))
    | inr apart ↦ rw apart (ap (λ x. (j, w) ∷ x) (insert_same k v d (rw apart at e)))
  ]
    where
      first : (w : V) → some w ≡ some v → (j, v) ∷ d ≡ (j, w) ∷ d
      first w e = cc

  pub erase-append :
      (k : K) (v : V) (d e : Dict K V) → lookup k d ≡ none → erase k (d ++ (k, v) ∷ e) ≡ d ++ e
  unfolding lookup erase
  erase-append k v [] e n = rw (=?_refl k)
  erase-append k v ((j, w) ∷ d) e n = elim (Bool-cases (j =? k)) [
    | inl same ↦ absurd (ground (arith, same))
    | inr apart ↦ rw apart (ap (λ x. (j, w) ∷ x) (erase-append k v d e (rw apart at n)))
  ]

  pub lookup-append : (k : K) (d e : Dict K V) → lookup k d ≡ none → lookup k (d ++ e) ≡ lookup k e
  unfolding lookup
  lookup-append k [] e n = refl
  lookup-append k ((j, w) ∷ d) e n = elim (Bool-cases (j =? k)) [
    | inl same ↦ absurd (ground (arith, same))
    | inr apart ↦ rw apart (lookup-append k d e (rw apart at n))
  ]

  pub lookup-append_some :
      (k : K) (v : V) (d e : Dict K V) → lookup k d ≡ some v → lookup k (d ++ e) ≡ some v
  unfolding lookup
  lookup-append_some k v [] e h = cc
  lookup-append_some k v ((j, w) ∷ d) e h = elim (Bool-cases (j =? k)) [
    | inl same ↦ rw same (rw same at h)
    | inr apart ↦ rw apart (lookup-append_some k v d e (rw apart at h))
  ]

  pub lookup_head : (k : K) (v : V) (d : Dict K V) → lookup k ((k, v) ∷ d) ≡ some v
  unfolding lookup
  lookup_head k v d = rw (=?_refl k)
