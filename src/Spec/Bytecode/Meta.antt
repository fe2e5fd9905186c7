-- ===== src/Spec/Bytecode/Meta.antt =====
-- What the meta region of an image has to hold, said without the code that computes it: the addresses
-- of the holes of the pointers, and the spans of the descriptors.
use mathlib.Core.List.{Perm}
use mathlib.Core.Path.{subst}
use krace.Prelude.{
  ℕ, ◌≡◌, refl, sym, ap, ◌∙◌, inl, inr, ◌⊎◌, true, Bool-cases, Option, none, some, List, [], ◌∷◌,
  arith, ◌==◌, ==_iff, has, map, All, Any,
}
use krace.Dict.{Dict, lookup, insert, keys}
use krace.Dict.Key.{nat_eq}
use krace.Dict.Keys.{AreDistinct, has-keys, keys-insert-AreDistinct}
use krace.Dict.Laws.{lookup-insert_self, lookup-insert_ne}
use native.Mathlib.Decide.{ℕ_discrete}
use krace.Spec.Result.{
  ok, key_error, check, check-eq-ok, or_raise, or_raise-eq-ok, map_all, ◌>>=◌, >>=-eq-ok,
}
use krace.Spec.Executable.{Lego, Hole, Executable, get_hole}
use krace.Spec.Bytecode.{ptr_addrs, fd_spans, add_all_fd, same_size, sorted}
use krace.Spec.Bytecode.Reader.{Span}
use krace.Spec.Bytecode.Words.{ok-inj}
use krace.Spec.Bytecode.Sorted.{
  IsAscending, sorted-IsAscending, sorted-Perm, sorted-AreDistinct, has-sorted,
}

-- The holes of these legos, one for each
pub data Holes (inst : Executable) : List Lego → List Hole → Type 0 where
  nothing : Holes inst [] []
  next :
      {lego : Lego} {legos : List Lego} {hole : Hole} {holes : List Hole}
      → lookup lego inst.repo ≡ some hole
      → Holes inst legos holes
      → Holes inst (lego ∷ legos) (hole ∷ holes)

-- The address of each pointer's hole, as often as there are such pointers, least first.
pub record IsRelocation (inst : Executable) (addrs : List ℕ) : Type 0 where
  pub holes : List Hole
  pub holes_are : Holes inst inst.ptrs holes
  pub same_addrs : Perm addrs (map (λ (h : Hole). h.addr) holes)
  pub ascending : IsAscending addrs

-- The span of a hole
abbrev pub IsSpan : Span → Hole → Type 0
IsSpan s h = s ≡ (h.addr, h.size)

-- A span for each descriptor's hole and for nothing else, one for each address, the least first.
pub record IsDescriptors (inst : Executable) (spans : List Span) : Type 0 where
  pub holes : List Hole
  pub holes_are : Holes inst inst.fds holes
  pub each_hole : All (λ (h : Hole). Any (λ (s : Span). IsSpan s h) spans) holes
  pub each_span : All (λ (s : Span). Any (λ (h : Hole). IsSpan s h) holes) spans
  pub ascending : IsAscending (map (λ (s : Span). s.0) spans)
  pub once : AreDistinct (map (λ (s : Span). s.0) spans)

map_all-Holes :
    (inst : Executable) (legos : List Lego) (holes : List Hole)
    → map_all (λ lego. get_hole lego inst) legos ≡ ok holes
    → Holes inst legos holes
unfolding map_all get_hole
map_all-Holes inst [] holes h = subst (Holes inst []) (ok-inj h) Holes.nothing
map_all-Holes inst (lego ∷ legos) holes h =
    let (hole, one, h₁) = >>=-eq-ok (or_raise key_error (lookup lego inst.repo)) _ h in
    let (rest, more, h₂) = >>=-eq-ok (map_all (λ lego. get_hole lego inst) legos) _ h₁ in
    subst (Holes inst (lego ∷ legos)) (ok-inj h₂) (
      Holes.next (or_raise-eq-ok key_error (lookup lego inst.repo) one)
        (map_all-Holes inst legos rest more))

pub ptr_addrs-IsRelocation :
    (inst : Executable) (addrs : List ℕ) → ptr_addrs inst ≡ ok addrs → IsRelocation inst addrs
unfolding ptr_addrs
ptr_addrs-IsRelocation inst addrs h =
    let (holes, found, h₁) = >>=-eq-ok (map_all (λ ptr. get_hole ptr inst) inst.ptrs) _ h in
    subst (IsRelocation inst) (ok-inj h₁) (record {
      holes = holes;
      holes_are = map_all-Holes inst inst.ptrs holes found;
      same_addrs = ∣ sorted-Perm (map (λ (h : Hole). h.addr) holes) ∣₁;
      ascending = sorted-IsAscending (map (λ (h : Hole). h.addr) holes);
    })

-- What `all_fd` has for an address
abbrev Has : Dict ℕ ℕ → ℕ → ℕ → Type 0
Has d a n = lookup a d ≡ some n

checked_size : (o : Option ℕ) (m n : ℕ) → same_size o n ≡ true → o ≡ some m → n ≡ m
checked_size none m n h e = cc
checked_size (some k) m n h e = cc ((==_iff k n).0 h, e)

-- A hole that passed the check leaves what is there, and adds its own span.
module _ (fd : Hole) (d : Dict ℕ ℕ) where
  insert_keeps :
      (a n : ℕ)
      → same_size (lookup fd.addr d) fd.size ≡ true
      → Has d a n
      → Has (insert fd.addr fd.size d) a n
  insert_keeps a n h e = elim (ℕ_discrete fd.addr a) [
    | yes same ↦
        subst (λ x. Has (insert fd.addr fd.size d) x n) same
          (lookup-insert_self fd.addr fd.size d
            ∙ ap (λ k. some k)
                (checked_size (lookup fd.addr d) n fd.size h (ap (λ x. lookup x d) same ∙ e)))
    | no other ↦ lookup-insert_ne fd.addr a fd.size d other ∙ e
  ]

  insert_from : (a n : ℕ) → Has (insert fd.addr fd.size d) a n → IsSpan (a, n) fd ⊎ Has d a n
  insert_from a n e = elim (ℕ_discrete fd.addr a) [
    | yes same ↦ inl (cc (same, lookup-insert_self fd.addr fd.size d, e))
    | no other ↦ inr (sym (lookup-insert_ne fd.addr a fd.size d other) ∙ e)
  ]

fds_keep :
    (fds : List Hole) (d d' : Dict ℕ ℕ) (a n : ℕ)
    → add_all_fd fds d ≡ ok d'
    → Has d a n
    → Has d' a n
unfolding add_all_fd
fds_keep [] d d' a n h e = subst (λ x. Has x a n) (ok-inj h) e
fds_keep (fd ∷ fds) d d' a n h e =
    let (u, c, h₁) = >>=-eq-ok (check (same_size (lookup fd.addr d) fd.size)) _ h in
    fds_keep fds (insert fd.addr fd.size d) d' a n h₁
      (insert_keeps fd d a n (check-eq-ok (same_size (lookup fd.addr d) fd.size) c) e)

fds_present :
    (fds : List Hole) (d d' : Dict ℕ ℕ)
    → add_all_fd fds d ≡ ok d'
    → All (λ (h : Hole). Has d' h.addr h.size) fds
unfolding add_all_fd
fds_present [] d d' h = tt
fds_present (fd ∷ fds) d d' h =
    let (u, c, h₁) = >>=-eq-ok (check (same_size (lookup fd.addr d) fd.size)) _ h in
    (
      fds_keep fds (insert fd.addr fd.size d) d' fd.addr fd.size h₁
          (lookup-insert_self fd.addr fd.size d),
      fds_present fds (insert fd.addr fd.size d) d' h₁,
    )

fds_from :
    (fds : List Hole) (d d' : Dict ℕ ℕ) (a n : ℕ)
    → add_all_fd fds d ≡ ok d'
    → Has d' a n
    → Any (IsSpan (a, n)) fds ⊎ Has d a n
unfolding add_all_fd
fds_from [] d d' a n h e = inr (subst (λ x. Has x a n) (sym (ok-inj h)) e)
fds_from (fd ∷ fds) d d' a n h e =
    let (u, c, h₁) = >>=-eq-ok (check (same_size (lookup fd.addr d) fd.size)) _ h in
    elim (fds_from fds (insert fd.addr fd.size d) d' a n h₁ e) [
      | inl later ↦ inl (Any.tail later)
      | inr before ↦ elim (insert_from fd d a n before) [
        | inl mine ↦ inl (Any.head mine)
        | inr there ↦ inr there
      ]
    ]

fds_apart :
    (fds : List Hole) (d d' : Dict ℕ ℕ)
    → add_all_fd fds d ≡ ok d'
    → AreDistinct (keys d)
    → AreDistinct (keys d')
unfolding add_all_fd
fds_apart [] d d' h k = subst (λ x. AreDistinct (keys x)) (ok-inj h) k
fds_apart (fd ∷ fds) d d' h k =
    let (u, c, h₁) = >>=-eq-ok (check (same_size (lookup fd.addr d) fd.size)) _ h in
    fds_apart fds (insert fd.addr fd.size d) d' h₁ (keys-insert-AreDistinct fd.addr fd.size d k)

-- The spans that the addresses are turned into
record AreSpans (d : Dict ℕ ℕ) (addrs : List ℕ) (spans : List Span) : Type 0 where
  firsts : map (λ (s : Span). s.0) spans ≡ addrs
  sizes : All (λ (s : Span). Has d s.0 s.1) spans

map_all-AreSpans :
    (d : Dict ℕ ℕ) (addrs : List ℕ) (spans : List Span)
    → map_all (λ addr. or_raise key_error (lookup addr d) >>= λ size. ok (addr, size)) addrs
      ≡ ok spans
    → AreSpans d addrs spans
unfolding map_all
map_all-AreSpans d [] spans h =
    subst (AreSpans d []) (ok-inj h) (record { firsts = refl; sizes = tt })
map_all-AreSpans d (a ∷ addrs) spans h =
    let (s, one, h₁) = >>=-eq-ok (or_raise key_error (lookup a d) >>= λ size. ok (a, size)) _ h in
    let (n, found, made) = >>=-eq-ok (or_raise key_error (lookup a d)) _ one in
    let (rest, more, h₂) = >>=-eq-ok (map_all _ addrs) _ h₁ in
    let r = map_all-AreSpans d addrs rest more in
    let is_span : (a, n) ≡ s = ok-inj made in
    subst (AreSpans d (a ∷ addrs)) (ap (λ x. x ∷ rest) is_span ∙ ok-inj h₂) (record {
      firsts = ap (λ l. a ∷ l) r.firsts;
      sizes = (or_raise-eq-ok key_error (lookup a d) found, r.sizes);
    })

span_at :
    (d : Dict ℕ ℕ) (a n : ℕ) (spans : List Span)
    → All (λ (s : Span). Has d s.0 s.1) spans
    → Has d a n
    → has a (map (λ (s : Span). s.0) spans) ≡ true
    → Any (λ (s : Span). s ≡ (a, n)) spans
span_at d a n [] all e h = cc
span_at d a n ((b, m) ∷ spans) all e h = elim (Bool-cases (a == b)) [
  | inl same ↦ let eq = (==_iff a b).0 same in Any.head (cc (eq, all.0, e, ap (λ x. lookup x d) eq))
  | inr apart ↦ Any.tail (span_at d a n spans all.1 e (ground (arith, h, apart)))
]

module _ (d : Dict ℕ ℕ) (spans : List Span) (are : AreSpans d (sorted (keys d)) spans) where
  each_of :
      (fds : List Hole)
      → All (λ (h : Hole). Has d h.addr h.size) fds
      → All (λ (h : Hole). Any (λ (s : Span). IsSpan s h) spans) fds
  each_of [] all = tt
  each_of (fd ∷ fds) all = (
    span_at d fd.addr fd.size spans are.sizes all.0 (
        ap (has fd.addr) are.firsts
        ∙ has-sorted fd.addr (keys d)
        ∙ has-keys fd.addr fd.size d all.0),
    each_of fds all.1,
  )

each_from :
    (d : Dict ℕ ℕ) (fds : List Hole) (spans : List Span)
    → add_all_fd fds [] ≡ ok d
    → All (λ (s : Span). Has d s.0 s.1) spans
    → All (λ (s : Span). Any (λ (h : Hole). IsSpan s h) fds) spans
unfolding lookup
each_from d fds [] h all = tt
each_from d fds ((a, n) ∷ spans) h all = (
  elim (fds_from fds [] d a n h all.0) [ inl there ↦ there | inr none_there ↦ cc ],
  each_from d fds spans h all.1,
)

pub fd_spans-IsDescriptors :
    (inst : Executable) (spans : List Span) → fd_spans inst ≡ ok spans → IsDescriptors inst spans
unfolding fd_spans
fd_spans-IsDescriptors inst spans h =
    let (holes, found, h₁) = >>=-eq-ok (map_all (λ fd. get_hole fd inst) inst.fds) _ h in
    let (d, added, h₂) = >>=-eq-ok (add_all_fd holes []) _ h₁ in
    let are = map_all-AreSpans d (sorted (keys d)) spans h₂ in
    record {
      holes = holes;
      holes_are = map_all-Holes inst inst.fds holes found;
      each_hole = each_of d spans are holes (fds_present holes [] d added);
      each_span = each_from d holes spans added are.sizes;
      ascending = subst IsAscending (sym are.firsts) (sorted-IsAscending (keys d));
      once =
          subst AreDistinct (sym are.firsts)
            (sorted-AreDistinct (keys d) (fds_apart holes [] d added tt));
    }
