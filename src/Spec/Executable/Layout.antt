-- ===== src/Spec/Executable/Layout.antt =====
-- How the holes of an executable lie to one another: two of them are apart, or one is within the
-- part of the other that is divided already.
use krace.Prelude.{ℕ, ◌+◌, ◌≤◌, ◌≡◌, ◌≢◌, Bool, true, ◌&&◌, ◌||◌, some, arith, leb}
use krace.Dict.{Dict, lookup, insert}
use krace.Dict.Key.{nat_eq}
use krace.Spec.Executable.{Lego, Hole}
use krace.Dict.Laws.{lookup-insert_self, lookup-insert_ne}
use native.Mathlib.Decide.{ℕ_discrete}

-- The holes lie apart, or the second within the first `p` bytes of the first, or the first within
-- the first `q` bytes of the second.
unfoldable pub is_tidy : Hole → ℕ → Hole → ℕ → Bool
is_tidy g p h q =
    leb (g.addr + g.size) h.addr
    || leb (h.addr + h.size) g.addr
    || (leb g.addr h.addr && leb (h.addr + h.size) (g.addr + p))
    || (leb h.addr g.addr && leb (g.addr + g.size) (h.addr + q))

abbrev pub Holes : Type 0
Holes = Dict Lego Hole

abbrev pub Offsets : Type 0
Offsets = Dict Lego ℕ

-- The hole of a lego, and how much of it is divided.
abbrev pub Slot : Holes → Offsets → Lego → Hole → ℕ → Type 0
Slot repo offs lego hole offset = (lookup lego repo ≡ some hole) × (lookup lego offs ≡ some offset)

-- Any two holes are tidy to each other.
abbrev pub IsLaminar : Holes → Offsets → Type 0
IsLaminar repo offs =
    (j k : Lego) (g h : Hole) (p q : ℕ)
    → j ≢ k
    → Slot repo offs j g p
    → Slot repo offs k h q
    → is_tidy g p h q ≡ true

-- A new hole is tidy to all that are there.
abbrev pub IsFree : Hole → Holes → Offsets → Type 0
IsFree hole repo offs =
    (k : Lego) (h : Hole) (q : ℕ) → Slot repo offs k h q → is_tidy hole 0 h q ≡ true

pub is_tidy_comm : (g h : Hole) (p q : ℕ) → is_tidy g p h q ≡ true → is_tidy h q g p ≡ true
unfolding is_tidy
is_tidy_comm g h p q t = ground arith

is_tidy_grow : (g h : Hole) (p q r : ℕ) → p ≤ r → is_tidy g p h q ≡ true → is_tidy g r h q ≡ true
unfolding is_tidy
is_tidy_grow g h p q r le t = ground arith

module _ (repo : Holes) (offs : Offsets) (laminar : IsLaminar repo offs) where
  -- The layout is kept where only one slot changes, and is tidy to the others.
  update-IsLaminar :
      (repo' : Holes) (offs' : Offsets) (lego : Lego)
      → ((k : Lego) (h : Hole) (q : ℕ) → lego ≢ k → Slot repo' offs' k h q → Slot repo offs k h q)
      → ((k : Lego) (g h : Hole) (p q : ℕ)
          → lego ≢ k
          → Slot repo' offs' lego g p
          → Slot repo offs k h q
          → is_tidy g p h q ≡ true)
      → IsLaminar repo' offs'
  update-IsLaminar repo' offs' lego same tidy j k g h p q ne sj sk = elim (ℕ_discrete lego j) [
    | yes e ↦
        let apart : lego ≢ k = λ f. ne (cc) in tidy k g h p q apart (rw e sj) (same k h q apart sk)
    | no apart ↦ elim (ℕ_discrete lego k) [
      | yes e ↦ is_tidy_comm h g q p (tidy j h g q p apart (rw e sk) (same j g p apart sj))
      | no apart' ↦ laminar j k g h p q ne (same j g p apart sj) (same k h q apart' sk)
    ]
  ]

  -- Dividing more of one hole keeps the layout.
  pub advance-IsLaminar :
      (root : Lego) (o o' : ℕ)
      → lookup root offs ≡ some o
      → o ≤ o'
      → IsLaminar repo (insert root o' offs)
  advance-IsLaminar root o o' found le =
      update-IsLaminar repo (insert root o' offs) root
        (λ k h q apart s. (s.0, rw (lookup-insert_ne root k o' offs apart) at s.1))
        (λ k g h p q apart s t.
          let advanced : o' ≡ p = cc (lookup-insert_self root o' offs, s.1) in
          rw (← advanced)
            (is_tidy_grow g h o q o' le (laminar root k g h o q apart (s.0, found) t)))

  -- A hole that is tidy to all may be put under a new lego.
  pub put-IsLaminar :
      (lego : Lego) (hole : Hole)
      → IsFree hole repo offs
      → IsLaminar (insert lego hole repo) (insert lego 0 offs)
  put-IsLaminar lego hole free =
      update-IsLaminar (insert lego hole repo) (insert lego 0 offs) lego
        (λ k h q apart s. (
          rw (lookup-insert_ne lego k hole repo apart) at s.0,
          rw (lookup-insert_ne lego k 0 offs apart) at s.1,
        ))
        (λ k g h p q apart s t.
          let put : hole ≡ g = cc (lookup-insert_self lego hole repo, s.0) in
          let fresh : 0 ≡ p = cc (lookup-insert_self {V = ℕ} lego 0 offs, s.1) in
          rw (← put, ← fresh) (free k h q t))

  -- The next part of a hole is tidy to all, once it is counted as divided.
  pub divided-IsFree :
      (root : Lego) (base hole : Hole) (o o' : ℕ)
      → Slot repo offs root base o
      → hole.addr ≡ base.addr + o
      → hole.addr + hole.size ≡ base.addr + o'
      → o ≤ o'
      → o' ≤ base.size
      → IsFree hole repo (insert root o' offs)
  divided-IsFree root base hole o o' found start stop le within k h q s = elim (ℕ_discrete root k) [
    | yes e ↦
        let same : base ≡ h = cc (found.0, s.0, e) in
        let advanced : o' ≡ q = cc (lookup-insert_self root o' offs, s.1, e) in
        rw (← same, ← advanced) (unfold is_tidy in ground arith)
    | no apart ↦ inside (
        laminar root k base h o q apart found
          (s.0, rw (lookup-insert_ne root k o' offs apart) at s.1))
  ]
    where
      inside : is_tidy base o h q ≡ true → is_tidy hole 0 h q ≡ true
      inside t = unfold is_tidy in ground arith
