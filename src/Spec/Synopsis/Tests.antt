-- ===== src/Spec/Synopsis/Tests.antt =====
-- Synopses of two threads.
use mathlib.Core.List.{Perm}
use krace.Prelude.{◌≡◌, refl, ◌↔◌, true, false, [], ◌∷◌}
use krace.Spec.Synopsis.{Name, Synopsis, match_synopsis}
use krace.Spec.Synopsis.Match.{match_synopsis-Perm}

-- "ab", "b"
abbrev ab : Name
ab = 97 ∷ 98 ∷ []

abbrev bb : Name
bb = 98 ∷ []

abbrev first : Synopsis
first = record { sketch = (ab ∷ bb ∷ []) ∷ (bb ∷ ab ∷ []) ∷ [] ∷ [] }

abbrev second : Synopsis
second = record { sketch = [] ∷ (bb ∷ ab ∷ []) ∷ (ab ∷ bb ∷ []) ∷ [] }

abbrev third : Synopsis
third = record { sketch = [] ∷ (bb ∷ ab ∷ []) ∷ (bb ∷ ab ∷ []) ∷ [] }

reordered : match_synopsis first second ≡ true
unfolding match_synopsis
reordered = refl

other_thread : match_synopsis first third ≡ false
unfolding match_synopsis
other_thread = refl

match_synopsis-Perm_example : (match_synopsis first second ≡ true) ↔ Perm first.sketch second.sketch
match_synopsis-Perm_example = match_synopsis-Perm first second
