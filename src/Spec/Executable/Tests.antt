-- ===== src/Spec/Executable/Tests.antt =====
-- A struct of two integers: a hole of 8 bytes that is divided in two, and filled.
use krace.Prelude.{◌≡◌, refl, true, none, some, [], ◌∷◌}
use krace.Dict.{lookup, insert, contains}
use krace.Prelude.Int.{negsuc}
use krace.Bytes.{take, drop, pack}
use krace.Spec.Pack.{pack_int}
use krace.Spec.Inspect.{extract_retv}
use krace.Spec.Inspect.RoundTrip.{extract_retv-pack_int}
use krace.Bytes.Slices.{slice, splice, zeros}
use krace.Spec.Result.{ok, raised, assertion, ◌>>=◌, check, or_raise}
use krace.Spec.Executable.{
  Hole, Executable, init, covers, add_hole, fill_hole, check_inst, new_hole,
}
use krace.Spec.Executable.Sound.{IsSound}
use krace.Spec.Executable.Writes.{
  bytes_of, AreApart, fill_hole-bytes, Reach, start, next, dug, Reach-IsSound,
}

abbrev built : Executable
built = record {
  repo = (1, new_hole 64 8) ∷ (2, new_hole 64 4) ∷ (3, new_hole 68 4) ∷ [];
  repo_offset = (1, 8) ∷ (2, 0) ∷ (3, 0) ∷ [];
  heap = zeros 72;
  heap_offset = 72;
  ptrs = [];
  fds = [];
  prep = [];
}

abbrev half_built : Executable
half_built = record built {
  repo = (1, new_hole 64 8) ∷ (2, new_hole 64 4) ∷ [];
  repo_offset = (1, 4) ∷ (2, 0) ∷ [];
}

abbrev just_root : Executable
just_root = record built { repo = (1, new_hole 64 8) ∷ []; repo_offset = (1, 0) ∷ [] }

abbrev written : Executable
written = record built {
  repo =
      (1, new_hole 64 8)
      ∷ (2, record { addr = 64; size = 4; fill = true })
      ∷ (3, new_hole 68 4)
      ∷ [];
  heap = splice 64 68 (1 ∷ 2 ∷ 3 ∷ 4 ∷ []) (zeros 72);
}

reached_built : Reach built
unfolding add_hole init zeros ◌>>=◌ check or_raise lookup insert contains
reached_built =
    next
      (next (next start (dug {inst' = just_root} 1 (some 8) 8 none refl))
        (dug {inst' = half_built} 2 (some 4) 4 (some 1) refl))
      (dug {inst' = built} 3 none 4 (some 1) refl)

Reach-IsSound_example : IsSound built
Reach-IsSound_example = Reach-IsSound reached_built

fill_hole-bytes_example :
    (bytes_of (new_hole 64 4) written ≡ 1 ∷ 2 ∷ 3 ∷ 4 ∷ [])
    × ((other : Hole)
        → AreApart (new_hole 64 4) other
        → bytes_of other written ≡ bytes_of other built)
fill_hole-bytes_example =
    fill_hole-bytes 2 (new_hole 64 4) (1 ∷ 2 ∷ 3 ∷ 4 ∷ []) built written
      (Reach-IsSound reached_built) (unfold lookup in refl)
      (unfold fill_hole covers ◌>>=◌ check or_raise lookup insert slice splice zeros take drop in
        refl)

-- A third part does not fit into the hole, and a lego has one hole.
refuses_third : add_hole 4 none 1 (some 1) built ≡ raised assertion
unfolding add_hole ◌>>=◌ check or_raise lookup contains
refuses_third = refl

refuses_twice : add_hole 2 none 1 none built ≡ raised assertion
unfolding add_hole ◌>>=◌ check lookup contains
refuses_twice = refl

-- The hole of the struct is not filled by what its parts were filled with.
not_filled : check_inst written ≡ raised assertion
unfolding check_inst ◌>>=◌ check zeros splice take drop
not_filled = refl

-- The return value -2 in the first part.
abbrev returned : Executable
returned = record built { heap = splice 64 68 (254 ∷ 255 ∷ 255 ∷ 255 ∷ []) (zeros 72) }

extract_retv-pack_int_example : extract_retv (new_hole 64 4) returned.heap ≡ ok (negsuc 1)
extract_retv-pack_int_example =
    extract_retv-pack_int (negsuc 1) 32 (254 ∷ 255 ∷ 255 ∷ 255 ∷ []) (new_hole 64 4) returned
      (unfold pack_int ◌>>=◌ pack in refl) refl (unfold slice splice zeros take drop in refl)
