-- ===== src/Dart/Memory/Ranges.antt =====
-- script/dart.py: the loops of `_log_mem_add` and `_log_mem_del`.
use krace.Prelude.{
  ℕ, zero, suc, ◌+◌, ◌<◌, ◌≡◌, ◌≢◌, refl, ap, sym, ◌∙◌, Option, none, some, [], ◌∷◌, ◌++◌, arith,
}
use mathlib.Core.List.{append_assoc, append-nil}
use krace.Dict.{Dict, lookup, contains, insert, erase}
use krace.Dict.Key.{nat_eq}
use krace.Dict.Laws.{insert-append, erase-append, lookup-append, lookup-append_some, lookup_head}
use krace.Dart.State.{Analyzer}
use krace.Dart.State.Monad.{done, raised, assert_failed, pure, raise, check, ◌>>=◌}
use krace.Dart.Memory.{Repo, add_bytes, del_bytes}
use krace.Dart.Memory.Repos.{
  Holds, set_repo, get_repo-done, put_repo-done, Holds-set_repo, set_repo_twice, set_repo_same,
  byte_entries, AreFree,
}

lookup_one :
    (p q v : ℕ) (d : Dict ℕ ℕ) → lookup p d ≡ none → q ≢ p → lookup p (d ++ (q, v) ∷ []) ≡ none
lookup_one p q v d n ne = rw (lookup-append p d ((q, v) ∷ []) n) (unfold lookup in ground arith)

AreFree-append :
    (pos n q v : ℕ) (d : Dict ℕ ℕ) → q < pos → AreFree pos n d → AreFree pos n (d ++ (q, v) ∷ [])
AreFree-append pos zero q v d h free = tt
AreFree-append pos (suc n) q v d h free = (
  lookup_one pos q v d free.0 (omega arith),
  AreFree-append (pos + 1) n q v d (omega arith) free.1,
)

AreFree-shrink : (pos n : ℕ) (d e : Dict ℕ ℕ) → AreFree pos n (d ++ e) → AreFree pos n d
AreFree-shrink pos zero d e free = tt
AreFree-shrink pos (suc n) d e free =
    (smaller (lookup pos d) refl, AreFree-shrink (pos + 1) n d e free.1)
  where
    smaller : (o : Option ℕ) → lookup pos d ≡ o → lookup pos d ≡ none
    smaller none h = h
    smaller (some x) h = cc (lookup-append_some pos x d e h, free.0)

-- Bytes that are free are added behind the entries.
pub add_bytes-done :
    (repo : Repo) (hval pos n : ℕ) (d : Dict ℕ ℕ) (s : Analyzer)
    → Holds repo d s
    → AreFree pos n d
    → add_bytes repo hval pos n s ≡ done tt (set_repo repo (d ++ byte_entries hval pos n) s)
unfolding add_bytes check pure contains ◌>>=◌
add_bytes-done repo hval pos zero d s h free =
    rw append-nil (ap (done tt) (sym (set_repo_same repo d s h)))
add_bytes-done repo hval pos (suc n) d s h free =
    let d' = d ++ (pos, hval) ∷ [] in
    let h' : Holds repo d' (set_repo repo d' s) = Holds-set_repo repo d d' s h in
    rw
      (
        get_repo-done repo d s h,
        free.0,
        put_repo-done repo d (insert pos hval d) s h,
        insert-append pos hval d free.0,
      )
      (add_bytes-done repo hval (pos + 1) n d' (set_repo repo d' s) h'
          (AreFree-append (pos + 1) n pos hval d (omega arith) free.1)
        ∙ ap (done tt) (
            set_repo_twice repo d d' (d' ++ byte_entries hval (pos + 1) n) s h
            ∙ ap (λ x. set_repo repo x s)
                (append_assoc d ((pos, hval) ∷ []) (byte_entries hval (pos + 1) n))))

-- When one of the bytes to add is in use, the loop of `_log_mem_add` raises its assertion.
pub add_bytes-raised :
    (repo : Repo) (hval pos n : ℕ) (d : Dict ℕ ℕ) (s : Analyzer)
    → Holds repo d s
    → ¬ AreFree pos n d
    → (s' : Analyzer) × (add_bytes repo hval pos n s
        ≡ raised (assert_failed "memory management corrupted - add without del") s')
unfolding add_bytes check pure raise contains ◌>>=◌
add_bytes-raised repo hval pos zero d s h used = absurd (used tt)
add_bytes-raised repo hval pos (suc n) d s h used = go (lookup pos d) refl (
    add_bytes-raised repo hval (pos + 1) n (d ++ (pos, hval) ∷ [])
      (set_repo repo (d ++ (pos, hval) ∷ []) s) (Holds-set_repo repo d (d ++ (pos, hval) ∷ []) s h))
  where
    d' : Dict ℕ ℕ
    d' = d ++ (pos, hval) ∷ []

    go :
        (o : Option ℕ)
        → lookup pos d ≡ o
        → (¬ AreFree (pos + 1) n d'
            → (s' : Analyzer) × (add_bytes repo hval (pos + 1) n (set_repo repo d' s)
                ≡ raised (assert_failed "memory management corrupted - add without del") s'))
        → (s' : Analyzer) × (add_bytes repo hval pos (suc n) s
            ≡ raised (assert_failed "memory management corrupted - add without del") s')
    go (some x) e rest = (s, rw (get_repo-done repo d s h, e))
    go none e rest =
        let (s', raises) = rest (λ free. used (e, AreFree-shrink (pos + 1) n d _ free)) in
        (
          s',
          rw
              (
                get_repo-done repo d s h,
                e,
                put_repo-done repo d (insert pos hval d) s h,
                insert-append pos hval d e,
              )
              raises,
        )

-- Bytes that were added behind the entries are deleted again.
pub del_bytes-done :
    (repo : Repo) (hval pos n : ℕ) (d : Dict ℕ ℕ) (s : Analyzer)
    → Holds repo (d ++ byte_entries hval pos n) s
    → AreFree pos n d
    → del_bytes repo pos n s ≡ done tt (set_repo repo d s)
unfolding del_bytes check pure contains ◌>>=◌
del_bytes-done repo hval pos zero d s h free =
    ap (done tt) (sym (set_repo_same repo d s (rw append-nil at h)))
del_bytes-done repo hval pos (suc n) d s h free =
    let e = d ++ (pos, hval) ∷ byte_entries hval (pos + 1) n in
    let e' = d ++ byte_entries hval (pos + 1) n in
    rw
      (
        get_repo-done repo e s h,
        lookup-append pos d ((pos, hval) ∷ byte_entries hval (pos + 1) n) free.0,
        lookup_head pos hval (byte_entries hval (pos + 1) n),
        put_repo-done repo e (erase pos e) s h,
        erase-append pos hval d (byte_entries hval (pos + 1) n) free.0,
      )
      (del_bytes-done repo hval (pos + 1) n d (set_repo repo e' s) (Holds-set_repo repo e e' s h)
          free.1
        ∙ ap (done tt) (set_repo_twice repo e e' d s h))
