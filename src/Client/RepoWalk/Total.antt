-- ===== src/Client/RepoWalk/Total.antt =====
-- When the walk and the index of client/src/repo_walk.rs succeed.
use dojjo.Prelude.Text.Order.{text_order, text_eq_iff, text_lt_total}
use dojjo.Prelude.{
  List, [], ◌∷◌, ◌≡◌, inl, inr, refl, arith, ℕ, ◌+◌, ◌≤◌, Bool, true, false, is_some, length, ok,
  Bool-cases, Option-cases,
}
use dojjo.Prelude.Order.Sets.{contains, sort, place, count}
use dojjo.Prelude.Order.Laws.{contains-sort, count-sort, contains-eq-count, length-le_of_count}
use dojjo.Prelude.Dict.{Dict, keys, lookup, put, contains-keys, put_unique, length-put_le}
use dojjo.Prelude.Text.{Text, len}
use dojjo.Mirror.Operation.{Bytes}
use dojjo.Client.RepoWalk.{
  is_scanned, scan_from, scan_repo_files, windows_lt, index_from, sha256_index,
}
use dojjo.Client.RepoWalk.Index.{is_listed, scan_repo_files-contains}

-- Files of different names, each of which the walk lists or skips.
pub record IsClean (files : Dict Text Bytes) : Type 0 where
  pub unique : (p : Text) → count p (keys files) ≤ 1
  pub scanned : (p : Text) → contains (keys files) p ≡ true → is_scanned p ≡ ok (is_listed p)

windows_lt-place :
    (a : Text) (xs : List Text)
    → contains xs a ≡ false
    → windows_lt xs ≡ true
    → windows_lt (place a xs) ≡ true
unfolding windows_lt place
windows_lt-place a [] h k = refl
windows_lt-place a (x ∷ []) h k = ground (arith, h, text_lt_total x a)
windows_lt-place a (x ∷ y ∷ r) h k =
    ground (arith, h, k, text_lt_total x a, windows_lt-place a (y ∷ r))

windows_lt-sort : (xs : List Text) → ((p : Text) → count p xs ≤ 1) → windows_lt (sort xs) ≡ true
unfolding sort
windows_lt-sort [] h = unfold windows_lt in refl
windows_lt-sort (x ∷ xs) h =
    let fewer : (p : Text) → count p xs ≤ 1 = λ p. ground (arith, h p) in
    let fresh : contains (sort xs) x ≡ false =
      ground (arith, contains-sort xs x, contains-eq-count xs x, h x, text_eq_iff x x) in
    windows_lt-place x (sort xs) fresh (windows_lt-sort xs fewer)

scan_from-ok :
    (ps : List Text)
    → ((p : Text) → contains ps p ≡ true → is_scanned p ≡ ok (is_listed p))
    → (l : List Text) × (scan_from ps ≡ ok l) × ((p : Text) → count p l ≤ count p ps)
unfolding scan_from
scan_from-ok [] h = ([], refl, λ p. omega arith)
scan_from-ok (q ∷ ps) h =
    let (l, run, fewer) = scan_from-ok ps (λ p here. h p (ground (arith, here))) in
    let head : is_scanned q ≡ ok (is_listed q) = h q (ground (arith, text_eq_iff q q)) in
    elim (Bool-cases (is_listed q)) [
      | inl listed ↦ (q ∷ l, rw (head, listed, run) refl, λ p. ground (arith, fewer p))
      | inr gone ↦ (l, rw (head, gone, run) refl, λ p. ground (arith, fewer p))
    ]

pub scan_repo_files-ok :
    (files : Dict Text Bytes)
    → IsClean files
    → (l : List Text) × (scan_repo_files files ≡ ok l)
      × ((p : Text) → count p l ≤ count p (keys files))
unfolding scan_repo_files
scan_repo_files-ok files clean =
    let (l, run, fewer) = scan_from-ok (keys files) clean.scanned in
    let strict = windows_lt-sort l (λ p. omega (arith, fewer p, clean.unique p)) in
    (sort l, rw (run, strict) refl, λ p. omega (arith, fewer p, count-sort p l))

module _ (sha256_hex : Bytes → Text) (unreadable : Text → Bool) (files : Dict Text Bytes)
    (readable : (p : Text) → unreadable p ≡ false)
    (sized : (b : Bytes) → len (sha256_hex b) ≡ 64) where
  index_from-ok :
      (ps : List Text) (out : Dict Text (ℕ × Text))
      → ((p : Text) → contains ps p ≡ true → is_some (lookup p files) ≡ true)
      → (index : Dict Text (ℕ × Text)) × (index_from sha256_hex unreadable files ps out ≡ ok index)
        × (length index ≤ length ps + length out)
        × (((p : Text) → count p (keys out) ≤ 1) → (p : Text) → count p (keys index) ≤ 1)
  unfolding index_from
  index_from-ok [] out h = (out, refl, omega arith, λ u. u)
  index_from-ok (q ∷ ps) out h = elim (Option-cases (lookup q files)) [
    | inl gone ↦ absurd (ground (arith, h q, gone, text_eq_iff q q))
    | inr (b, here) ↦
        let out' = put q (length b, sha256_hex b) out in
        let (index, run, short, unique) =
          index_from-ok ps out' (λ p there. h p (ground (arith, there))) in
        (
          index,
          rw (readable q, here, sized b) run,
          omega (arith, short, length-put_le q (length b, sha256_hex b) out),
          λ u. unique (put_unique q (length b, sha256_hex b) out u),
        )
  ]

  -- Of clean files that can be read there is an index, with different keys.
  pub sha256_index-ok :
      IsClean files
      → (index : Dict Text (ℕ × Text)) × (sha256_index sha256_hex unreadable files ≡ ok index)
        × (length index ≤ length (keys files))
        × ((p : Text) → count p (keys index) ≤ 1)
  unfolding sha256_index
  sha256_index-ok clean =
      let (paths, scanned, fewer) = scan_repo_files-ok files clean in
      let there : (p : Text) → contains paths p ≡ true → is_some (lookup p files) ≡ true = λ p h.
        ground (arith, h, scan_repo_files-contains files paths p scanned, contains-keys p files) in
      let (index, run, short, unique) = index_from-ok paths [] there in
      (
        index,
        rw scanned run,
        omega (arith, short, length-le_of_count paths (keys files) fewer),
        unique (λ p. omega arith),
      )
