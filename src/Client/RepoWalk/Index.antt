-- ===== src/Client/RepoWalk/Index.antt =====
-- What the index of client/src/repo_walk.rs holds.
use dojjo.Prelude.Text.Order.{text_order, text_eq_iff}
use dojjo.Prelude.{
  List, [], ◌∷◌, ◌≡◌, inl, inr, refl, sym, ap, ◌∙◌, arith, ℕ, Bool, true, false, not, ◌&&◌, ◌||◌,
  Option, none, some, is_some, nat_eq, length, if◌then◌else◌, Result, ok, err, panic, assert, guard,
  bind_inv, ok-injective, Bool-cases,
}
use dojjo.Prelude.Order.{◌==◌}
use dojjo.Prelude.Order.Sets.{contains, sort}
use dojjo.Prelude.Order.Laws.{contains-sort}
use dojjo.Prelude.Dict.{Dict, keys, lookup, put, lookup-put, contains-keys}
use dojjo.Prelude.Text.{Text, len}
use dojjo.Mirror.Operation.{Bytes}
use dojjo.Client.Manifest.{ClientError, read_failed, or_context}
use dojjo.Client.RepoWalk.{
  is_scanned, scan_from, scan_repo_files, windows_lt, index_from, sha256_index,
}

abbrev pub is_true : Result ClientError Bool → Bool
is_true (ok b) = b
is_true (err e) = false
is_true panic = false

-- A path that the walk lists where there is a file.
abbrev pub is_listed : Text → Bool
is_listed p = is_true (is_scanned p)

scan_step-contains :
    (q : Text) (b : Bool) (ps rest l : List Text) (p : Text)
    → is_scanned q ≡ ok b
    → contains rest p ≡ (contains ps p && is_listed p)
    → ◌≡◌ {A = Result ClientError (List Text)}
        (elim b [ true ↦ ok (q ∷ rest) | false ↦ ok rest ])
        (ok l)
    → contains l p ≡ ((q == p || contains ps p) && is_listed p)
scan_step-contains q true ps rest l p scanned ih h =
    let same : q ≡ p → is_listed p ≡ true = λ e. rw (sym e, scanned) refl in
    rw (sym (ok-injective h)) (ground (arith, ih, same, text_eq_iff q p))
scan_step-contains q false ps rest l p scanned ih h =
    let same : q ≡ p → is_listed p ≡ false = λ e. rw (sym e, scanned) refl in
    rw (sym (ok-injective h)) (ground (arith, ih, same, text_eq_iff q p))

scan_from-contains :
    (ps l : List Text) (p : Text)
    → scan_from ps ≡ ok l
    → contains l p ≡ (contains ps p && is_listed p)
unfolding scan_from
scan_from-contains [] l p h = rw (sym (ok-injective h)) refl
scan_from-contains (q ∷ ps) l p h =
    let (b, scanned, h1) = bind_inv (is_scanned q) _ h in
    let (rest, more, h2) = bind_inv (scan_from ps) _ h1 in
    scan_step-contains q b ps rest l p scanned (scan_from-contains ps rest p more) h2

-- The paths that the walk lists are those of the files that are not skipped or excluded.
pub scan_repo_files-contains :
    (files : Dict Text Bytes) (l : List Text) (p : Text)
    → scan_repo_files files ≡ ok l
    → contains l p ≡ (contains (keys files) p && is_listed p)
unfolding scan_repo_files
scan_repo_files-contains files l p h =
    let (paths, scanned, h1) = bind_inv (scan_from (keys files)) _ h in
    let (u, strict, h2) = bind_inv (assert (windows_lt (sort paths))) _ h1 in
    rw (sym (ok-injective h2), contains-sort paths p)
      (scan_from-contains (keys files) paths p scanned)

module _ (sha256_hex : Bytes → Text) where
  abbrev pub digest : Option Bytes → Option (ℕ × Text)
  digest none = none
  digest (some b) = some (length b, sha256_hex b)

module _ (sha256_hex : Bytes → Text) (unreadable : Text → Bool) (files : Dict Text Bytes) where
  found_digest :
      (o : Option Bytes) (bytes : Bytes)
      → or_context o read_failed ≡ ok bytes
      → digest sha256_hex o ≡ some (length bytes, sha256_hex bytes)
  found_digest none bytes h = cc
  found_digest (some b) bytes h = rw (ok-injective h) refl

  digest_if :
      (hit listed : Bool) (o : Option Bytes)
      → hit ≡ (is_some o && listed)
      → (if hit then digest sha256_hex o else none) ≡ (if listed then digest sha256_hex o else none)
  digest_if hit listed none h = ground arith
  digest_if hit listed (some b) h = rw h refl

  index_step :
      (q p : Text) (ps : List Text) (bytes : Bytes) (out : Dict Text (ℕ × Text))
      (r : Option (ℕ × Text))
      → or_context (lookup q files) read_failed ≡ ok bytes
      → r ≡ (
          if contains ps p
          then digest sha256_hex (lookup p files)
          else lookup p (put q (length bytes, sha256_hex bytes) out))
      → r ≡ (if q == p || contains ps p then digest sha256_hex (lookup p files) else lookup p out)
  index_step q p ps bytes out r found h =
      let same : q ≡ p
          → digest sha256_hex (lookup p files) ≡ some (length bytes, sha256_hex bytes) =
        λ e. rw (sym e) (found_digest (lookup q files) bytes found) in
      let put_eq = lookup-put q p (length bytes, sha256_hex bytes) out in
      elim (Bool-cases (contains ps p)) [
        | inl more ↦ ground (arith, h, more)
        | inr last ↦ elim (Bool-cases (q == p)) [
          | inl e ↦ rw (h, last, put_eq, e, same ((text_eq_iff q p).0 e)) refl
          | inr ne ↦ rw (h, last, put_eq, ne) refl
        ]
      ]

  index_from-lookup :
      (ps : List Text) (out index : Dict Text (ℕ × Text)) (p : Text)
      → index_from sha256_hex unreadable files ps out ≡ ok index
      → lookup p index
        ≡ (if contains ps p then digest sha256_hex (lookup p files) else lookup p out)
  unfolding index_from
  index_from-lookup [] out index p h = rw (sym (ok-injective h)) refl
  index_from-lookup (q ∷ ps) out index p h =
      let (u, readable, h1) = bind_inv (guard (not (unreadable q)) read_failed) _ h in
      let (bytes, found, h2) = bind_inv (or_context (lookup q files) read_failed) _ h1 in
      let (v, sized, h3) = bind_inv (assert (nat_eq (len (sha256_hex bytes)) 64)) _ h2 in
      index_step q p ps bytes out (lookup p index) found
        (index_from-lookup ps (put q (length bytes, sha256_hex bytes) out) index p h3)

  -- The index holds the size and the digest sha256_hex of each file that the walk lists, and nothing else.
  pub sha256_index-lookup :
      (index : Dict Text (ℕ × Text)) (p : Text)
      → sha256_index sha256_hex unreadable files ≡ ok index
      → lookup p index ≡ (if is_listed p then digest sha256_hex (lookup p files) else none)
  unfolding sha256_index lookup
  sha256_index-lookup index p h =
      let (paths, scanned, h1) = bind_inv (scan_repo_files files) _ h in
      let at = index_from-lookup paths [] index p h1 in
      let listed = scan_repo_files-contains files paths p scanned in
      let here = listed ∙ ap (λ b. b && is_listed p) (contains-keys p files) in
      at ∙ digest_if (contains paths p) (is_listed p) (lookup p files) here
