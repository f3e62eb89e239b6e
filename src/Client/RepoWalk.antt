-- ===== src/Client/RepoWalk.antt =====
-- client/src/repo_walk.rs, over the regular files of a repository by their slash-separated paths: what
-- becomes of each file that the walk finds, and the index of the digests.
pub mod Index
pub mod Total
use dojjo.Prelude.Text.Order.{text_order}
use dojjo.Prelude.{
  List, [], ◌∷◌, ℕ, Bool, true, false, not, ◌&&◌, ◌||◌, Option, nat_eq, length, Result, ok, err,
  panic, assert, guard, ◌>>=◌, ◌>>◌,
}
use dojjo.Prelude.Order.{◌==◌, ◌<?◌}
use dojjo.Prelude.Order.Sets.{sort}
use dojjo.Prelude.Dict.{Dict, keys, lookup, put}
use dojjo.Prelude.Text.{Text, text, len, starts_with}
use dojjo.Mirror.Operation.{Bytes}
use dojjo.Mirror.Path.{PathError, parse_safe_mirror_rel}
use dojjo.Mirror.Exclude.{jj_repo_rel_excluded_from_mirror, jj_repo_rel_git_transport_local_state}
use dojjo.Client.Manifest.{ClientError, not_a_mirror_rel, read_failed, or_context}

-- `.dojjo` at the root, or a path below it.
abbrev pub is_skipped : Text → Bool
is_skipped p = p == text ".dojjo" || starts_with (text ".dojjo/") p

-- The two tests that the client puts before each use of a path: true if either excludes it.
unfoldable pub is_local_only {ℓ} : {E : Type ℓ} → Text → Result E Bool
is_local_only p = do
  host_local ← jj_repo_rel_excluded_from_mirror p
  elim host_local [ true ↦ ok true | false ↦ jj_repo_rel_git_transport_local_state p ]

-- `parse_safe_mirror_rel(&slash).is_err()`
abbrev pub mirror_rel_ok {ℓ} : {A : Type ℓ} → Result PathError A → Result ClientError (Unit {0})
mirror_rel_ok (ok a) = ok tt
mirror_rel_ok (err e) = err not_a_mirror_rel
mirror_rel_ok panic = panic

-- Whether a file of the walk is listed.
unfoldable pub is_scanned : Text → Result ClientError Bool
is_scanned p = elim (is_skipped p) [
  | true ↦ ok false
  | false ↦ do
    mirror_rel_ok (parse_safe_mirror_rel p)
    excluded ← is_local_only p
    ok (not excluded)
]

unfoldable pub scan_from : List Text → Result ClientError (List Text)
scan_from [] = ok []
scan_from (p ∷ ps) = do
  scanned ← is_scanned p
  rest ← scan_from ps
  elim scanned [ true ↦ ok (p ∷ rest) | false ↦ ok rest ]

-- `paths.windows(2).all(|w| w[0] < w[1])`
unfoldable pub windows_lt : List Text → Bool
windows_lt [] = true
windows_lt (x ∷ []) = true
windows_lt (x ∷ y ∷ r) = x <? y && windows_lt (y ∷ r)

unfoldable pub scan_repo_files : Dict Text Bytes → Result ClientError (List Text)
scan_repo_files files = do
  paths ← scan_from (keys files)
  assert (windows_lt (sort paths))
  ok (sort paths)

-- The size and the digest of each listed file. `unreadable` says which reads fail.
module _ (sha256_hex : Bytes → Text) (unreadable : Text → Bool) (files : Dict Text Bytes) where
  unfoldable pub index_from :
      List Text → Dict Text (ℕ × Text) → Result ClientError (Dict Text (ℕ × Text))
  index_from [] out = ok out
  index_from (p ∷ ps) out = do
    guard (not (unreadable p)) read_failed
    bytes ← or_context (lookup p files) read_failed
    assert (nat_eq (len (sha256_hex bytes)) 64)
    index_from ps (put p (length bytes, sha256_hex bytes) out)

  unfoldable pub sha256_index : Result ClientError (Dict Text (ℕ × Text))
  sha256_index = do paths ← scan_repo_files files; index_from paths []
