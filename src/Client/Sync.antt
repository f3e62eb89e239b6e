-- ===== src/Client/Sync.antt =====
-- client/src/sync.rs, `run_for_dojo_home` between the calls of git: what is pushed, what is pulled,
-- what is pruned, and the check of the result.
mod Tests
pub mod Order
pub mod Up
pub mod Down
pub mod Steady
pub mod Wanted
pub mod Pulls
pub mod Prunes
pub mod Checks
pub mod Converges
pub mod Sound
pub mod Verified
use dojjo.Prelude.Text.Order.{text_order}
use dojjo.Prelude.{
  ℕ, ◌+◌, List, [], ◌∷◌, Bool, true, false, not, ◌||◌, Option, none, some, is_some, ltb, nat_eq,
  length, Result, ok, panic, assert, guard, ◌>>=◌, ◌>>◌,
}
use dojjo.Prelude.Order.{◌==◌}
use dojjo.Prelude.Order.Sets.{contains, sort}
use dojjo.Prelude.Dict.{Dict, keys, lookup, erase}
use dojjo.Prelude.Text.{Text, is_empty}
use dojjo.Client.Manifest.{
  Manifest, ManifestEntry, ClientError, missing_server_path, after_sync_sha_mismatch,
  after_sync_size_mismatch, or_context,
}
use dojjo.Client.RepoWalk.{is_local_only}

-- `sha256_index`: the size and the digest of each file.
abbrev pub Index : Type 0
Index = Dict Text (ℕ × Text)

-- A path with the given digest that the manifest lacks or has with another digest.
abbrev pub differs : Text → Option ManifestEntry → Bool
differs sha none = true
differs sha (some ent) = not (ent.sha256 == sha)

unfoldable pub push_from : Index → Manifest → List Text
push_from [] man = []
push_from ((p, (size, sha)) ∷ r) man =
    let rest = push_from r man in
    elim (differs sha (lookup p man.entries)) [ true ↦ p ∷ rest | false ↦ rest ]

unfoldable pub push_paths : Index → Manifest → List Text
push_paths index man0 = sort (push_from index man0)

-- Whether the local file, if there is one, is not what the manifest says: "already_match" or not.
abbrev pub needs_pull : Option (ℕ × Text) → ManifestEntry → Bool
needs_pull none ent = true
needs_pull (some (size, sha)) ent = not (sha == ent.sha256)

-- `expect`
abbrev pub expect_entry : Option ManifestEntry → Result ClientError ManifestEntry
expect_entry none = panic
expect_entry (some ent) = ok ent

-- Whether a path of the order is to be pulled: a round of the analysis.
unfoldable pub is_wanted : Index → Manifest → Text → Result ClientError Bool
is_wanted index man p = do
  skip ← is_local_only p
  elim skip [
    | true ↦ ok false
    | false ↦ do ent ← expect_entry (lookup p man.entries); ok (needs_pull (lookup p index) ent)
  ]

unfoldable pub pull_set_of : Index → Manifest → List Text → Result ClientError (List Text)
pull_set_of index man [] = ok []
pull_set_of index man (p ∷ ps) = do
  wanted ← is_wanted index man p
  rest ← pull_set_of index man ps
  elim wanted [ true ↦ ok (p ∷ rest) | false ↦ ok rest ]

-- A round of the first loop of `verify_local_matches_manifest`.
unfoldable pub verify_entry : Index → Text → ManifestEntry → Result ClientError (Unit {0})
verify_entry index p ent = do
  skip ← is_local_only p
  elim skip [
    | true ↦ ok tt
    | false ↦ do
      found ← or_context (lookup p index) missing_server_path
      guard (found.1 == ent.sha256) after_sync_sha_mismatch
      guard (nat_eq found.0 ent.size) after_sync_size_mismatch
  ]

unfoldable pub verify_entries : Index → Dict Text ManifestEntry → Result ClientError (Unit {0})
verify_entries index [] = ok tt
verify_entries index ((p, ent) ∷ r) = do verify_entry index p ent; verify_entries index r

-- A round of the second loop.
unfoldable pub verify_known : Manifest → Text → Result ClientError (Unit {0})
verify_known man p = do
  skip ← is_local_only p
  elim skip [ true ↦ ok tt | false ↦ assert (is_some (lookup p man.entries)) ]

unfoldable pub verify_local : Manifest → List Text → Result ClientError (Unit {0})
verify_local man [] = ok tt
verify_local man (p ∷ ps) = do verify_known man p; verify_local man ps

unfoldable pub verify_local_matches_manifest : Index → Manifest → Result ClientError (Unit {0})
verify_local_matches_manifest index man = do
  assert (not (is_empty man.revision))
  verify_entries index man.entries
  verify_local man (keys index)
