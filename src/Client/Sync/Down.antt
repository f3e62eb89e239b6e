-- ===== src/Client/Sync/Down.antt =====
-- client/src/sync.rs, `run_for_dojo_home` after `git_fetch_dojjo`: the pull of the published manifest,
-- the pruning, and the check of the result.
use dojjo.Prelude.Text.Order.{text_order}
use dojjo.Prelude.{
  ℕ, ◌+◌, List, [], ◌∷◌, Bool, true, false, not, ◌||◌, none, some, is_some, ltb, length,
}
use dojjo.Prelude.Order.Sets.{contains}
use dojjo.Prelude.Dict.{keys, lookup, erase}
use dojjo.Prelude.Text.{Text, is_empty}
use dojjo.Prelude.Action.{Action, lift, return, gets, check, ensure, modify, ◌>>=◌, ◌>>◌}
use dojjo.Client.Manifest.{ClientError, remove_failed}
use dojjo.Client.Http.{Net}
use dojjo.Client.Fetch.{Session, LocalFaults, get_mirror_object_bytes}
use dojjo.Client.RepoWalk.{is_local_only, sha256_index}
use dojjo.Client.Pull.{write_file}
use dojjo.Client.Sync.{Index, pull_set_of, verify_local_matches_manifest}

abbrev pub max_local_files : ℕ
max_local_files = 500_000

module _ {W : Type 0} (net : Net W) (api_base dojo_id : Text) (faults : LocalFaults) where
  -- `sha256_index` of the local repository as it is now.
  unfoldable pub local_index : Action (Session W) ClientError Index
  local_index = do files ← gets (λ s. s.files); lift (sha256_index net.sha256_hex faults.read files)

  -- The rest of a round of the pull loop.
  unfoldable pub sync_object : Text → Action (Session W) ClientError (Unit {0})
  sync_object rel = do
    got ← get_mirror_object_bytes net api_base dojo_id rel
    elim got [
      | none ↦ return tt
      | some bytes ↦ do
        entries ← gets (λ s. s.manifest.entries)
        check (is_some (lookup rel entries))
        write_file net api_base dojo_id faults rel bytes
    ]

  unfoldable pub sync_objects : List Text → List Text → Action (Session W) ClientError (Unit {0})
  sync_objects pull_set [] = return tt
  sync_objects pull_set (rel ∷ rels) = do
    skip ← lift (is_local_only rel)
    elim (skip || not (contains pull_set rel)) [
      | true ↦ sync_objects pull_set rels
      | false ↦ do sync_object rel; sync_objects pull_set rels
    ]

  -- `if !pull_set.is_empty()`
  unfoldable pub sync_set : List Text → List Text → Action (Session W) ClientError (Unit {0})
  sync_set [] order = return tt
  sync_set (p ∷ ps) order = sync_objects (p ∷ ps) order

  -- The rest of a round of the pruning; true means that the path is kept.
  unfoldable pub prune_path : Bool → Text → ℕ → Action (Session W) ClientError ℕ
  prune_path true p pruned = return pruned
  prune_path false p pruned = do
    λ s. check (is_some (lookup p s.files)) s
    ensure (not (faults.remove p)) remove_failed
    modify (λ s. record s { files = erase p s.files })
    return (pruned + 1)

  -- The loop of `prune_local_mirror_paths_not_in_manifest`, with the count so far.
  unfoldable pub prune_from : List Text → ℕ → Action (Session W) ClientError ℕ
  prune_from [] pruned = return pruned
  prune_from (p ∷ ps) pruned = do
    skip ← lift (is_local_only p)
    now ← λ s. prune_path (skip || is_some (lookup p s.manifest.entries)) p pruned s
    prune_from ps now

  unfoldable pub prune_local_mirror_paths_not_in_manifest : Action (Session W) ClientError ℕ
  prune_local_mirror_paths_not_in_manifest = do
    revision ← gets (λ s. s.manifest.revision)
    check (not (is_empty revision))
    index ← local_index
    prune_from (keys index) 0

  -- The check of the result; the new `last_remote_revision` is returned.
  unfoldable pub finish_sync : Action (Session W) ClientError Text
  finish_sync = do
    index ← local_index
    man ← gets (λ s. s.manifest)
    lift (verify_local_matches_manifest index man)
    return man.revision

  -- The part up to the pruning; the manifest of the session is the published one.
  unfoldable pub pull_changed : Action (Session W) ClientError (Unit {0})
  pull_changed = do
    index ← local_index
    check (ltb (length index) max_local_files)
    man ← gets (λ s. s.manifest)
    pull_set ← lift (pull_set_of index man man.apply_order)
    sync_set pull_set man.apply_order

  unfoldable pub sync_down : Action (Session W) ClientError Text
  sync_down = do pull_changed; pruned ← prune_local_mirror_paths_not_in_manifest; finish_sync
