-- ===== src/Client/Sync/Sound.antt =====
-- What a successful synchronization shows, whatever the server and the disk did.
use dojjo.Prelude.{◌≡◌, sym, ap, ◌∙◌, ok, ok-injective}
use dojjo.Prelude.Text.{Text}
use dojjo.Prelude.Action.{lift, run_inv}
use dojjo.Client.Http.{Net}
use dojjo.Client.Fetch.{Session, LocalFaults}
use dojjo.Client.Sync.{verify_local_matches_manifest}
use dojjo.Client.Sync.Down.{
  local_index, finish_sync, sync_down, pull_changed, prune_local_mirror_paths_not_in_manifest,
}
use dojjo.Client.Sync.Verified.{IsMirrored, verify-IsMirrored}

module _ {W : Type 0} (net : Net W) (api_base dojo_id : Text) (faults : LocalFaults) where
  finish_sync-IsMirrored :
      (s s' : Session W) (revision : Text)
      → finish_sync net api_base dojo_id faults s ≡ (ok revision, s')
      → (revision ≡ s'.manifest.revision) × IsMirrored net.sha256_hex s'.files s'.manifest
  unfolding finish_sync local_index
  finish_sync-IsMirrored s s' revision done =
      let (index, indexed, h1) = run_inv (local_index net api_base dojo_id faults) _ s done in
      let (u, verified, h2) =
        run_inv (lift (verify_local_matches_manifest index s.manifest)) _ s h1 in
      let same : s ≡ s' = ap (λ x. x.1) h2 in
      let named : s.manifest.revision ≡ revision = ok-injective (ap (λ x. x.0) h2) in
      (
        sym named ∙ ap (λ x. x.manifest.revision) same,
        rw (sym same) (
            verify-IsMirrored net.sha256_hex faults.read s.files s.manifest index indexed verified),
      )

  -- Whatever the server answers and the disk does, if the second half of a synchronization succeeds,
  -- the revision it records is that of the manifest it ends with, every file of that manifest which is
  -- not local to a machine is there with the bytes' length and digest that the manifest gives, and
  -- no other file that the walk lists is left.
  pub sync_down-IsMirrored :
      (s s' : Session W) (revision : Text)
      → sync_down net api_base dojo_id faults s ≡ (ok revision, s')
      → (revision ≡ s'.manifest.revision) × IsMirrored net.sha256_hex s'.files s'.manifest
  unfolding sync_down
  sync_down-IsMirrored s s' revision done =
      let prune = prune_local_mirror_paths_not_in_manifest net api_base dojo_id faults in
      let (_, _, h1) = run_inv (pull_changed net api_base dojo_id faults) _ s done in
      let (_, _, h2) = run_inv prune _ _ h1 in finish_sync-IsMirrored _ s' revision h2
