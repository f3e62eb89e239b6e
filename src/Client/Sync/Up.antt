-- ===== src/Client/Sync/Up.antt =====
-- client/src/sync.rs, `run_for_dojo_home` between `git_push_dojjo` and `git_fetch_dojjo`: the push of
-- the changed files, and the manifest that the server publishes then.
use dojjo.Prelude.Text.Order.{text_order}
use dojjo.Prelude.{List, [], ◌∷◌, not, Result, ok, err, panic, ltb, length}
use dojjo.Prelude.Dict.{lookup}
use dojjo.Prelude.Text.{Text, is_empty}
use dojjo.Prelude.Action.{Action, lift, return, check, ensure, modify, ◌>>=◌, ◌>>◌}
use dojjo.Mirror.Operation.{Codec, IoError}
use dojjo.Client.Manifest.{ClientError, read_failed, order_failed, or_context}
use dojjo.Client.Http.{Net}
use dojjo.Client.Fetch.{Session, LocalFaults, fetch_manifest, notify_sync_complete}
use dojjo.Client.Upload.{tus_upload_bytes}
use dojjo.Client.Sync.{push_paths}
use dojjo.Client.Sync.Order.{upload_order}
use dojjo.Client.Sync.Down.{local_index, max_local_files}

-- `with_context` on an `io::Error`
abbrev pub with_context {ℓ} : {A : Type ℓ} → Result IoError A → ClientError → Result ClientError A
with_context (ok a) e = ok a
with_context (err x) e = err e
with_context panic e = panic

module _ {W : Type 0} (c : Codec) (net : Net W) (api_base dojo_id : Text)
    (faults : LocalFaults) where
  -- The loop over the order, which the caller has filtered.
  unfoldable pub upload_all : List Text → Action (Session W) ClientError (Unit {0})
  upload_all [] = return tt
  upload_all (rel ∷ rels) = do
    ensure (not (faults.read rel)) read_failed
    bytes ← λ s. lift (or_context (lookup rel s.files) read_failed) s
    tus_upload_bytes net api_base dojo_id rel bytes
    upload_all rels

  -- `if !push_paths.is_empty()`
  unfoldable pub push_changed : List Text → Action (Session W) ClientError (Unit {0})
  push_changed [] = return tt
  push_changed (p ∷ ps) = do
    order ← λ s. lift (with_context (upload_order c s.files (p ∷ ps)) order_failed) s
    upload_all order

  -- The manifest of the session is the one that was fetched before the push; it is replaced.
  unfoldable pub sync_up : Action (Session W) ClientError (Unit {0})
  sync_up = do
    index ← local_index net api_base dojo_id faults
    check (ltb (length index) max_local_files)
    λ s. push_changed (push_paths index s.manifest) s
    notify_sync_complete net api_base dojo_id
    man ← fetch_manifest net api_base dojo_id
    check (not (is_empty man.revision))
    modify (λ s. record s { manifest = man })
