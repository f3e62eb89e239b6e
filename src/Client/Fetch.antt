-- ===== src/Client/Fetch.antt =====
-- client/src/manifest.rs: the requests for the manifest and for mirrored files. The files of the local
-- repository, which the callers write, are a part of the state.
pub mod Outcome
use Prim.Native.Nat.{ℕ, zero, suc}
use dojjo.Prelude.Text.Order.{text_order}
use dojjo.Prelude.{
  List, [], ◌∷◌, ◌++◌, Bool, true, false, not, ◌&&◌, Option, none, some, Result, err, leb, nat_eq,
  if◌then◌else◌, length,
}
use dojjo.Prelude.Order.{◌==◌}
use dojjo.Prelude.Dict.{Dict, lookup, put}
use dojjo.Prelude.Text.{Text, text, is_empty, len}
use dojjo.Prelude.Action.{Action, lift, return, fail, gets, check, ensure, modify, ◌>>=◌, ◌>>◌}
use dojjo.Mirror.Operation.{Bytes}
use dojjo.Mirror.Exclude.{jj_repo_rel_excluded_from_mirror, jj_repo_rel_git_transport_local_state}
use dojjo.Client.Http.{
  HttpRequest, HttpResponse, Net, post, get_request, mirror_url, trim_slashes, is_error_status,
  json_of,
}
use dojjo.Client.Manifest.{
  Manifest, ManifestEntry, ClientError, no_response, dojo_not_found, bad_status, bad_body, bad_json,
  still_missing, length_mismatch, sha256_mismatch, write_failed, or_context, parse_manifest,
}

-- What a call of `fs::write` leaves behind if it fails: nothing new, or a part of the contents.
pub data WriteFault : Type 0 where
  untouched : WriteFault
  left_with : Bytes → WriteFault

-- What fails on the local disk.
pub record LocalFaults : Type 0 where
  pub write : Text → Option WriteFault
  pub read : Text → Bool
  pub remove : Text → Bool

-- The server, the manifest at hand, and the regular files of the local repository.
pub record Session (W : Type 0) : Type 0 where
  pub world : W
  pub manifest : Manifest
  pub files : Dict Text Bytes

abbrev pub max_manifest_refetch_on_404 : ℕ
max_manifest_refetch_on_404 = 8

module _ {W : Type 0} (net : Net W) (api_base dojo_id : Text) where
  abbrev pub sent :
      Option HttpResponse × W → Session W → Result ClientError HttpResponse × Session W
  sent (res, w) s = (or_context res no_response, record s { world = w })

  abbrev pub send : HttpRequest → Action (Session W) ClientError HttpResponse
  send req s = sent (net.send req s.world) s

  unfoldable pub fetch_manifest : Action (Session W) ClientError Manifest
  fetch_manifest = do
    check (not (is_empty dojo_id))
    res ← send (get_request (mirror_url api_base dojo_id (text "manifest")))
    ensure (not (nat_eq res.status 404)) dojo_not_found
    ensure (not (is_error_status res.status)) bad_status
    body ← lift (json_of net.from_json res.body)
    lift (parse_manifest body)

  unfoldable pub notify_sync_complete : Action (Session W) ClientError (Unit {0})
  notify_sync_complete = do
    check (not (is_empty dojo_id))
    res ← send (record (get_request (mirror_url api_base dojo_id (text "sync-complete"))) {
      method = post;
    })
    ensure (not (nat_eq res.status 404)) dojo_not_found
    ensure (not (is_error_status res.status)) bad_status

  -- A response that is not 404, compared with the entry of the manifest.
  unfoldable pub received :
      ManifestEntry → HttpResponse → Action (Session W) ClientError (Option Bytes)
  received ent res = do
    ensure (not (is_error_status res.status)) bad_status
    bytes ← lift (or_context res.body bad_body)
    ensure (nat_eq (length bytes) ent.size) length_mismatch
    ensure (net.sha256_hex bytes == ent.sha256) sha256_mismatch
    return (some bytes)

  -- The body of the loop for the entry of the manifest; `again` is what it does after a 404.
  unfoldable pub get_entry :
      Action (Session W) ClientError (Option Bytes)
      → Text
      → Option ManifestEntry
      → Action (Session W) ClientError (Option Bytes)
  get_entry again rel none = return none
  get_entry again rel (some ent) = do
    check (not (is_empty ent.path))
    check (nat_eq (len ent.sha256) 64)
    res ← send (get_request (mirror_url api_base dojo_id rel))
    if nat_eq res.status 404 then again else received ent res

  unfoldable pub get_once :
      Action (Session W) ClientError (Option Bytes)
      → Text
      → Action (Session W) ClientError (Option Bytes)
  get_once again rel s = get_entry again rel (lookup rel s.manifest.entries) s

  -- After a 404: the manifest is replaced, and the loop goes on.
  unfoldable pub refetch :
      Action (Session W) ClientError (Option Bytes) → Action (Session W) ClientError (Option Bytes)
  refetch again = do
    manifest ← fetch_manifest
    modify (λ s. record s { manifest = manifest })
    again

  -- The loop; the number is how often the manifest may still be fetched.
  unfoldable pub get_loop : ℕ → Text → Action (Session W) ClientError (Option Bytes)
  get_loop zero rel = get_once (fail still_missing) rel
  get_loop (suc left) rel = get_once (refetch (get_loop left rel)) rel

  unfoldable pub get_mirror_object_bytes : Text → Action (Session W) ClientError (Option Bytes)
  get_mirror_object_bytes rel = do
    check (not (is_empty dojo_id))
    check (not (is_empty rel))
    check (not (is_empty (trim_slashes api_base)))
    get_loop max_manifest_refetch_on_404 rel
