-- ===== src/Server/Manifest/Publish.antt =====
-- sync-server/src/mirror_manifest.rs: the published manifest and the endpoint that serves it, for one
-- dojo, and `post_mirror_sync_complete` of mirror_sync_complete.rs, which publishes. The state is what
-- these keep on disk. `serde_json` and the normalization by JJ are parameters.
use dojjo.Prelude.{
  ℕ, List, [], ◌∷◌, ◌++◌, Bool, true, false, not, Option, none, some, Result, ok, err, panic,
  if◌then◌else◌,
}
use dojjo.Prelude.Dict.{Dict}
use dojjo.Prelude.Json.{Json, Items, num, str, arr, obj, nil, cons, end, field}
use dojjo.Prelude.Text.{Text, text, is_empty}
use dojjo.Prelude.Action.{Action, lift, return, gets, check, ensure, ◌>>=◌, ◌>>◌}
use dojjo.Mirror.Operation.{Bytes, Codec}
use dojjo.Server.MirrorGet.{AppError, internal}
use dojjo.Server.DojoId.{assert_safe_dojo_external_id, dojo_data_dir}
use dojjo.Server.Manifest.{
  MirrorEntry, ManifestBody, build_manifest_body, validate_manifest_body,
  if_none_match_includes_revision,
}

-- `derive(Serialize)` for an entry and for the body.
abbrev pub entry_json : MirrorEntry → Json
entry_json e = obj (
    field (text "path") (str e.path)
      (field (text "size") (num e.size) (field (text "sha256") (str e.sha256) end)))

abbrev pub entries_json : List MirrorEntry → Items
entries_json [] = nil
entries_json (e ∷ es) = cons (entry_json e) (entries_json es)

abbrev pub texts_json : List Text → Items
texts_json [] = nil
texts_json (p ∷ ps) = cons (str p) (texts_json ps)

abbrev pub manifest_json : ManifestBody → Json
manifest_json body = obj (
    field (text "revision") (str body.revision) (
      field (text "entries") (arr (entries_json body.entries))
        (field (text "apply_order") (arr (texts_json body.apply_order)) end)))

-- `serde_json::to_vec`, and `from_slice` at the type of the body.
pub record Serde : Type 0 where
  pub to_vec : Json → Bytes
  pub from_slice : Bytes → Option ManifestBody

-- Whether the directory is there, `mirror/`, `mirror_manifest.json` and `mirror_manifest.json.tmp`.
pub record DojoDir : Type 0 where
  pub is_dir : Bool
  pub mirror : Dict Text Bytes
  pub published : Option Bytes
  pub tmp : Option Bytes

-- What fails while one request is served: a write that fails leaves what `write` says.
pub record PublishFaults : Type 0 where
  pub write : Option (Option Bytes)
  pub rename : Bool
  pub read : Bool

pub record ManifestReply : Type 0 where
  pub status : ℕ
  pub headers : Dict Text Text
  pub body : Bytes

abbrev pub Served : Type 0 → Type 0
Served A = Action DojoDir AppError A

-- `fs::write` of the new manifest beside the published one.
abbrev pub write_tmp : Option (Option Bytes) → Bytes → Served (Unit {0})
write_tmp none json s = (ok tt, record s { tmp = some json })
write_tmp (some left) json s = (err internal, record s { tmp = left })

abbrev pub rename_tmp : Bool → Served (Unit {0})
rename_tmp fails s =
    if fails then (err internal, s) else (ok tt, record s { published = s.tmp; tmp = none })

abbrev pub body_of : Option ManifestBody → Result AppError ManifestBody
body_of none = err internal
body_of (some body) = ok body

abbrev pub etag_of : ManifestBody → Text
etag_of body = b'"' ∷ (body.revision ++ text "\"")

-- `If-None-Match` as text, if it is there and can be read.
abbrev pub is_unchanged : Option Text → ManifestBody → Result AppError Bool
is_unchanged none body = ok false
is_unchanged (some raw) body = if_none_match_includes_revision raw body.revision

abbrev pub with_mirror : DojoDir → Dict Text Bytes → DojoDir
with_mirror s mirror = record s { mirror = mirror }

module _ (serde : Serde) where
  unfoldable pub read_bytes : Option Bytes → Served (Option ManifestBody)
  read_bytes none = return none
  read_bytes (some bytes) = do
    check (not (is_empty bytes))
    body ← lift (body_of (serde.from_slice bytes))
    lift (validate_manifest_body body)
    return (some body)

module _ (serde : Serde) (valid : Text → Bool) where
  unfoldable pub manifest_response : ManifestBody → Served ManifestReply
  manifest_response body = do
    check (not (is_empty body.revision))
    check (not (is_empty (serde.to_vec (manifest_json body))))
    check (valid (etag_of body))
    return (record {
      status = 200;
      headers = (text "etag", etag_of body) ∷ (text "content-type", text "application/json") ∷ [];
      body = serde.to_vec (manifest_json body);
    })

  unfoldable pub not_modified : ManifestBody → Served ManifestReply
  not_modified body = do
    check (valid (etag_of body))
    return (record { status = 304; headers = (text "etag", etag_of body) ∷ []; body = [] })

  abbrev pub reply_to : Bool → ManifestBody → Served ManifestReply
  reply_to true body = not_modified body
  reply_to false body = manifest_response body

module _ (c : Codec) (sha256_hex : Bytes → Text) (serde : Serde) (f : PublishFaults) where
  abbrev pub live_manifest : Served ManifestBody
  live_manifest s = (build_manifest_body c sha256_hex s.mirror, s)

  unfoldable pub publish_mirror_manifest : Served ManifestBody
  publish_mirror_manifest = do
    body ← live_manifest
    lift (validate_manifest_body body)
    check (not (is_empty (serde.to_vec (manifest_json body))))
    write_tmp f.write (serde.to_vec (manifest_json body))
    rename_tmp f.rename
    return body

  unfoldable pub read_published_manifest : Served (Option ManifestBody)
  read_published_manifest = do
    ensure (not f.read) internal
    bytes ← gets (λ s. s.published)
    read_bytes serde bytes

  abbrev pub published_or_live : Option ManifestBody → Served ManifestBody
  published_or_live none = live_manifest
  published_or_live (some body) = return body

  unfoldable pub get_mirror_manifest :
      (Text → Bool) → (Text → Option Bool) → Text → Option Text → Served ManifestReply
  get_mirror_manifest valid find_dojo dojo_id if_none_match = do
    lift (assert_safe_dojo_external_id dojo_id)
    lift (dojo_data_dir find_dojo dojo_id)
    published ← read_published_manifest
    body ← published_or_live published
    check (not (is_empty body.revision))
    unchanged ← lift (is_unchanged if_none_match body)
    reply_to serde valid unchanged body

  abbrev pub published_reply : Result AppError ManifestBody → DojoDir → Result AppError ℕ × DojoDir
  published_reply (ok body) s = (ok 204, s)
  published_reply (err e) s = (err internal, s)
  published_reply panic s = (panic, s)

  -- After the normalization, which changes the files of the mirror: the status of the reply.
  abbrev pub after_normalize : Result AppError (Unit {0}) → Served ℕ
  after_normalize (ok u) s =
      published_reply (publish_mirror_manifest s).0 (publish_mirror_manifest s).1
  after_normalize (err e) s = (ok 500, s)
  after_normalize panic s = (panic, s)

  unfoldable pub post_mirror_sync_complete :
      (Text → Option Bool)
      → Text
      → (Dict Text Bytes → Result AppError (Unit {0}) × Dict Text Bytes)
      → Served ℕ
  post_mirror_sync_complete find_dojo dojo_id normalize = do
    lift (assert_safe_dojo_external_id dojo_id)
    lift (dojo_data_dir find_dojo dojo_id)
    is_dir ← gets (λ s. s.is_dir)
    check is_dir
    λ s. after_normalize (normalize s.mirror).0 (with_mirror s (normalize s.mirror).1)
