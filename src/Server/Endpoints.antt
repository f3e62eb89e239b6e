-- ===== src/Server/Endpoints.antt =====
-- sync-server/src/tus_handlers.rs: the five endpoints below `/api/dojo/{dojo_id}/uploads`, for one
-- dojo. `Http` is what `http`, `httpdate`, `base64` and the database do.
pub mod Replies
pub mod Patches
pub mod Creation
mod Tests
use mathlib.Core.Option
use dojjo.Prelude.Text.Order.{text_order}
use dojjo.Prelude.{
  ℕ, List, [], ◌∷◌, ◌++◌, Bool, true, false, not, ◌&&◌, ◌||◌, Option, none, some, Result, ok, err,
  panic, if◌then◌else◌, leb, nat_eq, all,
}
use dojjo.Prelude.Order.{◌==◌}
use dojjo.Prelude.Dict.{Dict, lookup}
use dojjo.Prelude.Text.{Text, text, is_empty, starts_with, has_char, has_dots}
use dojjo.Prelude.Text.Decimal.{parse_u64}
use dojjo.Prelude.Action.{Action, lift, return, fail, check, ensure, ◌>>=◌, ◌>>◌}
use dojjo.Tus.Types.{
  Bytes, UploadId, TusError, status_code, CreateRequest, PatchRequest, CreateResponse, HeadResponse,
  PatchResponse,
}
use dojjo.Tus.Metadata.{Base64, MetadataError, validate_tus_resumable, parse_metadata}
use dojjo.Tus.Headers.{options_headers, create_headers, head_headers, patch_headers}
use dojjo.Tus.Handler.{
  default_config, handle_options, handle_create, handle_head, handle_patch, handle_delete,
}
use dojjo.Server.MirrorGet.{AppError, bad_request, not_found, internal}
use dojjo.Server.DojoId.{assert_safe_dojo_external_id, dojo_data_dir}
use dojjo.Server.Store.{Dojo, Faults, fs_dojo_upload_store}
use dojjo.Server.Finalize.{
  FinalizeError, FinalizeFaults, git_store_path_rejected, workspace_store_path_rejected,
  missing_jj_rel_path, length_mismatch, missing_declared_length, upload_not_found, io,
  invalid_jj_rel_path, finalize_into_mirror,
}

-- `to_str` reads a header's value, `valid` says which text can be one, `http_date` prints a date, and
-- `find_dojo` asks the database, which may fail, whether there is the dojo.
pub record Http : Type 0 where
  pub to_str : Bytes → Option Text
  pub valid : Text → Bool
  pub http_date : ℕ → Text
  pub find_dojo : Text → Option Bool
  pub base64 : Base64

-- A response without its body.
pub record Reply : Type 0 where
  pub status : ℕ
  pub headers : Dict Text Text

abbrev pub Endpoint : Type 0
Endpoint = Action Dojo AppError Reply

unfoldable pub finalize_status : FinalizeError → ℕ
finalize_status git_store_path_rejected = 400
finalize_status workspace_store_path_rejected = 400
finalize_status missing_jj_rel_path = 400
finalize_status (invalid_jj_rel_path e) = 400
finalize_status length_mismatch = 400
finalize_status upload_not_found = 404
finalize_status missing_declared_length = 500
finalize_status io = 500

unfoldable pub mirror_finalize_error_response : FinalizeError → Endpoint
mirror_finalize_error_response e = do
  check (leb 400 (finalize_status e))
  return (record { status = finalize_status e; headers = [] })

-- `StatusCode::from_u16` takes the numbers of three digits.
unfoldable pub tus_error_response : TusError → Endpoint
tus_error_response e = do
  check (leb 100 (status_code e) && leb (status_code e) 999)
  return (record { status = status_code e; headers = [] })

-- `match handler(…) { Ok(r) => …, Err(e) => return Ok(tus_error_response(e)) }`
abbrev pub answered {ℓ} : {A : Type ℓ} → Result TusError A → (A → Endpoint) → Endpoint
answered (ok a) k = k a
answered (err e) k = tus_error_response e
answered panic k = λ s. (panic, s)

abbrev pub handled {ℓ} : {A : Type ℓ} → Action Dojo TusError A → (A → Endpoint) → Endpoint
handled m k s = answered (m s).0 k (m s).1

abbrev pub finalized : Result FinalizeError (Unit {0}) → Endpoint → Endpoint
finalized (ok u) k = k
finalized (err e) k = mirror_finalize_error_response e
finalized panic k = λ s. (panic, s)

abbrev pub or_refuse {ℓ} : {A : Type ℓ} → Option A → Result AppError A
or_refuse none = err bad_request
or_refuse (some a) = ok a

abbrev pub metadata_or_refuse {ℓ} : {A : Type ℓ} → Result MetadataError A → Result AppError A
metadata_or_refuse (ok a) = ok a
metadata_or_refuse (err e) = err bad_request
metadata_or_refuse panic = panic

abbrev pub or_empty : Option Text → Text
or_empty none = []
or_empty (some t) = t

-- `map(parse).transpose()`
unfoldable pub optional_u64 : Option Text → Result AppError (Option ℕ)
optional_u64 none = ok none
optional_u64 (some t) = parsed (parse_u64 t)
  where
    parsed : Option ℕ → Result AppError (Option ℕ)
    parsed none = err bad_request
    parsed (some n) = ok (some n)

-- `matches!(…, Some("1"))`
abbrev pub is_one : Option Text → Bool
is_one none = false
is_one (some t) = t == text "1"

module _ (h : Http) (dojo_id : Text) where
  abbrev pub header_value : Option Bytes → Option Text
  header_value none = none
  header_value (some v) = h.to_str v

  abbrev pub header_str : Dict Text Bytes → Text → Option Text
  header_str headers name = header_value (lookup name headers)

  unfoldable pub apply_tus_headers : ℕ → Dict Text Text → Endpoint
  apply_tus_headers status headers = do
    check (all (λ kv. h.valid kv.1) headers)
    return (record { status = status; headers = headers })

  -- What every endpoint but OPTIONS begins with: the rest runs if the version is the supported one.
  unfoldable pub with_version : Dict Text Bytes → Endpoint → Endpoint
  with_version headers k =
      answered (validate_tus_resumable (or_empty (header_str headers (text "tus-resumable"))))
        (λ _. k)

module _ (h : Http) (dojo_id : Text) (f : Faults) where
  unfoldable pub tus_uploads_options : Endpoint
  tus_uploads_options = do
    lift (assert_safe_dojo_external_id dojo_id)
    lift (dojo_data_dir h.find_dojo dojo_id)
    apply_tus_headers h dojo_id 204
        (options_headers (handle_options (fs_dojo_upload_store f []) default_config))

  -- The answer to a creation.
  unfoldable pub created : CreateResponse → Endpoint
  created create = do
    check (starts_with (text "/api/dojo/") (location create.upload_id))
    apply_tus_headers h dojo_id 201
        (create_headers h.http_date create ++ (text "location", location create.upload_id) ∷ [])
    where
      location : UploadId → Text
      location id = text "/api/dojo/" ++ dojo_id ++ text "/uploads/" ++ id

  -- `fresh` is the identifier of a new upload, and `make_dir` whether `create_dir_all` fails.
  unfoldable pub tus_uploads_post : Bool → UploadId → ℕ → Dict Text Bytes → Endpoint
  tus_uploads_post make_dir fresh now headers = do
    lift (assert_safe_dojo_external_id dojo_id)
    lift (dojo_data_dir h.find_dojo dojo_id)
    ensure (not make_dir) internal
    with_version h dojo_id headers do
      upload_length ← lift (optional_u64 (header_str h dojo_id headers (text "upload-length")))
      metadata ← lift (
          metadata_or_refuse (
            parse_metadata h.base64
              (or_empty (header_str h dojo_id headers (text "upload-metadata")))))
      handled
          (handle_create (fs_dojo_upload_store f fresh) default_config now (record {
            upload_length = upload_length;
            defer_length = is_one (header_str h dojo_id headers (text "upload-defer-length"));
            metadata = metadata;
          }))
          created

  unfoldable pub tus_upload_head : UploadId → ℕ → Dict Text Bytes → Endpoint
  tus_upload_head upload_id now headers = do
    lift (assert_safe_dojo_external_id dojo_id)
    lift (dojo_data_dir h.find_dojo dojo_id)
    with_version h dojo_id headers do
      check (not (is_empty upload_id))
      handled (handle_head (fs_dojo_upload_store f []) now upload_id)
          (λ head. apply_tus_headers h dojo_id 200 (head_headers h.http_date head))

  -- The answer to a PATCH once the finalization, if there was one, has ended.
  unfoldable pub patch_reply :
      PatchResponse → Result FinalizeError (Unit {0}) × Dojo → Result AppError Reply × Dojo
  patch_reply patch (r, s) =
      finalized r (apply_tus_headers h dojo_id 204 (patch_headers h.http_date patch)) s

  -- `finalize_into_mirror` where the upload is complete, and the answer.
  unfoldable pub patched : FinalizeFaults → UploadId → PatchResponse → Endpoint
  patched g upload_id patch s =
      patch_reply patch
        (if patch.upload_complete then finalize_into_mirror f g upload_id s else (ok tt, s))

  unfoldable pub tus_upload_patch :
      FinalizeFaults → UploadId → ℕ → Dict Text Bytes → Bytes → Endpoint
  tus_upload_patch g upload_id now headers body = do
    lift (assert_safe_dojo_external_id dojo_id)
    lift (dojo_data_dir h.find_dojo dojo_id)
    with_version h dojo_id headers do
      raw ← lift (or_refuse (header_str h dojo_id headers (text "upload-offset")))
      offset ← lift (or_refuse (parse_u64 raw))
      check (not (is_empty upload_id))
      handled
          (handle_patch (fs_dojo_upload_store f []) now (record {
            upload_id = upload_id;
            upload_offset = offset;
            content_type = or_empty (header_str h dojo_id headers (text "content-type"));
            chunk = body;
          }))
          (patched g upload_id)

  unfoldable pub tus_upload_delete : UploadId → Dict Text Bytes → Endpoint
  tus_upload_delete upload_id headers = do
    lift (assert_safe_dojo_external_id dojo_id)
    lift (dojo_data_dir h.find_dojo dojo_id)
    with_version h dojo_id headers do
      check (not (is_empty upload_id))
      handled (handle_delete (fs_dojo_upload_store f []) upload_id)
          (λ _. return (record { status = 204; headers = [] }))
