-- ===== src/Client/Upload.antt =====
-- client/src/tus.rs: one file is uploaded by the creation of an upload and a single PATCH.
use dojjo.Prelude.Text.Order.{text_order}
use dojjo.Prelude.{ℕ, ◌*◌, ◌++◌, [], ◌∷◌, not, leb, length}
use dojjo.Prelude.Dict.{Dict, lookup}
use dojjo.Prelude.Text.{Text, text, is_empty, starts_with}
use dojjo.Prelude.Text.Decimal.{to_string}
use dojjo.Prelude.Action.{Action, lift, check, ensure, ◌>>=◌, ◌>>◌}
use dojjo.Mirror.Operation.{Bytes}
use dojjo.Client.Manifest.{ClientError, bad_status, no_location, or_context}
use dojjo.Client.Http.{Net, Method, is_error_status}
use dojjo.Client.Fetch.{Session, send}
use dojjo.Client.Origin.{manifest_base, site_origin}

abbrev pub max_upload_bytes : ℕ
max_upload_bytes = 64 * 1024 * 1024

abbrev pub creation_headers : ℕ → Text → Dict Text Text
creation_headers size upload_metadata =
    (text "tus-resumable", text "1.0.0")
    ∷ (text "upload-length", to_string size)
    ∷ (text "upload-metadata", upload_metadata)
    ∷ []

abbrev pub offset_headers : Dict Text Text
offset_headers =
    (text "tus-resumable", text "1.0.0")
    ∷ (text "upload-offset", text "0")
    ∷ (text "content-type", text "application/offset+octet-stream")
    ∷ []

module _ {W : Type 0} (net : Net W) (api_base dojo_id : Text) where
  -- The PATCH of the whole file to the upload that was created.
  unfoldable pub patch_upload : Text → Bytes → Action (Session W) ClientError (Unit {0})
  patch_upload location bytes = do
    check (starts_with (text "/api/") location)
    origin ← lift (site_origin api_base)
    check (starts_with (text "http") (origin ++ location))
    patch_res ← send net api_base dojo_id (record {
      method = Method.patch;
      url = origin ++ location;
      headers = offset_headers;
      body = bytes;
    })
    ensure (not (is_error_status patch_res.status)) bad_status

  unfoldable pub tus_upload_bytes : Text → Bytes → Action (Session W) ClientError (Unit {0})
  tus_upload_bytes jj_rel_path bytes = do
    check (not (is_empty dojo_id))
    check (not (is_empty jj_rel_path))
    check (leb (length bytes) max_upload_bytes)
    base ← lift (manifest_base api_base)
    create_res ← send net api_base dojo_id (record {
      method = Method.post;
      url = base ++ text "/dojo/" ++ dojo_id ++ text "/uploads";
      headers = creation_headers (length bytes) (text "jj_rel_path " ++ net.base64 jj_rel_path);
      body = [];
    })
    ensure (not (is_error_status create_res.status)) bad_status
    location ← lift (or_context (lookup (text "location") create_res.headers) no_location)
    patch_upload location bytes
