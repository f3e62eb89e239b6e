-- ===== src/Tus/Headers.antt =====
-- tus-server/src/response.rs and protocol.rs: the headers of responses. `http_date` is the crate
-- `httpdate`.
use dojjo.Prelude.{ℕ, [], ◌∷◌, ◌++◌, Option, none, some}
use dojjo.Prelude.Text.{Text, text, join}
use dojjo.Prelude.Text.Decimal.{to_string}
use dojjo.Prelude.Dict.{Dict}
use dojjo.Tus.Types.{tus_resumable, CreateResponse, HeadResponse, PatchResponse, OptionsResponse}

-- `if let Some(value)`: a header that may be left out.
abbrev pub optional : Text → Option Text → Dict Text Text
optional name none = []
optional name (some value) = (name, value) ∷ []

abbrev pub shown : Option ℕ → (ℕ → Text) → Option Text
shown none f = none
shown (some n) f = some (f n)

unfoldable pub options_headers : OptionsResponse → Dict Text Text
options_headers r =
    (text "tus-version", r.version)
    ∷ (text "tus-extension", join b',' r.supported)
    ∷ optional (text "tus-max-size") (shown r.max_size to_string)

module _ (http_date : ℕ → Text) where
  unfoldable pub create_headers : CreateResponse → Dict Text Text
  create_headers r =
      (text "tus-resumable", tus_resumable)
      ∷ (text "upload-offset", text "0")
      ∷ optional (text "upload-expires") (shown r.upload_expires http_date)

  unfoldable pub head_headers : HeadResponse → Dict Text Text
  head_headers r =
      (text "tus-resumable", tus_resumable)
        ∷ (text "upload-offset", to_string r.upload_offset)
        ∷ (text "cache-control", text "no-store")
        ∷ optional (text "upload-length") (shown r.upload_length to_string)
      ++ optional (text "upload-expires") (shown r.upload_expires http_date)

  unfoldable pub patch_headers : PatchResponse → Dict Text Text
  patch_headers r =
      (text "tus-resumable", tus_resumable)
      ∷ (text "upload-offset", to_string r.new_offset)
      ∷ (text "cache-control", text "no-store")
      ∷ optional (text "upload-expires") (shown r.upload_expires http_date)
