-- ===== src/Server/Endpoints/Tests.antt =====
-- A PATCH of an upload through the endpoint, and the metadata of the tests of tus-server/src/lib.rs.
use dojjo.Prelude.Text.Order.{text_order, text_eq}
use dojjo.Prelude.{
  ℕ, [], ◌∷◌, ◌≡◌, refl, Bool, true, false, Option, none, some, ok, err, arith, if◌then◌else◌,
}
use dojjo.Prelude.Order.{◌==◌}
use dojjo.Prelude.Dict.{Dict, lookup}
use dojjo.Prelude.Text.{Text, text, trim, split, has_dots}
use dojjo.Prelude.Text.Decimal.{to_string, parse_u64, parse_digits, print_digits}
use dojjo.Tus.Types.{Bytes, offset_octet_stream}
use dojjo.Tus.Metadata.{
  Base64, invalid_base64, validate_tus_resumable, parse_metadata, parse_pairs, parse_pair,
  before_space, after_space, decode_value,
}
use dojjo.Tus.Headers.{patch_headers}
use dojjo.Tus.Handler.{handle_patch, patch_found, check_end}
use dojjo.Server.Tests.{no_faults, upload_1, one_upload}
use dojjo.Server.Store.{get_upload, write_chunk, append_chunk, read_meta, data_len}
use dojjo.Server.Finalize.{no_finalize_faults}
use dojjo.Client.Upload.{creation_headers}
use dojjo.Server.Endpoints.Creation.{path_header, creation_is_read}
use dojjo.Server.DojoId.{assert_safe_dojo_external_id, dojo_data_dir}
use dojjo.Server.Endpoints.{
  header_value, header_str, or_empty, optional_u64, is_one, Http, tus_upload_patch, with_version,
  apply_tus_headers, patched, patch_reply,
}

-- The digits of "world" in base64 are taken for the word itself, any other value for no base64.
abbrev decode_world : Text → Option Bytes
decode_world t = if t == text "d29ybGQ=" then some (text "world") else none

abbrev as_is : Bytes → Option Text
as_is b = some b

abbrev small_base64 : Base64
small_base64 = record { decode = decode_world; from_utf8 = as_is }

abbrev any_value : Text → Bool
any_value t = true

abbrev no_date : ℕ → Text
no_date n = []

abbrev every_dojo : Text → Option Bool
every_dojo id = some true

abbrev plain_http : Http
plain_http = record {
  to_str = as_is;
  valid = any_value;
  http_date = no_date;
  find_dojo = every_dojo;
  base64 = small_base64;
}

abbrev patch_request : Dict Text Bytes
patch_request =
    (text "tus-resumable", text "1.0.0")
    ∷ (text "upload-offset", text "2")
    ∷ (text "content-type", offset_octet_stream)
    ∷ []

patch_advances :
    (tus_upload_patch plain_http
      (text "d")
      no_faults
      no_finalize_faults
      upload_1
      50
      patch_request
      (9 ∷ 9 ∷ [])
      one_upload).0
    ≡ ok (record {
      status = 204;
      headers =
          (text "tus-resumable", text "1.0.0")
          ∷ (text "upload-offset", text "4")
          ∷ (text "cache-control", text "no-store")
          ∷ (text "upload-expires", [])
          ∷ [];
    })
unfolding tus_upload_patch assert_safe_dojo_external_id dojo_data_dir with_version apply_tus_headers
    patched patch_reply handle_patch patch_found check_end get_upload write_chunk append_chunk
    read_meta data_len text_eq lookup validate_tus_resumable parse_u64 parse_digits to_string
    print_digits patch_headers has_dots
patch_advances = refl

metadata_reads :
    (r : Text → Option Text) × (parse_metadata small_base64 (text "filename d29ybGQ=, is-private")
      ≡ ok r)
    × (r (text "filename") ≡ some (text "world"))
    × (r (text "is-private") ≡ some [])
unfolding parse_metadata parse_pairs parse_pair before_space after_space decode_value trim split
    text_eq
metadata_reads = (_, refl, refl, refl)

metadata_bad_value :
    parse_metadata small_base64 (text "key not!!valid!!base64") ≡ err invalid_base64
unfolding parse_metadata parse_pairs parse_pair before_space after_space decode_value trim split
    text_eq
metadata_bad_value = refl

abbrev world_headers : Dict Text Bytes
world_headers = creation_headers 3 (path_header (text "d29ybGQ="))

unchanged : (o : Option Bytes) → header_value plain_http (text "d") o ≡ o
unchanged none = refl
unchanged (some v) = refl

creation_is_read_example :
    (validate_tus_resumable
        (or_empty (header_str plain_http (text "d") world_headers (text "tus-resumable")))
      ≡ ok tt)
    × (optional_u64 (header_str plain_http (text "d") world_headers (text "upload-length"))
        ≡ ok (some 3))
    × (is_one (header_str plain_http (text "d") world_headers (text "upload-defer-length")) ≡ false)
    × ((r : Text → Option Text) × (parse_metadata small_base64
            (or_empty (header_str plain_http (text "d") world_headers (text "upload-metadata")))
          ≡ ok r)
        × (r (text "jj_rel_path") ≡ some (text "world")))
unfolding text_eq
creation_is_read_example =
    creation_is_read plain_http (text "d") world_headers 3 (text "world") (text "d29ybGQ=")
      (text "world") (omega arith) (record { some_char = refl; plain = refl; no_comma = refl }) refl
      refl (λ name. unchanged (lookup name world_headers))
