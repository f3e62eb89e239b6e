-- ===== src/Server/Endpoints/Creation.antt =====
-- What the server reads of the creation request that `tus_upload_bytes` of client/src/tus.rs sends.
use dojjo.Prelude.Text.Order.{text_order, text_eq}
use dojjo.Prelude.{ℕ, ◌<◌, ◌++◌, [], ◌∷◌, ◌≡◌, refl, arith, true, false, not, none, some, ok, all}
use dojjo.Prelude.Order.Sets.{update}
use dojjo.Prelude.Dict.{Dict, lookup}
use dojjo.Prelude.Text.{Text, text, is_empty, is_whitespace, has_char, trim_start, trim_end, split}
use dojjo.Prelude.Text.Decimal.{u64_limit, parse-to_string}
use dojjo.Tus.Types.{Bytes, Metadata}
use dojjo.Tus.Metadata.{
  Base64, validate_tus_resumable, before_space, after_space, decode_value, parse_pair, parse_pairs,
  parse_metadata,
}
use dojjo.Server.Finalize.{jj_rel_path_metadata_key}
use dojjo.Server.Endpoints.{Http, header_str, optional_u64, is_one, or_empty}
use dojjo.Client.Upload.{creation_headers}

-- Text of base64: neither white space nor a comma, and something.
pub record IsEncoded (t : Text) : Type 0 where
  pub some_char : is_empty t ≡ false
  pub plain : all (λ c. not (is_whitespace c)) t ≡ true
  pub no_comma : has_char b',' t ≡ false

split_plain : (c : ℕ) (s : Text) → has_char c s ≡ false → split c s ≡ s ∷ []
unfolding split
split_plain c [] h = refl
split_plain c (x ∷ s) h = ground (arith, h, split_plain c s)

trim_end_plain : (s : Text) → all (λ c. not (is_whitespace c)) s ≡ true → trim_end s ≡ s
unfolding trim_end
trim_end_plain [] h = refl
trim_end_plain (c ∷ s) h = ground (arith, h, trim_end_plain s)

trim_start_plain : (s : Text) → all (λ c. not (is_whitespace c)) s ≡ true → trim_start s ≡ s
unfolding trim_start
trim_start_plain [] h = refl
trim_start_plain (c ∷ s) h = ground (arith, h)

abbrev pub path_header : Text → Text
path_header encoded = text "jj_rel_path " ++ encoded

-- An encoded path is read as the path by the parser of the metadata.
parse-path_header :
    (b : Base64) (encoded : Text) (bytes : Bytes) (path : Text)
    → IsEncoded encoded
    → b.decode encoded ≡ some bytes
    → b.from_utf8 bytes ≡ some path
    → (r : Metadata) × (parse_metadata b (path_header encoded) ≡ ok r)
      × (r jj_rel_path_metadata_key ≡ some path)
unfolding parse_metadata parse_pairs parse_pair decode_value before_space after_space
parse-path_header b encoded bytes path e decoded utf8 =
    let whole = split_plain b',' encoded e.no_comma in
    let left = trim_start_plain encoded e.plain in
    let right = trim_end_plain encoded e.plain in
    (
      update (λ k. none) jj_rel_path_metadata_key path,
      rw (whole, right, e.some_char, left, right, decoded, utf8) refl,
      refl,
    )

-- If the headers that the client sends with a creation arrive, the length is a 64-bit number, and
-- base64 decodes what it has encoded, the server accepts the version, reads the length and no deferred
-- length, and reads metadata in which the path of the mirror is the client's path.
pub creation_is_read :
    (h : Http) (dojo_id : Text) (headers : Dict Text Bytes) (size : ℕ) (path encoded : Text)
    (bytes : Bytes)
    → size < u64_limit
    → IsEncoded encoded
    → h.base64.decode encoded ≡ some bytes
    → h.base64.from_utf8 bytes ≡ some path
    → ((name : Text)
        → header_str h dojo_id headers name
          ≡ lookup name (creation_headers size (path_header encoded)))
    → (validate_tus_resumable (or_empty (header_str h dojo_id headers (text "tus-resumable")))
        ≡ ok tt)
      × (optional_u64 (header_str h dojo_id headers (text "upload-length")) ≡ ok (some size))
      × (is_one (header_str h dojo_id headers (text "upload-defer-length")) ≡ false)
      × ((r : Metadata) × (parse_metadata h.base64
              (or_empty (header_str h dojo_id headers (text "upload-metadata")))
            ≡ ok r)
          × (r jj_rel_path_metadata_key ≡ some path))
unfolding lookup text_eq validate_tus_resumable optional_u64
creation_is_read h dojo_id headers size path encoded bytes small e decoded utf8 sent = (
  rw (sent (text "tus-resumable")) refl,
  rw (sent (text "upload-length"), parse-to_string size small) refl,
  rw (sent (text "upload-defer-length")) refl,
  rw (sent (text "upload-metadata")) (parse-path_header h.base64 encoded bytes path e decoded utf8),
)
