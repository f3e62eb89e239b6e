-- ===== src/Server/GitHttp/Cgi.antt =====
-- The response of `git http-backend`, as sync-server/src/git_http.rs reads it.
use dojjo.Prelude.Text.Order.{text_order}
use dojjo.Prelude.{
  ℕ, List, [], ◌∷◌, Bool, not, ◌&&◌, Option, none, some, Result, ok, err, panic, map, nat_eq, leb,
  ltb, if◌then◌else◌, assert, guard, ◌>>=◌, ◌>>◌,
}
use dojjo.Prelude.Order.{◌==◌}
use dojjo.Prelude.Dict.{Dict, put}
use dojjo.Prelude.Text.{Text, text, is_empty, trim, split}
use dojjo.Prelude.Text.Decimal.{parse_u64}
use dojjo.Prelude.Text.Search.{split_once, next_word, to_ascii_lower}
use dojjo.Mirror.Operation.{Bytes}
use dojjo.Server.MirrorGet.{AppError, bad_request, not_found, internal}
use dojjo.Server.GitRemote.{ok_or}
use dojjo.Server.GitHttp.{Backend}

pub record CgiResponse : Type 0 where
  pub status : ℕ
  pub headers : Dict Text Text
  pub body : Bytes

-- `trim_end_matches('\r')`
unfoldable pub trim_returns : Text → Text
trim_returns [] = []
trim_returns (c ∷ s) =
    let rest = trim_returns s in if nat_eq c b'\r' && is_empty rest then [] else c ∷ rest

abbrev pub same_ignoring_case : Text → Text → Bool
same_ignoring_case a b = map to_ascii_lower a == map to_ascii_lower b

abbrev pub as_u16 : Option ℕ → Option ℕ
as_u16 none = none
as_u16 (some n) = if leb n 65535 then some n else none

-- `StatusCode::from_u16` takes the numbers of three digits.
unfoldable pub parse_status_line : Text → Result AppError ℕ
parse_status_line value = do
  code ← ok_or (as_u16 (parse_u64 (next_word value))) internal
  guard (leb 100 code && leb code 999) internal
  ok code

-- The separator between headers and body: the first empty line with returns, or else the first without.
abbrev pub or_newlines : Bytes → Option (Bytes × Bytes) → Option (Bytes × Bytes)
or_newlines raw none = split_once (text "\n\n") raw
or_newlines raw (some parts) = some parts

module _ (header_name header_value : Text → Option Text) where
  abbrev pub put_header : Option Text → Option Text → Dict Text Text → Dict Text Text
  put_header none hv headers = headers
  put_header (some hn) none headers = headers
  put_header (some hn) (some hv) headers = put hn hv headers

  abbrev pub with_status : Dict Text Text → Result AppError ℕ → Result AppError (ℕ × Dict Text Text)
  with_status headers r = do code ← r; ok (code, headers)

  -- A line with a colon.
  unfoldable pub parse_field :
      Text → Text → ℕ × Dict Text Text → Result AppError (ℕ × Dict Text Text)
  parse_field name value (status, headers) =
      if same_ignoring_case name (text "Status")
      then with_status headers (parse_status_line value)
      else ok (status, put_header (header_name name) (header_value value) headers)

  abbrev pub parse_parts :
      Option (Text × Text) → ℕ × Dict Text Text → Result AppError (ℕ × Dict Text Text)
  parse_parts none so_far = ok so_far
  parse_parts (some (name, value)) so_far = parse_field (trim name) (trim value) so_far

  unfoldable pub parse_line : Text → ℕ × Dict Text Text → Result AppError (ℕ × Dict Text Text)
  parse_line line so_far =
      if is_empty (trim_returns line)
      then ok so_far
      else parse_parts (split_once (text ":") (trim_returns line)) so_far

  unfoldable pub parse_lines : List Text → ℕ × Dict Text Text → Result AppError (ℕ × Dict Text Text)
  parse_lines [] so_far = ok so_far
  parse_lines (line ∷ lines) so_far = do next ← parse_line line so_far; parse_lines lines next

-- `AppError::into_response`; the JSON of its body is left out.
unfoldable pub error_status : AppError → ℕ
error_status internal = 500
error_status not_found = 404
error_status bad_request = 400

module _ {W : Type 0} (b : Backend W) where
  unfoldable pub parse_cgi_output : Bytes → Result AppError CgiResponse
  parse_cgi_output raw = do
    assert (not (is_empty raw))
    (header_block, body) ← ok_or (or_newlines raw (split_once (text "\r\n\r\n") raw)) internal
    header_text ← ok_or (b.from_utf8 header_block) internal
    (status, headers) ← parse_lines b.header_name b.header_value (split b'\n' header_text) (200, [])
    assert (leb 100 status && ltb status 600)
    ok (record { status = status; headers = headers; body = body })

  abbrev pub or_error_response : Result AppError CgiResponse → Result AppError CgiResponse
  or_error_response (ok r) = ok r
  or_error_response (err e) = ok (record { status = error_status e; headers = []; body = [] })
  or_error_response panic = panic

  unfoldable pub cgi_response_to_axum : Bytes → Result AppError CgiResponse
  cgi_response_to_axum raw = or_error_response (parse_cgi_output raw)
