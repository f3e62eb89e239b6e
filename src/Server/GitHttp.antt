-- ===== src/Server/GitHttp.antt =====
-- sync-server/src/git_http.rs: the requests of git, which `git http-backend` serves. The backend, the
-- disk that it works on, UTF-8 and the checks of the `http` crate are parameters.
mod Tests
pub mod Cgi
pub mod Serve
pub mod Routes
pub mod Confined
pub mod Handled
pub mod Framed
use dojjo.Prelude.Text.Order.{text_order}
use dojjo.Prelude.{
  ℕ, List, [], ◌∷◌, ◌++◌, Bool, true, false, not, ◌&&◌, ◌||◌, Option, none, some, Result, ok, err,
  panic, nat_eq, leb, ltb, if◌then◌else◌, assert, guard, length, map, ◌>>=◌, ◌>>◌,
}
use dojjo.Prelude.Order.{◌==◌}
use dojjo.Prelude.Dict.{Dict, lookup, put}
use dojjo.Prelude.Text.{Text, text, is_empty, trim, split, starts_with, strip_prefix, has_dots}
use dojjo.Prelude.Text.Decimal.{to_string, parse_u64}
use dojjo.Prelude.Text.Search.{
  has_text, ends_with, split_once, strip_suffix, next_word, to_ascii_lower, to_ascii_upper,
}
use dojjo.Mirror.Operation.{Bytes}
use dojjo.Server.MirrorGet.{AppError, bad_request, not_found, internal}
use dojjo.Server.DojoId.{assert_safe_dojo_external_id}
use dojjo.Server.GitRemote.{is_absolute, bare_repo_path, expect_some, ok_or}

-- `body` is `none` where it cannot be read, or is too large.
pub record GitRequest : Type 0 where
  pub method : Text
  pub path : Text
  pub query : Option Text
  pub headers : Dict Text Bytes
  pub body : Option Bytes

-- What a process leaves; its standard error is only logged.
pub record CgiOutput : Type 0 where
  pub success : Bool
  pub stdout : Bytes

-- `run` starts `git http-backend` in an environment and writes the body to it; it has no output where
-- a call of the system fails. `header_name` and `header_value` say what the `http` crate takes.
pub record Backend (W : Type 0) : Type 0 where
  pub run : Dict Text Text → Bytes → W → Option CgiOutput × W
  pub is_dir : Text → W → Bool
  pub to_str : Bytes → Option Text
  pub from_utf8 : Bytes → Option Text
  pub header_name : Text → Option Text
  pub header_value : Text → Option Text

abbrev pub with_slash : Text → Text
with_slash tail = if starts_with (text "/") tail then tail else b'/' ∷ tail

-- The part of a path behind `.git/`.
unfoldable pub rest_tail : Text → Text → Result AppError (Text × Text)
rest_tail dojo_id tail = do
  assert (not (is_empty dojo_id))
  assert (not (is_empty tail))
  guard (not (has_dots tail)) bad_request
  assert (starts_with (text "/") (with_slash tail))
  ok (dojo_id, with_slash tail)

abbrev pub rest_root : Option Text → Result AppError (Text × Text)
rest_root none = err not_found
rest_root (some dojo_id) = do assert (not (is_empty dojo_id)); ok (dojo_id, text "/")

abbrev pub rest_parts : Text → Option (Text × Text) → Result AppError (Text × Text)
rest_parts rest none = rest_root (strip_suffix (text ".git") rest)
rest_parts rest (some (dojo_id, tail)) = rest_tail dojo_id tail

unfoldable pub parse_git_http_rest : Text → Result AppError (Text × Text)
parse_git_http_rest rest = do
  assert (not (is_empty rest))
  rest_parts rest (split_once (text ".git/") rest)

abbrev pub backend_path : Text → Text → Text
backend_path dojo_id git_tail = text "/" ++ dojo_id ++ text "/bare.git" ++ git_tail

unfoldable pub git_path_info_for_backend : Text → Text → Result AppError Text
git_path_info_for_backend dojo_id git_tail = do
  assert_safe_dojo_external_id dojo_id
  assert (starts_with (text "/") git_tail)
  let path_info = backend_path dojo_id git_tail
  assert (has_text (text "/bare.git/") path_info || ends_with (text "/bare.git/") path_info)
  guard (not (has_dots path_info)) bad_request
  ok path_info

abbrev pub underscore : ℕ → ℕ
underscore c = if nat_eq c b'-' then b'_' else c

-- The name of the variable for a header.
unfoldable pub header_env : Text → Text
header_env name = text "HTTP_" ++ map (λ c. to_ascii_upper (underscore c)) name

abbrev pub put_host : Text → Option (Text × Text) → Dict Text Text → Dict Text Text
put_host host none env = put (text "SERVER_NAME") host env
put_host host (some (name, port)) env =
    put (text "SERVER_PORT") port (put (text "SERVER_NAME") name env)

abbrev pub put_some : Text → Option Text → Dict Text Text → Dict Text Text
put_some key none env = env
put_some key (some v) env = put key v env

abbrev pub host_env : Option Text → Dict Text Text → Dict Text Text
host_env none env = env
host_env (some s) env = put_host s (split_once (text ":") s) (put (text "HTTP_HOST") s env)

abbrev pub base_env : Text → Text → Text → Text → Dict Text Text
base_env method path_info query_string project_root =
    (text "GIT_HTTP_EXPORT_ALL", text "1")
    ∷ (text "GIT_PROJECT_ROOT", project_root)
    ∷ (text "REMOTE_USER", text "dojjo")
    ∷ (text "PATH_INFO", path_info)
    ∷ (text "REQUEST_METHOD", method)
    ∷ (text "QUERY_STRING", query_string)
    ∷ (text "GATEWAY_INTERFACE", text "CGI/1.1")
    ∷ (text "SERVER_SOFTWARE", text "dojjo-sync-server")
    ∷ (text "SERVER_PROTOCOL", text "HTTP/1.1")
    ∷ []

abbrev pub put_length : Bytes → Dict Text Text → Dict Text Text
put_length body env =
    if is_empty body then env else put (text "CONTENT_LENGTH") (to_string (length body)) env

module _ (to_str : Bytes → Option Text) where
  abbrev pub value_of : Option Bytes → Option Text
  value_of none = none
  value_of (some v) = to_str v

  -- The loop over the headers.
  unfoldable pub each_header : Dict Text Bytes → Dict Text Text → Dict Text Text
  each_header [] env = env
  each_header ((name, value) ∷ headers) env =
      each_header headers
        (if name == text "host" then env else put_some (header_env name) (to_str value) env)

  unfoldable pub apply_http_header_env : Dict Text Bytes → Dict Text Text → Dict Text Text
  apply_http_header_env headers env =
      each_header headers (host_env (value_of (lookup (text "host") headers)) env)

  -- The environment that `run_git_http_backend` gives to the process.
  unfoldable pub backend_env : Text → Text → Text → Dict Text Bytes → Text → Bytes → Dict Text Text
  backend_env method path_info query_string headers project_root body =
      apply_http_header_env headers (
        put_some (text "CONTENT_TYPE") (value_of (lookup (text "content-type") headers))
          (put_length body (base_env method path_info query_string project_root)))
