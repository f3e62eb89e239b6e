-- ===== src/Server/GitHttp/Tests.antt =====
-- A request of git for the refs of a dojo, and paths that no repository has.
use dojjo.Prelude.Text.Order.{text_order, text_eq}
use dojjo.Prelude.{ℕ, ◌+◌, [], ◌∷◌, ◌++◌, ◌≡◌, refl, true, Option, none, some, ok, panic}
use dojjo.Prelude.Dict.{Dict, lookup, put}
use dojjo.Prelude.Text.{Text, text, has_dots, trim}
use dojjo.Prelude.Text.Search.{has_text, ends_with, next_word}
use dojjo.Mirror.Operation.{Bytes}
use dojjo.Server.DojoId.{assert_safe_dojo_external_id}
use dojjo.Server.GitRemote.{PublicUrl, git_remote_url}
use dojjo.Server.GitHttp.{
  Backend, CgiOutput, GitRequest, backend_path, parse_git_http_rest, git_path_info_for_backend,
}
use dojjo.Prelude.Text.Decimal.{parse_u64}
use dojjo.Server.GitHttp.Cgi.{parse_field, parse_status_line, parse_cgi_output}
use dojjo.Server.GitHttp.Framed.{IsField, header_block, each_field, framed, parse_cgi_output-framed}
use dojjo.Server.GitHttp.Serve.{handle_git_http}
use dojjo.Server.GitHttp.Routes.{remote_url_is_served}
use dojjo.Server.GitHttp.Handled.{handle_git_http-IsConfined, git_root_with_slash-panic}

abbrev public : PublicUrl
public = record { base = text "http://h:3000" }

printed : git_remote_url public (text "my-dojo") ≡ ok (text "http://h:3000/git/my-dojo.git")
unfolding git_remote_url assert_safe_dojo_external_id has_dots has_text ends_with text_eq
printed = refl

remote_url_is_served_example :
    (rest : Text) × (text "http://h:3000/git/my-dojo.git" ++ text "/" ++ text "info/refs"
      ≡ text "http://h:3000" ++ text "/git/" ++ rest)
    × (parse_git_http_rest rest ≡ ok (text "my-dojo", text "/" ++ text "info/refs"))
    × (git_path_info_for_backend (text "my-dojo") (text "/" ++ text "info/refs")
        ≡ ok (backend_path (text "my-dojo") (text "/" ++ text "info/refs")))
remote_url_is_served_example =
    remote_url_is_served public (text "my-dojo") (text "http://h:3000/git/my-dojo.git")
      (text "info/refs") printed refl (unfold has_dots in refl) refl

abbrev served : Bytes
served = text "Status: 200 OK\r\nContent-Type: text/plain\r\n\r\nPKT\r\n\r\n"

-- The state is the number of runs.
abbrev one_answer : Dict Text Text → Bytes → ℕ → Option CgiOutput × ℕ
one_answer env body w = (some (record { success = true; stdout = served }), w + 1)

abbrev backend : Backend ℕ
backend = record {
  run = one_answer;
  is_dir = λ path w. true;
  to_str = λ b. some b;
  from_utf8 = λ b. some b;
  header_name = λ t. some t;
  header_value = λ t. some t;
}

abbrev answer_user : Option Text → Bytes → ℕ → Option CgiOutput × ℕ
answer_user none body w = (none, w)
answer_user (some user) body w = one_answer [] body w

-- A backend that serves authenticated users only.
abbrev only_users : Dict Text Text → Bytes → ℕ → Option CgiOutput × ℕ
only_users env body w = answer_user (lookup (text "REMOTE_USER") env) body w

abbrev info_refs : GitRequest
info_refs = record {
  method = text "GET";
  path = text "/git/d.git/info/refs";
  query = some (text "service=git-upload-pack");
  headers = (text "host", text "h:3000") ∷ (text "remote-user", text "mallory") ∷ [];
  body = some [];
}

handle_git_http-IsConfined_example :
    handle_git_http backend (text "/data") info_refs 0
    ≡ handle_git_http (record backend { run = only_users }) (text "/data") info_refs 0
handle_git_http-IsConfined_example =
    handle_git_http-IsConfined backend only_users (text "/data") info_refs 0
      (λ env body v confined. rw confined.user refl)

abbrev root_request : GitRequest
root_request = record info_refs { path = text "/git/d.git/" }

git_root_with_slash-panic_example :
    (handle_git_http backend (text "/data") root_request 0).0 ≡ panic
git_root_with_slash-panic_example =
    git_root_with_slash-panic backend (text "/data") (text "d") root_request 0 refl refl

abbrev status_field : Text × Text
status_field = (text "Status", text "404 Not Found")

abbrev type_field : Text × Text
type_field = (text "Content-Type", text "text/plain")

status-IsField : IsField status_field
unfolding trim
status-IsField = record {
  name_plain = refl;
  name_trimmed = refl;
  value_trimmed = refl;
  one_line = refl;
  no_return = refl;
}

type-IsField : IsField type_field
unfolding trim
type-IsField = record {
  name_plain = refl;
  name_trimmed = refl;
  value_trimmed = refl;
  one_line = refl;
  no_return = refl;
}

-- The body holds an empty line itself.
parse_cgi_output-framed_example :
    parse_cgi_output backend
      (header_block (status_field ∷ type_field ∷ []) ++ text "\r\n\r\n" ++ text "a\r\n\r\nb")
    ≡ framed
        (each_field backend.header_name backend.header_value
          (status_field ∷ type_field ∷ [])
          (200, []))
        (text "a\r\n\r\nb")
parse_cgi_output-framed_example =
    parse_cgi_output-framed backend status_field (type_field ∷ []) (text "a\r\n\r\nb")
      status-IsField (type-IsField, tt) refl

fields_run :
    framed
      (each_field backend.header_name backend.header_value
        (status_field ∷ type_field ∷ [])
        (200, []))
      (text "a\r\n\r\nb")
    ≡ ok (record { status = 404; headers = type_field ∷ []; body = text "a\r\n\r\nb" })
unfolding each_field parse_field parse_status_line next_word parse_u64 put text_eq
fields_run = refl
