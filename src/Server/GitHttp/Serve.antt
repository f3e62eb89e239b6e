-- ===== src/Server/GitHttp/Serve.antt =====
-- `run_git_http_backend` and `handle_git_http` of sync-server/src/git_http.rs. Requests for one dojo are
-- served one after another.
use dojjo.Prelude.{[], not, Option, none, some, Result, ok, err, if◌then◌else◌}
use dojjo.Prelude.Dict.{Dict}
use dojjo.Prelude.Text.{Text, text, is_empty, starts_with, strip_prefix}
use dojjo.Prelude.Action.{Action, lift, gets, check, ensure, ◌>>=◌, ◌>>◌}
use dojjo.Mirror.Operation.{Bytes}
use dojjo.Server.MirrorGet.{AppError, not_found, internal}
use dojjo.Server.DojoId.{assert_safe_dojo_external_id}
use dojjo.Server.GitRemote.{is_absolute, bare_repo_path, expect_some, ok_or}
use dojjo.Server.GitHttp.{
  Backend, CgiOutput, GitRequest, backend_env, parse_git_http_rest, git_path_info_for_backend,
}
use dojjo.Server.GitHttp.Cgi.{CgiResponse, cgi_response_to_axum}

abbrev pub or_no_query : Option Text → Text
or_no_query none = []
or_no_query (some q) = q

abbrev pub stdout_of : {W : Type 0} → Option CgiOutput × W → Result AppError Bytes × W
stdout_of (none, w) = (err internal, w)
stdout_of (some out, w) = (if out.success then ok out.stdout else err internal, w)

module _ {W : Type 0} (b : Backend W) where
  unfoldable pub run_git_http_backend :
      Text → Text → Text → Dict Text Bytes → Text → Bytes → Action W AppError Bytes
  run_git_http_backend method path_info query_string headers project_root body = do
    check (is_absolute project_root)
    check (starts_with (text "/") path_info)
    λ w. stdout_of (
        b.run (backend_env b.to_str method path_info query_string headers project_root body) body w)

  unfoldable pub handle_git_http : Text → GitRequest → Action W AppError CgiResponse
  handle_git_http data_dir req = do
    check (starts_with (text "/git/") req.path)
    rest ← lift (expect_some (strip_prefix (text "/git/") req.path))
    check (not (is_empty rest))
    (dojo_id, git_tail) ← lift (parse_git_http_rest rest)
    lift (assert_safe_dojo_external_id dojo_id)
    bare ← lift (bare_repo_path data_dir dojo_id)
    here ← gets (b.is_dir bare)
    ensure here not_found
    body_bytes ← lift (ok_or req.body internal)
    path_info ← lift (git_path_info_for_backend dojo_id git_tail)
    cgi_out ←
        run_git_http_backend req.method path_info (or_no_query req.query) req.headers data_dir
          body_bytes
    lift (cgi_response_to_axum b cgi_out)
