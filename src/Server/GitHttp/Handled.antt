-- ===== src/Server/GitHttp/Handled.antt =====
-- `handle_git_http` of sync-server/src/git_http.rs: it runs the backend on confined calls only, and some
-- requests fail an assertion.
use dojjo.Prelude.{
  ◌++◌, ◌≡◌, refl, sym, ap, ◌∙◌, arith, true, false, not, Option, some, ok, panic, ◌||◌, assert,
  guard, bind_inv, ok-injective, assert-eq-ok, guard-eq-ok,
}
use dojjo.Prelude.Text.Search.{has_text, ends_with}
use dojjo.Prelude.Dict.{Dict}
use dojjo.Prelude.Text.{Text, text, is_empty, has_char, has_dots, starts_with, strip_prefix}
use dojjo.Prelude.Text.Occurs.{strip_prefix-append}
use dojjo.Prelude.Action.{lift, check, ensure, read_cong, check-keeps, ensure-keeps}
use dojjo.Mirror.Operation.{Bytes}
use dojjo.Server.MirrorGet.{bad_request, not_found, internal}
use dojjo.Server.DojoId.{assert_safe_dojo_external_id}
use dojjo.Server.GitRemote.{is_absolute, bare_repo_path, expect_some, ok_or}
use dojjo.Server.GitHttp.{
  Backend, CgiOutput, GitRequest, backend_path, backend_env, parse_git_http_rest,
  git_path_info_for_backend,
}
use dojjo.Server.GitHttp.Cgi.{cgi_response_to_axum, parse_cgi_output}
use dojjo.Server.GitHttp.Serve.{run_git_http_backend, or_no_query, handle_git_http}
use dojjo.Server.GitHttp.Routes.{safe-IsSafeId, is_empty-append, root_with_slash-panic}
use dojjo.Server.GitHttp.Confined.{IsConfined, backend_env-IsConfined}

-- What the handler gives to the backend as a path.
path_info_inv :
    (id tail path_info : Text)
    → git_path_info_for_backend id tail ≡ ok path_info
    → (path_info ≡ backend_path id tail)
      × (has_dots (backend_path id tail) ≡ false)
      × (starts_with (text "/") tail ≡ true)
unfolding git_path_info_for_backend
path_info_inv id tail path_info h =
    let path = backend_path id tail in
    let (_, _, h1) = bind_inv (assert_safe_dojo_external_id id) _ h in
    let (_, rooted, h2) = bind_inv (assert (starts_with (text "/") tail)) _ h1 in
    let (_, _, h3) =
      bind_inv (assert (has_text (text "/bare.git/") path || ends_with (text "/bare.git/") path)) _
        h2 in
    let (_, no_dots, h4) = bind_inv (guard (not (has_dots path)) bad_request) _ h3 in
    let free = guard-eq-ok (not (has_dots path)) bad_request no_dots in
    (sym (ok-injective h4), ground (arith, free), assert-eq-ok _ rooted)

module _ {W : Type 0} (b : Backend W)
    (run : Dict Text Text → Bytes → W → Option CgiOutput × W) where
  abbrev run_env : Text → GitRequest → Text → Bytes → Dict Text Text
  run_env data_dir req path_info body =
      backend_env b.to_str req.method path_info (or_no_query req.query) req.headers data_dir body

  run_agrees :
      (data_dir : Text) (req : GitRequest) (path_info : Text) (body : Bytes) (w : W)
      → b.run (run_env data_dir req path_info body) body w
        ≡ run (run_env data_dir req path_info body) body w
      → run_git_http_backend b req.method path_info
          (or_no_query req.query)
          req.headers
          data_dir
          body
          w
        ≡ run_git_http_backend
            (record b { run = run })
            req.method
            path_info
            (or_no_query req.query)
            req.headers
            data_dir
            body
            w
  unfolding run_git_http_backend
  run_agrees data_dir req path_info body w same =
      read_cong (check (is_absolute data_dir)) _ _ w (check-keeps _ _ w) λ _ _.
        read_cong (check (starts_with (text "/") path_info)) _ _ w (check-keeps _ _ w)
          λ _ _. rw same refl

  -- On two backends that agree on all confined environments, the handler does the same: it runs
  -- `git http-backend` only in such environments, whatever the request.
  pub handle_git_http-IsConfined :
      (data_dir : Text) (req : GitRequest) (w : W)
      → ((env : Dict Text Text) (body : Bytes) (v : W)
          → IsConfined data_dir env
          → b.run env body v ≡ run env body v)
      → handle_git_http b data_dir req w ≡ handle_git_http (record b { run = run }) data_dir req w
  unfolding handle_git_http
  handle_git_http-IsConfined data_dir req w agree =
      read_cong (check (starts_with (text "/git/") req.path)) _ _ w (check-keeps _ _ w) λ _ _.
        read_cong (lift (expect_some (strip_prefix (text "/git/") req.path))) _ _ w refl λ rest _.
          read_cong (check (not (is_empty rest))) _ _ w (check-keeps _ _ w) λ _ _.
            read_cong (lift (parse_git_http_rest rest)) _ _ w refl λ parts _.
              read_cong (lift (assert_safe_dojo_external_id parts.0)) _ _ w refl λ _ safe.
                read_cong (lift (bare_repo_path data_dir parts.0)) _ _ w refl λ bare _.
                  read_cong (ensure (b.is_dir bare w) not_found) _ _ w (ensure-keeps _ _ w) λ _ _.
                    read_cong (lift (ok_or req.body internal)) _ _ w refl λ body _.
                      read_cong (lift (git_path_info_for_backend parts.0 parts.1)) _ _ w refl
                        λ path_info is.
                          let (same, no_dots, rooted) =
                            path_info_inv parts.0 parts.1 path_info is in
                          let confined =
                            backend_env-IsConfined b.to_str req.method parts.0 parts.1
                              (or_no_query req.query) data_dir req.headers body
                              (safe-IsSafeId parts.0 safe) no_dots rooted in
                          rw
                            (run_agrees data_dir req path_info body w
                              (agree _ body w (rw same confined)))
                            (unfold cgi_response_to_axum parse_cgi_output in refl)

-- A request for the root of a repository with a slash behind `.git` ends in a panic.
pub git_root_with_slash-panic :
    {W : Type 0} (b : Backend W) (data_dir id : Text) (req : GitRequest) (w : W)
    → has_char b'/' id ≡ false
    → req.path ≡ text "/git/" ++ id ++ text ".git/"
    → (handle_git_http b data_dir req w).0 ≡ panic
unfolding handle_git_http
git_root_with_slash-panic b data_dir id req w no_slash at =
    let begins : starts_with (text "/git/") req.path ≡ true = ap (starts_with (text "/git/")) at in
    let rest : strip_prefix (text "/git/") req.path ≡ some (id ++ text ".git/") =
      ap (strip_prefix (text "/git/")) at
      ∙ strip_prefix-append (text "/git/") (id ++ text ".git/") in
    rw (begins, rest, is_empty-append id b'.' (text "git/"), root_with_slash-panic id no_slash) refl
