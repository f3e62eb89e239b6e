-- ===== src/Server/GitHttp/Confined.antt =====
-- Which runs of `git http-backend` the handler of sync-server/src/git_http.rs asks for.
use dojjo.Prelude.Text.Order.{text_order, text_eq, text_eq_iff}
use dojjo.Prelude.{
  [], ◌∷◌, ◌≡◌, refl, sym, ap, ◌∙◌, inl, inr, arith, Bool, true, false, ◌||◌, Option, none, some,
  Bool-cases, map, length,
}
use dojjo.Prelude.Order.{◌==◌}
use dojjo.Prelude.Dict.{Dict, lookup, put, lookup-put}
use dojjo.Prelude.Text.{Text, text, has_dots, starts_with}
use dojjo.Prelude.Text.Occurs.{starts_with-append_self}
use dojjo.Prelude.Text.Search.{split_once, to_ascii_upper}
use dojjo.Mirror.Operation.{Bytes}
use dojjo.Prelude.Text.Decimal.{to_string}
use dojjo.Server.GitHttp.Routes.{IsSafeId}
use dojjo.Server.GitHttp.{
  header_env, underscore, put_host, put_some, host_env, value_of, each_header,
  apply_http_header_env, backend_env, backend_path, put_length, base_env,
}

-- The variables that the headers of a request may set.
abbrev pub is_request_var : Text → Bool
is_request_var key =
    starts_with (text "HTTP_") key
    || text "SERVER_NAME" == key
    || text "SERVER_PORT" == key
    || text "CONTENT_TYPE" == key
    || text "CONTENT_LENGTH" == key

lookup-put_other :
    (k key v : Text) (env : Dict Text Text)
    → k == key ≡ false
    → lookup key (put k v env) ≡ lookup key env
lookup-put_other k key v env h = lookup-put k key v env ∙ rw h refl

prefix_differs :
    (k key : Text)
    → starts_with (text "HTTP_") k ≡ true
    → starts_with (text "HTTP_") key ≡ false
    → k == key ≡ false
prefix_differs k key h no_prefix = elim (Bool-cases (k == key)) [
  | inl same ↦
      let is = ap (starts_with (text "HTTP_")) ((text_eq_iff k key).0 same) in
      let bad : ◌≡◌ {A = Bool} true false = sym h ∙ is ∙ no_prefix in cc
  | inr apart ↦ apart
]

module _ (key : Text) (own : is_request_var key ≡ false) where
  lookup-put_header :
      (name : Text) (v : Option Text) (env : Dict Text Text)
      → lookup key (put_some (header_env name) v env) ≡ lookup key env
  unfolding header_env
  lookup-put_header name none env = refl
  lookup-put_header name (some v) env = lookup-put_other (header_env name) key v env (
      prefix_differs (header_env name) key
        (starts_with-append_self (text "HTTP_") (map (λ c. to_ascii_upper (underscore c)) name))
        (ground (arith, own)))

  lookup-put_host :
      (host : Text) (parts : Option (Text × Text)) (env : Dict Text Text)
      → lookup key (put_host host parts env) ≡ lookup key env
  lookup-put_host host none env =
      lookup-put_other (text "SERVER_NAME") key host env (ground (arith, own))
  lookup-put_host host (some (name, port)) env =
      lookup-put_other (text "SERVER_PORT") key port (put (text "SERVER_NAME") name env)
        (ground (arith, own))
      ∙ lookup-put_other (text "SERVER_NAME") key name env (ground (arith, own))

  lookup-host_env :
      (host : Option Text) (env : Dict Text Text) → lookup key (host_env host env) ≡ lookup key env
  lookup-host_env none env = refl
  lookup-host_env (some s) env =
      lookup-put_host s (split_once (text ":") s) (put (text "HTTP_HOST") s env)
      ∙ lookup-put_other (text "HTTP_HOST") key s env
          (prefix_differs (text "HTTP_HOST") key refl (ground (arith, own)))

  lookup-each_header :
      (to_str : Bytes → Option Text) (headers : Dict Text Bytes) (env : Dict Text Text)
      → lookup key (each_header to_str headers env) ≡ lookup key env
  unfolding each_header
  lookup-each_header to_str [] env = refl
  lookup-each_header to_str ((name, value) ∷ headers) env =
      elim (Bool-cases (name == text "host")) [
        | inl host ↦ rw host (lookup-each_header to_str headers env)
        | inr other ↦ rw other (
            lookup-each_header to_str headers (put_some (header_env name) (to_str value) env)
            ∙ lookup-put_header name (to_str value) env)
      ]

  lookup-put_type :
      (v : Option Text) (env : Dict Text Text)
      → lookup key (put_some (text "CONTENT_TYPE") v env) ≡ lookup key env
  lookup-put_type none env = refl
  lookup-put_type (some v) env =
      lookup-put_other (text "CONTENT_TYPE") key v env (ground (arith, own))

  lookup-put_length :
      (body : Bytes) (env : Dict Text Text) → lookup key (put_length body env) ≡ lookup key env
  lookup-put_length [] env = refl
  lookup-put_length (c ∷ body) env =
      lookup-put_other (text "CONTENT_LENGTH") key (to_string (length (c ∷ body))) env
        (ground (arith, own))

  -- A variable of another name has the value that the server gives it.
  lookup-backend_env :
      (to_str : Bytes → Option Text) (method path_info query root : Text)
      (headers : Dict Text Bytes) (body : Bytes)
      → lookup key (backend_env to_str method path_info query headers root body)
        ≡ lookup key (base_env method path_info query root)
  unfolding backend_env apply_http_header_env
  lookup-backend_env to_str method path_info query root headers body =
      let base = base_env method path_info query root in
      let typed =
        put_some (text "CONTENT_TYPE") (value_of to_str (lookup (text "content-type") headers))
          (put_length body base) in
      let host = value_of to_str (lookup (text "host") headers) in
      lookup-each_header to_str headers (host_env host typed)
      ∙ lookup-host_env host typed
      ∙ lookup-put_type (value_of to_str (lookup (text "content-type") headers))
          (put_length body base)
      ∙ lookup-put_length body base

-- The environment serves one dojo's bare repository: the path is that of the repository, with nothing
-- in it that leads out, below the data directory.
pub record IsConfined (data_dir : Text) (env : Dict Text Text) : Type 0 where
  pub root : lookup (text "GIT_PROJECT_ROOT") env ≡ some data_dir
  pub exported : lookup (text "GIT_HTTP_EXPORT_ALL") env ≡ some (text "1")
  pub user : lookup (text "REMOTE_USER") env ≡ some (text "dojjo")
  pub dojo_id : Text
  pub git_tail : Text
  pub path : lookup (text "PATH_INFO") env ≡ some (backend_path dojo_id git_tail)
  pub safe : IsSafeId dojo_id
  pub no_dots : has_dots (backend_path dojo_id git_tail) ≡ false
  pub rooted : starts_with (text "/") git_tail ≡ true

pub backend_env-IsConfined :
    (to_str : Bytes → Option Text) (method id tail query root : Text) (headers : Dict Text Bytes)
    (body : Bytes)
    → IsSafeId id
    → has_dots (backend_path id tail) ≡ false
    → starts_with (text "/") tail ≡ true
    → IsConfined root (backend_env to_str method (backend_path id tail) query headers root body)
unfolding lookup text_eq
backend_env-IsConfined to_str method id tail query root headers body safe no_dots rooted =
    let value = λ (key : Text) (own : is_request_var key ≡ false).
      lookup-backend_env key own to_str method (backend_path id tail) query root headers body in
    record {
      root = value (text "GIT_PROJECT_ROOT") refl;
      exported = value (text "GIT_HTTP_EXPORT_ALL") refl;
      user = value (text "REMOTE_USER") refl;
      dojo_id = id;
      git_tail = tail;
      path = value (text "PATH_INFO") refl;
      safe = safe;
      no_dots = no_dots;
      rooted = rooted;
    }
