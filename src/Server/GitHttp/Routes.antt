-- ===== src/Server/GitHttp/Routes.antt =====
-- What `parse_git_http_rest` and `git_path_info_for_backend` of sync-server/src/git_http.rs make of the
-- path of a request, for the URLs that `PublicUrl::git_remote_url` prints.
use mathlib.Core.List.{append_assoc, append-nil}
use dojjo.Prelude.{
  ℕ, [], ◌∷◌, ◌++◌, ◌≡◌, refl, sym, ap, ◌∙◌, arith, true, false, not, ◌||◌, some, ok, panic, assert,
  ok-injective, assert-eq-ok, guard-eq-ok, bind_inv,
}
use dojjo.Prelude.Text.{Text, text, is_empty, has_char, has_dots, starts_with}
use dojjo.Prelude.Text.Search.{has_text, ends_with, split_once}
use dojjo.Prelude.Text.Occurs.{
  split_once-append, has_text-has_char, has_text-append_self, has_char-append, has_dots-append,
}
use dojjo.Server.MirrorGet.{AppError, bad_request}
use dojjo.Server.DojoId.{assert_safe_dojo_external_id}
use dojjo.Server.GitRemote.{PublicUrl, git_remote_url}
use dojjo.Server.GitHttp.{parse_git_http_rest, rest_tail, backend_path, git_path_info_for_backend}

-- The first `.git/` behind an identifier without a slash is the one that ends it.
split_once_id :
    (id tail : Text)
    → has_char b'/' id ≡ false
    → split_once (text ".git/") (id ++ text ".git/" ++ tail) ≡ some (id, tail)
split_once_id id tail h =
    ap (split_once (text ".git/")) (append_assoc id (text ".git/") tail)
    ∙ ap (split_once (text ".git/")) (sym (append_assoc id (text ".git") (b'/' ∷ tail)))
    ∙ split_once-append (text ".git") b'/' tail id (
        has_text-has_char b'/' (text ".git/") (id ++ text ".git") refl
          (has_char-append b'/' id (text ".git") ∙ rw h refl))

-- A safe identifier, as `assert_safe_dojo_external_id` takes it.
pub record IsSafeId (id : Text) : Type 0 where
  pub nonempty : is_empty id ≡ false
  pub no_slash : has_char b'/' id ≡ false
  pub no_dots : has_dots id ≡ false

pub safe-IsSafeId : (id : Text) → assert_safe_dojo_external_id id ≡ ok tt → IsSafeId id
unfolding assert_safe_dojo_external_id
safe-IsSafeId id h = ground (
  arith,
  assert-eq-ok {E = AppError} (not (is_empty id)),
  guard-eq-ok (not (has_char b'/' id || has_char b'\\' id || has_dots id)) bad_request,
)

pub is_empty-append : (s : Text) (c : ℕ) (t : Text) → is_empty (s ++ (c ∷ t)) ≡ false
is_empty-append [] c t = refl
is_empty-append (x ∷ s) c t = refl

has_dots-backend_path :
    (id tail : Text)
    → has_dots id ≡ false
    → has_dots tail ≡ false
    → has_dots (backend_path id (b'/' ∷ tail)) ≡ false
has_dots-backend_path id tail h k =
    ap has_dots (append_assoc (b'/' ∷ id) (text "/bare.git") (b'/' ∷ tail))
    ∙ has_dots-append (b'/' ∷ id) (text "bare.git" ++ (b'/' ∷ tail))
    ∙ unfold has_dots in rw (h, k) refl

has_text-backend_path :
    (id tail : Text) → has_text (text "/bare.git/") (backend_path id (b'/' ∷ tail)) ≡ true
has_text-backend_path id tail =
    ap (has_text (text "/bare.git/")) (append_assoc (b'/' ∷ id) (text "/bare.git") (b'/' ∷ tail))
    ∙ ap (has_text (text "/bare.git/")) (sym (append_assoc (b'/' ∷ id) (text "/bare.git/") tail))
    ∙ has_text-append_self (b'/' ∷ id) (text "/bare.git/") tail

path_info_lem :
    (id tail : Text)
    → assert_safe_dojo_external_id id ≡ ok tt
    → has_dots tail ≡ false
    → git_path_info_for_backend id (b'/' ∷ tail) ≡ ok (backend_path id (b'/' ∷ tail))
unfolding git_path_info_for_backend
path_info_lem id tail safe k =
    rw
      (
        safe,
        has_text-backend_path id tail,
        has_dots-backend_path id tail (safe-IsSafeId id safe).no_dots k,
      )
      refl

rest_lem :
    (id tail : Text)
    → IsSafeId id
    → is_empty tail ≡ false
    → has_dots tail ≡ false
    → starts_with (text "/") tail ≡ false
    → parse_git_http_rest (id ++ (text ".git/" ++ tail)) ≡ ok (id, b'/' ∷ tail)
unfolding parse_git_http_rest rest_tail
rest_lem id tail s some_tail no_dots relative =
    rw
      (
        is_empty-append id b'.' (text "git/" ++ tail),
        ap (split_once (text ".git/")) (sym (append_assoc id (text ".git/") tail))
            ∙ split_once_id id tail s.no_slash,
        s.nonempty,
        some_tail,
        no_dots,
        relative,
      )
      refl

-- A path with `.git` and a slash behind the identifier, but nothing more, fails an assertion.
pub root_with_slash-panic :
    (id : Text) → has_char b'/' id ≡ false → parse_git_http_rest (id ++ text ".git/") ≡ panic
unfolding parse_git_http_rest rest_tail
root_with_slash-panic id h =
    let parts : split_once (text ".git/") (id ++ text ".git/") ≡ some (id, []) =
      ap (split_once (text ".git/")) (sym (append-nil (id ++ text ".git/")))
      ∙ split_once_id id [] h in
    rw (is_empty-append id b'.' (text "git/"), parts) (ground arith)

abbrev printed_url : PublicUrl → Text → Text
printed_url public id = public.base ++ text "/git/" ++ id ++ text ".git"

-- A URL that the server prints for a dojo, with a further path such as git requests, is the base with a
-- path below `/git/` that is split into the identifier and the further path again, and the backend is
-- given the path of that dojo's bare repository.
pub remote_url_is_served :
    (public : PublicUrl) (id url tail : Text)
    → git_remote_url public id ≡ ok url
    → is_empty tail ≡ false
    → has_dots tail ≡ false
    → starts_with (text "/") tail ≡ false
    → (rest : Text) × (url ++ text "/" ++ tail ≡ public.base ++ text "/git/" ++ rest)
      × (parse_git_http_rest rest ≡ ok (id, text "/" ++ tail))
      × (git_path_info_for_backend id (text "/" ++ tail) ≡ ok (backend_path id (text "/" ++ tail)))
unfolding git_remote_url parse_git_http_rest rest_tail git_path_info_for_backend
remote_url_is_served public id url tail h some_tail no_dots relative =
    let (_, safe, h1) = bind_inv (assert_safe_dojo_external_id id) _ h in
    let s = safe-IsSafeId id safe in
    let (_, _, h2) = bind_inv (assert (has_text (text "/git/") (printed_url public id))) _ h1 in
    let (_, _, h3) = bind_inv (assert (ends_with (text ".git") (printed_url public id))) _ h2 in
    (
      id ++ (text ".git/" ++ tail),
      rw (sym (ok-injective h3)) (simp append_assoc),
      rest_lem id tail s some_tail no_dots relative,
      path_info_lem id tail safe no_dots,
    )
