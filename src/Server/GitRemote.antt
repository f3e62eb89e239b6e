-- ===== src/Server/GitRemote.antt =====
-- sync-server/src/git_remote.rs: the URL of a dojo's bare repository for its clients. A path is its
-- text; what `canonicalize` and `to_str` make of a path on disk is a parameter.
use dojjo.Prelude.{
  Bool, not, Option, none, some, ◌∷◌, ◌++◌, Result, ok, err, panic, if◌then◌else◌, assert, guard,
  ◌>>=◌, ◌>>◌,
}
use dojjo.Prelude.Text.{Text, text, is_empty, trim, starts_with, strip_prefix, has_char}
use dojjo.Prelude.Text.Search.{has_text, ends_with}
use dojjo.Mirror.Operation.{Bytes}
use dojjo.Server.MirrorGet.{AppError, bad_request, internal}
use dojjo.Server.DojoId.{assert_safe_dojo_external_id}

pub record PublicUrl : Type 0 where
  pub base : Text

abbrev pub expect_some {ℓ} : {A : Type ℓ} → Option A → Result AppError A
expect_some none = panic
expect_some (some a) = ok a

abbrev pub ok_or {ℓ} : {A : Type ℓ} → Option A → AppError → Result AppError A
ok_or none e = err e
ok_or (some a) e = ok a

abbrev pub scheme_of : Text → Result AppError Text
scheme_of base =
    if starts_with (text "http://") base
    then ok (text "http://")
    else if starts_with (text "https://") base
    then ok (text "https://")
    else err bad_request

-- `PublicUrl::parse`
unfoldable pub parse_public_url : Text → Result AppError PublicUrl
parse_public_url value = do
  assert (not (is_empty (trim value)))
  guard (not (ends_with (text "/") (trim value))) bad_request
  scheme ← scheme_of (trim value)
  after_scheme ← expect_some (strip_prefix scheme (trim value))
  guard (not (is_empty after_scheme)) bad_request
  guard (not (has_char b'/' after_scheme)) bad_request
  assert (has_text (text "://") (trim value))
  ok (record { base = trim value })

-- `PublicUrl::git_remote_url`
unfoldable pub git_remote_url : PublicUrl → Text → Result AppError Text
git_remote_url public dojo_id = do
  assert_safe_dojo_external_id dojo_id
  let url = public.base ++ text "/git/" ++ dojo_id ++ text ".git"
  assert (has_text (text "/git/") url)
  assert (ends_with (text ".git") url)
  ok url

-- `Path::join` with a relative path
abbrev pub join_path : Text → Text → Text
join_path dir name = if ends_with (text "/") dir then dir ++ name else dir ++ (b'/' ∷ name)

abbrev pub is_absolute : Text → Bool
is_absolute path = starts_with (text "/") path

unfoldable pub bare_repo_path : Text → Text → Result AppError Text
bare_repo_path data_dir dojo_id = do
  assert_safe_dojo_external_id dojo_id
  assert (is_absolute data_dir)
  let bare = join_path (join_path data_dir dojo_id) (text "bare.git")
  assert (starts_with data_dir bare)
  ok bare

module _ (canonicalize : Text → Option Bytes) (to_str : Bytes → Option Text) where
  unfoldable pub file_url : Text → Text → Result AppError Text
  file_url data_dir dojo_id = do
    bare ← bare_repo_path data_dir dojo_id
    canon ← ok_or (canonicalize bare) internal
    path ← ok_or (to_str canon) bad_request
    assert (not (is_empty path))
    guard (starts_with (text "/") path) bad_request
    ok (text "file://" ++ path)

  abbrev pub remote_url_of : Text → Text → Option PublicUrl → Result AppError Text
  remote_url_of data_dir dojo_id none = file_url data_dir dojo_id
  remote_url_of data_dir dojo_id (some public) = git_remote_url public dojo_id

  unfoldable pub git_remote_url_for_dojo : Text → Text → Option PublicUrl → Result AppError Text
  git_remote_url_for_dojo data_dir dojo_id public_url = do
    assert_safe_dojo_external_id dojo_id
    assert (is_absolute data_dir)
    remote_url_of data_dir dojo_id public_url
