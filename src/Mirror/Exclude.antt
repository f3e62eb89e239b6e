-- ===== src/Mirror/Exclude.antt =====
-- dojjo-mirror/src/mirror_exclude.rs and git_mirror_exclude.rs: paths under `.jj/repo` that the
-- file mirror leaves out.
pub mod Segments
pub mod Paths
use dojjo.Prelude.Text.Order.{text_order}
use dojjo.Prelude.{
  List, [], ◌∷◌, Bool, true, not, ◌||◌, if◌then◌else◌, Result, ok, assert, ◌>>=◌, ◌>>◌,
}
use dojjo.Prelude.Order.{◌==◌}
use dojjo.Prelude.Order.Sets.{contains}
use dojjo.Prelude.Text.{Text, text, is_empty, starts_with, has_char}

abbrev pub jj_repo_file_lock_paths : List Text
jj_repo_file_lock_paths =
    text "git_import_export.lock"
    ∷ text "op_heads/lock"
    ∷ text "store/extra/lock"
    ∷ text "workspace_store/index.lock"
    ∷ []

-- The three assertions that both tests begin with.
unfoldable pub assert_rel {ℓ} : {E : Type ℓ} → Text → Result E (Unit {0})
assert_rel rel = do
  assert (not (is_empty rel))
  assert (not (starts_with (text "/") rel))
  assert (not (has_char b'\\' rel))

-- The tests of `jj_repo_rel_excluded_from_mirror`, in order.
unfoldable pub is_host_local : Text → Bool
is_host_local rel =
    if rel == text "workspace_store" || starts_with (text "workspace_store/") rel
    then true
    else if rel == text "store/git_target"
    then true
    else if rel == text "config.toml"
    then true
    else if rel == text "config-id"
    then true
    else contains jj_repo_file_lock_paths rel

unfoldable pub jj_repo_rel_excluded_from_mirror {ℓ} : {E : Type ℓ} → Text → Result E Bool
unfolding assert_rel is_host_local
jj_repo_rel_excluded_from_mirror rel = do assert_rel rel; ok (is_host_local rel)

unfoldable pub is_git_store : Text → Bool
is_git_store rel = rel == text "store/git" || starts_with (text "store/git/") rel

unfoldable pub jj_repo_rel_excluded_from_git_file_mirror {ℓ} : {E : Type ℓ} → Text → Result E Bool
unfolding assert_rel is_git_store
jj_repo_rel_excluded_from_git_file_mirror rel = do assert_rel rel; ok (is_git_store rel)

abbrev pub jj_repo_rel_git_transport_local_state {ℓ} : {E : Type ℓ} → Text → Result E Bool
jj_repo_rel_git_transport_local_state rel = jj_repo_rel_excluded_from_git_file_mirror rel
