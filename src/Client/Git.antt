-- ===== src/Client/Git.antt =====
-- client/src/git_sync.rs: the calls of `git` that move refs and objects. The process and the disk that
-- it works on are the parameter `W`; paths are those below the git directory.
pub mod Refs
pub mod Need
pub mod Parsed
pub mod Agree
pub mod Needed
pub mod Mismatch
pub mod Fetch
mod Tests
pub mod Healed
pub mod Supported
use dojjo.Prelude.Text.Order.{text_order}
use dojjo.Prelude.{
  ℕ, List, [], ◌∷◌, ◌++◌, Bool, true, false, not, ◌&&◌, ◌||◌, Option, none, some, Result, ok, err,
  is_some, if◌then◌else◌,
}
use dojjo.Prelude.Order.{◌==◌}
use dojjo.Prelude.Text.{Text, text, is_empty, trim, starts_with, has_char}
use dojjo.Prelude.Action.{Action, lift, return, fail, gets, check, ensure, ◌>>=◌, ◌>>◌}
use dojjo.Mirror.Operation.{Bytes}

-- `anyhow::Error`, by its outermost message.
pub data GitError : Type 0 where
  not_utf8 init_spawn init_failed layout_failed spawn_failed add_failed set_url_failed
        remove_failed_remote ls_remote_failed for_each_ref_failed push_failed fetch_failed
        remove_failed still_corrupt :
      GitError

-- What a process of git leaves; it has no exit code if a signal ended it.
pub record GitOutput : Type 0 where
  pub code : Option ℕ
  pub success : Bool
  pub stdout : Bytes

-- `run` starts git on the git directory, with the given arguments; `init` is `git init --bare`.
-- `create` and `remove` say whether they worked. `utf8` says whether the directory's path is UTF-8,
-- `from_utf8` and `lossy` read text.
pub record Git (W : Type 0) : Type 0 where
  pub run : List Text → W → Option GitOutput × W
  pub init : W → Option Bool × W
  pub is_file : Text → W → Bool
  pub is_dir : Text → W → Bool
  pub exists : Text → W → Bool
  pub create_dir_all : Text → W → Bool × W
  pub remove_dir_all : Text → W → Bool × W
  pub remove_file : Text → W → Bool × W
  pub utf8 : Bool
  pub from_utf8 : Bytes → Option Text
  pub lossy : Bytes → Text

-- The path of the git directory itself.
abbrev pub git_root : Text
git_root = []

abbrev pub remote_url_args : List Text
remote_url_args = text "remote" ∷ text "get-url" ∷ text "dojjo" ∷ []

abbrev pub fsck_args : List Text
fsck_args = text "fsck" ∷ text "--no-progress" ∷ []

abbrev pub GitAction : Type 0 → Type 0 → Type 0
GitAction W A = Action W GitError A

abbrev pub worked : {W : Type 0} → GitError → Bool × W → Result GitError (Unit {0}) × W
worked e (true, w) = (ok tt, w)
worked e (false, w) = (err e, w)

abbrev pub ended : {W : Type 0} → GitError → Option Bool × W → Result GitError Bool × W
ended e (none, w) = (err e, w)
ended e (some b, w) = (ok b, w)

abbrev pub when : {W : Type 0} → Bool → GitAction W (Unit {0}) → GitAction W (Unit {0})
when true m = m
when false m = return tt

abbrev pub output_of : {W : Type 0} → Option GitOutput × W → Result GitError GitOutput × W
output_of (none, w) = (err spawn_failed, w)
output_of (some out, w) = (ok out, w)

module _ {W : Type 0} (g : Git W) where
  abbrev pub create_all : Text → GitAction W (Unit {0})
  create_all path w = worked layout_failed (g.create_dir_all path w)

  -- `git init --bare`, where a part of the layout is missing.
  unfoldable pub init_bare : GitAction W (Unit {0})
  init_bare = do
    there ← gets (g.exists git_root)
    dir ← gets (g.is_dir git_root)
    check (not there || dir)
    ensure g.utf8 not_utf8
    success ← λ w. ended init_spawn (g.init w)
    ensure success init_failed
    head ← gets (g.is_file (text "HEAD"))
    check head
    config ← gets (g.is_file (text "config"))
    check config

  unfoldable pub ensure_git_dir_layout : GitAction W (Unit {0})
  ensure_git_dir_layout = do
    head ← gets (g.is_file (text "HEAD"))
    config ← gets (g.is_file (text "config"))
    when (not head || not config) init_bare
    dir ← gets (g.is_dir git_root)
    check dir
    objects ← gets (g.exists (text "objects"))
    when (not objects) (create_all (text "objects/info"))
    refs ← gets (g.exists (text "refs"))
    when (not refs) (create_all (text "refs/heads") >> create_all (text "refs/tags"))

  unfoldable pub git_output : List Text → GitAction W GitOutput
  git_output args = do
    dir ← gets (g.is_dir git_root)
    check dir
    ensure_git_dir_layout
    ensure g.utf8 not_utf8
    out ← λ w. output_of (g.run args w)
    check (is_some out.code)
    return out

  unfoldable pub assert_supported_git_remote_url : Text → GitAction W (Unit {0})
  assert_supported_git_remote_url remote_url = do
    check (not (is_empty remote_url))
    check (
        starts_with (text "file://") remote_url
        || starts_with (text "http://") remote_url
        || starts_with (text "https://") remote_url)
    check (not (has_char b'@' remote_url))

  -- A command whose failure is an error.
  abbrev pub git_ok : List Text → GitError → GitAction W GitOutput
  git_ok args e = do out ← git_output args; ensure out.success e; return out

  -- The remote is there, with the URL that `existing` prints.
  unfoldable pub update_remote : Text → Text → GitAction W (Unit {0})
  update_remote remote_url existing = do
    check (not (is_empty existing))
    when (not (existing == remote_url)) (do
      set ← git_ok (text "remote" ∷ text "set-url" ∷ text "dojjo" ∷ remote_url ∷ []) set_url_failed
      return tt)

  unfoldable pub add_remote : Text → GitAction W (Unit {0})
  add_remote remote_url = do
    add ← git_ok (text "remote" ∷ text "add" ∷ text "dojjo" ∷ remote_url ∷ []) add_failed
    return tt

  unfoldable pub ensure_dojjo_remote : Text → GitAction W (Unit {0})
  ensure_dojjo_remote remote_url = do
    dir ← gets (g.is_dir git_root)
    check dir
    assert_supported_git_remote_url remote_url
    probe ← git_output remote_url_args
    elim probe.success [
      | true ↦ update_remote remote_url (trim (g.lossy probe.stdout))
      | false ↦ add_remote remote_url
    ]

  unfoldable pub remove_dojjo_remote : GitAction W (Unit {0})
  remove_dojjo_remote = do
    dir ← gets (g.is_dir git_root)
    check dir
    probe ← git_output remote_url_args
    when probe.success (do
      rm ← git_ok (text "remote" ∷ text "remove" ∷ text "dojjo" ∷ []) remove_failed_remote
      return tt)

  unfoldable pub git_store_needs_healing : GitAction W Bool
  git_store_needs_healing = do
    dir ← gets (g.is_dir git_root)
    check dir
    fsck ← git_output fsck_args
    return (not fsck.success)

  unfoldable pub git_push_dojjo : Text → GitAction W (Unit {0})
  git_push_dojjo remote_url = do
    ensure_dojjo_remote remote_url
    out ←
        git_ok (text "push" ∷ text "--no-progress" ∷ text "dojjo" ∷ text "+refs/*:refs/*" ∷ [])
          push_failed
    return tt
