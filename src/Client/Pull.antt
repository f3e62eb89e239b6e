-- ===== src/Client/Pull.antt =====
-- client/src/mirror_pull.rs, and `pull_mirror_paths` of client/src/manifest.rs: files of the mirror are
-- written below the local repository, in the order of the manifest.
use dojjo.Prelude.Text.Order.{text_order}
use dojjo.Prelude.{
  ℕ, ◌+◌, List, [], ◌∷◌, Bool, true, false, not, ◌&&◌, ◌||◌, Option, none, some, all,
}
use dojjo.Prelude.Order.Sets.{contains}
use dojjo.Prelude.Dict.{put}
use dojjo.Prelude.Text.{Text, text, is_empty, starts_with, has_char, has_dots, split}
use dojjo.Prelude.Action.{Action, lift, return, fail, gets, check, ensure, modify, ◌>>=◌, ◌>>◌}
use dojjo.Mirror.Operation.{Bytes}
use dojjo.Mirror.Path.{is_dots, is_nil}
use dojjo.Client.Manifest.{ClientError, write_failed, unsafe_path, no_dojo_id}
use dojjo.Client.Http.{Net, trim_slashes}
use dojjo.Client.Fetch.{
  Session, LocalFaults, WriteFault, untouched, left_with, fetch_manifest, get_mirror_object_bytes,
}
use dojjo.Client.RepoWalk.{is_local_only}

-- The conditions of `assert_safe_mirror_rel_path`, which have one and the same effect.
unfoldable pub is_safe_path : Text → Bool
is_safe_path path =
    not (is_empty path)
    && not (starts_with (text "/") path)
    && not (has_char b'\\' path)
    && not (has_dots path)
    && all (λ seg. not (is_empty seg) && not (is_dots seg)) (split b'/' path)

module _ {W : Type 0} (net : Net W) (api_base dojo_id : Text) (faults : LocalFaults) where
  abbrev pub written : Option WriteFault → Text → Bytes → Action (Session W) ClientError (Unit {0})
  written none rel bytes = modify (λ s. record s { files = put rel bytes s.files })
  written (some untouched) rel bytes = fail write_failed
  written (some (left_with part)) rel bytes = do
    modify (λ s. record s { files = put rel part s.files })
    fail write_failed

  -- `create_dir_all` of the parent, and `fs::write`
  unfoldable pub write_file : Text → Bytes → Action (Session W) ClientError (Unit {0})
  write_file rel bytes = written (faults.write rel) rel bytes

  -- The rest of a round of either loop: `rel` is fetched and written unless the manifest has lost it;
  -- the count of what was written is returned.
  unfoldable pub pull_object : ℕ → Text → Action (Session W) ClientError ℕ
  pull_object pulled rel = do
    got ← get_mirror_object_bytes net api_base dojo_id rel
    elim got [
      | none ↦ return pulled
      | some bytes ↦ do
        check (not (starts_with (text "/") rel))
        write_file rel bytes
        return (pulled + 1)
    ]

  -- The loop of `pull_mirror_paths`.
  unfoldable pub pull_from : List Text → List Text → ℕ → Action (Session W) ClientError ℕ
  pull_from pull_set [] pulled = return pulled
  pull_from pull_set (rel ∷ rels) pulled = do
    skip ← lift (is_local_only rel)
    elim (skip || not (contains pull_set rel)) [
      | true ↦ pull_from pull_set rels pulled
      | false ↦ do now ← pull_object pulled rel; pull_from pull_set rels now
    ]

  unfoldable pub pull_mirror_paths : List Text → Action (Session W) ClientError ℕ
  pull_mirror_paths pull_set = elim (is_nil pull_set) [
    | true ↦ return 0
    | false ↦ do order ← gets (λ s. s.manifest.apply_order); pull_from pull_set order 0
  ]

  -- The loop of `pull_mirror_into_repo`.
  unfoldable pub pull_all_from : List Text → ℕ → Action (Session W) ClientError ℕ
  pull_all_from [] pulled = return pulled
  pull_all_from (rel ∷ rels) pulled = do
    skip ← lift (is_local_only rel)
    elim skip [
      | true ↦ pull_all_from rels pulled
      | false ↦ do
        ensure (is_safe_path rel) unsafe_path
        now ← pull_object pulled rel
        pull_all_from rels now
    ]

  unfoldable pub pull_mirror_into_repo : Action (Session W) ClientError ℕ
  pull_mirror_into_repo = do
    ensure (not (is_empty dojo_id)) no_dojo_id
    check (not (is_empty (trim_slashes api_base)))
    manifest ← fetch_manifest net api_base dojo_id
    modify (λ s. record s { manifest = manifest })
    pull_all_from manifest.apply_order 0
