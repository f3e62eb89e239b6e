-- ===== src/Server/Finalize/Tests.antt =====
-- Received uploads and an empty mirror: one of `store/type`, and one with an empty path.
use mathlib.Core.Path.{subst}
use dojjo.Prelude.{
  [], ◌∷◌, ◌≡◌, refl, sym, ap, ◌∙◌, ◌≤◌, Bool, true, false, none, some, ok, panic, ◌↔◌, arith,
  length, if◌then◌else◌,
}
use dojjo.Prelude.Order.{◌==◌}
use dojjo.Prelude.Text.{Text, text, join, trim, split}
use dojjo.Prelude.Text.Order.{text_order, text_eq, text_eq_iff}
use dojjo.Tus.Types.{Bytes, UploadId}
use dojjo.Tus.Store.{Within}
use dojjo.Mirror.Path.{parse_safe_mirror_rel, parse_segments, is_safe_mirror_path_segment}
use dojjo.Mirror.Exclude.{
  jj_repo_rel_excluded_from_mirror, jj_repo_rel_excluded_from_git_file_mirror, assert_rel,
  is_host_local, is_git_store,
}
use dojjo.Server.Store.{
  data_len, holds, written, IsPlain, PersistedMeta, Dojo, Faults, meta_file, data_file, read_meta,
}
use dojjo.Server.Store.View.{IsConsistent}
use dojjo.Server.Finalize.{
  no_finalize_faults, move_into_mirror, jj_rel_path_metadata_key, finalize_into_mirror,
}
use dojjo.Server.Finalize.Moves.{finalize_into_mirror-FinalizeRun}
use dojjo.Server.Finalize.Moved.{FinalizeRun}
use dojjo.Server.Finalize.Download.{IsServed, finalized-IsServed}
use dojjo.Server.Finalize.Panics.{IsBroken, finalize-panic_iff}

abbrev working : Faults
working = record {
  create_work_dir = false;
  create_dir = false;
  write_meta = written;
  write_data = false;
  read_meta = false;
  stat_data = false;
  open_data = false;
  write_all = none;
  flush = false;
  remove_dir_all = none;
}

abbrev upload : UploadId
upload = text "u2"

abbrev meta_for : Text → PersistedMeta
meta_for path = record {
  id = upload;
  declared = some 3;
  metadata = λ k. if jj_rel_path_metadata_key == k then some path else none;
  expires_at_unix_secs = none;
}

abbrev holding : Text → Bytes → Dojo
holding path bytes = record {
  uploads = λ j.
      if upload == j
      then some (record { meta = some (holds (meta_for path)); received = some bytes })
      else none;
  mirror = λ _. none;
}

abbrev git_word : Bytes
git_word = 103 ∷ 105 ∷ 116 ∷ []

upload-IsPlain : IsPlain upload
upload-IsPlain = record {
  some_char = λ h. cc;
  no_slash = refl;
  no_nul = refl;
  not_dot = λ h. cc;
  not_dot_dot = λ h. cc;
}

only_meta :
    (path : Text) (bytes : Bytes) (id : UploadId) (m : PersistedMeta) (b : Bool)
    → upload == id ≡ b
    → meta_file (
        if b
        then some (record { meta = some (holds (meta_for path)); received = some bytes })
        else none)
      ≡ some m
    → (upload ≡ id) × (meta_for path ≡ m)
only_meta path bytes id m true e h = ((text_eq_iff upload id).0 e, cc)
only_meta path bytes id m false e h = absurd cc

only_data :
    (path : Text) (here bytes : Bytes) (b : Bool)
    → data_file (
        if b
        then some (record { meta = some (holds (meta_for path)); received = some here })
        else none)
      ≡ some bytes
    → here ≡ bytes
only_data path here bytes true h = cc
only_data path here bytes false h = absurd cc

holding-IsConsistent : (path : Text) → IsConsistent (holding path git_word)
holding-IsConsistent path = record {
  named = λ id m h.
      let (same, meta) = only_meta path git_word id m _ refl h in sym (ap (λ k. k.id) meta) ∙ same;
  within = λ id m bytes h g.
      let (same, meta) = only_meta path git_word id m _ refl h in
      subst (λ k. Within k.declared (length bytes)) meta
        (subst (λ k. length k ≤ 3) (only_data path git_word bytes _ g) (ground arith));
}

finalize_into_mirror-FinalizeRun_example :
    FinalizeRun upload (holding (text "store/type") git_word) (
      finalize_into_mirror working no_finalize_faults upload (holding (text "store/type") git_word))
finalize_into_mirror-FinalizeRun_example =
    finalize_into_mirror-FinalizeRun working no_finalize_faults upload
      (holding (text "store/type") git_word) upload-IsPlain

finalize_test :
    (finalize_into_mirror working no_finalize_faults upload
      (holding (text "store/type") git_word)).0
    ≡ ok tt
unfolding finalize_into_mirror move_into_mirror read_meta data_len parse_safe_mirror_rel
    parse_segments is_safe_mirror_path_segment jj_repo_rel_excluded_from_mirror
    jj_repo_rel_excluded_from_git_file_mirror assert_rel is_host_local is_git_store text_eq join
    trim split
finalize_test = refl

finalized-IsServed_example :
    IsServed upload
      (holding (text "store/type") git_word)
      (finalize_into_mirror working no_finalize_faults upload
        (holding (text "store/type") git_word)).1
finalized-IsServed_example =
    finalized-IsServed upload (holding (text "store/type") git_word) working no_finalize_faults
      upload-IsPlain finalize_test

finalize-panic_iff_example :
    ((finalize_into_mirror working no_finalize_faults upload (holding [] git_word)).0 ≡ panic)
    ↔ IsBroken working upload (holding [] git_word)
finalize-panic_iff_example =
    finalize-panic_iff working no_finalize_faults upload (holding [] git_word)
      (holding-IsConsistent []) upload-IsPlain

empty_path_test :
    (finalize_into_mirror working no_finalize_faults upload (holding [] git_word)).0 ≡ panic
unfolding finalize_into_mirror read_meta text_eq
empty_path_test = refl
