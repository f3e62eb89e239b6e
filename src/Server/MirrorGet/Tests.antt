-- ===== src/Server/MirrorGet/Tests.antt =====
-- A mirror that holds the directory `store` with one file.
use dojjo.Prelude.{
  [], ◌∷◌, ◌≡◌, ◌⊎◌, inl, inr, refl, sym, ap, ◌∙◌, true, false, ok, panic, length, if◌then◌else◌,
  Bool-cases,
}
use dojjo.Prelude.Order.{◌==◌}
use dojjo.Prelude.Text.{Text, text, join, trim, split}
use dojjo.Prelude.Text.Order.{text_order, text_eq}
use dojjo.Tus.Types.{Bytes}
use dojjo.Mirror.Path.{parse_safe_mirror_rel, parse_segments, is_safe_mirror_path_segment}
use dojjo.Mirror.Exclude.{
  jj_repo_rel_excluded_from_mirror, jj_repo_rel_excluded_from_git_file_mirror, assert_rel,
  is_host_local, is_git_store,
}
use dojjo.Server.MirrorGet.{
  ReadError, FileMetadata, MirrorDisk, no_such_file, other_kind, read_mirror_file,
  get_mirror_object,
}
use dojjo.Server.MirrorGet.Outcomes.{GetOutcome, get_mirror_object-GetOutcome}

abbrev git_word : Bytes
git_word = 103 ∷ 105 ∷ 116 ∷ []

abbrev metadata_of : Text → ReadError ⊎ FileMetadata
metadata_of path =
    if path == text "store/type"
    then inr (record { is_file = true; len = 3 })
    else if path == text "store"
    then inr (record { is_file = false; len = 4096 })
    else inl no_such_file

abbrev read_of : Text → ReadError ⊎ Bytes
read_of path = if path == text "store/type" then inr git_word else inl other_kind

abbrev small_mirror : MirrorDisk
small_mirror = record { metadata = metadata_of; read = read_of }

steady :
    (path : Text) (meta : FileMetadata) (bytes : Bytes)
    → metadata_of path ≡ inr meta
    → read_of path ≡ inr bytes
    → length bytes ≡ meta.len
steady path meta bytes m r = elim (Bool-cases (path == text "store/type")) [
  | inl here ↦
      let same_meta : ◌≡◌ {A = ReadError ⊎ FileMetadata} (inr (record { is_file = true; len = 3 }))
          (inr meta) =
        rw here at m in
      let same_bytes : ◌≡◌ {A = ReadError ⊎ Bytes} (inr git_word) (inr bytes) = rw here at r in
      let e : ◌≡◌ {A = FileMetadata} (record { is_file = true; len = 3 }) meta = cc in
      let d : git_word ≡ bytes = cc in sym (ap length d) ∙ ap (λ k. k.len) e
  | inr elsewhere ↦
      let nothing : ◌≡◌ {A = ReadError ⊎ Bytes} (inl other_kind) (inr bytes) = rw elsewhere at r in
      absurd cc
]

get_mirror_object-GetOutcome_example :
    GetOutcome small_mirror (text "store") (get_mirror_object small_mirror (text "store"))
get_mirror_object-GetOutcome_example =
    get_mirror_object-GetOutcome small_mirror steady (text "store")

get_directory : get_mirror_object small_mirror (text "store") ≡ panic
unfolding get_mirror_object read_mirror_file parse_safe_mirror_rel parse_segments
    is_safe_mirror_path_segment jj_repo_rel_excluded_from_mirror
    jj_repo_rel_excluded_from_git_file_mirror assert_rel is_host_local is_git_store text_eq join
    trim split
get_directory = refl

get_file : get_mirror_object small_mirror (text "store/type") ≡ ok git_word
unfolding get_mirror_object read_mirror_file parse_safe_mirror_rel parse_segments
    is_safe_mirror_path_segment jj_repo_rel_excluded_from_mirror
    jj_repo_rel_excluded_from_git_file_mirror assert_rel is_host_local is_git_store text_eq join
    trim split
get_file = refl
