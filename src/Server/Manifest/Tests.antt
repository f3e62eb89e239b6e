-- ===== src/Server/Manifest/Tests.antt =====
-- The manifest of a mirror with a file that is not mirrored, and `If-None-Match`.
use dojjo.Prelude.Text.Order.{text_order, text_eq, text_lt, text_eq_iff}
use dojjo.Prelude.{◌≤◌, List, [], ◌∷◌, ◌≡◌, refl, arith, true, Option, some, ok}
use dojjo.Prelude.Order.Sets.{count, place, sort}
use dojjo.Prelude.Dict.{Dict, keys, lookup}
use dojjo.Prelude.Text.{Text, text, trim, split}
use dojjo.Mirror.Operation.{Bytes, Codec}
use dojjo.Mirror.Path.{parse_safe_mirror_rel, parse_segments, is_safe_mirror_path_segment}
use dojjo.Mirror.Exclude.{
  jj_repo_rel_excluded_from_mirror, jj_repo_rel_excluded_from_git_file_mirror, assert_rel,
  is_host_local, is_git_store,
}
use dojjo.Mirror.ApplyOrder.{
  compute_mirror_apply_order, layers_from, layer_paths, sorted_paths_in_layer, filter_layer,
  classify_path, layer_of, windows_le, ordered_operations, check_ids,
}
use dojjo.Server.Manifest.{
  ManifestBody, is_excluded, walk_to, place_entry, sort_by_path, to_be_bytes, hashed, drop_quote,
  names_revision, if_none_match_includes_revision, entry_of, scan_file, scan_reached,
  scan_mirror_tree, compute_revision, build_manifest_body,
}
use dojjo.Server.Manifest.Built.{IsManifest, build-IsManifest}

abbrev zeros : Text
zeros = text "0000000000000000000000000000000000000000000000000000000000000000"

abbrev pub zero_digest : Bytes → Text
zero_digest b = zeros

abbrev no_parents : Bytes → Option (List Bytes)
no_parents b = some []

abbrev plain_hex : Bytes → Text
plain_hex b = b

abbrev pub plain_codec : Codec
plain_codec = record { parents = no_parents; hex_encode = plain_hex }

abbrev pub mirror_files : Dict Text Bytes
mirror_files =
    (text "op_heads/heads/h", 1 ∷ [])
    ∷ (text "workspace_store/index", 2 ∷ 3 ∷ [])
    ∷ (text "store/type", 4 ∷ 5 ∷ 6 ∷ [])
    ∷ []

abbrev pub small_body : ManifestBody
small_body = record {
  revision = zeros;
  entries =
      record { path = text "op_heads/heads/h"; size = 1; sha256 = zeros }
      ∷ record { path = text "store/type"; size = 3; sha256 = zeros }
      ∷ [];
  apply_order = text "store/type" ∷ text "op_heads/heads/h" ∷ [];
}

pub build_run : build_manifest_body plain_codec zero_digest mirror_files ≡ ok small_body
unfolding build_manifest_body scan_mirror_tree scan_reached scan_file entry_of compute_revision
    hashed sort_by_path place_entry to_be_bytes walk_to is_excluded parse_safe_mirror_rel
    parse_segments is_safe_mirror_path_segment jj_repo_rel_excluded_from_mirror
    jj_repo_rel_excluded_from_git_file_mirror assert_rel is_host_local is_git_store
    compute_mirror_apply_order layers_from layer_paths sorted_paths_in_layer filter_layer
    classify_path layer_of sort place windows_le ordered_operations check_ids lookup split text_eq
    text_lt
build_run = refl

pub names_differ : (p : Text) → count p (keys mirror_files) ≤ 1
names_differ p = ground (
  arith,
  text_eq_iff (text "op_heads/heads/h") p,
  text_eq_iff (text "workspace_store/index") p,
  text_eq_iff (text "store/type") p,
)

build-IsManifest_example : IsManifest plain_codec zero_digest mirror_files small_body
build-IsManifest_example =
    build-IsManifest plain_codec zero_digest mirror_files small_body names_differ build_run

weak_tag_matches : if_none_match_includes_revision (text "\"r0\", W/\"r1\"") (text "r1") ≡ ok true
unfolding if_none_match_includes_revision names_revision drop_quote trim split text_eq
weak_tag_matches = refl
