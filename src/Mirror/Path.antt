-- ===== src/Mirror/Path.antt =====
-- dojjo-mirror/src/mirror_path.rs: relative paths under a dojo's `mirror/`. A `PathBuf` that is
-- built by `push` of plain segments is the list of its segments.
pub mod Segments
pub mod Laws
use Prim.Native.Nat.{ℕ}
use dojjo.Prelude.{
  List, [], ◌∷◌, ◌++◌, Bool, true, false, not, ◌&&◌, ◌||◌, ltb, nat_eq, if◌then◌else◌, all, Result,
  ok, assert, guard, ◌>>=◌, ◌>>◌,
}
use dojjo.Prelude.Order.{◌==◌}
use dojjo.Prelude.Text.{
  Text, text, is_empty, is_ascii_alphanumeric, len, trim, starts_with, has_char, split,
}
use dojjo.Prelude.Text.Order.{text_order, text_eq}

-- The messages of `parse_safe_mirror_rel`.
pub data PathError : Type 0 where
  empty_path too_long not_relative backslash empty_segment dot_segment invalid_characters :
      PathError

abbrev pub max_jj_rel_path_bytes : ℕ
max_jj_rel_path_bytes = 4096

abbrev pub segment_char : ℕ → Bool
segment_char c = is_ascii_alphanumeric c || nat_eq c b'_' || nat_eq c b'-' || nat_eq c b'.'

abbrev pub is_dots : Text → Bool
is_dots seg = seg == text "." || seg == text ".."

unfoldable pub is_safe_mirror_path_segment : Text → Bool
is_safe_mirror_path_segment seg =
    if is_empty seg then false else if is_dots seg then false else all segment_char seg

-- The body of the loop over `rel.split('/')`, with what `out` holds so far.
unfoldable pub parse_segments : List Text → List Text → Result PathError (List Text)
parse_segments [] out = ok out
parse_segments (seg ∷ segs) out = do
  guard (not (is_empty seg)) empty_segment
  guard (not (is_dots seg)) dot_segment
  guard (is_safe_mirror_path_segment seg) invalid_characters
  parse_segments segs (out ++ seg ∷ [])

-- `Component::Normal`
abbrev pub is_normal : Text → Bool
is_normal seg = not (is_empty seg) && not (is_dots seg)

abbrev pub is_nil : List Text → Bool
is_nil [] = true
is_nil (s ∷ ss) = false

unfoldable pub parse_safe_mirror_rel : Text → Result PathError (List Text)
unfolding parse_segments is_safe_mirror_path_segment trim split text_eq
parse_safe_mirror_rel rel0 =
    let rel = trim rel0 in
    do
      guard (not (is_empty rel)) empty_path
      guard (not (ltb max_jj_rel_path_bytes (len rel))) too_long
      guard (not (starts_with (text "/") rel || starts_with (text "\\") rel)) not_relative
      guard (not (has_char b'\\' rel)) backslash
      out ← parse_segments (split b'/' rel) []
      assert (not (is_nil out))
      assert (all is_normal out)
      ok out
