-- ===== src/Server/Manifest.antt =====
-- sync-server/src/mirror_manifest.rs: the manifest of the mirror. The regular files below `mirror/` are
-- given in the order in which the walk finds them; SHA-256 is a parameter.
mod Parts
pub mod Built
pub mod Publish
pub mod Parsed
pub mod Served
pub mod Current
mod Tests
mod SyncTests
use dojjo.Prelude.Text.Order.{text_order, text_eq}
use dojjo.Prelude.{
  ℕ, ◌+◌, ◌*◌, ◌/◌, ◌%◌, ◌++◌, zero, suc, List, [], ◌∷◌, Bool, true, false, not, ◌&&◌, ◌||◌, Option,
  none, some, leb, nat_eq, length, if◌then◌else◌, map, Result, ok, err, panic, assert, guard, ◌>>=◌,
  ◌>>◌,
}
use dojjo.Prelude.Order.{◌==◌, ◌<?◌}
use dojjo.Prelude.Order.Sets.{contains}
use dojjo.Prelude.Dict.{Dict, lookup}
use dojjo.Prelude.Text.{Text, text, is_empty, len, trim, split, strip_prefix}
use dojjo.Mirror.Operation.{Bytes, Codec, IoError, invalid_data, other}
use dojjo.Mirror.Path.{is_safe_mirror_path_segment, parse_safe_mirror_rel}
use dojjo.Mirror.Exclude.{
  jj_repo_rel_excluded_from_mirror, jj_repo_rel_excluded_from_git_file_mirror,
}
use dojjo.Mirror.ApplyOrder.{compute_mirror_apply_order}
use dojjo.Server.MirrorGet.{AppError, bad_request, internal, max_mirror_blob_bytes, or_bad_request}

-- `ManifestEntry`
pub record MirrorEntry : Type 0 where
  pub path : Text
  pub size : ℕ
  pub sha256 : Text

pub record ManifestBody : Type 0 where
  pub revision : Text
  pub entries : List MirrorEntry
  pub apply_order : List Text

-- Either of the two exclusion tests.
unfoldable pub is_excluded : Text → Result AppError Bool
is_excluded p = do
  host_local ← jj_repo_rel_excluded_from_mirror p
  elim host_local [ true ↦ ok true | false ↦ jj_repo_rel_excluded_from_git_file_mirror p ]

abbrev pub push_segment : Text → Text → Text
push_segment dir seg = if is_empty dir then seg else dir ++ (b'/' ∷ seg)

-- The walk from a directory down to a file: false where a directory on the way is excluded.
unfoldable pub walk_to : Text → List Text → Result AppError Bool
walk_to dir [] = ok true
walk_to dir (seg ∷ []) = do guard (is_safe_mirror_path_segment seg) bad_request; ok true
walk_to dir (seg ∷ next ∷ segs) = do
  guard (is_safe_mirror_path_segment seg) bad_request
  excluded ← is_excluded (push_segment dir seg)
  elim excluded [ true ↦ ok false | false ↦ walk_to (push_segment dir seg) (next ∷ segs) ]

-- `sort_by` on the paths, which is stable.
unfoldable pub place_entry : MirrorEntry → List MirrorEntry → List MirrorEntry
place_entry e [] = e ∷ []
place_entry e (x ∷ xs) =
    let rest = place_entry e xs in if x.path <? e.path then x ∷ rest else e ∷ x ∷ xs

unfoldable pub sort_by_path : List MirrorEntry → List MirrorEntry
sort_by_path [] = []
sort_by_path (e ∷ es) = place_entry e (sort_by_path es)

-- `to_be_bytes` of a `u64`
unfoldable pub to_be_bytes : ℕ → ℕ → Bytes → Bytes
to_be_bytes zero n acc = acc
to_be_bytes (suc k) n acc = to_be_bytes k (n / 256) (n % 256 ∷ acc)

unfoldable pub hashed : List MirrorEntry → Result AppError Bytes
hashed [] = ok []
hashed (e ∷ es) = do
  assert (not (is_empty e.path))
  assert (nat_eq (len e.sha256) 64)
  rest ← hashed es
  ok (e.path ++ (0 ∷ to_be_bytes 8 e.size []) ++ (0 ∷ e.sha256) ++ (0 ∷ rest))

abbrev pub map_order_error {ℓ} : {A : Type ℓ} → Result IoError A → Result AppError A
map_order_error (ok a) = ok a
map_order_error (err invalid_data) = err bad_request
map_order_error (err other) = err internal
map_order_error panic = panic

abbrev pub paths_of : List MirrorEntry → List Text
paths_of [] = []
paths_of (e ∷ es) = e.path ∷ paths_of es

-- `strip_prefix('"')`, then `strip_suffix('"')`
unfoldable pub drop_quote : Text → Option Text
drop_quote [] = none
drop_quote (c ∷ []) = if nat_eq c b'"' then some [] else none
drop_quote (c ∷ d ∷ s) = elim (drop_quote (d ∷ s)) [ none ↦ none | some r ↦ some (c ∷ r) ]

abbrev pub unquoted : Text → Text → Text
unquoted p [] = p
unquoted p (c ∷ s) = if nat_eq c b'"' then elim (drop_quote s) [ none ↦ p | some r ↦ r ] else p

abbrev pub without_weak : Text → Text
without_weak p = elim (strip_prefix (text "W/") p) [ none ↦ p | some r ↦ r ]

-- One part of `If-None-Match`.
unfoldable pub names_revision : Text → Text → Bool
names_revision revision part = let p = trim (without_weak (trim part)) in unquoted p p == revision

abbrev pub any : (Text → Bool) → List Text → Bool
any p [] = false
any p (x ∷ xs) = p x || any p xs

unfoldable pub if_none_match_includes_revision : Text → Text → Result AppError Bool
if_none_match_includes_revision if_none_match revision = do
  assert (not (is_empty revision))
  ok (any (names_revision revision) (split b',' if_none_match))

-- The loop over `apply_order`.
unfoldable pub all_found : List MirrorEntry → List Text → Result AppError (Unit {0})
all_found entries [] = ok tt
all_found entries (p ∷ ps) = do guard (contains (paths_of entries) p) internal; all_found entries ps

unfoldable pub validate_manifest_body : ManifestBody → Result AppError (Unit {0})
validate_manifest_body body = do
  assert (not (is_empty body.revision))
  guard (nat_eq (length body.apply_order) (length body.entries)) internal
  all_found body.entries body.apply_order

abbrev pub with_entry : Option MirrorEntry → List MirrorEntry → List MirrorEntry
with_entry none rest = rest
with_entry (some e) rest = e ∷ rest

module _ (c : Codec) (sha256_hex : Bytes → Text) where
  -- The entry of a file, unless its path is excluded.
  unfoldable pub entry_of : Bool → Text → Bytes → Result AppError (Option MirrorEntry)
  entry_of true path bytes = ok none
  entry_of false path bytes = do
    assert (nat_eq (len (sha256_hex bytes)) 64)
    ok (some (record { path = path; size = length bytes; sha256 = sha256_hex bytes }))

  -- A regular file, once the walk has come to it.
  unfoldable pub scan_file : Text → Bytes → Result AppError (Option MirrorEntry)
  scan_file path bytes = do
    guard (leb (length bytes) max_mirror_blob_bytes) bad_request
    rel ← or_bad_request (parse_safe_mirror_rel path)
    excluded ← is_excluded path
    entry_of excluded path bytes

  unfoldable pub scan_reached : Bool → Text → Bytes → Result AppError (Option MirrorEntry)
  scan_reached false path bytes = ok none
  scan_reached true path bytes = scan_file path bytes

  unfoldable pub scan_mirror_tree : Dict Text Bytes → Result AppError (List MirrorEntry)
  scan_mirror_tree [] = ok []
  scan_mirror_tree ((path, bytes) ∷ files) = do
    reached ← walk_to [] (split b'/' path)
    entry ← scan_reached reached path bytes
    rest ← scan_mirror_tree files
    ok (with_entry entry rest)

  unfoldable pub compute_revision : List MirrorEntry → Result AppError Text
  compute_revision entries = do input ← hashed (sort_by_path entries); ok (sha256_hex input)

  unfoldable pub build_manifest_body : Dict Text Bytes → Result AppError ManifestBody
  build_manifest_body files = do
    entries ← scan_mirror_tree files
    revision ← compute_revision entries
    assert (not (is_empty revision))
    apply_order ←
        map_order_error (compute_mirror_apply_order c (λ p. lookup p files) (paths_of entries))
    assert (nat_eq (length apply_order) (length (paths_of entries)))
    ok (record { revision = revision; entries = entries; apply_order = apply_order })
