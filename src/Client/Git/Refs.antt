-- ===== src/Client/Git/Refs.antt =====
-- client/src/git_sync.rs: the refs that `git ls-remote` and `git for-each-ref` print, and their
-- comparison. A `BTreeMap` is an association list; what is computed does not depend on its order.
use dojjo.Prelude.Text.Order.{text_order}
use dojjo.Prelude.{
  List, [], ◌∷◌, ◌++◌, Bool, true, false, not, ◌||◌, Option, none, some, Result, ok, panic,
  if◌then◌else◌, ◌>>=◌,
}
use dojjo.Prelude.Order.{◌==◌}
use dojjo.Prelude.Order.Sets.{set_of}
use dojjo.Prelude.Dict.{Dict, keys, lookup, put}
use dojjo.Prelude.Text.{Text, text, split, starts_with}
use dojjo.Prelude.Text.Search.{split_once, replace_first}
use dojjo.Mirror.Operation.{Bytes}
use dojjo.Client.Git.{GitError}

abbrev pub Refs : Type 0
Refs = Dict Text Text

-- `expect`
abbrev pub expect_text : Option Text → Result GitError Text
expect_text none = panic
expect_text (some t) = ok t

-- A line with a tab is given to `add`, in two parts; another is skipped.
abbrev pub add_parts : (Text → Text → Refs → Refs) → Option (Text × Text) → Refs → Refs
add_parts add none refs = refs
add_parts add (some (a, b)) refs = add a b refs

abbrev pub is_shared : Text → Bool
is_shared ref_name =
    starts_with (text "refs/heads/") ref_name
    || starts_with (text "refs/jj/") ref_name
    || starts_with (text "refs/tags/") ref_name

abbrev pub is_tracking : Text → Bool
is_tracking ref_name = starts_with (text "refs/remotes/dojjo/") ref_name

-- A line of `ls-remote`: the object comes first.
abbrev pub add_remote_ref : Text → Text → Refs → Refs
add_remote_ref oid ref_name refs = if is_shared ref_name then put ref_name oid refs else refs

-- A line of `for-each-ref`, in the first round over the lines and in the second.
abbrev pub add_local_ref : Text → Text → Refs → Refs
add_local_ref ref_name oid refs =
    if is_tracking ref_name
    then refs
    else if is_shared ref_name
    then put ref_name oid refs
    else refs

abbrev pub add_tracking_ref : Text → Text → Refs → Refs
add_tracking_ref ref_name oid refs = if is_tracking ref_name then put ref_name oid refs else refs

module _ (from_utf8 : Bytes → Option Text) where
  unfoldable pub add_line : (Text → Text → Refs → Refs) → Bytes → Refs → Result GitError Refs
  add_line add [] refs = ok refs
  add_line add (c ∷ line) refs = do
    line_text ← expect_text (from_utf8 (c ∷ line))
    ok (add_parts add (split_once (text "\t") line_text) refs)

  unfoldable pub add_lines : (Text → Text → Refs → Refs) → List Bytes → Refs → Result GitError Refs
  add_lines add [] refs = ok refs
  add_lines add (line ∷ lines) refs = do next ← add_line add line refs; add_lines add lines next

  -- `RemoteRefMap::parse_stdout`
  unfoldable pub parse_stdout : Bytes → Result GitError Refs
  parse_stdout stdout = add_lines add_remote_ref (split b'\n' stdout) []

  -- The maps of `git_local_ref_map`.
  unfoldable pub local_refs : Bytes → Result GitError Refs
  local_refs stdout = do
    push_refs ← add_lines add_local_ref (split b'\n' stdout) []
    add_lines add_tracking_ref (split b'\n' stdout) push_refs

abbrev pub or_tracking : Refs → Text → Option Text → Option Text
or_tracking push_refs ref_name (some oid) = some oid
or_tracking push_refs ref_name none =
    lookup (replace_first (text "refs/heads/") (text "refs/remotes/dojjo/") ref_name) push_refs

-- `LocalRefMap::fetch_ref`
unfoldable pub fetch_ref : Refs → Text → Option Text
fetch_ref push_refs ref_name = or_tracking push_refs ref_name (lookup ref_name push_refs)

abbrev pub differs_from : Text → Option Text → Bool
differs_from oid none = true
differs_from oid (some other) = not (other == oid)

-- The loops of `git_transport_need`: over the local refs, and over those of the remote.
unfoldable pub any_to_push : Refs → Refs → Bool
any_to_push remote [] = false
any_to_push remote ((ref_name, oid) ∷ refs) =
    differs_from oid (lookup ref_name remote) || any_to_push remote refs

unfoldable pub any_to_fetch : Refs → Refs → Bool
any_to_fetch push_refs [] = false
any_to_fetch push_refs ((ref_name, oid) ∷ refs) =
    differs_from oid (fetch_ref push_refs ref_name) || any_to_fetch push_refs refs

abbrev pub or_dash : Option Text → Text
or_dash none = text "-"
or_dash (some oid) = oid

abbrev pub local_oid : Refs → Text → Text
local_oid push_refs ref_name = or_dash (fetch_ref push_refs ref_name)

abbrev pub mismatch : Text → Text → Text → List (Text × Text × Text) → List (Text × Text × Text)
mismatch ref_name a b rest = if a == b then rest else (ref_name, a, b) ∷ rest

-- The loop of `git_ref_mismatch_lines`, over the names in their order.
unfoldable pub mismatches : Refs → Refs → List Text → List (Text × Text × Text)
mismatches push_refs remote [] = []
mismatches push_refs remote (ref_name ∷ names) =
    mismatch ref_name (local_oid push_refs ref_name) (or_dash (lookup ref_name remote))
      (mismatches push_refs remote names)

unfoldable pub ref_mismatches : Refs → Refs → List (Text × Text × Text)
ref_mismatches push_refs remote =
    mismatches push_refs remote (set_of (keys push_refs ++ keys remote))
