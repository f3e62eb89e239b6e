-- ===== src/Client/Git/Tests.antt =====
-- A store that git finds broken until two fetches have run, and refs of both sides.
use dojjo.Prelude.Text.Order.{text_order, text_eq, text_eq_iff}
use dojjo.Prelude.{
  ℕ, ◌+◌, List, [], ◌∷◌, ◌≡◌, ◌↔◌, refl, arith, Bool, true, false, Option, none, some, ok, leb,
  if◌then◌else◌,
}
use dojjo.Prelude.Order.{◌==◌}
use dojjo.Prelude.Dict.{lookup, put}
use dojjo.Prelude.Text.{Text, text, split, trim, has_char, has_dots}
use dojjo.Prelude.Text.Search.{split_once, has_text, ends_with}
use dojjo.Mirror.Operation.{Bytes}
use dojjo.Client.Git.{
  Git, GitOutput, init_bare, ensure_git_dir_layout, git_output, assert_supported_git_remote_url,
  update_remote, add_remote, ensure_dojjo_remote,
}
use dojjo.Client.Git.Refs.{
  Refs, add_line, add_lines, parse_stdout, local_refs, fetch_ref, any_to_push, any_to_fetch,
  ref_mismatches,
}
use dojjo.Client.Git.Need.{
  GitTransportNeed, git_ls_remote_map, git_local_ref_map, both_ref_maps, fetch_needed,
  git_transport_need,
}
use dojjo.Client.Git.Needed.{IsNeed, git_transport_need-IsNeed}
use dojjo.Client.Git.Mismatch.{NoDash, mismatches-nil_iff}
use dojjo.Client.Git.Fetch.{
  drop_objects, fetch_once, checkout_branch, align_head_with_dojjo_remote, second_round,
  fetch_rounds, git_fetch_dojjo,
}
use dojjo.Server.DojoId.{assert_safe_dojo_external_id}
use dojjo.Server.GitRemote.{PublicUrl, parse_public_url, git_remote_url}
use dojjo.Client.Git.Supported.{supported_iff}
use dojjo.Client.Git.Healed.{IsFetched, git_fetch_dojjo-IsFetched}

abbrev url : Text
url = text "http://h/git/d.git"

abbrev remote_out : Bytes
remote_out = text "a1\trefs/heads/main\n"

abbrev local_out : Bytes
local_out = text "refs/heads/main\ta1\nrefs/remotes/dojjo/main\ta1\n"

abbrev said : Bool → Bytes → ℕ → Option GitOutput × ℕ
said success stdout w = (some (record { code = some 0; success = success; stdout = stdout }), w)

abbrev run_command : Text → ℕ → Option GitOutput × ℕ
run_command c w =
    if c == text "fetch"
    then said true [] (w + 1)
    else if c == text "fsck"
    then said (leb 2 w) [] w
    else if c == text "ls-remote"
    then said true remote_out w
    else if c == text "for-each-ref"
    then said true local_out w
    else said true url w

abbrev run_args : List Text → ℕ → Option GitOutput × ℕ
run_args [] w = (none, w)
run_args (c ∷ args) w = run_command c w

-- The state is the number of fetches.
abbrev counting_git : Git ℕ
counting_git = record {
  run = run_args;
  init = λ w. (some true, w);
  is_file = λ path w. true;
  is_dir = λ path w. true;
  exists = λ path w. true;
  create_dir_all = λ path w. (true, w);
  remove_dir_all = λ path w. (true, w);
  remove_file = λ path w. (true, w);
  utf8 = true;
  from_utf8 = λ b. some b;
  lossy = λ b. b;
}

abbrev only_push : GitTransportNeed
only_push = record { push = true; fetch = false }

-- The remote-tracking ref makes a push needed, though nothing differs.
need_run : git_transport_need counting_git url 2 ≡ (ok only_push, 2)
unfolding git_transport_need both_ref_maps fetch_needed git_ls_remote_map git_local_ref_map
    ensure_dojjo_remote update_remote add_remote assert_supported_git_remote_url git_output
    ensure_git_dir_layout init_bare parse_stdout local_refs add_lines add_line any_to_push
    any_to_fetch fetch_ref split_once split trim put lookup text_eq
need_run = refl

git_transport_need-IsNeed_example : IsNeed counting_git url 2 only_push
git_transport_need-IsNeed_example =
    git_transport_need-IsNeed counting_git url 2 2 only_push need_run

fetch_run : git_fetch_dojjo counting_git url 0 ≡ (ok tt, 2)
unfolding git_fetch_dojjo fetch_rounds second_round fetch_once drop_objects
    align_head_with_dojjo_remote checkout_branch ensure_dojjo_remote update_remote add_remote
    assert_supported_git_remote_url git_output ensure_git_dir_layout init_bare trim text_eq
fetch_run = refl

git_fetch_dojjo-IsFetched_example :
    (checked : ℕ) × IsFetched counting_git checked
    × (align_head_with_dojjo_remote counting_git checked ≡ (ok tt, 2))
git_fetch_dojjo-IsFetched_example = git_fetch_dojjo-IsFetched counting_git url 0 2 fetch_run

abbrev remote_refs : Refs
remote_refs = (text "refs/heads/main", text "a1") ∷ []

abbrev push_refs : Refs
push_refs = (text "refs/heads/main", text "a1") ∷ (text "refs/remotes/dojjo/main", text "a1") ∷ []

abbrev plain_utf8 : Bytes → Option Text
plain_utf8 b = some b

remote_run : parse_stdout plain_utf8 remote_out ≡ ok remote_refs
unfolding parse_stdout add_lines add_line split_once split put text_eq
remote_run = refl

local_run : local_refs plain_utf8 local_out ≡ ok push_refs
unfolding local_refs add_lines add_line split_once split put text_eq
local_run = refl

remote_NoDash : NoDash remote_refs
unfolding lookup
remote_NoDash r oid found dash = ground (arith, found, dash, text_eq_iff (text "refs/heads/main") r)

push_NoDash : NoDash push_refs
unfolding lookup
push_NoDash r oid found dash = ground (
  arith,
  found,
  dash,
  text_eq_iff (text "refs/heads/main") r,
  text_eq_iff (text "refs/remotes/dojjo/main") r,
)

mismatches-nil_iff_example :
    (ref_mismatches push_refs remote_refs ≡ [])
    ↔ ((any_to_push remote_refs push_refs ≡ false) × (any_to_fetch push_refs remote_refs ≡ false))
mismatches-nil_iff_example =
    mismatches-nil_iff plain_utf8 remote_out local_out remote_refs push_refs remote_run local_run
      remote_NoDash push_NoDash

abbrev public : PublicUrl
public = record { base = text "http://h" }

public_run : parse_public_url (text "http://h ") ≡ ok public
unfolding parse_public_url trim has_text ends_with text_eq
public_run = refl

printed_run : git_remote_url public (text "d") ≡ ok url
unfolding git_remote_url assert_safe_dojo_external_id has_dots has_text ends_with text_eq
printed_run = refl

supported_iff_example :
    (assert_supported_git_remote_url counting_git url 0 ≡ (ok tt, 0))
    ↔ ((has_char b'@' (text "http://h") ≡ false) × (has_char b'@' (text "d") ≡ false))
supported_iff_example =
    supported_iff counting_git 0 (text "http://h ") (text "d") url public public_run printed_run
