-- ===== src/Client/Git/Need.antt =====
-- client/src/git_sync.rs: what has to be pushed or fetched, and the refs that differ.
use dojjo.Prelude.{[], ◌∷◌, Bool, true, false, not, List}
use dojjo.Prelude.Text.{Text, text}
use dojjo.Prelude.Action.{lift, return, gets, check, ◌>>=◌, ◌>>◌}
use dojjo.Client.Git.{
  Git, GitAction, git_root, git_ok, git_output, fsck_args, ls_remote_failed, for_each_ref_failed,
  assert_supported_git_remote_url, ensure_dojjo_remote,
}
use dojjo.Client.Git.Refs.{
  Refs, parse_stdout, local_refs, any_to_push, any_to_fetch, ref_mismatches,
}

pub record GitTransportNeed : Type 0 where
  pub push : Bool
  pub fetch : Bool

abbrev pub for_each_ref_args : List Text
for_each_ref_args =
    text "for-each-ref"
    ∷ text "refs/heads"
    ∷ text "refs/jj"
    ∷ text "refs/remotes/dojjo"
    ∷ text "refs/tags"
    ∷ text "--format=%(refname)\t%(objectname)"
    ∷ []

module _ {W : Type 0} (g : Git W) where
  unfoldable pub git_ls_remote_map : Text → GitAction W Refs
  git_ls_remote_map remote = do
    out ← git_ok g (text "ls-remote" ∷ text "--refs" ∷ remote ∷ []) ls_remote_failed
    lift (parse_stdout g.from_utf8 out.stdout)

  unfoldable pub git_local_ref_map : GitAction W Refs
  git_local_ref_map = do
    out ← git_ok g for_each_ref_args for_each_ref_failed
    lift (local_refs g.from_utf8 out.stdout)

  -- What both comparisons begin with: the refs of the remote and the local ones.
  unfoldable pub both_ref_maps : Text → GitAction W (Refs × Refs)
  both_ref_maps remote_url = do
    dir ← gets (g.is_dir git_root)
    check dir
    assert_supported_git_remote_url g remote_url
    ensure_dojjo_remote g remote_url
    remote ← git_ls_remote_map (text "dojjo")
    push_refs ← git_local_ref_map
    return (remote, push_refs)

  -- Refs that agree may still stand for objects that are broken.
  unfoldable pub fetch_needed : Bool → GitAction W Bool
  fetch_needed true = return true
  fetch_needed false = do fsck ← git_output g fsck_args; return (not fsck.success)

  unfoldable pub git_transport_need : Text → GitAction W GitTransportNeed
  git_transport_need remote_url = do
    (remote, push_refs) ← both_ref_maps remote_url
    need_fetch ← fetch_needed (any_to_fetch push_refs remote)
    return (record { push = any_to_push remote push_refs; fetch = need_fetch })

  unfoldable pub git_ref_mismatch_lines : Text → GitAction W (List (Text × Text × Text))
  git_ref_mismatch_lines remote_url = do
    (remote, push_refs) ← both_ref_maps remote_url
    return (ref_mismatches push_refs remote)
