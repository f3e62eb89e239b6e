-- ===== src/Client/Git/Fetch.antt =====
-- `git_fetch_dojjo` of client/src/git_sync.rs: a fetch that is repeated once with everything dropped, if
-- the store is still broken after it.
use dojjo.Prelude.{List, [], ◌∷◌, ◌++◌, Bool, true, false, not, ◌||◌, if◌then◌else◌}
use dojjo.Prelude.Text.{Text, text}
use dojjo.Prelude.Action.{return, gets, check, ensure, ◌>>=◌, ◌>>◌}
use dojjo.Client.Git.{
  Git, GitAction, git_root, worked, when, git_ok, git_output, fsck_args, fetch_failed,
  remove_failed, still_corrupt, ensure_dojjo_remote,
}

abbrev pub fetch_refspecs : List Text
fetch_refspecs =
    text "+refs/heads/*:refs/remotes/dojjo/*"
    ∷ text "+refs/tags/*:refs/tags/*"
    ∷ text "+refs/jj/*:refs/jj/*"
    ∷ []

abbrev pub fetch_args : Bool → List Text
fetch_args refetch =
    text "fetch"
    ∷ text "--prune"
    ∷ text "--no-progress"
    ∷ (if refetch
        then text "--refetch" ∷ text "dojjo" ∷ fetch_refspecs
        else text "dojjo" ∷ fetch_refspecs)

module _ {W : Type 0} (g : Git W) where
  unfoldable pub drop_objects : GitAction W (Unit {0})
  drop_objects = do
    objects ← gets (g.exists (text "objects"))
    when objects (λ w. worked remove_failed (g.remove_dir_all (text "objects") w))
    refs ← gets (g.exists (text "refs"))
    when refs (λ w. worked remove_failed (g.remove_dir_all (text "refs") w))
    packed ← gets (g.exists (text "packed-refs"))
    when packed (λ w. worked remove_failed (g.remove_file (text "packed-refs") w))

  -- One round, up to the `fsck` behind the fetch: whether the store is sound then.
  unfoldable pub fetch_once : Bool → GitAction W Bool
  fetch_once again = do
    pre_fsck ← git_output g fsck_args
    when (not pre_fsck.success || again) drop_objects
    out ← git_ok g (fetch_args (not pre_fsck.success || again)) fetch_failed
    post_fsck ← git_output g fsck_args
    return post_fsck.success

  -- The branch that is checked out, if the remote has it.
  unfoldable pub checkout_branch : Text → GitAction W Bool
  checkout_branch branch = do
    probe ←
        git_output g
          (text "show-ref" ∷ text "--verify" ∷ (text "refs/remotes/dojjo/" ++ branch) ∷ [])
    elim probe.success [
      | false ↦ return false
      | true ↦ do
        co ← git_output g (text "checkout" ∷ text "-B" ∷ branch ∷ (text "dojjo/" ++ branch) ∷ [])
        return co.success
    ]

  unfoldable pub align_head_with_dojjo_remote : GitAction W (Unit {0})
  align_head_with_dojjo_remote = do
    dir ← gets (g.is_dir git_root)
    check dir
    main ← checkout_branch (text "main")
    elim main [ true ↦ return tt | false ↦ do master ← checkout_branch (text "master"); return tt ]

  -- The second attempt, unless the store is sound after the first.
  unfoldable pub second_round : Bool → GitAction W (Unit {0})
  second_round true = return tt
  second_round false = do again ← fetch_once true; ensure again still_corrupt

  -- The loop over the two attempts.
  unfoldable pub fetch_rounds : GitAction W (Unit {0})
  fetch_rounds = do sound ← fetch_once false; second_round sound

  unfoldable pub git_fetch_dojjo : Text → GitAction W (Unit {0})
  git_fetch_dojjo remote_url = do
    ensure_dojjo_remote g remote_url
    fetch_rounds
    align_head_with_dojjo_remote
