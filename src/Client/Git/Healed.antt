-- ===== src/Client/Git/Healed.antt =====
-- What a successful `git_fetch_dojjo` of client/src/git_sync.rs has done last.
use mathlib.Core.Path.{subst}
use dojjo.Prelude.{◌≡◌, refl, ap, ◌∙◌, Bool, true, false, not, ◌||◌, ok, ok-injective}
use dojjo.Prelude.Text.{Text}
use dojjo.Prelude.Action.{ensure, run_inv}
use dojjo.Client.Git.{
  Git, GitOutput, when, git_ok, git_output, fsck_args, fetch_failed, still_corrupt,
  ensure_dojjo_remote,
}
use dojjo.Client.Git.Fetch.{
  fetch_args, drop_objects, fetch_once, second_round, fetch_rounds, align_head_with_dojjo_remote,
  git_fetch_dojjo,
}

module _ {W : Type 0} (g : Git W) where
  -- A fetch that succeeded, from the state `before` to `after`, and a check of the store right after it
  -- that succeeded too and ended in `checked`.
  pub record IsFetched (checked : W) : Type 0 where
    pub refetch : Bool
    pub before : W
    pub after : W
    pub out : GitOutput
    pub post : GitOutput
    pub fetched : git_ok g (fetch_args refetch) fetch_failed before ≡ (ok out, after)
    pub fsck : git_output g fsck_args after ≡ (ok post, checked)
    pub sound : post.success ≡ true

  fetch_once-IsFetched :
      (again : Bool) (w w' : W) → fetch_once g again w ≡ (ok true, w') → IsFetched w'
  unfolding fetch_once
  fetch_once-IsFetched again w w' h =
      let (pre, _, h1) = run_inv (git_output g fsck_args) _ w h in
      let refetch = not pre.success || again in
      let (_, _, h2) = run_inv (when refetch (drop_objects g)) _ _ h1 in
      let before = (when refetch (drop_objects g) (git_output g fsck_args w).1).1 in
      let (out, fetched, h3) = run_inv (git_ok g (fetch_args refetch) fetch_failed) _ before h2 in
      let after = (git_ok g (fetch_args refetch) fetch_failed before).1 in
      let (post, checked, h4) = run_inv (git_output g fsck_args) _ after h3 in
      record {
        refetch = refetch;
        before = before;
        after = after;
        out = out;
        post = post;
        fetched = ap (λ r. (r, after)) fetched;
        fsck = λ i. (checked i, (h4 i).1);
        sound = ok-injective (ap (λ r. r.0) h4);
      }

  ensured : (b : Bool) (w w' : W) → ensure b still_corrupt w ≡ (ok tt, w') → (b ≡ true) × (w ≡ w')
  ensured true w w' h = (refl, ap (λ r. r.1) h)
  ensured false w w' h = let bad = ap (λ r. r.0) h in cc

  second_round-IsFetched :
      (sound : Bool) (w v w' : W)
      → fetch_once g false w ≡ (ok sound, v)
      → second_round g sound v ≡ (ok tt, w')
      → IsFetched w'
  unfolding second_round
  second_round-IsFetched true w v w' ran h =
      subst IsFetched (ap (λ r. r.1) h) (fetch_once-IsFetched false w v ran)
  second_round-IsFetched false w v w' ran h =
      let (again, ran_again, h1) = run_inv (fetch_once g true) _ v h in
      let after = (fetch_once g true v).1 in
      let (sound, same) = ensured again after w' h1 in
      subst IsFetched same
        (fetch_once-IsFetched true v after (ap (λ r. (r, after)) (ran_again ∙ ap ok sound)))

  fetch_rounds-IsFetched : (w w' : W) → fetch_rounds g w ≡ (ok tt, w') → IsFetched w'
  unfolding fetch_rounds
  fetch_rounds-IsFetched w w' h =
      let (sound, ran, h1) = run_inv (fetch_once g false) _ w h in
      second_round-IsFetched sound w _ w' (ap (λ r. (r, (fetch_once g false w).1)) ran) h1

  -- A successful `git_fetch_dojjo` has fetched, then found the store sound by `git fsck`, and then only
  -- aligned the checked-out branch.
  pub git_fetch_dojjo-IsFetched :
      (url : Text) (w w' : W)
      → git_fetch_dojjo g url w ≡ (ok tt, w')
      → (checked : W) × IsFetched checked × (align_head_with_dojjo_remote g checked ≡ (ok tt, w'))
  unfolding git_fetch_dojjo
  git_fetch_dojjo-IsFetched url w w' h =
      let (_, _, h1) = run_inv (ensure_dojjo_remote g url) _ w h in
      let remote = (ensure_dojjo_remote g url w).1 in
      let (_, fetched, h2) = run_inv (fetch_rounds g) _ remote h1 in
      let checked = (fetch_rounds g remote).1 in
      (checked, fetch_rounds-IsFetched remote checked (ap (λ r. (r, checked)) fetched), h2)
