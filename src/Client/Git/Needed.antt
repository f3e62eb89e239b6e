-- ===== src/Client/Git/Needed.antt =====
-- What `git_transport_need` of client/src/git_sync.rs returns.
use dojjo.Prelude.Text.Order.{text_order}
use dojjo.Prelude.{
  [], ◌∷◌, ◌≡◌, refl, sym, ap, ◌∙◌, inl, inr, arith, Bool, true, false, some, ok, Bool-cases,
  ok-injective,
}
use dojjo.Prelude.Dict.{lookup}
use dojjo.Prelude.Text.{Text, text}
use dojjo.Prelude.Action.{check, run_inv}
use dojjo.Client.Git.{
  Git, GitOutput, git_root, git_ok, git_output, fsck_args, ls_remote_failed,
  assert_supported_git_remote_url, ensure_dojjo_remote,
}
use dojjo.Client.Git.Refs.{Refs, is_shared, is_tracking, fetch_ref, any_to_push, any_to_fetch}
use dojjo.Client.Git.Need.{
  GitTransportNeed, git_ls_remote_map, git_local_ref_map, both_ref_maps, fetch_needed,
  git_transport_need,
}
use dojjo.Client.Git.Agree.{any_differs-eq-false, push-any_differs, fetch-any_differs}
use dojjo.Client.Git.Parsed.{IsShared, parse_stdout-IsShared, tracking-not-shared}

not_tracking : (r : Text) → is_shared r ≡ true → is_tracking r ≡ false
not_tracking r shared = elim (Bool-cases (is_tracking r)) [
  | inl tracking ↦ let bad = sym shared ∙ tracking-not-shared r tracking in cc
  | inr other ↦ other
]

module _ {W : Type 0} (g : Git W) where
  ls_remote-IsShared :
      (name : Text) (w : W) (remote : Refs)
      → (git_ls_remote_map g name w).0 ≡ ok remote
      → IsShared remote
  unfolding git_ls_remote_map
  ls_remote-IsShared name w remote h =
      let (out, _, parsed) =
        run_inv (git_ok g (text "ls-remote" ∷ text "--refs" ∷ name ∷ []) ls_remote_failed) _ w
          (ap (λ r. (r, (git_ls_remote_map g name w).1)) h) in
      parse_stdout-IsShared g.from_utf8 out.stdout remote (ap (λ r. r.0) parsed)

  both_ref_maps-IsShared :
      (url : Text) (w w' : W) (remote push_refs : Refs)
      → both_ref_maps g url w ≡ (ok (remote, push_refs), w')
      → IsShared remote
  unfolding both_ref_maps
  both_ref_maps-IsShared url w w' remote push_refs h =
      let (_, _, h1) = run_inv (check (g.is_dir git_root w)) _ w h in
      let (_, _, h2) = run_inv (assert_supported_git_remote_url g url) _ _ h1 in
      let (_, _, h3) = run_inv (ensure_dojjo_remote g url) _ _ h2 in
      let (seen, read, h4) = run_inv (git_ls_remote_map g (text "dojjo")) _ _ h3 in
      let (mine, _, h5) = run_inv (git_local_ref_map g) _ _ h4 in
      let same : seen ≡ remote = ap (λ r. r.0) (ok-injective (ap (λ r. r.0) h5)) in
      ls_remote-IsShared (text "dojjo") _ remote (read ∙ ap ok same)

  -- What the flags say of the refs that were read, in the state `mid` in which the local ones were.
  pub record IsNeed (url : Text) (w : W) (need : GitTransportNeed) : Type 0 where
    pub remote : Refs
    pub push_refs : Refs
    pub mid : W
    pub read : both_ref_maps g url w ≡ (ok (remote, push_refs), mid)
    pub all_pushed :
        need.push ≡ false
        → (r oid : Text) → lookup r push_refs ≡ some oid
        → (lookup r remote ≡ some oid) × (is_tracking r ≡ false)
    pub all_fetched :
        need.fetch ≡ false
        → (r oid : Text) → lookup r remote ≡ some oid
        → fetch_ref push_refs r ≡ some oid
    pub healthy :
        need.fetch ≡ false
        → (out : GitOutput) × ((git_output g fsck_args mid).0 ≡ ok out) × (out.success ≡ true)

  fetch_needed_inv :
      (b : Bool) (w w' : W)
      → fetch_needed g b w ≡ (ok false, w')
      → (b ≡ false)
        × ((out : GitOutput) × ((git_output g fsck_args w).0 ≡ ok out) × (out.success ≡ true))
  unfolding fetch_needed
  fetch_needed_inv true w w' h = let bad = ok-injective (ap (λ r. r.0) h) in absurd (cc)
  fetch_needed_inv false w w' h =
      let (out, ran, h1) = run_inv (git_output g fsck_args) _ w h in
      let fails = ok-injective (ap (λ r. r.0) h1) in (refl, (out, ran, ground (arith, fails)))

  -- If no push is reported, every local ref is on the remote with the same object, and none of them is a
  -- remote-tracking ref. If no fetch is reported, every ref of the remote is known locally, by its name
  -- or as a tracking ref, with the same object, and `git fsck` has succeeded.
  pub git_transport_need-IsNeed :
      (url : Text) (w w' : W) (need : GitTransportNeed)
      → git_transport_need g url w ≡ (ok need, w')
      → IsNeed url w need
  unfolding git_transport_need
  git_transport_need-IsNeed url w w' need h =
      let ((remote, push_refs), read, h1) = run_inv (both_ref_maps g url) _ w h in
      let mid = (both_ref_maps g url w).1 in
      let (fetch, asked, h2) = run_inv (fetch_needed g (any_to_fetch push_refs remote)) _ mid h1 in
      let whole : both_ref_maps g url w ≡ (ok (remote, push_refs), mid) = ap (λ r. (r, mid)) read in
      let is = ok-injective (ap (λ r. r.0) h2) in
      let push_is : any_to_push remote push_refs ≡ need.push = ap (λ n. n.push) is in
      let fetch_is : fetch ≡ need.fetch = ap (λ n. n.fetch) is in
      let shared = both_ref_maps-IsShared url w mid remote push_refs whole in
      let after = (fetch_needed g (any_to_fetch push_refs remote) mid).1 in
      let quiet = λ (q : need.fetch ≡ false).
        fetch_needed_inv (any_to_fetch push_refs remote) mid after
          (ap (λ r. (r, after)) (asked ∙ ap ok (fetch_is ∙ q))) in
      record {
        remote = remote;
        push_refs = push_refs;
        mid = mid;
        read = whole;
        all_pushed = λ q r oid here.
            let there =
              any_differs-eq-false (λ n. lookup n remote) push_refs r oid
                (sym (push-any_differs remote push_refs) ∙ push_is ∙ q) here in
            (there, not_tracking r (shared r oid there));
        all_fetched = λ q r oid.
            any_differs-eq-false (fetch_ref push_refs) remote r oid
              (sym (fetch-any_differs push_refs remote) ∙ (quiet q).0);
        healthy = λ q. (quiet q).1;
      }
