-- ===== src/Mirror/Exclude/Paths.antt =====
-- The exclusion tests on a path that `parse_safe_mirror_rel` accepts.
use dojjo.Prelude.{List, [], ◌∷◌, ◌≡◌, ◌≢◌, ◌↔◌, Bool, true, arith, ok}
use dojjo.Prelude.Text.{Text, text, join}
use dojjo.Mirror.Path.{parse_safe_mirror_rel}
use dojjo.Mirror.Path.Laws.{parse_safe_iff}
use dojjo.Mirror.Path.Segments.{IsRelText, safe-IsRelText}
use dojjo.Mirror.Exclude.{
  is_host_local, jj_repo_rel_excluded_from_mirror, is_git_store,
  jj_repo_rel_excluded_from_git_file_mirror,
}
use dojjo.Mirror.Exclude.Segments.{IsHostLocal, is_host_local_iff, is_git_store_iff}

module _ (E : Type 0) (rel : Text) (segs : List Text)
    (parsed : parse_safe_mirror_rel rel ≡ ok segs) where
  rel_text : IsRelText segs
  rel_text = let m = (parse_safe_iff rel segs).0 parsed in safe-IsRelText segs m.some_segment m.safe

  no_nil : segs ≢ []
  no_nil = ((parse_safe_iff rel segs).0 parsed).some_segment

  host_test :
      jj_repo_rel_excluded_from_mirror {E = E} (join b'/' segs)
      ≡ ok (is_host_local (join b'/' segs))
  unfolding jj_repo_rel_excluded_from_mirror
  host_test = let t = rel_text in ground (arith, t.not_empty, t.not_rooted, t.no_backslash)

  git_test :
      jj_repo_rel_excluded_from_git_file_mirror {E = E} (join b'/' segs)
      ≡ ok (is_git_store (join b'/' segs))
  unfolding jj_repo_rel_excluded_from_git_file_mirror
  git_test = let t = rel_text in ground (arith, t.not_empty, t.not_rooted, t.no_backslash)

  -- On an accepted path neither test panics: the first says whether the path is local to one
  -- machine, the second whether it is `store/git` or lies below it.
  pub excluded_iff :
      ((b : Bool) × (jj_repo_rel_excluded_from_mirror {E = E} (join b'/' segs) ≡ ok b)
        × ((b ≡ true) ↔ IsHostLocal segs))
      × ((b : Bool) × (jj_repo_rel_excluded_from_git_file_mirror {E = E} (join b'/' segs) ≡ ok b)
          × ((b ≡ true) ↔ ((r : List Text) × (segs ≡ text "store" ∷ text "git" ∷ r))))
  excluded_iff =
      let slashes = rel_text.no_slashes in
      (
        (is_host_local (join b'/' segs), host_test, is_host_local_iff segs no_nil slashes),
        (is_git_store (join b'/' segs), git_test, is_git_store_iff segs no_nil slashes),
      )
