-- ===== src/Server/Finalize/Moved.antt =====
-- What `finalize_into_mirror` leaves behind, from the rename on.
use dojjo.Prelude.{
  List, ◌≡◌, ◌≢◌, inl, inr, refl, false, none, some, Result, ok, err, nat_eq_iff, length,
  Bool-cases,
}
use dojjo.Prelude.Order.Sets.{update}
use dojjo.Prelude.Text.{Text, join}
use dojjo.Prelude.Text.Order.{text_order}
use dojjo.Tus.Types.{Bytes, UploadId}
use dojjo.Mirror.Path.{parse_safe_mirror_rel}
use dojjo.Mirror.Exclude.{
  jj_repo_rel_excluded_from_mirror, jj_repo_rel_excluded_from_git_file_mirror,
}
use dojjo.Server.Store.{PersistedMeta, Dojo, data_file, meta_file, remove_upload}
use dojjo.Server.Store.View.{view}
use dojjo.Server.Store.Create.{view_without_data}
use dojjo.Server.Store.Append.{eq_refl, eq_ne}
use dojjo.Server.Finalize.{
  FinalizeError, FinalizeFaults, io, jj_rel_path_metadata_key, move_data, remove_meta,
  move_into_mirror,
}

-- An upload that may be moved to `dest`.
pub record IsReady (id : UploadId) (s : Dojo) (dest : Text) (bytes : Bytes) : Type 0 where
  pub meta : PersistedMeta
  pub raw : Text
  pub rel : List Text
  pub has_meta : meta_file (s.uploads id) ≡ some meta
  pub has_data : data_file (s.uploads id) ≡ some bytes
  pub is_received : meta.declared ≡ some (length bytes)
  pub has_path : meta.metadata jj_rel_path_metadata_key ≡ some raw
  pub is_parsed : parse_safe_mirror_rel raw ≡ ok rel
  pub is_dest : join b'/' rel ≡ dest
  pub not_host_local : jj_repo_rel_excluded_from_mirror {E = FinalizeError} dest ≡ ok false
  pub not_git_store : jj_repo_rel_excluded_from_git_file_mirror {E = FinalizeError} dest ≡ ok false

-- The upload is gone, its bytes are the mirror's file, and nothing else has changed.
pub record IsMoved (id : UploadId) (dest : Text) (bytes : Bytes) (s s' : Dojo) : Type 0 where
  pub mirrored : s'.mirror ≡ update s.mirror dest bytes
  pub others : (j : UploadId) → j ≢ id → s'.uploads j ≡ s.uploads j
  pub gone : view s' id ≡ none

pub data FinalizeRun (id : UploadId) (s : Dojo)
    : Result FinalizeError (Unit {0}) × Dojo → Type 0 where
  refused : (r : Result FinalizeError (Unit {0})) → r ≢ ok tt → FinalizeRun id s (r, s)
  moved :
      (r : Result FinalizeError (Unit {0})) (s' : Dojo) (dest : Text) (bytes : Bytes)
      → IsReady id s dest bytes
      → IsMoved id dest bytes s s'
      → (r ≡ ok tt → s'.uploads id ≡ none)
      → FinalizeRun id s (r, s')

module _ (id : UploadId) (dest : Text) (bytes : Bytes) (s : Dojo) where
  after_rename : IsMoved id dest bytes s (move_data id dest bytes s)
  after_rename = record {
    mirrored = refl;
    others = λ j ne. rw (eq_ne id j ne) refl;
    gone = rw (eq_refl id) (view_without_data id (meta_file (s.uploads id)));
  }

  after_remove_meta : IsMoved id dest bytes s (remove_meta id (move_data id dest bytes s))
  after_remove_meta = record {
    mirrored = refl;
    others = λ j ne. rw (eq_ne id j ne) refl;
    gone = rw (eq_refl id) refl;
  }

  after_remove_dir :
      IsMoved id dest bytes s (remove_upload id (remove_meta id (move_data id dest bytes s)))
  after_remove_dir = record {
    mirrored = refl;
    others = λ j ne. rw (eq_ne id j ne) refl;
    gone = rw (eq_refl id) refl;
  }

  -- The dojo once the upload has been moved.
  abbrev pub moved_state : Dojo
  moved_state = remove_upload id (remove_meta id (move_data id dest bytes s))

  pub move_into_mirror_ok :
      (g : FinalizeFaults)
      → g.create_parent ≡ false
      → g.rename ≡ false
      → g.remove_file ≡ false
      → g.remove_dir ≡ false
      → g.stat_dest ≡ false
      → move_into_mirror g id dest bytes s ≡ (ok tt, moved_state)
  unfolding move_into_mirror
  move_into_mirror_ok g made renamed removed cleared there =
      rw
        (
          made,
          renamed,
          removed,
          cleared,
          there,
          eq_refl id,
          eq_refl dest,
          (nat_eq_iff (length bytes) (length bytes)).1 refl,
        )
        refl

  module _ (g : FinalizeFaults) (ready : IsReady id s dest bytes) where
    pub move_into_mirror-FinalizeRun : FinalizeRun id s (move_into_mirror g id dest bytes s)
    move_into_mirror-FinalizeRun = elim (Bool-cases g.create_parent) [
      | inl bad ↦
          let run : move_into_mirror g id dest bytes s ≡ (err io, s) =
            unfold move_into_mirror in rw bad refl in
          rw run (refused (err io) (λ h. cc))
      | inr made ↦ elim (Bool-cases g.rename) [
        | inl bad ↦
            let run : move_into_mirror g id dest bytes s ≡ (err io, s) =
              unfold move_into_mirror in rw (made, bad) refl in
            rw run (refused (err io) (λ h. cc))
        | inr renamed ↦ elim (Bool-cases g.remove_file) [
          | inl bad ↦
              let run : move_into_mirror g id dest bytes s ≡ (err io, move_data id dest bytes s) =
                unfold move_into_mirror in rw (made, renamed, bad) refl in
              rw run (moved (err io) _ dest bytes ready after_rename (λ h. cc))
          | inr removed ↦ elim (Bool-cases g.remove_dir) [
            | inl bad ↦
                let run : move_into_mirror g id dest bytes s
                    ≡ (err io, remove_meta id (move_data id dest bytes s)) =
                  unfold move_into_mirror in rw (made, renamed, removed, bad) refl in
                rw run (moved (err io) _ dest bytes ready after_remove_meta (λ h. cc))
            | inr cleared ↦ elim (Bool-cases g.stat_dest) [
              | inl bad ↦
                  let run : move_into_mirror g id dest bytes s ≡ (err io, moved_state) =
                    unfold move_into_mirror in
                    rw (made, renamed, removed, cleared, bad, eq_refl id) refl in
                  rw run (moved (err io) _ dest bytes ready after_remove_dir (λ h. cc))
              | inr there ↦
                  rw (move_into_mirror_ok g made renamed removed cleared there)
                    (moved (ok tt) _ dest bytes ready after_remove_dir (λ h. rw (eq_refl id) refl))
            ]
          ]
        ]
      ]
    ]
