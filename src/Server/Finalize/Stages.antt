-- ===== src/Server/Finalize/Stages.antt =====
-- The last two stages of `finalize_into_mirror`, as terms that its proofs are about.
use dojjo.Prelude.{List, not, nat_eq}
use dojjo.Prelude.Text.{Text, is_empty, join}
use dojjo.Prelude.Action.{Action, lift, check, ensure, ◌>>=◌, ◌>>◌}
use dojjo.Tus.Types.{UploadId}
use dojjo.Mirror.Exclude.{
  jj_repo_rel_excluded_from_mirror, jj_repo_rel_excluded_from_git_file_mirror,
}
use dojjo.Server.Store.{PersistedMeta, Dojo, Faults, data_file, data_len}
use dojjo.Server.Finalize.{
  git_store_path_rejected, workspace_store_path_rejected, length_mismatch, missing_declared_length,
  FinalizeError, FinalizeFaults, io, or_fail, from_store, move_into_mirror,
}

module _ (f : Faults) (g : FinalizeFaults) (id : UploadId) (m : PersistedMeta) where
  -- From the comparison of the lengths on.
  abbrev pub measure_and_move : Text → Action Dojo FinalizeError (Unit {0})
  measure_and_move dest = do
    actual_len ← from_store (data_len f id)
    expected ← lift (or_fail m.declared missing_declared_length)
    ensure (nat_eq actual_len expected) length_mismatch
    bytes ← λ s. (or_fail (data_file (s.uploads id)) io, s)
    move_into_mirror g id dest bytes

  -- From the accepted path on.
  abbrev pub place : List Text → Action Dojo FinalizeError (Unit {0})
  place rel = do
    check (not (is_empty (join b'/' rel)))
    host_local ← lift (jj_repo_rel_excluded_from_mirror (join b'/' rel))
    ensure (not host_local) workspace_store_path_rejected
    git_store ← lift (jj_repo_rel_excluded_from_git_file_mirror (join b'/' rel))
    ensure (not git_store) git_store_path_rejected
    measure_and_move (join b'/' rel)
