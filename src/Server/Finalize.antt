-- ===== src/Server/Finalize.antt =====
-- `finalize_into_mirror` of sync-server/src/dojo_tus_store.rs: a received upload becomes a file of the
-- mirror. `FinalizeFaults` says which of its own calls of the file system fail, for whatever reason.
pub mod Stages
pub mod Moved
pub mod Moves
pub mod Calm
pub mod Panics
pub mod Download
mod Tests
use dojjo.Prelude.{
  [], Bool, true, false, not, Option, none, some, Result, ok, err, panic, nat_eq, length,
  if◌then◌else◌, is_some,
}
use dojjo.Prelude.Order.{◌==◌}
use dojjo.Prelude.Order.Sets.{Map, update}
use dojjo.Prelude.Text.{Text, text, is_empty, join}
use dojjo.Prelude.Text.Order.{text_order}
use dojjo.Prelude.Action.{Action, lift, check, ensure, modify, ◌>>=◌, ◌>>◌}
use dojjo.Tus.Types.{Bytes, UploadId, StoreError, not_found, other}
use dojjo.Mirror.Path.{PathError, parse_safe_mirror_rel}
use dojjo.Mirror.Exclude.{
  jj_repo_rel_excluded_from_mirror, jj_repo_rel_excluded_from_git_file_mirror,
}
use dojjo.Server.Store.{
  UploadDir, Dojo, Faults, data_file, raw_meta, put_dir, remove_upload, read_meta, data_len,
}

pub data FinalizeError : Type 0 where
  git_store_path_rejected workspace_store_path_rejected missing_jj_rel_path length_mismatch
        missing_declared_length upload_not_found io :
      FinalizeError
  invalid_jj_rel_path : PathError → FinalizeError

pub record FinalizeFaults : Type 0 where
  pub create_parent : Bool
  pub rename : Bool
  pub remove_file : Bool
  pub remove_dir : Bool
  pub stat_dest : Bool

abbrev pub no_finalize_faults : FinalizeFaults
no_finalize_faults = record {
  create_parent = false;
  rename = false;
  remove_file = false;
  remove_dir = false;
  stat_dest = false;
}

abbrev pub jj_rel_path_metadata_key : Text
jj_rel_path_metadata_key = text "jj_rel_path"

abbrev pub or_fail {ℓ} : {A : Type ℓ} → Option A → FinalizeError → Result FinalizeError A
or_fail none e = err e
or_fail (some a) e = ok a

abbrev pub map_path_error {ℓ} : {A : Type ℓ} → Result PathError A → Result FinalizeError A
map_path_error (ok a) = ok a
map_path_error (err e) = err (invalid_jj_rel_path e)
map_path_error panic = panic

abbrev pub map_store_error {ℓ} : {A : Type ℓ} → Result StoreError A → Result FinalizeError A
map_store_error (ok a) = ok a
map_store_error (err not_found) = err upload_not_found
map_store_error (err other) = err io
map_store_error panic = panic

abbrev pub from_store {ℓ} : {A : Type ℓ} → Action Dojo StoreError A → Action Dojo FinalizeError A
from_store m s = (map_store_error (m s).0, (m s).1)

abbrev pub io_call : Bool → Action Dojo FinalizeError (Unit {0})
io_call fault = ensure (not fault) io

-- `fs::rename` of the data file to its place in the mirror.
abbrev pub move_data : UploadId → Text → Bytes → Dojo → Dojo
move_data id dest bytes s = record s {
  uploads = update s.uploads id (record { meta = raw_meta (s.uploads id); received = none });
  mirror = update s.mirror dest bytes;
}

abbrev pub remove_meta : UploadId → Dojo → Dojo
remove_meta id s = put_dir id (record { meta = none; received = data_file (s.uploads id) }) s

module _ (g : FinalizeFaults) where
  -- `finalize_into_mirror` from the making of the destination's parent.
  unfoldable pub move_into_mirror : UploadId → Text → Bytes → Action Dojo FinalizeError (Unit {0})
  move_into_mirror id dest bytes = do
    io_call g.create_parent
    io_call g.rename
    modify (move_data id dest bytes)
    io_call g.remove_file
    modify (remove_meta id)
    io_call g.remove_dir
    modify (remove_upload id)
    λ s. check (not (is_some (s.uploads id))) s
    io_call g.stat_dest
    on_disk ← λ s. (or_fail (s.mirror dest) io, s)
    check (nat_eq (length on_disk) (length bytes))

module _ (f : Faults) (g : FinalizeFaults) where
  unfoldable pub finalize_into_mirror : UploadId → Action Dojo FinalizeError (Unit {0})
  finalize_into_mirror id = do
    check (not (is_empty id))
    meta ← from_store (read_meta f id)
    check (meta.id == id)
    rel_raw ← lift (or_fail (meta.metadata jj_rel_path_metadata_key) missing_jj_rel_path)
    check (not (is_empty rel_raw))
    rel ← lift (map_path_error (parse_safe_mirror_rel rel_raw))
    check (not (is_empty (join b'/' rel)))
    host_local ← lift (jj_repo_rel_excluded_from_mirror (join b'/' rel))
    ensure (not host_local) workspace_store_path_rejected
    git_store ← lift (jj_repo_rel_excluded_from_git_file_mirror (join b'/' rel))
    ensure (not git_store) git_store_path_rejected
    actual_len ← from_store (data_len f id)
    expected ← lift (or_fail meta.declared missing_declared_length)
    ensure (nat_eq actual_len expected) length_mismatch
    bytes ← λ s. (or_fail (data_file (s.uploads id)) io, s)
    move_into_mirror g id (join b'/' rel) bytes
