-- ===== src/Server/MirrorGet.antt =====
-- `get_mirror_object` of sync-server/src/mirror_get.rs, once the dojo has been found. What
-- `fs::metadata` and `fs::read` return for a path below `mirror/` is a parameter.
pub mod Outcomes
mod Tests
use Prim.Native.Nat.{ℕ}
use dojjo.Prelude.{
  List, [], ◌⊎◌, inl, inr, Bool, true, false, not, Result, ok, err, panic, ◌*◌, leb, nat_eq, length,
  assert, guard, ◌>>=◌, ◌>>◌,
}
use dojjo.Prelude.Text.{Text, is_empty, join}
use dojjo.Tus.Types.{Bytes}
use dojjo.Mirror.Path.{PathError, parse_safe_mirror_rel}
use dojjo.Mirror.Exclude.{
  jj_repo_rel_excluded_from_mirror, jj_repo_rel_excluded_from_git_file_mirror,
}

pub data AppError : Type 0 where
  bad_request not_found internal : AppError

-- `ErrorKind::NotFound`, or another kind.
pub data ReadError : Type 0 where
  no_such_file other_kind : ReadError

pub record FileMetadata : Type 0 where
  pub is_file : Bool
  pub len : ℕ

pub record MirrorDisk : Type 0 where
  pub metadata : Text → ReadError ⊎ FileMetadata
  pub read : Text → ReadError ⊎ Bytes

abbrev pub max_mirror_blob_bytes : ℕ
max_mirror_blob_bytes = 64 * 1024 * 1024

abbrev pub map_read_error {ℓ} : {A : Type ℓ} → ReadError ⊎ A → Result AppError A
map_read_error (inl no_such_file) = err not_found
map_read_error (inl other_kind) = err internal
map_read_error (inr a) = ok a

abbrev pub or_bad_request {ℓ} : {A : Type ℓ} → Result PathError A → Result AppError A
or_bad_request (ok a) = ok a
or_bad_request (err e) = err bad_request
or_bad_request panic = panic

module _ (disk : MirrorDisk) where
  -- The file of a path that has been accepted.
  unfoldable pub read_mirror_file : Text → Result AppError Bytes
  read_mirror_file rel_slash = do
    meta ← map_read_error (disk.metadata rel_slash)
    assert meta.is_file
    guard (leb meta.len max_mirror_blob_bytes) bad_request
    bytes ← map_read_error (disk.read rel_slash)
    assert (nat_eq (length bytes) meta.len)
    ok bytes

  unfoldable pub get_mirror_object : Text → Result AppError Bytes
  get_mirror_object jj_path = do
    rel ← or_bad_request (parse_safe_mirror_rel jj_path)
    assert (not (is_empty (join b'/' rel)))
    host_local ← jj_repo_rel_excluded_from_mirror (join b'/' rel)
    guard (not host_local) bad_request
    git_store ← jj_repo_rel_excluded_from_git_file_mirror (join b'/' rel)
    guard (not git_store) bad_request
    read_mirror_file (join b'/' rel)
