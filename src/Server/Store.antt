-- ===== src/Server/Store.antt =====
-- sync-server/src/dojo_tus_store.rs: uploads as directories of one dojo, and their move into the
-- mirror. `Faults` says which calls of the file system fail during one request; a failing call
-- changes nothing, but a failing write leaves a part of what was to be written, or an empty file, and
-- a failing removal of a directory may have removed files of it. An identifier is taken for the name
-- of its directory, which it is if it is one plain component of a path (`IsPlain`), as those of
-- `Uuid::new_v4` are; the code joins any other to the path of `tus_work`, which can lead elsewhere.
pub mod View
pub mod Append
pub mod Frame
pub mod Contract
pub mod Create
pub mod Reachable
use Prim.Native.Nat.{ℕ, zero, suc}
use mathlib.Core.Option
use dojjo.Prelude.{
  List, [], ◌∷◌, ◌≡◌, ◌≢◌, ◌++◌, ◌+◌, ◌*◌, ◌/◌, Bool, true, false, not, ◌&&◌, ◌||◌, Option, none,
  some, Result, ok, err, panic, ltb, leb, nat_eq, length, if◌then◌else◌, is_some,
}
use dojjo.Prelude.Order.{◌==◌}
use dojjo.Prelude.Order.Sets.{Map, update}
use dojjo.Prelude.Text.{Text, text, is_empty, has_char}
use dojjo.Prelude.Text.Order.{text_order}
use dojjo.Prelude.Action.{Action, lift, return, fail, check, ensure, modify, ◌>>=◌, ◌>>◌}
use dojjo.Tus.Types.{
  Bytes, UploadId, Metadata, UploadInfo, CreateInfo, StoreError, not_found, other, u64_mod,
}
use dojjo.Tus.Store.{UploadStore}
use dojjo.Tus.Handler.{fits}

-- meta.json
pub record PersistedMeta : Type 0 where
  pub id : Text
  pub declared : Option ℕ
  pub metadata : Metadata
  pub expires_at_unix_secs : Option ℕ

-- What the file `meta.json` holds: nothing, the beginning of a value or what else serde does not
-- parse, or a whole value.
pub data MetaFile : Type 0 where
  blank corrupt : MetaFile
  holds : PersistedMeta → MetaFile

-- `tus_work/{upload_id}/`, with the files `meta.json` and `data`.
pub record UploadDir : Type 0 where
  pub meta : Option MetaFile
  pub received : Option Bytes

-- An identifier that is one plain component of a path: it is the name of its directory.
pub record IsPlain (id : UploadId) : Type 0 where
  pub some_char : id ≢ []
  pub no_slash : has_char b'/' id ≡ false
  pub no_nul : has_char 0 id ≡ false
  pub not_dot : id ≢ text "."
  pub not_dot_dot : id ≢ text ".."

-- `{data_dir}/{dojo_id}/`: the directories below `tus_work/` by their names, and the files below
-- `mirror/` by their slash-separated paths.
pub record Dojo : Type 0 where
  pub uploads : Map UploadId UploadDir
  pub mirror : Map Text Bytes

-- How `fs::write` ends: it makes or empties the file before it writes.
pub data WriteEnd : Type 0 where
  written not_made left_empty left_partial : WriteEnd

pub record Faults : Type 0 where
  pub create_work_dir : Bool
  pub create_dir : Bool
  pub write_meta : WriteEnd
  pub write_data : Bool
  pub read_meta : Bool
  pub stat_data : Bool
  pub open_data : Bool
  -- The bytes that a failing write of a chunk has written, whether it or the flush reports it.
  pub write_all : Option ℕ
  pub flush : Bool
  -- Whether a failing `remove_dir_all` has left `meta.json` and `data`.
  pub remove_dir_all : Option (Bool × Bool)

abbrev pub nanos : ℕ
nanos = 1_000_000_000

-- `PersistedMeta::expires_at`
abbrev pub expires_at : PersistedMeta → Option ℕ
expires_at m = Option.map (λ secs. secs * nanos) m.expires_at_unix_secs

-- The `meta.json` of a new upload.
abbrev pub persisted : UploadId → CreateInfo → PersistedMeta
persisted id info = record {
  id = id;
  declared = info.declared;
  metadata = info.metadata;
  expires_at_unix_secs = Option.map (λ t. t / nanos) info.expires_at;
}

abbrev pub take {ℓ} : {A : Type ℓ} → ℕ → List A → List A
take zero xs = []
take (suc n) [] = []
take (suc n) (x ∷ xs) = x ∷ take n xs

-- A call of the file system that fails if the fault is set.
abbrev pub disk : Bool → Action Dojo StoreError (Unit {0})
disk fault = ensure (not fault) other

abbrev pub put_dir : UploadId → UploadDir → Dojo → Dojo
put_dir id d s = record s { uploads = update s.uploads id d }

abbrev pub leave_dir : UploadId → Option UploadDir → Dojo → Dojo
leave_dir id o s = record s { uploads = λ j. if id == j then o else s.uploads j }

abbrev pub remove_upload : UploadId → Dojo → Dojo
remove_upload id s = leave_dir id none s

abbrev pub or_not_found {ℓ} : {A : Type ℓ} → Option A → Result StoreError A
or_not_found none = err not_found
or_not_found (some a) = ok a

-- The file `meta.json`, the value in it, and the file `data`, of a directory that may be missing.
abbrev pub raw_meta : Option UploadDir → Option MetaFile
raw_meta none = none
raw_meta (some d) = d.meta

abbrev pub value_of : Option MetaFile → Option PersistedMeta
value_of none = none
value_of (some blank) = none
value_of (some corrupt) = none
value_of (some (holds m)) = some m

abbrev pub meta_file : Option UploadDir → Option PersistedMeta
meta_file o = value_of (raw_meta o)

abbrev pub data_file : Option UploadDir → Option Bytes
data_file none = none
data_file (some d) = d.received

abbrev pub with_appended : UploadId → Bytes → Option UploadDir → Dojo → Dojo
with_appended id bytes none s = s
with_appended id bytes (some d) s =
    put_dir id (record d { received = Option.map (λ old. old ++ bytes) d.received }) s

abbrev pub append_data : UploadId → Bytes → Dojo → Dojo
append_data id bytes s = with_appended id bytes (s.uploads id) s

abbrev pub room_for : Option ℕ → ℕ → ℕ → Action Dojo StoreError (Unit {0})
room_for none offset n = return tt
room_for (some len) offset n = do check (ltb (offset + n) u64_mod); check (leb (offset + n) len)

-- `assert!(!bytes.is_empty())`, then `serde_json::from_slice`.
abbrev pub parse_meta : MetaFile → Result StoreError PersistedMeta
parse_meta blank = panic
parse_meta corrupt = err other
parse_meta (holds m) = ok m

-- What `fs::write` of `meta.json` leaves in the new directory.
abbrev pub meta_left : WriteEnd → PersistedMeta → Option MetaFile
meta_left written m = some (holds m)
meta_left not_made m = none
meta_left left_empty m = some blank
meta_left left_partial m = some corrupt

abbrev pub is_written : WriteEnd → Bool
is_written written = true
is_written not_made = false
is_written left_empty = false
is_written left_partial = false

abbrev pub if_kept {ℓ} : {A : Type ℓ} → Bool → Option A → Option A
if_kept true o = o
if_kept false o = none

-- What `remove_dir_all` leaves of a directory.
abbrev pub dir_left : Option (Bool × Bool) → UploadDir → Option UploadDir
dir_left none d = none
dir_left (some (kept_meta, kept_data)) d =
    some (record { meta = if_kept kept_meta d.meta; received = if_kept kept_data d.received })

module _ (f : Faults) where
  unfoldable pub read_meta : UploadId → Action Dojo StoreError PersistedMeta
  read_meta id = do
    disk f.read_meta
    file ← λ s. (or_not_found (raw_meta (s.uploads id)), s)
    meta ← lift (parse_meta file)
    check (not (is_empty meta.id))
    return meta

  unfoldable pub data_len : UploadId → Action Dojo StoreError ℕ
  data_len id = do
    disk f.stat_data
    received ← λ s. (or_not_found (data_file (s.uploads id)), s)
    return (length received)

  -- `create_upload` with the identifier that `Uuid::new_v4` returns.
  unfoldable pub create_upload : UploadId → CreateInfo → Action Dojo StoreError UploadInfo
  create_upload id info = do
    check (not (is_empty id))
    disk f.create_work_dir
    disk f.create_dir
    λ s. ensure (not (is_some (s.uploads id))) other s
    modify (put_dir id (record { meta = none; received = none }))
    modify
        (put_dir id (record { meta = meta_left f.write_meta (persisted id info); received = none }))
    ensure (is_written f.write_meta) other
    disk f.write_data
    modify (put_dir id (record { meta = some (holds (persisted id info)); received = some [] }))
    offset ← data_len id
    check (nat_eq offset 0)
    return (record {
      id = id;
      offset = 0;
      declared = info.declared;
      metadata = info.metadata;
      expires_at = info.expires_at;
    })

  unfoldable pub get_upload : UploadId → Action Dojo StoreError UploadInfo
  get_upload id = do
    check (not (is_empty id))
    meta ← read_meta id
    check (meta.id == id)
    offset ← data_len id
    check (fits meta.declared offset)
    return (record {
      id = id;
      offset = offset;
      declared = meta.declared;
      metadata = meta.metadata;
      expires_at = expires_at meta;
    })

  -- `write_all` in append mode: all of the chunk, or an error after some bytes.
  abbrev pub appended : Bytes → Bytes
  appended chunk = elim f.write_all [ none ↦ chunk | some k ↦ take k chunk ]

  -- `write_chunk` from the opening of the data file.
  unfoldable pub append_chunk : UploadId → ℕ → Bytes → Action Dojo StoreError ℕ
  append_chunk id offset chunk = do
    disk f.open_data
    modify (append_data id (appended chunk))
    disk (is_some f.write_all)
    disk f.flush
    new_offset ← data_len id
    check (leb offset new_offset)
    check (nat_eq new_offset (offset + length chunk))
    return new_offset

  unfoldable pub write_chunk : UploadId → ℕ → Bytes → Action Dojo StoreError ℕ
  write_chunk id offset chunk = do
    check (not (is_empty id))
    meta ← read_meta id
    check (meta.id == id)
    current ← data_len id
    check (nat_eq current offset)
    room_for meta.declared offset (length chunk)
    append_chunk id offset chunk

  unfoldable pub delete_upload : UploadId → Action Dojo StoreError (Unit {0})
  delete_upload id = do
    check (not (is_empty id))
    dir ← λ s. (or_not_found (s.uploads id), s)
    modify (leave_dir id (dir_left f.remove_dir_all dir))
    disk (is_some f.remove_dir_all)
    λ s. check (not (is_some (s.uploads id))) s

  -- `impl UploadStore for FsDojoUploadStore`
  abbrev pub fs_dojo_upload_store : UploadId → UploadStore Dojo
  fs_dojo_upload_store fresh = record {
    create_upload = create_upload fresh;
    get_upload = get_upload;
    write_chunk = write_chunk;
    delete_upload = delete_upload;
  }
