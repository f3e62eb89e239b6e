-- ===== src/Server/Store/View.antt =====
-- What the files of an upload stand for, and when the files of a dojo agree with one another.
use dojjo.Prelude.{◌≡◌, ◌≢◌, ◌⊎◌, inl, inr, refl, Option, none, some, length}
use dojjo.Prelude.Text.Order.{text_order}
use dojjo.Tus.Types.{Bytes, UploadId, UploadInfo}
use dojjo.Tus.Store.{Within}
use dojjo.Server.Store.{
  PersistedMeta, MetaFile, blank, corrupt, holds, raw_meta, value_of, IsPlain, Dojo, expires_at,
  meta_file, data_file,
}

abbrev pub info_of : UploadId → PersistedMeta → Bytes → UploadInfo
info_of id m bytes = record {
  id = id;
  offset = length bytes;
  declared = m.declared;
  metadata = m.metadata;
  expires_at = expires_at m;
}

abbrev pub view_files : UploadId → Option PersistedMeta → Option Bytes → Option UploadInfo
view_files id (some m) (some bytes) = some (info_of id m bytes)
view_files id _ _ = none

-- The upload that a directory stands for: both of its files must be there.
abbrev pub view : Dojo → UploadId → Option UploadInfo
view s id = view_files id (meta_file (s.uploads id)) (data_file (s.uploads id))

-- A `meta.json` that holds a value names its directory, and no more than the declared length has been received.
pub record IsConsistent (s : Dojo) : Type 0 where
  pub named : (id : UploadId) (m : PersistedMeta) → meta_file (s.uploads id) ≡ some m → m.id ≡ id
  pub within :
      (id : UploadId) (m : PersistedMeta) (bytes : Bytes)
      → meta_file (s.uploads id) ≡ some m
      → data_file (s.uploads id) ≡ some bytes
      → Within m.declared (length bytes)

-- What a request may be about: a plain identifier whose `meta.json` is not an empty file.
pub record IsUsable (s : Dojo) (id : UploadId) : Type 0 where
  pub plain : IsPlain id
  pub not_blank : raw_meta (s.uploads id) ≢ some blank

pub holds_of : (o : Option MetaFile) (m : PersistedMeta) → value_of o ≡ some m → o ≡ some (holds m)
holds_of none m h = cc
holds_of (some blank) m h = cc
holds_of (some corrupt) m h = cc
holds_of (some (holds k)) m h = cc

pub MetaFile-cases :
    (o : Option MetaFile)
    → (o ≡ none)
      ⊎ (o ≡ some blank)
      ⊎ (o ≡ some corrupt)
      ⊎ ((m : PersistedMeta) × (o ≡ some (holds m)))
MetaFile-cases none = inl refl
MetaFile-cases (some blank) = inr (inl refl)
MetaFile-cases (some corrupt) = inr (inr (inl refl))
MetaFile-cases (some (holds m)) = inr (inr (inr (m, refl)))
