-- ===== src/Tus/Store.antt =====
-- The trait `UploadStore` of tus-server/src/store.rs, and its documented contract.
use Prim.Native.Nat.{ℕ}
use dojjo.Prelude.{
  Bool, true, false, ◌⊎◌, [], ◌≡◌, ◌≢◌, ◌+◌, ◌≤◌, ◌<◌, Option, none, some, Result, ok, err, length,
}
use dojjo.Prelude.Action.{Action}
use dojjo.Tus.Types.{Bytes, UploadId, UploadInfo, CreateInfo, StoreError, not_found, other, u64_mod}

-- The methods, over the state `S` that the store keeps.
pub record UploadStore (S : Type 0) : Type 0 where
  pub create_upload : CreateInfo → Action S StoreError UploadInfo
  pub get_upload : UploadId → Action S StoreError UploadInfo
  -- `WriteResult` holds the new offset alone.
  pub write_chunk : UploadId → ℕ → Bytes → Action S StoreError ℕ
  pub delete_upload : UploadId → Action S StoreError (Unit {0})

abbrev pub Within : Option ℕ → ℕ → Type 0
Within none n = Unit
Within (some len) n = n ≤ len

-- What `get_upload` reports of an upload that is there.
pub record IsSane (id : UploadId) (info : UploadInfo) : Type 0 where
  pub same_id : info.id ≡ id
  pub within : Within info.declared info.offset

module _ {S : Type 0} (view : S → UploadId → Option UploadInfo) where
  -- A read changes nothing, and reports the upload, or that there is none, unless it fails.
  pub data GetResult (id : UploadId) (s : S) : Result StoreError UploadInfo × S → Type 0 where
    found : (info : UploadInfo) → view s id ≡ some info → GetResult id s (ok info, s)
    missing : view s id ≡ none → GetResult id s (err not_found, s)
    failed : GetResult id s (err other, s)

  -- A write adds the whole chunk, or a part of it if it fails.
  pub data WriteResult (id : UploadId) (s : S) (info : UploadInfo) (n : ℕ)
      : Result StoreError ℕ × S → Type 0 where
    wrote :
        (s' : S)
        → view s' id ≡ some (record info { offset = info.offset + n })
        → WriteResult id s info n (ok (info.offset + n), s')
    stopped :
        (s' : S) (k : ℕ)
        → k ≤ n
        → view s' id ≡ some (record info { offset = info.offset + k })
        → WriteResult id s info n (err other, s')

  -- A creation returns an upload without data and of the declared length, and it is there.
  pub data CreateResult (info : CreateInfo) : Result StoreError UploadInfo × S → Type 0 where
    created :
        (made seen : UploadInfo) (s' : S)
        → made.offset ≡ 0
        → made.declared ≡ info.declared
        → view s' made.id ≡ some seen
        → seen.offset ≡ 0
        → seen.declared ≡ info.declared
        → CreateResult info (ok made, s')
    not_created : (s' : S) → CreateResult info (err other, s')

  -- A deletion reports `NotFound` for what is not there, and nothing else does. What it deletes is not
  -- there afterwards; if it fails, the upload is seen as before or not at all.
  pub data DeleteResult (present : S → UploadId → Bool) (id : UploadId) (s : S)
      : Result StoreError (Unit {0}) × S → Type 0 where
    not_there : present s id ≡ false → DeleteResult present id s (err not_found, s)
    deleted :
        (s' : S)
        → present s id ≡ true
        → present s' id ≡ false
        → view s' id ≡ none
        → DeleteResult present id s (ok tt, s')
    not_deleted :
        (s' : S)
        → present s id ≡ true
        → (view s' id ≡ view s id) ⊎ (view s' id ≡ none)
        → DeleteResult present id s (err other, s')

module _ {S : Type 0} (store : UploadStore S) (view : S → UploadId → Option UploadInfo)
    (Inv : S → Type 0) (Usable : S → UploadId → Type 0) where
  -- The contract of the methods that a PATCH calls, for the states that satisfy `Inv`, and for the
  -- identifiers that are `Usable` in a state.
  pub record IsReadWrite : Type 0 where
    pub named : (s : S) (id : UploadId) → Usable s id → id ≢ []
    pub sane :
        (s : S) (id : UploadId) (info : UploadInfo) → Inv s → view s id ≡ some info → IsSane id info
    pub get_lem :
        (id : UploadId) (s : S) → Inv s → Usable s id → GetResult view id s (store.get_upload id s)
    pub write_lem :
        (id : UploadId) (chunk : Bytes) (s : S) (info : UploadInfo)
        → Inv s
        → Usable s id
        → view s id ≡ some info
        → Within info.declared (info.offset + length chunk)
        → info.offset + length chunk < u64_mod
        → WriteResult view id s info (length chunk) (store.write_chunk id info.offset chunk s)
    pub write-Inv :
        (id : UploadId) (n : ℕ) (chunk : Bytes) (s : S)
        → Inv s
        → Inv (store.write_chunk id n chunk s).1
    pub write_frame :
        (id j : UploadId) (n : ℕ) (chunk : Bytes) (s : S)
        → j ≢ id
        → view (store.write_chunk id n chunk s).1 j ≡ view s j

  -- The contract of the trait. `present` says what `delete_upload` finds: an upload that is seen is
  -- there, but one that is there need not be whole.
  pub record IsUploadStore (present : S → UploadId → Bool) : Type 0 where
    pub read_write : IsReadWrite
    pub seen-present :
        (s : S) (id : UploadId) (info : UploadInfo) → view s id ≡ some info → present s id ≡ true
    pub create_lem :
        (info : CreateInfo) (s : S) → Inv s → CreateResult view info (store.create_upload info s)
    pub create-Inv : (info : CreateInfo) (s : S) → Inv s → Inv (store.create_upload info s).1
    pub create_frame :
        (info : CreateInfo) (s : S) (j : UploadId) (old : UploadInfo)
        → view s j ≡ some old
        → view (store.create_upload info s).1 j ≡ some old
    pub delete_lem :
        (id : UploadId) (s : S)
        → Inv s
        → Usable s id
        → DeleteResult view present id s (store.delete_upload id s)
    pub delete-Inv : (id : UploadId) (s : S) → Inv s → Inv (store.delete_upload id s).1
    pub delete_frame :
        (id j : UploadId) (s : S) → j ≢ id → view (store.delete_upload id s).1 j ≡ view s j
