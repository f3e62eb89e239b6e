-- ===== src/Tus/Handler/Patch.antt =====
-- Every way in which `handle_patch` can end, over any store that keeps its contract.
use Prim.Native.Nat.{ℕ}
use dojjo.Prelude.{
  ◌≡◌, ◌≢◌, ◌+◌, ◌≤◌, ◌<◌, true, false, Option, none, some, Result, ok, err, leb, length,
}
use dojjo.Prelude.Text.Order.{text_order}
use dojjo.Prelude.Action.{run_next, return, check, ◌>>◌}
use dojjo.Tus.Types.{
  UploadId, UploadInfo, StoreError, TusError, not_found, other, expired, invalid_content_type,
  offset_mismatch, invalid_header_value, store, past_end, offset_octet_stream, PatchRequest,
  PatchResponse,
}
use dojjo.Tus.Store.{UploadStore, Within, IsReadWrite}
use dojjo.Tus.Handler.{fits, has_expired, is_complete, wrap_result, patch_found}

module _ {S : Type 0} (view : S → UploadId → Option UploadInfo) (now : ℕ) (req : PatchRequest)
    (s : S) where
  abbrev response : UploadInfo → PatchResponse
  response info = record {
    new_offset = info.offset + length req.chunk;
    upload_expires = info.expires_at;
    upload_complete = is_complete info.declared (info.offset + length req.chunk);
  }

  -- The chunk goes on where an upload that has not expired ends, and is within its length.
  pub record IsAdmitted (info : UploadInfo) : Type 0 where
    pub right_type : req.content_type ≡ offset_octet_stream
    pub seen : view s req.upload_id ≡ some info
    pub fresh : has_expired info.expires_at now ≡ false
    pub met : info.offset ≡ req.upload_offset
    pub fits_in : Within info.declared (info.offset + length req.chunk)

  -- How a PATCH ends, and what the store holds then. An earlier case is checked first.
  pub data PatchOutcome : Result TusError PatchResponse × S → Type 0 where
    wrong_type : req.content_type ≢ offset_octet_stream → PatchOutcome (err invalid_content_type, s)
    absent :
        req.content_type ≡ offset_octet_stream
        → view s req.upload_id ≡ none
        → PatchOutcome (err (store not_found), s)
    unreadable : req.content_type ≡ offset_octet_stream → PatchOutcome (err (store other), s)
    late :
        (info : UploadInfo)
        → req.content_type ≡ offset_octet_stream
        → view s req.upload_id ≡ some info
        → has_expired info.expires_at now ≡ true
        → PatchOutcome (err expired, s)
    elsewhere :
        (info : UploadInfo)
        → req.content_type ≡ offset_octet_stream
        → view s req.upload_id ≡ some info
        → has_expired info.expires_at now ≡ false
        → info.offset ≢ req.upload_offset
        → PatchOutcome (err (offset_mismatch info.offset req.upload_offset), s)
    too_long :
        (info : UploadInfo) (len : ℕ)
        → req.content_type ≡ offset_octet_stream
        → view s req.upload_id ≡ some info
        → has_expired info.expires_at now ≡ false
        → info.offset ≡ req.upload_offset
        → info.declared ≡ some len
        → len < info.offset + length req.chunk
        → PatchOutcome
            (err (invalid_header_value (past_end (info.offset + length req.chunk) len)), s)
    accepted :
        (info : UploadInfo) (s' : S)
        → IsAdmitted info
        → view s' req.upload_id ≡ some (record info { offset = info.offset + length req.chunk })
        → PatchOutcome (ok (response info), s')
    interrupted :
        (info : UploadInfo) (s' : S) (k : ℕ)
        → IsAdmitted info
        → k ≤ length req.chunk
        → view s' req.upload_id ≡ some (record info { offset = info.offset + k })
        → PatchOutcome (err (store other), s')

module _ {S : Type 0} (st : UploadStore S) (view : S → UploadId → Option UploadInfo)
    (Inv : S → Type 0) (Usable : S → UploadId → Type 0) (lawful : IsReadWrite st view Inv Usable)
    (now : ℕ) (req : PatchRequest) (s : S) where
  -- `patch_found` once the chunk has been handed to the store.
  abbrev after_write : UploadInfo → Result StoreError ℕ × S → Result TusError PatchResponse × S
  after_write info r =
      run_next (wrap_result r.0)
        (λ new_offset. do
          check (leb req.upload_offset new_offset)
          check (fits info.declared new_offset)
          return (record {
            new_offset = new_offset;
            upload_expires = info.expires_at;
            upload_complete = is_complete info.declared new_offset;
          }))
        r.1

  abbrev after_get : Result StoreError UploadInfo × S → Result TusError PatchResponse × S
  after_get r = run_next (wrap_result r.0) (λ info. patch_found st now req info) r.1
