-- ===== src/Server/Endpoints/Patches.antt =====
-- How `tus_upload_patch` of sync-server/src/tus_handlers.rs ends.
use dojjo.Prelude.Text.Order.{text_order}
use dojjo.Prelude.{ℕ, ◌+◌, ◌≤◌, ◌≡◌, true, false, some, Result, ok, err, panic, length, all}
use dojjo.Prelude.Dict.{Dict}
use dojjo.Prelude.Text.{Text, text, is_empty}
use dojjo.Prelude.Action.{Action}
use dojjo.Tus.Types.{
  Bytes, UploadId, UploadInfo, PatchRequest, PatchResponse, tus_resumable, offset_octet_stream,
}
use dojjo.Tus.Handler.{is_complete, has_expired}
use dojjo.Tus.Store.{Within}
use dojjo.Server.Finalize.Panics.{HasEmptyPath}
use dojjo.Server.Store.{IsPlain, blank, raw_meta, Dojo, Faults}
use dojjo.Tus.Headers.{patch_headers}
use dojjo.Prelude.Text.Decimal.{parse_u64}
use dojjo.Server.Finalize.{FinalizeError, FinalizeFaults}
use dojjo.Server.Finalize.Moved.{FinalizeRun}
use dojjo.Server.MirrorGet.{AppError}
use dojjo.Server.DojoId.{assert_safe_dojo_external_id, dojo_data_dir}
use dojjo.Server.Endpoints.{Http, Reply, header_str, or_empty}
use dojjo.Server.Store.View.{view, IsConsistent}
use dojjo.Server.Endpoints.Replies.{IsRefusal}

module _ (h : Http) (dojo_id : Text) (f : Faults) (now : ℕ) (id : UploadId)
    (headers : Dict Text Bytes) (body : Bytes) (s : Dojo) where
  -- The request is of the right version and type, for a dojo that there is, and its body goes on
  -- where an upload that has not expired ends, and is within its length.
  pub record IsAccepted (info : UploadInfo) : Type 0 where
    pub raw : Text
    pub safe_dojo : assert_safe_dojo_external_id dojo_id ≡ ok tt
    pub known_dojo : dojo_data_dir h.find_dojo dojo_id ≡ ok tt
    pub right_version :
        or_empty (header_str h dojo_id headers (text "tus-resumable")) ≡ tus_resumable
    pub has_offset : header_str h dojo_id headers (text "upload-offset") ≡ some raw
    pub at_end : parse_u64 raw ≡ some info.offset
    pub right_type :
        or_empty (header_str h dojo_id headers (text "content-type")) ≡ offset_octet_stream
    pub seen : view s id ≡ some info
    pub fresh : has_expired info.expires_at now ≡ false
    pub fits_in : Within info.declared (info.offset + length body)

  -- The upload has grown by `n`, and the mirror is as before.
  abbrev pub Grown : UploadInfo → ℕ → Dojo → Type 0
  Grown info n s' =
      (view s' id ≡ some (record info { offset = info.offset + n })) × (s'.mirror ≡ s.mirror)

  -- How a PATCH ends, with the reply and what the dojo holds then.
  pub data PatchEnd : Result AppError Reply × Dojo → Type 0 where
    unnamed_dojo : is_empty dojo_id ≡ true → PatchEnd (panic, s)
    blank_meta : raw_meta (s.uploads id) ≡ some blank → PatchEnd (panic, s)
    refused : (r : Result AppError Reply) → IsRefusal r → PatchEnd (r, s)
    partly :
        (r : Result AppError Reply) (info : UploadInfo) (s' : Dojo) (k : ℕ)
        → IsRefusal r
        → IsAccepted info
        → k ≤ length body
        → Grown info k s'
        → PatchEnd (r, s')
    appended :
        (out : Dict Text Text) (info : UploadInfo) (s' : Dojo)
        → IsAccepted info
        → is_complete info.declared (info.offset + length body) ≡ false
        → Grown info (length body) s'
        → PatchEnd (ok (record { status = 204; headers = out }), s')
    completed :
        (out : Dict Text Text) (info : UploadInfo) (s1 s2 : Dojo)
        → IsAccepted info
        → is_complete info.declared (info.offset + length body) ≡ true
        → Grown info (length body) s1
        → FinalizeRun id s1 (ok tt, s2)
        → PatchEnd (ok (record { status = 204; headers = out }), s2)
    not_moved :
        (r : Result AppError Reply) (e : FinalizeError) (info : UploadInfo) (s1 s2 : Dojo)
        → IsRefusal r
        → IsAccepted info
        → is_complete info.declared (info.offset + length body) ≡ true
        → Grown info (length body) s1
        → FinalizeRun id s1 (err e, s2)
        → PatchEnd (r, s2)
    without_path :
        (info : UploadInfo) (s1 s2 : Dojo)
        → IsAccepted info
        → is_complete info.declared (info.offset + length body) ≡ true
        → Grown info (length body) s1
        → HasEmptyPath id s1
        → FinalizeRun id s1 (panic, s2)
        → PatchEnd (panic, s2)

module _ (h : Http) (dojo_id : Text) (f : Faults) (g : FinalizeFaults) (now : ℕ)
    (valid : (p : PatchResponse) → all (λ kv. h.valid kv.1) (patch_headers h.http_date p) ≡ true)
    (id : UploadId) (plain : IsPlain id) (headers : Dict Text Bytes) (body : Bytes) (s : Dojo)
    (inv : IsConsistent s) where
  abbrev End : Result AppError Reply × Dojo → Type 0
  End = PatchEnd h dojo_id f now id headers body s

  abbrev request : ℕ → PatchRequest
  request offset = record {
    upload_id = id;
    upload_offset = offset;
    content_type = or_empty (header_str h dojo_id headers (text "content-type"));
    chunk = body;
  }
