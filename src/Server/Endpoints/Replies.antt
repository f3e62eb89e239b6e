-- ===== src/Server/Endpoints/Replies.antt =====
-- What a failed PATCH keeps of the mirror, and its error replies.
use dojjo.Prelude.Text.Order.{text_order}
use dojjo.Prelude.{
  ℕ, ◌≤◌, [], ◌≡◌, ◌≢◌, ◌⊎◌, inl, inr, ◌∙◌, Bool, true, Option, none, some, Bool-cases, refl, ap,
  arith, Result, ok, err, panic, ok-injective,
}
use dojjo.Prelude.Order.{◌==◌}
use dojjo.Server.DojoId.{assert_safe_dojo_external_id, dojo_data_dir}
use dojjo.Tus.Handler.Guards.{is_empty-nonempty}
use dojjo.Server.Store.View.{IsConsistent}
use dojjo.Server.Store.Frame.{write-IsConsistent}
use dojjo.Prelude.Dict.{Dict}
use dojjo.Prelude.Text.{Text, is_empty}
use dojjo.Tus.Types.{
  Bytes, UploadId, TusError, upload_not_found, expired, unsupported_version, invalid_content_type,
  exceeds_max_size, offset_mismatch, missing_header, invalid_header_value, store, not_found, other,
  PatchRequest, status_code, offset_octet_stream,
}
use dojjo.Tus.Handler.{handle_patch, patch_found, check_end}
use dojjo.Server.Store.{
  blank, raw_meta, Dojo, Faults, fs_dojo_upload_store, get_upload, write_chunk, append_chunk,
  read_meta, data_len,
}
use dojjo.Server.Finalize.{
  git_store_path_rejected, workspace_store_path_rejected, missing_jj_rel_path, length_mismatch,
  missing_declared_length, io, invalid_jj_rel_path, FinalizeError,
}
use dojjo.Server.MirrorGet.{AppError}
use dojjo.Server.Endpoints.{
  Reply, or_refuse, finalize_status, mirror_finalize_error_response, tus_error_response,
}

append_chunk-mirror :
    (f : Faults) (id : UploadId) (n : ℕ) (chunk : Bytes) (s : Dojo)
    → (append_chunk f id n chunk s).1.mirror ≡ s.mirror
unfolding append_chunk data_len
append_chunk-mirror f id n chunk s = ground arith

write_chunk-mirror :
    (f : Faults) (id : UploadId) (n : ℕ) (chunk : Bytes) (s : Dojo)
    → (write_chunk f id n chunk s).1.mirror ≡ s.mirror
unfolding write_chunk data_len read_meta
write_chunk-mirror f id n chunk s = ground (arith, append_chunk-mirror f id n chunk s)

-- A PATCH writes once or not at all.
handle_patch-state :
    (f : Faults) (now : ℕ) (req : PatchRequest) (s : Dojo)
    → ((handle_patch (fs_dojo_upload_store f []) now req s).1 ≡ s)
      ⊎ ((handle_patch (fs_dojo_upload_store f []) now req s).1
          ≡ (write_chunk f req.upload_id req.upload_offset req.chunk s).1)
unfolding handle_patch patch_found check_end get_upload read_meta data_len
handle_patch-state f now req s = ground arith

pub handle_patch-mirror :
    (f : Faults) (now : ℕ) (req : PatchRequest) (s : Dojo)
    → (handle_patch (fs_dojo_upload_store f []) now req s).1.mirror ≡ s.mirror
handle_patch-mirror f now req s = elim (handle_patch-state f now req s) [
  | inl same ↦ ap (λ d. d.mirror) same
  | inr wrote ↦
      ap (λ d. d.mirror) wrote ∙ write_chunk-mirror f req.upload_id req.upload_offset req.chunk s
]

pub handle_patch-IsConsistent :
    (f : Faults) (now : ℕ) (req : PatchRequest) (s : Dojo)
    → IsConsistent s
    → IsConsistent (handle_patch (fs_dojo_upload_store f []) now req s).1
handle_patch-IsConsistent f now req s inv = elim (handle_patch-state f now req s) [
  | inl same ↦ rw same inv
  | inr wrote ↦ rw wrote (write-IsConsistent f req.upload_id req.chunk s req.upload_offset inv)
]

-- A PATCH of an upload whose `meta.json` is an empty file.
pub handle_patch-blank :
    (f : Faults) (now : ℕ) (req : PatchRequest) (s : Dojo)
    → req.upload_id ≢ []
    → raw_meta (s.uploads req.upload_id) ≡ some blank
    → let r = handle_patch (fs_dojo_upload_store f []) now req s in
      (r ≡ (panic, s)) ⊎ ((e : TusError) × (r ≡ (err e, s)))
unfolding handle_patch get_upload read_meta
handle_patch-blank f now req s ne empty =
    let full = is_empty-nonempty req.upload_id ne in
    elim (Bool-cases (req.content_type == offset_octet_stream)) [
      | inr other_type ↦ inr (invalid_content_type, rw (full, other_type) refl)
      | inl right ↦ elim (Bool-cases f.read_meta) [
        | inl bad ↦ inr (store other, rw (full, right, bad) refl)
        | inr fine ↦ inl (rw (full, right, fine, empty) refl)
      ]
    ]

pub tus_error_reply :
    (e : TusError) (s : Dojo)
    → (tus_error_response e s ≡ (ok (record { status = status_code e; headers = [] }), s))
      × (400 ≤ status_code e)
unfolding tus_error_response status_code
tus_error_reply upload_not_found s = (refl, omega arith)
tus_error_reply expired s = (refl, omega arith)
tus_error_reply unsupported_version s = (refl, omega arith)
tus_error_reply invalid_content_type s = (refl, omega arith)
tus_error_reply exceeds_max_size s = (refl, omega arith)
tus_error_reply (offset_mismatch a b) s = (refl, omega arith)
tus_error_reply (missing_header n) s = (refl, omega arith)
tus_error_reply (invalid_header_value w) s = (refl, omega arith)
tus_error_reply (store not_found) s = (refl, omega arith)
tus_error_reply (store other) s = (refl, omega arith)

pub finalize_error_reply :
    (e : FinalizeError) (s : Dojo)
    → (mirror_finalize_error_response e s
        ≡ (ok (record { status = finalize_status e; headers = [] }), s))
      × (400 ≤ finalize_status e)
unfolding mirror_finalize_error_response finalize_status
finalize_error_reply git_store_path_rejected s = (refl, omega arith)
finalize_error_reply workspace_store_path_rejected s = (refl, omega arith)
finalize_error_reply missing_jj_rel_path s = (refl, omega arith)
finalize_error_reply length_mismatch s = (refl, omega arith)
finalize_error_reply missing_declared_length s = (refl, omega arith)
finalize_error_reply FinalizeError.upload_not_found s = (refl, omega arith)
finalize_error_reply io s = (refl, omega arith)
finalize_error_reply (invalid_jj_rel_path e) s = (refl, omega arith)

-- An error of axum's, or a reply with a status of 400 or more.
abbrev pub IsRefusal : Result AppError Reply → Type 0
IsRefusal r = (r ≢ panic) × ((reply : Reply) → r ≡ ok reply → 400 ≤ reply.status)

pub error-IsRefusal :
    (status : ℕ) (headers : Dict Text Text)
    → 400 ≤ status
    → IsRefusal (ok (record { status = status; headers = headers }))
error-IsRefusal status headers big = (
  λ q. cc,
  λ reply q.
      let same : status ≡ reply.status = ap (λ r. r.status) (ok-injective q) in
      omega (arith, big, same),
)

-- The two checks of the dojo's identifier assert only that there is one.
pub assert_safe-panic : (id : Text) → assert_safe_dojo_external_id id ≡ panic → is_empty id ≡ true
unfolding assert_safe_dojo_external_id
assert_safe-panic id h = ground (arith, h)

pub dojo_data_dir-panic :
    (find : Text → Option Bool) (id : Text) → dojo_data_dir find id ≡ panic → is_empty id ≡ true
unfolding dojo_data_dir
dojo_data_dir-panic find id h = ground (arith, h)

pub or_refuse-ok {ℓ} : {A : Type ℓ} (o : Option A) (a : A) → or_refuse o ≡ ok a → o ≡ some a
or_refuse-ok none a h = cc
or_refuse-ok (some b) a h = cc

pub or_refuse-ne-panic {ℓ} : {A : Type ℓ} (o : Option A) → or_refuse o ≢ panic
or_refuse-ne-panic none h = cc
or_refuse-ne-panic (some b) h = cc
