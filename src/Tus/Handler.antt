-- ===== src/Tus/Handler.antt =====
-- tus-server/src/handler.rs. The clock's reading is an argument of each method that reads it.
pub mod Guards
pub mod Patch
use Prim.Native.Nat.{ℕ}
use mathlib.Core.Option
use dojjo.Prelude.{
  ◌+◌, ◌||◌, Bool, true, false, not, ◌&&◌, Option, none, some, Result, ok, err, panic, is_some, ltb,
  leb, nat_eq, length,
}
use dojjo.Prelude.Order.{◌==◌}
use dojjo.Prelude.Text.{Text, text, is_empty}
use dojjo.Prelude.Text.Order.{text_order}
use dojjo.Prelude.Action.{Action, return, fail, check, ensure, ◌>>=◌, ◌>>◌}
use dojjo.Tus.Types.{
  UploadId, UploadInfo, StoreError, TusError, BadHeader, upload_not_found, expired,
  invalid_content_type, exceeds_max_size, offset_mismatch, missing_header, invalid_header_value,
  store, mutually_exclusive, past_end, u64_mod, tus_version, extensions, offset_octet_stream,
  CreateRequest, PatchRequest, CreateResponse, HeadResponse, PatchResponse, OptionsResponse,
}
use dojjo.Tus.Store.{UploadStore}

pub record TusConfig : Type 0 where
  pub max_size : Option ℕ
  pub upload_expiration : Option ℕ

abbrev pub default_config : TusConfig
default_config = record { max_size = none; upload_expiration = none }

-- `map_or(true, |len| offset <= len)`
abbrev pub fits : Option ℕ → ℕ → Bool
fits none offset = true
fits (some len) offset = leb offset len

-- `if let Some(expires_at)`, then `expires_at < SystemTime::now()`
abbrev pub has_expired : Option ℕ → ℕ → Bool
has_expired none now = false
has_expired (some t) now = ltb t now

abbrev pub same_length : Option ℕ → Option ℕ → Bool
same_length none none = true
same_length (some a) (some b) = nat_eq a b
same_length _ _ = false

-- `checked_add(…).expect(…)`, then the comparison with the declared length.
unfoldable pub check_end {ℓ} : {S : Type ℓ} → Option ℕ → ℕ → ℕ → Action S TusError (Unit {0})
check_end none offset n = return tt
check_end (some len) offset n = do
  check (ltb (offset + n) u64_mod)
  ensure (leb (offset + n) len) (invalid_header_value (past_end (offset + n) len))

abbrev pub is_complete : Option ℕ → ℕ → Bool
is_complete none offset = false
is_complete (some len) offset = nat_eq offset len

-- `len > max` is refused where both are known.
abbrev pub below_max : Option ℕ → Option ℕ → Bool
below_max (some len) (some max_size) = leb len max_size
below_max _ _ = true

abbrev pub wrap_result {κ} : {A : Type κ} → Result StoreError A → Result TusError A
wrap_result (ok a) = ok a
wrap_result (err e) = err (store e)
wrap_result panic = panic

-- `From<StoreError> for TusError`, by which `?` converts.
abbrev pub wrap {ℓ κ} : {S : Type ℓ} {A : Type κ} → Action S StoreError A → Action S TusError A
wrap m s = (wrap_result (m s).0, (m s).1)

module _ {S : Type 0} (st : UploadStore S) (config : TusConfig) where
  unfoldable pub handle_options : OptionsResponse
  handle_options = record {
    version = tus_version;
    supported = extensions;
    max_size = config.max_size;
  }

  unfoldable pub handle_create : ℕ → CreateRequest → Action S TusError CreateResponse
  handle_create now req = do
    ensure (is_some req.upload_length || req.defer_length) (missing_header (text "upload-length"))
    ensure (not (is_some req.upload_length && req.defer_length))
        (invalid_header_value mutually_exclusive)
    ensure (below_max req.upload_length config.max_size) exceeds_max_size
    info ← wrap (
        st.create_upload (record {
          declared = req.upload_length;
          metadata = req.metadata;
          expires_at = Option.map (λ d. now + d) config.upload_expiration;
        }))
    check (not (is_empty info.id))
    check (nat_eq info.offset 0)
    check (same_length info.declared req.upload_length)
    return (record { upload_id = info.id; upload_expires = info.expires_at })

module _ {S : Type 0} (st : UploadStore S) where
  unfoldable pub handle_head : ℕ → UploadId → Action S TusError HeadResponse
  handle_head now id = do
    check (not (is_empty id))
    info ← wrap (st.get_upload id)
    check (not (is_empty info.id))
    check (fits info.declared info.offset)
    ensure (not (has_expired info.expires_at now)) expired
    return (record {
      upload_offset = info.offset;
      upload_length = info.declared;
      upload_expires = info.expires_at;
    })

  -- `handle_patch` after the upload has been fetched.
  unfoldable pub patch_found : ℕ → PatchRequest → UploadInfo → Action S TusError PatchResponse
  patch_found now req info = do
    check (fits info.declared info.offset)
    ensure (not (has_expired info.expires_at now)) expired
    ensure (nat_eq info.offset req.upload_offset) (offset_mismatch info.offset req.upload_offset)
    check_end info.declared req.upload_offset (length req.chunk)
    new_offset ← wrap (st.write_chunk req.upload_id req.upload_offset req.chunk)
    check (leb req.upload_offset new_offset)
    check (fits info.declared new_offset)
    return (record {
      new_offset = new_offset;
      upload_expires = info.expires_at;
      upload_complete = is_complete info.declared new_offset;
    })

  unfoldable pub handle_patch : ℕ → PatchRequest → Action S TusError PatchResponse
  handle_patch now req = do
    check (not (is_empty req.upload_id))
    ensure (req.content_type == offset_octet_stream) invalid_content_type
    info ← wrap (st.get_upload req.upload_id)
    patch_found now req info

  unfoldable pub handle_delete : UploadId → Action S TusError (Unit {0})
  handle_delete id = do
    check (not (is_empty id))
    info ← wrap (st.get_upload id)
    check (info.id == id)
    wrap (st.delete_upload id)
