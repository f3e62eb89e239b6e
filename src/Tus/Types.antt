-- ===== src/Tus/Types.antt =====
-- tus-server/src/{error, protocol, request, response, store}.rs: the values that are passed.
-- A `SystemTime` or `Duration` is a number of nanoseconds, an instant counted from the Unix epoch.
use Prim.Native.Nat.{ℕ}
use dojjo.Prelude.{List, [], ◌∷◌, Bool, Option}
use dojjo.Prelude.Order.Sets.{Map}
use dojjo.Prelude.Text.{Text, text}

abbrev pub Bytes : Type 0
Bytes = List ℕ

abbrev pub UploadId : Type 0
UploadId = Text

abbrev pub Metadata : Type 0
Metadata = Map Text Text

abbrev pub u64_mod : ℕ
u64_mod = 0x1_0000_0000_0000_0000

pub record UploadInfo : Type 0 where
  pub id : UploadId
  pub offset : ℕ
  pub declared : Option ℕ
  pub metadata : Metadata
  pub expires_at : Option ℕ

pub record CreateInfo : Type 0 where
  pub declared : Option ℕ
  pub metadata : Metadata
  pub expires_at : Option ℕ

pub data StoreError : Type 0 where
  not_found other : StoreError

-- The reason that an `InvalidHeaderValue` gives.
pub data BadHeader : Type 0 where
  mutually_exclusive : BadHeader
  past_end : ℕ → ℕ → BadHeader

pub data TusError : Type 0 where
  upload_not_found expired unsupported_version invalid_content_type exceeds_max_size : TusError
  offset_mismatch : ℕ → ℕ → TusError
  missing_header : Text → TusError
  invalid_header_value : BadHeader → TusError
  store : StoreError → TusError

unfoldable pub status_code : TusError → ℕ
status_code upload_not_found = 404
status_code expired = 410
status_code (offset_mismatch expected got) = 409
status_code unsupported_version = 412
status_code invalid_content_type = 415
status_code exceeds_max_size = 413
status_code (missing_header name) = 400
status_code (invalid_header_value why) = 400
status_code (store not_found) = 404
status_code (store other) = 500

abbrev pub tus_resumable : Text
tus_resumable = text "1.0.0"

abbrev pub tus_version : Text
tus_version = text "1.0.0"

abbrev pub extensions : List Text
extensions = text "creation" ∷ text "termination" ∷ text "expiration" ∷ []

abbrev pub offset_octet_stream : Text
offset_octet_stream = text "application/offset+octet-stream"

pub record CreateRequest : Type 0 where
  pub upload_length : Option ℕ
  pub defer_length : Bool
  pub metadata : Metadata

pub record PatchRequest : Type 0 where
  pub upload_id : UploadId
  pub upload_offset : ℕ
  pub content_type : Text
  pub chunk : Bytes

pub record CreateResponse : Type 0 where
  pub upload_id : UploadId
  pub upload_expires : Option ℕ

pub record HeadResponse : Type 0 where
  pub upload_offset : ℕ
  pub upload_length : Option ℕ
  pub upload_expires : Option ℕ

pub record PatchResponse : Type 0 where
  pub new_offset : ℕ
  pub upload_expires : Option ℕ
  pub upload_complete : Bool

pub record OptionsResponse : Type 0 where
  pub version : Text
  pub supported : List Text
  pub max_size : Option ℕ
