-- ===== src/Server/Tests.antt =====
-- Runs of the upload handlers over `FsDojoUploadStore` on one dojo.
use Prim.Native.Nat.{ℕ}
use dojjo.Prelude.{
  [], ◌∷◌, ◌≡◌, refl, sym, ap, ◌∙◌, ◌+◌, ◌≤◌, ◌<◌, Bool, true, false, Option, none, some, Result,
  ok, err, panic, arith, length, if◌then◌else◌,
}
use mathlib.Core.Path.{subst}
use dojjo.Prelude.Order.{◌==◌}
use dojjo.Prelude.Text.{text}
use dojjo.Prelude.Text.Order.{text_order, text_eq, text_eq_iff}
use dojjo.Tus.Types.{
  Bytes, UploadId, UploadInfo, TusError, PatchRequest, PatchResponse, u64_mod, offset_octet_stream,
  offset_mismatch, CreateInfo,
}
use dojjo.Tus.Store.{Within}
use dojjo.Tus.Handler.{handle_patch, patch_found, check_end}
use dojjo.Server.Store.{
  holds, written, left_empty, IsPlain, PersistedMeta, UploadDir, Dojo, Faults, meta_file, data_file,
  fs_dojo_upload_store, get_upload, write_chunk, append_chunk, read_meta, data_len, create_upload,
  delete_upload,
}
use dojjo.Server.Store.Reachable.{
  Reachable, starts, steps, creates, deletes, Reachable-IsConsistent,
}
use dojjo.Server.Store.Create.{created_info}
use dojjo.Server.Store.View.{view, IsConsistent}

abbrev pub no_faults : Faults
no_faults = record {
  create_work_dir = false;
  create_dir = false;
  write_meta = written;
  write_data = false;
  read_meta = false;
  stat_data = false;
  open_data = false;
  write_all = none;
  flush = false;
  remove_dir_all = none;
}

-- The disk fills up after one byte.
abbrev disk_full : Faults
disk_full = record no_faults { write_all = some 1 }

abbrev pub upload_1 : UploadId
upload_1 = text "u1"

abbrev pub five_bytes_meta : PersistedMeta
five_bytes_meta = record {
  id = upload_1;
  declared = some 5;
  metadata = λ _. none;
  expires_at_unix_secs = some 100;
}

abbrev pub two_of_five : UploadDir
two_of_five = record { meta = some (holds five_bytes_meta); received = some (7 ∷ 8 ∷ []) }

abbrev pub one_upload : Dojo
one_upload = record {
  uploads = λ j. if upload_1 == j then some two_of_five else none;
  mirror = λ _. none;
}

abbrev two_more : PatchRequest
two_more = record {
  upload_id = upload_1;
  upload_offset = 2;
  content_type = offset_octet_stream;
  chunk = 9 ∷ 9 ∷ [];
}

abbrev patch_result : Faults → PatchRequest → Result TusError PatchResponse
patch_result f req = (handle_patch (fs_dojo_upload_store f upload_1) 50 req one_upload).0

patch_advances :
    patch_result no_faults two_more
    ≡ ok (record { new_offset = 4; upload_expires = some 100_000_000_000; upload_complete = false })
unfolding handle_patch patch_found check_end get_upload write_chunk append_chunk read_meta data_len
    text_eq
patch_advances = refl

patch_conflict :
    patch_result no_faults (record two_more { upload_offset = 3 }) ≡ err (offset_mismatch 2 3)
unfolding handle_patch patch_found get_upload read_meta data_len text_eq
patch_conflict = refl

meta_of_one :
    (id : UploadId) (m : PersistedMeta) (b : Bool)
    → upload_1 == id ≡ b
    → meta_file (if b then some two_of_five else none) ≡ some m
    → (upload_1 ≡ id) × (five_bytes_meta ≡ m)
meta_of_one id m true e h = ((text_eq_iff upload_1 id).0 e, cc)
meta_of_one id m false e h = absurd cc

data_of_one :
    (bytes : Bytes) (b : Bool)
    → data_file (if b then some two_of_five else none) ≡ some bytes
    → ◌≡◌ {A = Bytes} (7 ∷ 8 ∷ []) bytes
data_of_one bytes true h = cc
data_of_one bytes false h = absurd cc

abbrev offset_of : Option UploadInfo → ℕ
offset_of none = 0
offset_of (some info) = info.offset

pub patch_fits_u64 :
    (info : UploadInfo) → view one_upload upload_1 ≡ some info → info.offset + 2 < u64_mod
unfolding text_eq
patch_fits_u64 info v = let two : 2 ≡ info.offset = ap offset_of v in ground (arith, two)

pub one_upload-IsConsistent : IsConsistent one_upload
one_upload-IsConsistent = record {
  named =
      λ id m h. let (here, meta) = meta_of_one id m _ refl h in sym (ap (λ k. k.id) meta) ∙ here;
  within = λ id m bytes h g.
      let (here, meta) = meta_of_one id m _ refl h in
      subst (λ k. Within k.declared (length bytes)) meta
        (subst (λ k. length k ≤ 5) (data_of_one bytes _ g) (ground arith));
}

pub upload_1-IsPlain : IsPlain upload_1
upload_1-IsPlain = record {
  some_char = λ h. cc;
  no_slash = refl;
  no_nul = refl;
  not_dot = λ h. cc;
  not_dot_dot = λ h. cc;
}

u3-IsPlain : IsPlain (text "u3")
u3-IsPlain = record {
  some_char = λ h. cc;
  no_slash = refl;
  no_nul = refl;
  not_dot = λ h. cc;
  not_dot_dot = λ h. cc;
}

abbrev ten_bytes : CreateInfo
ten_bytes = record { declared = some 10; metadata = λ _. none; expires_at = some 2_500_000_000 }

created_test :
    view (create_upload no_faults (text "u3") ten_bytes one_upload).1 (text "u3")
    ≡ some (record (created_info (text "u3") ten_bytes) { expires_at = some 2_000_000_000 })
unfolding create_upload data_len text_eq
created_test = refl

abbrev after_create : Dojo
after_create = (create_upload no_faults (text "u3") ten_bytes one_upload).1

abbrev after_delete : Dojo
after_delete = (delete_upload no_faults upload_1 after_create).1

create_delete_run : Reachable one_upload after_delete
create_delete_run =
    steps one_upload after_create after_delete
      (steps one_upload one_upload after_create (starts one_upload)
        (creates no_faults (text "u3") ten_bytes one_upload u3-IsPlain))
      (deletes no_faults upload_1 after_create upload_1-IsPlain)

Reachable-IsConsistent_example : IsConsistent after_delete
Reachable-IsConsistent_example =
    Reachable-IsConsistent one_upload after_delete create_delete_run one_upload-IsConsistent

-- A creation that leaves an empty `meta.json`, and a read of that upload.
abbrev after_failure : Dojo
after_failure =
    (create_upload (record no_faults { write_meta = left_empty }) (text "u3") ten_bytes
      one_upload).1

blank_meta_panics : (get_upload no_faults (text "u3") after_failure).0 ≡ panic
unfolding create_upload get_upload read_meta text_eq
blank_meta_panics = refl
