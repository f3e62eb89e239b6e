-- ===== src/Server/Store/Contract.antt =====
-- `FsDojoUploadStore` keeps the contract of `UploadStore`, whichever calls of the disk fail.
use Prim.Native.Nat.{ℕ}
use mathlib.Core.Path.{subst}
use dojjo.Prelude.{
  [], ◌≡◌, ◌≢◌, Bool, is_some, ap, inl, inr, refl, ◌+◌, ◌<◌, true, false, Option, none, some, ok,
  err, arith, nat_eq_iff, length, Bool-cases, Option-cases,
}
use dojjo.Prelude.Text.{is_empty}
use dojjo.Prelude.Text.Order.{text_order, text_eq, text_eq_iff}
use dojjo.Tus.Types.{Bytes, UploadId, UploadInfo, not_found, other, u64_mod}
use dojjo.Tus.Store.{Within, IsSane, GetResult, found, missing, failed, WriteResult, IsReadWrite}
use dojjo.Server.Store.{
  blank, holds, raw_meta, value_of, PersistedMeta, Dojo, Faults, meta_file, data_file, read_meta,
  data_len, get_upload, write_chunk, fs_dojo_upload_store, append_chunk, room_for,
}
use dojjo.Server.Store.Frame.{write-IsConsistent, write-frame}
use dojjo.Server.Store.Append.{unwritten, append_chunk-WriteResult}
use dojjo.Server.Store.View.{
  info_of, view_files, view, IsConsistent, IsUsable, holds_of, MetaFile-cases,
}
use dojjo.Tus.Handler.Guards.{is_empty-nonempty, Within-fits}

module _ (f : Faults) (id : UploadId) (s : Dojo) (ne : id ≢ []) where
  -- A read of an upload whose `meta.json` holds a value.
  get_stored :
      (m : PersistedMeta)
      → IsConsistent s
      → f.read_meta ≡ false
      → raw_meta (s.uploads id) ≡ some (holds m)
      → GetResult view id s (get_upload f id s)
  get_stored m inv fine raw =
      let m_some : meta_file (s.uploads id) ≡ some m = ap value_of raw in
      let same : m.id ≡ id = inv.named id m m_some in
      let full : is_empty m.id ≡ false = rw same (is_empty-nonempty id ne) in
      let here : text_eq m.id id ≡ true = (text_eq_iff m.id id).1 same in
      elim (Bool-cases f.stat_data) [
        | inl bad ↦
            let run : get_upload f id s ≡ (err other, s) =
              unfold get_upload read_meta data_len in
              rw (is_empty-nonempty id ne, fine, raw, full, here, bad) refl in
            rw run failed
        | inr good ↦ elim (Option-cases (data_file (s.uploads id))) [
          | inl d_none ↦
              let run : get_upload f id s ≡ (err not_found, s) =
                unfold get_upload read_meta data_len in
                rw (is_empty-nonempty id ne, fine, raw, full, here, good, d_none) refl in
              rw run (missing (rw (m_some, d_none) refl))
          | inr (bytes, d_some) ↦
              let within =
                Within-fits m.declared (length bytes) (inv.within id m bytes m_some d_some) in
              let run : get_upload f id s ≡ (ok (info_of id m bytes), s) =
                unfold get_upload read_meta data_len in
                rw (is_empty-nonempty id ne, fine, raw, full, here, good, d_some, within) refl in
              rw run (found (info_of id m bytes) (rw (m_some, d_some) refl))
        ]
      ]

  get_lem :
      IsConsistent s
      → raw_meta (s.uploads id) ≢ some blank
      → GetResult view id s (get_upload f id s)
  get_lem inv not_blank = elim (Bool-cases f.read_meta) [
    | inl bad ↦
        let run : get_upload f id s ≡ (err other, s) =
          unfold get_upload read_meta in rw (is_empty-nonempty id ne, bad) refl in
        rw run failed
    | inr fine ↦ elim (MetaFile-cases (raw_meta (s.uploads id))) [
      | inl absent ↦
          let run : get_upload f id s ≡ (err not_found, s) =
            unfold get_upload read_meta in rw (is_empty-nonempty id ne, fine, absent) refl in
          rw run (missing (rw absent refl))
      | inr (inl empty) ↦ absurd (not_blank empty)
      | inr (inr (inl cut)) ↦
          let run : get_upload f id s ≡ (err other, s) =
            unfold get_upload read_meta in rw (is_empty-nonempty id ne, fine, cut) refl in
          rw run failed
      | inr (inr (inr (m, raw))) ↦ get_stored m inv fine raw
    ]
  ]

-- What stands behind an upload that is seen.
pub data IsStored (id : UploadId) (info : UploadInfo) (mo : Option PersistedMeta)
    (bo : Option Bytes) : Type 0 where
  stored :
      (m : PersistedMeta) (bytes : Bytes)
      → mo ≡ some m
      → bo ≡ some bytes
      → info_of id m bytes ≡ info
      → IsStored id info mo bo

view_inv :
    (id : UploadId) (info : UploadInfo) (mo : Option PersistedMeta) (bo : Option Bytes)
    → view_files id mo bo ≡ some info
    → IsStored id info mo bo
view_inv id info none bo v = cc
view_inv id info (some m) none v = cc
view_inv id info (some m) (some bytes) v = stored m bytes refl refl cc

room_for_ok :
    (d : Option ℕ) (offset n : ℕ) (s : Dojo)
    → Within d (offset + n)
    → offset + n < u64_mod
    → room_for d offset n s ≡ (ok tt, s)
room_for_ok none offset n s w room = refl
room_for_ok (some len) offset n s w room = ground arith

module _ (f : Faults) (id : UploadId) (s : Dojo) (m : PersistedMeta) (bytes chunk : Bytes)
    (inv : IsConsistent s) (ne : id ≢ []) (m_some : meta_file (s.uploads id) ≡ some m)
    (d_some : data_file (s.uploads id) ≡ some bytes)
    (w : Within m.declared (length bytes + length chunk))
    (room : length bytes + length chunk < u64_mod) where
  write_stored :
      WriteResult view id s
        (info_of id m bytes)
        (length chunk)
        (write_chunk f id (length bytes) chunk s)
  write_stored =
      let raw = holds_of (raw_meta (s.uploads id)) m m_some in
      let same : m.id ≡ id = inv.named id m m_some in
      let full : is_empty m.id ≡ false = rw same (is_empty-nonempty id ne) in
      let here : text_eq m.id id ≡ true = (text_eq_iff m.id id).1 same in
      elim (Bool-cases f.read_meta) [
        | inl bad ↦
            let run : write_chunk f id (length bytes) chunk s ≡ (err other, s) =
              unfold write_chunk read_meta in rw (is_empty-nonempty id ne, bad) refl in
            rw run (unwritten f id s m bytes chunk m_some d_some)
        | inr fine ↦ elim (Bool-cases f.stat_data) [
          | inl bad ↦
              let run : write_chunk f id (length bytes) chunk s ≡ (err other, s) =
                unfold write_chunk read_meta data_len in
                rw (is_empty-nonempty id ne, fine, raw, full, here, bad) refl in
              rw run (unwritten f id s m bytes chunk m_some d_some)
          | inr good ↦
              let run : write_chunk f id (length bytes) chunk s
                  ≡ append_chunk f id (length bytes) chunk s =
                unfold write_chunk read_meta data_len in
                rw
                  (
                    is_empty-nonempty id ne,
                    fine,
                    raw,
                    full,
                    here,
                    good,
                    d_some,
                    (nat_eq_iff (length bytes) _).1 refl,
                    room_for_ok m.declared (length bytes) (length chunk) s w room,
                  )
                  refl in
              rw run (append_chunk-WriteResult f id s m bytes chunk m_some d_some good)
        ]
      ]

write_lem :
    (f : Faults) (id : UploadId) (chunk : Bytes) (s : Dojo) (info : UploadInfo)
    → IsConsistent s
    → id ≢ []
    → IsStored id info (meta_file (s.uploads id)) (data_file (s.uploads id))
    → Within info.declared (info.offset + length chunk)
    → info.offset + length chunk < u64_mod
    → WriteResult view id s info (length chunk) (write_chunk f id info.offset chunk s)
write_lem f id chunk s info inv ne (stored m bytes m_some d_some e) =
    subst
      (λ i.
        Within i.declared (i.offset + length chunk)
        → i.offset + length chunk < u64_mod
        → WriteResult view id s i (length chunk) (write_chunk f id i.offset chunk s))
      e (write_stored f id s m bytes chunk inv ne m_some d_some)

stored-IsSane :
    (s : Dojo) (id : UploadId) (info : UploadInfo)
    → IsConsistent s
    → IsStored id info (meta_file (s.uploads id)) (data_file (s.uploads id))
    → IsSane id info
stored-IsSane s id info inv (stored m bytes m_some d_some e) =
    subst (IsSane id) e (record { same_id = refl; within = inv.within id m bytes m_some d_some })

pub fs_dojo_upload_store-IsReadWrite :
    (f : Faults) (fresh : UploadId)
    → IsReadWrite (fs_dojo_upload_store f fresh) view IsConsistent IsUsable
fs_dojo_upload_store-IsReadWrite f fresh = record {
  named = λ s id usable. usable.plain.some_char;
  sane = λ s id info inv v. stored-IsSane s id info inv (view_inv id info _ _ v);
  get_lem = λ id s inv usable. get_lem f id s usable.plain.some_char inv usable.not_blank;
  write_lem = λ id chunk s info inv usable v w room.
      write_lem f id chunk s info inv usable.plain.some_char (view_inv id info _ _ v) w room;
  write-Inv = λ id n chunk s inv. write-IsConsistent f id chunk s n inv;
  write_frame = λ id j n chunk s ne. rw (write-frame f id chunk s n j ne) refl;
}

-- There is a directory of that name.
abbrev pub present : Dojo → UploadId → Bool
present s id = is_some (s.uploads id)
