-- ===== src/Server/Store/Create.antt =====
-- How `create_upload` ends for an identifier that is not in use.
use dojjo.Prelude.{
  [], ◌≡◌, ◌≢◌, ◌⊎◌, inl, inr, refl, sym, ◌∙◌, Option, none, some, false, Result, ok, err,
  Bool-cases,
}
use dojjo.Prelude.Text.Order.{text_order}
use dojjo.Tus.Types.{UploadId, UploadInfo, CreateInfo, StoreError, other}
use dojjo.Tus.Handler.Guards.{is_empty-nonempty}
use dojjo.Server.Store.{
  PersistedMeta, MetaFile, blank, corrupt, holds, raw_meta, value_of, UploadDir, WriteEnd, written,
  not_made, left_empty, left_partial, is_written, meta_left, Dojo, Faults, persisted, put_dir,
  create_upload, data_len,
}
use dojjo.Server.Store.View.{info_of, view, view_files}
use dojjo.Server.Store.Append.{eq_refl, eq_ne}

abbrev pub created_info : UploadId → CreateInfo → UploadInfo
created_info id info = record {
  id = id;
  offset = 0;
  declared = info.declared;
  metadata = info.metadata;
  expires_at = info.expires_at;
}

pub WriteEnd-cases :
    (w : WriteEnd)
    → (w ≡ written)
      ⊎ ((m : PersistedMeta → Option MetaFile) × (is_written w ≡ false) × (meta_left w ≡ m))
WriteEnd-cases written = inl refl
WriteEnd-cases not_made = inr (_, refl, refl)
WriteEnd-cases left_empty = inr (_, refl, refl)
WriteEnd-cases left_partial = inr (_, refl, refl)

pub view_without_data : (id : UploadId) (mo : Option PersistedMeta) → view_files id mo none ≡ none
view_without_data id none = refl
view_without_data id (some m) = refl

-- Nothing but the directory of one upload has changed.
pub record OnlyUpload (id : UploadId) (s s' : Dojo) : Type 0 where
  pub same_mirror : s'.mirror ≡ s.mirror
  pub others : (j : UploadId) → j ≢ id → s'.uploads j ≡ s.uploads j

-- The upload that is seen afterwards has its expiry cut to whole seconds.
pub data CreateOutcome (id : UploadId) (info : CreateInfo) (s : Dojo)
    : Result StoreError UploadInfo × Dojo → Type 0 where
  created :
      (s' : Dojo)
      → OnlyUpload id s s'
      → view s' id ≡ some (info_of id (persisted id info) [])
      → CreateOutcome id info s (ok (created_info id info), s')
  invisible :
      (s' : Dojo)
      → OnlyUpload id s s'
      → view s' id ≡ none
      → raw_meta (s'.uploads id) ≢ some blank
      → CreateOutcome id info s (err other, s')
  left_blank :
      (s' : Dojo)
      → OnlyUpload id s s'
      → view s' id ≡ none
      → raw_meta (s'.uploads id) ≡ some blank
      → CreateOutcome id info s (err other, s')
  unreported :
      (s' : Dojo)
      → OnlyUpload id s s'
      → view s' id ≡ some (info_of id (persisted id info) [])
      → CreateOutcome id info s (err other, s')

module _ (id : UploadId) (info : CreateInfo) (s : Dojo) where
  abbrev pub empty_dir : Dojo
  empty_dir = put_dir id (record { meta = none; received = none }) s

  abbrev pub with_meta : Option MetaFile → Dojo
  with_meta m = put_dir id (record { meta = m; received = none }) empty_dir

  abbrev pub with_data : Dojo
  with_data =
      put_dir id (record { meta = some (holds (persisted id info)); received = some [] })
        (with_meta (some (holds (persisted id info))))

  with_meta-OnlyUpload : (m : Option MetaFile) → OnlyUpload id s (with_meta m)
  with_meta-OnlyUpload m = record { same_mirror = refl; others = λ j ne. rw (eq_ne id j ne) refl }

  with_data-OnlyUpload : OnlyUpload id s with_data
  with_data-OnlyUpload = record { same_mirror = refl; others = λ j ne. rw (eq_ne id j ne) refl }

  view-with_data : view with_data id ≡ some (info_of id (persisted id info) [])
  view-with_data = rw (eq_refl id) refl

  view-with_meta : (m : Option MetaFile) → view (with_meta m) id ≡ none
  view-with_meta m = rw (eq_refl id) (view_without_data id (value_of m))

  raw-with_meta : (m : Option MetaFile) → raw_meta ((with_meta m).uploads id) ≡ m
  raw-with_meta m = rw (eq_refl id) refl

  -- A failing write of `meta.json`.
  unwritten_meta : (m : Option MetaFile) → CreateOutcome id info s (err other, with_meta m)
  unwritten_meta none =
      invisible _ (with_meta-OnlyUpload none) (view-with_meta none)
        λ e. let no_file : none ≡ some blank = sym (raw-with_meta none) ∙ e in cc
  unwritten_meta (some blank) =
      left_blank _ (with_meta-OnlyUpload _) (view-with_meta _) (raw-with_meta _)
  unwritten_meta (some corrupt) =
      invisible _ (with_meta-OnlyUpload _) (view-with_meta _) λ e.
        let other_file : some corrupt ≡ some blank = sym (raw-with_meta (some corrupt)) ∙ e in cc
  unwritten_meta (some (holds m)) = invisible _ (with_meta-OnlyUpload _) (view-with_meta _) λ e.
      let other_file : some (holds m) ≡ some blank = sym (raw-with_meta (some (holds m))) ∙ e in cc

  module _ (f : Faults) where
    -- The end of a creation whose `meta.json` was written.
    pub after_meta :
        id ≢ []
        → s.uploads id ≡ none
        → f.create_work_dir ≡ false
        → f.create_dir ≡ false
        → f.write_meta ≡ written
        → CreateOutcome id info s (create_upload f id info s)
    unfolding create_upload data_len
    after_meta ne unused root dir meta =
        let named = is_empty-nonempty id ne in
        let same = eq_refl id in
        let whole = some (holds (persisted id info)) in
        elim (Bool-cases f.write_data) [
          | inl bad ↦
              let run : create_upload f id info s ≡ (err other, with_meta whole) =
                rw (named, root, dir, unused, meta, bad) refl in
              rw run (unwritten_meta whole)
          | inr data_file_made ↦ elim (Bool-cases f.stat_data) [
            | inl bad ↦
                let run : create_upload f id info s ≡ (err other, with_data) =
                  rw (named, root, dir, unused, meta, data_file_made, bad) refl in
                rw run (unreported with_data with_data-OnlyUpload view-with_data)
            | inr sized ↦
                let run : create_upload f id info s ≡ (ok (created_info id info), with_data) =
                  rw (named, root, dir, unused, meta, data_file_made, sized, same) refl in
                rw run (created with_data with_data-OnlyUpload view-with_data)
          ]
        ]

    -- The name is in use already.
    pub create_upload-used :
        (d : UploadDir)
        → id ≢ []
        → s.uploads id ≡ some d
        → create_upload f id info s ≡ (err other, s)
    unfolding create_upload
    create_upload-used d ne used = elim (Bool-cases f.create_work_dir) [
      | inl bad ↦ rw (is_empty-nonempty id ne, bad) refl
      | inr root ↦ elim (Bool-cases f.create_dir) [
        | inl bad ↦ rw (is_empty-nonempty id ne, root, bad) refl
        | inr dir ↦ rw (is_empty-nonempty id ne, root, dir, used) refl
      ]
    ]
