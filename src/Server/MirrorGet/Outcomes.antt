-- ===== src/Server/MirrorGet/Outcomes.antt =====
-- What a GET of the mirror returns, and when it panics.
use dojjo.Prelude.{
  List, ◌∷◌, ◌≡◌, ◌≢◌, ◌⊎◌, inl, inr, refl, ◌≤◌, Bool, true, false, Result, ok, err, panic, arith,
  leb, nat_eq_iff, length, Bool-cases, Result-cases,
}
use dojjo.Prelude.Text.{Text, text, join}
use dojjo.Tus.Types.{Bytes}
use dojjo.Mirror.Path.{PathError, parse_safe_mirror_rel}
use dojjo.Mirror.Path.Laws.{parse_safe-ne-panic, parse_safe_iff}
use dojjo.Mirror.Path.Segments.{safe-IsRelText}
use dojjo.Mirror.Exclude.Segments.{IsHostLocal}
use dojjo.Mirror.Exclude.Paths.{excluded_iff}
use dojjo.Server.MirrorGet.{
  AppError, ReadError, FileMetadata, MirrorDisk, bad_request, not_found, internal, no_such_file,
  other_kind, max_mirror_blob_bytes, read_mirror_file, get_mirror_object,
}

-- How the reading of an accepted path ends.
pub data FileOutcome (disk : MirrorDisk) (path : Text) : Result AppError Bytes → Type 0 where
  served :
      (meta : FileMetadata) (bytes : Bytes)
      → disk.metadata path ≡ inr meta
      → disk.read path ≡ inr bytes
      → meta.is_file ≡ true
      → length bytes ≤ max_mirror_blob_bytes
      → FileOutcome disk path (ok bytes)
  absent :
      (disk.metadata path ≡ inl no_such_file) ⊎ (disk.read path ≡ inl no_such_file)
      → FileOutcome disk path (err not_found)
  unreadable :
      (disk.metadata path ≡ inl other_kind) ⊎ (disk.read path ≡ inl other_kind)
      → FileOutcome disk path (err internal)
  too_large :
      (meta : FileMetadata)
      → disk.metadata path ≡ inr meta
      → leb meta.len max_mirror_blob_bytes ≡ false
      → FileOutcome disk path (err bad_request)
  is_directory :
      (meta : FileMetadata)
      → disk.metadata path ≡ inr meta
      → meta.is_file ≡ false
      → FileOutcome disk path panic

pub data GetOutcome (disk : MirrorDisk) (jj_path : Text) : Result AppError Bytes → Type 0 where
  refused :
      (e : PathError)
      → parse_safe_mirror_rel jj_path ≡ err e
      → GetOutcome disk jj_path (err bad_request)
  host_local :
      (rel : List Text)
      → parse_safe_mirror_rel jj_path ≡ ok rel
      → IsHostLocal rel
      → GetOutcome disk jj_path (err bad_request)
  git_store :
      (rel r : List Text)
      → parse_safe_mirror_rel jj_path ≡ ok rel
      → rel ≡ text "store" ∷ text "git" ∷ r
      → GetOutcome disk jj_path (err bad_request)
  accepted :
      (rel : List Text) (r : Result AppError Bytes)
      → parse_safe_mirror_rel jj_path ≡ ok rel
      → ¬ IsHostLocal rel
      → ((r' : List Text) → rel ≢ text "store" ∷ text "git" ∷ r')
      → FileOutcome disk (join b'/' rel) r
      → GetOutcome disk jj_path r

true_ne_false : (b : Bool) → b ≡ true → b ≢ false
true_ne_false b yes_b no_b = cc

module _ (disk : MirrorDisk)
    (steady : (path : Text) (meta : FileMetadata) (bytes : Bytes)
      → disk.metadata path ≡ inr meta
      → disk.read path ≡ inr bytes
      → length bytes ≡ meta.len) where
  small-FileOutcome :
      (path : Text) (meta : FileMetadata) (ro : ReadError ⊎ Bytes)
      → disk.metadata path ≡ inr meta
      → disk.read path ≡ ro
      → meta.is_file ≡ true
      → leb meta.len max_mirror_blob_bytes ≡ true
      → FileOutcome disk path (read_mirror_file disk path)
  unfolding read_mirror_file
  small-FileOutcome path meta (inl no_such_file) m r file small =
      rw (m, file, small, r) (absent (inr r))
  small-FileOutcome path meta (inl other_kind) m r file small =
      rw (m, file, small, r) (unreadable (inr r))
  small-FileOutcome path meta (inr bytes) m r file small =
      let same : length bytes ≡ meta.len = steady path meta bytes m r in
      let run : read_mirror_file disk path ≡ ok bytes =
        rw (m, file, small, r, (nat_eq_iff (length bytes) meta.len).1 same) refl in
      rw run (served meta bytes m r file (rw same (ground (arith, small))))

  read-FileOutcome :
      (path : Text) (mo : ReadError ⊎ FileMetadata) (ro : ReadError ⊎ Bytes)
      → disk.metadata path ≡ mo
      → disk.read path ≡ ro
      → FileOutcome disk path (read_mirror_file disk path)
  unfolding read_mirror_file
  read-FileOutcome path (inl no_such_file) ro m r = rw m (absent (inl m))
  read-FileOutcome path (inl other_kind) ro m r = rw m (unreadable (inl m))
  read-FileOutcome path (inr meta) ro m r = elim (Bool-cases meta.is_file) [
    | inr dir ↦ rw (m, dir) (is_directory meta m dir)
    | inl file ↦ elim (Bool-cases (leb meta.len max_mirror_blob_bytes)) [
      | inr large ↦ rw (m, file, large) (too_large meta m large)
      | inl small ↦ small-FileOutcome path meta ro m r file small
    ]
  ]

  get-GetOutcome :
      (jj_path : Text) (rel : List Text)
      → parse_safe_mirror_rel jj_path ≡ ok rel
      → GetOutcome disk jj_path (get_mirror_object disk jj_path)
  unfolding get_mirror_object
  get-GetOutcome jj_path rel parsed =
      let ((local, host_run, host_iff), (git, git_run, git_iff)) =
        excluded_iff AppError jj_path rel parsed in
      let m = (parse_safe_iff jj_path rel).0 parsed in
      let full = (safe-IsRelText rel m.some_segment m.safe).not_empty in
      elim (Bool-cases local) [
        | inl hit ↦ rw (parsed, full, host_run, hit) (host_local rel parsed (host_iff.0 hit))
        | inr shared ↦ elim (Bool-cases git) [
          | inl hit ↦
              let (r, e) = git_iff.0 hit in
              rw (parsed, full, host_run, shared, git_run, hit) (git_store rel r parsed e)
          | inr no_git ↦
              let run : get_mirror_object disk jj_path ≡ read_mirror_file disk (join b'/' rel) =
                rw (parsed, full, host_run, shared, git_run, no_git) refl in
              rw run (
                accepted rel _ parsed (λ h. absurd (true_ne_false local (host_iff.1 h) shared))
                  (λ r e. true_ne_false git (git_iff.1 (r, e)) no_git)
                  (read-FileOutcome (join b'/' rel) _ _ refl refl))
        ]
      ]

  -- However a GET of the mirror ends, it is one of the cases of `GetOutcome`, as long as the length
  -- of a file is the number of its bytes: a path that is refused by the parser or excluded gets 400,
  -- any other gets the bytes of its file, or 404, 500 or 400 for a file that is missing, unreadable or
  -- too large, and the only panic is for a path that is there and is not a file.
  pub get_mirror_object-GetOutcome :
      (jj_path : Text) → GetOutcome disk jj_path (get_mirror_object disk jj_path)
  unfolding get_mirror_object
  get_mirror_object-GetOutcome jj_path = elim (Result-cases (parse_safe_mirror_rel jj_path)) [
    | inl (rel, parsed) ↦ get-GetOutcome jj_path rel parsed
    | inr (inl (e, bad)) ↦ rw bad (refused e bad)
    | inr (inr bad) ↦ absurd (parse_safe-ne-panic jj_path bad)
  ]
