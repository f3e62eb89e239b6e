-- ===== src/Server/Finalize/Download.antt =====
-- A finalized upload is what a GET of the mirror returns.
use dojjo.Prelude.{
  List, ◌≡◌, ◌⊎◌, inl, inr, refl, sym, ap, ◌∙◌, true, false, Option, none, some, Result, ok, err,
  nat_eq_iff, leb, length, if◌then◌else◌, Bool-cases, ok-injective,
}
use dojjo.Prelude.Order.Sets.{update}
use dojjo.Prelude.Text.{Text, join}
use dojjo.Prelude.Text.Order.{text_order}
use dojjo.Tus.Types.{Bytes, UploadId}
use dojjo.Mirror.Exclude.{
  jj_repo_rel_excluded_from_mirror, jj_repo_rel_excluded_from_git_file_mirror,
}
use dojjo.Mirror.Exclude.Paths.{excluded_iff}
use dojjo.Mirror.Path.{parse_safe_mirror_rel}
use dojjo.Server.Store.{PersistedMeta, IsPlain, Dojo, Faults, meta_file, data_file}
use dojjo.Server.Store.Append.{eq_refl}
use dojjo.Server.Finalize.{
  FinalizeError, FinalizeFaults, jj_rel_path_metadata_key, finalize_into_mirror,
}
use dojjo.Server.Finalize.Calm.{joined_nonempty}
use dojjo.Server.Finalize.Moved.{IsReady, FinalizeRun, refused, moved}
use dojjo.Server.Finalize.Moves.{finalize_into_mirror-FinalizeRun}
use dojjo.Server.MirrorGet.{
  AppError, ReadError, FileMetadata, MirrorDisk, bad_request, no_such_file, max_mirror_blob_bytes,
  read_mirror_file, get_mirror_object,
}

abbrev pub metadata_of : Option Bytes → ReadError ⊎ FileMetadata
metadata_of none = inl no_such_file
metadata_of (some b) = inr (record { is_file = true; len = length b })

abbrev pub bytes_of : Option Bytes → ReadError ⊎ Bytes
bytes_of none = inl no_such_file
bytes_of (some b) = inr b

-- The files of a dojo's mirror, on a disk on which nothing fails.
abbrev pub mirror_disk : Dojo → MirrorDisk
mirror_disk s = record {
  metadata = λ path. metadata_of (s.mirror path);
  read = λ path. bytes_of (s.mirror path);
}

-- What is returned of a file.
abbrev pub within_cap : Bytes → Result AppError Bytes
within_cap bytes = if leb (length bytes) max_mirror_blob_bytes then ok bytes else err bad_request

read_lem :
    (s : Dojo) (path : Text) (bytes : Bytes)
    → s.mirror path ≡ some bytes
    → read_mirror_file (mirror_disk s) path ≡ within_cap bytes
unfolding read_mirror_file
read_lem s path bytes here = elim (Bool-cases (leb (length bytes) max_mirror_blob_bytes)) [
  | inl small ↦ rw (here, small, (nat_eq_iff (length bytes) (length bytes)).1 refl) refl
  | inr large ↦ rw (here, large) refl
]

-- A path that is not excluded for one type of error is not for another.
shared_lem :
    (raw : Text) (rel : List Text)
    → parse_safe_mirror_rel raw ≡ ok rel
    → jj_repo_rel_excluded_from_mirror {E = FinalizeError} (join b'/' rel) ≡ ok false
    → jj_repo_rel_excluded_from_git_file_mirror {E = FinalizeError} (join b'/' rel) ≡ ok false
    → (jj_repo_rel_excluded_from_mirror {E = AppError} (join b'/' rel) ≡ ok false)
      × (jj_repo_rel_excluded_from_git_file_mirror {E = AppError} (join b'/' rel) ≡ ok false)
shared_lem raw rel parsed no_host no_git =
    let ((h1, host1, iff1), (g1, git1, giff1)) = excluded_iff FinalizeError raw rel parsed in
    let ((h2, host2, iff2), (g2, git2, giff2)) = excluded_iff AppError raw rel parsed in
    let h1_no : h1 ≡ false = ok-injective (sym host1 ∙ no_host) in
    let g1_no : g1 ≡ false = ok-injective (sym git1 ∙ no_git) in
    (
      elim (Bool-cases h2) [
        | inr shared ↦ host2 ∙ ap ok shared
        | inl hit ↦ let bad = iff1.1 (iff2.0 hit) in absurd cc
      ],
      elim (Bool-cases g2) [
        | inr shared ↦ git2 ∙ ap ok shared
        | inl hit ↦ let bad = giff1.1 (giff2.0 hit) in absurd cc
      ],
    )

module _ (id : UploadId) (s : Dojo) where
  -- The upload had a path and bytes, and a GET of that path returns these.
  pub record IsServed (s' : Dojo) : Type 0 where
    pub meta : PersistedMeta
    pub raw : Text
    pub bytes : Bytes
    pub had_meta : meta_file (s.uploads id) ≡ some meta
    pub had_path : meta.metadata jj_rel_path_metadata_key ≡ some raw
    pub had_data : data_file (s.uploads id) ≡ some bytes
    pub got : get_mirror_object (mirror_disk s') raw ≡ within_cap bytes

  get_lem :
      (s' : Dojo) (dest : Text) (bytes : Bytes) (ready : IsReady id s dest bytes)
      → s'.mirror ≡ update s.mirror dest bytes
      → get_mirror_object (mirror_disk s') ready.raw ≡ within_cap bytes
  unfolding get_mirror_object
  get_lem s' dest bytes ready mirrored =
      let place = ready.is_dest in
      let (host, git) =
        shared_lem ready.raw ready.rel ready.is_parsed
          (ap (λ p. jj_repo_rel_excluded_from_mirror {E = FinalizeError} p) place
            ∙ ready.not_host_local)
          (ap (λ p. jj_repo_rel_excluded_from_git_file_mirror {E = FinalizeError} p) place
            ∙ ready.not_git_store) in
      let full = joined_nonempty ready.raw ready.rel ready.is_parsed in
      let here : s'.mirror (join b'/' ready.rel) ≡ some bytes =
        ap s'.mirror place ∙ ap (λ mirror. mirror dest) mirrored ∙ rw (eq_refl dest) refl in
      rw (ready.is_parsed, full, host, git) (read_lem s' (join b'/' ready.rel) bytes here)

  run-IsServed :
      (r : Result FinalizeError (Unit {0}) × Dojo) → FinalizeRun id s r → r.0 ≡ ok tt → IsServed r.1
  run-IsServed r (refused e ne) done = absurd (ne done)
  run-IsServed r (moved e s' dest bytes ready is_moved gone) done = record {
    meta = ready.meta;
    raw = ready.raw;
    bytes = bytes;
    had_meta = ready.has_meta;
    had_path = ready.has_path;
    had_data = ready.has_data;
    got = get_lem s' dest bytes ready is_moved.mirrored;
  }

  -- If `finalize_into_mirror` of a plain identifier succeeds, a GET of the path that the upload's
  -- metadata give then returns the bytes that were uploaded, or 400 where they are more than the cap
  -- of a GET, on a disk on which nothing fails.
  pub finalized-IsServed :
      (f : Faults) (g : FinalizeFaults)
      → IsPlain id
      → (finalize_into_mirror f g id s).0 ≡ ok tt
      → IsServed (finalize_into_mirror f g id s).1
  finalized-IsServed f g plain done =
      run-IsServed _ (finalize_into_mirror-FinalizeRun f g id s plain) done
