-- ===== src/Server/Finalize/Panics.antt =====
-- When an assertion of `finalize_into_mirror` fails.
use dojjo.Prelude.{
  List, [], ◌≡◌, ◌≢◌, ◌⊎◌, ◌↔◌, inl, inr, refl, ap, ◌∙◌, true, false, not, some, ok, panic, arith,
  List-cases, nat_eq,
}
use dojjo.Mirror.Exclude.Paths.{excluded_iff}
use dojjo.Prelude.Order.{◌==◌}
use dojjo.Prelude.Text.{Text, is_empty, join}
use dojjo.Prelude.Text.Order.{text_order, text_eq, text_eq_iff}
use dojjo.Prelude.Action.{Action, lift, check, ensure, ◌>>=◌, ◌>>◌, after_read}
use dojjo.Tus.Types.{UploadId}
use dojjo.Tus.Handler.Guards.{is_empty-nonempty}
use dojjo.Mirror.Path.{parse_safe_mirror_rel}
use dojjo.Mirror.Path.Laws.{parse_safe-ne-panic}
use dojjo.Mirror.Exclude.{
  jj_repo_rel_excluded_from_mirror, jj_repo_rel_excluded_from_git_file_mirror,
}
use dojjo.Server.Store.{
  IsPlain, raw_meta, value_of, blank, PersistedMeta, Dojo, Faults, data_file, meta_file, read_meta,
  data_len,
}
use dojjo.Server.Store.View.{IsConsistent, holds_of, MetaFile-cases}
use dojjo.Server.Store.Frame.{check-keeps, read_meta-keeps, read_meta-ok, data_len-keeps}
use dojjo.Server.Finalize.{
  FinalizeError, FinalizeFaults, io, jj_rel_path_metadata_key, or_fail, map_path_error, from_store,
  missing_jj_rel_path, missing_declared_length, length_mismatch, git_store_path_rejected,
  workspace_store_path_rejected, finalize_into_mirror,
}
use dojjo.Server.Finalize.Stages.{measure_and_move, place}
use dojjo.Server.Finalize.Moves.{or_fail-ok, map_path_error-ok, map_store_error-ok, ensure-keeps}
use dojjo.Server.Finalize.Calm.{
  check-ne-panic, ensure-ne-panic, or_fail-ne-panic, map_path_error-panic, map_store_error-panic,
  data_len-ne-panic, move_into_mirror-ne-panic, ok-ne-panic, joined_nonempty, nonempty-not,
}

-- The metadata of the upload gives an empty path.
pub record HasEmptyPath (id : UploadId) (s : Dojo) : Type 0 where
  pub meta : PersistedMeta
  pub has_meta : meta_file (s.uploads id) ≡ some meta
  pub has_empty_path : meta.metadata jj_rel_path_metadata_key ≡ some []

-- The file `meta.json` can be read, and is empty or gives an empty path.
pub record IsBroken (f : Faults) (id : UploadId) (s : Dojo) : Type 0 where
  pub readable : f.read_meta ≡ false
  pub why : (raw_meta (s.uploads id) ≡ some blank) ⊎ HasEmptyPath id s

module _ (f : Faults) (g : FinalizeFaults) (id : UploadId) (s : Dojo) (inv : IsConsistent s)
    (plain : IsPlain id) where
  read_meta-panic : (read_meta f id s).0 ≡ panic → IsBroken f id s
  unfolding read_meta
  read_meta-panic h = elim (MetaFile-cases (raw_meta (s.uploads id))) [
    | inl gone ↦ absurd (ground (arith, h, gone))
    | inr (inl empty) ↦ record { readable = ground (arith, h); why = inl empty }
    | inr (inr (inl cut)) ↦ absurd (ground (arith, h, cut))
    | inr (inr (inr (m, raw))) ↦
        let full : is_empty m.id ≡ false =
          rw (inv.named id m (ap value_of raw)) (is_empty-nonempty id plain.some_char) in
        absurd (ground (arith, h, raw, full))
  ]

  read_meta-readable : (m : PersistedMeta) → (read_meta f id s).0 ≡ ok m → f.read_meta ≡ false
  unfolding read_meta
  read_meta-readable m h = ground (arith, h)

  -- The rest of `finalize_into_mirror`, after a part that only reads and panics only on what is broken.
  after_any :
      {A : Type 0} (m : Action Dojo FinalizeError A)
      (next : A → Action Dojo FinalizeError (Unit {0}))
      → (m s).1 ≡ s
      → ((m s).0 ≡ panic → IsBroken f id s)
      → ((a : A) → (m s).0 ≡ ok a → (next a s).0 ≡ panic → IsBroken f id s)
      → ((m >>= next) s).0 ≡ panic
      → IsBroken f id s
  after_any m next keeps panics k =
      after_read (λ r. r.0 ≡ panic → IsBroken f id s) m next s keeps (λ e _ h. absurd cc)
        (λ h _. panics h) k

  after :
      {A : Type 0} (m : Action Dojo FinalizeError A)
      (next : A → Action Dojo FinalizeError (Unit {0}))
      → (m s).1 ≡ s
      → (m s).0 ≢ panic
      → ((a : A) → (m s).0 ≡ ok a → (next a s).0 ≡ panic → IsBroken f id s)
      → ((m >>= next) s).0 ≡ panic
      → IsBroken f id s
  after m next keeps calm k = after_any m next keeps (λ h. absurd (calm h)) k

  measured_lem :
      (m : PersistedMeta) (dest : Text)
      → (measure_and_move f g id m dest s).0 ≡ panic
      → IsBroken f id s
  measured_lem m dest =
      after (from_store (data_len f id)) _ (data_len-keeps s f id)
        (λ h. data_len-ne-panic f id s (map_store_error-panic _ h))
        λ actual_len sized.
          after (lift (or_fail m.declared missing_declared_length)) _ refl
            (or_fail-ne-panic m.declared missing_declared_length)
            λ expected declared.
              after (ensure (nat_eq actual_len expected) length_mismatch) _
                (ensure-keeps s (nat_eq actual_len expected) _)
                (ensure-ne-panic s (nat_eq actual_len expected) _)
                λ _ equal.
                  after (λ t. (or_fail (data_file (t.uploads id)) io, t)) _ refl
                    (or_fail-ne-panic (data_file (s.uploads id)) io)
                    λ bytes has_data h. absurd (move_into_mirror-ne-panic g id dest bytes s h)

  placed_lem :
      (m : PersistedMeta) (raw : Text) (rel : List Text)
      → parse_safe_mirror_rel raw ≡ ok rel
      → (place f g id m rel s).0 ≡ panic
      → IsBroken f id s
  placed_lem m raw rel parsed =
      let dest = join b'/' rel in
      let ((_, host_run, _), (_, git_run, _)) = excluded_iff FinalizeError raw rel parsed in
      after (check (not (is_empty dest))) _ (check-keeps s FinalizeError (not (is_empty dest)))
        (check-ne-panic s _ (nonempty-not _ (joined_nonempty raw rel parsed)))
        λ _ some_dest.
          after (lift (jj_repo_rel_excluded_from_mirror dest)) _ refl (λ h. ok-ne-panic host_run h)
            λ local is_local.
              after (ensure (not local) workspace_store_path_rejected) _
                (ensure-keeps s (not local) _) (ensure-ne-panic s (not local) _)
                λ _ not_local.
                  after (lift (jj_repo_rel_excluded_from_git_file_mirror dest)) _ refl
                    (λ h. ok-ne-panic git_run h)
                    λ git is_git.
                      after (ensure (not git) git_store_path_rejected) _
                        (ensure-keeps s (not git) _) (ensure-ne-panic s (not git) _)
                        λ _ not_git. measured_lem m dest

  -- The first part of the metadata's path on: a panic there means that it is empty.
  path_lem :
      (m : PersistedMeta) (raw : Text)
      → (raw ≡ [] → IsBroken f id s)
      → ((check (not (is_empty raw))
            >> (lift (map_path_error (parse_safe_mirror_rel raw)) >>= place f g id m))
          s).0
        ≡ panic
      → IsBroken f id s
  path_lem m raw empty = elim (List-cases raw) [
    | inl e ↦ λ _. empty e
    | inr (c, cs, e) ↦
        after (check (not (is_empty raw))) _ (check-keeps s FinalizeError (not (is_empty raw)))
          (check-ne-panic s _ (ap (λ t. not (is_empty t)) e))
          λ _ some_path.
            after (lift (map_path_error (parse_safe_mirror_rel raw))) _ refl
              (λ h. parse_safe-ne-panic raw (map_path_error-panic _ h))
              λ rel parsed. placed_lem m raw rel (map_path_error-ok _ rel parsed)
  ]

  panic-IsBroken : (finalize_into_mirror f g id s).0 ≡ panic → IsBroken f id s
  unfolding finalize_into_mirror
  panic-IsBroken =
      after (check (not (is_empty id))) _ (check-keeps s FinalizeError (not (is_empty id)))
        (check-ne-panic s _ (nonempty-not _ (is_empty-nonempty id plain.some_char)))
        λ _ named.
          after_any (from_store (read_meta f id)) _ (read_meta-keeps s f id)
            (λ h. read_meta-panic (map_store_error-panic _ h))
            λ m got.
              let has_meta = read_meta-ok s f id m (map_store_error-ok _ m got) in
              after (check (m.id == id)) _ (check-keeps s FinalizeError (m.id == id))
                (check-ne-panic s (m.id == id) ((text_eq_iff m.id id).1 (inv.named id m has_meta)))
                λ _ same.
                  after (lift (or_fail (m.metadata jj_rel_path_metadata_key) missing_jj_rel_path)) _
                    refl (or_fail-ne-panic _ missing_jj_rel_path)
                    λ raw has_path. path_lem m raw λ e. record {
                      readable = read_meta-readable m (map_store_error-ok _ m got);
                      why = inr (record {
                        meta = m;
                        has_meta = has_meta;
                        has_empty_path = or_fail-ok _ missing_jj_rel_path raw has_path ∙ ap some e;
                      });
                    }

  broken_panics : IsBroken f id s → (finalize_into_mirror f g id s).0 ≡ panic
  unfolding finalize_into_mirror read_meta
  broken_panics bad = elim bad.why [
    | inl empty ↦ rw (is_empty-nonempty id plain.some_char, bad.readable, empty) refl
    | inr path ↦
        let raw = holds_of (raw_meta (s.uploads id)) path.meta path.has_meta in
        let same : path.meta.id ≡ id = inv.named id path.meta path.has_meta in
        let full : is_empty path.meta.id ≡ false = rw same (is_empty-nonempty id plain.some_char) in
        let here : text_eq path.meta.id id ≡ true = (text_eq_iff path.meta.id id).1 same in
        rw
          (is_empty-nonempty id plain.some_char, bad.readable, raw, full, here, path.has_empty_path)
          refl
  ]

-- On a dojo whose files agree with one another, an assertion of `finalize_into_mirror` on a plain
-- identifier fails exactly if `meta.json` can be read and is an empty file, or holds metadata that
-- give an empty `jj_rel_path`.
pub finalize-panic_iff :
    (f : Faults) (g : FinalizeFaults) (id : UploadId) (s : Dojo)
    → IsConsistent s
    → IsPlain id
    → ((finalize_into_mirror f g id s).0 ≡ panic) ↔ IsBroken f id s
finalize-panic_iff f g id s inv plain =
    (panic-IsBroken f g id s inv plain, broken_panics f g id s inv plain)
