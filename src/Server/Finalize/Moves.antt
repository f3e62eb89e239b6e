-- ===== src/Server/Finalize/Moves.antt =====
-- What `finalize_into_mirror` does to a dojo.
use Prim.Native.Nat.{ℕ}
use dojjo.Prelude.{
  List, ◌≡◌, refl, sym, ap, ◌∙◌, Bool, true, false, not, Option, none, some, Result, ok, err, panic,
  nat_eq, nat_eq_iff, length,
}
use dojjo.Prelude.Order.{◌==◌}
use dojjo.Prelude.Text.{Text, is_empty, join}
use dojjo.Prelude.Text.Order.{text_order}
use dojjo.Prelude.Action.{Action, lift, check, ensure, ◌>>=◌, after_read}
use dojjo.Tus.Types.{Bytes, UploadId, StoreError, not_found, other}
use dojjo.Mirror.Path.{PathError, parse_safe_mirror_rel}
use dojjo.Mirror.Exclude.{
  jj_repo_rel_excluded_from_mirror, jj_repo_rel_excluded_from_git_file_mirror,
}
use dojjo.Server.Store.{
  IsPlain, PersistedMeta, Dojo, Faults, meta_file, data_file, read_meta, data_len,
}
use dojjo.Server.Store.Frame.{
  check-keeps, read_meta-keeps, read_meta-ok, data_len-keeps, data_len-ok,
}
use dojjo.Server.Finalize.{
  map_store_error, git_store_path_rejected, workspace_store_path_rejected, missing_jj_rel_path,
  length_mismatch, missing_declared_length, FinalizeError, FinalizeFaults, io,
  jj_rel_path_metadata_key, or_fail, map_path_error, from_store, finalize_into_mirror,
}
use dojjo.Server.Finalize.Stages.{measure_and_move, place}
use dojjo.Server.Finalize.Moved.{IsReady, FinalizeRun, refused, move_into_mirror-FinalizeRun}

pub or_fail-ok {ℓ} :
    {A : Type ℓ} (o : Option A) (e : FinalizeError) (a : A) → or_fail o e ≡ ok a → o ≡ some a
or_fail-ok none e a h = cc
or_fail-ok (some b) e a h = cc

pub map_path_error-ok {ℓ} :
    {A : Type ℓ} (r : Result PathError A) (a : A) → map_path_error r ≡ ok a → r ≡ ok a
map_path_error-ok (ok b) a h = cc
map_path_error-ok (err e) a h = cc
map_path_error-ok panic a h = cc

pub map_store_error-ok {ℓ} :
    {A : Type ℓ} (r : Result StoreError A) (a : A) → map_store_error r ≡ ok a → r ≡ ok a
map_store_error-ok (ok b) a h = cc
map_store_error-ok (err not_found) a h = cc
map_store_error-ok (err other) a h = cc
map_store_error-ok panic a h = cc

module _ (s : Dojo) where
  pub ensure-keeps : (b : Bool) (e : FinalizeError) → (ensure b e s).1 ≡ s
  ensure-keeps true e = refl
  ensure-keeps false e = refl

  pub ensure-ok : (b : Bool) (e : FinalizeError) → (ensure b e s).0 ≡ ok tt → b ≡ true
  ensure-ok true e h = refl
  ensure-ok false e h = cc

  pub ensure-not-ok : (b : Bool) (e : FinalizeError) → (ensure (not b) e s).0 ≡ ok tt → b ≡ false
  ensure-not-ok true e h = cc
  ensure-not-ok false e h = refl

  received_lem :
      (id : UploadId) (d : Option ℕ) (expected actual : ℕ) (old bytes : Bytes)
      → d ≡ some expected
      → nat_eq actual expected ≡ true
      → data_file (s.uploads id) ≡ some old
      → actual ≡ length old
      → data_file (s.uploads id) ≡ some bytes
      → d ≡ some (length bytes)
  received_lem id d expected actual old bytes declared equal before size after =
      let both : some old ≡ some bytes = sym before ∙ after in
      let same : old ≡ bytes = cc in
      declared ∙ ap some (sym ((nat_eq_iff actual expected).0 equal) ∙ size ∙ ap length same)

module _ (f : Faults) (g : FinalizeFaults) (id : UploadId) (s : Dojo) where
  -- The rest of `finalize_into_mirror`, after a part that only reads.
  after :
      {A : Type 0} (m : Action Dojo FinalizeError A)
      (next : A → Action Dojo FinalizeError (Unit {0}))
      → (m s).1 ≡ s
      → ((a : A) → (m s).0 ≡ ok a → FinalizeRun id s (next a s))
      → FinalizeRun id s ((m >>= next) s)
  after m next keeps k =
      after_read (FinalizeRun id s) m next s keeps (λ e _. refused (err e) (λ h. cc))
        (λ _. refused panic (λ h. cc)) k

  measured_lem :
      (m : PersistedMeta) (dest : Text)
      → ((bytes : Bytes)
          → data_file (s.uploads id) ≡ some bytes
          → m.declared ≡ some (length bytes)
          → IsReady id s dest bytes)
      → FinalizeRun id s (measure_and_move f g id m dest s)
  measured_lem m dest ready =
      after (from_store (data_len f id)) _ (data_len-keeps s f id) λ actual_len sized.
        after (lift (or_fail m.declared missing_declared_length)) _ refl λ expected declared.
          after (ensure (nat_eq actual_len expected) length_mismatch) _
            (ensure-keeps s (nat_eq actual_len expected) _)
            λ _ equal.
              after (λ t. (or_fail (data_file (t.uploads id)) io, t)) _ refl
                λ bytes has_data.
                  let (old, before, size) =
                    data_len-ok s f id actual_len (map_store_error-ok _ actual_len sized) in
                  let has_bytes = or_fail-ok _ io bytes has_data in
                  let received =
                    received_lem s id m.declared expected actual_len old bytes
                      (or_fail-ok _ missing_declared_length expected declared)
                      (ensure-ok s (nat_eq actual_len expected) length_mismatch equal) before size
                      has_bytes in
                  move_into_mirror-FinalizeRun id dest bytes s g (ready bytes has_bytes received)

  placed_lem :
      (m : PersistedMeta) (raw : Text) (rel : List Text)
      → meta_file (s.uploads id) ≡ some m
      → m.metadata jj_rel_path_metadata_key ≡ some raw
      → parse_safe_mirror_rel raw ≡ ok rel
      → FinalizeRun id s (place f g id m rel s)
  placed_lem m raw rel has_meta has_path parsed =
      let dest = join b'/' rel in
      after (check (not (is_empty dest))) _ (check-keeps s FinalizeError (not (is_empty dest)))
        λ _ some_dest. after (lift (jj_repo_rel_excluded_from_mirror dest)) _ refl λ local is_local.
          after (ensure (not local) workspace_store_path_rejected) _ (ensure-keeps s (not local) _)
            λ _ not_local.
              after (lift (jj_repo_rel_excluded_from_git_file_mirror dest)) _ refl λ git is_git.
                after (ensure (not git) git_store_path_rejected) _ (ensure-keeps s (not git) _)
                  λ _ not_git. measured_lem m dest λ bytes has_bytes received. record {
                    meta = m;
                    raw = raw;
                    rel = rel;
                    has_meta = has_meta;
                    has_data = has_bytes;
                    is_received = received;
                    has_path = has_path;
                    is_parsed = parsed;
                    is_dest = refl;
                    not_host_local =
                        is_local
                        ∙ ap ok (ensure-not-ok s local workspace_store_path_rejected not_local);
                    not_git_store =
                        is_git ∙ ap ok (ensure-not-ok s git git_store_path_rejected not_git);
                  }

  -- For a plain identifier, `finalize_into_mirror` either does not succeed and leaves the dojo as it was, or makes the bytes
  -- of one upload a file of the mirror, whose path is accepted and not excluded and whose length is
  -- the declared one, and takes the upload out of view. Nothing else of the mirror changes and no
  -- other upload, even where it fails half way; after a success the upload's directory is gone.
  pub finalize_into_mirror-FinalizeRun :
      IsPlain id → FinalizeRun id s (finalize_into_mirror f g id s)
  unfolding finalize_into_mirror
  finalize_into_mirror-FinalizeRun plain =
      after (check (not (is_empty id))) _ (check-keeps s FinalizeError (not (is_empty id)))
        λ _ named. after (from_store (read_meta f id)) _ (read_meta-keeps s f id) λ m got.
          after (check (m.id == id)) _ (check-keeps s FinalizeError (m.id == id)) λ _ same.
            after (lift (or_fail (m.metadata jj_rel_path_metadata_key) missing_jj_rel_path)) _ refl
              λ raw has_path.
                after (check (not (is_empty raw))) _
                  (check-keeps s FinalizeError (not (is_empty raw)))
                  λ _ some_path.
                    after (lift (map_path_error (parse_safe_mirror_rel raw))) _ refl λ rel parsed.
                      placed_lem m raw rel (read_meta-ok s f id m (map_store_error-ok _ m got))
                        (or_fail-ok _ missing_jj_rel_path raw has_path)
                        (map_path_error-ok _ rel parsed)
