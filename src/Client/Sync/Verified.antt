-- ===== src/Client/Sync/Verified.antt =====
-- What `verify_local_matches_manifest` of client/src/sync.rs shows of the local files.
use dojjo.Prelude.Text.Order.{text_order, text_eq_iff}
use dojjo.Prelude.{
  ℕ, List, [], ◌∷◌, ◌≡◌, refl, sym, ap, ◌∙◌, inl, inr, arith, Bool, true, false, not, Option, none,
  some, is_some, if◌then◌else◌, nat_eq, nat_eq_iff, length, ok, assert, guard, ◌>>=◌, ◌>>◌,
  bind_inv, ok-injective, guard-eq-ok, assert-eq-ok, Bool-cases, Option-cases,
}
use dojjo.Prelude.Order.{◌==◌}
use dojjo.Prelude.Order.Sets.{contains}
use dojjo.Prelude.Dict.{Dict, keys, lookup, contains-keys}
use dojjo.Prelude.Text.{Text, is_empty}
use dojjo.Mirror.Operation.{Bytes}
use dojjo.Client.Manifest.{
  Manifest, ManifestEntry, ClientError, missing_server_path, after_sync_sha_mismatch,
  after_sync_size_mismatch, or_context,
}
use dojjo.Client.RepoWalk.{is_scanned, is_local_only, sha256_index}
use dojjo.Client.RepoWalk.Index.{is_listed, digest, sha256_index-lookup}
use dojjo.Client.Sync.{
  Index, verify_entry, verify_entries, verify_known, verify_local, verify_local_matches_manifest,
}

at_false {ℓ} :
    {A : Type ℓ} (b : Bool) (x y : A) {z : A}
    → b ≡ false
    → (elim b [ true ↦ x | false ↦ y ]) ≡ z
    → y ≡ z
at_false true x y e h = cc
at_false false x y e h = h

-- The local files are those of the manifest, as far as the mirror is concerned.
pub record IsMirrored (sha256_hex : Bytes → Text) (files : Dict Text Bytes) (man : Manifest)
    : Type 0 where
  pub fetched :
      (p : Text) (ent : ManifestEntry)
      → lookup p man.entries ≡ some ent
      → is_local_only {E = ClientError} p ≡ ok false
      → (b : Bytes) × (lookup p files ≡ some b)
        × (length b ≡ ent.size)
        × (sha256_hex b ≡ ent.sha256)
  pub pruned : (p : Text) → is_listed p ≡ true → lookup p man.entries ≡ none → lookup p files ≡ none

pub or_context-ok :
    {A : Type 0} (o : Option A) (e : ClientError) {a : A} → or_context o e ≡ ok a → o ≡ some a
or_context-ok none e h = cc
or_context-ok (some a) e h = ap some (ok-injective h)

pub some-injective {ℓ} : {A : Type ℓ} {a b : A} → some a ≡ some b → a ≡ b
some-injective h = cc

verify_entry-lookup :
    (index : Index) (p : Text) (ent : ManifestEntry)
    → verify_entry index p ent ≡ ok tt
    → is_local_only {E = ClientError} p ≡ ok false
    → lookup p index ≡ some (ent.size, ent.sha256)
unfolding verify_entry
verify_entry-lookup index p ent h shared =
    let (skip, test, h1) = bind_inv (is_local_only p) _ h in
    let rest : or_context (lookup p index) missing_server_path >>= (λ found.
      guard (found.1 == ent.sha256) after_sync_sha_mismatch
      >> guard (nat_eq found.0 ent.size) after_sync_size_mismatch)
        ≡ ok tt =
      at_false skip _ _ (ok-injective (sym test ∙ shared)) h1 in
    let (found, here, h2) = bind_inv (or_context (lookup p index) missing_server_path) _ rest in
    let (u, sha, h3) = bind_inv (guard (found.1 == ent.sha256) after_sync_sha_mismatch) _ h2 in
    let same_sha = (text_eq_iff found.1 ent.sha256).0 (guard-eq-ok _ _ sha) in
    let same_size = (nat_eq_iff found.0 ent.size).0 (guard-eq-ok _ _ h3) in
    or_context-ok (lookup p index) missing_server_path here
    ∙ ap some (ap (λ n. (n, found.1)) same_size ∙ ap (λ t. (ent.size, t)) same_sha)

verify_entries-lookup :
    (index : Index) (d : Dict Text ManifestEntry) (p : Text) (ent : ManifestEntry)
    → verify_entries index d ≡ ok tt
    → lookup p d ≡ some ent
    → is_local_only {E = ClientError} p ≡ ok false
    → lookup p index ≡ some (ent.size, ent.sha256)
unfolding verify_entries lookup
verify_entries-lookup index [] p ent h k shared = cc
verify_entries-lookup index ((q, e) ∷ d) p ent h k shared =
    let (u, first, h1) = bind_inv (verify_entry index q e) _ h in
    elim (Bool-cases (q == p)) [
      | inl same ↦
          let hit : ◌≡◌ {A = Option ManifestEntry} (some e) (some ent) = rw same at k in
          let entry : e ≡ ent = some-injective hit in
          let name = (text_eq_iff q p).0 same in
          let moved : verify_entry index p ent ≡ verify_entry index q e = rw (name, entry) refl in
          verify_entry-lookup index p ent (moved ∙ first) shared
      | inr other ↦ verify_entries-lookup index d p ent h1 (rw other at k) shared
    ]

verify_known-lookup :
    (man : Manifest) (p : Text)
    → verify_known man p ≡ ok tt
    → is_local_only {E = ClientError} p ≡ ok false
    → is_some (lookup p man.entries) ≡ true
unfolding verify_known
verify_known-lookup man p h shared =
    let (skip, test, h1) = bind_inv (is_local_only p) _ h in
    assert-eq-ok (is_some (lookup p man.entries))
      (at_false skip _ _ (ok-injective (sym test ∙ shared)) h1)

verify_local-lookup :
    (man : Manifest) (ps : List Text) (p : Text)
    → verify_local man ps ≡ ok tt
    → contains ps p ≡ true
    → is_local_only {E = ClientError} p ≡ ok false
    → is_some (lookup p man.entries) ≡ true
unfolding verify_local
verify_local-lookup man [] p h k shared = cc
verify_local-lookup man (q ∷ ps) p h k shared =
    let (u, first, h1) = bind_inv (verify_known man q) _ h in
    elim (Bool-cases (q == p)) [
      | inl same ↦
          let name : verify_known man p ≡ verify_known man q = rw ((text_eq_iff q p).0 same) refl in
          verify_known-lookup man p (name ∙ first) shared
      | inr other ↦ verify_local-lookup man ps p h1 (rw other at k) shared
    ]

-- A path that the walk lists is not local to the machine.
pub listed_shared : (p : Text) → is_listed p ≡ true → is_local_only {E = ClientError} p ≡ ok false
unfolding is_scanned
listed_shared p h = ground (arith, h)

digest_inv :
    (sha256_hex : Bytes → Text) (listed : Bool) (o : Option Bytes) (size : ℕ) (sha : Text)
    → (if listed then digest sha256_hex o else none) ≡ some (size, sha)
    → (b : Bytes) × (o ≡ some b) × (length b ≡ size) × (sha256_hex b ≡ sha)
digest_inv sha256_hex false o size sha h = cc
digest_inv sha256_hex true none size sha h = cc
digest_inv sha256_hex true (some b) size sha h =
    let pair = some-injective h in (b, refl, ap (λ x. x.0) pair, ap (λ x. x.1) pair)

-- An index that `verify_local_matches_manifest` accepts shows that the files are those of the manifest.
pub verify-IsMirrored :
    (sha256_hex : Bytes → Text) (unreadable : Text → Bool) (files : Dict Text Bytes)
    (man : Manifest) (index : Index)
    → sha256_index sha256_hex unreadable files ≡ ok index
    → verify_local_matches_manifest index man ≡ ok tt
    → IsMirrored sha256_hex files man
unfolding verify_local_matches_manifest
verify-IsMirrored sha256_hex unreadable files man index indexed verified =
    let (u, named, h1) = bind_inv (assert (not (is_empty man.revision))) _ verified in
    let (v, entries, h2) = bind_inv (verify_entries index man.entries) _ h1 in
    let at = sha256_index-lookup sha256_hex unreadable files index in
    record {
      fetched = λ p ent here shared.
          digest_inv sha256_hex (is_listed p) (lookup p files) ent.size ent.sha256 (
            sym (at p indexed) ∙ verify_entries-lookup index man.entries p ent entries here shared);
      pruned = λ p listed gone. elim (Option-cases (lookup p files)) [
        | inl none_there ↦ none_there
        | inr (b, there) ↦
            let listed_at : lookup p index ≡ some (length b, sha256_hex b) =
              at p indexed ∙ rw (listed, there) refl in
            let known =
              verify_local-lookup man (keys index) p h2 (contains-keys p index ∙ rw listed_at refl)
                (listed_shared p listed) in
            let unknown : is_some (lookup p man.entries) ≡ false = rw gone refl in cc
      ];
    }
