-- ===== src/Client/Sync/Checks.antt =====
-- The final check of `sync.rs` on indexes and entries that agree.
use dojjo.Prelude.Text.Order.{text_order, text_eq_iff}
use dojjo.Prelude.{
  ◌≤◌, List, [], ◌∷◌, ◌≡◌, inl, inr, refl, sym, ap, ◌∙◌, arith, Bool, true, false, Option, none,
  some, is_some, if◌then◌else◌, nat_eq_iff, ok, Bool-cases,
}
use dojjo.Prelude.Order.{◌==◌}
use dojjo.Prelude.Order.Sets.{contains, count}
use dojjo.Prelude.Order.Laws.{contains-eq-count}
use dojjo.Prelude.Dict.{Dict, keys, lookup, contains-keys}
use dojjo.Prelude.Text.{Text}
use dojjo.Mirror.Operation.{Bytes}
use dojjo.Client.Manifest.{Manifest, ManifestEntry, ClientError}
use dojjo.Client.RepoWalk.{is_local_only, sha256_index}
use dojjo.Client.RepoWalk.Index.{is_listed, digest, sha256_index-lookup}
use dojjo.Client.Sync.{Index, needs_pull, verify_entry, verify_entries, verify_known, verify_local}
use dojjo.Client.Sync.Pulls.{HasEntry}

pub verify_entries-ok :
    (index : Index) (d : Dict Text ManifestEntry)
    → ((p : Text) → count p (keys d) ≤ 1)
    → ((p : Text) (ent : ManifestEntry)
        → lookup p d ≡ some ent
        → (is_local_only {E = ClientError} p ≡ ok false)
          × (lookup p index ≡ some (ent.size, ent.sha256)))
    → verify_entries index d ≡ ok tt
unfolding verify_entries verify_entry lookup
verify_entries-ok index [] unique good = refl
verify_entries-ok index ((q, e) ∷ d) unique good =
    let (shared, here) = good q e (rw ((text_eq_iff q q).1 refl) refl) in
    let rest =
      verify_entries-ok index d (λ p. ground (arith, unique p))
        (λ p ent at. good p ent (elim (Bool-cases (q == p)) [
          | inl same ↦
              absurd (
                ground (arith, same, unique p, contains-eq-count (keys d) p, contains-keys p d, at))
          | inr other ↦ rw other at
        ])) in
    rw (shared, here, (text_eq_iff e.sha256 e.sha256).1 refl, (nat_eq_iff e.size e.size).1 refl)
      rest

pub verify_local-ok :
    (man : Manifest) (ps : List Text)
    → ((p : Text)
        → contains ps p ≡ true
        → (is_local_only {E = ClientError} p ≡ ok false) × (is_some (lookup p man.entries) ≡ true))
    → verify_local man ps ≡ ok tt
unfolding verify_local verify_known
verify_local-ok man [] good = refl
verify_local-ok man (q ∷ ps) good =
    let (shared, known) = good q (ground (arith, text_eq_iff q q)) in
    rw (shared, known) (verify_local-ok man ps (λ p h. good p (ground (arith, h))))

-- A listed file is in the index with its size and digest.
pub indexed_entry :
    (sha256_hex : Bytes → Text) (unreadable : Text → Bool) (files : Dict Text Bytes) (index : Index)
    (p : Text) (ent : ManifestEntry)
    → sha256_index sha256_hex unreadable files ≡ ok index
    → is_listed p ≡ true
    → HasEntry sha256_hex files p ent
    → lookup p index ≡ some (ent.size, ent.sha256)
indexed_entry sha256_hex unreadable files index p ent indexed listed (b, here, (size, sha)) =
    sha256_index-lookup sha256_hex unreadable files index p indexed
    ∙ rw (listed, here) (rw (size, sha) refl)

-- What is in the index is listed, and is a file.
pub index-listed :
    (sha256_hex : Bytes → Text) (unreadable : Text → Bool) (files : Dict Text Bytes) (index : Index)
    (p : Text)
    → sha256_index sha256_hex unreadable files ≡ ok index
    → contains (keys index) p ≡ true
    → (is_listed p ≡ true) × (is_some (lookup p files) ≡ true)
index-listed sha256_hex unreadable files index p indexed h =
    let there : is_some (if is_listed p then digest sha256_hex (lookup p files) else none) ≡ true =
      sym (ap is_some (sha256_index-lookup sha256_hex unreadable files index p indexed))
      ∙ sym (contains-keys p index)
      ∙ h in
    (ground (arith, there), ground (arith, there))

pub unneeded_digest :
    (sha256_hex : Bytes → Text) (listed : Bool) (o : Option Bytes) (ent : ManifestEntry)
    → needs_pull (if listed then digest sha256_hex o else none) ent ≡ false
    → (b : Bytes) × (o ≡ some b) × (sha256_hex b ≡ ent.sha256)
unneeded_digest sha256_hex false o ent h = absurd cc
unneeded_digest sha256_hex true none ent h = absurd cc
unneeded_digest sha256_hex true (some b) ent h =
    (b, refl, (text_eq_iff (sha256_hex b) ent.sha256).0 (ground (arith, h)))
