-- ===== src/Server/Manifest/Parts.antt =====
-- What a successful `build_manifest_body` of sync-server/src/mirror_manifest.rs is put together from.
use mathlib.Core.Path.{subst}
use dojjo.Prelude.Text.Order.{text_order}
use dojjo.Prelude.{
  ◌≡◌, arith, true, false, not, ok, nat_eq, length, assert, bind_inv, ok-injective, assert-eq-ok,
}
use dojjo.Prelude.Dict.{Dict, lookup}
use dojjo.Prelude.Text.{Text, is_empty}
use dojjo.Mirror.Operation.{Bytes, Codec}
use dojjo.Mirror.ApplyOrder.{compute_mirror_apply_order}
use dojjo.Server.Manifest.{
  ManifestBody, map_order_error, paths_of, hashed, sort_by_path, scan_mirror_tree, compute_revision,
  build_manifest_body,
}

module _ (c : Codec) (sha256_hex : Bytes → Text) where
  pub record IsBuilt (files : Dict Text Bytes) (body : ManifestBody) : Type 0 where
    pub scanned : scan_mirror_tree c sha256_hex files ≡ ok body.entries
    pub input : Bytes
    pub digested : sha256_hex input ≡ body.revision
    pub named : is_empty body.revision ≡ false
    pub sorted :
        map_order_error (compute_mirror_apply_order c (λ p. lookup p files) (paths_of body.entries))
        ≡ ok body.apply_order
    pub whole : nat_eq (length body.apply_order) (length (paths_of body.entries)) ≡ true

  pub build-IsBuilt :
      (files : Dict Text Bytes) (body : ManifestBody)
      → build_manifest_body c sha256_hex files ≡ ok body
      → IsBuilt files body
  unfolding build_manifest_body compute_revision
  build-IsBuilt files body h =
      let (es, scanned, h1) = bind_inv (scan_mirror_tree c sha256_hex files) _ h in
      let (revision, computed, h2) = bind_inv (compute_revision c sha256_hex es) _ h1 in
      let (_, named, h3) = bind_inv (assert (not (is_empty revision))) _ h2 in
      let (order, sorted, h4) =
        bind_inv
          (map_order_error (compute_mirror_apply_order c (λ p. lookup p files) (paths_of es))) _
          h3 in
      let (_, whole, h5) = bind_inv (assert (nat_eq (length order) (length (paths_of es)))) _ h4 in
      let (input, _, digested) = bind_inv (hashed (sort_by_path es)) _ computed in
      let some_text = assert-eq-ok (not (is_empty revision)) named in
      subst (IsBuilt files) (ok-injective h5) (record {
        scanned = scanned;
        input = input;
        digested = ok-injective digested;
        named = ground (arith, some_text);
        sorted = sorted;
        whole = assert-eq-ok _ whole;
      })
