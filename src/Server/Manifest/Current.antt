-- ===== src/Server/Manifest/Current.antt =====
-- What `get_mirror_manifest` of sync-server/src/mirror_manifest.rs serves once a `sync-complete` has
-- published a manifest.
use dojjo.Prelude.Text.Order.{text_order, text_eq_iff}
use dojjo.Prelude.{
  ℕ, ◌≤◌, [], ◌∷◌, ◌++◌, ◌≡◌, refl, sym, ap, ◌∙◌, arith, Bool, true, false, not, ◌&&◌, Option, none,
  some, Result, ok, all, leb, nat_eq,
}
use dojjo.Prelude.Dict.{Dict, keys}
use dojjo.Prelude.Text.{Text, text, is_empty, is_ascii_hexdigit, is_whitespace, split}
use dojjo.Prelude.Text.Laws.{trim_plain}
use dojjo.Mirror.Operation.{Bytes, Codec}
use dojjo.Server.MirrorGet.{AppError}
use dojjo.Server.Manifest.{
  ManifestBody, build_manifest_body, validate_manifest_body, drop_quote, names_revision,
  if_none_match_includes_revision,
}
use dojjo.Server.Manifest.Built.{build-IsManifest}
use dojjo.Server.Manifest.Served.{SyncEnd, completes_inv, sync_complete-SyncEnd}
use dojjo.Server.DojoId.{assert_safe_dojo_external_id, dojo_data_dir}
use dojjo.Prelude.Order.Sets.{count}
use mathlib.Core.Path.{subst}
use dojjo.Server.Manifest.Parts.{build-IsBuilt}
use dojjo.Server.Manifest.Publish.{
  manifest_json, Serde, DojoDir, PublishFaults, ManifestReply, etag_of, get_mirror_manifest,
  post_mirror_sync_complete, read_bytes, read_published_manifest, manifest_response, not_modified,
}

and_inv : (a b : Bool) → a && b ≡ true → (a ≡ true) × (b ≡ true)
and_inv true b h = (refl, h)
and_inv false b h = cc

drop_quote-append : (s : Text) → drop_quote (s ++ text "\"") ≡ some s
unfolding drop_quote
drop_quote-append [] = refl
drop_quote-append (c ∷ []) = refl
drop_quote-append (c ∷ d ∷ s) = rw (drop_quote-append (d ∷ s)) refl

-- Neither white space nor a comma.
abbrev is_tag_char : ℕ → Bool
is_tag_char c = not (is_whitespace c) && not (nat_eq c b',')

tag_plain :
    (s : Text)
    → all is_tag_char s ≡ true
    → (all (λ c. not (is_whitespace c)) s ≡ true) × (all (λ c. not (nat_eq c b',')) s ≡ true)
tag_plain [] h = (refl, refl)
tag_plain (c ∷ s) h =
    let (here, more) = and_inv (is_tag_char c) (all is_tag_char s) h in
    let (solid, no_comma) = and_inv (not (is_whitespace c)) (not (nat_eq c b',')) here in
    let (solids, no_commas) = tag_plain s more in
    (rw (solid, solids) refl, rw (no_comma, no_commas) refl)

split_whole : (s : Text) → all (λ c. not (nat_eq c b',')) s ≡ true → split b',' s ≡ s ∷ []
unfolding split
split_whole [] h = refl
split_whole (c ∷ s) h = ground (arith, split_whole s)

hex_tag : (r : Text) → all is_ascii_hexdigit r ≡ true → all is_tag_char (r ++ text "\"") ≡ true
hex_tag [] h = refl
hex_tag (c ∷ r) h = ground (arith, hex_tag r)

-- The tag of a revision in hexadecimal names that revision.
own_tag :
    (r : Text)
    → is_empty r ≡ false
    → all is_ascii_hexdigit r ≡ true
    → if_none_match_includes_revision (b'"' ∷ (r ++ text "\"")) r ≡ ok true
unfolding if_none_match_includes_revision names_revision
own_tag r some_text hex =
    let tag = b'"' ∷ (r ++ text "\"") in
    let tag_chars : all is_tag_char tag ≡ true = hex_tag r hex in
    let (solid, no_comma) = tag_plain tag tag_chars in
    rw (some_text, split_whole tag no_comma, trim_plain tag solid)
      (rw (trim_plain tag solid, drop_quote-append r, (text_eq_iff r r).1 refl) refl)

-- What is served of a manifest, and of one that the client has already.
module _ (serde : Serde) where
  abbrev pub whole_reply : ManifestBody → ManifestReply
  whole_reply body = record {
    status = 200;
    headers = (text "etag", etag_of body) ∷ (text "content-type", text "application/json") ∷ [];
    body = serde.to_vec (manifest_json body);
  }

  abbrev pub unchanged_reply : ManifestBody → ManifestReply
  unchanged_reply body = record {
    status = 304;
    headers = (text "etag", etag_of body) ∷ [];
    body = [];
  }

-- What is relied on: JSON that is written is no empty text and is read back, visible ASCII may stand in
-- a header, and a digest is printed in hexadecimal digits.
pub record IsFaithful (sha256_hex : Bytes → Text) (serde : Serde) (valid : Text → Bool)
    : Type 0 where
  pub written : (body : ManifestBody) → is_empty (serde.to_vec (manifest_json body)) ≡ false
  pub read :
      (body : ManifestBody) → serde.from_slice (serde.to_vec (manifest_json body)) ≡ some body
  pub visible : (t : Text) → all (λ c. leb 33 c && leb c 126) t ≡ true → valid t ≡ true
  pub hex : (b : Bytes) → all is_ascii_hexdigit (sha256_hex b) ≡ true

hex_visible :
    (r : Text)
    → all is_ascii_hexdigit r ≡ true
    → all (λ c. leb 33 c && leb c 126) (r ++ text "\"") ≡ true
hex_visible [] h = refl
hex_visible (c ∷ r) h = ground (arith, hex_visible r)

module _ (c : Codec) (sha256_hex : Bytes → Text) (serde : Serde) (f : PublishFaults)
    (valid : Text → Bool) (faithful : IsFaithful sha256_hex serde valid) where
  valid_tag :
      (files : Dict Text Bytes) (body : ManifestBody)
      → build_manifest_body c sha256_hex files ≡ ok body
      → (all is_ascii_hexdigit body.revision ≡ true) × (valid (etag_of body) ≡ true)
  valid_tag files body h =
      let built = build-IsBuilt c sha256_hex files body h in
      let hex : all is_ascii_hexdigit body.revision ≡ true =
        ap (all is_ascii_hexdigit) (sym built.digested) ∙ faithful.hex built.input in
      (hex, faithful.visible (etag_of body) (hex_visible body.revision hex))

  bytes_lem :
      (body : ManifestBody) (s : DojoDir)
      → validate_manifest_body body ≡ ok tt
      → read_bytes serde (some (serde.to_vec (manifest_json body))) s ≡ (ok (some body), s)
  unfolding read_bytes
  bytes_lem body s accepted = rw (faithful.written body, faithful.read body, accepted) refl

  read_lem :
      (body : ManifestBody) (s : DojoDir)
      → s.published ≡ some (serde.to_vec (manifest_json body))
      → validate_manifest_body body ≡ ok tt
      → f.read ≡ false
      → read_published_manifest c sha256_hex serde f s ≡ (ok (some body), s)
  unfolding read_published_manifest
  read_lem body s there accepted works =
      rw works (ap (λ bytes. read_bytes serde bytes s) there ∙ bytes_lem body s accepted)

  whole_lem :
      (body : ManifestBody) (s : DojoDir)
      → is_empty body.revision ≡ false
      → valid (etag_of body) ≡ true
      → manifest_response serde valid body s ≡ (ok (whole_reply serde body), s)
  unfolding manifest_response
  whole_lem body s named tag = rw (named, faithful.written body, tag) refl

  unchanged_lem :
      (body : ManifestBody) (s : DojoDir)
      → valid (etag_of body) ≡ true
      → not_modified serde valid body s ≡ (ok (unchanged_reply serde body), s)
  unfolding not_modified
  unchanged_lem body s tag = rw tag refl

  module _ (find_dojo : Text → Option Bool) (dojo_id : Text)
      (safe : assert_safe_dojo_external_id dojo_id ≡ ok tt)
      (found : dojo_data_dir find_dojo dojo_id ≡ ok tt) where
    abbrev pub get_current : Option Text → DojoDir → Result AppError ManifestReply × DojoDir
    get_current = get_mirror_manifest c sha256_hex serde f valid find_dojo dojo_id

    get_lem :
        (body : ManifestBody) (s : DojoDir)
        → is_empty body.revision ≡ false
        → all is_ascii_hexdigit body.revision ≡ true
        → valid (etag_of body) ≡ true
        → read_published_manifest c sha256_hex serde f s ≡ (ok (some body), s)
        → (get_current none s ≡ (ok (whole_reply serde body), s))
          × (get_current (some (etag_of body)) s ≡ (ok (unchanged_reply serde body), s))
    unfolding get_mirror_manifest
    get_lem body s named hex tag read = (
      rw (safe, found, read, named) (whole_lem body s named tag),
      rw (safe, found, read, named, own_tag body.revision named hex) (unchanged_lem body s tag),
    )

    -- Once a `sync-complete` has ended with 204, the manifest that it built of the normalized mirror is
    -- served, whatever the mirror becomes afterwards, and a request with its tag is answered by 304.
    pub published_is_served :
        (g : PublishFaults)
        (normalize : Dict Text Bytes → Result AppError (Unit {0}) × Dict Text Bytes)
        (s s1 : DojoDir) (mirror : Dict Text Bytes)
        → ((m : Dict Text Bytes) (p : Text) → count p (keys (normalize m).1) ≤ 1)
        → f.read ≡ false
        → post_mirror_sync_complete c sha256_hex serde g find_dojo dojo_id normalize s
          ≡ (ok 204, s1)
        → (body : ManifestBody) × (build_manifest_body c sha256_hex (normalize s.mirror).1
            ≡ ok body)
          × (get_current none (record s1 { mirror = mirror })
              ≡ (ok (whole_reply serde body), record s1 { mirror = mirror }))
          × (get_current (some (etag_of body)) (record s1 { mirror = mirror })
              ≡ (ok (unchanged_reply serde body), record s1 { mirror = mirror }))
    published_is_served g normalize s s1 mirror unique works done =
        let (body, normal, built, published) =
          completes_inv c sha256_hex serde g normalize s (ok 204, s1)
            (subst (SyncEnd c sha256_hex serde g normalize s) done
              (sync_complete-SyncEnd c sha256_hex serde g normalize find_dojo dojo_id s))
            refl in
        let same : (normalize s.mirror).1 ≡ s1.mirror = ap (λ r. r.1) normal in
        let is =
          build-IsManifest c sha256_hex s1.mirror body
            (λ p. subst (λ m. count p (keys m) ≤ 1) same (unique s.mirror p)) built in
        let (hex, tag) = valid_tag s1.mirror body built in
        let named = (build-IsBuilt c sha256_hex s1.mirror body built).named in
        let s2 : DojoDir = record s1 { mirror = mirror } in
        let (whole, unchanged) =
          get_lem body s2 named hex tag (read_lem body s2 published is.valid works) in
        (body, ap (build_manifest_body c sha256_hex) same ∙ built, whole, unchanged)
