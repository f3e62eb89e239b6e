-- ===== src/Server/Manifest/Parsed.antt =====
-- The manifest between server and client: what `fetch_manifest` of client/src/manifest.rs makes of the
-- JSON that sync-server/src/mirror_manifest.rs sends.
use mathlib.Core.List.{append-nil, append_assoc}
use dojjo.Prelude.Text.Order.{text_order, text_eq, text_eq_iff}
use dojjo.Prelude.{
  ◌+◌, ◌≤◌, List, [], ◌∷◌, ◌++◌, ◌≡◌, refl, sym, ap, ◌∙◌, arith, Bool, true, false, not, Option,
  leb, nat_eq, length, All, all, is_some, ok, assert, guard, bind_inv, ok-injective, guard-eq-ok,
  assert-eq-ok,
}
use dojjo.Prelude.Order.{Order}
use dojjo.Prelude.Order.Sets.{contains, count}
use dojjo.Prelude.Order.Laws.{contains-eq-count, count-append}
use dojjo.Prelude.Dict.{Dict, keys, lookup, put, contains-keys}
use dojjo.Prelude.Text.{Text, is_empty, len, split}
use dojjo.Mirror.Operation.{Bytes, Codec}
use dojjo.Client.Manifest.{
  Manifest, ManifestEntry, parse_entry, parse_entries, parse_order, parse_manifest,
}
use dojjo.Prelude.Json.{items}
use dojjo.Mirror.Path.{parse_safe_mirror_rel}
use dojjo.Server.MirrorGet.{internal, bad_request, max_mirror_blob_bytes, or_bad_request}
use dojjo.Server.Manifest.{
  MirrorEntry, ManifestBody, paths_of, all_found, validate_manifest_body, entry_of, with_entry,
  scan_file, scan_reached, scan_mirror_tree, build_manifest_body, walk_to, is_excluded,
}
use dojjo.Server.Manifest.Built.{IsEntry, build-IsManifest}
use dojjo.Server.Manifest.Parts.{build-IsBuilt}
use dojjo.Server.Manifest.Publish.{entry_json, entries_json, texts_json, manifest_json}

abbrev pub client_entry : MirrorEntry → ManifestEntry
client_entry e = record { path = e.path; size = e.size; sha256 = e.sha256 }

abbrev pub client_entries : List MirrorEntry → Dict Text ManifestEntry
client_entries [] = []
client_entries (e ∷ es) = (e.path, client_entry e) ∷ client_entries es

-- The manifest as the client holds it.
abbrev pub client_manifest : ManifestBody → Manifest
client_manifest body = record {
  revision = body.revision;
  entries = client_entries body.entries;
  apply_order = body.apply_order;
}

put-append {ℓ κ} :
    {K : Type ℓ} {V : Type κ} ⦃o : Order K⦄ (k : K) (v : V) (d : Dict K V)
    → contains (keys d) k ≡ false
    → put k v d ≡ d ++ ((k, v) ∷ [])
unfolding put
put-append k v [] h = refl
put-append k v ((j, w) ∷ d) h = ground (arith, put-append k v d)

keys-append {ℓ κ} :
    {K : Type ℓ} {V : Type κ} (d : Dict K V) (k : K) (v : V)
    → keys (d ++ ((k, v) ∷ [])) ≡ keys d ++ (k ∷ [])
keys-append [] k v = refl
keys-append ((j, w) ∷ d) k v = rw (keys-append d k v) refl

-- What `parse_entry` asks of an entry.
abbrev IsFit : MirrorEntry → Type 0
IsFit e = (is_empty e.path ≡ false) × (nat_eq (len e.sha256) 64 ≡ true)

parse-entry_json : (e : MirrorEntry) → IsFit e → parse_entry (entry_json e) ≡ ok (client_entry e)
unfolding parse_entry text_eq
parse-entry_json e (named, hex) = rw (named, hex) refl

parse-entries_json :
    (es : List MirrorEntry) (d : Dict Text ManifestEntry)
    → All IsFit es
    → ((p : Text) → count p (keys d) + count p (paths_of es) ≤ 1)
    → parse_entries (items (entries_json es)) d ≡ ok (d ++ client_entries es)
unfolding parse_entries
parse-entries_json [] d fit unique = rw append-nil refl
parse-entries_json (e ∷ es) d (fit, more) unique =
    let absent : contains (keys d) e.path ≡ false =
      ground (arith, unique e.path, contains-eq-count (keys d) e.path, text_eq_iff e.path e.path) in
    rw (parse-entry_json e fit, put-append e.path (client_entry e) d absent)
      (parse-entries_json es (d ++ ((e.path, client_entry e) ∷ [])) more (λ p.
          rw (keys-append d e.path (client_entry e), count-append p (keys d) (e.path ∷ []))
            (ground (arith, unique p)))
        ∙ rw append_assoc refl)

parse-texts_json : (ps : List Text) → parse_order (items (texts_json ps)) ≡ ok ps
unfolding parse_order
parse-texts_json [] = refl
parse-texts_json (p ∷ ps) = rw (parse-texts_json ps) refl

keys-client_entries : (es : List MirrorEntry) → keys (client_entries es) ≡ paths_of es
keys-client_entries [] = refl
keys-client_entries (e ∷ es) = ap (λ ps. e.path ∷ ps) (keys-client_entries es)

length-client_entries : (es : List MirrorEntry) → length (client_entries es) ≡ length es
length-client_entries [] = refl
length-client_entries (e ∷ es) = omega (arith, length-client_entries es)

all_found-all :
    (es : List MirrorEntry) (ps : List Text)
    → all_found es ps ≡ ok tt
    → all (λ p. is_some (lookup p (client_entries es))) ps ≡ true
unfolding all_found
all_found-all es [] h = refl
all_found-all es (p ∷ ps) h =
    let (_, here, more) = bind_inv (guard (contains (paths_of es) p) internal) _ h in
    let found : is_some (lookup p (client_entries es)) ≡ true =
      sym (contains-keys p (client_entries es))
      ∙ ap (λ ks. contains ks p) (keys-client_entries es)
      ∙ guard-eq-ok (contains (paths_of es) p) internal here in
    rw (found, all_found-all es ps more) refl

parse_valid :
    (body : ManifestBody)
    → All IsFit body.entries
    → ((p : Text) → count p (paths_of body.entries) ≤ 1)
    → validate_manifest_body body ≡ ok tt
    → parse_manifest (manifest_json body) ≡ ok (client_manifest body)
unfolding parse_manifest validate_manifest_body text_eq
parse_valid body fit unique valid =
    let (_, named, h1) = bind_inv (assert (not (is_empty body.revision))) _ valid in
    let (_, same, h2) =
      bind_inv (guard (nat_eq (length body.apply_order) (length body.entries)) internal) _ h1 in
    rw
      (
        assert-eq-ok _ named,
        parse-entries_json body.entries [] fit (λ p. omega (arith, unique p)),
        parse-texts_json body.apply_order,
        length-client_entries body.entries,
        guard-eq-ok _ internal same,
        all_found-all body.entries body.apply_order h2,
      )
      refl

module _ (c : Codec) (sha256_hex : Bytes → Text) where
  All-IsFit :
      (files : Dict Text Bytes) (es : List MirrorEntry)
      → All (IsEntry c sha256_hex files) es
      → All IsFit es
  All-IsFit files [] h = tt
  All-IsFit files (e ∷ es) (is, more) = ((is.named, is.hex), All-IsFit files es more)

  entry_of-path :
      (excluded : Bool) (path : Text) (bytes : Bytes) (entry : Option MirrorEntry)
      → entry_of c sha256_hex excluded path bytes ≡ ok entry
      → (p : Text) (es : List MirrorEntry)
      → count p (paths_of (with_entry entry es)) ≤ count p (path ∷ []) + count p (paths_of es)
  unfolding entry_of
  entry_of-path true path bytes entry h p es = rw (sym (ok-injective h)) (omega arith)
  entry_of-path false path bytes entry h p es =
      let (_, _, h1) = bind_inv (assert (nat_eq (len (sha256_hex bytes)) 64)) _ h in
      rw (sym (ok-injective h1)) (omega arith)

  scan_file-path :
      (reached : Bool) (path : Text) (bytes : Bytes) (entry : Option MirrorEntry)
      → scan_reached c sha256_hex reached path bytes ≡ ok entry
      → (p : Text) (es : List MirrorEntry)
      → count p (paths_of (with_entry entry es)) ≤ count p (path ∷ []) + count p (paths_of es)
  unfolding scan_reached scan_file
  scan_file-path false path bytes entry h p es = rw (sym (ok-injective h)) (omega arith)
  scan_file-path true path bytes entry h p es =
      let (_, _, h1) =
        bind_inv (guard (leb (length bytes) max_mirror_blob_bytes) bad_request) _ h in
      let (_, _, h2) = bind_inv (or_bad_request (parse_safe_mirror_rel path)) _ h1 in
      let (excluded, _, h3) = bind_inv (is_excluded path) _ h2 in
      entry_of-path excluded path bytes entry h3 p es

  scan_unique :
      (files : Dict Text Bytes) (es : List MirrorEntry)
      → scan_mirror_tree c sha256_hex files ≡ ok es
      → (p : Text) → count p (paths_of es) ≤ count p (keys files)
  unfolding scan_mirror_tree
  scan_unique [] es h p = rw (sym (ok-injective h)) (omega arith)
  scan_unique ((path, bytes) ∷ files) es h p =
      let (reached, _, h1) = bind_inv (walk_to [] (split b'/' path)) _ h in
      let (entry, scanned, h2) = bind_inv (scan_reached c sha256_hex reached path bytes) _ h1 in
      let (rest, more, h3) = bind_inv (scan_mirror_tree c sha256_hex files) _ h2 in
      let first = scan_file-path reached path bytes entry scanned p rest in
      let later = scan_unique files rest more p in
      rw (sym (ok-injective h3)) (ground (arith, first, later))

  -- The client parses the JSON of a manifest that the server has built from files of different names,
  -- into the same revision, entries and order.
  pub parse-manifest_json :
      (files : Dict Text Bytes) (body : ManifestBody)
      → ((p : Text) → count p (keys files) ≤ 1)
      → build_manifest_body c sha256_hex files ≡ ok body
      → parse_manifest (manifest_json body) ≡ ok (client_manifest body)
  parse-manifest_json files body unique h =
      let is = build-IsManifest c sha256_hex files body unique h in
      let built = build-IsBuilt c sha256_hex files body h in
      parse_valid body (All-IsFit files body.entries is.entries)
        (λ p. omega (arith, scan_unique files body.entries built.scanned p, unique p)) is.valid
