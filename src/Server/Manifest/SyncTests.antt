-- ===== src/Server/Manifest/SyncTests.antt =====
-- A `sync-complete` of the mirror of `Tests`, and the manifest after it. A text is written as its code
-- points, each one greater, up to a zero, and a list after its length.
use dojjo.Prelude.Text.Order.{text_order, text_eq}
use dojjo.Prelude.{
  ℕ, zero, suc, List, [], ◌∷◌, ◌≡◌, refl, Bool, true, false, Option, none, some, Result, ok,
}
use dojjo.Prelude.Dict.{Dict}
use dojjo.Prelude.Json.{Json, Items, Fields, null, other, num, str, arr, obj, nil, cons, end, field}
use dojjo.Prelude.Text.{Text, text, is_empty, has_dots}
use dojjo.Mirror.Operation.{Bytes}
use dojjo.Client.Manifest.{parse_manifest}
use dojjo.Server.MirrorGet.{AppError}
use dojjo.Server.DojoId.{assert_safe_dojo_external_id, dojo_data_dir}
use dojjo.Server.Manifest.{
  MirrorEntry, ManifestBody, build_manifest_body, validate_manifest_body, all_found,
}
use dojjo.Server.Manifest.Tests.{
  plain_codec, zero_digest, mirror_files, small_body, build_run, names_differ,
}
use dojjo.Server.Manifest.Parsed.{client_manifest, parse-manifest_json}
use dojjo.Server.Manifest.Publish.{
  entries_json, texts_json, manifest_json, Serde, DojoDir, PublishFaults, etag_of,
  publish_mirror_manifest, post_mirror_sync_complete,
}
use dojjo.Server.Manifest.Served.{SyncEnd, sync_complete-SyncEnd}
use dojjo.Server.Manifest.Current.{
  IsFaithful, whole_reply, unchanged_reply, get_current, published_is_served,
}

abbrev text_bytes : Text → Bytes → Bytes
text_bytes [] rest = 0 ∷ rest
text_bytes (c ∷ s) rest = suc c ∷ text_bytes s rest

abbrev items_count : Items → ℕ
items_count nil = 0
items_count (cons v vs) = suc (items_count vs)

mutual
  json_bytes : Json → Bytes → Bytes
  json_bytes null rest = rest
  json_bytes other rest = rest
  json_bytes (num n) rest = n ∷ rest
  json_bytes (str s) rest = text_bytes s rest
  json_bytes (arr vs) rest = items_count vs ∷ items_bytes vs rest
  json_bytes (obj fs) rest = fields_bytes fs rest

  items_bytes : Items → Bytes → Bytes
  items_bytes nil rest = rest
  items_bytes (cons v vs) rest = json_bytes v (items_bytes vs rest)

  fields_bytes : Fields → Bytes → Bytes
  fields_bytes end rest = rest
  fields_bytes (field k v fs) rest = json_bytes v (fields_bytes fs rest)

abbrev with_char : ℕ → Text × Bytes → Text × Bytes
with_char c (s, rest) = (c ∷ s, rest)

abbrev read_text : Bytes → Text × Bytes
read_text [] = ([], [])
read_text (zero ∷ rest) = ([], rest)
read_text (suc c ∷ rest) = with_char c (read_text rest)

abbrev read_num : Bytes → ℕ × Bytes
read_num [] = (0, [])
read_num (n ∷ rest) = (n, rest)

abbrev read_texts : ℕ → Bytes → List Text × Bytes
read_texts zero b = ([], b)
read_texts (suc n) b = let (s, b1) = read_text b in let (ss, b2) = read_texts n b1 in (s ∷ ss, b2)

abbrev read_entries : ℕ → Bytes → List MirrorEntry × Bytes
read_entries zero b = ([], b)
read_entries (suc n) b =
    let (path, b1) = read_text b in
    let (size, b2) = read_num b1 in
    let (sha256, b3) = read_text b2 in
    let (es, b4) = read_entries n b3 in
    (record { path = path; size = size; sha256 = sha256 } ∷ es, b4)

read_body : Bytes → Option ManifestBody
read_body b =
    let (revision, b1) = read_text b in
    let (n, b2) = read_num b1 in
    let (entries, b3) = read_entries n b2 in
    let (m, b4) = read_num b3 in
    let (order, b5) = read_texts m b4 in
    some (record { revision = revision; entries = entries; apply_order = order })

abbrev plain_serde : Serde
plain_serde = record { to_vec = λ v. json_bytes v []; from_slice = read_body }

read-text_bytes : (s : Text) (rest : Bytes) → read_text (text_bytes s rest) ≡ (s, rest)
read-text_bytes [] rest = refl
read-text_bytes (c ∷ s) rest = rw (read-text_bytes s rest) refl

read-texts :
    (ss : List Text) (rest : Bytes)
    → read_texts (items_count (texts_json ss)) (items_bytes (texts_json ss) rest) ≡ (ss, rest)
unfolding items_bytes json_bytes
read-texts [] rest = refl
read-texts (s ∷ ss) rest =
    rw (read-text_bytes s (items_bytes (texts_json ss) rest), read-texts ss rest) refl

read-entries :
    (es : List MirrorEntry) (rest : Bytes)
    → read_entries (items_count (entries_json es)) (items_bytes (entries_json es) rest) ≡ (es, rest)
unfolding items_bytes json_bytes fields_bytes
read-entries [] rest = refl
read-entries (e ∷ es) rest =
    let later = items_bytes (entries_json es) rest in
    rw
      (
        read-text_bytes e.path (e.size ∷ text_bytes e.sha256 later),
        read-text_bytes e.sha256 later,
        read-entries es rest,
      )
      refl

read-manifest_json :
    (body : ManifestBody) → read_body (json_bytes (manifest_json body) []) ≡ some body
unfolding read_body json_bytes fields_bytes
read-manifest_json body =
    let order = items_bytes (texts_json body.apply_order) [] in
    let entries =
      items_bytes (entries_json body.entries) (items_count (texts_json body.apply_order) ∷ order) in
    rw
      (
        read-text_bytes body.revision (items_count (entries_json body.entries) ∷ entries),
        read-entries body.entries (items_count (texts_json body.apply_order) ∷ order),
        read-texts body.apply_order [],
      )
      refl

text_bytes-ne-nil : (s : Text) (rest : Bytes) → is_empty (text_bytes s rest) ≡ false
text_bytes-ne-nil [] rest = refl
text_bytes-ne-nil (c ∷ s) rest = refl

all_valid : Text → Bool
all_valid t = true

plain-IsFaithful : IsFaithful zero_digest plain_serde all_valid
unfolding all_valid json_bytes
plain-IsFaithful = record {
  written = λ body. text_bytes-ne-nil body.revision _;
  read = read-manifest_json;
  visible = λ t h. refl;
  hex = λ b. refl;
}

abbrev no_faults : PublishFaults
no_faults = record { write = none; rename = false; read = false }

-- A normalization that leaves the files of the example.
abbrev normalize : Dict Text Bytes → Result AppError (Unit {0}) × Dict Text Bytes
normalize m = (ok tt, mirror_files)

abbrev before : DojoDir
before = record { is_dir = true; mirror = []; published = none; tmp = none }

abbrev after : DojoDir
after = record {
  is_dir = true;
  mirror = mirror_files;
  published = some (plain_serde.to_vec (manifest_json small_body));
  tmp = none;
}

abbrev every_dojo : Text → Option Bool
every_dojo id = some true

known : dojo_data_dir every_dojo (text "d") ≡ ok tt
unfolding dojo_data_dir
known = refl

safe : assert_safe_dojo_external_id (text "d") ≡ ok tt
unfolding assert_safe_dojo_external_id has_dots
safe = refl

small_valid : validate_manifest_body small_body ≡ ok tt
unfolding validate_manifest_body all_found text_eq
small_valid = refl

sync_run :
    post_mirror_sync_complete plain_codec zero_digest plain_serde no_faults every_dojo
      (text "d")
      normalize
      before
    ≡ (ok 204, after)
unfolding post_mirror_sync_complete publish_mirror_manifest json_bytes
sync_run = rw (safe, known, build_run, small_valid) refl

sync_complete-SyncEnd_example :
    SyncEnd plain_codec zero_digest plain_serde no_faults normalize before (
      post_mirror_sync_complete plain_codec zero_digest plain_serde no_faults every_dojo
        (text "d")
        normalize
        before)
sync_complete-SyncEnd_example =
    sync_complete-SyncEnd plain_codec zero_digest plain_serde no_faults normalize every_dojo
      (text "d") before

-- The manifest is served though the mirror has become empty since.
published_is_served_example :
    (body : ManifestBody) × (build_manifest_body plain_codec zero_digest mirror_files ≡ ok body)
    × (get_current plain_codec zero_digest plain_serde no_faults all_valid plain-IsFaithful
          every_dojo
          (text "d")
          safe
          known
          none
          (record after { mirror = [] })
        ≡ (ok (whole_reply plain_serde body), record after { mirror = [] }))
    × (get_current plain_codec zero_digest plain_serde no_faults all_valid plain-IsFaithful
          every_dojo
          (text "d")
          safe
          known
          (some (etag_of body))
          (record after { mirror = [] })
        ≡ (ok (unchanged_reply plain_serde body), record after { mirror = [] }))
published_is_served_example =
    published_is_served plain_codec zero_digest plain_serde no_faults all_valid plain-IsFaithful
      every_dojo (text "d") safe known no_faults normalize before after [] (λ m. names_differ) refl
      sync_run

parse-manifest_json_example :
    parse_manifest (manifest_json small_body) ≡ ok (client_manifest small_body)
parse-manifest_json_example =
    parse-manifest_json plain_codec zero_digest mirror_files small_body names_differ build_run
