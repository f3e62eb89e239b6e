-- ===== src/Server/Manifest/Built.antt =====
-- What `build_manifest_body` of sync-server/src/mirror_manifest.rs makes of the files of the mirror.
use mathlib.Core.Path.{subst}
use dojjo.Prelude.Text.Order.{text_order, text_eq_iff}
use dojjo.Prelude.{
  ◌≤◌, List, [], ◌∷◌, ◌≡◌, inl, inr, refl, sym, ap, ◌∙◌, arith, Bool, true, false, Option, none,
  some, leb, nat_eq, nat_eq_iff, length, All, Result, ok, err, panic, assert, guard, bind_inv,
  ok-injective, guard-eq-ok, assert-eq-ok, Bool-cases,
}
use dojjo.Prelude.Order.{◌==◌}
use dojjo.Prelude.Order.Sets.{contains, count}
use dojjo.Prelude.Order.Laws.{contains-eq-count, count-not-contains}
use dojjo.Prelude.Dict.{Dict, keys, lookup, contains-keys}
use dojjo.Prelude.Text.{Text, is_empty, len, split, trim}
use dojjo.Mirror.Operation.{Bytes, Codec, IoError, invalid_data, other}
use dojjo.Mirror.Path.{parse_safe_mirror_rel}
use dojjo.Mirror.ApplyOrder.Correct.{IsApplyOrder, compute_order_sound}
use dojjo.Server.MirrorGet.{bad_request, max_mirror_blob_bytes, or_bad_request}
use dojjo.Server.Manifest.Parts.{build-IsBuilt}
use dojjo.Server.Manifest.{
  MirrorEntry, ManifestBody, is_excluded, walk_to, map_order_error, paths_of, all_found,
  validate_manifest_body, entry_of, with_entry, scan_file, scan_reached, scan_mirror_tree,
  build_manifest_body,
}

pub some-injective {ℓ} : {A : Type ℓ} {a b : A} → some a ≡ some b → a ≡ b
some-injective h = cc

pub length-paths_of : (es : List MirrorEntry) → length (paths_of es) ≡ length es
length-paths_of [] = refl
length-paths_of (e ∷ es) = omega (arith, length-paths_of es)

all_found-ok :
    (es : List MirrorEntry) (ps : List Text)
    → ((p : Text) → contains ps p ≡ true → contains (paths_of es) p ≡ true)
    → all_found es ps ≡ ok tt
unfolding all_found
all_found-ok es [] h = refl
all_found-ok es (p ∷ ps) h =
    rw (h p (ground (arith, text_eq_iff p p)))
      (all_found-ok es ps (λ q here. h q (ground (arith, here))))

map_order_error-ok :
    {A : Type 0} (r : Result IoError A) {a : A} → map_order_error r ≡ ok a → r ≡ ok a
map_order_error-ok (ok a) h = ap ok (ok-injective h)
map_order_error-ok (err invalid_data) h = cc
map_order_error-ok (err other) h = cc
map_order_error-ok panic h = cc

parsed-nonempty :
    (path : Text) (rel : List Text)
    → or_bad_request (parse_safe_mirror_rel path) ≡ ok rel
    → is_empty path ≡ false
unfolding parse_safe_mirror_rel trim
parsed-nonempty [] rel h = cc
parsed-nonempty (c ∷ path) rel h = refl

module _ (c : Codec) (sha256_hex : Bytes → Text) where
  -- The entry of a file that is there, and is not excluded.
  pub record IsEntry (files : Dict Text Bytes) (e : MirrorEntry) : Type 0 where
    pub bytes : Bytes
    pub there : lookup e.path files ≡ some bytes
    pub sized : e.size ≡ length bytes
    pub small : length bytes ≤ max_mirror_blob_bytes
    pub hashed : e.sha256 ≡ sha256_hex bytes
    pub shared : is_excluded e.path ≡ ok false
    pub named : is_empty e.path ≡ false
    pub hex : nat_eq (len e.sha256) 64 ≡ true

  entry_of-IsEntry :
      (excluded : Bool) (path : Text) (bytes : Bytes) (files : Dict Text Bytes) (e : MirrorEntry)
      → lookup path files ≡ some bytes
      → leb (length bytes) max_mirror_blob_bytes ≡ true
      → is_excluded path ≡ ok excluded
      → is_empty path ≡ false
      → entry_of c sha256_hex excluded path bytes ≡ ok (some e)
      → IsEntry files e
  unfolding entry_of
  entry_of-IsEntry true path bytes files e here small tested named h =
      let no_entry : ◌≡◌ {A = Option MirrorEntry} none (some e) = ok-injective h in absurd cc
  entry_of-IsEntry false path bytes files e here small tested named h =
      let (_, hex, h1) = bind_inv (assert (nat_eq (len (sha256_hex bytes)) 64)) _ h in
      let same : record { path = path; size = length bytes; sha256 = sha256_hex bytes } ≡ e =
        some-injective (ok-injective h1) in
      subst (IsEntry files) same (record {
        bytes = bytes;
        there = here;
        sized = refl;
        small = ground (arith, small);
        hashed = refl;
        shared = tested;
        named = named;
        hex = assert-eq-ok _ hex;
      })

  scan_file-IsEntry :
      (reached : Bool) (path : Text) (bytes : Bytes) (files : Dict Text Bytes) (e : MirrorEntry)
      → lookup path files ≡ some bytes
      → scan_reached c sha256_hex reached path bytes ≡ ok (some e)
      → IsEntry files e
  unfolding scan_file scan_reached
  scan_file-IsEntry false path bytes files e here h =
      let no_entry : ◌≡◌ {A = Option MirrorEntry} none (some e) = ok-injective h in absurd cc
  scan_file-IsEntry true path bytes files e here h =
      let (_, small, h1) =
        bind_inv (guard (leb (length bytes) max_mirror_blob_bytes) bad_request) _ h in
      let (rel, parsed, h2) = bind_inv (or_bad_request (parse_safe_mirror_rel path)) _ h1 in
      let (excluded, tested, h3) = bind_inv (is_excluded path) _ h2 in
      entry_of-IsEntry excluded path bytes files e here (guard-eq-ok _ bad_request small) tested
        (parsed-nonempty path rel parsed) h3

  IsEntry-cons :
      (q : Text) (b : Bytes) (files : Dict Text Bytes) (e : MirrorEntry)
      → ((p : Text) → count p (keys ((q, b) ∷ files)) ≤ 1)
      → IsEntry files e
      → IsEntry ((q, b) ∷ files) e
  unfolding lookup
  IsEntry-cons q b files e unique h = elim (Bool-cases (q == e.path)) [
    | inl same ↦ absurd (
        ground (
          arith,
          same,
          unique e.path,
          contains-eq-count (keys files) e.path,
          contains-keys e.path files,
          h.there,
        ))
    | inr apart ↦ record {
      bytes = h.bytes;
      there = rw apart h.there;
      sized = h.sized;
      small = h.small;
      hashed = h.hashed;
      shared = h.shared;
      named = h.named;
      hex = h.hex;
    }
  ]

  All-IsEntry-cons :
      (q : Text) (b : Bytes) (files : Dict Text Bytes) (es : List MirrorEntry)
      → ((p : Text) → count p (keys ((q, b) ∷ files)) ≤ 1)
      → All (IsEntry files) es
      → All (IsEntry ((q, b) ∷ files)) es
  All-IsEntry-cons q b files [] unique h = tt
  All-IsEntry-cons q b files (e ∷ es) unique h =
      (IsEntry-cons q b files e unique h.0, All-IsEntry-cons q b files es unique h.1)

  with_entry-All :
      (files : Dict Text Bytes) (entry : Option MirrorEntry) (es : List MirrorEntry)
      → ((e : MirrorEntry) → entry ≡ some e → IsEntry files e)
      → All (IsEntry files) es
      → All (IsEntry files) (with_entry entry es)
  with_entry-All files none es one all = all
  with_entry-All files (some e) es one all = (one e refl, all)

  scan-All-IsEntry :
      (files : Dict Text Bytes) (es : List MirrorEntry)
      → ((p : Text) → count p (keys files) ≤ 1)
      → scan_mirror_tree c sha256_hex files ≡ ok es
      → All (IsEntry files) es
  unfolding scan_mirror_tree
  scan-All-IsEntry [] es unique h = rw (sym (ok-injective h)) tt
  scan-All-IsEntry ((path, bytes) ∷ files) es unique h =
      let (reached, _, h1) = bind_inv (walk_to [] (split b'/' path)) _ h in
      let (entry, scanned, h2) = bind_inv (scan_reached c sha256_hex reached path bytes) _ h1 in
      let (rest, more, h3) = bind_inv (scan_mirror_tree c sha256_hex files) _ h2 in
      let here : lookup path ((path, bytes) ∷ files) ≡ some bytes =
        unfold lookup in rw ((text_eq_iff path path).1 refl) refl in
      let later = scan-All-IsEntry files rest (λ p. ground (arith, unique p)) more in
      subst (All (IsEntry ((path, bytes) ∷ files))) (ok-injective h3) (
        with_entry-All ((path, bytes) ∷ files) entry rest
          (λ e is.
            scan_file-IsEntry reached path bytes ((path, bytes) ∷ files) e here
              (scanned ∙ ap ok is))
          (All-IsEntry-cons path bytes files rest unique later))

  -- Every entry is a file of the mirror that is not excluded, with its length and digest; the order is
  -- an apply order of the paths; and the check of a body that is published or read accepts it.
  pub record IsManifest (files : Dict Text Bytes) (body : ManifestBody) : Type 0 where
    pub entries : All (IsEntry files) body.entries
    pub ordered : IsApplyOrder c (λ p. lookup p files) (paths_of body.entries) body.apply_order
    pub valid : validate_manifest_body body ≡ ok tt

  -- If `build_manifest_body` succeeds on files of different names, each entry of the manifest has the
  -- length and the digest of a file that may be mirrored, `apply_order` is an apply order of the
  -- entries' paths, and `validate_manifest_body` accepts the manifest.
  pub build-IsManifest :
      (files : Dict Text Bytes) (body : ManifestBody)
      → ((p : Text) → count p (keys files) ≤ 1)
      → build_manifest_body c sha256_hex files ≡ ok body
      → IsManifest files body
  unfolding validate_manifest_body
  build-IsManifest files body unique h =
      let built = build-IsBuilt c sha256_hex files body h in
      let es = body.entries in
      let order = body.apply_order in
      let sound =
        compute_order_sound c (λ p. lookup p files) (paths_of es) order
          (map_order_error-ok _ built.sorted) in
      let found = all_found-ok es order (λ p here. ground (
        arith,
        here,
        sound.same p,
        contains-eq-count order p,
        count-not-contains (paths_of es) p,
      )) in
      let lengths : nat_eq (length order) (length es) ≡ true =
        (nat_eq_iff _ _).1 ((nat_eq_iff _ _).0 built.whole ∙ length-paths_of es) in
      record {
        entries = scan-All-IsEntry files es unique built.scanned;
        ordered = sound;
        valid = rw (built.named, lengths) found;
      }
