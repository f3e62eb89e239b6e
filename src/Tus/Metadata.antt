-- ===== src/Tus/Metadata.antt =====
-- tus-server/src/lib.rs: the version of the protocol, and the header `Upload-Metadata`. The `base64`
-- crate and `String::from_utf8` are parameters.
use dojjo.Prelude.Text.Order.{text_order, text_eq}
use dojjo.Prelude.{
  List, [], ◌∷◌, true, false, not, Option, none, some, nat_eq, if◌then◌else◌, Result, ok, err,
  assert, guard, ◌>>=◌, ◌>>◌,
}
use dojjo.Prelude.Order.{◌==◌}
use dojjo.Prelude.Order.Sets.{update}
use dojjo.Prelude.Text.{Text, is_empty, trim, split}
use dojjo.Tus.Types.{Bytes, Metadata, TusError, unsupported_version, tus_resumable}

pub record Base64 : Type 0 where
  pub decode : Text → Option Bytes
  pub from_utf8 : Bytes → Option Text

unfoldable pub validate_tus_resumable : Text → Result TusError (Unit {0})
validate_tus_resumable value = guard (value == tus_resumable) unsupported_version

pub data MetadataError : Type 0 where
  empty_key invalid_base64 not_utf8 : MetadataError

abbrev pub or_error {ℓ} : {A : Type ℓ} → Option A → MetadataError → Result MetadataError A
or_error none e = err e
or_error (some a) e = ok a

-- What stands before the first space, and what stands behind it: `splitn(2, ' ')`.
unfoldable pub before_space : Text → Text
before_space [] = []
before_space (c ∷ s) = let rest = before_space s in if nat_eq c b' ' then [] else c ∷ rest

unfoldable pub after_space : Text → Option Text
after_space [] = none
after_space (c ∷ s) = let rest = after_space s in if nat_eq c b' ' then some s else rest

module _ (b : Base64) where
  unfoldable pub decode_value : Option Text → Result MetadataError Text
  decode_value none = ok []
  decode_value (some encoded) = do
    bytes ← or_error (b.decode (trim encoded)) invalid_base64
    or_error (b.from_utf8 bytes) not_utf8

  -- An entry that is not empty.
  unfoldable pub parse_pair : Text → Metadata → Result MetadataError Metadata
  parse_pair entry meta = do
    guard (not (is_empty (before_space entry))) empty_key
    value ← decode_value (after_space entry)
    assert (not (is_empty (before_space entry)))
    ok (update meta (before_space entry) value)

  -- The loop over the entries, with the map so far.
  unfoldable pub parse_pairs : List Text → Metadata → Result MetadataError Metadata
  parse_pairs [] meta = ok meta
  parse_pairs (entry ∷ es) meta = elim (is_empty (trim entry)) [
    | true ↦ parse_pairs es meta
    | false ↦ do meta' ← parse_pair (trim entry) meta; parse_pairs es meta'
  ]

  unfoldable pub parse_metadata : Text → Result MetadataError Metadata
  unfolding trim split text_eq
  parse_metadata header =
      if is_empty (trim header) then ok (λ k. none) else parse_pairs (split b',' header) (λ k. none)
