-- ===== src/Client/Manifest.antt =====
-- client/src/manifest.rs: the manifest of the mirror, as the client parses it.
use Prim.Native.Nat.{ℕ}
use dojjo.Prelude.Text.Order.{text_order}
use dojjo.Prelude.{
  List, [], ◌∷◌, not, Option, none, some, nat_eq, length, all, is_some, Result, ok, err, assert,
  ◌>>=◌, ◌>>◌,
}
use dojjo.Prelude.Dict.{Dict, lookup, put}
use dojjo.Prelude.Text.{Text, text, is_empty, len}
use dojjo.Prelude.Json.{Json, index, as_str, as_u64, as_array}

pub record ManifestEntry : Type 0 where
  pub path : Text
  pub size : ℕ
  pub sha256 : Text

pub record Manifest : Type 0 where
  pub revision : Text
  pub entries : Dict Text ManifestEntry
  pub apply_order : List Text

-- `anyhow::Error`, by its outermost message.
pub data ClientError : Type 0 where
  no_response dojo_not_found bad_status bad_body bad_json no_revision no_entries no_path no_size
        no_sha256 no_apply_order apply_order_string still_missing length_mismatch sha256_mismatch
        write_failed remove_failed read_failed missing_server_path after_sync_sha_mismatch
        after_sync_size_mismatch not_a_mirror_rel unsafe_path no_dojo_id not_http no_host
        no_location expand_failed order_failed :
      ClientError

-- `Option::context` and `?`
abbrev pub or_context {ℓ} : {A : Type ℓ} → Option A → ClientError → Result ClientError A
or_context none e = err e
or_context (some a) e = ok a

unfoldable pub parse_entry : Json → Result ClientError ManifestEntry
parse_entry e = do
  path ← or_context (as_str (index (text "path") e)) no_path
  assert (not (is_empty path))
  size ← or_context (as_u64 (index (text "size") e)) no_size
  sha256 ← or_context (as_str (index (text "sha256") e)) no_sha256
  assert (nat_eq (len sha256) 64)
  ok (record { path = path; size = size; sha256 = sha256 })

-- The loop over `entries_arr`, with the map so far.
unfoldable pub parse_entries :
    List Json → Dict Text ManifestEntry → Result ClientError (Dict Text ManifestEntry)
parse_entries [] entries = ok entries
parse_entries (e ∷ es) entries = do ent ← parse_entry e; parse_entries es (put ent.path ent entries)

-- The strings of `apply_order`, up to the first value that is none.
unfoldable pub parse_order : List Json → Result ClientError (List Text)
parse_order [] = ok []
parse_order (v ∷ vs) = do
  p ← or_context (as_str v) apply_order_string
  ps ← parse_order vs
  ok (p ∷ ps)

-- What `fetch_manifest` does with the body of the response.
unfoldable pub parse_manifest : Json → Result ClientError Manifest
parse_manifest body = do
  revision ← or_context (as_str (index (text "revision") body)) no_revision
  assert (not (is_empty revision))
  entries_arr ← or_context (as_array (index (text "entries") body)) no_entries
  entries ← parse_entries entries_arr []
  order_arr ← or_context (as_array (index (text "apply_order") body)) no_apply_order
  apply_order ← parse_order order_arr
  assert (nat_eq (length apply_order) (length entries))
  assert (all (λ p. is_some (lookup p entries)) apply_order)
  ok (record { revision = revision; entries = entries; apply_order = apply_order })
