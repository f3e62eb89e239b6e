-- ===== src/Client/Origin.antt =====
-- client/src/tus.rs: the scheme and the host of the API's URL, to which a `Location` is relative.
use dojjo.Prelude.{
  List, [], ◌∷◌, ◌++◌, not, Option, none, some, if◌then◌else◌, Result, ok, assert, ◌>>=◌, ◌>>◌,
}
use dojjo.Prelude.Text.{Text, text, is_empty, starts_with, strip_prefix, split}
use dojjo.Client.Manifest.{ClientError, not_http, no_host, or_context}
use dojjo.Client.Http.{trim_slashes}

unfoldable pub manifest_base : Text → Result ClientError Text
manifest_base api_base = do
  assert (not (is_empty (trim_slashes api_base)))
  ok (trim_slashes api_base)

abbrev pub first_of : List Text → Option Text
first_of [] = none
first_of (s ∷ ss) = some s

abbrev pub or_else {ℓ} : {A : Type ℓ} → Option A → Option A → Option A
or_else none o = o
or_else (some a) o = some a

unfoldable pub site_origin : Text → Result ClientError Text
site_origin api_base = do
  b ← manifest_base api_base
  rest ←
      or_context (or_else (strip_prefix (text "http://") b) (strip_prefix (text "https://") b))
        not_http
  assert (not (is_empty rest))
  host_port ← or_context (first_of (split b'/' rest)) no_host
  assert (not (is_empty host_port))
  ok ((if starts_with (text "https://") b then text "https://" else text "http://") ++ host_port)
