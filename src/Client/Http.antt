-- ===== src/Client/Http.antt =====
-- HTTP as `reqwest` sends it. The network and the server are the parameter `W`; `Net` is what
-- `reqwest`, `serde_json`, `sha2` and `base64` do.
use dojjo.Prelude.{
  ℕ, [], ◌∷◌, ◌++◌, Bool, ◌&&◌, Option, none, some, Result, err, leb, nat_eq, if◌then◌else◌,
}
use dojjo.Prelude.Dict.{Dict}
use dojjo.Prelude.Text.{Text, text, is_empty}
use dojjo.Mirror.Operation.{Bytes}
use dojjo.Prelude.Json.{Json}
use dojjo.Client.Manifest.{ClientError, bad_json, or_context}

pub data Method : Type 0 where
  get post patch : Method

pub record HttpRequest : Type 0 where
  pub method : Method
  pub url : Text
  pub headers : Dict Text Text
  pub body : Bytes

-- The body is `none` where the connection breaks off.
pub record HttpResponse : Type 0 where
  pub status : ℕ
  pub headers : Dict Text Text
  pub body : Option Bytes

-- `send` has no response where the connection fails; `base64` encodes the bytes of a string.
pub record Net (W : Type 0) : Type 0 where
  pub send : HttpRequest → W → Option HttpResponse × W
  pub from_json : Bytes → Option Json
  pub sha256_hex : Bytes → Text
  pub base64 : Text → Text

-- `trim_end_matches('/')`
unfoldable pub trim_slashes : Text → Text
trim_slashes [] = []
trim_slashes (c ∷ s) =
    let rest = trim_slashes s in if nat_eq c b'/' && is_empty rest then [] else c ∷ rest

abbrev pub is_error_status : ℕ → Bool
is_error_status status = leb 400 status && leb status 599

-- `res.json()`
abbrev pub json_of : (Bytes → Option Json) → Option Bytes → Result ClientError Json
json_of from_json none = err bad_json
json_of from_json (some b) = or_context (from_json b) bad_json

abbrev pub get_request : Text → HttpRequest
get_request url = record { method = Method.get; url = url; headers = []; body = [] }

abbrev pub mirror_url : Text → Text → Text → Text
mirror_url api_base dojo_id rel =
    trim_slashes api_base ++ text "/dojo/" ++ dojo_id ++ text "/mirror/" ++ rel
