-- ===== src/PathApi.antt =====
-- server_manager/infrastructure/path_api.ts: requests below the address of a server's management API.
-- The fetcher and JSON are arguments.
use Prim.Native.String
use Prim.Native.Char.{code}
use pepper_vpn_client.Common.{
  ℕ, String, Bool, true, false, Option, none, some, ◌||◌, ◌==◌, if◌then◌else◌, ltb, leb,
}
use pepper_vpn_client.Common.Exec.{Result, ok, err}
use pepper_vpn_client.Common.Text.{is_truthy}
use pepper_vpn_client.Common.Decimal.{to_decimal}

pub record HttpRequest : Type 0 where
  pub url : String
  pub method : String
  pub content_type : Option String
  pub body : Option String

pub record HttpResponse : Type 0 where
  pub status : ℕ
  pub body : Option String

-- `ServerApiError`, and the error of JSON.
pub data ApiError : Type 0 where
  server_api_error : String → Option HttpResponse → ApiError
  syntax_error : String → ApiError

unfoldable pub is_network_error : ApiError → Bool
is_network_error (server_api_error message none) = true
is_network_error _ = false

-- `base.endsWith('/')`
unfoldable pub ends_with_slash : String → Bool
ends_with_slash String.[] = false
ends_with_slash (String.◌∷◌ c String.[]) = code c == b'/'
ends_with_slash (String.◌∷◌ c (String.◌∷◌ d s)) = ends_with_slash (String.◌∷◌ d s)

unfoldable pub request_url : String → String → String
unfolding ends_with_slash
request_url base path =
    String.◌++◌ (if ends_with_slash base then base else String.◌++◌ base "/") path

-- a text, if it counts as true
abbrev pub truthy : Option String → Option String
truthy text = if is_truthy text then text else none

unfoldable pub make_request : String → String → String → Option String → Option String → HttpRequest
unfolding request_url
make_request base path method content_type body = record {
  url = request_url base path;
  method = method;
  content_type = truthy content_type;
  body = truthy body;
}

-- What `request` makes of a response; `none` is a response without a body.
unfoldable pub read_response {ℓ} :
    {T : Type ℓ} → (String → Result String T) → String → HttpResponse → Result ApiError (Option T)
read_response parse path response =
    if ltb response.status 200 || leb 300 response.status
    then err (
        server_api_error
          (String.◌++◌ "API request to "
            (String.◌++◌ path (String.◌++◌ " failed with status " (to_decimal response.status))))
          (some response))
    else (elim response.body [
      | none ↦ ok none
      | some text ↦
          if is_truthy (some text)
          then (elim (parse text) [ ok value ↦ ok (some value) | err m ↦ err (syntax_error m) ])
          else ok none
    ])

-- `request`; `requestJson` and `requestForm` call it with their content types.
unfoldable pub request {ℓ} :
    {T : Type ℓ}
    → (HttpRequest → Result String HttpResponse)
    → (String → Result String T)
    → String
    → String
    → String
    → Option String
    → Option String
    → Result ApiError (Option T)
unfolding make_request read_response
request fetcher parse base path method content_type body =
    elim (fetcher (make_request base path method content_type body)) [
      | ok response ↦ read_response parse path response
      | err message ↦ err (
          server_api_error
            (String.◌++◌ "API request to "
              (String.◌++◌ path (String.◌++◌ " failed due to network error: " message)))
            none)
    ]
