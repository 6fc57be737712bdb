-- ===== src/AccessKey/Fetch.antt =====
-- `fetchSessionConfig` of src/www/app/outline_server_repository/access_key_serialization.ts.
pub mod Outcome
mod Tests
use Prim.Native.String
use pepper_vpn_client.Common.{
  ℕ, String, Bool, Option, none, some, is_some, List, [], ◌∷◌, ◌++◌, if◌then◌else◌, str_eq,
}
use pepper_vpn_client.Common.Exec.{Result, ok, err, ◌>>=◌}
use pepper_vpn_client.Common.Text.{starts_with, trim, replace_text, join}
use pepper_vpn_client.Errors.{
  Thrown, plain, server_access_key_invalid, session_config_error, session_config_fetch_failed,
}
use pepper_vpn_client.AccessKey.{
  ShadowsocksSessionConfig, XraySessionConfig, SessionConfig, shadowsocks, xray, Url, Parsers,
  static_key_to_session_config,
}

-- `VlessNode`, `Settings`, `Outbound` and `Inbound`; what JSON gives may lack any field.
pub record VlessNode : Type 0 where
  pub address : Option String

pub record Settings : Type 0 where
  pub vnext : Option (List VlessNode)

pub record Outbound : Type 0 where
  pub settings : Option Settings

pub record Inbound : Type 0 where
  pub host : Option String
  pub port : Option ℕ

-- An object of JSON, as far as the client reads it: the fields of `ShadowsocksServerConfig`, those
-- of `XrayServerConfig`, and `error` with the field `message`. `none` stands for a field that is
-- absent, and `some none` for one that is `null`.
pub record ResponseJson : Type 0 where
  pub error : Option (Option (Option String))
  pub method : Option (Option String)
  pub password : Option (Option String)
  pub server : Option (Option String)
  pub server_port : Option (Option ℕ)
  pub prefix : Option (Option String)
  pub outbounds : Option (List Outbound)
  pub inbounds : Option (List Inbound)

-- What `JSON.parse` gives: an object or an array, or else a value that `in` refuses.
pub data Json : Type 0 where
  object : ResponseJson → Json
  primitive : Json

-- What fetching calls and the client does not implement. `fetch` gets the value of `User-Agent`, if
-- it is set; it fails, or its answer gives a text or fails at that.
pub record FetchEnvironment : Type 0 where
  pub parsers : Parsers
  pub to_string : Url → String
  pub append_search_param : String → String → Url → Url
  pub fetch : Url → Option String → Result (Unit {0}) (Result String String)
  pub parse_json : String → Result String Json
  pub stringify : ResponseJson → String
  pub app_version : String
  pub platform : String
  pub version : String

abbrev pub missing_key : String → Bool → List String
missing_key key present = if present then [] else key ∷ []

-- the loop over the four mandatory keys
unfoldable pub missing_keys : ResponseJson → List String
missing_keys r =
    missing_key "method" (is_some r.method)
    ++ missing_key "password" (is_some r.password)
    ++ missing_key "server" (is_some r.server)
    ++ missing_key "server_port" (is_some r.server_port)

-- The value of a field in a configuration, where `null` is no value, like a field that is absent.
abbrev pub value_of {ℓ} : {A : Type ℓ} → Option (Option A) → Option A
value_of none = none
value_of (some value) = value

unfoldable pub parse_shadowsocks_session_config_json :
    ResponseJson → Result Thrown ShadowsocksSessionConfig
unfolding missing_keys
parse_shadowsocks_session_config_json r = elim (missing_keys r) [
  | [] ↦ ok (record {
    host = value_of r.server;
    port = value_of r.server_port;
    password = value_of r.password;
    method = value_of r.method;
    prefix = value_of r.prefix;
  })
  | key ∷ keys ↦
      err (plain (String.◌++◌ "Missing JSON fields: " (String.◌++◌ (join ", " (key ∷ keys)) ".")))
]

-- `a[0]` and the field that is read of it; an absent value throws.
unfoldable pub first {ℓ} : {A : Type ℓ} → Option (List A) → Result Thrown A
first none = err (plain "TypeError")
first (some []) = err (plain "TypeError")
first (some (a ∷ rest)) = ok a

abbrev pub present {ℓ} : {A : Type ℓ} → Option A → Result Thrown A
present none = err (plain "TypeError")
present (some a) = ok a

-- `responseJson.inbounds[0].port = 12080`
unfoldable pub with_port : ResponseJson → Result Thrown ResponseJson
with_port r = elim r.inbounds [
  | none ↦ err (plain "TypeError")
  | some [] ↦ err (plain "TypeError")
  | some (inbound ∷ inbounds) ↦
      ok (record r { inbounds = some (record inbound { port = some 12080 } ∷ inbounds) })
]

module _ (env : FetchEnvironment) where
  open env use {
    parsers, to_string, append_search_param, fetch, parse_json, stringify, app_version, platform,
    version,
  }

  unfoldable pub parse_xray_session_config_json : ResponseJson → Result Thrown XraySessionConfig
  unfolding first with_port
  parse_xray_session_config_json r = first r.outbounds >>= λ outbound.
      present outbound.settings >>= λ settings. first settings.vnext >>= λ node.
      with_port r >>= λ changed.
      ok (record { xray_config = stringify changed; host = node.address })

  -- the `else` branch of the `try`
  unfoldable pub parse_response : Json → Result Thrown SessionConfig
  unfolding parse_shadowsocks_session_config_json parse_xray_session_config_json
  parse_response primitive = err (plain "TypeError")
  parse_response (object r) = elim r.error [
    | some none ↦ err (plain "TypeError")
    | some (some message) ↦ err (session_config_error message)
    | none ↦
        if is_some r.method
        then (parse_shadowsocks_session_config_json r >>= λ config. ok (shadowsocks config))
        else (parse_xray_session_config_json r >>= λ config. ok (xray config))
  ]

  -- the `catch` behind it
  unfoldable pub rethrow : Result Thrown SessionConfig → Result Thrown SessionConfig
  rethrow (ok config) = ok config
  rethrow (err (session_config_error message)) = err (session_config_error message)
  rethrow (err e) = err server_access_key_invalid

  unfoldable pub parse_body : String → Result Thrown SessionConfig
  unfolding parse_response rethrow
  parse_body body =
      let static =
        static_key_to_session_config parsers body >>= λ config. ok (shadowsocks config) in
      let parsed : Result Thrown SessionConfig = elim (parse_json body) [
        | err message ↦ err (plain message)
        | ok json ↦ parse_response json
      ] in
      rethrow (if starts_with body "ss://" then static else parsed)

  unfoldable pub user_agent : Option String
  user_agent =
      if str_eq platform "macOS"
      then some (
          String.◌++◌ "PaperVPN/" (
            String.◌++◌ app_version (
              String.◌++◌ " (" (String.◌++◌ platform (String.◌++◌ "/" (String.◌++◌ version ")"))))))
      else none

  unfoldable pub fetch_session_config : Url → Result Thrown SessionConfig
  unfolding parse_body user_agent
  fetch_session_config location =
      elim (parsers.parse_url (replace_text "^xray:" "https:" (to_string location))) [
        | err message ↦ err (plain message)
        | ok url ↦ elim (fetch (append_search_param "type" "1" url) user_agent) [
          | err _ ↦ err session_config_fetch_failed
          | ok (err message) ↦ err (plain message)
          | ok (ok text) ↦ parse_body (trim text)
        ]
      ]
