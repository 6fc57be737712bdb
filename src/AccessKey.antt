-- ===== src/AccessKey.antt =====
-- Access keys and the session configurations that they stand for:
-- src/www/app/outline_server_repository/access_key_serialization.ts and src/www/app/tunnel.ts.

pub mod Fetch
use Prim.Native.String
use pepper_vpn_client.Common.{ℕ, String, Bool, Option, none, some, ◌||◌}
use pepper_vpn_client.Common.Exec.{Result, ok, err}
use pepper_vpn_client.Common.Text.{strip_prefix, starts_with}
use pepper_vpn_client.Errors.{Thrown, server_access_key_invalid}

-- `ShadowsocksSessionConfig`; every field may be absent
pub record ShadowsocksSessionConfig : Type 0 where
  pub host : Option String
  pub port : Option ℕ
  pub password : Option String
  pub method : Option String
  pub prefix : Option String

-- `XraySessionConfig`
pub record XraySessionConfig : Type 0 where
  pub xray_config : String
  pub host : Option String

pub data SessionConfig : Type 0 where
  shadowsocks : ShadowsocksSessionConfig → SessionConfig
  xray : XraySessionConfig → SessionConfig

-- What `SHADOWSOCKS_URI.parse` returns, as far as the client reads it.
pub record ParsedConfig : Type 0 where
  pub host : String
  pub host_is_ipv6 : Bool
  pub port : ℕ
  pub method : String
  pub password : String
  pub prefix : Option String

-- What `new URL` returns, as far as the client reads it.
pub record Url : Type 0 where
  pub hostname : String
  pub port : String
  pub protocol : String
  pub hash : String

-- The parsers that the client calls and does not implement. An error is a message.
pub record Parsers : Type 0 where
  -- `SHADOWSOCKS_URI.parse` of the package ShadowsocksConfig
  pub parse_shadowsocks : String → Result String ParsedConfig
  -- `new URL`
  pub parse_url : String → Result String Url
  -- `decodeURIComponent`
  pub decode_uri_component : String → Result String String

-- `text.replace(/^prefix/, by)`
unfoldable pub replace_prefix : String → String → String → String
replace_prefix prefix by text = elim (strip_prefix prefix text) [
  | none ↦ text
  | some rest ↦ String.◌++◌ by rest
]

-- `isDynamicAccessKey` of outline_server_repository/index.ts
unfoldable pub is_dynamic_access_key : String → Bool
is_dynamic_access_key key =
    starts_with key "ssconf://" || starts_with key "https://" || starts_with key "xray://"

unfoldable pub static_key_to_session_config :
    Parsers → String → Result Thrown ShadowsocksSessionConfig
static_key_to_session_config parsers key = elim (parsers.parse_shadowsocks key) [
  | ok config ↦ ok (record {
    host = some config.host;
    port = some config.port;
    password = some config.password;
    method = some config.method;
    prefix = config.prefix;
  })
  | err _ ↦ err server_access_key_invalid
]
