-- ===== src/Repository/Keys.antt =====
-- Access keys in src/www/app/outline_server_repository/index.ts: comparing, naming and validating
-- them. A `plain` error holds the message of its cause alone.
use Prim.Native.String
use pepper_vpn_client.Common.{
  ℕ, String, Bool, true, false, Option, none, some, List, [], ◌∷◌, ◌&&◌, ◌||◌, if◌then◌else◌,
  str_eq, ◌==◌,
}
use pepper_vpn_client.Common.Map.{Entries}
use pepper_vpn_client.Common.Exec.{Result, ok, err}
use pepper_vpn_client.Common.Text.{split, includes, strip_prefix}
use pepper_vpn_client.Errors.{
  Thrown, plain, server_already_added, server_url_invalid, server_incompatible,
  shadowsocks_unsupported_cipher,
}
use pepper_vpn_client.AccessKey.{
  ParsedConfig, ShadowsocksSessionConfig, Parsers, replace_prefix, is_dynamic_access_key,
  static_key_to_session_config,
}
use pepper_vpn_client.Server.{
  static_connection, dynamic_connection, OutlineServer, is_server_cipher_supported,
}

-- `OutlineServerJson`
pub record OutlineServerJson : Type 0 where
  pub id : String
  pub access_key : String
  pub name : Option String

-- `ServersStorageV0Config`
pub record ServersStorageV0Config : Type 0 where
  pub host : Option String
  pub port : Option ℕ
  pub password : Option String
  pub method : Option String
  pub name : Option String

-- What the repository calls and does not implement: the parsers, JSON at the two types that it
-- stores, and `SIP002_URI.stringify(makeConfig(…))` of the package ShadowsocksConfig.
pub record Environment : Type 0 where
  pub parsers : Parsers
  pub stringify : List OutlineServerJson → String
  pub parse_servers : String → Result String (List OutlineServerJson)
  pub parse_servers_v0 : String → Result String (Entries ServersStorageV0Config)
  pub make_access_key : ServersStorageV0Config → Result Thrown String

-- equality of texts that may be absent
abbrev pub same_text : Option String → Option String → Bool
same_text none none = true
same_text (some a) (some b) = str_eq a b
same_text _ _ = false

abbrev pub same_number : Option ℕ → Option ℕ → Bool
same_number none none = true
same_number (some a) (some b) = a == b
same_number _ _ = false

abbrev same_config : ShadowsocksSessionConfig → ShadowsocksSessionConfig → Bool
same_config l r =
    same_text l.host r.host
    && same_number l.port r.port
    && same_text l.password r.password
    && same_text l.method r.method
    && same_text l.prefix r.prefix

-- `.find(keyValuePair => !keyValuePair.includes('='))`
abbrev pub find_name : List String → Option String
find_name [] = none
find_name (pair ∷ pairs) = if includes b'=' pair then find_name pairs else some pair

-- The text that `decodeURIComponent` makes of its argument: `undefined` becomes a word.
abbrev pub to_text : Option String → String
to_text none = "undefined"
to_text (some s) = s

-- `.slice(1)`
abbrev pub after_first : String → String
after_first String.[] = ""
after_first (String.◌∷◌ c s) = s

-- `text.replace(/^ss(?:conf)?:\/\//, 'https://')`
abbrev pub as_https : String → String
as_https text = elim (strip_prefix "ss://" text) [
  | some rest ↦ String.◌++◌ "https://" rest
  | none ↦ replace_prefix "ssconf://" "https://" text
]

module _ (env : Environment) where
  open env use {parsers, stringify, parse_servers, parse_servers_v0, make_access_key}
  open parsers use {parse_shadowsocks, parse_url, decode_uri_component}

  unfoldable pub static_keys_match : String → String → Bool
  static_keys_match a b = elim (static_key_to_session_config parsers a) [
    | err _ ↦ false
    | ok l ↦ elim (static_key_to_session_config parsers b) [
      | err _ ↦ false
      | ok r ↦ same_config l r
    ]
  ]

  unfoldable pub server_name_from_access_key : String → Result Thrown (Option String)
  server_name_from_access_key key = elim (parse_url (as_https key)) [
    | err message ↦ err (plain message)
    | ok url ↦
        if str_eq url.hash ""
        then ok none
        else (elim (decode_uri_component
            (to_text (find_name (split b'&' (after_first url.hash))))) [
              | err message ↦ err (plain message)
              | ok name ↦ ok (some name)
            ])
  ]

  -- the test of `serverFromAccessKey` at one server
  unfoldable pub has_access_key : String → OutlineServer → Bool
  has_access_key key server =
      (elim server.type [
        | dynamic_connection ↦ str_eq key server.access_key
        | static_connection ↦ false
      ])
      || static_keys_match key server.access_key

  unfoldable pub server_from_access_key : List OutlineServer → String → Option OutlineServer
  server_from_access_key [] key = none
  server_from_access_key (server ∷ servers) key =
      if has_access_key key server then some server else server_from_access_key servers key

  -- the checks of `validateStaticKey` on a parsed key
  unfoldable pub validate_config : ParsedConfig → Result Thrown (Unit {0})
  validate_config config =
      if config.host_is_ipv6
      then err (server_incompatible "unsupported IPv6 host address")
      else if is_server_cipher_supported (some config.method)
      then ok tt
      else err (
          shadowsocks_unsupported_cipher
            (if str_eq config.method "" then "unknown" else config.method))

  unfoldable pub validate_static_key : List OutlineServer → String → Result Thrown (Unit {0})
  unfolding validate_config
  validate_static_key servers key = elim (server_from_access_key servers key) [
    | some server ↦ err (server_already_added server.id)
    | none ↦ elim (parse_shadowsocks key) [
      | err message ↦
          err (
            server_url_invalid
              (if str_eq message "" then "failed to parse access key" else message))
      | ok config ↦ validate_config config
    ]
  ]

  -- `validateAccessKey`, with the servers that are in the list
  unfoldable pub validate_access_key : List OutlineServer → String → Result Thrown (Unit {0})
  validate_access_key servers key =
      if is_dynamic_access_key key
      then (elim (parse_url (replace_prefix "ssconf://" "https://" key)) [
        | ok _ ↦ ok tt
        | err message ↦ err (server_url_invalid message)
      ])
      else validate_static_key servers key
