-- ===== src/Repository/Runs.antt =====
-- A concrete environment for runs of src/www/app/outline_server_repository/index.ts.
use Prim.Native.String
use pepper_vpn_client.Common.{
  String, true, false, Option, none, some, List, [], ◌∷◌, ◌≡◌, refl, arith,
}
use pepper_vpn_client.Common.Map
use pepper_vpn_client.Common.Map.{Entries}
use pepper_vpn_client.Common.Exec.{Result, ok, err}
use pepper_vpn_client.Common.Text.{starts_with, strip_prefix}
use pepper_vpn_client.Errors.{server_access_key_invalid}
use pepper_vpn_client.AccessKey.{Url, ParsedConfig, shadowsocks, is_dynamic_access_key}
use pepper_vpn_client.Server.{OutlineServer, static_connection, fetch_location}
use pepper_vpn_client.Repository.{Repository, servers_storage_key}
use pepper_vpn_client.Repository.Keys.{Environment, OutlineServerJson}
use pepper_vpn_client.Repository.Invariant.{IsConsistent}

abbrev pub config_of : String → ParsedConfig
config_of password = record {
  host = "h";
  host_is_ipv6 = false;
  port = 443;
  method = "aes-256-gcm";
  password = password;
  prefix = none;
}

-- A key "ss://X" has the password X.
abbrev pub parse_key : String → Result String ParsedConfig
parse_key key = elim (strip_prefix "ss://" key) [
  | none ↦ err "no ss key"
  | some rest ↦ ok (config_of rest)
]

-- Every https location has the fragment "#a=b".
abbrev pub parse_location : String → Result String Url
parse_location text = elim (strip_prefix "https://" text) [
  | none ↦ err "no url"
  | some rest ↦ ok (record { hostname = rest; port = ""; protocol = "https:"; hash = "#a=b" })
]

-- The texts stand for the lists by their lengths.
abbrev pub environment : List OutlineServerJson → Environment
environment saved = record {
  parsers = record {
    parse_shadowsocks = parse_key;
    parse_url = parse_location;
    decode_uri_component = λ s. ok s;
  };
  stringify = λ _. "saved";
  parse_servers = λ _. ok saved;
  parse_servers_v0 = λ _. err "no V0 list";
  make_access_key = λ _. err server_access_key_invalid;
}

abbrev pub static_server : String → String → Option String → OutlineServer
static_server id password name = record {
  id = id;
  access_key = String.◌++◌ "ss://" password;
  type = static_connection;
  name = name;
  session_config = some (
      shadowsocks (record {
        host = some "h";
        port = some 443;
        password = some password;
        method = some "aes-256-gcm";
        prefix = none;
      }));
  error_message_id = none;
}

abbrev pub repository_of : List OutlineServer → Option OutlineServer → Repository
repository_of servers last = record {
  server_by_id = elim servers [ [] ↦ [] | server ∷ _ ↦ (server.id, server) ∷ [] ];
  last_forgotten_server = last;
  storage = (servers_storage_key, "saved") ∷ [];
  events = [];
}

abbrev pub empty : Repository
empty = repository_of [] none

abbrev pub env : Environment
env = environment []

pub empty-IsConsistent : (list : List OutlineServerJson) → IsConsistent (environment list) empty
unfolding Map.get
empty-IsConsistent list = record { stored = refl; loads = tt; forgotten = λ server e. cc }

pub is_static : is_dynamic_access_key "ss://A" ≡ false
unfolding is_dynamic_access_key starts_with strip_prefix
is_static = refl

pub empty_free : Map.get empty.server_by_id "a" ≡ none
unfolding Map.get
empty_free = refl

pub static_parses :
    (list : List OutlineServerJson)
    → is_dynamic_access_key "ss://A" ≡ true
    → (url : Url) × ((environment list).parsers.parse_url (fetch_location "ss://A") ≡ ok url)
static_parses list d = absurd (ground (arith, is_static))
