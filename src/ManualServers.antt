-- ===== src/ManualServers.antt =====
-- server_manager/web_app/manual_server.ts: the servers that a user has added to the manager by hand, and
-- their storage. A server goes by its configuration.
pub mod Kept
mod Tests
use Prim.Native.String.{◌++◌}
use pepper_vpn_client.Common.{
  String, Bool, true, false, not, Option, none, some, List, [], ◌∷◌, if◌then◌else◌, str_eq,
}
use pepper_vpn_client.Common.Exec.{Result, ok, err, ◌>>=◌}
use pepper_vpn_client.Common.Text.{is_truthy}
use pepper_vpn_client.Common.Units.{Units}
use pepper_vpn_client.HexEncoding.{hex_to_string}

pub record ManualServerConfig : Type 0 where
  pub api_url : String
  pub cert_sha256 : Option Units

-- JSON at the list of configurations. An error is a message.
pub record ConfigsJson : Type 0 where
  pub stringify : List ManualServerConfig → String
  pub parse : String → Result String (List ManualServerConfig)

pub record ManualServerRepository : Type 0 where
  pub servers : List ManualServerConfig
  pub storage : Option String

-- the text of a fingerprint that may be absent
abbrev pub fingerprint_of : ManualServerConfig → Units
fingerprint_of config = elim config.cert_sha256 [ some text ↦ text | none ↦ [] ]

-- The id of a server.
unfoldable pub id_of : ManualServerConfig → String
id_of config = "manual:" ++ config.api_url

-- `createServer`: the constructor throws where the fingerprint is no hexadecimal text.
unfoldable pub create_server : ManualServerConfig → Result (Unit {0}) ManualServerConfig
create_server config = hex_to_string (fingerprint_of config) >>= λ _. ok config

unfoldable pub find_server : String → List ManualServerConfig → Option ManualServerConfig
find_server url [] = none
find_server url (server ∷ servers) =
    let later = find_server url servers in if str_eq server.api_url url then some server else later

-- the `map` of `loadServers`
unfoldable pub create_all : List ManualServerConfig → Result (Unit {0}) (List ManualServerConfig)
unfolding create_server
create_all [] = ok []
create_all (config ∷ configs) =
    create_server config >>= λ server. create_all configs >>= λ servers. ok (server ∷ servers)

abbrev pub push : List ManualServerConfig → ManualServerConfig → List ManualServerConfig
push [] config = config ∷ []
push (server ∷ servers) config = server ∷ push servers config

-- the `filter` of `forgetServer`
unfoldable pub without : String → List ManualServerConfig → List ManualServerConfig
without url [] = []
without url (server ∷ servers) =
    let rest = without url servers in if str_eq server.api_url url then rest else server ∷ rest

module _ (json : ConfigsJson) where
  -- `loadServers`, whose errors are caught: then there are no servers
  unfoldable pub load_servers : Option String → List ManualServerConfig
  unfolding create_all
  load_servers storage = elim storage [
    | none ↦ []
    | some text ↦
        if is_truthy (some text)
        then (elim (json.parse text) [
          | err _ ↦ []
          | ok configs ↦ elim (create_all configs) [ ok servers ↦ servers | err _ ↦ [] ]
        ])
        else []
  ]

  unfoldable pub new_repository : Option String → ManualServerRepository
  unfolding load_servers
  new_repository storage = record { servers = load_servers storage; storage = storage }

  abbrev pub store_servers : List ManualServerConfig → ManualServerRepository
  store_servers servers = record { servers = servers; storage = some (json.stringify servers) }

  -- `addServer`, with the server that it gives
  unfoldable pub add_server :
      ManualServerConfig
      → ManualServerRepository
      → ManualServerRepository × Result (Unit {0}) ManualServerConfig
  unfolding find_server create_server
  add_server config repo = elim (find_server config.api_url repo.servers) [
    | some server ↦ (repo, ok server)
    | none ↦ elim (create_server config) [
      | err e ↦ (repo, err e)
      | ok server ↦ (store_servers (push repo.servers server), ok server)
    ]
  ]

  -- `forget` of a server
  unfoldable pub forget_server : String → ManualServerRepository → ManualServerRepository
  unfolding without
  forget_server url repo = store_servers (without url repo.servers)
