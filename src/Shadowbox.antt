-- ===== src/Shadowbox.antt =====
-- server_manager/web_app/shadowbox_server.ts: the manager's view of a server, as the configuration that
-- it keeps and the requests that it sends. A method with an `await` is two functions, before it and
-- after it.
pub mod AccessKeys
pub mod Remote
pub mod Arriving
pub mod Replaying
mod Tests
use Prim.Native.String.{◌++◌}
use pepper_vpn_client.Common.{
  ℕ, String, Bool, true, false, Option, none, some, List, [], ◌∷◌, if◌then◌else◌,
}
use pepper_vpn_client.Common.Map
use pepper_vpn_client.Common.Exec.{Result, ok, err}
use pepper_vpn_client.PathApi.{ApiError}

-- `ServerConfigJson`; a limit is its number of bytes
pub record ServerConfig : Type 0 where
  pub name : String
  pub metrics_enabled : Bool
  pub server_id : String
  pub created_timestamp_ms : ℕ
  pub port_for_new_access_keys : Option ℕ
  pub hostname_for_access_keys : Option String
  pub version : String
  pub access_key_data_limit : Option ℕ

pub data Body : Type 0 where
  no_body : Body
  name_form name_body hostname_body : String → Body
  limit_body port_body : ℕ → Body
  metrics_body : Bool → Body

pub record Request : Type 0 where
  pub path : String
  pub method : String
  pub body : Body

-- `base` is the address of the API, once `setManagementApi` was called.
pub record ShadowboxServer : Type 0 where
  pub id : String
  pub base : Option String
  pub server_config : Option ServerConfig
  pub requests : List Request

pub data Failure : Type 0 where
  failed : ApiError → Failure
  type_error : Failure

abbrev pub Called : Type 0
Called = ShadowboxServer × Result Failure (Unit {0})

unfoldable pub new_shadowbox_server : String → ShadowboxServer
new_shadowbox_server id = record { id = id; base = none; server_config = none; requests = [] }

unfoldable pub set_management_api : String → ShadowboxServer → ShadowboxServer
set_management_api base s = record s { base = some base }

-- A call of the API, up to its answer.
abbrev pub send : Request → ShadowboxServer → Called
send request s = elim s.base [
  | none ↦ (s, err type_error)
  | some _ ↦ (record s { requests = request ∷ s.requests }, ok tt)
]

-- What a setter changes.
pub data Change : Type 0 where
  name_to hostname_to : String → Change
  metrics_to : Bool → Change
  port_to limit_to : ℕ → Change
  no_limit : Change

-- `getDefaultDataLimitPath`; `gte` is the comparison of versions
unfoldable pub default_data_limit_path : (String → String → Bool) → String → String
default_data_limit_path gte version =
    if gte version "1.4.0"
    then "server/access-key-data-limit"
    else "experimental/access-key-data-limit"

unfoldable pub request_of : (String → String → Bool) → String → Change → Request
unfolding default_data_limit_path
request_of gte version (name_to name) = record {
  path = "name";
  method = "PUT";
  body = name_body name;
}
request_of gte version (hostname_to hostname) = record {
  path = "server/hostname-for-access-keys";
  method = "PUT";
  body = hostname_body hostname;
}
request_of gte version (metrics_to on) = record {
  path = "metrics/enabled";
  method = "PUT";
  body = metrics_body on;
}
request_of gte version (port_to port) = record {
  path = "server/port-for-new-access-keys";
  method = "PUT";
  body = port_body port;
}
request_of gte version (limit_to limit) = record {
  path = default_data_limit_path gte version;
  method = "PUT";
  body = limit_body limit;
}
request_of gte version no_limit = record {
  path = default_data_limit_path gte version;
  method = "DELETE";
  body = no_body;
}

unfoldable pub apply_change : Change → ServerConfig → ServerConfig
apply_change (name_to name) c = record c { name = name }
apply_change (hostname_to hostname) c = record c { hostname_for_access_keys = some hostname }
apply_change (metrics_to on) c = record c { metrics_enabled = on }
apply_change (port_to port) c = record c { port_for_new_access_keys = some port }
apply_change (limit_to limit) c = record c { access_key_data_limit = some limit }
apply_change no_limit c = record c { access_key_data_limit = none }

-- The write of the configuration, which is not there before the server was found healthy.
unfoldable pub write_config : Change → ShadowboxServer → Called
unfolding apply_change
write_config change s = elim s.server_config [
  | none ↦ (s, err type_error)
  | some c ↦ (record s { server_config = some (apply_change change c) }, ok tt)
]

-- A setter up to its answer. `setHostnameForAccessKeys` writes the configuration first, and the path
-- of the data limit is by the version in the configuration.
unfoldable pub setter_begins : (String → String → Bool) → Change → ShadowboxServer → Called
unfolding request_of write_config
setter_begins gte (hostname_to hostname) s =
    let (written, outcome) = write_config (hostname_to hostname) s in
    elim outcome [
      | ok _ ↦ send (request_of gte "" (hostname_to hostname)) written
      | err e ↦ (written, err e)
    ]
setter_begins gte (limit_to limit) s = elim s.server_config [
  | none ↦ (s, err type_error)
  | some c ↦ send (request_of gte c.version (limit_to limit)) s
]
setter_begins gte no_limit s = elim s.server_config [
  | none ↦ (s, err type_error)
  | some c ↦ send (request_of gte c.version no_limit) s
]
setter_begins gte change s = send (request_of gte "" change) s

unfoldable pub setter_ends : Change → Result ApiError (Unit {0}) → ShadowboxServer → Called
unfolding write_config
setter_ends change (ok _) s = write_config change s
setter_ends change (err e) s = (s, err (failed e))

-- What a call of `isHealthy` meets. The promise is settled by the first of them, and a configuration
-- is kept whenever it comes.
pub data HealthEvent : Type 0 where
  config_arrives : ServerConfig → HealthEvent
  config_fails time_is_over : HealthEvent

abbrev pub fulfill : Bool → Option Bool → Option Bool
fulfill healthy none = some healthy
fulfill healthy (some before) = some before

unfoldable pub health_event :
    HealthEvent → ShadowboxServer × Option Bool → ShadowboxServer × Option Bool
health_event (config_arrives c) (s, answer) =
    (record s { server_config = some c }, fulfill true answer)
health_event config_fails (s, answer) = (s, fulfill false answer)
health_event time_is_over (s, answer) = (s, fulfill false answer)

-- `getHostnameForAccessKeys`; `hostname_of` is the host name of an address, if it parses
unfoldable pub get_hostname_for_access_keys : (String → Option String) → ShadowboxServer → String
get_hostname_for_access_keys hostname_of s =
    let of_api : String = elim s.base [
      | none ↦ ""
      | some base ↦ elim (hostname_of base) [ some hostname ↦ hostname | none ↦ "" ]
    ] in
    elim s.server_config [
      | none ↦ of_api
      | some c ↦ elim c.hostname_for_access_keys [ some hostname ↦ hostname | none ↦ of_api ]
    ]

unfoldable pub get_port_for_new_access_keys : ShadowboxServer → Option ℕ
get_port_for_new_access_keys s = elim s.server_config [
  | none ↦ none
  | some c ↦ c.port_for_new_access_keys
]
