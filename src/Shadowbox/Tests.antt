-- ===== src/Shadowbox/Tests.antt =====
-- Runs of server_manager/web_app/shadowbox_server.ts and server_manager/infrastructure/path_api.ts.
use pepper_vpn_client.Shadowbox.{
  limit_body, hostname_body, port_body, metrics_body, name_body, Request, port_to, Body,
  ServerConfig, ShadowboxServer, hostname_to, name_to, failed, setter_begins, setter_ends,
  get_hostname_for_access_keys,
}
use pepper_vpn_client.Common.{
  str_eq, if◌then◌else◌, Bool, List, String, true, false, none, some, [], ◌∷◌, ◌≡◌, refl,
}
use pepper_vpn_client.Common.Exec.{ok, err}
use pepper_vpn_client.Common.Map
use pepper_vpn_client.Common.Decimal.{to_decimal}
use pepper_vpn_client.PathApi.{ApiError, server_api_error, request, request_url}
use pepper_vpn_client.Shadowbox.AccessKeys.{usage_map}
use pepper_vpn_client.Shadowbox.Replaying.{config_replays, refused_hostname_kept}
use pepper_vpn_client.Shadowbox.Remote.{
  IsDocumented, World, Event, asks, serves, tells_config, arrives, deliver_all, all_happen, pick,
}
use pepper_vpn_client.Shadowbox.Arriving.{Holds}

abbrev config_at_first : ServerConfig
config_at_first = record {
  name = "a";
  metrics_enabled = false;
  server_id = "s";
  created_timestamp_ms = 0;
  port_for_new_access_keys = none;
  hostname_for_access_keys = some "old";
  version = "1.6.0";
  access_key_data_limit = none;
}

abbrev server : ShadowboxServer
server = record {
  id = "1";
  base = some "https://1.2.3.4/";
  server_config = some config_at_first;
  requests = [];
}

abbrev refusal : ApiError
refusal = server_api_error "refused" none

-- A server that does what is documented.
abbrev by_body : Body → ServerConfig → ServerConfig
by_body (name_body name) c = record c { name = name }
by_body (metrics_body on) c = record c { metrics_enabled = on }
by_body (port_body port) c = record c { port_for_new_access_keys = some port }
by_body (hostname_body hostname) c = record c { hostname_for_access_keys = some hostname }
by_body (limit_body limit) c = record c { access_key_data_limit = some limit }
by_body _ c = c

abbrev serve : Request → ServerConfig → ServerConfig
serve r c =
    if str_eq r.method "PUT" then by_body r.body c else record c { access_key_data_limit = none }

documented : IsDocumented serve
documented = record {
  put_name = λ name c. refl;
  put_metrics = λ on c. refl;
  put_port = λ port c. refl;
  put_hostname = λ hostname c. refl;
  put_limit = λ limit c. refl;
  put_old_limit = λ limit c. refl;
  delete_limit = λ c. refl;
  delete_old_limit = λ c. refl;
}

abbrev at_first : World
at_first = record { object = server; remote = config_at_first; pending = []; answers = [] }

abbrev gte : String → String → Bool
gte a b = true

-- Three setters at once: the server handles the last one first, and refuses the second. The
-- configuration is asked for in between, and the last answer is still under way.
abbrev events : List Event
events =
    asks (name_to "b")
    ∷ asks (hostname_to "new")
    ∷ asks (port_to 443)
    ∷ serves 2 (ok tt)
    ∷ tells_config
    ∷ serves 1 (err refusal)
    ∷ arrives
    ∷ arrives
    ∷ serves 0 (ok tt)
    ∷ []

config_replays_example :
    Holds
      (deliver_all
        (all_happen gte serve events at_first).answers
        (all_happen gte serve events at_first).object)
      (all_happen gte serve events at_first).remote
config_replays_example = config_replays gte serve documented events server config_at_first refl

-- the server has the new name and the new port
remote_at_last :
    (all_happen gte serve events at_first).remote
    ≡ record config_at_first { name = "b"; port_for_new_access_keys = some 443 }
unfolding all_happen setter_begins pick
remote_at_last = refl

abbrev refused : World
refused =
    all_happen gte serve (asks (hostname_to "new") ∷ serves 0 (err refusal) ∷ arrives ∷ []) at_first

refused_hostname_kept_example :
    ((setter_ends
        (hostname_to "new")
        (err refusal)
        (setter_begins gte (hostname_to "new") server).0).1
      ≡ err (failed refusal))
    × (get_hostname_for_access_keys (λ u. none) refused.object ≡ "new")
    × (refused.remote ≡ config_at_first)
refused_hostname_kept_example =
    refused_hostname_kept gte serve (λ u. none) "new" "https://1.2.3.4/" refusal server
      config_at_first refl refl

usage : usage_map (("1", some 5) ∷ ("2", none) ∷ []) [] ≡ ("1", 5) ∷ ("2", 0) ∷ []
unfolding usage_map Map.set
usage = refl

url : request_url "https://1.2.3.4" "name" ≡ "https://1.2.3.4/name"
unfolding request_url
url = refl

failing_status :
    request {T = String}
      (λ r. ok (record { status = 404; body = none }))
      (λ text. ok text)
      "b"
      "name"
      "PUT"
      none
      none
    ≡ err (
        server_api_error "API request to name failed with status 404"
          (some (record { status = 404; body = none })))
unfolding request to_decimal
failing_status = refl
