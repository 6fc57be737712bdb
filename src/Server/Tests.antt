-- ===== src/Server/Tests.antt =====
-- Runs of src/www/app/outline_server_repository/server.ts.
use pepper_vpn_client.Common.{none, some, ◌≡◌, ◌↔◌, refl, str_eq, if◌then◌else◌}
use pepper_vpn_client.Common.Exec.{ok, err}
use pepper_vpn_client.AccessKey.{SessionConfig, xray}
use pepper_vpn_client.Server.{dynamic_connection, OutlineServer, Start, tunnel_type, connect}
use pepper_vpn_client.Server.Connect.{connect-eq-ok_iff}

abbrev fetched_config : SessionConfig
fetched_config = xray (record { xray_config = "{}"; host = some "h" })

abbrev server : OutlineServer
server = record {
  id = "b";
  access_key = "https://b";
  type = dynamic_connection;
  name = none;
  session_config = none;
  error_message_id = none;
}

-- A tunnel that starts for xray configurations, and finds other servers unreachable.
abbrev start : Start
start = λ config type. if str_eq type "xray" then ok tt else err (some 5)

xray_starts_iff :
    (((connect start (ok fetched_config) server).1 ≡ ok tt)
      ↔ (start fetched_config (tunnel_type fetched_config) ≡ ok tt))
    × ((connect start (ok fetched_config) server).0
        ≡ record server { session_config = some fetched_config })
xray_starts_iff = connect-eq-ok_iff start (ok fetched_config) server fetched_config refl

xray_starts : (connect start (ok fetched_config) server).1 ≡ ok tt
unfolding tunnel_type
xray_starts = xray_starts_iff.0.1 refl
