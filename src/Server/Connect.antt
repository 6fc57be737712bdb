-- ===== src/Server/Connect.antt =====
-- Connecting and disconnecting: `connect` and `disconnect` of
-- src/www/app/outline_server_repository/server.ts.
use pepper_vpn_client.Common.{ℕ, Option, true, none, some, ◌≡◌, ◌↔◌, arith}
use pepper_vpn_client.Common.Exec.{Result, ok, err}
use pepper_vpn_client.Errors.{Thrown, NativeError, native_error, to_error_code}
use pepper_vpn_client.Errors.Codes.{from_error_code-eq-ok_iff, from_error_code_domain}
use pepper_vpn_client.AccessKey.{SessionConfig}
use pepper_vpn_client.Server.{
  static_connection, dynamic_connection, OutlineServer, tunnel_type, connect_error, Start,
  start_tunnel, connect, disconnect,
}

-- The configuration that a call of `connect` hands to the tunnel, if it has one.
abbrev pub config_used : Result Thrown SessionConfig → OutlineServer → Option SessionConfig
config_used fetched server = elim server.type [
  | static_connection ↦ server.session_config
  | dynamic_connection ↦ elim fetched [ ok config ↦ some config | err _ ↦ none ]
]

-- With a configuration at hand, `connect` succeeds exactly if the tunnel starts with it, under the
-- type of the configuration; the server keeps the configuration either way.
pub connect-eq-ok_iff :
    (start : Start) (fetched : Result Thrown SessionConfig) (server : OutlineServer)
    (config : SessionConfig)
    → config_used fetched server ≡ some config
    → (((connect start fetched server).1 ≡ ok tt) ↔ (start config (tunnel_type config) ≡ ok tt))
      × ((connect start fetched server).0 ≡ record server { session_config = some config })
unfolding connect start_tunnel
connect-eq-ok_iff start fetched server config used =
    ((λ h. ground arith, λ h. ground arith), ground arith)

-- A tunnel that fails with the code of a native error makes `connect` throw that error; the server
-- keeps the configuration that it tried.
pub connect_native_error :
    (start : Start) (fetched : Result Thrown SessionConfig) (server : OutlineServer)
    (config : SessionConfig) (e : NativeError) (c : ℕ)
    → config_used fetched server ≡ some config
    → to_error_code e ≡ ok c
    → start config (tunnel_type config) ≡ err (some c)
    → connect start fetched server
      ≡ (record server { session_config = some config }, err (native_error e))
unfolding connect start_tunnel connect_error
connect_native_error start fetched server config e c used code failed =
    let found = (from_error_code-eq-ok_iff c e).1 code in
    let (positive, _) = (from_error_code_domain c).0 (e, found) in ground (arith, found, positive)

-- Once the tunnel has stopped, a server is as it was before it connected, whatever the call of
-- `connect` gave, if a dynamic server started without a configuration.
pub disconnect-connect :
    (start : Start) (fetched : Result Thrown SessionConfig) (server : OutlineServer)
    → (server.type ≡ dynamic_connection → server.session_config ≡ none)
    → disconnect true (connect start fetched server).0 ≡ (server, ok tt)
unfolding connect disconnect
disconnect-connect start fetched server rest = ground arith
