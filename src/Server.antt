-- ===== src/Server.antt =====
-- src/www/app/outline_server_repository/server.ts: one server of the list. What the tunnel answers
-- to `start` and `stop`, and what fetching a configuration gives, are arguments.
pub mod Location
pub mod Connect
mod Tests
use pepper_vpn_client.Common.{
  ℕ, String, Bool, false, Option, none, some, List, [], ◌∷◌, ◌||◌, if◌then◌else◌, str_eq, ◌==◌,
}
use pepper_vpn_client.Common.Exec.{Result, ok, err, ◌>>=◌}
use pepper_vpn_client.Errors.{
  Thrown, native_error, plain, proxy_connection_failure, regular_native, from_error_code,
}
use pepper_vpn_client.AccessKey.{
  SessionConfig, shadowsocks, xray, Parsers, replace_prefix, static_key_to_session_config,
}

pub data ServerType : Type 0 where
  static_connection dynamic_connection : ServerType

-- An `OutlineServer`. Its tunnel goes by the server's id.
pub record OutlineServer : Type 0 where
  pub id : String
  pub access_key : String
  pub type : ServerType
  pub name : Option String
  pub session_config : Option SessionConfig
  pub error_message_id : Option String

-- the two `replace` calls of the constructor
unfoldable pub fetch_location : String → String
fetch_location key = replace_prefix "xray://" "https://" (replace_prefix "ssconf://" "https://" key)

-- The constructor, without the tunnel's listener.
unfoldable pub new_outline_server :
    Parsers → String → String → ServerType → Option String → Result Thrown OutlineServer
new_outline_server parsers id key dynamic_connection name = ok (record {
  id = id;
  access_key = fetch_location key;
  type = dynamic_connection;
  name = name;
  session_config = none;
  error_message_id = none;
})
new_outline_server parsers id key static_connection name =
    static_key_to_session_config parsers key >>= λ config. ok (record {
      id = id;
      access_key = key;
      type = static_connection;
      name = name;
      session_config = some (shadowsocks config);
      error_message_id = none;
    })

abbrev pub supported_ciphers : List String
supported_ciphers = "chacha20-ietf-poly1305" ∷ "aes-128-gcm" ∷ "aes-192-gcm" ∷ "aes-256-gcm" ∷ []

-- `ciphers.includes(cipher)`
abbrev pub contains : List String → String → Bool
contains [] c = false
contains (d ∷ ds) c = str_eq d c || contains ds c

unfoldable pub is_server_cipher_supported : Option String → Bool
is_server_cipher_supported none = false
is_server_cipher_supported (some c) = contains supported_ciphers c

-- `tunnelType`
unfoldable pub tunnel_type : SessionConfig → String
tunnel_type (shadowsocks _) = "ss"
tunnel_type (xray _) = "xray"

-- The `catch` of `connect`: native code rejects with an object that may hold an `errorCode`; a code
-- of 0 counts as none.
unfoldable pub connect_error : Option ℕ → Thrown
connect_error none = proxy_connection_failure
connect_error (some c) =
    if c == 0
    then proxy_connection_failure
    else (elim (from_error_code c) [ ok e ↦ native_error e | err e ↦ e ])

-- What `tunnel.start` answers to a configuration and a tunnel type: an error holds its code, if any.
abbrev pub Start : Type 0
Start = SessionConfig → String → Result (Option ℕ) (Unit {0})

-- The `try` of `connect`. With no configuration, `'xrayConfig' in undefined` throws before it.
unfoldable pub start_tunnel : Start → Option SessionConfig → Result Thrown (Unit {0})
unfolding connect_error
start_tunnel start none = err (plain "TypeError")
start_tunnel start (some config) = elim (start config (tunnel_type config)) [
  | ok _ ↦ ok tt
  | err code ↦ err (connect_error code)
]

-- `connect`; `fetched` is what `fetchSessionConfig` gives for a dynamic server. The configuration
-- stays when the tunnel does not start.
unfoldable pub connect :
    Start → Result Thrown SessionConfig → OutlineServer → OutlineServer × Result Thrown (Unit {0})
connect start fetched server = elim server.type [
  | static_connection ↦ (server, start_tunnel start server.session_config)
  | dynamic_connection ↦ elim fetched [
    | err e ↦ (server, err e)
    | ok config ↦ (record server { session_config = some config }, start_tunnel start (some config))
  ]
]

-- `disconnect`; `stopped` tells whether `tunnel.stop` was fulfilled.
unfoldable pub disconnect : Bool → OutlineServer → OutlineServer × Result Thrown (Unit {0})
disconnect stopped server =
    if stopped
    then (elim server.type [
      | static_connection ↦ (server, ok tt)
      | dynamic_connection ↦ (record server { session_config = none }, ok tt)
    ])
    else (server, err (native_error regular_native))
