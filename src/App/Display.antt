-- ===== src/App/Display.antt =====
-- Names, addresses and cards in src/www/app/app.ts, with the getters of
-- src/www/app/outline_server_repository/server.ts that they read.
use Prim.Native.String.{◌++◌}
use mathlib.Core.List.{[], ◌∷◌}
use pepper_vpn_client.Common.{
  String, Bool, true, false, Option, none, some, List, if◌then◌else◌, str_eq,
}
use pepper_vpn_client.Common.Map
use pepper_vpn_client.Common.Exec.{Result, ok, err, ◌>>=◌}
use pepper_vpn_client.Common.Decimal.{to_decimal}
use pepper_vpn_client.Errors.{Thrown, plain}
use pepper_vpn_client.AccessKey.{shadowsocks, xray}
use pepper_vpn_client.Server.{OutlineServer, static_connection, dynamic_connection}
use pepper_vpn_client.App.{AppEnvironment, ServerListItem, disconnected, App}
use pepper_vpn_client.App.AccessKeys.{from_first}

-- the text that a template makes of a value that may be absent
abbrev printed : Option String → String
printed none = "undefined"
printed (some text) = text

-- the getter `address`; a configuration of xray has no port
unfoldable pub address : OutlineServer → Option String
unfolding to_decimal
address server = elim server.session_config [
  | none ↦ some ""
  | some (shadowsocks config) ↦ elim config.port [
    | none ↦ config.host
    | some port ↦ some (printed config.host ++ ":" ++ to_decimal port)
  ]
  | some (xray config) ↦ config.host
]

-- the getter `isOutlineServer`
unfoldable pub is_outline_server : OutlineServer → Bool
unfolding from_first
is_outline_server server = elim (from_first "outline=1" server.access_key) [
  | some _ ↦ true
  | none ↦ false
]

module _ (env : AppEnvironment) where
  -- `getServerDisplayName`. The location of a dynamic server is its key as a URL, which may not
  -- parse.
  unfoldable pub display_name : OutlineServer → Result Thrown String
  unfolding is_outline_server
  display_name server = elim server.name [
    | some (String.◌∷◌ c s) ↦ ok (String.◌∷◌ c s)
    | _ ↦ elim server.type [
      | dynamic_connection ↦ elim (env.environment.parsers.parse_url server.access_key) [
        | err message ↦ err (plain message)
        | ok url ↦
            if str_eq url.port "443" then ok url.hostname else ok (url.hostname ++ ":" ++ url.port)
      ]
      | static_connection ↦ ok (
          env.localize
            (if is_outline_server server
              then "server-default-name-outline"
              else "server-default-name")
            [])
    ]
  ]

  unfoldable pub make_server_list_item : OutlineServer → Result Thrown ServerListItem
  unfolding display_name address
  make_server_list_item server = display_name server >>= λ name. ok (record {
    disabled = false;
    error_message_id = server.error_message_id;
    is_outline_server = is_outline_server server;
    name = name;
    address = address server;
    id = server.id;
    connection_state = disconnected;
  })

  unfoldable pub make_items : List OutlineServer → Result Thrown (List ServerListItem)
  unfolding make_server_list_item
  make_items [] = ok []
  make_items (server ∷ servers) =
      make_server_list_item server >>= λ item. make_items servers >>= λ items. ok (item ∷ items)

  -- `syncServersToUI`
  unfoldable pub sync_servers_to_ui : App → App × Result Thrown (Unit {0})
  unfolding make_items
  sync_servers_to_ui app = elim (make_items (Map.values app.repository.server_by_id)) [
    | ok items ↦ (record app { servers = items }, ok tt)
    | err e ↦ (app, err e)
  ]
