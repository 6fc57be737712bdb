-- ===== src/App/Tests.antt =====
-- Runs of src/www/app/app.ts.
use pepper_vpn_client.App.{
  connecting, with_state, update_server_list_item, open_confirmation_sheet, call, disconnecting,
  current, connected, Settings, disconnected, ServerListItem, App, ServerConnectionState,
  AppEnvironment,
}
use pepper_vpn_client.App.Timeouts.{timeouts}
use pepper_vpn_client.Repository.{
  add, new_server, create_server, tolerate, name_of_new, store_servers, to_json, load_all,
  load_servers,
}
use pepper_vpn_client.Repository.Keys.{
  validate_access_key, validate_static_key, server_from_access_key, validate_config, has_access_key,
  static_keys_match, server_name_from_access_key,
}
use pepper_vpn_client.AccessKey.{
  is_dynamic_access_key, static_key_to_session_config, replace_prefix, Url,
}
use pepper_vpn_client.Common.Text.{starts_with, split, includes, strip_prefix}
use pepper_vpn_client.Server.{
  is_server_cipher_supported, new_outline_server, disconnect, dynamic_connection, connect,
  OutlineServer,
}
use pepper_vpn_client.App.Listeners.{publish, on_event, on_server_added, publish_all}
use pepper_vpn_client.App.Adding.{
  add_and_publish, request_add_server, handle_clipboard_text, start_app,
}
use pepper_vpn_client.App.Display.{
  display_name, make_items, make_server_list_item, is_outline_server, address, sync_servers_to_ui,
}
use pepper_vpn_client.App.Shown.Runs.{adds, here, next, cards_after_handlers}
use pepper_vpn_client.App.Cards.{server_ids, card_ids}
use pepper_vpn_client.App.Answers.{handle_clipboard_text-eq, clipboard_key, may_ask}
use pepper_vpn_client.App.States.{Shows, is_ok, waiting}
use pepper_vpn_client.App.Outcomes.{
  disconnect_server-Shows, connect_server-Shows, connection, connects_fully,
}
use pepper_vpn_client.App.Connecting.{disconnect_server, Connection, connect_server}
use pepper_vpn_client.Common.{
  ◌&&◌, String, true, false, none, some, List, [], ◌∷◌, ◌≡◌, refl, if◌then◌else◌,
}
use pepper_vpn_client.Settings.{settings_keys}
use pepper_vpn_client.Errors.{plain}
use pepper_vpn_client.Repository.Runs.{
  parse_location, environment, static_server, repository_of, empty,
}
use pepper_vpn_client.Common.Map
use pepper_vpn_client.Common.Exec.{ok, err}

abbrev env : AppEnvironment
env = record {
  environment = environment [];
  localize = λ id parameters. id;
  settings_json = record { stringify = λ _. "saved"; parse = λ _. ok [] };
  is_windows = true;
}

abbrev settings : Settings
settings = record { settings = []; storage = []; valid_keys = settings_keys }

abbrev server : OutlineServer
server = static_server "a" "A" (some "Home")

abbrev card : ServerConnectionState → ServerListItem
card state = record {
  disabled = false;
  error_message_id = none;
  is_outline_server = false;
  name = "Home";
  address = some "h:443";
  id = "a";
  connection_state = state;
}

abbrev app_with : List String → App
app_with timeouts = record {
  repository = repository_of (server ∷ []) none;
  publishing_stopped = false;
  servers = card disconnected ∷ [];
  ignored_access_keys = [];
  server_connection_change_timeouts = timeouts;
  settings = settings;
  ui = [];
}

abbrev app : App
app = app_with []

test_start : (start_app env (repository_of (server ∷ []) none) settings) ≡ (app, ok tt)
unfolding start_app sync_servers_to_ui Map.values strip_prefix
test_start = refl

abbrev connection_ok : Connection
connection_ok = record {
  start = λ config type. ok tt;
  fetched = err (plain "");
  confirms = false;
  installed = ok tt;
}

found : Map.get app.repository.server_by_id "a" ≡ some server
unfolding Map.get
found = refl

connect_server-Shows_example :
    Shows "a"
      (if connects_fully env (connection env (λ a. a) connection_ok "a" server app)
        then connected
        else disconnected)
      (connect_server env (λ a. a) (λ a. a) connection_ok "a" app).0
    × (timeouts (connect_server env (λ a. a) (λ a. a) connection_ok "a" app).0
        ≡ timeouts (
            update_server_list_item "a"
              (with_state connecting)
              (record app { server_connection_change_timeouts = "a" ∷ timeouts app })))
connect_server-Shows_example =
    connect_server-Shows env (λ a. a) (λ a. a) connection_ok "a" server app refl refl found
      (λ a. refl) (λ a. refl)

test_connect :
    (connect_server env (λ a. a) (λ a. a) connection_ok "a" app).0.servers ≡ card connected ∷ []
unfolding connect_server connect Map.get current pepper_vpn_client.App.update_server_list_item
    pepper_vpn_client.Server.start_tunnel display_name pepper_vpn_client.App.put_server
    pepper_vpn_client.App.Display.address
test_connect = refl

disconnect_server-Shows_example :
    Shows "a"
      (if connects_fully env
          (disconnect true (current server (waiting (λ a. a) disconnecting "a" app)))
        then disconnected
        else connected)
      (disconnect_server env (λ a. a) true "a" app).0
disconnect_server-Shows_example =
    disconnect_server-Shows env (λ a. a) true "a" server app refl refl found

handle_clipboard_text-eq_example : handle_clipboard_text env false "ss://B" app ≡ (
    if may_ask env false (clipboard_key env "ss://B") app
      && is_ok (validate_access_key (environment []) (server ∷ []) (clipboard_key env "ss://B"))
    then call (open_confirmation_sheet (clipboard_key env "ss://B")) app
    else app)
unfolding Map.values
handle_clipboard_text-eq_example = handle_clipboard_text-eq env false "ss://B" app

abbrev location : Url
location = record { hostname = "B"; port = ""; protocol = "https:"; hash = "#a=b" }

location_parses : parse_location "https://B" ≡ ok location
unfolding strip_prefix
location_parses = refl

abbrev started : App
started = (start_app env empty settings).0

loads : load_servers (environment []) empty.storage ≡ ok empty
unfolding load_servers load_all Map.get
loads = refl

starts : (start_app env empty settings).1 ≡ ok tt
unfolding start_app sync_servers_to_ui Map.values
starts = refl

abbrev with_server_added : App
with_server_added = (request_add_server env "a" "ss://A" started).0

added_goes_on : with_server_added.publishing_stopped ≡ false
unfolding start_app request_add_server add new_server validate_access_key is_dynamic_access_key
    starts_with validate_static_key server_from_access_key validate_config has_access_key
    static_keys_match Map.values Map.get Map.set sync_servers_to_ui is_server_cipher_supported split
    includes create_server new_outline_server static_key_to_session_config tolerate publish
    replace_prefix add_and_publish display_name on_event on_server_added publish_all name_of_new
    server_name_from_access_key store_servers strip_prefix make_items make_server_list_item to_json
    is_outline_server address
added_goes_on = refl

cards_after_handlers_example :
    card_ids with_server_added.servers
    ≡ server_ids (Map.values with_server_added.repository.server_by_id)
cards_after_handlers_example =
    cards_after_handlers env empty.storage empty settings with_server_added loads starts
      (next here (adds "a" "ss://A")) added_goes_on
