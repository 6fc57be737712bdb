-- ===== src/App.antt =====
-- src/www/app/app.ts, the class App: the list of server cards and what the handlers do to it and to
-- the repository. The calls of the root element are kept in their order, in `ui`. What an awaited
-- call gives is an argument of the handler, and so is what other handlers do meanwhile.
pub mod AccessKeys
pub mod Display
pub mod Toasts
pub mod Listeners
pub mod Connecting
pub mod Adding
pub mod Feedback
pub mod Cards
pub mod States
pub mod Timeouts
pub mod Outcomes
pub mod Answers
pub mod Shown
mod Tests
use pepper_vpn_client.Common.{
  ℕ, String, Bool, true, false, Option, none, some, List, [], ◌∷◌, ◌++◌, ◌||◌, if◌then◌else◌,
  str_eq, map,
}
use pepper_vpn_client.Common.Map
use pepper_vpn_client.Errors.{Thrown}
use pepper_vpn_client.Server.{OutlineServer}
use pepper_vpn_client.Repository.{Repository}
use pepper_vpn_client.Repository.Keys.{Environment}
use pepper_vpn_client.Settings.{Settings, SettingsJson}

-- `ServerConnectionState`
pub data ServerConnectionState : Type 0 where
  connecting connected reconnecting disconnecting disconnected : ServerConnectionState

-- `ServerListItem`
pub record ServerListItem : Type 0 where
  pub disabled : Bool
  pub error_message_id : Option String
  pub is_outline_server : Bool
  pub name : String
  pub address : Option String
  pub id : String
  pub connection_state : ServerConnectionState

-- An error that a handler meets: one of the repository and the servers, one of the feedback form, one
-- of a timeout, or no error at all.
pub data AppError : Type 0 where
  thrown : Thrown → AppError
  feedback_submission_error operation_timed_out undefined : AppError

pub data Duration : Type 0 where
  usual forever : Duration
  milliseconds : ℕ → Duration

-- What the button of a toast does.
pub data Action : Type 0 where
  no_action show_feedback_page show_error_details : Action
  undo_forget_server : String → Action

pub record Toast : Type 0 where
  pub message : String
  pub duration : Duration
  pub button : Option String
  pub action : Action
  pub link : Option String

-- The calls of the root element and of the elements in it.
pub data UiCall : Type 0 where
  show_toast show_toast_later : Toast → UiCall
  change_to_default_page open_add_server_sheet close_add_server_view : UiCall
  open_confirmation_sheet : String → UiCall
  access_key_invalid show_auto_connect_dialog prompt_add_server : UiCall
  -- the address of a card is updated when the connection indicator has stopped moving
  update_address_later : String → UiCall
  hide_privacy_view show_privacy_view reset_feedback_form : UiCall
  set_submitting : Bool → UiCall
  set_language : String → UiCall

pub record App : Type 0 where
  pub repository : Repository
  -- whether a listener has thrown out of the event queue, which then never publishes again
  pub publishing_stopped : Bool
  pub servers : List ServerListItem
  pub ignored_access_keys : List String
  pub server_connection_change_timeouts : List String
  pub settings : Settings
  pub ui : List UiCall

-- What the application is given: what the repository calls, the texts in the user's language, JSON
-- at the settings, and whether the window is without Cordova.
pub record AppEnvironment : Type 0 where
  pub environment : Environment
  pub localize : String → List String → String
  pub settings_json : SettingsJson
  pub is_windows : Bool

abbrev pub call : UiCall → App → App
call c app = record app { ui = app.ui ++ c ∷ [] }

abbrev pub plain_toast : String → Toast
plain_toast message = record {
  message = message;
  duration = usual;
  button = none;
  action = no_action;
  link = none;
}

unfoldable pub update_card :
    String → (ServerListItem → ServerListItem) → List ServerListItem → List ServerListItem
update_card id change [] = []
update_card id change (card ∷ cards) =
    (if str_eq card.id id then change card else card) ∷ update_card id change cards

-- `updateServerListItem`, with the properties as a function of the card
unfoldable pub update_server_list_item : String → (ServerListItem → ServerListItem) → App → App
unfolding update_card
update_server_list_item id change app = record app { servers = update_card id change app.servers }

abbrev pub with_state : ServerConnectionState → ServerListItem → ServerListItem
with_state state card = record card { connection_state = state }

abbrev pub has_key : List String → String → Bool
has_key [] key = false
has_key (k ∷ ks) key = str_eq k key || has_key ks key

-- `throttleServerConnectionChange`, where the server has no timeout that runs
abbrev pub start_timeout : String → App → App
start_timeout id app = record app {
  server_connection_change_timeouts = id ∷ app.server_connection_change_timeouts;
}

abbrev pub remove_key : String → List String → List String
remove_key key [] = []
remove_key key (k ∷ ks) = let rest = remove_key key ks in if str_eq k key then rest else k ∷ rest

-- The timeout of a server has passed.
unfoldable pub timeout_passes : String → App → App
timeout_passes id app = record app {
  server_connection_change_timeouts = remove_key id app.server_connection_change_timeouts;
}

-- A server that the code holds, as it is now: the repository and the last forgotten server are the
-- same object.
unfoldable pub current : OutlineServer → App → OutlineServer
current server app = elim (Map.get app.repository.server_by_id server.id) [
  | some now ↦ now
  | none ↦ elim app.repository.last_forgotten_server [
    | some now ↦ if str_eq now.id server.id then now else server
    | none ↦ server
  ]
]

-- The fields of a server have changed.
unfoldable pub put_server : OutlineServer → App → App
put_server server app = elim (Map.get app.repository.server_by_id server.id) [
  | some _ ↦ record app {
    repository = record app.repository {
      server_by_id = Map.set app.repository.server_by_id server.id server;
    };
  }
  | none ↦ elim app.repository.last_forgotten_server [
    | some now ↦
        if str_eq now.id server.id
        then record app {
          repository = record app.repository { last_forgotten_server = some server };
        }
        else app
    | none ↦ app
  ]
]
