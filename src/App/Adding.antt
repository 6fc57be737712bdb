-- ===== src/App/Adding.antt =====
-- Adding servers, the clipboard and intercepted links, and settings: the handlers of
-- src/www/app/app.ts. `is_adding` is what `isAddingServer` of the view tells.
use Prim.Native.Char.{code}
use pepper_vpn_client.Common.{
  ℕ, zero, suc, String, Bool, true, false, Option, none, some, [], ◌∷◌, ◌&&◌, not, if◌then◌else◌,
  str_eq, ltb,
}
use pepper_vpn_client.Common.Map
use pepper_vpn_client.Common.Exec.{Result, ok, err}
use pepper_vpn_client.Common.Text.{starts_with, trim}
use pepper_vpn_client.Errors.{server_already_added}
use pepper_vpn_client.App.Display.{sync_servers_to_ui}
use pepper_vpn_client.Repository.{Repository, add, undo_forget}
use pepper_vpn_client.Repository.Keys.{validate_access_key}
use pepper_vpn_client.Settings
use pepper_vpn_client.App.{
  AppEnvironment, thrown, App, call, change_to_default_page, open_confirmation_sheet,
  close_add_server_view, access_key_invalid, prompt_add_server, hide_privacy_view,
  show_privacy_view, open_add_server_sheet, show_toast, milliseconds, plain_toast, has_key,
  connected, disconnected, with_state, update_server_list_item,
}
use pepper_vpn_client.App.AccessKeys.{unwrap_invite, is_outline_access_key}
use pepper_vpn_client.App.Toasts.{show_localized_error}
use pepper_vpn_client.App.Listeners.{Handled, then_do, publish}

-- `text.substring(0, n)` for an `n` in code units; a character of two units that would be cut in
-- half is left out.
unfoldable pub take_units : ℕ → String → String
take_units zero s = ""
take_units (suc n) String.[] = ""
take_units (suc zero) (String.◌∷◌ c s) = if ltb (code c) 0x10000 then String.◌∷◌ c "" else ""
take_units (suc (suc n)) (String.◌∷◌ c s) =
    let short = take_units (suc n) s in
    let long = take_units n s in String.◌∷◌ c (if ltb (code c) 0x10000 then short else long)

module _ (env : AppEnvironment) where
  open env use {environment, localize, settings_json}
  open environment use {parsers}

  -- `requestIgnoreServer`
  unfoldable pub request_ignore_server : String → App → App
  request_ignore_server key app = record app { ignored_access_keys = key ∷ app.ignored_access_keys }

  -- whether `confirmAddServer` leaves a text of the clipboard alone
  unfoldable pub is_left_alone : String → App → Bool
  is_left_alone key app =
      if has_key app.ignored_access_keys key then true else starts_with key "https://"

  -- the `try` of `confirmAddServer`
  unfoldable pub validate_and_open : Bool → String → App → Handled
  validate_and_open from_clipboard key app =
      elim (validate_access_key environment (Map.values app.repository.server_by_id) key) [
        | ok _ ↦ (call (open_confirmation_sheet key) app, ok tt)
        | err (server_already_added id) ↦
            if from_clipboard
            then (app, err (server_already_added id))
            else show_localized_error env (thrown (server_already_added id))
                (call close_add_server_view app)
        | err e ↦ (app, err e)
      ]

  unfoldable pub confirm_add_server : Bool → Bool → String → App → Handled
  unfolding is_left_alone validate_and_open
  confirm_add_server is_adding from_clipboard text app =
      let key = unwrap_invite parsers text in
      if from_clipboard && not is_adding && is_left_alone key app
      then (app, ok tt)
      else validate_and_open from_clipboard key app

  -- `handleClipboardText`; what is thrown is caught
  unfoldable pub handle_clipboard_text : Bool → String → App → App
  unfolding confirm_add_server take_units
  handle_clipboard_text is_adding text app =
      (confirm_add_server is_adding true (trim (take_units 1000 text)) app).0

  -- `requestPromptAddServer`, with the contents of the clipboard if it can be read
  unfoldable pub request_prompt_add_server : (App → App) → Bool → Option String → App → App
  unfolding handle_clipboard_text
  request_prompt_add_server meanwhile is_adding contents app =
      let waited = meanwhile (call prompt_add_server app) in
      elim contents [ some text ↦ handle_clipboard_text is_adding text waited | none ↦ waited ]

  unfoldable pub request_add_server_confirmation : Bool → String → App → App
  unfolding confirm_add_server
  request_add_server_confirmation is_adding key app =
      let (asked, outcome) = confirm_add_server is_adding false key app in
      elim outcome [ ok _ ↦ asked | err _ ↦ call access_key_invalid asked ]

  -- The listener of `registerUrlInterceptionListener`.
  unfoldable pub intercept_url : Bool → String → App → Handled
  unfolding confirm_add_server
  intercept_url is_adding url app =
      if is_outline_access_key (unwrap_invite parsers url)
      then (let (asked, outcome) = confirm_add_server is_adding false url app in
          elim outcome [
            | ok _ ↦ (asked, ok tt)
            | err e ↦ show_localized_error env (thrown e) (call change_to_default_page asked)
          ])
      else (app, ok tt)

  -- `serverRepo.add`, with its event handled; the id is what `uuidv4` gives
  unfoldable pub add_and_publish : String → String → App → Handled
  add_and_publish id key app =
      let (repo, outcome) = add environment id key app.repository in
      then_do (record app { repository = repo }, outcome) (publish env)

  unfoldable pub request_add_server : String → String → App → Handled
  unfolding add_and_publish
  request_add_server id key app =
      let (added, outcome) = add_and_publish id key app in
      elim outcome [
        | ok _ ↦ (added, ok tt)
        | err e ↦ show_localized_error env (thrown e) (call change_to_default_page added)
      ]

  -- The button of the toast of a forgotten server. Where a listener throws, the repository still
  -- has the server as the last forgotten one.
  unfoldable pub undo_forget_pressed : String → App → Handled
  undo_forget_pressed id app =
      let (undone, outcome) =
        publish env (record app { repository = undo_forget environment id app.repository }) in
      elim outcome [
        | ok _ ↦ (undone, ok tt)
        | err e ↦ (
          record undone {
            repository = record undone.repository {
              last_forgotten_server = app.repository.last_forgotten_server;
            };
          },
          err e,
        )
      ]

  unfoldable pub are_privacy_terms_acked : App → Bool
  are_privacy_terms_acked app = elim (Map.get app.settings.settings "privacy-ack") [
    | some value ↦ str_eq value "true"
    | none ↦ false
  ]

  -- `settings.set` with a key that is valid
  unfoldable pub set_setting : String → App → App × Result String (Unit {0})
  set_setting key app =
      let (settings, outcome) = Settings.set settings_json key "true" app.settings in
      (record app { settings = settings }, outcome)

  unfoldable pub ack_privacy_terms : App → App × Result String (Unit {0})
  unfolding set_setting
  ack_privacy_terms app = set_setting "privacy-ack" (call hide_privacy_view app)

  unfoldable pub auto_connect_dialog_dismissed : App → App × Result String (Unit {0})
  unfolding set_setting
  auto_connect_dialog_dismissed app = set_setting "auto-connect-dialog-dismissed" app

  unfoldable pub update_downloaded : App → App
  update_downloaded app =
      call
        (show_toast (record (plain_toast (localize "update-downloaded" [])) {
          duration = milliseconds 60000;
        }))
        app

  -- `syncServerConnectivityState`; `running` is what `checkRunning` gives, an error being caught
  unfoldable pub sync_server_connectivity_state : Option Bool → String → App → App
  sync_server_connectivity_state running id app = elim running [
    | some true ↦ update_server_list_item id (with_state connected) app
    | some false ↦ update_server_list_item id (with_state disconnected) app
    | none ↦ app
  ]

  -- The constructor, with its listeners subscribed, up to the first views.
  unfoldable pub start_app : Repository → Settings.Settings → Handled
  start_app repository settings = sync_servers_to_ui env (record {
    repository = repository;
    publishing_stopped = false;
    servers = [];
    ignored_access_keys = [];
    server_connection_change_timeouts = [];
    settings = settings;
    ui = [];
  })

  -- The end of the constructor.
  unfoldable pub show_first_views : Bool → App → App
  unfolding are_privacy_terms_acked
  show_first_views should_show_zero_state app =
      let shown = if are_privacy_terms_acked app then app else call show_privacy_view app in
      if should_show_zero_state then call open_add_server_sheet shown else shown
