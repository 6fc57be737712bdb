-- ===== src/App/Answers.antt =====
-- What the handlers of src/www/app/app.ts that forget and add servers do in the end.
use pepper_vpn_client.Common.{
  ◌⊎◌, ap, eq_refl, ◌∙◌, not, ◌||◌, String, Bool, true, false, Option, none, some, ◌∷◌, ◌≡◌, ◌&&◌,
  refl, arith, if◌then◌else◌, str_eq, inl, inr,
}
use pepper_vpn_client.Common.Exec.{Result, Result-cases, ok, err}
use pepper_vpn_client.App.{
  Thrown, open_confirmation_sheet, call, has_key, OutlineServer, App, AppEnvironment,
}
use pepper_vpn_client.Repository.Keys.{validate_access_key}
use pepper_vpn_client.Errors.{plain}
use pepper_vpn_client.Server.{dynamic_connection}
use pepper_vpn_client.App.States.{is_ok}
use pepper_vpn_client.App.Adding.{
  is_left_alone, take_units, validate_and_open, confirm_add_server, handle_clipboard_text,
  request_ignore_server,
}
use pepper_vpn_client.Common.Text.{starts_with, is_truthy, trim}
use pepper_vpn_client.App.Toasts.{toast_of, show_localized_error}
use pepper_vpn_client.AccessKey.{Url}
use pepper_vpn_client.App.Connecting.{disconnect_server, forget_server}
use pepper_vpn_client.App.AccessKeys.{unwrap_invite}
use pepper_vpn_client.App.Display.{display_name}
use Prim.Native.String.{◌++◌}
use pepper_vpn_client.Common.Map

no_text : (text : Option String) → is_truthy text ≡ false → (text ≡ none) ⊎ (text ≡ some "")
no_text none h = inl refl
no_text (some String.[]) h = inr refl
no_text (some (String.◌∷◌ c s)) h = cc

module _ (env : AppEnvironment) where
  -- A running server that is forgotten while its timeout runs is not disconnected: everything is as
  -- if it had not been running, whatever the tunnel would have answered.
  pub forget_throttled :
      (meanwhile stopping : App → App) (stopped : Bool) (id : String) (app : App)
      → has_key (meanwhile app).server_connection_change_timeouts id ≡ true
      → forget_server env meanwhile (some true) stopping stopped id app
        ≡ forget_server env meanwhile (some false) stopping stopped id app
  unfolding forget_server disconnect_server
  forget_throttled meanwhile stopping stopped id app throttled = ground arith

  -- With no server of the id there is no message either: the call rejects with a `TypeError`.
  pub forget_missing :
      (meanwhile : App → App) (running : Option Bool) (stopping : App → App) (stopped : Bool)
      (id : String) (app : App)
      → Map.get app.repository.server_by_id id ≡ none
      → forget_server env meanwhile running stopping stopped id app ≡ (app, err (plain "TypeError"))
  unfolding forget_server show_localized_error toast_of
  forget_missing meanwhile running stopping stopped id app absent = ground arith

  -- The name that is shown for a server without one, whose location has the default port, ends with
  -- a colon, since `new URL` gives such a port as a text of length 0.
  pub display_name_default_port :
      (server : OutlineServer) (url : Url)
      → is_truthy server.name ≡ false
      → server.type ≡ dynamic_connection
      → env.environment.parsers.parse_url server.access_key ≡ ok url
      → url.port ≡ ""
      → display_name env server ≡ ok (url.hostname ++ ":")
  unfolding display_name
  display_name_default_port server url unnamed dynamic parsed default_port =
      let other : str_eq url.port "443" ≡ false = rw default_port refl in
      let shown : url.hostname ++ ":" ++ url.port ≡ url.hostname ++ ":" = rw default_port refl in
      let tested : Result Thrown String =
        if str_eq url.port "443" then ok url.hostname else ok (url.hostname ++ ":" ++ url.port) in
      let named : tested ≡ ok (url.hostname ++ ":") = rw other (ap ok shown) in
      elim (no_text server.name unnamed) [ inl e ↦ ground arith | inr e ↦ ground arith ]

  -- the key that a text of the clipboard stands for
  abbrev pub clipboard_key : String → String
  clipboard_key text = unwrap_invite env.environment.parsers (trim (take_units 1000 text))

  -- whether a key may be asked about although the user did not start to add one
  abbrev pub may_ask : Bool → String → App → Bool
  may_ask is_adding key app =
      is_adding || not (has_key app.ignored_access_keys key) && not (starts_with key "https://")

  -- A text of the clipboard does nothing at all, except that it opens the sheet for its key exactly
  -- if the key is valid, and the user is adding a server or the key is neither one that was ignored
  -- nor one of the scheme "https".
  pub handle_clipboard_text-eq :
      (is_adding : Bool) (text : String) (app : App)
      → handle_clipboard_text env is_adding text app ≡ (
          if may_ask is_adding (clipboard_key text) app
            && is_ok (
                validate_access_key env.environment
                  (Map.values app.repository.server_by_id)
                  (clipboard_key text))
          then call (open_confirmation_sheet (clipboard_key text)) app
          else app)
  unfolding handle_clipboard_text confirm_add_server validate_and_open is_left_alone
  handle_clipboard_text-eq is_adding text app =
      elim (Result-cases (
        validate_access_key env.environment (Map.values app.repository.server_by_id)
          (clipboard_key text))) [
            | inl (done, valid) ↦ ground arith
            | inr (e, threw) ↦ ground arith
          ]

  -- A key that was ignored is not asked about again unless the user is adding a server.
  pub ignored_stays_quiet :
      (text : String) (app : App)
      → handle_clipboard_text env false text (request_ignore_server env (clipboard_key text) app)
        ≡ request_ignore_server env (clipboard_key text) app
  unfolding request_ignore_server
  ignored_stays_quiet text app =
      let key = clipboard_key text in
      handle_clipboard_text-eq false text
        (record app { ignored_access_keys = key ∷ app.ignored_access_keys })
      ∙ ground (arith, eq_refl key)
