-- ===== src/App/Toasts.antt =====
-- `showLocalizedError` of src/www/app/app.ts: the toast that tells the user of an error. An error
-- that is undefined has no message to be read.
use pepper_vpn_client.Common.{String, none, some, List, [], ◌∷◌, if◌then◌else◌}
use pepper_vpn_client.Common.Map
use pepper_vpn_client.Common.Exec.{Result, ok, err, ◌>>=◌}
use pepper_vpn_client.Errors.{
  NativeError, vpn_permission_not_granted, invalid_server_credentials,
  remote_udp_forwarding_disabled, server_unreachable, no_admin_permissions,
  system_configuration_exception, shadowsocks_start_failure, configure_system_proxy_failure,
  unsupported_routing_table, Thrown, server_already_added, shadowsocks_unsupported_cipher,
  server_incompatible, server_url_invalid, session_config_fetch_failed, session_config_error,
  server_access_key_invalid, proxy_connection_failure, native_error, plain,
}
use pepper_vpn_client.App.{
  AppEnvironment, AppError, thrown, feedback_submission_error, operation_timed_out, undefined,
  milliseconds, no_action, show_feedback_page, show_error_details, Toast, show_toast_later, App,
  call,
}
use pepper_vpn_client.App.Display.{display_name}

abbrev pub antivirus_link : String
antivirus_link = "https://s3.amazonaws.com/outline-vpn/index.html#/en/support/antivirusBlock"

module _ (env : AppEnvironment) where
  open env use {localize, is_windows}

  -- a toast with a message alone, and one with a button for the details of the error
  abbrev message : String → List String → Toast
  message id parameters = record {
    message = localize id parameters;
    duration = milliseconds 10000;
    button = none;
    action = no_action;
    link = none;
  }

  abbrev detailed : String → Toast
  detailed id = record (message id []) {
    button = some (localize "error-details" []);
    action = show_error_details;
  }

  unfoldable pub native_toast : NativeError → Toast
  native_toast vpn_permission_not_granted =
      message "outline-plugin-error-vpn-permission-not-granted" []
  native_toast invalid_server_credentials =
      message "outline-plugin-error-invalid-server-credentials" []
  native_toast remote_udp_forwarding_disabled =
      message "outline-plugin-error-udp-forwarding-not-enabled" []
  native_toast server_unreachable = message "outline-plugin-error-server-unreachable" []
  native_toast shadowsocks_start_failure =
      if is_windows
      then record (message "outline-plugin-error-antivirus" []) {
        button = some (localize "fix-this" []);
        link = some antivirus_link;
      }
      else message "error-unexpected" []
  native_toast configure_system_proxy_failure =
      record (message "outline-plugin-error-routing-tables" []) {
        button = some (localize "feedback-page-title" []);
        action = show_feedback_page;
      }
  native_toast no_admin_permissions = message "outline-plugin-error-admin-permissions" []
  native_toast unsupported_routing_table =
      message "outline-plugin-error-unsupported-routing-table" []
  native_toast system_configuration_exception =
      message "outline-plugin-error-system-configuration" []
  native_toast _ = message "error-unexpected" []

  -- the name of a server that an error holds
  abbrev name_of : App → String → Result Thrown String
  name_of app id = elim (Map.get app.repository.server_by_id id) [
    | some server ↦ display_name env server
    | none ↦ err (plain "TypeError")
  ]

  unfoldable pub toast_of : App → AppError → Result Thrown Toast
  unfolding native_toast
  toast_of app (thrown (native_error e)) = ok (native_toast e)
  toast_of app feedback_submission_error = ok (message "error-feedback-submission" [])
  toast_of app (thrown (server_url_invalid _)) = ok (message "error-invalid-access-key" [])
  toast_of app (thrown (server_incompatible _)) = ok (message "error-server-incompatible" [])
  toast_of app operation_timed_out = ok (message "error-timeout" [])
  toast_of app (thrown (server_already_added id)) = name_of app id >>= λ name.
      ok (message "error-server-already-added" ("serverName" ∷ name ∷ []))
  toast_of app (thrown (shadowsocks_unsupported_cipher cipher)) =
      ok (message "error-shadowsocks-unsupported-cipher" ("cipher" ∷ cipher ∷ []))
  toast_of app (thrown server_access_key_invalid) = ok (detailed "error-connection-configuration")
  toast_of app (thrown session_config_fetch_failed) =
      ok (detailed "error-connection-configuration-fetch")
  toast_of app (thrown proxy_connection_failure) = ok (detailed "error-connection-proxy")
  toast_of app (thrown (session_config_error none)) = ok (record (message "" []) { message = "" })
  toast_of app (thrown (session_config_error (some text))) =
      ok (record (message "" []) { message = text })
  toast_of app (thrown (plain _)) = ok (detailed "error-unexpected")
  toast_of app undefined = err (plain "TypeError")

  -- The toast comes half a second later.
  unfoldable pub show_localized_error : AppError → App → App × Result Thrown (Unit {0})
  unfolding toast_of
  show_localized_error error app = elim (toast_of app error) [
    | ok toast ↦ (call (show_toast_later toast) app, ok tt)
    | err e ↦ (app, err e)
  ]
