-- ===== src/App/Feedback.antt =====
-- Feedback, the language and the state of all servers: the handlers of src/www/app/app.ts that are
-- not about one server.
use pepper_vpn_client.Common.{
  false, if◌then◌else◌, Bool, true, String, Option, none, some, List, [], ◌∷◌,
}
use pepper_vpn_client.Common.Map
use pepper_vpn_client.Common.Exec.{Result, ok, err}
use pepper_vpn_client.Server.{OutlineServer}
use pepper_vpn_client.VpnTunnel.{TunnelStatus, connected, disconnected, reconnecting}
use pepper_vpn_client.App.{
  AppEnvironment, feedback_submission_error, App, call, set_submitting, reset_feedback_form,
  set_language, change_to_default_page, show_toast, plain_toast,
}
use pepper_vpn_client.App.Toasts.{show_localized_error}
use pepper_vpn_client.App.Listeners.{
  Handled, StatusEvent, server_connected, server_disconnected, server_reconnecting, on_status,
}
use pepper_vpn_client.App.Adding.{sync_server_connectivity_state}

pub record FeedbackForm : Type 0 where
  pub feedback : String
  pub category : String
  pub email : String

-- The listener of a server's tunnel: which event it puts in the queue.
unfoldable pub status_event : TunnelStatus → String → StatusEvent
status_event connected id = server_connected id
status_event disconnected id = server_disconnected id
status_event reconnecting id = server_reconnecting id

-- A tunnel tells of its status. The event is handled at once, unless a listener has thrown before:
-- then the queue never publishes again.
unfoldable pub status_changes : TunnelStatus → String → App → App
unfolding status_event
status_changes status id app =
    if app.publishing_stopped then app else on_status (status_event status id) app

-- `setAppLanguage`; the storage of the browser holds the servers too
unfoldable pub set_app_language : String → App → App
set_app_language code app = call change_to_default_page (
    call (set_language code) (record app {
      repository = record app.repository {
        storage = Map.set app.repository.storage "overrideLanguage" code;
      };
    }))

module _ (env : AppEnvironment) where
  open env use {localize}

  -- `submitFeedback`, with the form if it is valid; `report` is the error reporter
  unfoldable pub submit_feedback :
      (App → App) → (FeedbackForm → Result String (Unit {0})) → Option FeedbackForm → App → Handled
  submit_feedback meanwhile report form app = elim form [
    | none ↦ (app, ok tt)
    | some given ↦
        let waited = meanwhile (call (set_submitting true) app) in
        let ready = call (set_submitting false) waited in
        elim (report given) [
          | ok _ ↦ (
            call (show_toast (plain_toast (localize "feedback-thanks" [])))
                (call change_to_default_page (call reset_feedback_form ready)),
            ok tt,
          )
          | err _ ↦ show_localized_error env feedback_submission_error ready
        ]
  ]

  -- `syncConnectivityStateToServerCards`, with the answers in the order of the servers
  unfoldable pub sync_connectivity_state :
      (OutlineServer → Option Bool) → List OutlineServer → App → App
  sync_connectivity_state running [] app = app
  sync_connectivity_state running (server ∷ servers) app =
      sync_connectivity_state running servers
        (sync_server_connectivity_state env (running server) server.id app)
