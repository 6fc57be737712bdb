-- ===== src/App/Connecting.antt =====
-- Connecting, disconnecting and forgetting a server: the handlers of src/www/app/app.ts. `meanwhile`
-- is what other handlers do while a handler waits.
use Prim.Native.String.{◌++◌}
use mathlib.Core.List.{[], ◌∷◌}
use pepper_vpn_client.Common.{
  ℕ, String, Bool, true, Option, none, some, if◌then◌else◌, ◌==◌, str_eq,
}
use pepper_vpn_client.Common.Map
use pepper_vpn_client.Common.Exec.{Result, ok, err}
use pepper_vpn_client.Common.Text.{is_truthy}
use pepper_vpn_client.Errors.{
  Thrown, native_error, plain, system_configuration_exception, unexpected_plugin_error,
  from_error_code,
}
use pepper_vpn_client.AccessKey.{SessionConfig}
use pepper_vpn_client.Server.{OutlineServer, Start, connect, disconnect}
use pepper_vpn_client.Repository.{forget, rename}
use pepper_vpn_client.App.{
  AppEnvironment, thrown, undefined, connecting, connected, disconnecting, disconnected, forever,
  show_toast, show_auto_connect_dialog, update_address_later, App, call, plain_toast,
  update_server_list_item, with_state, has_key, start_timeout, current, put_server,
}
use pepper_vpn_client.App.Display.{address, display_name}
use pepper_vpn_client.App.Toasts.{show_localized_error}
use pepper_vpn_client.App.Listeners.{Handled, publish}

-- What an installer of the VPN service rejects with: the error itself, and its `errorCode`.
pub record InstallError : Type 0 where
  pub error_code : Option ℕ
  pub error : Thrown

-- An `errorCode` of 0 counts as none.
unfoldable pub install_error : InstallError → Result Thrown Thrown
install_error e = elim e.error_code [
  | none ↦ ok e.error
  | some code ↦
      if code == 0
      then ok e.error
      else (elim (from_error_code code) [ ok e ↦ ok (native_error e) | err t ↦ err t ])
]

-- What a call of `connectServer` is given: what `connect` of the server meets, the answer to the
-- question about the services, and what the installer does.
pub record Connection : Type 0 where
  pub start : Start
  pub fetched : Result Thrown SessionConfig
  pub confirms : Bool
  pub installed : Result InstallError (Unit {0})

module _ (env : AppEnvironment) where
  open env use {localize}

  unfoldable pub maybe_show_auto_connect_dialog : App → App
  maybe_show_auto_connect_dialog app =
      elim (Map.get app.settings.settings "auto-connect-dialog-dismissed") [
        | none ↦ call show_auto_connect_dialog app
        | some value ↦ if str_eq value "true" then app else call show_auto_connect_dialog app
      ]

  -- the `catch` of `installVpnService`
  unfoldable pub install_fails : Thrown → App → Handled
  install_fails (native_error unexpected_plugin_error) app = (
    call (show_toast (plain_toast (localize "outline-services-installation-failed" []))) app,
    ok tt,
  )
  install_fails e app = show_localized_error env (thrown e) app

  unfoldable pub install_vpn_service : (App → App) → Result InstallError (Unit {0}) → App → Handled
  unfolding install_error install_fails
  install_vpn_service meanwhile installed app =
      let asked =
        call
          (show_toast (record (plain_toast (localize "outline-services-installing" [])) {
            duration = forever;
          }))
          app in
      let waited = meanwhile asked in
      elim installed [
        | ok _ ↦ (
          call (show_toast (plain_toast (localize "outline-services-installed" []))) waited,
          ok tt,
        )
        | err e ↦ elim (install_error e) [
          | ok shown ↦ install_fails shown waited
          | err t ↦ (waited, err t)
        ]
      ]

  -- the `catch` of `connectServer`
  unfoldable pub connect_fails : (App → App) → Connection → String → Thrown → App → Handled
  unfolding install_vpn_service
  connect_fails meanwhile c id e app =
      let shown = update_server_list_item id (with_state disconnected) app in
      let told = show_localized_error env (thrown e) shown in
      elim e [
        | native_error system_configuration_exception ↦
            if c.confirms then install_vpn_service meanwhile c.installed shown else told
        | _ ↦ told
      ]

  -- The rest of the `try`, once the server is connected; `display_name` may throw out of it.
  unfoldable pub connect_succeeds :
      (App → App) → Connection → String → OutlineServer → App → Handled
  unfolding connect_fails maybe_show_auto_connect_dialog
  connect_succeeds meanwhile c id server app =
      let shown =
        update_server_list_item id
          (λ card. record card { connection_state = connected; address = address server }) app in
      elim (display_name env server) [
        | err e ↦ connect_fails meanwhile c id e shown
        | ok name ↦ (
          maybe_show_auto_connect_dialog (
              call
                (show_toast (plain_toast (localize "server-connected" ("serverName" ∷ name ∷ []))))
                shown),
          ok tt,
        )
      ]

  -- From the end of the throttling to the end of the handler, for a server that is found.
  unfoldable pub connect_found :
      (App → App) → (App → App) → Connection → String → OutlineServer → App → Handled
  unfolding connect_succeeds connect_fails
  connect_found meanwhile installing c id server app =
      let waited = meanwhile (update_server_list_item id (with_state connecting) app) in
      let (server', outcome) = connect c.start c.fetched (current server waited) in
      let settled = put_server server' waited in
      elim outcome [
        | ok _ ↦ connect_succeeds installing c id server' settled
        | err e ↦ connect_fails installing c id e settled
      ]

  -- `getServerByServerId` of a handler that was not throttled
  unfoldable pub with_server : String → (OutlineServer → App → Handled) → App → Handled
  with_server id next app = elim (Map.get app.repository.server_by_id id) [
    | some server ↦ next server app
    | none ↦ (app, err (plain ("could not find server with ID " ++ id)))
  ]

  unfoldable pub connect_server : (App → App) → (App → App) → Connection → String → App → Handled
  unfolding connect_found with_server
  connect_server meanwhile installing c id app =
      if is_truthy (some id)
      then if has_key app.server_connection_change_timeouts id
        then (app, ok tt)
        else with_server id (connect_found meanwhile installing c id) (start_timeout id app)
      else (app, err (plain "connectServer event had no server ID"))

  -- From the end of the throttling, for a server that is found; `stopped` tells whether the tunnel
  -- has stopped.
  unfoldable pub disconnect_found : (App → App) → Bool → String → OutlineServer → App → Handled
  disconnect_found meanwhile stopped id server app =
      let waited = meanwhile (update_server_list_item id (with_state disconnecting) app) in
      let (server', outcome) = disconnect stopped (current server waited) in
      let settled = put_server server' waited in
      let fails = λ (e : Thrown) (a : App).
        show_localized_error env (thrown e) (update_server_list_item id (with_state connected) a) in
      elim outcome [
        | err e ↦ fails e settled
        | ok _ ↦
            let shown =
              call (update_address_later id)
                (update_server_list_item id (with_state disconnected) settled) in
            elim (display_name env server') [
              | err e ↦ fails e shown
              | ok name ↦ (
                call
                    (show_toast
                      (plain_toast (localize "server-disconnected" ("serverName" ∷ name ∷ []))))
                    shown,
                ok tt,
              )
            ]
      ]

  unfoldable pub disconnect_server : (App → App) → Bool → String → App → Handled
  unfolding disconnect_found with_server
  disconnect_server meanwhile stopped id app =
      if is_truthy (some id)
      then if has_key app.server_connection_change_timeouts id
        then (app, ok tt)
        else with_server id (disconnect_found meanwhile stopped id) (start_timeout id app)
      else (app, err (plain "disconnectServer event had no server ID"))

  -- The address of a card, once the connection indicator has stopped moving.
  unfoldable pub update_address : OutlineServer → App → App
  update_address server app =
      update_server_list_item server.id
        (λ card. record card { address = address (current server app) }) app

  unfoldable pub forget_now : String → App → Handled
  forget_now id app =
      publish env (record app { repository = forget env.environment id app.repository })

  -- `forgetServer`; `running` is what `checkRunning` gives, an error being caught. What
  -- `disconnectServer` throws is caught too.
  unfoldable pub forget_server :
      (App → App) → Option Bool → (App → App) → Bool → String → App → Handled
  unfolding disconnect_server forget_now
  forget_server meanwhile running stopping stopped id app =
      elim (Map.get app.repository.server_by_id id) [
        | none ↦ show_localized_error env undefined app
        | some _ ↦
            let waited = meanwhile app in
            elim running [
              | some true ↦ forget_now id (disconnect_server stopping stopped id waited).0
              | _ ↦ forget_now id waited
            ]
      ]

  unfoldable pub rename_server : String → String → App → Handled
  rename_server id new_name app =
      publish env (record app { repository = rename env.environment id new_name app.repository })
