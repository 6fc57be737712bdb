-- ===== src/App/Shown/Handlers.antt =====
-- Every handler of src/www/app/app.ts leaves a card for each server.
use pepper_vpn_client.Common.{String, Bool, refl, arith, inl, inr}
use pepper_vpn_client.Common.Exec.{Result, ok, err, Result-cases}
use pepper_vpn_client.Errors.{Thrown}
use pepper_vpn_client.Server.{OutlineServer, connect, disconnect}
use pepper_vpn_client.App.{
  show_auto_connect_dialog, update_address_later, ServerListItem, AppEnvironment, AppError, thrown,
  App, update_server_list_item, current, with_state, connecting, disconnecting, connected,
  disconnected,
}
use pepper_vpn_client.App.Display.{address, display_name}
use pepper_vpn_client.App.Toasts.{toast_of, show_localized_error}
use pepper_vpn_client.App.Connecting.{
  Connection, InstallError, install_error, install_fails, install_vpn_service,
  maybe_show_auto_connect_dialog, connect_fails, connect_succeeds, connect_found, disconnect_found,
}
use pepper_vpn_client.App.Shown.{IsShown, call-IsShown, update-IsShown, put_server-IsShown}

-- What other handlers do leaves a card for each server.
abbrev pub Keeps : (App → App) → Type 0
Keeps meanwhile = (app : App) → IsShown app → IsShown (meanwhile app)

module _ (env : AppEnvironment) where
  pub show_error-IsShown :
      (e : AppError) (app : App) → IsShown app → IsShown (show_localized_error env e app).0
  unfolding show_localized_error
  show_error-IsShown e app h = elim (Result-cases (toast_of env app e)) [
    | inl (toast, told) ↦ rw (told, show_localized_error) (call-IsShown _ app h)
    | inr (t, threw) ↦ rw (threw, show_localized_error) h
  ]

  install_fails-IsShown :
      (e : Thrown) (app : App) → IsShown app → IsShown (install_fails env e app).0
  unfolding install_fails
  install_fails-IsShown e app h = ground (arith, show_error-IsShown (thrown e) app h)

  install_vpn_service-IsShown :
      (meanwhile : App → App) (installed : Result InstallError (Unit {0})) (app : App)
      → Keeps meanwhile
      → IsShown app
      → IsShown (install_vpn_service env meanwhile installed app).0
  unfolding install_vpn_service
  install_vpn_service-IsShown meanwhile (ok _) app keeps h =
      call-IsShown _ _ (keeps _ (call-IsShown _ app h))
  install_vpn_service-IsShown meanwhile (err e) app keeps h =
      let waited = keeps _ (call-IsShown _ app h) in
      elim (Result-cases (install_error e)) [
        | inl (shown, coded) ↦
            rw (coded, install_vpn_service) (install_fails-IsShown shown _ waited)
        | inr (t, unknown) ↦ rw (unknown, install_vpn_service) waited
      ]

  connect_fails-IsShown :
      (meanwhile : App → App) (c : Connection) (id : String) (e : Thrown) (app : App)
      → Keeps meanwhile
      → IsShown app
      → IsShown (connect_fails env meanwhile c id e app).0
  unfolding connect_fails
  connect_fails-IsShown meanwhile c id e app keeps h =
      let shown = update-IsShown id (with_state disconnected) app (λ card. refl) h in
      let told = show_error-IsShown (thrown e) _ shown in
      let installed = install_vpn_service-IsShown meanwhile c.installed _ keeps shown in
      ground arith

  dialog-IsShown : (app : App) → IsShown app → IsShown (maybe_show_auto_connect_dialog env app)
  unfolding maybe_show_auto_connect_dialog
  dialog-IsShown app h = ground (arith, call-IsShown show_auto_connect_dialog app h)

  connect_succeeds-IsShown :
      (meanwhile : App → App) (c : Connection) (id : String) (server : OutlineServer) (app : App)
      → Keeps meanwhile
      → IsShown app
      → IsShown (connect_succeeds env meanwhile c id server app).0
  unfolding connect_succeeds
  connect_succeeds-IsShown meanwhile c id server app keeps h =
      let change = λ (card : ServerListItem). record card {
        connection_state = connected;
        address = address server;
      } in
      let shown = update-IsShown id change app (λ card. refl) h in
      elim (Result-cases (display_name env server)) [
        | inl (name, named) ↦
            rw (named, connect_succeeds) (dialog-IsShown _ (call-IsShown _ _ shown))
        | inr (e, threw) ↦
            rw (threw, connect_succeeds) (connect_fails-IsShown meanwhile c id e _ keeps shown)
      ]

  pub connect_found-IsShown :
      (meanwhile installing : App → App) (c : Connection) (id : String) (server : OutlineServer)
      (app : App)
      → Keeps meanwhile
      → Keeps installing
      → IsShown app
      → IsShown (connect_found env meanwhile installing c id server app).0
  unfolding connect_found
  connect_found-IsShown meanwhile installing c id server app keeps installs h =
      let waited = meanwhile (update_server_list_item id (with_state connecting) app) in
      let after = keeps _ (update-IsShown id (with_state connecting) app (λ card. refl) h) in
      let (server', outcome) = connect c.start c.fetched (current server waited) in
      let settled = put_server-IsShown server' waited after in
      elim (Result-cases (connect c.start c.fetched (current server waited)).1) [
        | inl (done, starts) ↦
            rw (starts, connect_found)
              (connect_succeeds-IsShown installing c id server' _ installs settled)
        | inr (e, fails) ↦
            rw (fails, connect_found) (connect_fails-IsShown installing c id e _ installs settled)
      ]

  pub disconnect_found-IsShown :
      (meanwhile : App → App) (stopped : Bool) (id : String) (server : OutlineServer) (app : App)
      → Keeps meanwhile
      → IsShown app
      → IsShown (disconnect_found env meanwhile stopped id server app).0
  unfolding disconnect_found
  disconnect_found-IsShown meanwhile stopped id server app keeps h =
      let waited = meanwhile (update_server_list_item id (with_state disconnecting) app) in
      let after = keeps _ (update-IsShown id (with_state disconnecting) app (λ card. refl) h) in
      let (server', outcome) = disconnect stopped (current server waited) in
      let settled = put_server-IsShown server' waited after in
      let shown =
        call-IsShown (update_address_later id) _
          (update-IsShown id (with_state disconnected) _ (λ card. refl) settled) in
      elim (Result-cases (disconnect stopped (current server waited)).1) [
        | inr (e, fails) ↦
            rw (fails, disconnect_found)
              (show_error-IsShown (thrown e) _
                (update-IsShown id (with_state connected) _ (λ card. refl) settled))
        | inl (done, stops) ↦ elim (Result-cases (display_name env server')) [
          | inl (name, named) ↦
              rw (stops, disconnect_found) (rw (named, disconnect_found) (call-IsShown _ _ shown))
          | inr (e, threw) ↦
              rw (stops, disconnect_found)
                (rw (threw, disconnect_found)
                  (show_error-IsShown (thrown e) _
                    (update-IsShown id (with_state connected) _ (λ card. refl) shown)))
        ]
      ]
