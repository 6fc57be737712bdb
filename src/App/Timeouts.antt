-- ===== src/App/Timeouts.antt =====
-- The timeouts of the servers that have changed their connection, in src/www/app/app.ts, when
-- `connectServer` goes on after its wait.
use pepper_vpn_client.App.Connecting.{
  connect_found, connect_fails, install_error, InstallError, install_fails, install_vpn_service,
  Connection, connect_succeeds, maybe_show_auto_connect_dialog,
}
use pepper_vpn_client.Common.{String, List, ◌≡◌, ◌∙◌, arith, inl, inr}
use pepper_vpn_client.App.{
  current, thrown, AppError, OutlineServer, Thrown, with_state, connecting, disconnected,
  update_server_list_item, App, AppEnvironment, put_server,
}
use pepper_vpn_client.Server.{connect}
use pepper_vpn_client.App.Display.{display_name}
use pepper_vpn_client.Common.Exec.{Result-cases, err, ok, Result}
use pepper_vpn_client.App.Toasts.{show_localized_error}

abbrev pub timeouts : App → List String
timeouts app = app.server_connection_change_timeouts

put_server-timeouts :
    (server : OutlineServer) (app : App) → timeouts (put_server server app) ≡ timeouts app
unfolding put_server
put_server-timeouts server app = ground arith

module _ (env : AppEnvironment) where
  show_error-timeouts :
      (e : AppError) (app : App) → timeouts (show_localized_error env e app).0 ≡ timeouts app
  unfolding show_localized_error
  show_error-timeouts e app = ground arith

  dialog-timeouts : (app : App) → timeouts (maybe_show_auto_connect_dialog env app) ≡ timeouts app
  unfolding maybe_show_auto_connect_dialog
  dialog-timeouts app = ground arith

  install_fails-timeouts :
      (e : Thrown) (app : App) → timeouts (install_fails env e app).0 ≡ timeouts app
  unfolding install_fails
  install_fails-timeouts e app = ground (arith, show_error-timeouts (thrown e) app)

  module _ (installing : App → App) (same : (a : App) → timeouts (installing a) ≡ timeouts a) where
    install-timeouts :
        (installed : Result InstallError (Unit {0})) (app : App)
        → timeouts (install_vpn_service env installing installed app).0 ≡ timeouts app
    unfolding install_vpn_service
    install-timeouts (ok _) app = same _
    install-timeouts (err e) app = elim (Result-cases (install_error e)) [
      | inl (shown, coded) ↦
          rw (coded, install_vpn_service) (install_fails-timeouts shown _ ∙ same _)
      | inr (t, unknown) ↦ rw (unknown, install_vpn_service) (same _)
    ]

    connect_fails-timeouts :
        (c : Connection) (id : String) (e : Thrown) (app : App)
        → timeouts (connect_fails env installing c id e app).0 ≡ timeouts app
    unfolding connect_fails update_server_list_item
    connect_fails-timeouts c id e app =
        let shown = update_server_list_item id (with_state disconnected) app in
        ground (arith, show_error-timeouts (thrown e) shown, install-timeouts c.installed shown)

    connect_succeeds-timeouts :
        (c : Connection) (id : String) (server : OutlineServer) (app : App)
        → timeouts (connect_succeeds env installing c id server app).0 ≡ timeouts app
    unfolding connect_succeeds update_server_list_item
    connect_succeeds-timeouts c id server app = elim (Result-cases (display_name env server)) [
      | inl (name, named) ↦ rw (named, connect_succeeds) (dialog-timeouts _)
      | inr (e, threw) ↦ rw (threw, connect_succeeds) (connect_fails-timeouts c id e _)
    ]

    -- The handler leaves the timeouts as they are when its wait is over.
    pub connect_found-timeouts :
        (meanwhile : App → App) (c : Connection) (id : String) (server : OutlineServer) (app : App)
        → timeouts (connect_found env meanwhile installing c id server app).0
          ≡ timeouts (meanwhile (update_server_list_item id (with_state connecting) app))
    unfolding connect_found
    connect_found-timeouts meanwhile c id server app =
        let waited = meanwhile (update_server_list_item id (with_state connecting) app) in
        let result = connect c.start c.fetched (current server waited) in
        elim (Result-cases result.1) [
          | inl (done, starts) ↦
              rw (starts, connect_found)
                (connect_succeeds-timeouts c id result.0 _ ∙ put_server-timeouts result.0 waited)
          | inr (e, fails) ↦
              rw (fails, connect_found)
                (connect_fails-timeouts c id e _ ∙ put_server-timeouts result.0 waited)
        ]
