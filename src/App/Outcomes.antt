-- ===== src/App/Outcomes.antt =====
-- What the card of a server shows in the end, and the timeouts of the servers: the handlers of src/www/app/app.ts.
use pepper_vpn_client.Common.{
  ◌∷◌, sym, ◌∙◌, String, Bool, true, false, some, ◌≡◌, ◌&&◌, refl, arith, if◌then◌else◌, inl, inr,
}
use pepper_vpn_client.App.Connecting.{
  disconnect_server, with_server, connect_server, connect_found, disconnect_found, connect_fails,
  install_error, InstallError, install_fails, install_vpn_service, Connection, connect_succeeds,
  maybe_show_auto_connect_dialog,
}
use mathlib.Core.Path.{subst}
use pepper_vpn_client.Common.Map
use pepper_vpn_client.App.{
  has_key, disconnecting, current, connected, disconnected, thrown, AppError, OutlineServer, Thrown,
  start_timeout, with_state, connecting, update_server_list_item, App, AppEnvironment,
  ServerListItem,
}
use pepper_vpn_client.Common.Text.{is_truthy}
use pepper_vpn_client.Server.{disconnect, connect}
use pepper_vpn_client.App.Display.{address, display_name}
use pepper_vpn_client.Common.Exec.{Result-cases, err, ok, Result}
use pepper_vpn_client.App.Toasts.{show_localized_error}
use pepper_vpn_client.App.Timeouts.{timeouts, connect_found-timeouts}
use pepper_vpn_client.App.States.{ShowsAt, Shows, update-Shows, is_ok, waiting}

module _ (env : AppEnvironment) where
  show_error-servers :
      (e : AppError) (app : App) → (show_localized_error env e app).0.servers ≡ app.servers
  unfolding show_localized_error
  show_error-servers e app = ground arith

  dialog-servers : (app : App) → (maybe_show_auto_connect_dialog env app).servers ≡ app.servers
  unfolding maybe_show_auto_connect_dialog
  dialog-servers app = ground arith

  install_fails-servers :
      (e : Thrown) (app : App) → (install_fails env e app).0.servers ≡ app.servers
  unfolding install_fails
  install_fails-servers e app = ground (arith, show_error-servers (thrown e) app)

  install-servers :
      (installing : App → App) (installed : Result InstallError (Unit {0})) (app : App)
      → ((a : App) → (installing a).servers ≡ a.servers)
      → (install_vpn_service env installing installed app).0.servers ≡ app.servers
  unfolding install_vpn_service
  install-servers installing (ok _) app same = same _
  install-servers installing (err e) app same = elim (Result-cases (install_error e)) [
    | inl (shown, coded) ↦ rw (coded, install_vpn_service) (install_fails-servers shown _ ∙ same _)
    | inr (t, unknown) ↦ rw (unknown, install_vpn_service) (same _)
  ]

  connect_fails-Shows :
      (installing : App → App) (c : Connection) (id : String) (e : Thrown) (app : App)
      → ((a : App) → (installing a).servers ≡ a.servers)
      → Shows id disconnected (connect_fails env installing c id e app).0
  connect_fails-Shows installing c id e app same =
      let shown = update_server_list_item id (with_state disconnected) app in
      let cards : (connect_fails env installing c id e app).0.servers ≡ shown.servers =
        unfold connect_fails in
        ground (
          arith,
          show_error-servers (thrown e) shown,
          install-servers installing c.installed shown same,
        ) in
      rw cards (update-Shows id disconnected (with_state disconnected) app (λ card. refl))

  connect_succeeds-Shows :
      (installing : App → App) (c : Connection) (id : String) (server : OutlineServer) (app : App)
      → ((a : App) → (installing a).servers ≡ a.servers)
      → Shows id
          (if is_ok (display_name env server) then connected else disconnected)
          (connect_succeeds env installing c id server app).0
  unfolding connect_succeeds
  connect_succeeds-Shows installing c id server app same =
      let change = λ (card : ServerListItem). record card {
        connection_state = connected;
        address = address server;
      } in
      elim (Result-cases (display_name env server)) [
        | inl (name, named) ↦
            rw (named, connect_succeeds)
              (subst (ShowsAt id connected) (sym (dialog-servers _))
                (update-Shows id connected change app (λ card. refl)))
        | inr (e, threw) ↦
            rw (threw, connect_succeeds) (connect_fails-Shows installing c id e _ same)
      ]

  -- What `connect` of a server gives, once the wait is over.
  abbrev pub connection :
      (App → App)
      → Connection
      → String
      → OutlineServer
      → App
      → OutlineServer × Result Thrown (Unit {0})
  connection meanwhile c id server app =
      connect c.start c.fetched (current server (waiting meanwhile connecting id app))

  abbrev pub connects_fully : OutlineServer × Result Thrown (Unit {0}) → Bool
  connects_fully (server, outcome) = is_ok outcome && is_ok (display_name env server)

  connect_found-Shows :
      (meanwhile installing : App → App) (c : Connection) (id : String) (server : OutlineServer)
      (app : App)
      → ((a : App) → (installing a).servers ≡ a.servers)
      → Shows id
          (if connects_fully (connection meanwhile c id server app)
            then connected
            else disconnected)
          (connect_found env meanwhile installing c id server (start_timeout id app)).0
  unfolding connect_found
  connect_found-Shows meanwhile installing c id server app same =
      let (server', outcome) = connection meanwhile c id server app in
      elim (Result-cases (connection meanwhile c id server app).1) [
        | inl (done, starts) ↦
            rw (starts, connect_found) (connect_succeeds-Shows installing c id server' _ same)
        | inr (e, fails) ↦ rw (fails, connect_found) (connect_fails-Shows installing c id e _ same)
      ]

  -- When a server of the list that is not throttled is asked to connect, and the installer of the
  -- services leaves the cards and the timeouts alone, its card shows in the end that it is connected
  -- exactly if `connect` has succeeded and the server has a name to be shown; otherwise it shows that
  -- it is disconnected. The handler adds the timeout of the server before it waits, and leaves the
  -- timeouts as they are when the wait is over.
  pub connect_server-Shows :
      (meanwhile installing : App → App) (c : Connection) (id : String) (server : OutlineServer)
      (app : App)
      → is_truthy (some id) ≡ true
      → has_key app.server_connection_change_timeouts id ≡ false
      → Map.get app.repository.server_by_id id ≡ some server
      → ((a : App) → (installing a).servers ≡ a.servers)
      → ((a : App) → timeouts (installing a) ≡ timeouts a)
      → Shows id
          (if connects_fully (connection meanwhile c id server app)
            then connected
            else disconnected)
          (connect_server env meanwhile installing c id app).0
        × (timeouts (connect_server env meanwhile installing c id app).0
            ≡ timeouts (
                meanwhile (
                  update_server_list_item id
                    (with_state connecting)
                    (record app { server_connection_change_timeouts = id ∷ timeouts app }))))
  unfolding connect_server with_server
  connect_server-Shows meanwhile installing c id server app nonempty free found same same_too =
      let shown = connect_found-Shows meanwhile installing c id server app same in
      let kept =
        connect_found-timeouts env installing same_too meanwhile c id server
          (start_timeout id app) in
      let whole : connect_server env meanwhile installing c id app
          ≡ connect_found env meanwhile installing c id server (start_timeout id app) =
        ground arith in
      (rw whole shown, rw whole kept)

  disconnect_found-Shows :
      (meanwhile : App → App) (stopped : Bool) (id : String) (server : OutlineServer) (app : App)
      → Shows id
          (if connects_fully
              (disconnect stopped (current server (waiting meanwhile disconnecting id app)))
            then disconnected
            else connected)
          (disconnect_found env meanwhile stopped id server (start_timeout id app)).0
  unfolding disconnect_found
  disconnect_found-Shows meanwhile stopped id server app =
      let result = disconnect stopped (current server (waiting meanwhile disconnecting id app)) in
      let server' = result.0 in
      elim (Result-cases result.1) [
        | inr (e, fails) ↦
            rw (fails, disconnect_found)
              (subst (ShowsAt id connected) (sym (show_error-servers _ _))
                (update-Shows id connected (with_state connected) _ (λ card. refl)))
        | inl (done, stops) ↦ elim (Result-cases (display_name env server')) [
          | inl (name, named) ↦
              rw (stops, disconnect_found)
                (rw (named, disconnect_found)
                  (update-Shows id disconnected (with_state disconnected) _ (λ card. refl)))
          | inr (e, threw) ↦
              rw (stops, disconnect_found)
                (rw (threw, disconnect_found)
                  (subst (ShowsAt id connected) (sym (show_error-servers _ _))
                    (update-Shows id connected (with_state connected) _ (λ card. refl))))
        ]
      ]

  -- When a server of the list that is not throttled is asked to disconnect, its card shows in the
  -- end that it is disconnected exactly if the tunnel has stopped and the server has a name to be
  -- shown; otherwise it shows that it is connected.
  pub disconnect_server-Shows :
      (meanwhile : App → App) (stopped : Bool) (id : String) (server : OutlineServer) (app : App)
      → is_truthy (some id) ≡ true
      → has_key app.server_connection_change_timeouts id ≡ false
      → Map.get app.repository.server_by_id id ≡ some server
      → Shows id
          (if connects_fully
              (disconnect stopped (current server (waiting meanwhile disconnecting id app)))
            then disconnected
            else connected)
          (disconnect_server env meanwhile stopped id app).0
  unfolding disconnect_server with_server
  disconnect_server-Shows meanwhile stopped id server app nonempty free found =
      let shown = disconnect_found-Shows meanwhile stopped id server app in
      let whole : disconnect_server env meanwhile stopped id app
          ≡ disconnect_found env meanwhile stopped id server (start_timeout id app) =
        ground arith in
      rw whole shown
