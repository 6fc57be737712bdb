-- ===== src/App/Shown/Steps.antt =====
-- Whole handlers of src/www/app/app.ts.
use pepper_vpn_client.App.{
  call, close_add_server_view, open_confirmation_sheet, AppEnvironment, undefined, App, thrown,
  change_to_default_page,
}
use pepper_vpn_client.Common.{
  refl, none, true, false, some, ◌≡◌, String, Bool, Option, arith, inl, inr, Option-cases,
}
use pepper_vpn_client.Repository.Keys.{validate_access_key}
use pepper_vpn_client.App.AccessKeys.{unwrap_invite}
use pepper_vpn_client.App.Shown.{update-IsShown, call-IsShown, IsShown, timeout-IsShown}
use pepper_vpn_client.Repository.{new_server, add, undo_forget}
use pepper_vpn_client.Common.Map.{Entries}
use pepper_vpn_client.Common.Map
use pepper_vpn_client.Server.{OutlineServer}
use pepper_vpn_client.App.Listeners.{
  Handled, publish, StatusEvent, server_connected, server_disconnected, server_reconnecting,
  on_status,
}
use pepper_vpn_client.App.Connecting.{
  Connection, connect_found, with_server, connect_server, disconnect_found, disconnect_server,
  forget_now, forget_server,
}
use pepper_vpn_client.App.Shown.Repository.{forget-IsShown, add-IsShown, undo_forget-IsShown}
use pepper_vpn_client.App.Shown.Handlers.{
  Keeps, show_error-IsShown, connect_found-IsShown, disconnect_found-IsShown,
}
use pepper_vpn_client.Common.Exec.{ok, err, Result-cases}
use pepper_vpn_client.App.Adding.{
  add_and_publish, request_add_server, undo_forget_pressed, confirm_add_server, validate_and_open,
  sync_server_connectivity_state,
}

module _ (env : AppEnvironment) where
  with_server-IsShown :
      (id : String) (next : OutlineServer → App → Handled) (app : App)
      → ((server : OutlineServer) (a : App) → IsShown a → IsShown (next server a).0)
      → IsShown app
      → IsShown (with_server env id next app).0
  unfolding with_server
  with_server-IsShown id next app keeps h =
      elim (Option-cases (Map.get app.repository.server_by_id id)) [
        | inl absent ↦ rw (absent, with_server) h
        | inr (server, found) ↦ rw (found, with_server) (keeps server app h)
      ]

  pub connect-IsShown :
      (meanwhile installing : App → App) (c : Connection) (id : String) (app : App)
      → Keeps meanwhile
      → Keeps installing
      → IsShown app
      → IsShown (connect_server env meanwhile installing c id app).0
  unfolding connect_server
  connect-IsShown meanwhile installing c id app keeps installs h =
      let found =
        with_server-IsShown id (connect_found env meanwhile installing c id) _
          (λ server a s.
            connect_found-IsShown env meanwhile installing c id server a keeps installs s)
          (timeout-IsShown id app h) in
      ground arith

  pub disconnect-IsShown :
      (meanwhile : App → App) (stopped : Bool) (id : String) (app : App)
      → Keeps meanwhile
      → IsShown app
      → IsShown (disconnect_server env meanwhile stopped id app).0
  unfolding disconnect_server
  disconnect-IsShown meanwhile stopped id app keeps h =
      let found =
        with_server-IsShown id (disconnect_found env meanwhile stopped id) _
          (λ server a s. disconnect_found-IsShown env meanwhile stopped id server a keeps s)
          (timeout-IsShown id app h) in
      ground arith

  pub forget_server-IsShown :
      (meanwhile : App → App) (running : Option Bool) (stopping : App → App) (stopped : Bool)
      (id : String) (app : App)
      → Keeps meanwhile
      → Keeps stopping
      → IsShown app
      → IsShown (forget_server env meanwhile running stopping stopped id app).0
  unfolding forget_server forget_now
  forget_server-IsShown meanwhile running stopping stopped id app keeps stops h =
      let missing = show_error-IsShown env undefined app h in
      let after = keeps app h in
      let halted = disconnect-IsShown stopping stopped id (meanwhile app) stops after in
      let first = forget-IsShown env id _ halted in
      let only = forget-IsShown env id _ after in ground arith

  add_and_publish-IsShown :
      (id key : String) (app : App) → IsShown app → IsShown (add_and_publish env id key app).0
  unfolding add_and_publish
  add_and_publish-IsShown id key app h =
      let repo = app.repository in
      elim (Result-cases (new_server env.environment repo id key)) [
        | inr (e, threw) ↦
            let refused : add env.environment id key repo ≡ (repo, err e) =
              unfold add in ground arith in
            rw (refused, add_and_publish) h
        | inl (server, made) ↦
            let accepted : (add env.environment id key repo).1 ≡ ok tt =
              unfold add in ground arith in
            rw (accepted, add_and_publish) (add-IsShown env id key app h)
      ]

  pub request_add-IsShown :
      (id key : String) (app : App) → IsShown app → IsShown (request_add_server env id key app).0
  unfolding request_add_server
  request_add-IsShown id key app h =
      let added = add_and_publish-IsShown id key app h in
      elim (Result-cases (add_and_publish env id key app).1) [
        | inl (done, accepted) ↦ rw (accepted, request_add_server) added
        | inr (e, threw) ↦
            rw (threw, request_add_server)
              (show_error-IsShown env (thrown e) _ (call-IsShown change_to_default_page _ added))
      ]

  pub undo-IsShown :
      (id : String) (app : App) → IsShown app → IsShown (undo_forget_pressed env id app).0
  unfolding undo_forget_pressed
  undo-IsShown id app h =
      let undone = undo_forget-IsShown env id app h in
      let asked = record app { repository = undo_forget env.environment id app.repository } in
      elim (Result-cases (publish env asked).1) [
        | inl (done, returned) ↦ rw (returned, undo_forget_pressed) undone
        | inr (e, threw) ↦
            rw (threw, undo_forget_pressed)
              (record { keyed = undone.keyed; handled = undone.handled; shown = undone.shown })
      ]

  validate-IsShown :
      (from_clipboard : Bool) (key : String) (app : App)
      → IsShown app
      → IsShown (validate_and_open env from_clipboard key app).0
  unfolding validate_and_open
  validate-IsShown from_clipboard key app h =
      let opened = call-IsShown (open_confirmation_sheet key) app h in
      let closed = call-IsShown close_add_server_view app h in
      elim (Result-cases
        (validate_access_key env.environment (Map.values app.repository.server_by_id) key)) [
          | inl (done, valid) ↦ rw (valid, validate_and_open) opened
          | inr (e, threw) ↦
              ground
                (arith, show_error-IsShown env (thrown e) (call close_add_server_view app) closed)
        ]

  pub confirm-IsShown :
      (is_adding from_clipboard : Bool) (text : String) (app : App)
      → IsShown app
      → IsShown (confirm_add_server env is_adding from_clipboard text app).0
  unfolding confirm_add_server
  confirm-IsShown is_adding from_clipboard text app h =
      let key = unwrap_invite env.environment.parsers text in
      let asked = validate-IsShown from_clipboard key app h in ground arith

  pub status-IsShown : (e : StatusEvent) (app : App) → IsShown app → IsShown (on_status e app)
  unfolding on_status
  status-IsShown (server_connected id) app h = update-IsShown id _ app (λ card. refl) h
  status-IsShown (server_disconnected id) app h = update-IsShown id _ app (λ card. refl) h
  status-IsShown (server_reconnecting id) app h = update-IsShown id _ app (λ card. refl) h

  pub running-IsShown :
      (running : Option Bool) (id : String) (app : App)
      → IsShown app
      → IsShown (sync_server_connectivity_state env running id app)
  unfolding sync_server_connectivity_state
  running-IsShown (some true) id app h = update-IsShown id _ app (λ card. refl) h
  running-IsShown (some false) id app h = update-IsShown id _ app (λ card. refl) h
  running-IsShown none id app h = h
