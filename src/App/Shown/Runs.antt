-- ===== src/App/Shown/Runs.antt =====
-- The handlers of src/www/app/app.ts in any order, from the start of the application.
use pepper_vpn_client.Common.{List, refl, true, false, ◌≡◌, String, Bool, Option}
use pepper_vpn_client.Repository.{
  servers_storage_key, servers_storage_key_v0, create_server, load_servers, load_all_v0, load_all,
  load_server, new_server, add, undo_forget,
}
use pepper_vpn_client.App.Shown.Loaded.{load_servers-IsKeyed}
use pepper_vpn_client.App.Shown.Views.{
  all_running-IsShown, confirmation-IsShown, intercept-IsShown, feedback-IsShown,
}
use pepper_vpn_client.App.Feedback.{
  FeedbackForm, sync_connectivity_state, submit_feedback, set_app_language,
}
use pepper_vpn_client.App.Shown.Published.{sync-IsShown}
use pepper_vpn_client.App.Shown.Steps.{
  connect-IsShown, disconnect-IsShown, forget_server-IsShown, request_add-IsShown, undo-IsShown,
  confirm-IsShown, status-IsShown, running-IsShown,
}
use pepper_vpn_client.App.Cards.{server_ids, card_ids}
use pepper_vpn_client.App.{Settings, current, AppEnvironment, App, timeout_passes}
use pepper_vpn_client.App.Adding.{
  start_app, request_add_server, undo_forget_pressed, handle_clipboard_text, request_ignore_server,
  request_add_server_confirmation, intercept_url, ack_privacy_terms, auto_connect_dialog_dismissed,
  sync_server_connectivity_state,
}
use pepper_vpn_client.Repository
use pepper_vpn_client.App.Display.{address}
use pepper_vpn_client.App.Shown.{update-IsShown, IsShown}
use pepper_vpn_client.Common.Map.{Entries}
use pepper_vpn_client.Common.Map
use pepper_vpn_client.Server.{OutlineServer}
use pepper_vpn_client.App.Listeners.{StatusEvent, on_status}
use pepper_vpn_client.App.Connecting.{
  Connection, connect_server, disconnect_server, forget_server, rename_server, update_address,
}
use pepper_vpn_client.App.Shown.Repository.{rename-IsShown}
use pepper_vpn_client.App.Shown.Handlers.{Keeps}
use pepper_vpn_client.Common.Exec.{ok, Result}

module _ (env : AppEnvironment) where
  -- What a handler may do besides.
  pub data Step (app : App) : App → Type 0 where
    connects :
        (meanwhile installing : App → App) (c : Connection) (id : String)
        → Keeps meanwhile
        → Keeps installing
        → Step app (connect_server env meanwhile installing c id app).0
    disconnects :
        (meanwhile : App → App) (stopped : Bool) (id : String)
        → Keeps meanwhile
        → Step app (disconnect_server env meanwhile stopped id app).0
    forgets :
        (meanwhile : App → App) (running : Option Bool) (stopping : App → App) (stopped : Bool)
        (id : String)
        → Keeps meanwhile
        → Keeps stopping
        → Step app (forget_server env meanwhile running stopping stopped id app).0
    renames : (id name : String) → Step app (rename_server env id name app).0
    adds : (id key : String) → Step app (request_add_server env id key app).0
    undoes : (id : String) → Step app (undo_forget_pressed env id app).0
    pastes :
        (is_adding : Bool) (text : String) → Step app (handle_clipboard_text env is_adding text app)
    ignores : (key : String) → Step app (request_ignore_server env key app)
    hears : (e : StatusEvent) → Step app (on_status e app)
    throttle_ends : (id : String) → Step app (timeout_passes id app)
    address_changes : (server : OutlineServer) → Step app (update_address env server app)
    asks_running :
        (running : Option Bool) (id : String)
        → Step app (sync_server_connectivity_state env running id app)
    asks_all :
        (running : OutlineServer → Option Bool) (servers : List OutlineServer)
        → Step app (sync_connectivity_state env running servers app)
    confirms :
        (is_adding : Bool) (key : String)
        → Step app (request_add_server_confirmation env is_adding key app)
    intercepts :
        (is_adding : Bool) (url : String) → Step app (intercept_url env is_adding url app).0
    submits :
        (meanwhile : App → App) (report : FeedbackForm → Result String (Unit {0}))
        (form : Option FeedbackForm)
        → Keeps meanwhile
        → Step app (submit_feedback env meanwhile report form app).0
    changes_language : (code : String) → Step app (set_app_language code app)
    acks_privacy : Step app (ack_privacy_terms env app).0
    dismisses_dialog : Step app (auto_connect_dialog_dismissed env app).0

  -- Every handler leaves the servers and their cards together, whatever its awaited calls give, and
  -- whatever other handlers do meanwhile, if they leave them together too.
  pub Step-IsShown : {app app' : App} → Step app app' → IsShown app → IsShown app'
  Step-IsShown {app} (connects meanwhile installing c id keeps installs) h =
      connect-IsShown env meanwhile installing c id app keeps installs h
  Step-IsShown {app} (disconnects meanwhile stopped id keeps) h =
      disconnect-IsShown env meanwhile stopped id app keeps h
  Step-IsShown {app} (forgets meanwhile running stopping stopped id keeps stops) h =
      forget_server-IsShown env meanwhile running stopping stopped id app keeps stops h
  Step-IsShown {app} (renames id name) h = unfold rename_server in rename-IsShown env id name app h
  Step-IsShown {app} (adds id key) h = request_add-IsShown env id key app h
  Step-IsShown {app} (undoes id) h = undo-IsShown env id app h
  Step-IsShown {app} (pastes is_adding text) h =
      unfold handle_clipboard_text in confirm-IsShown env is_adding true _ app h
  Step-IsShown {app} (ignores key) h =
      unfold request_ignore_server in
      record { keyed = h.keyed; handled = h.handled; shown = h.shown }
  Step-IsShown {app} (hears e) h = status-IsShown env e app h
  Step-IsShown {app} (throttle_ends id) h =
      unfold timeout_passes in record { keyed = h.keyed; handled = h.handled; shown = h.shown }
  Step-IsShown {app} (address_changes server) h =
      unfold update_address in
      update-IsShown server.id (λ card. record card { address = address (current server app) }) app
        (λ card. refl) h
  Step-IsShown {app} (asks_running running id) h = running-IsShown env running id app h
  Step-IsShown {app} (asks_all running servers) h = all_running-IsShown env running servers app h
  Step-IsShown {app} (confirms is_adding key) h = confirmation-IsShown env is_adding key app h
  Step-IsShown {app} (intercepts is_adding url) h = intercept-IsShown env is_adding url app h
  Step-IsShown {app} (submits meanwhile report form keeps) h =
      feedback-IsShown env meanwhile report form app keeps h
  Step-IsShown {app} (changes_language code) h =
      unfold set_app_language in record { keyed = h.keyed; handled = h.handled; shown = h.shown }
  Step-IsShown {app} acks_privacy h =
      unfold ack_privacy_terms in record { keyed = h.keyed; handled = h.handled; shown = h.shown }
  Step-IsShown {app} dismisses_dialog h =
      unfold auto_connect_dialog_dismissed in
      record { keyed = h.keyed; handled = h.handled; shown = h.shown }

  pub data Reach (first : App) : App → Type 0 where
    here : Reach first first
    next : {app app' : App} → Reach first app → Step app app' → Reach first app'

  Reach-IsShown : {first app : App} → Reach first app → IsShown first → IsShown app
  Reach-IsShown here h = h
  Reach-IsShown (next r st) h = Step-IsShown st (Reach-IsShown r h)

  -- From the start of the application with the servers of the storage, whatever its handlers have
  -- done, there is a card for each server, with its id, in the order of the servers, unless a
  -- listener has thrown.
  pub cards_after_handlers :
      (storage : Entries String) (repo : Repository.Repository) (settings : Settings) (app : App)
      → load_servers env.environment storage ≡ ok repo
      → (start_app env repo settings).1 ≡ ok tt
      → Reach (start_app env repo settings).0 app
      → app.publishing_stopped ≡ false
      → card_ids app.servers ≡ server_ids (Map.values app.repository.server_by_id)
  unfolding start_app
  cards_after_handlers storage repo settings app loads started calls going =
      let (keyed, none_queued) = load_servers-IsKeyed env storage repo loads in
      (Reach-IsShown calls (sync-IsShown env _ keyed none_queued started)).shown going
