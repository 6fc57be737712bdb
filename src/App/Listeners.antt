-- ===== src/App/Listeners.antt =====
-- The listeners of src/www/app/app.ts to the events of the queue. The queue has been started, so
-- the repository's events are handled before its method returns, until a listener throws: from then
-- on they stay in the queue.
use pepper_vpn_client.Common.{String, true, Option, none, some, List, [], ◌∷◌, if◌then◌else◌}
use pepper_vpn_client.Common.Exec.{Result, ok, err}
use pepper_vpn_client.Errors.{Thrown}
use pepper_vpn_client.Server.{OutlineServer}
use pepper_vpn_client.Repository.{
  RepositoryEvent, server_added, server_renamed, server_forgotten, server_forget_undone,
}
use pepper_vpn_client.App.{
  AppEnvironment, connected, reconnecting, disconnected, milliseconds, undo_forget_server, Toast,
  show_toast, change_to_default_page, App, call, plain_toast, with_state, update_server_list_item,
}
use pepper_vpn_client.App.Display.{display_name, sync_servers_to_ui}

abbrev pub Handled : Type 0
Handled = App × Result Thrown (Unit {0})

-- one call that may throw after another
abbrev pub then_do : Handled → (App → Handled) → Handled
then_do (app, ok _) next = next app
then_do (app, err e) next = (app, err e)

-- What a tunnel tells of its server.
pub data StatusEvent : Type 0 where
  server_connected server_disconnected server_reconnecting : String → StatusEvent

unfoldable pub on_status : StatusEvent → App → App
on_status (server_connected id) app = update_server_list_item id (with_state connected) app
on_status (server_disconnected id) app = update_server_list_item id (with_state disconnected) app
on_status (server_reconnecting id) app = update_server_list_item id (with_state reconnecting) app

module _ (env : AppEnvironment) where
  open env use {localize}

  -- a toast with the name of a server, where the name can be told
  unfoldable pub toast_named : (String → Toast) → OutlineServer → App → Handled
  toast_named toast server app = elim (display_name env server) [
    | ok name ↦ (call (show_toast (toast name)) app, ok tt)
    | err e ↦ (app, err e)
  ]

  unfoldable pub on_server_added : OutlineServer → App → Handled
  unfolding toast_named
  on_server_added server app = then_do (sync_servers_to_ui env app) λ synced.
      toast_named (λ name. plain_toast (localize "server-added" ("serverName" ∷ name ∷ []))) server
        (call change_to_default_page synced)

  unfoldable pub on_server_forgotten : OutlineServer → App → Handled
  unfolding toast_named
  on_server_forgotten server app = then_do (sync_servers_to_ui env app) λ synced.
      toast_named
        (λ name. record {
          message = localize "server-forgotten" ("serverName" ∷ name ∷ []);
          duration = milliseconds 10000;
          button = some (localize "undo-button-label" []);
          action = undo_forget_server server.id;
          link = none;
        })
        server synced

  unfoldable pub on_server_forget_undone : OutlineServer → App → Handled
  unfolding toast_named
  on_server_forget_undone server app = then_do (sync_servers_to_ui env app) λ synced.
      toast_named
        (λ name. plain_toast (localize "server-forgotten-undo" ("serverName" ∷ name ∷ []))) server
        synced

  -- the text of a name that may be absent
  abbrev shown_name : Option String → String
  shown_name none = "undefined"
  shown_name (some name) = name

  unfoldable pub on_server_renamed : OutlineServer → App → Handled
  on_server_renamed server app = (
    call (show_toast (plain_toast (localize "server-rename-complete" []))) (
        update_server_list_item server.id (λ card. record card { name = shown_name server.name })
          app),
    ok tt,
  )

  unfoldable pub on_event : RepositoryEvent → App → Handled
  unfolding on_server_added on_server_renamed on_server_forgotten on_server_forget_undone
  on_event (server_added server) app = on_server_added server app
  on_event (server_renamed server) app = on_server_renamed server app
  on_event (server_forgotten server) app = on_server_forgotten server app
  on_event (server_forget_undone server) app = on_server_forget_undone server app

  -- The loop over the queue; `repository.events` is what is queued.
  unfoldable pub publish_all : List RepositoryEvent → App → Handled
  unfolding on_event
  publish_all [] app = (app, ok tt)
  publish_all (e ∷ es) app =
      let taken = record app { repository = record app.repository { events = es } } in
      let (handled, outcome) = on_event e taken in
      let rest = publish_all es handled in
      elim outcome [
        | ok _ ↦ rest
        | err thrown ↦ (record handled { publishing_stopped = true }, err thrown)
      ]

  -- The end of `enqueue`.
  unfoldable pub publish : App → Handled
  unfolding publish_all
  publish app =
      if app.publishing_stopped then (app, ok tt) else publish_all app.repository.events app
