-- ===== src/App/Shown/Published.antt =====
-- The events of the repository, once the listeners of src/www/app/app.ts have handled them.
use pepper_vpn_client.Common.{
  String, true, false, List, [], ◌∷◌, ◌≡◌, ◌∙◌, refl, arith, inl, inr, Bool-cases, ap, sym,
}
use pepper_vpn_client.Common.Map
use pepper_vpn_client.Common.Exec.{Result, ok, err, Result-cases}
use pepper_vpn_client.Errors.{Thrown}
use pepper_vpn_client.Repository.{
  RepositoryEvent, server_added, server_renamed, server_forgotten, server_forget_undone, Repository,
}
use pepper_vpn_client.App.{AppEnvironment, App, update_server_list_item}
use pepper_vpn_client.App.Display.{make_items, sync_servers_to_ui}
use pepper_vpn_client.App.Cards.{IsKeyed, card_ids, server_ids, make_items-ids, update_card-ids}
use pepper_vpn_client.App.Listeners.{
  toast_named, on_server_added, on_server_renamed, on_server_forgotten, on_server_forget_undone,
  on_event, publish_all, publish,
}
use pepper_vpn_client.App.Shown.{IsShown}

abbrev ids_of : App → List String
ids_of app = server_ids (Map.values app.repository.server_by_id)

-- What a listener leaves alone, and what it shows unless it throws.
record Shows (app handled : App) (returns : Type 0) : Type 0 where
  repository : handled.repository ≡ app.repository
  stopped : handled.publishing_stopped ≡ app.publishing_stopped
  cards : returns → card_ids handled.servers ≡ ids_of app

module _ (env : AppEnvironment) where
  sync-Shows :
      (app : App)
      → Shows app (sync_servers_to_ui env app).0 ((sync_servers_to_ui env app).1 ≡ ok tt)
  unfolding sync_servers_to_ui
  sync-Shows app = elim (Result-cases (make_items env (Map.values app.repository.server_by_id))) [
    | inl (items, made) ↦
        let ids = make_items-ids env (Map.values app.repository.server_by_id) items made in
        record { repository = ground arith; stopped = ground arith; cards = λ r. ground arith }
    | inr (e, threw) ↦ record {
      repository = ground arith;
      stopped = ground arith;
      cards = λ r. ground arith;
    }
  ]

  -- The event comes from a call that keeps the cards, or the listener makes them anew.
  abbrev pub Announces : RepositoryEvent → App → Type 0
  Announces (server_renamed _) app = card_ids app.servers ≡ ids_of app
  Announces _ app = Unit {0}

  on_event-Shows :
      (e : RepositoryEvent) (app : App)
      → Announces e app
      → Shows app (on_event env e app).0 ((on_event env e app).1 ≡ ok tt)
  unfolding on_event on_server_added on_server_renamed on_server_forgotten on_server_forget_undone
      toast_named
  on_event-Shows (server_added s) app h =
      let synced = sync-Shows app in
      record {
        repository = ground (arith, synced.repository);
        stopped = ground (arith, synced.stopped);
        cards = λ r. ground (arith, synced.cards);
      }
  on_event-Shows (server_renamed s) app h = record {
    repository = unfold update_server_list_item in refl;
    stopped = unfold update_server_list_item in refl;
    cards = λ r.
        unfold update_server_list_item in update_card-ids s.id _ app.servers (λ card. refl) ∙ h;
  }
  on_event-Shows (server_forgotten s) app h =
      let synced = sync-Shows app in
      record {
        repository = ground (arith, synced.repository);
        stopped = ground (arith, synced.stopped);
        cards = λ r. ground (arith, synced.cards);
      }
  on_event-Shows (server_forget_undone s) app h =
      let synced = sync-Shows app in
      record {
        repository = ground (arith, synced.repository);
        stopped = ground (arith, synced.stopped);
        cards = λ r. ground (arith, synced.cards);
      }

  pub publish_none : (app : App) → app.repository.events ≡ [] → (publish env app).0 ≡ app
  unfolding publish publish_all
  publish_none app none_queued = ground arith

  pub publish_stopped : (app : App) → app.publishing_stopped ≡ true → (publish env app).0 ≡ app
  unfolding publish
  publish_stopped app stopped = ground arith

  -- the application with an event taken off the queue
  abbrev taken : App → App
  taken app = record app { repository = record app.repository { events = [] } }

  -- The state behind a listener that has been the last one.
  abbrev left : App × Result Thrown (Unit {0}) → App
  left (handled, ok _) = handled
  left (handled, err _) = record handled { publishing_stopped = true }

  publish_one :
      (e : RepositoryEvent) (app : App)
      → app.publishing_stopped ≡ false
      → app.repository.events ≡ e ∷ []
      → (publish env app).0 ≡ left (on_event env e (taken app))
  unfolding publish publish_all
  publish_one e app going queued = ground arith

  left-IsShown :
      (app : App) (handled : App) (outcome : Result Thrown (Unit {0}))
      → IsKeyed app.repository.server_by_id
      → app.repository.events ≡ []
      → Shows app handled (outcome ≡ ok tt)
      → IsShown (left (handled, outcome))
  left-IsShown app handled (ok tt) keyed none_queued h = record {
    keyed = rw h.repository keyed;
    handled = λ going. ap (λ (r : Repository). r.events) h.repository ∙ none_queued;
    shown = λ going.
        h.cards refl
        ∙ ap (λ (r : Repository). server_ids (Map.values r.server_by_id)) (sym h.repository);
  }
  left-IsShown app handled (err e) keyed none_queued h = record {
    keyed = rw h.repository keyed;
    handled = λ going. cc;
    shown = λ going. cc;
  }

  announced_taken : (e : RepositoryEvent) (app : App) → Announces e app → Announces e (taken app)
  announced_taken (server_added s) app h = tt
  announced_taken (server_renamed s) app h = h
  announced_taken (server_forgotten s) app h = tt
  announced_taken (server_forget_undone s) app h = tt

  -- One event that waits is handled, or the queue has stopped.
  pub publish_one-IsShown :
      (e : RepositoryEvent) (app : App)
      → IsKeyed app.repository.server_by_id
      → (app.publishing_stopped ≡ false → (app.repository.events ≡ e ∷ []) × Announces e app)
      → IsShown (publish env app).0
  publish_one-IsShown e app keyed waits = elim (Bool-cases app.publishing_stopped) [
    | inl stopped ↦
        rw (publish_stopped app stopped)
          (record { keyed = keyed; handled = λ going. cc; shown = λ going. cc })
    | inr going ↦
        let (queued, announced) = waits going in
        rw (publish_one e app going queued) (
          left-IsShown (taken app) (on_event env e (taken app)).0 (on_event env e (taken app)).1
            keyed refl (on_event-Shows e (taken app) (announced_taken e app announced)))
  ]

  pub publish-IsShown : (app : App) → IsShown app → IsShown (publish env app).0
  publish-IsShown app h = elim (Bool-cases app.publishing_stopped) [
    | inl stopped ↦ rw (publish_stopped app stopped) h
    | inr going ↦ rw (publish_none app (h.handled going)) h
  ]

  -- The cards that are made anew.
  pub sync-IsShown :
      (app : App)
      → IsKeyed app.repository.server_by_id
      → app.repository.events ≡ []
      → (sync_servers_to_ui env app).1 ≡ ok tt
      → IsShown (sync_servers_to_ui env app).0
  sync-IsShown app keyed none_queued made =
      let synced = sync-Shows app in
      left-IsShown app (sync_servers_to_ui env app).0 (ok tt) keyed none_queued (record {
        repository = synced.repository;
        stopped = synced.stopped;
        cards = λ r. synced.cards made;
      })
