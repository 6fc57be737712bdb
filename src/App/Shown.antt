-- ===== src/App/Shown.antt =====
-- What src/www/app/app.ts shows between two of its handlers: a card for each server of the
-- repository.
pub mod Published
pub mod Repository
pub mod Handlers
pub mod Steps
pub mod Views
pub mod Loaded
pub mod Runs
use pepper_vpn_client.Common.{
  String, true, false, none, some, [], ◌≡◌, ◌∙◌, sym, ap, refl, arith, Option-cases,
}
use pepper_vpn_client.Common.Map
use pepper_vpn_client.Server.{OutlineServer}
use pepper_vpn_client.App.{
  ServerListItem, UiCall, App, call, update_server_list_item, update_card, put_server,
  start_timeout, current,
}
use pepper_vpn_client.App.Cards.{
  IsKeyed, card_ids, server_ids, update_card-ids, put_server-ids, get-IsKeyed,
}

-- Every server stands under its id. Unless a listener has thrown, no event waits, and the cards are
-- those of the servers, in their order.
pub record IsShown (app : App) : Type 0 where
  pub keyed : IsKeyed app.repository.server_by_id
  pub handled : app.publishing_stopped ≡ false → app.repository.events ≡ []
  pub shown :
      app.publishing_stopped ≡ false
      → card_ids app.servers ≡ server_ids (Map.values app.repository.server_by_id)

pub call-IsShown : (c : UiCall) (app : App) → IsShown app → IsShown (call c app)
call-IsShown c app h = record { keyed = h.keyed; handled = h.handled; shown = h.shown }

pub update-IsShown :
    (id : String) (change : ServerListItem → ServerListItem) (app : App)
    → ((card : ServerListItem) → (change card).id ≡ card.id)
    → IsShown app
    → IsShown (update_server_list_item id change app)
unfolding update_server_list_item
update-IsShown id change app same h = record {
  keyed = h.keyed;
  handled = h.handled;
  shown = λ going. update_card-ids id change app.servers same ∙ h.shown going;
}

pub timeout-IsShown : (id : String) (app : App) → IsShown app → IsShown (start_timeout id app)
timeout-IsShown id app h = record { keyed = h.keyed; handled = h.handled; shown = h.shown }

put_server-rest :
    (server : OutlineServer) (app : App)
    → ((put_server server app).servers ≡ app.servers)
      × ((put_server server app).repository.events ≡ app.repository.events)
      × ((put_server server app).publishing_stopped ≡ app.publishing_stopped)
unfolding put_server
put_server-rest server app = (ground arith, ground arith, ground arith)

pub put_server-IsShown :
    (server : OutlineServer) (app : App) → IsShown app → IsShown (put_server server app)
put_server-IsShown server app h =
    let (keyed, ids) = put_server-ids server app h.keyed in
    let (cards, events, stopped) = put_server-rest server app in
    record {
      keyed = keyed;
      handled = λ going. events ∙ h.handled (sym stopped ∙ going);
      shown = λ going. ap card_ids cards ∙ h.shown (sym stopped ∙ going) ∙ sym ids;
    }
