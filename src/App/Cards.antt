-- ===== src/App/Cards.antt =====
-- The ids of the cards and of the servers that they stand for, in src/www/app/app.ts.
use pepper_vpn_client.Common.{
  String, some, List, [], ◌∷◌, ◌≡◌, refl, arith, inl, inr, eq_iff, Option-cases,
}
use pepper_vpn_client.Common.Map
use pepper_vpn_client.Common.Map.{Entries}
use pepper_vpn_client.Common.Exec.{ok, Result-cases}
use pepper_vpn_client.Server.{OutlineServer}
use pepper_vpn_client.App.{AppEnvironment, ServerListItem, App, update_card, put_server}
use pepper_vpn_client.App.Display.{make_server_list_item, make_items}

abbrev pub card_ids : List ServerListItem → List String
card_ids [] = []
card_ids (card ∷ cards) = card.id ∷ card_ids cards

abbrev pub server_ids : List OutlineServer → List String
server_ids [] = []
server_ids (server ∷ servers) = server.id ∷ server_ids servers

-- Every server stands under its id.
abbrev pub IsKeyed : Entries OutlineServer → Type 0
IsKeyed [] = Unit
IsKeyed ((k, server) ∷ m) = (server.id ≡ k) × IsKeyed m

pub update_card-ids :
    (id : String) (change : ServerListItem → ServerListItem) (cards : List ServerListItem)
    → ((card : ServerListItem) → (change card).id ≡ card.id)
    → card_ids (update_card id change cards) ≡ card_ids cards
unfolding update_card
update_card-ids id change [] h = refl
update_card-ids id change (card ∷ cards) h =
    ground (arith, h card, update_card-ids id change cards h)

pub get-IsKeyed :
    (m : Entries OutlineServer) (k : String) (server : OutlineServer)
    → IsKeyed m
    → Map.get m k ≡ some server
    → server.id ≡ k
unfolding Map.get
get-IsKeyed [] k server h found = cc
get-IsKeyed ((j, s) ∷ m) k server (same, h) found =
    ground (arith, eq_iff j k, get-IsKeyed m k server h)

pub set-IsKeyed :
    (m : Entries OutlineServer) (k : String) (server : OutlineServer)
    → server.id ≡ k
    → IsKeyed m
    → IsKeyed (Map.set m k server)
unfolding Map.set
set-IsKeyed [] k server same h = (same, tt)
set-IsKeyed ((j, s) ∷ m) k server same (first, h) = ground (arith, set-IsKeyed m k server same h)

pub remove-IsKeyed : (m : Entries OutlineServer) (k : String) → IsKeyed m → IsKeyed (Map.remove m k)
unfolding Map.remove
remove-IsKeyed [] k h = tt
remove-IsKeyed ((j, s) ∷ m) k (first, h) = ground (arith, remove-IsKeyed m k h)

-- A server under its id again leaves the ids.
pub set-ids :
    (m : Entries OutlineServer) (k : String) (old server : OutlineServer)
    → Map.get m k ≡ some old
    → server.id ≡ old.id
    → server_ids (Map.values (Map.set m k server)) ≡ server_ids (Map.values m)
unfolding Map.get Map.set Map.values
set-ids [] k old server found same = cc
set-ids ((j, s) ∷ m) k old server found same = ground (arith, set-ids m k old server)

pub put_server-ids :
    (server : OutlineServer) (app : App)
    → IsKeyed app.repository.server_by_id
    → IsKeyed (put_server server app).repository.server_by_id
      × (server_ids (Map.values (put_server server app).repository.server_by_id)
          ≡ server_ids (Map.values app.repository.server_by_id))
unfolding put_server
put_server-ids server app h =
    let m = app.repository.server_by_id in
    elim (Option-cases (Map.get m server.id)) [
      | inl absent ↦ ground arith
      | inr (old, found) ↦
          let same = get-IsKeyed m server.id old h found in
          let keyed = set-IsKeyed m server.id server refl h in
          let ids = set-ids m server.id old server found in ground arith
    ]

module _ (env : AppEnvironment) where
  -- The cards of servers have their ids, in their order.
  pub make_items-ids :
      (servers : List OutlineServer) (items : List ServerListItem)
      → make_items env servers ≡ ok items
      → card_ids items ≡ server_ids servers
  unfolding make_items make_server_list_item
  make_items-ids [] items h = ground arith
  make_items-ids (server ∷ servers) items h = elim (Result-cases (make_items env servers)) [
    | inl (rest, made) ↦ ground (arith, make_items-ids servers rest)
    | inr (e, threw) ↦ ground arith
  ]
