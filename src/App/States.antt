-- ===== src/App/States.antt =====
-- The state that the card of a server shows, in src/www/app/app.ts.
use pepper_vpn_client.Common.{
  Bool-cases, String, Bool, true, false, List, [], ◌∷◌, ◌≡◌, arith, All, str_eq, eq_iff, inl, inr,
}
use pepper_vpn_client.App.{
  start_timeout, with_state, ServerConnectionState, update_server_list_item, App, update_card,
  ServerListItem,
}
use pepper_vpn_client.Common.Exec.{err, ok, Result}

-- every card with the id shows the state
abbrev pub ShowsAt : String → ServerConnectionState → List ServerListItem → Type 0
ShowsAt id state cards = All (λ card. card.id ≡ id → card.connection_state ≡ state) cards

abbrev pub Shows : String → ServerConnectionState → App → Type 0
Shows id state app = ShowsAt id state app.servers

update_card-All :
    (id : String) (state : ServerConnectionState) (change : ServerListItem → ServerListItem)
    (cards : List ServerListItem)
    → ((card : ServerListItem) → (change card).connection_state ≡ state)
    → All
        (λ (card : ServerListItem). card.id ≡ id → card.connection_state ≡ state)
        (update_card id change cards)
unfolding update_card
update_card-All id state change [] h = tt
update_card-All id state change (card ∷ cards) h = (
  elim (Bool-cases (str_eq card.id id)) [
    | inl same ↦ rw same (λ e. h card)
    | inr other ↦ rw other (λ e. absurd (ground (arith, eq_iff card.id id)))
  ],
  update_card-All id state change cards h,
)

-- A change to a state shows that state.
pub update-Shows :
    (id : String) (state : ServerConnectionState) (change : ServerListItem → ServerListItem)
    (app : App)
    → ((card : ServerListItem) → (change card).connection_state ≡ state)
    → Shows id state (update_server_list_item id change app)
unfolding update_server_list_item
update-Shows id state change app h = update_card-All id state change app.servers h

abbrev pub is_ok {ℓ κ} : {E : Type κ} {A : Type ℓ} → Result E A → Bool
is_ok (ok _) = true
is_ok (err _) = false

-- What a handler finds when its wait is over.
abbrev pub waiting : (App → App) → ServerConnectionState → String → App → App
waiting meanwhile state id app =
    meanwhile (update_server_list_item id (with_state state) (start_timeout id app))
