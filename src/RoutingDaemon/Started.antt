-- ===== src/RoutingDaemon/Started.antt =====
-- The promise of `start` in src/electron/routing_service.ts.
use pepper_vpn_client.Common.{
  String, Bool, List, [], ◌∷◌, true, false, none, some, ◌≡◌, ◌&&◌, ◌||◌, ◌⊎◌, not, refl, arith,
}
use pepper_vpn_client.RoutingDaemon.{
  StartPromise, not_started, connecting, configuring, refused, configured, removed, pending,
  fulfilled, RoutingDaemon, new_routing_daemon, cleanup, start, connected, initial_error_handler,
  socket_error, socket_closed, first_data, data_handler, receive, write_reset, stop,
  set_on_network_change, Event, starts, connects, fails, closes, stops, receives, listens, event,
  run,
}

abbrev is_pending : StartPromise → Bool
is_pending pending = true
is_pending _ = false

abbrev is_fulfilled : StartPromise → Bool
is_fulfilled fulfilled = true
is_fulfilled _ = false

abbrev is_sound : RoutingDaemon → Bool
is_sound d = elim d.listeners [
  | not_started ↦ not d.socket && is_pending d.start_promise
  | connecting ↦ d.socket && is_pending d.start_promise
  | configuring ↦ d.socket && is_pending d.start_promise
  | refused ↦ d.socket && not (is_fulfilled d.start_promise)
  | configured ↦ d.socket && is_fulfilled d.start_promise
  | removed ↦ not d.socket && (not (is_fulfilled d.start_promise) || d.disconnected)
]

event-is_sound : (e : Event) (d : RoutingDaemon) → is_sound d ≡ true → is_sound (event e d) ≡ true
unfolding event start connected socket_error socket_closed stop receive set_on_network_change
    cleanup initial_error_handler first_data data_handler write_reset
event-is_sound starts d h = ground arith
event-is_sound connects d h = ground arith
event-is_sound fails d h = ground arith
event-is_sound closes d h = ground arith
event-is_sound stops d h = ground arith
event-is_sound (receives none) d h = ground arith
event-is_sound (receives (some m)) d h = ground arith
event-is_sound (listens b) d h = ground arith

pub run-is_sound :
    (es : List Event) (d : RoutingDaemon) → is_sound d ≡ true → is_sound (run es d) ≡ true
unfolding run
run-is_sound [] d h = h
run-is_sound (e ∷ es) d h = run-is_sound es (event e d) (event-is_sound e d h)

fulfilled_from :
    (d : RoutingDaemon)
    → is_sound d ≡ true
    → d.start_promise ≡ fulfilled
    → ((d.listeners ≡ configured) × (d.socket ≡ true))
      ⊎ ((d.listeners ≡ removed) × (d.disconnected ≡ true))
fulfilled_from d h e = ground arith

-- Whatever happened to a new daemon, once its `start` is fulfilled the socket is set and listens for
-- messages, or `onceDisconnected` is fulfilled and nothing listens any more.
pub fulfilled_is_connected :
    (address : String) (auto : Bool) (es : List Event)
    → (run es (new_routing_daemon address auto)).start_promise ≡ fulfilled
    → (((run es (new_routing_daemon address auto)).listeners ≡ configured)
        × ((run es (new_routing_daemon address auto)).socket ≡ true))
      ⊎ (((run es (new_routing_daemon address auto)).listeners ≡ removed)
          × ((run es (new_routing_daemon address auto)).disconnected ≡ true))
fulfilled_is_connected address auto es =
    let new = new_routing_daemon address auto in
    fulfilled_from (run es new) (run-is_sound es new refl)

event_removed :
    (e : Event) (d : RoutingDaemon)
    → d.listeners ≡ removed
    → ((event e d).listeners ≡ removed) × ((event e d).start_promise ≡ d.start_promise)
unfolding event start connected socket_error socket_closed stop receive set_on_network_change
    write_reset
event_removed starts d h = ground arith
event_removed connects d h = ground arith
event_removed fails d h = ground arith
event_removed closes d h = ground arith
event_removed stops d h = ground arith
event_removed (receives m) d h = ground arith
event_removed (listens b) d h = ground arith

run_removed :
    (es : List Event) (d : RoutingDaemon)
    → d.listeners ≡ removed
    → (run es d).start_promise ≡ d.start_promise
unfolding run
run_removed [] d h = refl
run_removed (e ∷ es) d h =
    let (still, same) = event_removed e d h in let rest = run_removed es (event e d) still in cc

closed_from :
    (d : RoutingDaemon)
    → is_sound d ≡ true
    → d.listeners ≡ configuring
    → ((socket_closed d).listeners ≡ removed)
      × ((socket_closed d).start_promise ≡ pending)
      × ((socket_error d).listeners ≡ removed)
      × ((socket_error d).start_promise ≡ pending)
unfolding socket_closed socket_error cleanup
closed_from d h e = ground arith

-- When the socket is closed or fails after it was connected and before its first message, `start` is
-- never settled, whatever happens later.
pub start_hangs :
    (address : String) (auto : Bool) (es later : List Event)
    → (run es (new_routing_daemon address auto)).listeners ≡ configuring
    → ((run later (socket_closed (run es (new_routing_daemon address auto)))).start_promise
        ≡ pending)
      × ((run later (socket_error (run es (new_routing_daemon address auto)))).start_promise
          ≡ pending)
start_hangs address auto es later h =
    let new = new_routing_daemon address auto in
    let d = run es new in
    let (closed, waits, failed, waits_too) = closed_from d (run-is_sound es new refl) h in
    let a = run_removed later (socket_closed d) closed in
    let b = run_removed later (socket_error d) failed in (cc, cc)
