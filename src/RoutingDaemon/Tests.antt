-- ===== src/RoutingDaemon/Tests.antt =====
-- Runs of src/electron/routing_service.ts.
use pepper_vpn_client.Common.{◌⊎◌, List, [], ◌∷◌, true, false, none, some, ◌≡◌, refl}
use pepper_vpn_client.RoutingDaemon.{
  RoutingServiceResponse, configure_routing, configure_request, reset_request, configuring,
  configured, removed, fulfilled, RoutingDaemon, new_routing_daemon, start, connected, first_data,
  receive, write_reset, stop, Event, starts, connects, stops, receives, event, run,
}
use pepper_vpn_client.RoutingDaemon.Started.{fulfilled_is_connected}

abbrev good : RoutingServiceResponse
good = record {
  action = configure_routing;
  status_code = 0;
  error_message = none;
  connection_status = 0;
}

abbrev new : RoutingDaemon
new = new_routing_daemon "1.2.3.4" false

abbrev begun : List Event
begun = starts ∷ connects ∷ receives (some good) ∷ []

begun_fulfilled : (run begun new).start_promise ≡ fulfilled
unfolding run event start connected receive first_data
begun_fulfilled = refl

fulfilled_is_connected_example :
    (((run begun new).listeners ≡ configured) × ((run begun new).socket ≡ true))
    ⊎ (((run begun new).listeners ≡ removed) × ((run begun new).disconnected ≡ true))
fulfilled_is_connected_example = fulfilled_is_connected "1.2.3.4" false begun begun_fulfilled

half_begun : (run (starts ∷ connects ∷ []) new).listeners ≡ configuring
unfolding run event start connected
half_begun = refl

abbrev stopped_twice : List Event
stopped_twice = starts ∷ connects ∷ receives (some good) ∷ stops ∷ stops ∷ []

test_stop_before_connection :
    (run (starts ∷ stops ∷ connects ∷ []) new).written
    ≡ reset_request ∷ configure_request "1.2.3.4" false ∷ []
unfolding run event start connected stop write_reset
test_stop_before_connection = refl

test_stop_after_connection :
    (run stopped_twice new).written ≡ configure_request "1.2.3.4" false ∷ reset_request ∷ []
unfolding run event start connected receive first_data stop write_reset
test_stop_after_connection = refl
