-- ===== src/RoutingDaemon/Resetting.antt =====
-- The requests of src/electron/routing_service.ts to reset the routing.
use pepper_vpn_client.Common.{
  ℕ, suc, String, Bool, List, [], ◌∷◌, ◌++◌, ◌+◌, none, some, ◌≡◌, refl, arith, if◌then◌else◌,
}
use pepper_vpn_client.RoutingDaemon.{
  RoutingServiceRequest, configure_request, reset_request, RoutingDaemon, new_routing_daemon,
  cleanup, start, connected, initial_error_handler, socket_error, socket_closed, first_data,
  data_handler, receive, write_reset, stop, set_on_network_change, Event, starts, connects, fails,
  closes, stops, receives, listens, event, run,
}

-- the requests to reset the routing
abbrev pub resets : List RoutingServiceRequest → ℕ
resets [] = 0
resets (reset_request ∷ rs) = suc (resets rs)
resets (configure_request _ _ ∷ rs) = resets rs

resets-append : (rs ts : List RoutingServiceRequest) → resets (rs ++ ts) ≡ resets rs + resets ts
resets-append [] ts = ground arith
resets-append (reset_request ∷ rs) ts = let rest = resets-append rs ts in ground arith
resets-append (configure_request _ _ ∷ rs) ts = resets-append rs ts

abbrev pub expected : RoutingDaemon → ℕ
expected d = if d.stopping then 1 else 0

written_configure :
    (d : RoutingDaemon)
    → resets (d.written ++ configure_request d.proxy_address d.is_auto_connect ∷ [])
      ≡ resets d.written
written_configure d =
    let e = resets-append d.written (configure_request d.proxy_address d.is_auto_connect ∷ []) in
    ground arith

written_reset :
    (d : RoutingDaemon) → resets (d.written ++ reset_request ∷ []) ≡ suc (resets d.written)
written_reset d = let e = resets-append d.written (reset_request ∷ []) in ground arith

event-resets :
    (e : Event) (d : RoutingDaemon)
    → resets d.written ≡ expected d
    → resets (event e d).written ≡ expected (event e d)
unfolding event start connected socket_error socket_closed stop receive set_on_network_change
    cleanup initial_error_handler first_data data_handler write_reset
event-resets starts d h = ground arith
event-resets connects d h = ground (arith, written_configure d)
event-resets fails d h = ground arith
event-resets closes d h = ground arith
event-resets stops d h = ground (arith, written_reset d)
event-resets (receives none) d h = ground arith
event-resets (receives (some m)) d h = ground arith
event-resets (listens b) d h = ground arith

run-resets :
    (es : List Event) (d : RoutingDaemon)
    → resets d.written ≡ expected d
    → resets (run es d).written ≡ expected (run es d)
unfolding run
run-resets [] d h = h
run-resets (e ∷ es) d h = run-resets es (event e d) (event-resets e d h)

-- Whatever happened to a new daemon, it has sent one request to reset the routing when it is
-- stopping, and none when it is not.
pub resets_once :
    (address : String) (auto : Bool) (es : List Event)
    → resets (run es (new_routing_daemon address auto)).written
      ≡ (if (run es (new_routing_daemon address auto)).stopping then 1 else 0)
resets_once address auto es = run-resets es (new_routing_daemon address auto) refl
