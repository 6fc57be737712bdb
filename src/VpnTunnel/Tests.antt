-- ===== src/VpnTunnel/Tests.antt =====
-- Runs of src/electron/go_vpn_tunnel.ts, the class GoVpnTunnel.
use pepper_vpn_client.VpnTunnel.Disconnecting.{
  IsSettled, disconnect_asks, DaemonAsked, ProcessAsked, udp_support_restarts,
}
use pepper_vpn_client.Common.{◌↔◌, arith, true, false, some, none, ◌≡◌, refl, suc}
use pepper_vpn_client.Errors.{plain}
use pepper_vpn_client.Common.Exec.{err, ok}
use pepper_vpn_client.VpnTunnel.{
  returns, settles, Ending, same, new_vpn_tunnel, disconnect, start_helpers, update_udp_support,
  GoVpnTunnel,
}
use pepper_vpn_client.RoutingDaemon.{new_routing_daemon}
use pepper_vpn_client.Tun2socks.{process_exits, check_connectivity}
use pepper_vpn_client.Tun2socks

abbrev tunnel : GoVpnTunnel
tunnel = start_helpers (new_vpn_tunnel (new_routing_daemon "1.2.3.4" false))

-- The process ends when it is stopped.
abbrev halting : GoVpnTunnel → GoVpnTunnel
halting t = record t { tun2socks = process_exits t.tun2socks }

halting_keeps : (a : GoVpnTunnel) → ProcessAsked a → ProcessAsked (halting a)
unfolding process_exits
halting_keeps a h = ground arith

open_tunnel : tunnel.is_disconnected ≡ false
unfolding start_helpers new_vpn_tunnel
open_tunnel = refl

-- The process of tun2socks exits with an error: its `stop` is rejected.
abbrev halt : Ending
halt = settles (err (plain "exit code"))

disconnect_asks_example :
    (((disconnect halting halt (λ a. a) (settles (ok tt)) tunnel).1 ≡ returns)
      ↔ (IsSettled halt × IsSettled (settles (ok tt))))
    × ((disconnect halting halt (λ a. a) (settles (ok tt)) tunnel).1 ≡ returns
        → ((disconnect halting halt (λ a. a) (settles (ok tt)) tunnel).0.is_disconnected ≡ true)
          × ((disconnect halting halt (λ a. a) (settles (ok tt)) tunnel).0.helpers_stopped ≡ true)
          × ProcessAsked (disconnect halting halt (λ a. a) (settles (ok tt)) tunnel).0
          × DaemonAsked (disconnect halting halt (λ a. a) (settles (ok tt)) tunnel).0)
disconnect_asks_example =
    disconnect_asks halting halt (λ a. a) (settles (ok tt)) tunnel open_tunnel halting_keeps
      (λ a h. h) (λ a h. h)

abbrev disconnecting : GoVpnTunnel → GoVpnTunnel
disconnecting t = (disconnect halting halt (λ a. a) (settles (ok tt)) t).0

closed : (disconnecting tunnel).is_disconnected ≡ true
unfolding disconnect start_helpers new_vpn_tunnel
closed = refl

ended : (disconnecting tunnel).tun2socks.child_process ≡ none
unfolding disconnect start_helpers new_vpn_tunnel process_exits Tun2socks.start Tun2socks.stop
ended = refl

checks : check_connectivity (ok tt) ≡ ok true
unfolding check_connectivity
checks = refl

changes : same true tunnel.is_udp_enabled ≡ false
unfolding start_helpers new_vpn_tunnel
changes = refl

udp_support_restarts_example :
    ((update_udp_support disconnecting (ok tt) (λ a. a) true tunnel).is_disconnected ≡ true)
    × ((update_udp_support disconnecting (ok tt) (λ a. a) true tunnel).tun2socks.stop_requested
        ≡ false)
    × ((update_udp_support disconnecting (ok tt) (λ a. a) true tunnel).tun2socks.spawned
        ≡ suc (disconnecting tunnel).tun2socks.spawned)
    × ((update_udp_support disconnecting (ok tt) (λ a. a) true tunnel).tun2socks.child_process
        ≡ some (disconnecting tunnel).tun2socks.calls)
udp_support_restarts_example =
    udp_support_restarts disconnecting (ok tt) true tunnel closed ended checks changes
