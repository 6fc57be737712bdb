-- ===== src/VpnTunnel.antt =====
-- src/electron/go_vpn_tunnel.ts, the class GoVpnTunnel, over the process tun2socks and the routing
-- daemon. `meanwhile`, `halting` and `resetting` are what happens to the tunnel while a method waits:
-- other methods, and the steps of the two helpers.
pub mod Disconnecting
mod Tests
use pepper_vpn_client.Common.{Bool, true, false, not, List, [], ◌∷◌, ◌++◌, if◌then◌else◌}
use pepper_vpn_client.Common.Exec.{Result, ok, err}
use pepper_vpn_client.Errors.{Thrown}
use pepper_vpn_client.Tun2socks
use pepper_vpn_client.Tun2socks.{GoTun2socks, new_tun2socks, ProcessError, check_connectivity}
use pepper_vpn_client.RoutingDaemon
use pepper_vpn_client.RoutingDaemon.{set_on_network_change}

-- `TunnelStatus`
pub data TunnelStatus : Type 0 where
  connected disconnected reconnecting : TunnelStatus

pub record GoVpnTunnel : Type 0 where
  pub tun2socks : GoTun2socks
  pub routing : RoutingDaemon.RoutingDaemon
  pub is_disconnected : Bool
  pub is_udp_enabled : Bool
  -- whether `onceDisconnected` is fulfilled
  pub helpers_stopped : Bool
  -- whether the suspend and resume events of the system are listened to
  pub hears_power : Bool
  pub has_reconnecting_listener : Bool
  pub has_reconnected_listener : Bool
  -- the calls of these two listeners
  pub told : List TunnelStatus

unfoldable pub new_vpn_tunnel : RoutingDaemon.RoutingDaemon → GoVpnTunnel
new_vpn_tunnel routing = record {
  tun2socks = new_tun2socks;
  routing = set_on_network_change true routing;
  is_disconnected = false;
  is_udp_enabled = false;
  helpers_stopped = false;
  hears_power = false;
  has_reconnecting_listener = false;
  has_reconnected_listener = false;
  told = [];
}

abbrev pub start_tun2socks : GoVpnTunnel → GoVpnTunnel
start_tun2socks t = record t { tun2socks = Tun2socks.start t.tun2socks }

abbrev pub stop_tun2socks : GoVpnTunnel → GoVpnTunnel
stop_tun2socks t = record t { tun2socks = Tun2socks.stop t.tun2socks }

-- The end of `connect`, which then waits for the promise of the routing daemon's `start`.
unfoldable pub start_helpers : GoVpnTunnel → GoVpnTunnel
start_helpers t =
    let launched = start_tun2socks t in
    record launched { routing = RoutingDaemon.start launched.routing }

-- `connect`, up to its last `await`; `checked` is how the process of the connectivity check ends.
unfoldable pub connect :
    (GoVpnTunnel → GoVpnTunnel)
    → Bool
    → Result ProcessError (Unit {0})
    → Bool
    → GoVpnTunnel
    → GoVpnTunnel × Result Thrown (Unit {0})
unfolding start_helpers
connect meanwhile is_windows checked check_first t =
    let listening = if is_windows then record t { hears_power = true } else t in
    if check_first
    then (let waited = meanwhile listening in
        elim (check_connectivity checked) [
          | ok udp ↦ (start_helpers (record waited { is_udp_enabled = udp }), ok tt)
          | err e ↦ (waited, err e)
        ])
    else (start_helpers listening, ok tt)

abbrev pub same : Bool → Bool → Bool
same true b = b
same false b = not b

-- `updateUdpSupport`; `stops` tells whether the `stop` of tun2socks is fulfilled, which it is if no
-- process runs or the process exits with 0.
unfoldable pub update_udp_support :
    (GoVpnTunnel → GoVpnTunnel)
    → Result ProcessError (Unit {0})
    → (GoVpnTunnel → GoVpnTunnel)
    → Bool
    → GoVpnTunnel
    → GoVpnTunnel
update_udp_support meanwhile checked halting stops t =
    let waited = meanwhile t in
    elim (check_connectivity checked) [
      | err _ ↦ waited
      | ok udp ↦
          let updated = record waited { is_udp_enabled = udp } in
          if same udp t.is_udp_enabled
          then updated
          else (let halted = halting (stop_tun2socks updated) in
              if stops then start_tun2socks halted else halted)
    ]

-- The part of `networkChanged` before `updateUdpSupport`.
unfoldable pub tell : TunnelStatus → GoVpnTunnel → GoVpnTunnel
tell connected t =
    if t.has_reconnected_listener then record t { told = t.told ++ connected ∷ [] } else t
tell reconnecting t =
    if t.has_reconnecting_listener then record t { told = t.told ++ reconnecting ∷ [] } else t
tell disconnected t = t

unfoldable pub network_changed :
    (GoVpnTunnel → GoVpnTunnel)
    → Result ProcessError (Unit {0})
    → (GoVpnTunnel → GoVpnTunnel)
    → Bool
    → TunnelStatus
    → GoVpnTunnel
    → GoVpnTunnel
unfolding tell update_udp_support
network_changed meanwhile checked halting stops connected t =
    update_udp_support meanwhile checked halting stops (tell connected t)
network_changed meanwhile checked halting stops status t = tell status t

unfoldable pub suspend_listener : GoVpnTunnel → GoVpnTunnel
suspend_listener t = stop_tun2socks t

unfoldable pub resume_listener :
    (GoVpnTunnel → GoVpnTunnel)
    → Result ProcessError (Unit {0})
    → (GoVpnTunnel → GoVpnTunnel)
    → Bool
    → GoVpnTunnel
    → GoVpnTunnel
unfolding update_udp_support
resume_listener meanwhile checked halting stops t =
    if t.is_disconnected
    then t
    else update_udp_support meanwhile checked halting stops (start_tun2socks t)

-- How a promise that is awaited ends, if it ends.
pub data Ending : Type 0 where
  settles : Result Thrown (Unit {0}) → Ending
  never : Ending

-- whether a method has come to its end, or waits for a promise
pub data Course : Type 0 where
  returns waits : Course

-- The second half of `disconnect`, behind `await this.tun2socks.stop()` and its `try`.
unfoldable pub disconnect_routing :
    (GoVpnTunnel → GoVpnTunnel) → Ending → GoVpnTunnel → GoVpnTunnel × Course
disconnect_routing resetting reset t =
    let waited = resetting (record t { routing = RoutingDaemon.stop t.routing }) in
    let ended = record waited { helpers_stopped = true; is_disconnected = true } in
    elim reset [
      | never ↦ (waited, waits)
      | settles (ok _) ↦ (ended, returns)
      | settles (err e) ↦ (ended, returns)
    ]

-- `disconnect`: `halt` and `reset` are how the promises of the two `stop` end. What they reject with
-- is caught. The listeners of the system's events are not removed, since `bind` makes new functions.
unfoldable pub disconnect :
    (GoVpnTunnel → GoVpnTunnel)
    → Ending
    → (GoVpnTunnel → GoVpnTunnel)
    → Ending
    → GoVpnTunnel
    → GoVpnTunnel × Course
unfolding disconnect_routing
disconnect halting halt resetting reset t =
    if t.is_disconnected
    then (t, returns)
    else (let halted = halting (stop_tun2socks t) in
        elim halt [
          | never ↦ (halted, waits)
          | settles (ok _) ↦ disconnect_routing resetting reset halted
          | settles (err e) ↦ disconnect_routing resetting reset halted
        ])

unfoldable pub on_reconnecting : GoVpnTunnel → GoVpnTunnel
on_reconnecting t = record t { has_reconnecting_listener = true }

unfoldable pub on_reconnected : GoVpnTunnel → GoVpnTunnel
on_reconnected t = record t { has_reconnected_listener = true }
