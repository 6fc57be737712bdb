-- ===== src/VpnTunnel/Disconnecting.antt =====
-- Disconnecting the tunnel of src/electron/go_vpn_tunnel.ts, and what may still start afterwards.
use pepper_vpn_client.Common.{
  inr, sym, inl, ◌↔◌, suc, Bool, true, false, some, none, ◌≡◌, ◌⊎◌, refl, arith,
}
use pepper_vpn_client.VpnTunnel.{
  settles, Thrown, returns, never, disconnect_routing, Ending, GoVpnTunnel, disconnect,
  update_udp_support, same,
}
use pepper_vpn_client.Common.Exec.{err, Result, ok}
use pepper_vpn_client.Tun2socks.{ProcessError, check_connectivity, round}
use pepper_vpn_client.Tun2socks
use pepper_vpn_client.RoutingDaemon

-- the tunnel's process is asked to stop, and so is its routing daemon, unless it is disconnected
abbrev pub ProcessAsked : GoVpnTunnel → Type 0
ProcessAsked t = t.tun2socks.stop_requested ≡ true

abbrev pub DaemonAsked : GoVpnTunnel → Type 0
DaemonAsked t = (t.routing.stopping ≡ true) ⊎ (t.routing.disconnected ≡ true)

stop_asked :
    (d : RoutingDaemon.RoutingDaemon)
    → ((RoutingDaemon.stop d).stopping ≡ true) ⊎ ((RoutingDaemon.stop d).disconnected ≡ true)
unfolding RoutingDaemon.stop RoutingDaemon.write_reset
stop_asked d = ground arith

-- the promise is fulfilled or rejected
abbrev pub IsSettled : Ending → Type 0
IsSettled e = (r : Result Thrown (Unit {0})) × (e ≡ settles r)

Ending-cases : (e : Ending) → (e ≡ never) ⊎ IsSettled e
Ending-cases never = inl refl
Ending-cases (settles r) = inr (r, refl)

-- The second half of `disconnect`, when the promise of the routing daemon's `stop` is settled.
routing_ends :
    (resetting : GoVpnTunnel → GoVpnTunnel) (reset : Ending) (t : GoVpnTunnel)
    → IsSettled reset
    → ((disconnect_routing resetting reset t).1 ≡ returns)
      × ((disconnect_routing resetting reset t).0
          ≡ record (resetting (record t { routing = RoutingDaemon.stop t.routing })) {
            helpers_stopped = true;
            is_disconnected = true;
          })
unfolding disconnect_routing
routing_ends resetting reset t (ok _, is) = rw (is, disconnect_routing) (refl, refl)
routing_ends resetting reset t (err e, is) = rw (is, disconnect_routing) (refl, refl)

routing_waits :
    (resetting : GoVpnTunnel → GoVpnTunnel) (t : GoVpnTunnel)
    → ¬ ((disconnect_routing resetting never t).1 ≡ returns)
unfolding disconnect_routing
routing_waits resetting t h = cc

disconnect_settled :
    (halting : GoVpnTunnel → GoVpnTunnel) (halt : Ending) (resetting : GoVpnTunnel → GoVpnTunnel)
    (reset : Ending) (t : GoVpnTunnel)
    → t.is_disconnected ≡ false
    → IsSettled halt
    → disconnect halting halt resetting reset t
      ≡ disconnect_routing resetting reset
          (halting (record t { tun2socks = Tun2socks.stop t.tun2socks }))
unfolding disconnect
disconnect_settled halting halt resetting reset t unended (ok _, is) = simp (unended, is)
disconnect_settled halting halt resetting reset t unended (err e, is) = simp (unended, is)

disconnect_waits :
    (halting resetting : GoVpnTunnel → GoVpnTunnel) (reset : Ending) (t : GoVpnTunnel)
    → t.is_disconnected ≡ false
    → ¬ ((disconnect halting never resetting reset t).1 ≡ returns)
unfolding disconnect
disconnect_waits halting resetting reset t unended h = cc

disconnect_iff :
    (halting : GoVpnTunnel → GoVpnTunnel) (halt : Ending) (resetting : GoVpnTunnel → GoVpnTunnel)
    (reset : Ending) (t : GoVpnTunnel)
    → t.is_disconnected ≡ false
    → ((disconnect halting halt resetting reset t).1 ≡ returns) ↔ (IsSettled halt × IsSettled reset)
disconnect_iff halting halt resetting reset t unended = (
  λ ends. elim (Ending-cases halt) [
    | inl hangs ↦ absurd (disconnect_waits halting resetting reset t unended (rw (sym hangs) ends))
    | inr halts ↦ elim (Ending-cases reset) [
      | inr resets ↦ (halts, resets)
      | inl hangs ↦ absurd (
          routing_waits resetting (halting (record t { tun2socks = Tun2socks.stop t.tun2socks })) (
            rw (sym hangs)
              (rw (sym (disconnect_settled halting halt resetting reset t unended halts)) ends)))
    ]
  ],
  λ (halts, resets).
      rw (disconnect_settled halting halt resetting reset t unended halts)
        (routing_ends resetting reset _ resets).0,
)

-- A `disconnect` of a tunnel that is not disconnected ends exactly if the promises of both `stop` are
-- settled, and it makes no difference whether they are fulfilled or rejected. When it ends, the
-- tunnel is disconnected, `onceDisconnected` is fulfilled, and both helpers have been asked to stop,
-- if nothing that happens meanwhile starts them again.
pub disconnect_asks :
    (halting : GoVpnTunnel → GoVpnTunnel) (halt : Ending) (resetting : GoVpnTunnel → GoVpnTunnel)
    (reset : Ending) (t : GoVpnTunnel)
    → t.is_disconnected ≡ false
    → ((a : GoVpnTunnel) → ProcessAsked a → ProcessAsked (halting a))
    → ((a : GoVpnTunnel) → ProcessAsked a → ProcessAsked (resetting a))
    → ((a : GoVpnTunnel) → DaemonAsked a → DaemonAsked (resetting a))
    → (((disconnect halting halt resetting reset t).1 ≡ returns)
        ↔ (IsSettled halt × IsSettled reset))
      × ((disconnect halting halt resetting reset t).1 ≡ returns
          → ((disconnect halting halt resetting reset t).0.is_disconnected ≡ true)
            × ((disconnect halting halt resetting reset t).0.helpers_stopped ≡ true)
            × ProcessAsked (disconnect halting halt resetting reset t).0
            × DaemonAsked (disconnect halting halt resetting reset t).0)
disconnect_asks halting halt resetting reset t unended halts resets keeps =
    let iff = disconnect_iff halting halt resetting reset t unended in
    let stopped = record t { tun2socks = Tun2socks.stop t.tun2socks } in
    let halted = halting stopped in
    let asked = halts stopped (unfold Tun2socks.stop in refl) in
    let reset_too = record halted { routing = RoutingDaemon.stop halted.routing } in
    let first = resets reset_too asked in
    let second = keeps reset_too (stop_asked halted.routing) in
    (
      iff,
      λ ends.
          let (both, also) = iff.0 ends in
          rw
            (
              disconnect_settled halting halt resetting reset t unended both,
              (routing_ends resetting reset halted also).1,
            )
            (refl, refl, first, second),
    )

-- A tunnel that is disconnected while its UDP support is checked, and whose process has ended, starts
-- the process again if the support has changed.
pub udp_support_restarts :
    (disconnecting : GoVpnTunnel → GoVpnTunnel) (checked : Result ProcessError (Unit {0}))
    (udp : Bool) (t : GoVpnTunnel)
    → (disconnecting t).is_disconnected ≡ true
    → (disconnecting t).tun2socks.child_process ≡ none
    → check_connectivity checked ≡ ok udp
    → same udp t.is_udp_enabled ≡ false
    → ((update_udp_support disconnecting checked (λ a. a) true t).is_disconnected ≡ true)
      × ((update_udp_support disconnecting checked (λ a. a) true t).tun2socks.stop_requested
          ≡ false)
      × ((update_udp_support disconnecting checked (λ a. a) true t).tun2socks.spawned
          ≡ suc (disconnecting t).tun2socks.spawned)
      × ((update_udp_support disconnecting checked (λ a. a) true t).tun2socks.child_process
          ≡ some (disconnecting t).tun2socks.calls)
unfolding update_udp_support Tun2socks.start Tun2socks.stop round
udp_support_restarts disconnecting checked udp t closed ended answer changed = ground arith
