-- ===== src/MainProcess/Answers.antt =====
-- What the handlers of src/electron/index.ts answer, and leave behind.
use pepper_vpn_client.Common.{arith, ℕ, String, true, false, some, ◌≡◌}
use pepper_vpn_client.MainProcess.{
  MainProcess, done, stop_vpn, tunnel_ends, set_ui_tunnel_status, update_tray,
  tear_down_auto_launch,
}
use pepper_vpn_client.Common.Exec.{Result, err}
use pepper_vpn_client.Errors.{plain}
use pepper_vpn_client.Errors.ErrorCode
use pepper_vpn_client.MainProcess.Proxying.{Meanwhile}

-- What happens while a handler waits neither creates a tunnel nor ends the current one. The store,
-- the window, the tray and the requests to disconnect may change.
pub record IsUndisturbed (meanwhile : MainProcess → MainProcess) : Type 0 where
  pub current : (a : MainProcess) → (meanwhile a).current_tunnel ≡ a.current_tunnel
  pub created : (a : MainProcess) → (meanwhile a).created ≡ a.created
  pub ids : (a : MainProcess) → (meanwhile a).ids ≡ a.ids
  pub configs : (a : MainProcess) → (meanwhile a).configs ≡ a.configs
  pub auto_connects : (a : MainProcess) → (meanwhile a).auto_connects ≡ a.auto_connects

-- The waits of a start that succeeds.
pub record AllUndisturbed (during : Meanwhile) : Type 0 where
  pub looking_up : IsUndisturbed during.looking_up
  pub connecting : IsUndisturbed during.connecting
  pub saving : IsUndisturbed during.saving

-- A tunnel that ends while `stopVpn` takes it out of the store is no longer the current one when
-- `stopVpn` reads `currentTunnel` again to wait for its end: the function throws, although the VPN
-- has stopped.
pub stop_vpn_throws :
    (ending : MainProcess → MainProcess) (unlink : Result String (Unit {0})) (n : ℕ)
    (m : MainProcess)
    → m.current_tunnel ≡ some n
    → m.ended n ≡ false
    → ((stop_vpn (tunnel_ends n) ending unlink m).1 ≡ done (err (plain "TypeError")))
      × ((stop_vpn (tunnel_ends n) ending unlink m).0.ended n ≡ true)
      × ((stop_vpn (tunnel_ends n) ending unlink m).0.tray_is_connected ≡ false)
unfolding stop_vpn tunnel_ends set_ui_tunnel_status update_tray tear_down_auto_launch
stop_vpn_throws ending unlink n m there alive = ground arith
