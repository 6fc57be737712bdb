-- ===== src/ElectronTunnel.antt =====
-- src/www/app/electron_outline_tunnel.ts: the tunnel as the user interface of the desktop client has
-- it. The channel to the main process brings messages, and the calls of `invoke` are kept in their
-- order. A call is split at its `await`.
pub mod Hearing
mod Tests
use pepper_vpn_client.Common.{
  ℕ, zero, suc, Bool, true, false, not, Option, none, some, List, [], ◌∷◌, ◌++◌, ◌==◌,
  if◌then◌else◌,
}
use pepper_vpn_client.Common.Exec.{Result, ok, err}
use pepper_vpn_client.Errors.ErrorCode
use pepper_vpn_client.VpnTunnel.{TunnelStatus, connected, disconnected, reconnecting}

pub data Invoked : Type 0 where
  start_proxying stop_proxying : Invoked

pub record ElectronOutlineTunnel : Type 0 where
  pub running : Bool
  -- whether there is a `statusChangeListener`, and its calls
  pub has_listener : Bool
  pub heard : List TunnelStatus
  -- the listeners that `once` has added for the message that the proxy has disconnected
  pub once_disconnected : ℕ
  pub invoked : List Invoked

abbrev pub new_electron_tunnel : ElectronOutlineTunnel
new_electron_tunnel = record {
  running = false;
  has_listener = false;
  heard = [];
  once_disconnected = 0;
  invoked = [];
}

abbrev is_connected : TunnelStatus → Bool
is_connected connected = true
is_connected _ = false

unfoldable pub handle_status_change : TunnelStatus → ElectronOutlineTunnel → ElectronOutlineTunnel
handle_status_change status t =
    let changed = record t { running = is_connected status } in
    if t.has_listener then record changed { heard = t.heard ++ status ∷ [] } else changed

-- The message that the proxy has disconnected calls every listener that waits for it, once.
unfoldable pub call_listeners : ℕ → ElectronOutlineTunnel → ElectronOutlineTunnel
unfolding handle_status_change
call_listeners zero t = t
call_listeners (suc n) t = call_listeners n (handle_status_change disconnected t)

unfoldable pub proxy_disconnected : ElectronOutlineTunnel → ElectronOutlineTunnel
unfolding call_listeners
proxy_disconnected t = call_listeners t.once_disconnected (record t { once_disconnected = 0 })

-- `start` before its `await`, and the rest, with the code that the main process answers
unfoldable pub start_begins : ElectronOutlineTunnel → ElectronOutlineTunnel
start_begins t = if t.running then t else record t {
  once_disconnected = suc t.once_disconnected;
  invoked = t.invoked ++ start_proxying ∷ [];
}

unfoldable pub start_ends : ℕ → ElectronOutlineTunnel → ElectronOutlineTunnel × Result ℕ (Unit {0})
start_ends code t =
    if code == ErrorCode.no_error then (record t { running = true }, ok tt) else (t, err code)

-- `stop` before its `await`, and the rest; `stopped` tells whether the main process has succeeded.
-- Neither rejects.
unfoldable pub stop_begins : ElectronOutlineTunnel → ElectronOutlineTunnel
stop_begins t = if t.running then record t { invoked = t.invoked ++ stop_proxying ∷ [] } else t

unfoldable pub stop_ends : Bool → ElectronOutlineTunnel → ElectronOutlineTunnel
stop_ends stopped t = if stopped then record t { running = false } else t

unfoldable pub on_status_change : ElectronOutlineTunnel → ElectronOutlineTunnel
on_status_change t = record t { has_listener = true }

-- What may happen to a tunnel. A call of `start` goes on only if it has invoked, and so does one of
-- `stop`.
pub data Event : Type 0 where
  starts stops proxy_connects proxy_reconnects proxy_disconnects listens : Event
  start_answers : ℕ → Event
  stop_answers : Bool → Event

unfoldable pub event : Event → ElectronOutlineTunnel → ElectronOutlineTunnel
unfolding start_begins stop_begins start_ends stop_ends handle_status_change proxy_disconnected
    on_status_change
event starts t = start_begins t
event stops t = stop_begins t
event proxy_connects t = handle_status_change connected t
event proxy_reconnects t = handle_status_change reconnecting t
event proxy_disconnects t = proxy_disconnected t
event listens t = on_status_change t
event (start_answers code) t = (start_ends code t).0
event (stop_answers stopped) t = stop_ends stopped t

unfoldable pub run : List Event → ElectronOutlineTunnel → ElectronOutlineTunnel
unfolding event
run [] t = t
run (e ∷ es) t = run es (event e t)
